-- ===== src/Attendance.antt =====
-- internal/service/attendance_record_service.go and internal/dto/attendance_record.go: the data of an
-- attendance detail, and the sets of users it is made with.
-- A Go set (map[uint]bool) is the list of its keys. The lists that the code fills in place are values
-- here, and no two of them share their elements.
pub mod Sources
pub mod Detail
pub mod CarryForward
pub mod Build
pub mod Overrides
pub mod Membership
pub mod Checks
pub mod Within
pub mod Split
pub mod Partition
pub mod Forced
pub mod Counts
mod Examples
use ding_ding_schedule.Prelude.{
  ℕ, Bool, true, false, not, ◌&&◌, ◌||◌, String, Option, none, some, List, [], ◌∷◌, ◌++◌, map, ◌==◌,
  any, keep_if, length, if◌then◌else◌,
}
use ding_ding_schedule.Prelude.Int.{ℤ, pos}

-- nanoseconds since Go's zero time
abbrev pub Time : Type 0
Time = ℕ

-- the fields of `model.User` that the code reads
pub record User : Type 0 where
  pub id : ℕ
  pub ding_user_id : String
  pub name : String
  pub avatar : String

pub record AttendanceUserBasic : Type 0 where
  pub id : ℕ
  pub name : String
  pub avatar : String
  pub dept_name : String

pub record AttendanceUserCheck : Type 0 where
  pub id : ℕ
  pub name : String
  pub avatar : String
  pub dept_name : String
  pub check_time : Time

pub record AttendanceUserLeave : Type 0 where
  pub id : ℕ
  pub name : String
  pub avatar : String
  pub dept_name : String
  pub leave_type : String
  pub reason : String

pub record AttendanceStatistics : Type 0 where
  pub should_attend : ℕ
  pub on_time : ℕ
  pub late : ℕ
  pub leave : ℕ
  pub not_arrived : ℕ
  pub rest_day : ℕ
  pub has_course : ℕ

pub record AttendanceUserLists : Type 0 where
  pub should_attend : List AttendanceUserBasic
  pub on_time : List AttendanceUserCheck
  pub late : List AttendanceUserCheck
  pub leave : List AttendanceUserLeave
  pub not_arrived : List AttendanceUserBasic
  pub rest_day : List AttendanceUserBasic
  pub has_course : List AttendanceUserBasic

pub record SlotTimeInfo : Type 0 where
  pub start : String
  pub end : String

-- The record of an answer, without the view that the callers set on it afterwards.
pub record AttendanceDetailResponse : Type 0 where
  pub date : String
  pub week : ℤ
  pub section : ℕ
  pub slot_time : SlotTimeInfo
  pub statistics : AttendanceStatistics
  pub users : AttendanceUserLists

pub record Period : Type 0 where
  pub start : String
  pub end : String

pub record AttendanceWindow : Type 0 where
  pub date : Time
  pub periods : List Period
  pub slot_start : Time
  pub slot_end : Time
  pub late_deadline : Time

-- The fields of the request that the detail is made from. `resolveAttendanceWindow` has checked that the
-- section is one of the periods.
pub record AttendanceDetailRequest : Type 0 where
  pub date : String
  pub week : ℤ
  pub section : ℕ

abbrev pub IdSet : Type 0
IdSet = List ℕ

abbrev pub has : IdSet → ℕ → Bool
has set i = any (λ id. id == i) set

unfoldable pub user_id_bool_set : List User → IdSet
user_id_bool_set users = map (λ u. u.id) users

unfoldable pub attendance_leave_id_bool_set : List AttendanceUserLeave → IdSet
attendance_leave_id_bool_set users = map (λ u. u.id) users

unfoldable pub merge_bool_sets : List IdSet → IdSet
merge_bool_sets [] = []
merge_bool_sets (set ∷ sets) = set ++ merge_bool_sets sets

-- A loop that copies what is not excluded; nothing excluded, the list itself.
abbrev pub filtered {ℓ} : {A : Type ℓ} → (A → ℕ) → List A → IdSet → List A
filtered id_of users [] = users
filtered id_of users (i ∷ excluded) = keep_if (λ u. not (has (i ∷ excluded) (id_of u))) users

unfoldable pub filter_model_users : List User → IdSet → List User
filter_model_users users excluded = filtered (λ u. u.id) users excluded

unfoldable pub filter_attendance_checks :
    List AttendanceUserCheck → IdSet → List AttendanceUserCheck
filter_attendance_checks users excluded = filtered (λ u. u.id) users excluded

unfoldable pub filter_attendance_basics :
    List AttendanceUserBasic → IdSet → List AttendanceUserBasic
filter_attendance_basics users excluded = filtered (λ u. u.id) users excluded

unfoldable pub to_basic_list : List User → List AttendanceUserBasic
to_basic_list users =
    map (λ u. record { id = u.id; name = u.name; avatar = u.avatar; dept_name = "" }) users

unfoldable pub to_rest_day_basic_list : List User → List AttendanceUserBasic
to_rest_day_basic_list users =
    map (λ u. record { id = u.id; name = u.name; avatar = ""; dept_name = "" }) users

unfoldable pub new_attendance_detail_response :
    AttendanceDetailRequest
    → SlotTimeInfo
    → List User
    → List AttendanceUserCheck
    → List AttendanceUserLeave
    → List AttendanceUserBasic
    → List AttendanceUserBasic
    → List AttendanceUserBasic
    → AttendanceDetailResponse
unfolding to_rest_day_basic_list
new_attendance_detail_response req slot should_attend on_time leave not_arrived rest_day
      has_course =
    record {
      date = req.date;
      week = req.week;
      section = req.section;
      slot_time = slot;
      statistics = record {
        should_attend = length should_attend;
        on_time = length on_time;
        late = 0;
        leave = length leave;
        not_arrived = length not_arrived;
        rest_day = length rest_day;
        has_course = length has_course;
      };
      users = record {
        should_attend = to_rest_day_basic_list should_attend;
        on_time = on_time;
        late = [];
        leave = leave;
        not_arrived = not_arrived;
        rest_day = rest_day;
        has_course = has_course;
      };
    }
