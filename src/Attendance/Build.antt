-- ===== src/Attendance/Build.antt =====
-- internal/service/attendance_record_service.go: who has not arrived, the names in the answer, and the
-- detail as a whole (buildAttendanceDetail).
use ding_ding_schedule.Prelude.{
  ℕ, ◌-◌, Bool, true, false, not, String, Option, none, some, List, [], ◌∷◌, ◌++◌, map, ◌==◌,
  keep_if, length, get_elem?, if◌then◌else◌,
}
use ding_ding_schedule.Attendance.{
  Time, User, AttendanceUserBasic, AttendanceUserCheck, AttendanceUserLeave,
  AttendanceDetailResponse, AttendanceDetailRequest, AttendanceWindow, AttendanceUserLists,
  SlotTimeInfo, Period, IdSet, has, user_id_bool_set, attendance_leave_id_bool_set, merge_bool_sets,
  filter_model_users, filter_attendance_checks, to_basic_list, to_rest_day_basic_list,
  new_attendance_detail_response,
}
use ding_ding_schedule.Attendance.Sources.{Sources}
use ding_ding_schedule.Attendance.Detail.{
  Outcome, failed, answer, ◌>>=◌, ids, window_missing, no_such_period, weekday_mon1_sun7,
  get_attendance_candidates_with_course_users, filter_rest_day_users, get_leave_users,
  get_on_time_users, Checks,
}
use ding_ding_schedule.Attendance.CarryForward.{apply_carry_forward}

abbrev pub check_ids : List AttendanceUserCheck → IdSet
check_ids users = map (λ u. u.id) users

abbrev pub leave_ids : List AttendanceUserLeave → IdSet
leave_ids users = map (λ u. u.id) users

unfoldable pub calculate_not_arrived_with_late :
    List User
    → List AttendanceUserCheck
    → List AttendanceUserCheck
    → List AttendanceUserLeave
    → List AttendanceUserBasic
calculate_not_arrived_with_late should_attend on_time late leave =
    map (λ u. record { id = u.id; name = u.name; avatar = ""; dept_name = "" })
      (keep_if (λ u. not (has (check_ids on_time ++ check_ids late ++ leave_ids leave) u.id))
        should_attend)

unfoldable pub calculate_not_arrived :
    List User → List AttendanceUserCheck → List AttendanceUserLeave → List AttendanceUserBasic
unfolding calculate_not_arrived_with_late
calculate_not_arrived should_attend on_time leave =
    calculate_not_arrived_with_late should_attend on_time [] leave

unfoldable pub build_notify_list :
    List User → List AttendanceUserCheck → List AttendanceUserLeave → List User
build_notify_list should_attend on_time leave =
    keep_if (λ u. not (has (check_ids on_time ++ leave_ids leave) u.id)) should_attend

-- the map of `enrichAttendanceDetailUsers`, where the first user at an id stays
abbrev pub first_user : List User → ℕ → Option User
first_user [] i = none
first_user (u ∷ users) i = if u.id == i then some u else first_user users i

abbrev pub fill_basic : Option User → (ℕ → String) → AttendanceUserBasic → AttendanceUserBasic
fill_basic none depts b = b
fill_basic (some u) depts b = record b { name = u.name; avatar = u.avatar; dept_name = depts b.id }

abbrev pub fill_check : Option User → (ℕ → String) → AttendanceUserCheck → AttendanceUserCheck
fill_check none depts c = c
fill_check (some u) depts c = record c { name = u.name; avatar = u.avatar; dept_name = depts c.id }

abbrev pub fill_leave : Option User → (ℕ → String) → AttendanceUserLeave → AttendanceUserLeave
fill_leave none depts l = l
fill_leave (some u) depts l = record l { name = u.name; avatar = u.avatar; dept_name = depts l.id }

abbrev pub names_or_none : Option (ℕ → String) → ℕ → String
names_or_none none i = ""
names_or_none (some names) i = names i

unfoldable pub fill_lists : List User → (ℕ → String) → AttendanceUserLists → AttendanceUserLists
fill_lists users depts lists = record {
  should_attend = map (λ b. fill_basic (first_user users b.id) depts b) lists.should_attend;
  on_time = map (λ c. fill_check (first_user users c.id) depts c) lists.on_time;
  late = map (λ c. fill_check (first_user users c.id) depts c) lists.late;
  leave = map (λ l. fill_leave (first_user users l.id) depts l) lists.leave;
  not_arrived = map (λ b. fill_basic (first_user users b.id) depts b) lists.not_arrived;
  rest_day = map (λ b. fill_basic (first_user users b.id) depts b) lists.rest_day;
  has_course = map (λ b. fill_basic (first_user users b.id) depts b) lists.has_course;
}

unfoldable pub enrich_attendance_detail_users :
    Sources → List User → AttendanceDetailResponse → AttendanceDetailResponse
unfolding fill_lists
enrich_attendance_detail_users s users resp = record resp {
  users = fill_lists users (names_or_none (s.department_names (ids users))) resp.users;
}

abbrev pub slot_of : Option Period → Outcome SlotTimeInfo
slot_of none = failed no_such_period
slot_of (some p) = answer (record { start = p.start; end = p.end })

abbrev pub with_late :
    Bool → List AttendanceUserCheck → AttendanceDetailResponse → AttendanceDetailResponse
with_late false late resp = resp
with_late true late resp = record resp {
  statistics = record (resp.statistics) { late = length late };
  users = record (resp.users) { late = late };
}

abbrev pub Answer : Type 0
Answer = Outcome (AttendanceDetailResponse × List User)

-- The users of a section, parted by rest days, leaves and courses.
pub record Groups : Type 0 where
  pub rest : List User
  pub leave : List AttendanceUserLeave
  pub course : List User
  pub should_attend : List User

-- rest day before leave, leave before course
unfoldable pub group_users : List User → List User → List User → List AttendanceUserLeave → Groups
unfolding filter_model_users merge_bool_sets user_id_bool_set attendance_leave_id_bool_set
group_users active with_course rest leave =
    let rest_set = user_id_bool_set rest in
    let leave_set = attendance_leave_id_bool_set leave in
    let course = filter_model_users with_course (merge_bool_sets (rest_set ∷ leave_set ∷ [])) in
    record {
      rest = rest;
      leave = leave;
      course = course;
      should_attend =
          filter_model_users active (merge_bool_sets (rest_set ∷ user_id_bool_set course ∷ []));
    }

-- the checks of those who are neither on leave nor on a rest day
unfoldable pub counted : Groups → List AttendanceUserCheck → List AttendanceUserCheck
unfolding filter_attendance_checks merge_bool_sets user_id_bool_set attendance_leave_id_bool_set
counted g checks =
    filter_attendance_checks checks
      (merge_bool_sets (attendance_leave_id_bool_set g.leave ∷ user_id_bool_set g.rest ∷ []))

-- the answer from the groups and the checks, the carried ones among those on time
unfoldable pub assemble :
    Sources
    → AttendanceDetailRequest
    → SlotTimeInfo
    → Bool
    → List User
    → Groups
    → Checks
    → AttendanceDetailResponse × List User
unfolding counted calculate_not_arrived calculate_not_arrived_with_late build_notify_list
    enrich_attendance_detail_users new_attendance_detail_response to_rest_day_basic_list
    to_basic_list
assemble s req slot split_late active g (carried, checked_late) =
    let on_time = counted g carried in
    let late = counted g checked_late in
    let not_arrived =
      if split_late
      then calculate_not_arrived_with_late g.should_attend on_time late g.leave
      else calculate_not_arrived g.should_attend on_time g.leave in
    let resp =
      new_attendance_detail_response req slot g.should_attend on_time g.leave not_arrived
        (to_rest_day_basic_list g.rest) (to_basic_list g.course) in
    (
      enrich_attendance_detail_users s active (with_late split_late late resp),
      build_notify_list g.should_attend on_time g.leave,
    )

-- the answer when nobody should attend
unfoldable pub nobody :
    Sources
    → AttendanceDetailRequest
    → SlotTimeInfo
    → List User
    → Groups
    → AttendanceDetailResponse × List User
unfolding enrich_attendance_detail_users new_attendance_detail_response to_rest_day_basic_list
    to_basic_list
nobody s req slot active g = (
  enrich_attendance_detail_users s active (
      new_attendance_detail_response req slot [] [] [] [] (to_rest_day_basic_list g.rest)
        (to_basic_list g.course)),
  [],
)

abbrev pub carry : Sources → AttendanceDetailRequest → AttendanceWindow → Groups → Checks → Checks
carry s req window g (on_time, late) =
    (apply_carry_forward s window.date req.section window.periods g.should_attend on_time, late)

abbrev pub attended :
    Sources
    → AttendanceDetailRequest
    → AttendanceWindow
    → Time
    → Bool
    → SlotTimeInfo
    → List User
    → Groups
    → Answer
attended s req window attendance_end split_late slot active g = do
  checks ←
      get_on_time_users s g.should_attend window.date req.section window.late_deadline
        attendance_end
  answer (assemble s req slot split_late active g (carry s req window g checks))

abbrev pub is_none_attending : List User → Bool
is_none_attending [] = true
is_none_attending (u ∷ us) = false

abbrev pub finish :
    Sources → AttendanceDetailRequest → AttendanceWindow → Time → Bool → List User → Groups → Answer
finish s req window attendance_end split_late active g = do
  slot ← slot_of (get_elem? window.periods (req.section - 1))
  if is_none_attending g.should_attend
      then answer (nobody s req slot active g)
      else attended s req window attendance_end split_late slot active g

abbrev pub on_rest_day : Sources → AttendanceWindow → List User → List User
on_rest_day s window active = filter_rest_day_users s active (weekday_mon1_sun7 s window.date)

unfoldable pub build_attendance_detail :
    Sources → AttendanceDetailRequest → Option AttendanceWindow → Time → Bool → Answer
unfolding get_on_time_users apply_carry_forward assemble nobody group_users filter_rest_day_users
    get_leave_users get_attendance_candidates_with_course_users weekday_mon1_sun7 filter_model_users
    user_id_bool_set
build_attendance_detail s req none attendance_end split_late = failed window_missing
build_attendance_detail s req (some window) attendance_end split_late = do
  (active, with_course) ←
      get_attendance_candidates_with_course_users s window.date req.week req.section
  leave ←
      get_leave_users s (filter_model_users active (user_id_bool_set (on_rest_day s window active)))
        window.slot_start window.slot_end
  finish s req window attendance_end split_late active
      (group_users active with_course (on_rest_day s window active) leave)
