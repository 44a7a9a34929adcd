-- ===== src/Attendance/Examples.antt =====
-- A section with a user of each kind: on time, late with a check that carries forward, on leave, on a
-- rest day, in a course, and not arrived.
use ding_ding_schedule.Timetable.WeekList.{contains_week}
use ding_ding_schedule.Prelude.{
  ℕ, ◌+◌, ◌*◌, true, ◌≡◌, refl, String, Option, none, some, List, [], ◌∷◌, str_eq, ◌⊎◌,
  if◌then◌else◌,
}
use ding_ding_schedule.Prelude.Int.{pos}
use ding_ding_schedule.Attendance.{
  User, AttendanceUserBasic, AttendanceUserCheck, AttendanceDetailRequest, AttendanceWindow,
  AttendanceDetailResponse, filter_model_users, user_id_bool_set,
}
use ding_ding_schedule.Attendance.Sources.{Sources, AttendanceManualOverride, CheckRecord}
use ding_ding_schedule.Attendance.Detail.{
  answer, ◌>>=◌, Checks, get_attendance_candidates_with_course_users, get_leave_users,
  filter_rest_day_users, get_on_time_users, earliest_check, calculate_check_window_start,
  busy_users, classify, leaves_of, should_use_all_attend_mode, weekday_mon1_sun7,
}
use ding_ding_schedule.Attendance.Build.{
  build_attendance_detail, Groups, group_users, assemble, carry, on_rest_day, finish,
}
use ding_ding_schedule.Attendance.CarryForward.{apply_carry_forward, carried}
use ding_ding_schedule.Attendance.Overrides.{apply_manual_overrides_to_detail}
use ding_ding_schedule.Attendance.Split.{Parts}
use ding_ding_schedule.Attendance.Partition.{candidates_divided}
use ding_ding_schedule.Attendance.Checks.{
  checked_at, first_on_duty, earliest_check-first_on_duty, Timed, get_on_time_users-Timed,
}
use ding_ding_schedule.Attendance.Forced.{Overridden, forced, Counted, overrides_force_on_time}
use ding_ding_schedule.Attendance.Counts.{detail_counts_lists}

abbrev user : ℕ → String → User
user i name = record { id = i; ding_user_id = name; name = name; avatar = "" }

abbrev users : List User
users = user 1 "ann" ∷ user 2 "bob" ∷ user 3 "cat" ∷ user 4 "dan" ∷ user 5 "eva" ∷ user 6 "fay" ∷ []

abbrev clock : String → Option (ℕ × ℕ)
clock text = if str_eq text "08:45" then some (8, 45) else some (9, 0)

abbrev check : String → ℕ → CheckRecord
check name t = record { ding_user_id = name; check_type = "OnDuty"; check_time = t }

abbrev records : List CheckRecord
records = check "ann" 535 ∷ check "bob" 560 ∷ check "bob" 550 ∷ []

abbrev school : Sources
school = record {
  attendance_candidates = some users;
  current_mode = none;
  semester = none;
  weekday = λ date. 1;
  at_clock = λ date hour minute. hour * 60 + minute;
  active_periods = none;
  config_periods =
      record { start = "08:00"; end = "08:45" } ∷ record { start = "09:00"; end = "09:45" } ∷ [];
  courses = λ ids day section. some (record { user_id = 5; week_list = 51 ∷ [] } ∷ []);
  rest_day_repository = true;
  rest_day_setting = none;
  rest_days = λ ids. some (record { user_id = 4; day_of_week = 1 } ∷ []);
  approved_leaves =
      λ ids from to. some (record { user_id = 3; leave_type = "sick"; reason = "flu" } ∷ []);
  attendance_records = λ ids from to. some records;
  map_order = λ checks. checks;
  max_carry_forward_gap_minutes = pos 20;
  parse_clock = clock;
  attendance_record = λ date section. some (record { on_time_ids = "ids"; late_ids = "" });
  parse_stored_checks = λ text. some (record { id = 2; check_time = pos 480 } ∷ []);
  from_unix = λ t. 480;
  department_names = λ ids. none;
  manual_overrides = none;
}

abbrev request : AttendanceDetailRequest
request = record { date = "2026-03-02"; week = pos 3; section = 2 }

abbrev window : AttendanceWindow
window = record {
  date = 1;
  periods =
      record { start = "08:00"; end = "08:45" } ∷ record { start = "09:00"; end = "09:45" } ∷ [];
  slot_start = 540;
  slot_end = 585;
  late_deadline = 540;
}

abbrev basic : ℕ → String → AttendanceUserBasic
basic i name = record { id = i; name = name; avatar = ""; dept_name = "" }

abbrev checked_user : ℕ → String → ℕ → AttendanceUserCheck
checked_user i name t = record { id = i; name = name; avatar = ""; dept_name = ""; check_time = t }

-- The user whose check carries forward is on time, and late as well: the four counts of those who
-- should attend add up to one more than there are.
abbrev detail : AttendanceDetailResponse
detail = record {
  date = "2026-03-02";
  week = pos 3;
  section = 2;
  slot_time = record { start = "09:00"; end = "09:45" };
  statistics = record {
    should_attend = 4;
    on_time = 2;
    late = 1;
    leave = 1;
    not_arrived = 1;
    rest_day = 1;
    has_course = 1;
  };
  users = record {
    should_attend = basic 1 "ann" ∷ basic 2 "bob" ∷ basic 3 "cat" ∷ basic 6 "fay" ∷ [];
    on_time = checked_user 1 "ann" 535 ∷ checked_user 2 "bob" 480 ∷ [];
    late = checked_user 2 "bob" 550 ∷ [];
    leave =
        record {
          id = 3;
          name = "cat";
          avatar = "";
          dept_name = "";
          leave_type = "sick";
          reason = "flu";
        }
        ∷ [];
    not_arrived = basic 6 "fay" ∷ [];
    rest_day = basic 4 "dan" ∷ [];
    has_course = basic 5 "eva" ∷ [];
  };
}

abbrev groups : Groups
groups = record {
  rest = user 4 "dan" ∷ [];
  leave =
      record {
        id = 3;
        name = "cat";
        avatar = "";
        dept_name = "";
        leave_type = "sick";
        reason = "flu";
      }
      ∷ [];
  course = user 5 "eva" ∷ [];
  should_attend = user 1 "ann" ∷ user 2 "bob" ∷ user 3 "cat" ∷ user 6 "fay" ∷ [];
}

candidates_listed :
    get_attendance_candidates_with_course_users school 1 (pos 3) 2
    ≡ answer (users, user 5 "eva" ∷ [])
unfolding get_attendance_candidates_with_course_users should_use_all_attend_mode busy_users
    contains_week
candidates_listed = refl

one_rests : on_rest_day school window users ≡ user 4 "dan" ∷ []
unfolding filter_rest_day_users weekday_mon1_sun7
one_rests = refl

one_on_leave :
    get_leave_users school (filter_model_users users (user_id_bool_set (user 4 "dan" ∷ []))) 540 585
    ≡ answer groups.leave
unfolding get_leave_users filter_model_users user_id_bool_set leaves_of
one_on_leave = refl

grouped : group_users users (user 5 "eva" ∷ []) (user 4 "dan" ∷ []) groups.leave ≡ groups
unfolding group_users
grouped = refl

abbrev checks : Checks
checks = (checked_user 1 "ann" 535 ∷ [], checked_user 2 "bob" 550 ∷ [])

checks_placed : get_on_time_users school groups.should_attend 1 2 540 585 ≡ answer checks
unfolding get_on_time_users classify earliest_check
checks_placed = refl

check_carried :
    carry school request window groups checks
    ≡ (checked_user 1 "ann" 535 ∷ checked_user 2 "bob" 480 ∷ [], checked_user 2 "bob" 550 ∷ [])
unfolding apply_carry_forward carried
check_carried = refl

assembled :
    assemble school request
      (record { start = "09:00"; end = "09:45" })
      true
      users
      groups
      (checked_user 1 "ann" 535 ∷ checked_user 2 "bob" 480 ∷ [], checked_user 2 "bob" 550 ∷ [])
    ≡ (detail, user 6 "fay" ∷ [])
unfolding assemble
assembled = refl

abbrev whole : AttendanceDetailResponse × List User
whole = (detail, user 6 "fay" ∷ [])

finished : finish school request window 585 true users groups ≡ answer whole
finished = rw checks_placed (rw check_carried (rw assembled refl))

after_candidates :
    (get_leave_users school
        (filter_model_users users (user_id_bool_set (on_rest_day school window users)))
        540
        585
      >>= λ leave.
          finish school request window 585 true users
            (group_users users (user 5 "eva" ∷ []) (on_rest_day school window users) leave))
    ≡ answer whole
after_candidates = rw one_rests (rw one_on_leave (rw grouped finished))

detail_built : build_attendance_detail school request (some window) 585 true ≡ answer whole
unfolding build_attendance_detail
detail_built = rw candidates_listed after_candidates

candidates_divided_example : Parts true detail.users 3
candidates_divided_example =
    candidates_divided school request (some window) 585 true whole users 3 detail_built refl

detail_counts_lists_example : Counted detail
detail_counts_lists_example =
    detail_counts_lists school request (some window) 585 true whole detail_built

earliest_check-first_on_duty_example :
    checked_at "bob" (earliest_check [] records) ≡ first_on_duty "bob" records
earliest_check-first_on_duty_example = earliest_check-first_on_duty "bob" records

get_on_time_users-Timed_example :
    (checks ≡ ([], []))
    ⊎ ((window_start : ℕ) × (calculate_check_window_start school 1 2 ≡ some window_start)
        × Timed window_start 540 checks)
get_on_time_users-Timed_example =
    get_on_time_users-Timed school groups.should_attend 1 2 540 585 checks checks_placed

abbrev override : AttendanceManualOverride
override = record { user_id = 6; override_type = "force_on_time"; applied_at = 590 }

abbrev forced_detail : AttendanceDetailResponse
forced_detail = record detail {
  statistics = record (detail.statistics) { on_time = 3; not_arrived = 0 };
  users = record (detail.users) {
    on_time = checked_user 1 "ann" 535 ∷ checked_user 2 "bob" 480 ∷ checked_user 6 "fay" 590 ∷ [];
    not_arrived = [];
  };
}

override_applied :
    apply_manual_overrides_to_detail (some (some (override ∷ []))) detail ≡ answer forced_detail
unfolding apply_manual_overrides_to_detail
override_applied = refl

overrides_force_on_time_example :
    Overridden (forced detail.users (override ∷ []) 6) detail.users forced_detail.users 6
    × Counted forced_detail
overrides_force_on_time_example =
    overrides_force_on_time (override ∷ []) detail forced_detail 6 detail_counts_lists_example
      override_applied
