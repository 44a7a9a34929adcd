-- ===== src/Attendance/Detail.antt =====
-- internal/service/attendance_record_service.go: the attendance detail of a section, from its
-- candidates to the answer (buildAttendanceDetail and what it calls).
use ding_ding_schedule.Prelude.{
  ℕ, ◌-◌, Bool, true, false, not, ◌&&◌, ◌||◌, String, Option, none, some, List, [], ◌∷◌, map, ◌==◌,
  ltb, leb, keep_if, get_elem?, if◌then◌else◌, str_eq, is_empty,
}
use ding_ding_schedule.Prelude.Int.{ℤ}
use ding_ding_schedule.Timetable.WeekList.{contains_week}
use ding_ding_schedule.Attendance.{
  Time, User, AttendanceUserCheck, AttendanceUserLeave, Period, IdSet, has,
}
use ding_ding_schedule.Attendance.Sources.{
  Sources, Course, UserRestDay, LeaveRecord, CheckRecord, ScheduleMode, holiday, other_mode,
}

pub data AttendanceError : Type 0 where
  window_missing candidates_failed courses_failed leaves_failed : AttendanceError
  window_start_failed records_failed overrides_failed : AttendanceError
  -- the panic of an index out of range
  no_such_period : AttendanceError

pub data Outcome {ℓ} (Value : Type ℓ) : Type ℓ where
  failed : AttendanceError → Outcome Value
  answer : Value → Outcome Value

infixl 5 ◌>>=◌
abbrev pub ◌>>=◌ {ℓ κ} :
    {Value : Type ℓ} {Next : Type κ} → Outcome Value → (Value → Outcome Next) → Outcome Next
failed e >>= next = failed e
answer value >>= next = next value

abbrev pub or_fail {ℓ} : {Value : Type ℓ} → Option Value → AttendanceError → Outcome Value
or_fail none e = failed e
or_fail (some value) e = answer value

abbrev pub ids : List User → List ℕ
ids users = map (λ u. u.id) users

unfoldable pub weekday_mon1_sun7 : Sources → Time → ℕ
weekday_mon1_sun7 s date = let day = s.weekday date in if day == 0 then 7 else day

abbrev pub is_holiday : ScheduleMode → Bool
is_holiday holiday = true
is_holiday other_mode = false

abbrev pub holiday_mode : Option (Option ScheduleMode) → Bool
holiday_mode none = false
holiday_mode (some none) = false
holiday_mode (some (some mode)) = is_holiday mode

abbrev pub off_semester : Option (Option Bool) → Bool
off_semester none = false
off_semester (some none) = true
off_semester (some (some dated)) = not dated

unfoldable pub should_use_all_attend_mode : Sources → Bool
should_use_all_attend_mode s = holiday_mode s.current_mode || off_semester s.semester

unfoldable pub busy_users : List Course → ℤ → IdSet
busy_users [] week = []
busy_users (c ∷ courses) week =
    if contains_week c.week_list week
    then c.user_id ∷ busy_users courses week
    else busy_users courses week

abbrev pub with_courses : List User → ℤ → List Course → List User × List User
with_courses users week courses = (users, keep_if (λ u. has (busy_users courses week) u.id) users)

unfoldable pub among : Sources → Time → ℤ → ℕ → List User → Outcome (List User × List User)
among s date week section [] = answer ([], [])
among s date week section (u ∷ us) =
    if should_use_all_attend_mode s
    then answer (u ∷ us, [])
    else (or_fail (s.courses (ids (u ∷ us)) (weekday_mon1_sun7 s date) section) courses_failed
        >>= λ courses. answer (with_courses (u ∷ us) week courses))

-- the candidates, and those of them that have a course
unfoldable pub get_attendance_candidates_with_course_users :
    Sources → Time → ℤ → ℕ → Outcome (List User × List User)
unfolding among
get_attendance_candidates_with_course_users s date week section =
    or_fail s.attendance_candidates candidates_failed >>= λ users. among s date week section users

abbrev pub rest_day_enabled : Option (Option Bool) → Bool
rest_day_enabled none = true
rest_day_enabled (some none) = true
rest_day_enabled (some (some enabled)) = enabled

abbrev pub resting : List UserRestDay → ℕ → IdSet
resting [] day = []
resting (r ∷ rest) day =
    if r.day_of_week == day then r.user_id ∷ resting rest day else resting rest day

abbrev pub rest_users : List User → ℕ → Option (List UserRestDay) → List User
rest_users users day none = []
rest_users users day (some days) = keep_if (λ u. has (resting days day) u.id) users

unfoldable pub filter_rest_day_users : Sources → List User → ℕ → List User
filter_rest_day_users s users day =
    if s.rest_day_repository && rest_day_enabled s.rest_day_setting
    then rest_users users day (s.rest_days (ids users))
    else []

abbrev pub last_of : Option User → Option User → Option User
last_of (some later) now = some later
last_of none now = now

-- a Go map from ids to the users of a list, of which the last at an id stays
abbrev pub user_map : List User → ℕ → Option User
user_map [] i = none
user_map (u ∷ users) i = last_of (user_map users i) (if u.id == i then some u else none)

abbrev pub leave_of :
    Option User → LeaveRecord → List AttendanceUserLeave → List AttendanceUserLeave
leave_of none l rest = rest
leave_of (some u) l rest =
    record {
      id = u.id;
      name = u.name;
      avatar = "";
      dept_name = "";
      leave_type = l.leave_type;
      reason = l.reason;
    }
    ∷ rest

unfoldable pub leaves_of : List User → IdSet → List LeaveRecord → List AttendanceUserLeave
leaves_of users seen [] = []
leaves_of users seen (l ∷ records) =
    let skipped = leaves_of users seen records in
    let taken =
      leave_of (user_map users l.user_id) l (leaves_of users (l.user_id ∷ seen) records) in
    if has seen l.user_id then skipped else taken

unfoldable pub get_leave_users :
    Sources → List User → Time → Time → Outcome (List AttendanceUserLeave)
get_leave_users s [] slot_start slot_end = answer []
get_leave_users s (u ∷ us) slot_start slot_end =
    or_fail (s.approved_leaves (ids (u ∷ us)) slot_start slot_end) leaves_failed >>= λ records.
    answer (leaves_of (u ∷ us) [] records)

abbrev pub ding_user_ids : List User → List String
ding_user_ids [] = []
ding_user_ids (u ∷ users) =
    if is_empty u.ding_user_id then ding_user_ids users else u.ding_user_id ∷ ding_user_ids users

abbrev pub user_by_ding_id : List User → String → Option User
user_by_ding_id [] d = none
user_by_ding_id (u ∷ users) d =
    last_of (user_by_ding_id users d)
      (if not (is_empty u.ding_user_id) && str_eq u.ding_user_id d then some u else none)

-- `earliestCheck`: the map after one more record, and after all
abbrev pub earlier : List (String × Time) → String → Time → List (String × Time)
earlier [] d t = (d, t) ∷ []
earlier ((e, known) ∷ rest) d t =
    let others = earlier rest d t in
    if str_eq e d then (e, if ltb t known then t else known) ∷ rest else (e, known) ∷ others

unfoldable pub earliest_check : List (String × Time) → List CheckRecord → List (String × Time)
earliest_check known [] = known
earliest_check known (r ∷ records) =
    let skipped = earliest_check known records in
    let counted = earliest_check (earlier known r.ding_user_id r.check_time) records in
    if str_eq r.check_type "OnDuty" then counted else skipped

abbrev pub check_of : User → Time → AttendanceUserCheck
check_of u t = record { id = u.id; name = u.name; avatar = ""; dept_name = ""; check_time = t }

-- the loop over the earliest checks: those on time, and those that are late
abbrev pub Checks : Type 0
Checks = List AttendanceUserCheck × List AttendanceUserCheck

abbrev pub place : Option User → Time → Time → Time → Checks → Checks
place none t window_start deadline rest = rest
place (some u) t window_start deadline (on_time, late) =
    if ltb t window_start
    then (on_time, late)
    else if leb t deadline
    then (check_of u t ∷ on_time, late)
    else (on_time, check_of u t ∷ late)

unfoldable pub classify : List User → Time → Time → List (String × Time) → Checks
classify users window_start deadline [] = ([], [])
classify users window_start deadline ((d, t) ∷ checks) =
    place (user_by_ding_id users d) t window_start deadline
      (classify users window_start deadline checks)

abbrev pub nonempty_periods : Option (Option (List Period)) → List Period → List Period
nonempty_periods (some (some (p ∷ ps))) config = p ∷ ps
nonempty_periods _ config = config

unfoldable pub resolve_active_periods : Sources → List Period
resolve_active_periods s = nonempty_periods s.active_periods s.config_periods

abbrev pub end_of : Option Period → Option String
end_of none = none
end_of (some p) = some p.end

abbrev pub clock_on : Sources → Time → Option String → Option Time
clock_on s date none = none
clock_on s date (some text) = elim (s.parse_clock text) [
  | none ↦ none
  | some (hour, minute) ↦ some (s.at_clock date hour minute)
]

unfoldable pub calculate_check_window_start : Sources → Time → ℕ → Option Time
unfolding resolve_active_periods
calculate_check_window_start s date section =
    if leb section 1
    then some (s.at_clock date 0 0)
    else clock_on s date (end_of (get_elem? (resolve_active_periods s) (section - 2)))

unfoldable pub checks_for :
    Sources → List User → Time → ℕ → Time → Time → List String → Outcome Checks
unfolding calculate_check_window_start
checks_for s users date section deadline query_end [] = answer ([], [])
checks_for s users date section deadline query_end (d ∷ ds) = do
  window_start ← or_fail (calculate_check_window_start s date section) window_start_failed
  records ← or_fail (s.attendance_records (d ∷ ds) window_start query_end) records_failed
  answer (classify users window_start deadline (s.map_order (earliest_check [] records)))

unfoldable pub get_on_time_users : Sources → List User → Time → ℕ → Time → Time → Outcome Checks
unfolding checks_for
get_on_time_users s users date section deadline query_end =
    checks_for s users date section deadline query_end (ding_user_ids users)
