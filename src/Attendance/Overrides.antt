-- ===== src/Attendance/Overrides.antt =====
-- internal/service/attendance_record_service.go: manual overrides on a detail
-- (applyManualOverridesToDetail), and the detail with its overrides (GetAttendanceDetail while the
-- section can still change).
use ding_ding_schedule.Prelude.{
  ℕ, Bool, not, ◌&&◌, String, Option, none, some, List, [], ◌∷◌, ◌++◌, map, ◌==◌, any, length,
  if◌then◌else◌, str_eq,
}
use ding_ding_schedule.Attendance.{
  Time, AttendanceUserBasic, AttendanceUserCheck, AttendanceDetailResponse, AttendanceUserLists,
  IdSet, has, filter_attendance_checks, filter_attendance_basics,
}
use ding_ding_schedule.Attendance.Sources.{AttendanceManualOverride}
use ding_ding_schedule.Attendance.Detail.{Outcome, answer, failed, overrides_failed}
use ding_ding_schedule.Attendance.Build.{check_ids, leave_ids}

abbrev pub basic_ids : List AttendanceUserBasic → IdSet
basic_ids users = map (λ u. u.id) users

abbrev pub as_basic : AttendanceUserCheck → AttendanceUserBasic
as_basic c = record { id = c.id; name = c.name; avatar = c.avatar; dept_name = c.dept_name }

-- `allowed`, `excluded` and `sourceByID`, in which the last entry of an allowed user stays
abbrev pub allowed : AttendanceUserLists → IdSet
allowed l =
    basic_ids l.should_attend ++ check_ids l.on_time ++ check_ids l.late ++ basic_ids l.not_arrived

abbrev pub excluded : AttendanceUserLists → IdSet
excluded l = leave_ids l.leave ++ basic_ids l.rest_day ++ basic_ids l.has_course

abbrev pub sources : AttendanceUserLists → List AttendanceUserBasic
sources l = l.should_attend ++ map as_basic l.on_time ++ map as_basic l.late ++ l.not_arrived

abbrev pub last_source : List AttendanceUserBasic → ℕ → Option AttendanceUserBasic
last_source [] i = none
last_source (u ∷ users) i =
    let later = last_source users i in
    elim later [ some v ↦ some v | none ↦ if u.id == i then some u else none ]

-- a value of a map that is not there: the zero record
abbrev pub forced_check : Option AttendanceUserBasic → Time → AttendanceUserCheck
forced_check none t = record { id = 0; name = ""; avatar = ""; dept_name = ""; check_time = t }
forced_check (some u) t = record {
  id = u.id;
  name = u.name;
  avatar = u.avatar;
  dept_name = u.dept_name;
  check_time = t;
}

-- `resp.Users.OnTime[idx].CheckTime = …`, where the index is that of the last entry at the id
abbrev pub set_last : ℕ → Time → List AttendanceUserCheck → List AttendanceUserCheck
set_last i t [] = []
set_last i t (c ∷ checks) =
    let rest = set_last i t checks in
    if has (check_ids checks) i
    then c ∷ rest
    else if c.id == i
    then record c { check_time = t } ∷ checks
    else c ∷ rest

unfoldable pub force_on_time :
    List AttendanceUserBasic → AttendanceManualOverride → AttendanceUserLists → AttendanceUserLists
unfolding filter_attendance_checks filter_attendance_basics
force_on_time named o l = record l {
  late = filter_attendance_checks l.late (o.user_id ∷ []);
  not_arrived = filter_attendance_basics l.not_arrived (o.user_id ∷ []);
  on_time =
      if has (check_ids l.on_time) o.user_id
      then set_last o.user_id o.applied_at l.on_time
      else l.on_time ++ forced_check (last_source named o.user_id) o.applied_at ∷ [];
}

abbrev pub attendance_override_type_force_on_time : String
attendance_override_type_force_on_time = "force_on_time"

-- the overrides that the loop does not skip
abbrev pub applies : AttendanceUserLists → AttendanceManualOverride → Bool
applies l o =
    str_eq o.override_type attendance_override_type_force_on_time
    && not (has (excluded l) o.user_id)
    && has (allowed l) o.user_id

-- the loop: `first` are the lists that the sets were made from
unfoldable pub apply_overrides :
    AttendanceUserLists → List AttendanceManualOverride → AttendanceUserLists → AttendanceUserLists
unfolding force_on_time
apply_overrides first [] l = l
apply_overrides first (o ∷ overrides) l =
    let forced = apply_overrides first overrides (force_on_time (sources first) o l) in
    let skipped = apply_overrides first overrides l in if applies first o then forced else skipped

abbrev pub counted_again : AttendanceDetailResponse → AttendanceUserLists → AttendanceDetailResponse
counted_again resp l = record resp {
  users = l;
  statistics = record (resp.statistics) {
    on_time = length l.on_time;
    late = length l.late;
    not_arrived = length l.not_arrived;
  };
}

unfoldable pub apply_manual_overrides_to_detail :
    Option (Option (List AttendanceManualOverride))
    → AttendanceDetailResponse
    → Outcome AttendanceDetailResponse
unfolding apply_overrides
apply_manual_overrides_to_detail none resp = answer resp
apply_manual_overrides_to_detail (some none) resp = failed overrides_failed
apply_manual_overrides_to_detail (some (some overrides)) resp =
    if any (applies resp.users) overrides
    then answer (counted_again resp (apply_overrides resp.users overrides resp.users))
    else answer resp
