-- ===== src/Attendance/Sources.antt =====
-- What the attendance service reads from its collaborators: the repositories, the settings, DingTalk,
-- encoding/json and the parser of clock times. A field is what a call returns there; `none` stands for
-- an error, unless a comment says otherwise.
use ding_ding_schedule.Prelude.{ℕ, Bool, String, Option, List}
use ding_ding_schedule.Prelude.Int.{ℤ}
use ding_ding_schedule.Attendance.{Time, User, Period}

pub record Course : Type 0 where
  pub user_id : ℕ
  -- the bytes of the list of weeks
  pub week_list : List ℕ

pub record UserRestDay : Type 0 where
  pub user_id : ℕ
  -- the query leaves out the rows where it is null
  pub day_of_week : ℕ

pub record LeaveRecord : Type 0 where
  pub user_id : ℕ
  pub leave_type : String
  pub reason : String

pub record CheckRecord : Type 0 where
  pub ding_user_id : String
  pub check_type : String
  pub check_time : Time

pub record StoredUserCheck : Type 0 where
  pub id : ℕ
  -- seconds of Unix time
  pub check_time : ℤ

-- the fields of `model.AttendanceRecord` that are read
pub record AttendanceRecord : Type 0 where
  pub on_time_ids : String
  pub late_ids : String

pub record AttendanceManualOverride : Type 0 where
  pub user_id : ℕ
  pub override_type : String
  pub applied_at : Time

pub data ScheduleMode : Type 0 where
  holiday other_mode : ScheduleMode

pub record Sources : Type 0 where
  pub attendance_candidates : Option (List User)
  -- no period service; or the current mode
  pub current_mode : Option (Option ScheduleMode)
  -- no semester service; or an active semester; and whether the date has a week in it
  pub semester : Option (Option Bool)
  -- `date.Weekday()`, 0 on Sunday
  pub weekday : Time → ℕ
  -- `time.Date` on the day of an instant, at an hour and a minute
  pub at_clock : Time → ℕ → ℕ → Time
  -- no period service; or the active periods; and the configured ones
  pub active_periods : Option (Option (List Period))
  pub config_periods : List Period
  -- the courses of these users on a day in a section
  pub courses : List ℕ → ℕ → ℕ → Option (List Course)
  -- no repository of rest days
  pub rest_day_repository : Bool
  -- no repository of settings; or the setting
  pub rest_day_setting : Option (Option Bool)
  pub rest_days : List ℕ → Option (List UserRestDay)
  -- approved leaves of these users that overlap a slot
  pub approved_leaves : List ℕ → Time → Time → Option (List LeaveRecord)
  pub attendance_records : List String → Time → Time → Option (List CheckRecord)
  -- the order in which Go goes through a map
  pub map_order : List (String × Time) → List (String × Time)
  pub max_carry_forward_gap_minutes : ℤ
  -- `time.Parse("15:04", …)`: hour and minute
  pub parse_clock : String → Option (ℕ × ℕ)
  pub attendance_record : Time → ℕ → Option AttendanceRecord
  pub parse_stored_checks : String → Option (List StoredUserCheck)
  -- `time.Unix`
  pub from_unix : ℤ → Time
  -- the names of the departments of these users, by their ids
  pub department_names : List ℕ → Option (ℕ → String)
  -- no repository of overrides; or the overrides of a date and section
  pub manual_overrides : Option (Option (List AttendanceManualOverride))
