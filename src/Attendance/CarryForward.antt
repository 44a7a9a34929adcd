-- ===== src/Attendance/CarryForward.antt =====
-- internal/service/attendance_record_service.go: a check in the section before carries forward when the
-- break between the two is short (applyCarryForward, loadCarryForwardUsers).
use ding_ding_schedule.Prelude.{
  ℕ, ◌+◌, ◌-◌, ◌*◌, Bool, false, not, ◌||◌, String, Option, none, some, List, [], ◌∷◌, ◌++◌, map,
  ltb, leb, length, get_elem?, if◌then◌else◌, str_eq, is_empty,
}
use ding_ding_schedule.Prelude.Int.{ℤ, pos, negsuc}
use ding_ding_schedule.Attendance.{Time, User, AttendanceUserCheck, Period, IdSet, has}
use ding_ding_schedule.Attendance.Sources.{Sources, StoredUserCheck, AttendanceRecord}
use ding_ding_schedule.Attendance.Detail.{user_map}

abbrev pub stored_ids : List StoredUserCheck → IdSet
stored_ids users = map (λ u. u.id) users

abbrev pub unseen : IdSet → List StoredUserCheck → List StoredUserCheck
unseen seen [] = []
unseen seen (u ∷ users) =
    let skipped = unseen seen users in
    let kept = u ∷ unseen (u.id ∷ seen) users in if has seen u.id then skipped else kept

abbrev pub no_json : String → Bool
no_json raw = is_empty raw || str_eq raw "[]" || str_eq raw "null"

unfoldable pub append_unique : Sources → String → List StoredUserCheck → List StoredUserCheck
append_unique s raw users = if no_json raw then users else elim (s.parse_stored_checks raw) [
  | none ↦ users
  | some parsed ↦ users ++ unseen (stored_ids users) parsed
]

unfoldable pub load_carry_forward_users : Sources → AttendanceRecord → List StoredUserCheck
unfolding append_unique
load_carry_forward_users s r = append_unique s r.late_ids (append_unique s r.on_time_ids [])

abbrev pub carried_check : Sources → User → StoredUserCheck → AttendanceUserCheck
carried_check s u stored = record {
  id = u.id;
  name = u.name;
  avatar = u.avatar;
  dept_name = "";
  check_time = s.from_unix stored.check_time;
}

-- the loop: who should attend, has no check on time yet and had one in the section before
unfoldable pub carried :
    Sources → List User → IdSet → List StoredUserCheck → List AttendanceUserCheck
carried s should_attend on_time [] = []
carried s should_attend on_time (p ∷ previous) =
    let skipped = carried s should_attend on_time previous in
    let kept = carried s should_attend (p.id ∷ on_time) previous in
    if has on_time p.id
    then skipped
    else elim (user_map should_attend p.id) [ none ↦ skipped | some u ↦ carried_check s u p ∷ kept ]

abbrev pub minutes : ℕ × ℕ → ℕ
minutes (hour, minute) = hour * 60 + minute

abbrev pub clock_of : Sources → Option Period → (Period → String) → Option (ℕ × ℕ)
clock_of s none at = none
clock_of s (some p) at = s.parse_clock (at p)

-- whether the break before the section is at most `max` minutes
abbrev pub break_within : Option (ℕ × ℕ) → Option (ℕ × ℕ) → ℤ → Bool
break_within (some prev_end) (some start) (pos max) = leb (minutes start) (max + minutes prev_end)
break_within _ _ _ = false

abbrev pub positive : ℤ → Bool
positive (pos n) = ltb 0 n
positive (negsuc n) = false

unfoldable pub short_break : Sources → ℕ → List Period → Bool
short_break s section periods =
    break_within (clock_of s (get_elem? periods (section - 2)) (λ p. p.end))
      (clock_of s (get_elem? periods (section - 1)) (λ p. p.start)) s.max_carry_forward_gap_minutes

unfoldable pub forwarded :
    Sources
    → List User
    → List AttendanceUserCheck
    → Option AttendanceRecord
    → List AttendanceUserCheck
unfolding load_carry_forward_users
forwarded s should_attend on_time none = on_time
forwarded s should_attend on_time (some previous) =
    on_time
    ++ carried s should_attend (map (λ u. u.id) on_time) (load_carry_forward_users s previous)

unfoldable pub apply_carry_forward :
    Sources
    → Time
    → ℕ
    → List Period
    → List User
    → List AttendanceUserCheck
    → List AttendanceUserCheck
unfolding short_break forwarded
apply_carry_forward s date section periods should_attend on_time =
    if leb section 1
    then on_time
    else if not (positive s.max_carry_forward_gap_minutes)
    then on_time
    else if ltb (length periods) section
    then on_time
    else if not (short_break s section periods)
    then on_time
    else forwarded s should_attend on_time (s.attendance_record date (section - 1))
