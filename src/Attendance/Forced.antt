-- ===== src/Attendance/Forced.antt =====
-- What manual overrides do to the lists and the counts of a detail.
use ding_ding_schedule.Prelude.{
  ℕ, Bool, true, false, not, ◌&&◌, ◌||◌, ◌≡◌, refl, sym, subst, ◌∙◌, ap, inl, inr, none, some, List,
  [], ◌∷◌, ◌++◌, map, ◌==◌, any, any-append, length, arith, Bool-cases, if_true, if_false,
  if◌then◌else◌, str_eq,
}
use ding_ding_schedule.Attendance.{
  Time, AttendanceUserBasic, AttendanceUserCheck, AttendanceUserLeave, AttendanceDetailResponse,
  AttendanceUserLists, has, filter_attendance_checks, filter_attendance_basics,
}
use ding_ding_schedule.Attendance.Sources.{AttendanceManualOverride}
use ding_ding_schedule.Attendance.Detail.{answer}
use ding_ding_schedule.Attendance.Build.{check_ids, leave_ids}
use ding_ding_schedule.Attendance.Overrides.{
  as_basic, allowed, excluded, sources, last_source, forced_check, set_last, force_on_time, applies,
  apply_overrides, apply_manual_overrides_to_detail, basic_ids,
}
use ding_ding_schedule.Attendance.Membership.{holds, has-map, holds-filtered, holds-map}
use ding_ding_schedule.Attendance.Within.{check_id, answer-injective}
use ding_ding_schedule.Attendance.Split.{basic_id}

-- the users that some applied override names
abbrev in_effect : AttendanceUserLists → List AttendanceManualOverride → ℕ → Bool
in_effect first overrides i = any (λ o. applies first o && o.user_id == i) overrides

-- A user who is to attend, on time, late or not arrived, and neither on leave, on a rest day nor in a
-- course.
abbrev pub open_to_force : AttendanceUserLists → ℕ → Bool
open_to_force l i =
    (holds basic_id l.should_attend i
      || holds check_id l.on_time i
      || holds check_id l.late i
      || holds basic_id l.not_arrived i)
    && not (holds (λ (u : AttendanceUserLeave). u.id) l.leave i)
    && not (holds basic_id l.rest_day i)
    && not (holds basic_id l.has_course i)

-- An override of the kind that forces is for the user, and the user is open to it.
abbrev pub forced : AttendanceUserLists → List AttendanceManualOverride → ℕ → Bool
forced first overrides i =
    open_to_force first i
    && any (λ o. str_eq o.override_type "force_on_time" && o.user_id == i) overrides

pub record Overridden (forced_here : Bool) (l m : AttendanceUserLists) (i : ℕ) : Type 0 where
  pub on_time : holds check_id m.on_time i ≡ (holds check_id l.on_time i || forced_here)
  pub late : holds check_id m.late i ≡ (holds check_id l.late i && not forced_here)
  pub not_arrived :
      holds basic_id m.not_arrived i ≡ (holds basic_id l.not_arrived i && not forced_here)
  pub should_attend : m.should_attend ≡ l.should_attend
  pub leave : m.leave ≡ l.leave
  pub rest_day : m.rest_day ≡ l.rest_day
  pub has_course : m.has_course ≡ l.has_course

own_id : (i j : ℕ) → (i == j) ≡ true → i ≡ j
own_id i j h = ground arith

holds-set_last :
    (i j : ℕ) (t : Time) (checks : List AttendanceUserCheck)
    → holds check_id (set_last i t checks) j ≡ holds check_id checks j
holds-set_last i j t [] = refl
holds-set_last i j t (c ∷ checks) = ground (arith, holds-set_last i j t checks)

last_source-none :
    (users : List AttendanceUserBasic) (i : ℕ)
    → holds basic_id users i ≡ false
    → last_source users i ≡ none
last_source-none [] i h = refl
last_source-none (v ∷ users) i h = rw (last_source-none users i ground (arith)) ground (arith)

last_source-found :
    (users : List AttendanceUserBasic) (i : ℕ)
    → holds basic_id users i ≡ true
    → (u : AttendanceUserBasic) × (last_source users i ≡ some u) × (u.id ≡ i)
last_source-found [] i h = cc
last_source-found (v ∷ users) i h = elim (Bool-cases (holds basic_id users i)) [
  | inl later ↦ let (u, found, same) = last_source-found users i later in (u, rw found refl, same)
  | inr only ↦ (v, rw (last_source-none users i only) ground (arith), ground arith)
]

has-allowed : (l : AttendanceUserLists) (i : ℕ) → has (allowed l) i ≡ holds basic_id (sources l) i
has-allowed l i =
    let a = basic_ids l.should_attend in
    let b = check_ids l.on_time in
    let c = check_ids l.late in
    let d = basic_ids l.not_arrived in
    let one = any-append (λ j. j == i) (a ++ b ++ c) d in
    let two = any-append (λ j. j == i) (a ++ b) c in
    let three = any-append (λ j. j == i) a b in
    let p = l.should_attend in
    let q = map as_basic l.on_time in
    let r = map as_basic l.late in
    let four = any-append (λ u. basic_id u == i) (p ++ q ++ r) l.not_arrived in
    let five = any-append (λ u. basic_id u == i) (p ++ q) r in
    let six = any-append (λ u. basic_id u == i) p q in
    let of_a = has-map basic_id l.should_attend i in
    let of_b = has-map check_id l.on_time i in
    let of_c = has-map check_id l.late i in
    let of_d = has-map basic_id l.not_arrived i in
    let of_q = holds-map check_id basic_id as_basic (λ c. refl) l.on_time i in
    let of_r = holds-map check_id basic_id as_basic (λ c. refl) l.late i in ground arith

on_time_forced :
    (checks : List AttendanceUserCheck) (u : AttendanceUserBasic) (t : Time) (i j : ℕ)
    → u.id ≡ i
    → holds check_id
        (if has (check_ids checks) i
          then set_last i t checks
          else checks ++ forced_check (some u) t ∷ [])
        j
      ≡ (holds check_id checks j || i == j)
on_time_forced checks u t i j same =
    let there = has-map check_id checks i in
    let kept = holds-set_last i j t checks in
    let added = any-append (λ c. check_id c == j) checks (forced_check (some u) t ∷ []) in
    elim (Bool-cases (i == j)) [
      | inl own ↦
          let here = ap (holds check_id checks) (own_id i j own) in
          elim (Bool-cases (has (check_ids checks) i)) [
            | inl old ↦ rw old ground (arith)
            | inr new ↦ rw new ground (arith)
          ]
      | inr other ↦ elim (Bool-cases (has (check_ids checks) i)) [
        | inl old ↦ rw old ground (arith)
        | inr new ↦ rw new ground (arith)
      ]
    ]

-- One override that applies.
force_on_time-Overridden :
    (first l : AttendanceUserLists) (o : AttendanceManualOverride) (i : ℕ)
    → has (allowed first) o.user_id ≡ true
    → Overridden (o.user_id == i) l (force_on_time (sources first) o l) i
unfolding force_on_time filter_attendance_checks filter_attendance_basics
force_on_time-Overridden first l o i may =
    let (u, found, same) =
      last_source-found (sources first) o.user_id (sym (has-allowed first o.user_id) ∙ may) in
    let of_late = holds-filtered check_id l.late (o.user_id ∷ []) i in
    let of_missing = holds-filtered basic_id l.not_arrived (o.user_id ∷ []) i in
    record {
      on_time = rw found (on_time_forced l.on_time u o.applied_at o.user_id i same);
      late = ground arith;
      not_arrived = ground arith;
      should_attend = refl;
      leave = refl;
      rest_day = refl;
      has_course = refl;
    }

Overridden-twice :
    (a b : Bool) (l m n : AttendanceUserLists) (i : ℕ)
    → Overridden a l m i
    → Overridden b m n i
    → Overridden (a || b) l n i
Overridden-twice a b l m n i p q =
    let on_time = p.on_time in
    let late = p.late in
    let not_arrived = p.not_arrived in
    let on_time_next = q.on_time in
    let late_next = q.late in
    let not_arrived_next = q.not_arrived in
    record {
      on_time = ground arith;
      late = ground arith;
      not_arrived = ground arith;
      should_attend = q.should_attend ∙ p.should_attend;
      leave = q.leave ∙ p.leave;
      rest_day = q.rest_day ∙ p.rest_day;
      has_course = q.has_course ∙ p.has_course;
    }

untouched : (l : AttendanceUserLists) (i : ℕ) → Overridden false l l i
untouched l i = record {
  on_time = ground arith;
  late = ground arith;
  not_arrived = ground arith;
  should_attend = refl;
  leave = refl;
  rest_day = refl;
  has_course = refl;
}

applies-allowed :
    (first : AttendanceUserLists) (o : AttendanceManualOverride)
    → applies first o ≡ true
    → has (allowed first) o.user_id ≡ true
applies-allowed first o h = ground arith

apply_overrides-Overridden :
    (first : AttendanceUserLists) (overrides : List AttendanceManualOverride)
    (l : AttendanceUserLists) (i : ℕ)
    → Overridden (in_effect first overrides i) l (apply_overrides first overrides l) i
unfolding apply_overrides
apply_overrides-Overridden first [] l i = untouched l i
apply_overrides-Overridden first (o ∷ overrides) l i = elim (Bool-cases (applies first o)) [
  | inl applied ↦
      let may = applies-allowed first o applied in
      rw applied (
        Overridden-twice (o.user_id == i) (in_effect first overrides i) l
          (force_on_time (sources first) o l) _ i (force_on_time-Overridden first l o i may)
          (apply_overrides-Overridden first overrides (force_on_time (sources first) o l) i))
  | inr skipped ↦ rw skipped (apply_overrides-Overridden first overrides l i)
]

none_forced :
    (first : AttendanceUserLists) (overrides : List AttendanceManualOverride) (i : ℕ)
    → any (applies first) overrides ≡ false
    → in_effect first overrides i ≡ false
none_forced first [] i h = refl
none_forced first (o ∷ overrides) i h = ground (arith, none_forced first overrides i)

allowed-holds :
    (l : AttendanceUserLists) (i : ℕ)
    → has (allowed l) i ≡ (
        holds basic_id l.should_attend i
        || holds check_id l.on_time i
        || holds check_id l.late i
        || holds basic_id l.not_arrived i)
allowed-holds l i =
    let a = basic_ids l.should_attend in
    let b = check_ids l.on_time in
    let c = check_ids l.late in
    let d = basic_ids l.not_arrived in
    let one = any-append (λ j. j == i) (a ++ b ++ c) d in
    let two = any-append (λ j. j == i) (a ++ b) c in
    let three = any-append (λ j. j == i) a b in
    let of_a = has-map basic_id l.should_attend i in
    let of_b = has-map check_id l.on_time i in
    let of_c = has-map check_id l.late i in
    let of_d = has-map basic_id l.not_arrived i in ground arith

excluded-holds :
    (l : AttendanceUserLists) (i : ℕ)
    → has (excluded l) i ≡ (
        holds (λ (u : AttendanceUserLeave). u.id) l.leave i
        || holds basic_id l.rest_day i
        || holds basic_id l.has_course i)
excluded-holds l i =
    let a = leave_ids l.leave in
    let b = basic_ids l.rest_day in
    let c = basic_ids l.has_course in
    let one = any-append (λ j. j == i) (a ++ b) c in
    let two = any-append (λ j. j == i) a b in
    let of_a = has-map (λ (u : AttendanceUserLeave). u.id) l.leave i in
    let of_b = has-map basic_id l.rest_day i in
    let of_c = has-map basic_id l.has_course i in ground arith

applies_here :
    (first : AttendanceUserLists) (o : AttendanceManualOverride) (i : ℕ)
    → (applies first o && o.user_id == i)
      ≡ (open_to_force first i && (str_eq o.override_type "force_on_time" && o.user_id == i))
applies_here first o i = elim (Bool-cases (o.user_id == i)) [
  | inl own ↦
      let same : o.user_id ≡ i = own_id o.user_id i own in
      let may = ap (has (allowed first)) same ∙ allowed-holds first i in
      let barred = ap (has (excluded first)) same ∙ excluded-holds first i in
      ground (arith, own, may, barred)
  | inr other ↦ ground (arith, other)
]

in_effect-forced :
    (first : AttendanceUserLists) (overrides : List AttendanceManualOverride) (i : ℕ)
    → in_effect first overrides i ≡ forced first overrides i
in_effect-forced first [] i = ground arith
in_effect-forced first (o ∷ overrides) i =
    let here = applies_here first o i in
    let later = in_effect-forced first overrides i in ground arith

-- The counts of an answer are the lengths of its lists.
pub record Counted (resp : AttendanceDetailResponse) : Type 0 where
  pub should_attend : resp.statistics.should_attend ≡ length resp.users.should_attend
  pub on_time : resp.statistics.on_time ≡ length resp.users.on_time
  pub late : resp.statistics.late ≡ length resp.users.late
  pub leave : resp.statistics.leave ≡ length resp.users.leave
  pub not_arrived : resp.statistics.not_arrived ≡ length resp.users.not_arrived
  pub rest_day : resp.statistics.rest_day ≡ length resp.users.rest_day
  pub has_course : resp.statistics.has_course ≡ length resp.users.has_course

overrides_apply :
    (overrides : List AttendanceManualOverride) (resp after : AttendanceDetailResponse) (i : ℕ)
    → Counted resp
    → apply_manual_overrides_to_detail (some (some overrides)) resp ≡ answer after
    → Overridden (in_effect resp.users overrides i) resp.users after.users i × Counted after
unfolding apply_manual_overrides_to_detail
overrides_apply overrides resp after i c made =
    let l = apply_overrides resp.users overrides resp.users in
    let o = apply_overrides-Overridden resp.users overrides resp.users i in
    elim (Bool-cases (any (applies resp.users) overrides)) [
      | inl applied ↦
          let given = answer-injective (sym (if_true _ _ _ applied) ∙ made) in
          subst
            (λ r. Overridden (in_effect resp.users overrides i) resp.users r.users i × Counted r)
            given
            (
              o,
              record {
                should_attend = c.should_attend ∙ sym (ap length o.should_attend);
                on_time = refl;
                late = refl;
                leave = c.leave ∙ sym (ap length o.leave);
                not_arrived = refl;
                rest_day = c.rest_day ∙ sym (ap length o.rest_day);
                has_course = c.has_course ∙ sym (ap length o.has_course);
              },
            )
      | inr idle ↦
          let given = answer-injective (sym (if_false _ _ _ idle) ∙ made) in
          subst
            (λ r. Overridden (in_effect resp.users overrides i) resp.users r.users i × Counted r)
            given (rw (none_forced resp.users overrides i idle) (untouched resp.users i), c)
    ]

-- When overrides are applied to an answer whose counts are the lengths of its lists, a user is on time
-- who was, or who is forced: by an override of that kind for the user, who is in a list of the section
-- and neither on leave, on a rest day nor in a course. Late or not arrived is who was and is not forced;
-- the other lists stay; and the counts are again the lengths.
pub overrides_force_on_time :
    (overrides : List AttendanceManualOverride) (resp after : AttendanceDetailResponse) (i : ℕ)
    → Counted resp
    → apply_manual_overrides_to_detail (some (some overrides)) resp ≡ answer after
    → Overridden (forced resp.users overrides i) resp.users after.users i × Counted after
overrides_force_on_time overrides resp after i c made =
    subst (λ b. Overridden b resp.users after.users i × Counted after)
      (in_effect-forced resp.users overrides i) (overrides_apply overrides resp after i c made)
