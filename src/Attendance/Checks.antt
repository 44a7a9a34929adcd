-- ===== src/Attendance/Checks.antt =====
-- Which checks count: the earliest on-duty check of each user, in the window of the section.
use ding_ding_schedule.Prelude.{
  ℕ, ◌≤◌, ◌<◌, true, ◌&&◌, ◌≡◌, refl, sym, subst, ◌∙◌, inl, inr, ◌⊎◌, String, Option, none, some,
  List, [], ◌∷◌, ltb, leb, All, arith, Bool-cases, eq_iff, if◌then◌else◌, str_eq,
}
use ding_ding_schedule.Attendance.{Time, User}
use ding_ding_schedule.Attendance.Sources.{Sources, CheckRecord}
use ding_ding_schedule.Attendance.Detail.{
  answer, or_fail, earlier, earliest_check, place, classify, Checks, user_by_ding_id, checks_for,
  get_on_time_users, ding_user_ids, calculate_check_window_start, window_start_failed,
  records_failed,
}
use ding_ding_schedule.Attendance.Within.{answer-injective, >>=-answer, or_fail-answer}

abbrev pub checked_at : String → List (String × Time) → Option Time
checked_at d [] = none
checked_at d ((e, t) ∷ rest) = if str_eq e d then some t else checked_at d rest

abbrev pub sooner : Option Time → Option Time → Option Time
sooner none b = b
sooner (some a) none = some a
sooner (some a) (some b) = if ltb b a then some b else some a

-- The least time of the on-duty records of a user.
abbrev pub first_on_duty : String → List CheckRecord → Option Time
first_on_duty d [] = none
first_on_duty d (r ∷ records) =
    let later = first_on_duty d records in
    if str_eq r.check_type "OnDuty" && str_eq r.ding_user_id d
    then sooner (some r.check_time) later
    else later

sooner-sooner : (a b c : Option Time) → sooner (sooner a b) c ≡ sooner a (sooner b c)
sooner-sooner none b c = refl
sooner-sooner (some a) none c = refl
sooner-sooner (some a) (some b) none = ground arith
sooner-sooner (some a) (some b) (some c) = ground arith

sooner-none : (a : Option Time) → a ≡ sooner a none
sooner-none none = refl
sooner-none (some a) = refl

same_text : (a b c : String) → str_eq a b ≡ true → str_eq a c ≡ str_eq b c
same_text a b c h = rw ((eq_iff a b).0 h) refl

same_target : (a b c : String) → str_eq a c ≡ true → str_eq b c ≡ true → str_eq a b ≡ true
same_target a b c h g = (eq_iff a b).1 ((eq_iff a c).0 h ∙ sym ((eq_iff b c).0 g))

checked_at-earlier :
    (d e : String) (t : Time) (known : List (String × Time))
    → checked_at d (earlier known e t)
      ≡ (if str_eq e d then sooner (checked_at d known) (some t) else checked_at d known)
checked_at-earlier d e t [] = ground arith
checked_at-earlier d e t ((f, u) ∷ known) =
    let same = same_text f e d in
    let both = same_target f e d in ground (arith, checked_at-earlier d e t known)

checked_at-earliest_check :
    (d : String) (known : List (String × Time)) (records : List CheckRecord)
    → checked_at d (earliest_check known records)
      ≡ sooner (checked_at d known) (first_on_duty d records)
unfolding earliest_check
checked_at-earliest_check d known [] = sooner-none (checked_at d known)
checked_at-earliest_check d known (r ∷ records) =
    let counted = checked_at-earliest_check d (earlier known r.ding_user_id r.check_time) records in
    let skipped = checked_at-earliest_check d known records in
    let one = checked_at-earlier d r.ding_user_id r.check_time known in
    let shift = sooner-sooner (checked_at d known) (some r.check_time) (first_on_duty d records) in
    elim (Bool-cases (str_eq r.check_type "OnDuty")) [
      | inl duty ↦ elim (Bool-cases (str_eq r.ding_user_id d)) [
        | inl own ↦ ground arith
        | inr other ↦ ground arith
      ]
      | inr off ↦ ground arith
    ]

-- The check that counts of a user is the least time of the user's on-duty records, and there is one
-- exactly if there is such a record.
pub earliest_check-first_on_duty :
    (d : String) (records : List CheckRecord)
    → checked_at d (earliest_check [] records) ≡ first_on_duty d records
earliest_check-first_on_duty d records = checked_at-earliest_check d [] records

abbrev pub Timed : Time → Time → Checks → Type 0
Timed window_start deadline (on_time, late) =
    All (λ c. (window_start ≤ c.check_time) × (c.check_time ≤ deadline)) on_time
    × All (λ c. (window_start ≤ c.check_time) × (deadline < c.check_time)) late

place-Timed :
    (o : Option User) (t window_start deadline : Time) (rest : Checks)
    → Timed window_start deadline rest
    → Timed window_start deadline (place o t window_start deadline rest)
place-Timed none t window_start deadline rest h = h
place-Timed (some u) t window_start deadline (on_time, late) h =
    elim (Bool-cases (ltb t window_start)) [
      | inl early ↦ rw early h
      | inr inside ↦ elim (Bool-cases (leb t deadline)) [
        | inl timely ↦ rw inside (rw timely (((ground (arith), ground (arith)), h.0), h.1))
        | inr tardy ↦ rw inside (rw tardy (h.0, ((ground (arith), ground (arith)), h.1)))
      ]
    ]

classify-Timed :
    (users : List User) (window_start deadline : Time) (checks : List (String × Time))
    → Timed window_start deadline (classify users window_start deadline checks)
unfolding classify
classify-Timed users window_start deadline [] = (tt, tt)
classify-Timed users window_start deadline ((d, t) ∷ checks) =
    place-Timed (user_by_ding_id users d) t window_start deadline
      (classify users window_start deadline checks)
      (classify-Timed users window_start deadline checks)

checks_for-Timed :
    (s : Sources) (users : List User) (date : Time) (section : ℕ) (deadline until : Time)
    (ds : List String) (checks : Checks)
    → checks_for s users date section deadline until ds ≡ answer checks
    → (checks ≡ ([], []))
      ⊎ ((window_start : Time) × (calculate_check_window_start s date section ≡ some window_start)
          × Timed window_start deadline checks)
unfolding checks_for
checks_for-Timed s users date section deadline until [] checks made =
    inl (sym (answer-injective made))
checks_for-Timed s users date section deadline until (d ∷ ds) checks made =
    let (window_start, started, rest) =
      >>=-answer (or_fail (calculate_check_window_start s date section) window_start_failed) _
        made in
    let (records, _, given) =
      >>=-answer (or_fail (s.attendance_records (d ∷ ds) window_start until) records_failed) _
        rest in
    inr (
      window_start,
      or_fail-answer (calculate_check_window_start s date section) window_start_failed started,
      subst (Timed window_start deadline) (answer-injective given)
          (classify-Timed users window_start deadline (s.map_order (earliest_check [] records))),
    )

-- When the checks of users are answered, there are none at all, or the section has a start of its
-- window, every check on time is from that start to the deadline, and every late one after the deadline.
pub get_on_time_users-Timed :
    (s : Sources) (users : List User) (date : Time) (section : ℕ) (deadline until : Time)
    (checks : Checks)
    → get_on_time_users s users date section deadline until ≡ answer checks
    → (checks ≡ ([], []))
      ⊎ ((window_start : Time) × (calculate_check_window_start s date section ≡ some window_start)
          × Timed window_start deadline checks)
unfolding get_on_time_users
get_on_time_users-Timed s users date section deadline until checks made =
    checks_for-Timed s users date section deadline until (ding_user_ids users) checks made
