-- ===== src/Attendance/Within.antt =====
-- The lists of a detail take their users from the lists they are made of.
use ding_ding_schedule.Prelude.{
  ℕ, Bool, true, false, not, ◌&&◌, ◌||◌, ◌≡◌, refl, sym, subst, ◌∙◌, ap, inl, inr, ◌⊎◌, String,
  Option, none, some, List, [], ◌∷◌, map, ◌-◌, ◌==◌, any-append, arith, Bool-cases, if◌then◌else◌,
  is_empty, str_eq, eq_of_some,
}
use ding_ding_schedule.Prelude.Int.{ℤ}
use ding_ding_schedule.Attendance.{
  Time, User, AttendanceUserCheck, AttendanceUserLeave, IdSet, has, Period,
}
use ding_ding_schedule.Attendance.Sources.{
  Sources, LeaveRecord, StoredUserCheck, UserRestDay, AttendanceRecord,
}
use ding_ding_schedule.Attendance.Detail.{
  Outcome, ◌>>=◌, leaves_failed, window_start_failed, records_failed, candidates_failed,
  courses_failed, among, busy_users, checks_for, answer, failed, or_fail, user_map, user_by_ding_id,
  last_of, leave_of, leaves_of, place, classify, Checks, get_leave_users, get_on_time_users,
  filter_rest_day_users, rest_users, ids, get_attendance_candidates_with_course_users, with_courses,
  should_use_all_attend_mode, ding_user_ids, earliest_check, calculate_check_window_start,
  weekday_mon1_sun7, AttendanceError,
}
use ding_ding_schedule.Attendance.CarryForward.{
  forwarded, carried, apply_carry_forward, load_carry_forward_users, carried_check,
}
use ding_ding_schedule.Attendance.Membership.{holds, holds-keep_if-within}

abbrev pub user_id : User → ℕ
user_id u = u.id

abbrev pub leave_id : AttendanceUserLeave → ℕ
leave_id u = u.id

abbrev pub check_id : AttendanceUserCheck → ℕ
check_id u = u.id

pub answer-injective {ℓ} : {A : Type ℓ} {a b : A} → answer a ≡ answer b → a ≡ b
answer-injective h = cc

pub or_fail-answer {ℓ} :
    {A : Type ℓ} (o : Option A) (e : AttendanceError) {a : A} → or_fail o e ≡ answer a → o ≡ some a
or_fail-answer none e h = cc
or_fail-answer (some b) e h = cc

last_of-cases :
    (later now : Option User) (u : User)
    → last_of later now ≡ some u
    → (later ≡ some u) ⊎ (now ≡ some u)
last_of-cases (some v) now u h = inl h
last_of-cases none now u h = inr h

if_some : (b : Bool) (v u : User) → (if b then some v else none) ≡ some u → (b ≡ true) × (v ≡ u)
if_some true v u h = (refl, eq_of_some h)
if_some false v u h = cc

pub >>=-answer {ℓ κ} :
    {A : Type ℓ} {B : Type κ} (first : Outcome A) (next : A → Outcome B) {b : B}
    → (first >>= next) ≡ answer b
    → (a : A) × (first ≡ answer a) × (next a ≡ answer b)
>>=-answer (failed e) next h = cc
>>=-answer (answer a) next h = (a, refl, h)

pub user_map-holds :
    (users : List User) (i : ℕ) (u : User)
    → user_map users i ≡ some u
    → (u.id ≡ i) × (holds user_id users i ≡ true)
user_map-holds [] i u h = cc
user_map-holds (v ∷ users) i u h = elim (last_of-cases (user_map users i) _ u h) [
  | inl later ↦ ground (arith, user_map-holds users i u later)
  | inr now ↦
      let (here, same) = if_some (v.id == i) v u now in let named = ap user_id same in ground arith
]

pub user_by_ding_id-holds :
    (users : List User) (d : String) (u : User)
    → user_by_ding_id users d ≡ some u
    → holds user_id users u.id ≡ true
user_by_ding_id-holds [] d u h = cc
user_by_ding_id-holds (v ∷ users) d u h = elim (last_of-cases (user_by_ding_id users d) _ u h) [
  | inl later ↦ ground (arith, user_by_ding_id-holds users d u later)
  | inr now ↦
      let named =
        ap user_id (if_some (not (is_empty v.ding_user_id) && str_eq v.ding_user_id d) v u now).1 in
      ground arith
]

leave_of-within :
    (users : List User) (o : Option User) (l : LeaveRecord) (rest : List AttendanceUserLeave)
    (i : ℕ)
    → ((u : User) → o ≡ some u → holds user_id users u.id ≡ true)
    → (holds leave_id rest i ≡ true → holds user_id users i ≡ true)
    → holds leave_id (leave_of o l rest) i ≡ true
    → holds user_id users i ≡ true
leave_of-within users none l rest i found later h = later h
leave_of-within users (some u) l rest i found later h = let here = found u refl in ground arith

leaves_of-within :
    (users : List User) (seen : IdSet) (records : List LeaveRecord) (i : ℕ)
    → holds leave_id (leaves_of users seen records) i ≡ true
    → holds user_id users i ≡ true
unfolding leaves_of
leaves_of-within users seen [] i h = cc
leaves_of-within users seen (l ∷ records) i h = elim (Bool-cases (has seen l.user_id)) [
  | inl again ↦ leaves_of-within users seen records i ground (arith)
  | inr fresh ↦
      leave_of-within users (user_map users l.user_id) l
        (leaves_of users (l.user_id ∷ seen) records) i
        (λ u found.
          rw (user_map-holds users l.user_id u found).0 (user_map-holds users l.user_id u found).1)
        (leaves_of-within users (l.user_id ∷ seen) records i) ground (arith)
]

place-within :
    (users : List User) (o : Option User) (t window_start deadline : Time) (rest : Checks) (i : ℕ)
    → ((u : User) → o ≡ some u → holds user_id users u.id ≡ true)
    → ((holds check_id rest.0 i || holds check_id rest.1 i) ≡ true → holds user_id users i ≡ true)
    → (holds check_id (place o t window_start deadline rest).0 i
        || holds check_id (place o t window_start deadline rest).1 i)
      ≡ true
    → holds user_id users i ≡ true
place-within users none t window_start deadline rest i found later h = later h
place-within users (some u) t window_start deadline (on_time, late) i found later h =
    let here = found u refl in ground arith

pub classify-within :
    (users : List User) (window_start deadline : Time) (checks : List (String × Time)) (i : ℕ)
    → (holds check_id (classify users window_start deadline checks).0 i
        || holds check_id (classify users window_start deadline checks).1 i)
      ≡ true
    → holds user_id users i ≡ true
unfolding classify
classify-within users window_start deadline [] i h = cc
classify-within users window_start deadline ((d, t) ∷ checks) i h =
    place-within users (user_by_ding_id users d) t window_start deadline
      (classify users window_start deadline checks) i (user_by_ding_id-holds users d)
      (classify-within users window_start deadline checks i) h

carry_one :
    (should : List User) (o : Option User) (s : Sources) (p : StoredUserCheck)
    (skipped kept : List AttendanceUserCheck) (i : ℕ)
    → ((u : User) → o ≡ some u → holds user_id should u.id ≡ true)
    → (holds check_id skipped i ≡ true → holds user_id should i ≡ true)
    → (holds check_id kept i ≡ true → holds user_id should i ≡ true)
    → holds check_id (elim o [ none ↦ skipped | some u ↦ carried_check s u p ∷ kept ]) i ≡ true
    → holds user_id should i ≡ true
carry_one should none s p skipped kept i found later carried_later h = later h
carry_one should (some u) s p skipped kept i found later carried_later h =
    let here = found u refl in ground arith

pub carried-within :
    (s : Sources) (should : List User) (on_time : IdSet) (previous : List StoredUserCheck) (i : ℕ)
    → holds check_id (carried s should on_time previous) i ≡ true
    → holds user_id should i ≡ true
unfolding carried
carried-within s should on_time [] i h = cc
carried-within s should on_time (p ∷ previous) i h = elim (Bool-cases (has on_time p.id)) [
  | inl there ↦ carried-within s should on_time previous i ground (arith)
  | inr absent ↦
      carry_one should (user_map should p.id) s p (carried s should on_time previous)
        (carried s should (p.id ∷ on_time) previous) i
        (λ u found.
          rw (user_map-holds should p.id u found).0 (user_map-holds should p.id u found).1)
        (carried-within s should on_time previous i)
        (carried-within s should (p.id ∷ on_time) previous i) ground (arith)
]

forwarded-within :
    (s : Sources) (should : List User) (on_time : List AttendanceUserCheck)
    (o : Option AttendanceRecord) (i : ℕ)
    → holds check_id (forwarded s should on_time o) i ≡ true
    → (holds check_id on_time i || holds user_id should i) ≡ true
unfolding forwarded
forwarded-within s should on_time none i h = ground arith
forwarded-within s should on_time (some previous) i h =
    let extra =
      carried-within s should (map (λ u. u.id) on_time) (load_carry_forward_users s previous) i in
    let split =
      any-append (λ u. check_id u == i) on_time
        (carried s should (map (λ u. u.id) on_time) (load_carry_forward_users s previous)) in
    ground arith

pub apply_carry_forward-within :
    (s : Sources) (date : Time) (section : ℕ) (periods : List Period) (should : List User)
    (on_time : List AttendanceUserCheck) (i : ℕ)
    → holds check_id (apply_carry_forward s date section periods should on_time) i ≡ true
    → (holds check_id on_time i || holds user_id should i) ≡ true
unfolding apply_carry_forward
apply_carry_forward-within s date section periods should on_time i h =
    let extra = forwarded-within s should on_time (s.attendance_record date (section - 1)) i in
    ground arith

rest_users-within :
    (users : List User) (day : ℕ) (o : Option (List UserRestDay)) (i : ℕ)
    → holds user_id (rest_users users day o) i ≡ true
    → holds user_id users i ≡ true
rest_users-within users day none i h = cc
rest_users-within users day (some days) i h = holds-keep_if-within user_id _ users i h

pub filter_rest_day_users-within :
    (s : Sources) (users : List User) (day i : ℕ)
    → holds user_id (filter_rest_day_users s users day) i ≡ true
    → holds user_id users i ≡ true
unfolding filter_rest_day_users
filter_rest_day_users-within s users day i h =
    let inside = rest_users-within users day (s.rest_days (ids users)) i in ground arith

pub get_leave_users-within :
    (s : Sources) (users : List User) (from to : Time) (leave : List AttendanceUserLeave) (i : ℕ)
    → get_leave_users s users from to ≡ answer leave
    → holds leave_id leave i ≡ true
    → holds user_id users i ≡ true
unfolding get_leave_users
get_leave_users-within s [] from to leave i made h =
    absurd (let none_left = answer-injective made in ground arith)
get_leave_users-within s (u ∷ us) from to leave i made h =
    let (records, read, given) =
      >>=-answer (or_fail (s.approved_leaves (ids (u ∷ us)) from to) leaves_failed)
        (λ records. answer (leaves_of (u ∷ us) [] records)) made in
    leaves_of-within (u ∷ us) [] records i
      (subst (λ l. holds leave_id l i ≡ true) (sym (answer-injective given)) h)

checks_for-within :
    (s : Sources) (users : List User) (date : Time) (section : ℕ) (deadline until : Time)
    (ds : List String) (checks : Checks) (i : ℕ)
    → checks_for s users date section deadline until ds ≡ answer checks
    → (holds check_id checks.0 i || holds check_id checks.1 i) ≡ true
    → holds user_id users i ≡ true
unfolding checks_for
checks_for-within s users date section deadline until [] checks i made h =
    absurd (let nobody_checked = answer-injective made in ground arith)
checks_for-within s users date section deadline until (d ∷ ds) checks i made h =
    let (window_start, _, rest) =
      >>=-answer (or_fail (calculate_check_window_start s date section) window_start_failed) _
        made in
    let (records, _, given) =
      >>=-answer (or_fail (s.attendance_records (d ∷ ds) window_start until) records_failed) _
        rest in
    classify-within users window_start deadline (s.map_order (earliest_check [] records)) i (
      subst (λ c. (holds check_id c.0 i || holds check_id c.1 i) ≡ true)
        (sym (answer-injective given)) h)

pub get_on_time_users-within :
    (s : Sources) (users : List User) (date : Time) (section : ℕ) (deadline until : Time)
    (checks : Checks) (i : ℕ)
    → get_on_time_users s users date section deadline until ≡ answer checks
    → (holds check_id checks.0 i || holds check_id checks.1 i) ≡ true
    → holds user_id users i ≡ true
unfolding get_on_time_users
get_on_time_users-within s users date section deadline until checks i made h =
    checks_for-within s users date section deadline until (ding_user_ids users) checks i made h

pair_within :
    (a b : List User) (p : List User × List User) (i : ℕ)
    → answer (a, b) ≡ answer p
    → (holds user_id b i ≡ true → holds user_id a i ≡ true)
    → (a ≡ p.0) × (holds user_id p.1 i ≡ true → holds user_id p.0 i ≡ true)
pair_within a b p i made inside =
    subst (λ q. (a ≡ q.0) × (holds user_id q.1 i ≡ true → holds user_id q.0 i ≡ true))
      (answer-injective made) (refl, inside)

among-within :
    (s : Sources) (date : Time) (week : ℤ) (section : ℕ) (users active with_course : List User)
    (i : ℕ)
    → among s date week section users ≡ answer (active, with_course)
    → (users ≡ active) × (holds user_id with_course i ≡ true → holds user_id active i ≡ true)
unfolding among
among-within s date week section [] active with_course i made =
    pair_within [] [] (active, with_course) i made (λ h. h)
among-within s date week section (u ∷ us) active with_course i made =
    elim (Bool-cases (should_use_all_attend_mode s)) [
      | inl all ↦
          pair_within (u ∷ us) [] (active, with_course) i ((ground (arith)) ∙ made) (λ h. cc)
      | inr asked ↦
          let (courses, _, given) =
            >>=-answer
              (or_fail (s.courses (ids (u ∷ us)) (weekday_mon1_sun7 s date) section) courses_failed)
              (λ courses. answer (with_courses (u ∷ us) week courses)) ((ground (arith)) ∙ made) in
          pair_within (u ∷ us) _ (active, with_course) i given
            (holds-keep_if-within user_id (λ v. has (busy_users courses week) v.id) (u ∷ us) i)
    ]

-- The candidates, and the ones with a course among them.
pub candidates-within :
    (s : Sources) (date : Time) (week : ℤ) (section : ℕ) (active with_course : List User) (i : ℕ)
    → get_attendance_candidates_with_course_users s date week section ≡ answer (active, with_course)
    → (s.attendance_candidates ≡ some active)
      × (holds user_id with_course i ≡ true → holds user_id active i ≡ true)
unfolding get_attendance_candidates_with_course_users
candidates-within s date week section active with_course i made =
    let (users, read, rest) =
      >>=-answer (or_fail s.attendance_candidates candidates_failed)
        (λ users. among s date week section users) made in
    let (same, inside) = among-within s date week section users active with_course i rest in
    (
      or_fail-answer s.attendance_candidates candidates_failed (read ∙ ap (λ u. answer u) same),
      inside,
    )
