-- ===== src/Timetable/Weeks/RoundTrip.antt =====
-- The list of weeks that the parser stores is the one that `ContainsWeek` reads.
use ding_ding_schedule.Prelude.{
  ℕ, zero, suc, ◌+◌, ◌-◌, ◌*◌, ◌/◌, ◌%◌, ◌^◌, ◌≤◌, ◌<◌, ◌≡◌, refl, sym, ap, ◌∙◌, Bool, true, false,
  ◌||◌, List, [], ◌∷◌, ◌++◌, ◌==◌, ltb, if◌then◌else◌, any, All, arith, Bool-cases, inl, inr,
}
use mathlib.Core.List.{append_assoc, append-nil}
use ding_ding_schedule.Prelude.Int.{pos}
use ding_ding_schedule.Timetable.WeekList.{
  comma, is_digit, read_field, field_is, contains_from, contains_week,
}
use ding_ding_schedule.Timetable.Weeks.{itoa_fuel, itoa, join_rest, join_weeks}

abbrev Digits : List ℕ → Type 0
Digits = All (λ c. (48 ≤ c) × (c ≤ 57))

Digits-append : (xs ys : List ℕ) → Digits xs → Digits ys → Digits (xs ++ ys)
Digits-append [] ys hx hy = hy
Digits-append (x ∷ xs) ys hx hy = (hx.0, Digits-append xs ys hx.1 hy)

itoa_fuel-Digits : (f n : ℕ) → Digits (itoa_fuel f n)
unfolding itoa_fuel
itoa_fuel-Digits zero n = tt
itoa_fuel-Digits (suc f) n = elim (Bool-cases (ltb n 10)) [
  | inl e ↦ rw e (ground arith, tt)
  | inr e ↦ rw e (
      Digits-append (itoa_fuel f (n / 10)) ((48 + n % 10) ∷ []) (itoa_fuel-Digits f (n / 10))
        (omega arith, tt))
]

first_digit :
    (n : ℕ)
    → ltb n 10 ≡ true
    → (if is_digit (48 + n) then (0 * 10 + (48 + n - 48)) % 2 ^ 64 else 0) ≡ n
first_digit n e = ground arith

last_digit :
    (n : ℕ)
    → n < 2 ^ 64
    → (if is_digit (48 + n % 10) then (n / 10 * 10 + (48 + n % 10 - 48)) % 2 ^ 64 else n / 10) ≡ n
last_digit n b = ground arith

not_comma : (d : ℕ) → (48 ≤ d) × (d ≤ 57) → (d == comma) ≡ false
not_comma d h = ground arith

-- Reading the digits of a number that fits gives the number.
read_field-itoa_fuel :
    (f n : ℕ) (rest : List ℕ)
    → n < f
    → n < 2 ^ 64
    → read_field 0 (itoa_fuel f n ++ rest) ≡ read_field n rest
unfolding itoa_fuel read_field
read_field-itoa_fuel zero n rest h b = elim h [ ]
read_field-itoa_fuel (suc f) n rest h b = elim (Bool-cases (ltb n 10)) [
  | inl e ↦ rw e (ap (λ v. read_field v rest) (first_digit n e))
  | inr e ↦
      rw (e, append_assoc (itoa_fuel f (n / 10)) ((48 + n % 10) ∷ []) rest)
        (read_field-itoa_fuel f (n / 10) ((48 + n % 10) ∷ rest) (ground arith) (omega arith)
          ∙ ap (λ v. read_field v rest) (last_digit n b))
]

contains_from-Digits :
    (field ds rest : List ℕ) (week : ℕ)
    → Digits ds
    → contains_from field (ds ++ rest) week ≡ contains_from (field ++ ds) rest week
unfolding contains_from
contains_from-Digits field [] rest week h = rw append-nil
contains_from-Digits field (d ∷ ds) rest week h = rw (not_comma d h.0) (
    contains_from-Digits (field ++ d ∷ []) ds rest week h.1
    ∙ ap (λ x. contains_from x rest week) (append_assoc field (d ∷ []) ds))

field_is-append :
    (xs : List ℕ) (d week : ℕ)
    → field_is (xs ++ d ∷ []) week ≡ (read_field 0 (xs ++ d ∷ []) == week)
unfolding field_is
field_is-append [] d week = refl
field_is-append (x ∷ xs) d week = refl

field_is-itoa_fuel :
    (f v week : ℕ)
    → field_is (itoa_fuel (suc f) v) week ≡ (read_field 0 (itoa_fuel (suc f) v) == week)
unfolding itoa_fuel
field_is-itoa_fuel f v week = elim (Bool-cases (ltb v 10)) [
  | inl e ↦ rw e (field_is-append [] (48 + v) week)
  | inr e ↦ rw e (field_is-append (itoa_fuel f (v / 10)) (48 + v % 10) week)
]

read_field-nil : (n : ℕ) → read_field n [] ≡ n
unfolding read_field
read_field-nil n = refl

read_field-itoa : (v : ℕ) → v < 2 ^ 64 → read_field 0 (itoa_fuel (suc v) v) ≡ v
read_field-itoa v b =
    ap (read_field 0) (sym (append-nil (itoa_fuel (suc v) v)))
    ∙ read_field-itoa_fuel (suc v) v [] (omega arith) b
    ∙ read_field-nil v

-- The digits of a number, read as a field.
field_is-itoa : (v week : ℕ) → v < 2 ^ 64 → field_is (itoa v) week ≡ (v == week)
unfolding itoa
field_is-itoa v week b = field_is-itoa_fuel v v week ∙ ap (λ x. x == week) (read_field-itoa v b)

itoa-Digits : (v : ℕ) → Digits (itoa v)
unfolding itoa
itoa-Digits v = itoa_fuel-Digits (suc v) v

contains_from-nil : (field : List ℕ) (week : ℕ) → contains_from field [] week ≡ field_is field week
unfolding contains_from
contains_from-nil field week = refl

contains_from-comma :
    (field rest : List ℕ) (week : ℕ)
    → contains_from field (comma ∷ rest) week ≡ (field_is field week || contains_from [] rest week)
unfolding contains_from
contains_from-comma field rest week = elim (Bool-cases (field_is field week)) [
  | inl e ↦ rw e refl
  | inr e ↦ rw e refl
]

or_false : (b : Bool) → (b || false) ≡ b
or_false true = refl
or_false false = refl

contains_from-join_rest :
    (v week : ℕ) (ws : List ℕ)
    → v < 2 ^ 64
    → All (λ w. w < 2 ^ 64) ws
    → contains_from (itoa v) (join_rest ws) week ≡ (v == week || any (λ w. w == week) ws)
unfolding join_rest
contains_from-join_rest v week [] b bs =
    contains_from-nil (itoa v) week ∙ field_is-itoa v week b ∙ sym (or_false (v == week))
contains_from-join_rest v week (w ∷ ws) b bs =
    rw (contains_from-comma (itoa v) (itoa w ++ join_rest ws) week, field_is-itoa v week b)
      (ap (λ x. v == week || x)
        (contains_from-Digits [] (itoa w) (join_rest ws) week (itoa-Digits w)
          ∙ contains_from-join_rest w week ws bs.0 bs.1))

contains_positive_eq :
    (text : List ℕ) (w : ℕ) → 0 < w → contains_week text (pos w) ≡ contains_from [] text w
unfolding contains_week contains_from
contains_positive_eq [] w h = refl
contains_positive_eq (c ∷ cs) w h = rw (not_zero w h) refl
  where
    not_zero : (w : ℕ) → 0 < w → (w == 0) ≡ false
    not_zero w h = ground arith

field_is-nil : (week : ℕ) → field_is [] week ≡ false
unfolding field_is
field_is-nil week = refl

-- Asking the stored text of a list of weeks for a positive week is asking the list, when its weeks
-- fit in 64 bits.
pub contains_week-join_weeks :
    (ws : List ℕ) (week : ℕ)
    → 0 < week
    → All (λ w. w < 2 ^ 64) ws
    → contains_week (join_weeks ws) (pos week) ≡ any (λ w. w == week) ws
unfolding join_weeks
contains_week-join_weeks [] week h bs =
    contains_positive_eq [] week h ∙ contains_from-nil [] week ∙ field_is-nil week
contains_week-join_weeks (w ∷ ws) week h bs =
    contains_positive_eq (itoa w ++ join_rest ws) week h
    ∙ contains_from-Digits [] (itoa w) (join_rest ws) week (itoa-Digits w)
    ∙ contains_from-join_rest w week ws bs.0 bs.1
