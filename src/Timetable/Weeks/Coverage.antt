-- ===== src/Timetable/Weeks/Coverage.antt =====
-- Which weeks the stored list of a course holds, said from the parts of its time token.
use ding_ding_schedule.Prelude.{
  ℕ, zero, suc, ◌+◌, ◌-◌, ◌^◌, ◌≤◌, ◌<◌, ◌≡◌, refl, ap, ◌∙◌, Bool, true, false, ◌&&◌, ◌||◌, List,
  [], ◌∷◌, ◌++◌, ◌==◌, ltb, leb, if◌then◌else◌, any, any-keep_if, any-append, keep_if, All, arith,
  Bool-cases, inl, inr, Option, some,
}
use ding_ding_schedule.Prelude.Int.{pos}
use ding_ding_schedule.Timetable.WeekList.{comma, contains_week}
use ding_ding_schedule.Timetable.Weeks.{
  max_int, split_from, atoi, range_weeks, part_weeks, expand_parts, insert_week, sort_weeks,
  expand_weeks_to_array, filter_weeks, week_type_keeps, join_weeks, week_list_text,
}
use ding_ding_schedule.Timetable.Weeks.Expansion.{
  weeks_from, up_to_max, endless, atoi-le, range_weeks-ends,
}
use ding_ding_schedule.Timetable.Weeks.RoundTrip.{contains_week-join_weeks}

-- a week between two bounds
abbrev pub range_covers : List (List ℕ) → ℕ → Bool
range_covers (a ∷ b ∷ []) week = leb (atoi a) week && leb week (atoi b)
range_covers _ week = false

-- a part of the text names a week, or a range that holds it
abbrev pub part_covers : ℕ → List ℕ → Bool
part_covers week p =
    if any (λ c. c == b'-') p then range_covers (split_from b'-' [] p) week else atoi p == week

abbrev pub type_admits : ℕ → ℕ → Bool
type_admits type week = type == 0 || week_type_keeps type week

abbrev Fit : List ℕ → Type 0
Fit = All (λ w. w < 2 ^ 64)

weeks_from-Fit : (s n : ℕ) → (n ≡ 0 → ⊥) → s + n ≤ 2 ^ 63 → Fit (weeks_from s n)
unfolding weeks_from
weeks_from-Fit s zero h b = tt
weeks_from-Fit s (suc zero) h b = (omega arith, tt)
weeks_from-Fit s (suc (suc n)) h b =
    (omega arith, weeks_from-Fit (s + 1) (suc n) (λ e. omega arith) (omega arith))

weeks_from-any :
    (s n week : ℕ) → any (λ w. w == week) (weeks_from s n) ≡ (leb s week && ltb week (s + n))
unfolding weeks_from
weeks_from-any s zero week = ground arith
weeks_from-any s (suc n) week = ground (arith, weeks_from-any (s + 1) n week)

range-Fit : (a b : ℕ) → b ≤ max_int → Fit (weeks_from a (b + 1 - a))
unfolding weeks_from
range-Fit a b h = elim (Bool-cases (ltb b a)) [
  | inl e ↦ rw (empty a b e) tt
  | inr e ↦ weeks_from-Fit a (b + 1 - a) (λ z. some_weeks a b e z) (fits a b h e)
]
  where
    empty : (a b : ℕ) → ltb b a ≡ true → b + 1 - a ≡ 0
    empty a b e = ground arith

    some_weeks : (a b : ℕ) → ltb b a ≡ false → b + 1 - a ≡ 0 → ⊥
    some_weeks a b e z = ground arith

    fits : (a b : ℕ) → b ≤ max_int → ltb b a ≡ false → a + (b + 1 - a) ≤ 2 ^ 63
    fits a b h e = ground arith

range_bounds :
    (a b week : ℕ) → (leb a week && ltb week (a + (b + 1 - a))) ≡ (leb a week && leb week b)
range_bounds a b week = ground arith

-- The weeks that are read, with what they cover for each positive week.
Covers : (ℕ → Bool) → Option (List ℕ) → Type 0
Covers covered o =
    (ws : List ℕ) × (o ≡ some ws)
    × Fit ws
    × ((week : ℕ) → 0 < week → any (λ w. w == week) ws ≡ covered week)

range_weeks-Covers :
    (fields : List (List ℕ))
    → up_to_max fields ≡ false
    → Covers (range_covers fields) (range_weeks fields)
unfolding range_weeks Covers
range_weeks-Covers [] h = ([], refl, tt, λ week _. refl)
range_weeks-Covers (a ∷ []) h = ([], refl, tt, λ week _. refl)
range_weeks-Covers (a ∷ b ∷ []) h = (
  weeks_from (atoi a) (atoi b + 1 - atoi a),
  range_weeks-ends a b h,
  range-Fit (atoi a) (atoi b) (atoi-le b),
  λ week _.
      weeks_from-any (atoi a) (atoi b + 1 - atoi a) week ∙ range_bounds (atoi a) (atoi b) week,
)
range_weeks-Covers (a ∷ b ∷ c ∷ fields) h = ([], refl, tt, λ week _. refl)

single :
    (v week : ℕ) → 0 < week → any (λ w. w == week) (if ltb 0 v then v ∷ [] else []) ≡ (v == week)
single v week h = ground arith

single-Fit : (v : ℕ) → v ≤ max_int → Fit (if ltb 0 v then v ∷ [] else [])
single-Fit v h = elim (Bool-cases (ltb 0 v)) [ inl e ↦ rw e (omega arith, tt) | inr e ↦ rw e tt ]

part_weeks-Covers :
    (p : List ℕ) → endless p ≡ false → Covers (λ week. part_covers week p) (part_weeks p)
unfolding part_weeks Covers
part_weeks-Covers p h = elim (Bool-cases (any (λ c. c == b'-') p)) [
  | inl e ↦ rw e (range_weeks-Covers (split_from b'-' [] p) (rw e at h))
  | inr e ↦ rw e (
    (if ltb 0 (atoi p) then atoi p ∷ [] else []),
    refl,
    single-Fit (atoi p) (atoi-le p),
    λ week positive. single (atoi p) week positive,
  )
]

Fit-append : (xs ys : List ℕ) → Fit xs → Fit ys → Fit (xs ++ ys)
Fit-append [] ys hx hy = hy
Fit-append (x ∷ xs) ys hx hy = (hx.0, Fit-append xs ys hx.1 hy)

no_part : (x y : Bool) → (x || y) ≡ false → (x ≡ false) × (y ≡ false)
no_part x y h = ground arith

expand_parts-Covers :
    (ps : List (List ℕ))
    → any endless ps ≡ false
    → Covers (λ week. any (part_covers week) ps) (expand_parts ps)
unfolding expand_parts Covers
expand_parts-Covers [] h = ([], refl, tt, λ week _. refl)
expand_parts-Covers (p ∷ ps) h =
    let (first_ends, others_end) = no_part (endless p) (any endless ps) h in
    let (ws, made, fit, covers) = part_weeks-Covers p first_ends in
    let (rest, made_rest, fit_rest, covers_rest) = expand_parts-Covers ps others_end in
    (
      ws ++ rest,
      rw (made, made_rest) refl,
      Fit-append ws rest fit fit_rest,
      λ week positive.
          any-append (λ w. w == week) ws rest
          ∙ rw (covers week positive, covers_rest week positive) refl,
    )

insert_week-any :
    (q : ℕ → Bool) (w : ℕ) (xs : List ℕ) → any q (insert_week w xs) ≡ (q w || any q xs)
unfolding insert_week
insert_week-any q w [] = refl
insert_week-any q w (x ∷ xs) = ground (arith, insert_week-any q w xs)

insert_week-Fit : (w : ℕ) (xs : List ℕ) → w < 2 ^ 64 → Fit xs → Fit (insert_week w xs)
unfolding insert_week
insert_week-Fit w [] h hs = (h, tt)
insert_week-Fit w (x ∷ xs) h hs = elim (Bool-cases (leb w x)) [
  | inl e ↦ rw e (h, hs)
  | inr e ↦ rw e (hs.0, insert_week-Fit w xs h hs.1)
]

sort_weeks-any : (q : ℕ → Bool) (xs : List ℕ) → any q (sort_weeks xs) ≡ any q xs
unfolding sort_weeks
sort_weeks-any q [] = refl
sort_weeks-any q (x ∷ xs) =
    insert_week-any q x (sort_weeks xs) ∙ ap (λ b. q x || b) (sort_weeks-any q xs)

sort_weeks-Fit : (xs : List ℕ) → Fit xs → Fit (sort_weeks xs)
unfolding sort_weeks
sort_weeks-Fit [] h = tt
sort_weeks-Fit (x ∷ xs) h = insert_week-Fit x (sort_weeks xs) h.0 (sort_weeks-Fit xs h.1)

keep_if-Fit : (q : ℕ → Bool) (xs : List ℕ) → Fit xs → Fit (keep_if q xs)
keep_if-Fit q [] h = tt
keep_if-Fit q (x ∷ xs) h = elim (Bool-cases (q x)) [
  | inl e ↦ rw e (h.0, keep_if-Fit q xs h.1)
  | inr e ↦ rw e (keep_if-Fit q xs h.1)
]

filter_weeks-Fit : (ws : List ℕ) (type : ℕ) → Fit ws → Fit (filter_weeks ws type)
unfolding filter_weeks
filter_weeks-Fit ws type h = elim (Bool-cases (type == 0)) [
  | inl e ↦ rw e h
  | inr e ↦ rw e (keep_if-Fit (week_type_keeps type) ws h)
]

eq_of_== : (a b : ℕ) → (a == b) ≡ true → a ≡ b
eq_of_== a b h = ground arith

kept_equal :
    (q : ℕ → Bool) (week : ℕ) (ws : List ℕ)
    → any (λ x. if q x then x == week else false) ws ≡ (any (λ w. w == week) ws && q week)
kept_equal q week [] = refl
kept_equal q week (w ∷ ws) = elim (Bool-cases (w == week)) [
  | inl e ↦
      let same : q w ≡ q week = ap q (eq_of_== w week e) in
      ground (arith, same, e, kept_equal q week ws)
  | inr e ↦ ground (arith, e, kept_equal q week ws)
]

filter_weeks-any :
    (ws : List ℕ) (type week : ℕ)
    → any (λ w. w == week) (filter_weeks ws type)
      ≡ (any (λ w. w == week) ws && type_admits type week)
unfolding filter_weeks
filter_weeks-any ws type week = elim (Bool-cases (type == 0)) [
  | inl e ↦ rw e (and_true _)
  | inr e ↦ rw e (
      any-keep_if (λ w. w == week) (week_type_keeps type) ws
      ∙ kept_equal (week_type_keeps type) week ws)
]
  where
    and_true : (b : Bool) → b ≡ (b && true)
    and_true true = refl
    and_true false = refl

-- Where no part of the time token is a range up to the greatest int, a text is stored for the course,
-- and it holds a positive week exactly when some part of the time token is that week or is a range
-- around it, and the week type admits it.
pub week_list_text-covers :
    (raw : List ℕ) (type week : ℕ)
    → any endless (split_from comma [] raw) ≡ false
    → 0 < week
    → (text : List ℕ) × (week_list_text raw type ≡ some text)
      × (contains_week text (pos week)
          ≡ (any (part_covers week) (split_from comma [] raw) && type_admits type week))
unfolding week_list_text expand_weeks_to_array Covers
week_list_text-covers raw type week ends h =
    let (ws, made, fit, covers) = expand_parts-Covers (split_from comma [] raw) ends in
    (
      join_weeks (filter_weeks (sort_weeks ws) type),
      rw made refl,
      contains_week-join_weeks (filter_weeks (sort_weeks ws) type) week h
            (filter_weeks-Fit _ type (sort_weeks-Fit _ fit))
          ∙ filter_weeks-any (sort_weeks ws) type week
          ∙ rw (sort_weeks-any (λ w. w == week) ws, covers week h) refl,
    )
