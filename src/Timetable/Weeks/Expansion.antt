-- ===== src/Timetable/Weeks/Expansion.antt =====
-- Which time tokens the loop over the weeks of a range comes to an end on.
use ding_ding_schedule.Prelude.{
  ℕ, zero, suc, ◌+◌, ◌-◌, ◌%◌, ◌^◌, ◌⊎◌, ◌≤◌, ◌<◌, ◌≡◌, refl, ◌∙◌, Bool, true, false, not, ◌&&◌,
  ◌||◌, List, [], ◌∷◌, ◌==◌, leb, any, arith, Bool-cases, inl, inr, Option, none, some,
}
use ding_ding_schedule.Timetable.WeekList.{comma}
use ding_ding_schedule.Timetable.Weeks.{
  max_int, split_from, digits_value, capped, unsigned, atoi, int_le, weeks_loop, range_weeks,
  part_weeks, and_then, expand_parts, expand_weeks_to_array, sorted, text_of, week_list_text,
}

-- the weeks from `s` on
unfoldable pub weeks_from : ℕ → ℕ → List ℕ
weeks_from s zero = []
weeks_from s (suc n) = s ∷ weeks_from (s + 1) n

-- a range up to the greatest int, which no int is above
abbrev pub up_to_max : List (List ℕ) → Bool
up_to_max (a ∷ b ∷ []) = atoi b == max_int
up_to_max _ = false

abbrev pub endless : List ℕ → Bool
endless p = any (λ c. c == b'-') p && up_to_max (split_from b'-' [] p)

capped-le : (o : Option ℕ) → capped o ≤ max_int
capped-le none = omega arith
capped-le (some n) = ground arith

unsigned-le : (cs : List ℕ) → unsigned cs ≤ max_int
unfolding unsigned
unsigned-le [] = omega arith
unsigned-le (c ∷ cs) = capped-le (digits_value 0 (c ∷ cs))

pub atoi-le : (cs : List ℕ) → atoi cs ≤ max_int
unfolding atoi
atoi-le [] = omega arith
atoi-le (c ∷ cs) = elim (Bool-cases (c == b'+')) [
  | inl e ↦ rw e (unsigned-le cs)
  | inr e ↦ rw e (unsigned-le (c ∷ cs))
]

next_pattern : (i e : ℕ) → i ≤ e → e < max_int → (i + 1) % 2 ^ 64 ≡ i + 1
next_pattern i e h b = omega arith

one_more : (i e : ℕ) → i ≤ e → e + 1 - i ≡ suc (e + 1 - (i + 1))
one_more i e h = omega arith

none_left : (i e : ℕ) → e < i → e + 1 - i ≡ 0
none_left i e h = omega arith

within : (i e : ℕ) → i ≤ e → int_le i e ≡ true
within i e h = ground arith

beyond : (i e : ℕ) → i ≤ max_int → e < i → int_le i e ≡ false
beyond i e b h = ground arith

below_or_above : (i e : ℕ) → (i ≤ e) ⊎ (e < i)
below_or_above i e = elim (Bool-cases (leb i e)) [
  | inl h ↦ inl (ground arith)
  | inr h ↦ inr (ground arith)
]

-- Below the greatest int, one round more than there are weeks is enough, and so are more.
pub weeks_loop-ends :
    (rounds i e : ℕ)
    → i ≤ max_int
    → e < max_int
    → e + 1 - i < rounds
    → weeks_loop rounds i e ≡ some (weeks_from i (e + 1 - i))
unfolding weeks_loop weeks_from
weeks_loop-ends zero i e b h enough = absurd (omega arith)
weeks_loop-ends (suc rounds) i e b h enough = elim (below_or_above i e) [
  | inl more ↦
      let rest = weeks_loop-ends rounds (i + 1) e (omega arith) h (omega arith) in
      rw (within i e more, next_pattern i e more h, one_more i e more, rest) refl
  | inr past ↦ rw (beyond i e b past, none_left i e past) refl
]

always_within : (i : ℕ) → int_le i max_int ≡ true
always_within i = ground arith

-- Up to the greatest int no number of rounds is enough.
pub weeks_loop-endless : (rounds i : ℕ) → weeks_loop rounds i max_int ≡ none
unfolding weeks_loop
weeks_loop-endless zero i = refl
weeks_loop-endless (suc rounds) i =
    rw (always_within i, weeks_loop-endless rounds ((i + 1) % 2 ^ 64)) refl

abbrev pub is_some {ℓ} : {A : Type ℓ} → Option A → Bool
is_some none = false
is_some (some a) = true

is_max : (n : ℕ) → (n == max_int) ≡ true → n ≡ max_int
is_max n h = ground arith

below_max : (n : ℕ) → n ≤ max_int → (n == max_int) ≡ false → n < max_int
below_max n b h = ground arith

-- The weeks of the fields of a range that is not endless.
pub range_weeks-ends :
    (a b : List ℕ)
    → (atoi b == max_int) ≡ false
    → range_weeks (a ∷ b ∷ []) ≡ some (weeks_from (atoi a) (atoi b + 1 - atoi a))
unfolding range_weeks
range_weeks-ends a b h =
    weeks_loop-ends (suc (atoi b + 1 - atoi a)) (atoi a) (atoi b) (atoi-le a)
      (below_max (atoi b) (atoi-le b) h) (omega arith)

range_weeks-is_some :
    (fields : List (List ℕ)) → is_some (range_weeks fields) ≡ not (up_to_max fields)
unfolding range_weeks
range_weeks-is_some [] = refl
range_weeks-is_some (a ∷ []) = refl
range_weeks-is_some (a ∷ b ∷ []) = elim (Bool-cases (atoi b == max_int)) [
  | inl e ↦ rw (e, is_max (atoi b) e, weeks_loop-endless (suc (max_int + 1 - atoi a)) (atoi a)) refl
  | inr e ↦ rw (e, range_weeks-ends a b e) refl
]
range_weeks-is_some (a ∷ b ∷ c ∷ fields) = refl

part_weeks-is_some : (p : List ℕ) → is_some (part_weeks p) ≡ not (endless p)
unfolding part_weeks
part_weeks-is_some p = elim (Bool-cases (any (λ c. c == b'-') p)) [
  | inl e ↦ rw e (range_weeks-is_some (split_from b'-' [] p))
  | inr e ↦ rw e refl
]

and_then-is_some : (x y : Option (List ℕ)) → is_some (and_then x y) ≡ (is_some x && is_some y)
and_then-is_some none y = refl
and_then-is_some (some xs) none = refl
and_then-is_some (some xs) (some ys) = refl

neither : (x y : Bool) → (not x && not y) ≡ not (x || y)
neither x y = ground arith

expand_parts-is_some : (ps : List (List ℕ)) → is_some (expand_parts ps) ≡ not (any endless ps)
unfolding expand_parts
expand_parts-is_some [] = refl
expand_parts-is_some (p ∷ ps) =
    and_then-is_some (part_weeks p) (expand_parts ps)
    ∙ rw (part_weeks-is_some p, expand_parts-is_some ps) (neither (endless p) (any endless ps))

text_of-is_some : (type : ℕ) (o : Option (List ℕ)) → is_some (text_of type (sorted o)) ≡ is_some o
text_of-is_some type none = refl
text_of-is_some type (some weeks) = refl

-- The week list of a course comes to an end exactly when no part of its time token is a range up to
-- the greatest int (which strconv.Atoi also gives for a number that is too large); and the
-- loop of such a range does not end in any number of rounds.
pub week_list_text-ends :
    (raw : List ℕ) (type : ℕ)
    → (is_some (week_list_text raw type) ≡ not (any endless (split_from comma [] raw)))
      × ((rounds i : ℕ) → weeks_loop rounds i max_int ≡ none)
unfolding week_list_text expand_weeks_to_array
week_list_text-ends raw type = (
  text_of-is_some type (expand_parts (split_from comma [] raw))
      ∙ expand_parts-is_some (split_from comma [] raw),
  weeks_loop-endless,
)
