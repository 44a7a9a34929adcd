-- ===== src/Timetable/Weeks.antt =====
-- pkg/scheduleparse/parser.go: from the weeks of a time token to the list of weeks that is stored.
-- A text is the list of its bytes. A part that reaches strconv.Atoi holds no '-', so no number here
-- is negative. sort.Ints is an insertion sort: its result does not depend on the algorithm.
pub mod RoundTrip
pub mod Expansion
pub mod Coverage
mod Examples
use ding_ding_schedule.Prelude.{
  ℕ, zero, suc, ◌+◌, ◌-◌, ◌*◌, ◌/◌, ◌%◌, ◌^◌, Bool, true, false, not, ◌&&◌, ◌||◌, List, [], ◌∷◌,
  ◌++◌, ◌==◌, ltb, leb, if◌then◌else◌, keep_if, any, Option, none, some,
}
use ding_ding_schedule.Timetable.WeekList.{comma, is_digit}

-- strings.Split at one byte: the field so far, and the rest
unfoldable pub split_from : ℕ → List ℕ → List ℕ → List (List ℕ)
split_from sep field [] = field ∷ []
split_from sep field (c ∷ cs) =
    let next = split_from sep [] cs in
    let more = split_from sep (field ++ c ∷ []) cs in if c == sep then field ∷ next else more

abbrev pub max_int : ℕ
max_int = 2 ^ 63 - 1

-- the digits of a number; `none` at any other byte
unfoldable pub digits_value : ℕ → List ℕ → Option ℕ
digits_value n [] = some n
digits_value n (c ∷ cs) =
    let rest = digits_value (n * 10 + (c - b'0')) cs in if is_digit c then rest else none

abbrev pub capped : Option ℕ → ℕ
capped none = 0
capped (some n) = if ltb max_int n then max_int else n

unfoldable pub unsigned : List ℕ → ℕ
unfolding digits_value
unsigned [] = 0
unsigned (c ∷ cs) = capped (digits_value 0 (c ∷ cs))

-- the value of strconv.Atoi, whose error is dropped: 0 for what is no number, and the greatest int
-- for a number that is too large
unfoldable pub atoi : List ℕ → ℕ
unfolding unsigned
atoi [] = 0
atoi (c ∷ cs) = if c == b'+' then unsigned cs else unsigned (c ∷ cs)

abbrev pub put_week : ℕ → Option (List ℕ) → Option (List ℕ)
put_week i none = none
put_week i (some weeks) = some (i ∷ weeks)

-- `i <= e` on the 64-bit pattern of `i`, which is negative from 2 ^ 63 on, for an `e` that is not negative
abbrev pub int_le : ℕ → ℕ → Bool
int_le i e = leb (2 ^ 63) i || leb i e

-- `for i := s; i <= e; i++`, where `i++` wraps; `none` when the rounds do not reach its end
unfoldable pub weeks_loop : ℕ → ℕ → ℕ → Option (List ℕ)
weeks_loop zero i e = none
weeks_loop (suc rounds) i e =
    let rest = weeks_loop rounds ((i + 1) % 2 ^ 64) e in
    if int_le i e then put_week i rest else some []

-- One round more than the range has weeks: with these the loop ends if it ends at all.
unfoldable pub range_weeks : List (List ℕ) → Option (List ℕ)
unfolding weeks_loop
range_weeks (a ∷ b ∷ []) = weeks_loop (suc (atoi b + 1 - atoi a)) (atoi a) (atoi b)
range_weeks _ = some []

unfoldable pub part_weeks : List ℕ → Option (List ℕ)
unfolding range_weeks atoi split_from
part_weeks p =
    if any (λ c. c == b'-') p
    then range_weeks (split_from b'-' [] p)
    else some (if ltb 0 (atoi p) then atoi p ∷ [] else [])

abbrev pub and_then : Option (List ℕ) → Option (List ℕ) → Option (List ℕ)
and_then none rest = none
and_then (some weeks) none = none
and_then (some weeks) (some rest) = some (weeks ++ rest)

-- the loop over the parts; `none` when it does not end
unfoldable pub expand_parts : List (List ℕ) → Option (List ℕ)
unfolding part_weeks
expand_parts [] = some []
expand_parts (p ∷ ps) = and_then (part_weeks p) (expand_parts ps)

unfoldable pub insert_week : ℕ → List ℕ → List ℕ
insert_week w [] = w ∷ []
insert_week w (x ∷ xs) = if leb w x then w ∷ x ∷ xs else x ∷ insert_week w xs

unfoldable pub sort_weeks : List ℕ → List ℕ
unfolding insert_week
sort_weeks [] = []
sort_weeks (w ∷ ws) = insert_week w (sort_weeks ws)

abbrev pub sorted : Option (List ℕ) → Option (List ℕ)
sorted none = none
sorted (some weeks) = some (sort_weeks weeks)

unfoldable pub expand_weeks_to_array : List ℕ → Option (List ℕ)
unfolding sort_weeks expand_parts split_from
expand_weeks_to_array raw = sorted (expand_parts (split_from comma [] raw))

-- week type 1 is odd weeks, 2 even weeks, 0 all
unfoldable pub week_type_keeps : ℕ → ℕ → Bool
week_type_keeps type w = (type == 1 && not (w % 2 == 0)) || (type == 2 && w % 2 == 0)

unfoldable pub filter_weeks : List ℕ → ℕ → List ℕ
unfolding week_type_keeps
filter_weeks weeks type = if type == 0 then weeks else keep_if (week_type_keeps type) weeks

-- strconv.Itoa, with fuel above the number
unfoldable pub itoa_fuel : ℕ → ℕ → List ℕ
itoa_fuel zero n = []
itoa_fuel (suc f) n =
    let front = itoa_fuel f (n / 10) in
    if ltb n 10 then (b'0' + n) ∷ [] else front ++ (b'0' + n % 10) ∷ []

unfoldable pub itoa : ℕ → List ℕ
unfolding itoa_fuel
itoa n = itoa_fuel (suc n) n

-- the loop of `joinWeeks` after its first round
unfoldable pub join_rest : List ℕ → List ℕ
join_rest [] = []
join_rest (w ∷ ws) = comma ∷ (itoa w ++ join_rest ws)

unfoldable pub join_weeks : List ℕ → List ℕ
join_weeks [] = []
join_weeks (w ∷ ws) = itoa w ++ join_rest ws

abbrev pub text_of : ℕ → Option (List ℕ) → Option (List ℕ)
text_of type none = none
text_of type (some weeks) = some (join_weeks (filter_weeks weeks type))

-- `WeekList` of a course, from the parts of its time token; `none` when the parser does not end
unfoldable pub week_list_text : List ℕ → ℕ → Option (List ℕ)
week_list_text week_part type = text_of type (expand_weeks_to_array week_part)
