-- ===== src/Timetable/WeekList.antt =====
-- pkg/weekutil/weekutil.go: `ContainsWeek`, on the list of weeks of a course as text, "1,2,3".
-- A Go string is the list of its bytes. The int that a field is read into is its 64-bit pattern.
use ding_ding_schedule.Prelude.{
  ℕ, ◌+◌, ◌-◌, ◌*◌, ◌%◌, ◌^◌, Bool, true, false, ◌&&◌, List, [], ◌∷◌, ◌++◌, ◌==◌, leb,
  if◌then◌else◌,
}
use ding_ding_schedule.Prelude.Int.{ℤ, pos, negsuc}

abbrev pub comma : ℕ
comma = b','

abbrev pub is_digit : ℕ → Bool
is_digit c = leb b'0' c && leb c b'9'

-- the loop over the bytes of a field
unfoldable pub read_field : ℕ → List ℕ → ℕ
read_field n [] = n
read_field n (c ∷ cs) = read_field (if is_digit c then (n * 10 + (c - b'0')) % 2 ^ 64 else n) cs

-- the test at the end of a field; an empty field is passed over
unfoldable pub field_is : List ℕ → ℕ → Bool
unfolding read_field
field_is [] week = false
field_is (c ∷ cs) week = read_field 0 (c ∷ cs) == week

-- the loop over the text; the first argument is the field since `start`
unfoldable pub contains_from : List ℕ → List ℕ → ℕ → Bool
unfolding field_is
contains_from field [] week = field_is field week
contains_from field (c ∷ cs) week =
    let after = contains_from [] cs week in
    let within = contains_from (field ++ c ∷ []) cs week in
    if c == comma then (if field_is field week then true else after) else within

abbrev contains_positive : List ℕ → ℤ → Bool
contains_positive [] week = false
contains_positive (c ∷ cs) (negsuc n) = false
contains_positive (c ∷ cs) (pos n) = if n == 0 then false else contains_from [] (c ∷ cs) n

unfoldable pub contains_week : List ℕ → ℤ → Bool
unfolding contains_from
contains_week text week = contains_positive text week
