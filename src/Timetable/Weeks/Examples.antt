-- ===== src/Timetable/Weeks/Examples.antt =====
-- The weeks 1-3 and 18 of a course, and a range that does not end.
use ding_ding_schedule.Prelude.{
  ◌≡◌, true, false, not, Bool, Option, none, some, ◌&&◌, ℕ, List, [], ◌∷◌, any, ◌==◌, arith, refl,
}
use ding_ding_schedule.Prelude.Int.{pos}
use ding_ding_schedule.Timetable.WeekList.{comma, contains_week}
use ding_ding_schedule.Timetable.Weeks.{
  max_int, split_from, weeks_loop, atoi, join_weeks, week_list_text, filter_weeks,
  expand_weeks_to_array, join_rest, itoa,
}
use ding_ding_schedule.Timetable.Weeks.RoundTrip.{contains_week-join_weeks}
use ding_ding_schedule.Timetable.Weeks.Expansion.{is_some, endless, week_list_text-ends}
use ding_ding_schedule.Timetable.Weeks.Coverage.{part_covers, type_admits, week_list_text-covers}

abbrev some_weeks : List ℕ
some_weeks = 1 ∷ 2 ∷ 3 ∷ 18 ∷ []

-- "1-3,18"
abbrev week_part : List ℕ
week_part = b'1' ∷ b'-' ∷ b'3' ∷ b',' ∷ b'1' ∷ b'8' ∷ []

contains_week-join_weeks_example :
    contains_week (join_weeks some_weeks) (pos 18) ≡ any (λ w. w == 18) some_weeks
contains_week-join_weeks_example =
    contains_week-join_weeks some_weeks 18 (omega arith)
      (omega arith, (omega arith, (omega arith, (omega arith, tt))))

week_list_text-covers_example :
    (text : List ℕ) × (week_list_text week_part 2 ≡ some text)
    × (contains_week text (pos 18)
        ≡ (any (part_covers 18) (split_from comma [] week_part) && type_admits 2 18))
unfolding split_from atoi
week_list_text-covers_example = week_list_text-covers week_part 2 18 refl (omega arith)

week_list_text-ends_example :
    (is_some (week_list_text week_part 2) ≡ not (any endless (split_from comma [] week_part)))
    × ((rounds i : ℕ) → weeks_loop rounds i max_int ≡ none)
week_list_text-ends_example = week_list_text-ends week_part 2

abbrev held : ℕ → Option (List ℕ) → Bool
held week none = false
held week (some text) = contains_week text (pos week)

-- Week 18 is held and even; week 3 is held but odd.
even_week : held 18 (week_list_text week_part 2) ≡ true
unfolding week_list_text contains_week join_weeks filter_weeks expand_weeks_to_array join_rest itoa
even_week = refl

odd_week : held 3 (week_list_text week_part 2) ≡ false
unfolding week_list_text contains_week join_weeks filter_weeks expand_weeks_to_array join_rest itoa
odd_week = refl

-- "1-99999999999999999999": the upper bound is read as the greatest int, so the parser does not end.
abbrev too_large : List ℕ
too_large =
    b'1' ∷ b'-' ∷ b'9' ∷ b'9' ∷ b'9' ∷ b'9' ∷ b'9' ∷ b'9' ∷ b'9' ∷ b'9' ∷ b'9' ∷ b'9' ∷ b'9' ∷ b'9'
    ∷ b'9' ∷ b'9' ∷ b'9' ∷ b'9' ∷ b'9' ∷ b'9' ∷ b'9' ∷ b'9' ∷ []

never_ends : is_some (week_list_text too_large 0) ≡ false
unfolding split_from atoi
never_ends = (week_list_text-ends too_large 0).0
