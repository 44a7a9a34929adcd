-- ===== src/Agent/Workflow/Codec/Ids.antt =====
-- internal/agent/workflow_snapshot_codec.go: `sortedUniqueInt64s`.
-- The result of sort.Slice on integers does not depend on the algorithm: an insertion sort.
use ding_ding_schedule.Prelude.{List, [], ◌∷◌, if◌then◌else◌}
use ding_ding_schedule.Prelude.Int.{ℤ, leb_ℤ, eq_ℤ}

unfoldable pub insert_sorted : ℤ → List ℤ → List ℤ
insert_sorted i [] = i ∷ []
insert_sorted i (j ∷ js) = if leb_ℤ i j then i ∷ j ∷ js else j ∷ insert_sorted i js

unfoldable pub sort : List ℤ → List ℤ
sort [] = []
sort (i ∷ is) = insert_sorted i (sort is)

-- the loop over the sorted ids, after the id that was written last
unfoldable pub unique_after : ℤ → List ℤ → List ℤ
unique_after last [] = []
unique_after last (i ∷ is) = if eq_ℤ last i then unique_after last is else i ∷ unique_after i is

unfoldable pub unique : List ℤ → List ℤ
unfolding unique_after
unique [] = []
unique (i ∷ is) = i ∷ unique_after i is

unfoldable pub sorted_unique_int64s : List ℤ → List ℤ
unfolding sort insert_sorted unique
sorted_unique_int64s ids = unique (sort ids)
