-- ===== src/Agent/Workflow/Codec/IdOrder.antt =====
-- Sorted ids without repetition: sorting them again changes nothing.
use ding_ding_schedule.Prelude.{
  ◌≡◌, refl, sym, ap, ◌∙◌, Bool, true, false, ◌||◌, List, [], ◌∷◌, any, arith, Bool-cases, inl, inr,
  subst,
}
use ding_ding_schedule.Prelude.Int.{ℤ, leb_ℤ, eq_ℤ, eq_of_eq_ℤ}
use ding_ding_schedule.Agent.Workflow.Codec.Ids.{
  insert_sorted, sort, unique_after, unique, sorted_unique_int64s,
}

-- in order after `last`
abbrev Ordered : ℤ → List ℤ → Type 0
Ordered last [] = Unit
Ordered last (i ∷ is) = (leb_ℤ last i ≡ true) × Ordered i is

abbrev InOrder : List ℤ → Type 0
InOrder [] = Unit
InOrder (i ∷ is) = Ordered i is

-- in order after `last`, and without repetition
abbrev Rising : ℤ → List ℤ → Type 0
Rising last [] = Unit
Rising last (i ∷ is) = (leb_ℤ i last ≡ false) × Rising i is

abbrev Rises : List ℤ → Type 0
Rises [] = Unit
Rises (i ∷ is) = Rising i is

total : (i j : ℤ) → leb_ℤ i j ≡ false → leb_ℤ j i ≡ true
total i j h = ground arith

above : (i j : ℤ) → leb_ℤ i j ≡ true → eq_ℤ i j ≡ false → leb_ℤ j i ≡ false
above i j h n = ground arith

differ : (i j : ℤ) → leb_ℤ j i ≡ false → eq_ℤ i j ≡ false
differ i j h = ground arith

insert_sorted-Ordered :
    (is : List ℤ) (last i : ℤ)
    → leb_ℤ last i ≡ true
    → Ordered last is
    → Ordered last (insert_sorted i is)
unfolding insert_sorted
insert_sorted-Ordered [] last i h o = (h, tt)
insert_sorted-Ordered (j ∷ js) last i h (g, o) = elim (Bool-cases (leb_ℤ i j)) [
  | inl e ↦ rw e (h, (e, o))
  | inr e ↦ rw e (g, insert_sorted-Ordered js j i (total i j e) o)
]

insert_sorted-InOrder : (i : ℤ) (is : List ℤ) → InOrder is → InOrder (insert_sorted i is)
unfolding insert_sorted
insert_sorted-InOrder i [] o = tt
insert_sorted-InOrder i (j ∷ js) o = elim (Bool-cases (leb_ℤ i j)) [
  | inl e ↦ rw e (e, o)
  | inr e ↦ rw e (insert_sorted-Ordered js j i (total i j e) o)
]

sort-InOrder : (is : List ℤ) → InOrder (sort is)
unfolding sort
sort-InOrder [] = tt
sort-InOrder (i ∷ is) = insert_sorted-InOrder i (sort is) (sort-InOrder is)

unique_after-Rising :
    (is : List ℤ) (last : ℤ) → Ordered last is → Rising last (unique_after last is)
unfolding unique_after
unique_after-Rising [] last o = tt
unique_after-Rising (i ∷ is) last (h, o) = elim (Bool-cases (eq_ℤ last i)) [
  | inl e ↦
      rw e (unique_after-Rising is last (subst (λ j. Ordered j is) (sym (eq_of_eq_ℤ last i e)) o))
  | inr e ↦ rw e (above last i h e, unique_after-Rising is i o)
]

unique-Rises : (is : List ℤ) → InOrder is → Rises (unique is)
unfolding unique
unique-Rises [] o = tt
unique-Rises (i ∷ is) o = unique_after-Rising is i o

unique_after-Rising-eq : (is : List ℤ) (last : ℤ) → Rising last is → unique_after last is ≡ is
unfolding unique_after
unique_after-Rising-eq [] last r = refl
unique_after-Rising-eq (i ∷ is) last (h, r) =
    rw (differ last i h) (ap (λ x. i ∷ x) (unique_after-Rising-eq is i r))

insert_sorted-Rising : (i : ℤ) (is : List ℤ) → Rising i is → insert_sorted i is ≡ i ∷ is
unfolding insert_sorted
insert_sorted-Rising i [] r = refl
insert_sorted-Rising i (j ∷ js) (h, r) = rw (total j i h) refl

Rising-tail : (i : ℤ) (is : List ℤ) → Rising i is → Rises is
Rising-tail i [] r = tt
Rising-tail i (j ∷ js) (h, r) = r

sort-Rises : (is : List ℤ) → Rises is → sort is ≡ is
unfolding sort
sort-Rises [] r = refl
sort-Rises (i ∷ is) r =
    ap (insert_sorted i) (sort-Rises is (Rising-tail i is r)) ∙ insert_sorted-Rising i is r

unique-Rises-eq : (is : List ℤ) → Rises is → unique is ≡ is
unfolding unique
unique-Rises-eq [] r = refl
unique-Rises-eq (i ∷ is) r = ap (λ x. i ∷ x) (unique_after-Rising-eq is i r)

sorted_unique_int64s-Rises : (ids : List ℤ) → Rises (sorted_unique_int64s ids)
unfolding sorted_unique_int64s
sorted_unique_int64s-Rises ids = unique-Rises (sort ids) (sort-InOrder ids)

pub sorted_unique_again :
    (ids : List ℤ) → sorted_unique_int64s (sorted_unique_int64s ids) ≡ sorted_unique_int64s ids
sorted_unique_again ids = again (sorted_unique_int64s ids) (sorted_unique_int64s-Rises ids)
  where
    again : (is : List ℤ) → Rises is → sorted_unique_int64s is ≡ is
    again is r = unfold sorted_unique_int64s in ap unique (sort-Rises is r) ∙ unique-Rises-eq is r

-- No id gets in that passes a test which the given ids fail.
module _ (q : ℤ → Bool) where
  either : (a b : Bool) → (a || b) ≡ false → (a ≡ false) × (b ≡ false)
  either a b h = ground arith

  insert_sorted-any : (i : ℤ) (is : List ℤ) → any q (insert_sorted i is) ≡ (q i || any q is)
  unfolding insert_sorted
  insert_sorted-any i [] = refl
  insert_sorted-any i (j ∷ js) = ground (arith, insert_sorted-any i js)

  sort-any : (is : List ℤ) → any q (sort is) ≡ any q is
  unfolding sort
  sort-any [] = refl
  sort-any (i ∷ is) = insert_sorted-any i (sort is) ∙ ap (λ b. q i || b) (sort-any is)

  unique_after-any :
      (is : List ℤ) (last : ℤ) → any q is ≡ false → any q (unique_after last is) ≡ false
  unfolding unique_after
  unique_after-any [] last h = refl
  unique_after-any (i ∷ is) last h = elim (Bool-cases (eq_ℤ last i)) [
    | inl e ↦ rw e (unique_after-any is last (either (q i) (any q is) h).1)
    | inr e ↦
        rw (e, (either (q i) (any q is) h).0) (unique_after-any is i (either (q i) (any q is) h).1)
  ]

  unique-any : (is : List ℤ) → any q is ≡ false → any q (unique is) ≡ false
  unfolding unique
  unique-any [] h = refl
  unique-any (i ∷ is) h =
      rw (either (q i) (any q is) h).0 (unique_after-any is i (either (q i) (any q is) h).1)

  pub sorted_unique-any :
      (ids : List ℤ) → any q ids ≡ false → any q (sorted_unique_int64s ids) ≡ false
  unfolding sorted_unique_int64s
  sorted_unique-any ids h = unique-any (sort ids) (sort-any ids ∙ h)
