-- ===== src/Agent/ExecutionGate/WriteGuard/Order.antt =====
-- internal/agent/execution_gate.go: the idempotency key does not depend on the order of departments.
use mathlib.Core.List.{Permᴰ}
use ding_ding_schedule.Prelude.{
  ◌≡◌, refl, sym, ap, ◌∙◌, Bool, true, false, List, [], ◌∷◌, arith, Bool-cases, inl, inr, if_true,
  if_false, String,
}
use ding_ding_schedule.Prelude.Int.{ℤ, leb_ℤ, eq_of_eq_ℤ}
use ding_ding_schedule.Agent.Protocol.{Value, int64_slice}
use ding_ding_schedule.Agent.Workflow.Codec.Ids.{insert_sorted, sort}
use ding_ding_schedule.Agent.ExecutionGate.WriteGuard.{
  canonical_idempotency_value, join_text, prints,
}

equal_when : (x y : ℤ) → leb_ℤ x y ≡ true → leb_ℤ y x ≡ true → x ≡ y
equal_when x y h k = eq_of_eq_ℤ x y ground arith

between : (x y z : ℤ) → leb_ℤ x y ≡ true → leb_ℤ y z ≡ true → leb_ℤ x z ≡ true
between x y z h k = ground arith

total : (x y : ℤ) → leb_ℤ x y ≡ false → leb_ℤ y x ≡ true
total x y h = ground arith

insert-front :
    (x y : ℤ) (zs : List ℤ)
    → leb_ℤ x y ≡ true
    → insert_sorted y zs ≡ y ∷ zs
    → insert_sorted y (x ∷ zs) ≡ x ∷ y ∷ zs
unfolding insert_sorted
insert-front x y zs h front = elim (Bool-cases (leb_ℤ y x)) [
  | inl e ↦
      if_true _ _ _ e
      ∙ ap (λ n. y ∷ n ∷ zs) (equal_when x y h e)
      ∙ ap (λ n. n ∷ y ∷ zs) (equal_when y x e h)
  | inr e ↦ if_false _ _ _ e ∙ ap (λ l. x ∷ l) front
]

insert_sorted_swap :
    (x y : ℤ) (zs : List ℤ)
    → leb_ℤ x y ≡ true
    → insert_sorted x (insert_sorted y zs) ≡ insert_sorted y (insert_sorted x zs)
unfolding insert_sorted
insert_sorted_swap x y [] h = if_true _ _ _ h ∙ sym (insert-front x y [] h refl)
insert_sorted_swap x y (z ∷ zs) h = elim (Bool-cases (leb_ℤ y z)) [
  | inl y_first ↦
      ap (insert_sorted x) (if_true _ _ _ y_first)
      ∙ if_true _ _ _ h
      ∙ sym (
          ap (insert_sorted y) (if_true _ _ _ (between x y z h y_first))
          ∙ insert-front x y (z ∷ zs) h (if_true _ _ _ y_first))
  | inr z_first ↦ elim (Bool-cases (leb_ℤ x z)) [
    | inl x_first ↦
        ap (insert_sorted x) (if_false _ _ _ z_first)
        ∙ if_true _ _ _ x_first
        ∙ sym (
            ap (insert_sorted y) (if_true _ _ _ x_first)
            ∙ if_false (leb_ℤ y x) _ _ ground arith
            ∙ ap (λ l. x ∷ l) (if_false _ _ _ z_first))
    | inr x_last ↦
        ap (insert_sorted x) (if_false _ _ _ z_first)
        ∙ if_false _ _ _ x_last
        ∙ ap (λ l. z ∷ l) (insert_sorted_swap x y zs h)
        ∙ sym (ap (insert_sorted y) (if_false _ _ _ x_last) ∙ if_false _ _ _ z_first)
  ]
]

insert_sorted_comm :
    (x y : ℤ) (zs : List ℤ)
    → insert_sorted x (insert_sorted y zs) ≡ insert_sorted y (insert_sorted x zs)
insert_sorted_comm x y zs = elim (Bool-cases (leb_ℤ x y)) [
  | inl e ↦ insert_sorted_swap x y zs e
  | inr e ↦ sym (insert_sorted_swap y x zs (total x y e))
]

-- Sorting forgets the order.
pub sort-Permᴰ : {xs ys : List ℤ} → Permᴰ xs ys → sort xs ≡ sort ys
unfolding sort
sort-Permᴰ Permᴰ.nil = refl
sort-Permᴰ (Permᴰ.cons {a} {b} {l₁} {l₂} e p) =
    ap (insert_sorted a) (sort-Permᴰ p) ∙ ap (λ n. insert_sorted n (sort l₂)) e
sort-Permᴰ (Permᴰ.swap {a} {b} {a'} {b'} {l} e f) =
    insert_sorted_comm a b (sort l)
    ∙ ap (λ n. insert_sorted n (insert_sorted a (sort l))) f
    ∙ ap (λ n. insert_sorted a' (insert_sorted n (sort l))) e
sort-Permᴰ (Permᴰ.trans p q) = sort-Permᴰ p ∙ sort-Permᴰ q

-- A list of ids has the same text in the key in whatever order the ids are.
pub ids_in_any_order :
    (digest : String → String) (sprint : Value → String) (valid_date : String → Bool)
    (xs ys : List ℤ)
    → Permᴰ xs ys
    → canonical_idempotency_value digest sprint valid_date (int64_slice xs)
      ≡ canonical_idempotency_value digest sprint valid_date (int64_slice ys)
unfolding canonical_idempotency_value
ids_in_any_order digest sprint valid_date xs ys p =
    ap (λ l. join_text "," (prints digest sprint valid_date l)) (sort-Permᴰ p)
