-- ===== src/Attendance/Membership.antt =====
-- Which ids the lists of a detail hold.
use ding_ding_schedule.Prelude.{
  ℕ, Bool, true, not, ◌&&◌, ◌≡◌, refl, ap, List, [], ◌∷◌, map, suc, length, ◌==◌, any, keep_if,
  arith,
}
use ding_ding_schedule.Attendance.{IdSet, has, filtered}

-- whether a list holds an element with an id
abbrev pub holds {ℓ} : {A : Type ℓ} → (A → ℕ) → List A → ℕ → Bool
holds id_of xs i = any (λ x. id_of x == i) xs

module _ {ℓ} {A : Type ℓ} (id_of : A → ℕ) where
  pub has-map : (xs : List A) (i : ℕ) → has (map id_of xs) i ≡ holds id_of xs i
  has-map [] i = refl
  has-map (x ∷ xs) i = ground (arith, has-map xs i)

  has-same : (set : IdSet) (i j : ℕ) → i ≡ j → has set i ≡ has set j
  has-same set i j e = ap (has set) e

  pub holds-keep_if :
      (set : IdSet) (xs : List A) (i : ℕ)
      → holds id_of (keep_if (λ x. not (has set (id_of x))) xs) i
        ≡ (holds id_of xs i && not (has set i))
  holds-keep_if set [] i = refl
  holds-keep_if set (x ∷ xs) i = ground (arith, holds-keep_if set xs i, has-same set (id_of x) i)

  pub holds-filtered :
      (xs : List A) (set : IdSet) (i : ℕ)
      → holds id_of (filtered id_of xs set) i ≡ (holds id_of xs i && not (has set i))
  holds-filtered xs [] i = ground arith
  holds-filtered xs (j ∷ set) i = holds-keep_if (j ∷ set) xs i

  -- A loop that keeps by a test keeps only what there was.
  pub holds-keep_if-within :
      (p : A → Bool) (xs : List A) (i : ℕ)
      → holds id_of (keep_if p xs) i ≡ true
      → holds id_of xs i ≡ true
  holds-keep_if-within p [] i h = cc
  holds-keep_if-within p (x ∷ xs) i h = ground (arith, holds-keep_if-within p xs i)

  pub holds-map {κ} :
      {B : Type κ} (of_b : B → ℕ) (f : A → B)
      → ((x : A) → of_b (f x) ≡ id_of x)
      → (xs : List A) (i : ℕ) → holds of_b (map f xs) i ≡ holds id_of xs i
  holds-map of_b f same [] i = refl
  holds-map of_b f same (x ∷ xs) i = ground (arith, holds-map of_b f same xs i, same x)

  pub length-map-kept {κ} : {B : Type κ} (f : A → B) (xs : List A) → length (map f xs) ≡ length xs
  length-map-kept f [] = refl
  length-map-kept f (x ∷ xs) = ap (λ n. suc n) (length-map-kept f xs)
