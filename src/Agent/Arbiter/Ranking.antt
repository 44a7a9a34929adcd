-- ===== src/Agent/Arbiter/Ranking.antt =====
-- The candidate that wins among those of a kind.
use ding_ding_schedule.Prelude.{
  ◌≤◌, ◌<◌, ◌≡◌, refl, sym, ap, ◌∙◌, Bool, true, false, ◌&&◌, ◌⊎◌, inl, inr, Option, none, some,
  List, [], ◌∷◌, All, arith, Bool-cases, eq_of_some, subst,
}
use mathlib.Core.List.{Memᴰ}
use ding_ding_schedule.Agent.Arbiter.{
  OperationCandidate, operation_candidate_rank, better, best_from, best_candidate,
}

-- `c` is worth no more than `b`: a lower rank, or the same rank and no more confidence.
abbrev pub NotBetter : OperationCandidate → OperationCandidate → Type 0
NotBetter c b =
    (operation_candidate_rank c < operation_candidate_rank b)
    ⊎ ((operation_candidate_rank c ≡ operation_candidate_rank b) × (c.confidence ≤ b.confidence))

not_better : (c b : OperationCandidate) → better c (some b) ≡ false → NotBetter c b
not_better c b h = ground arith

beaten : (c b : OperationCandidate) → better c (some b) ≡ true → NotBetter b c
beaten c b h = ground arith

NotBetter-refl : (c : OperationCandidate) → NotBetter c c
NotBetter-refl c = inr (refl, omega arith)

NotBetter-trans : (a b c : OperationCandidate) → NotBetter a b → NotBetter b c → NotBetter a c
NotBetter-trans a b c (inl h) (inl k) = inl (omega arith)
NotBetter-trans a b c (inl h) (inr (k, l)) = inl (omega arith)
NotBetter-trans a b c (inr (h, l)) (inl k) = inl (omega arith)
NotBetter-trans a b c (inr (h, l)) (inr (k, m)) = inr (h ∙ k, omega arith)

module _ (p : OperationCandidate → Bool) where
  -- every candidate of the kind is worth no more than `b`
  abbrev pub Beats : List OperationCandidate → OperationCandidate → Type 0
  Beats cs b = All (λ c. p c ≡ true → NotBetter c b) cs

  abbrev pub Best : List OperationCandidate → OperationCandidate → Type 0
  Best cs b = (p b ≡ true) × Memᴰ b cs × Beats cs b

  abbrev pub NoneOf : List OperationCandidate → Type 0
  NoneOf cs = All (λ c. p c ≡ false) cs

  abbrev Survives :
      List OperationCandidate → Option OperationCandidate → OperationCandidate → Type 0
  Survives cs best b =
      ((best ≡ some b) ⊎ ((p b ≡ true) × Memᴰ b cs))
      × Beats cs b
      × ((a : OperationCandidate) → best ≡ some a → NotBetter a b)

  both : (s t : Bool) → (s && t) ≡ true → (s ≡ true) × (t ≡ true)
  both s t h = ground arith

  won :
      (c : OperationCandidate) (cs : List OperationCandidate) (best : Option OperationCandidate)
      (b : OperationCandidate)
      → (p c && better c best) ≡ true
      → Survives cs (some c) b
      → Survives (c ∷ cs) best b
  won c cs best b e (from, beats, over) = (
    inr (elim from [
      | inl same ↦ (
        ap p (sym (eq_of_some same)) ∙ (both (p c) (better c best) e).0,
        Memᴰ.head (sym (eq_of_some same)),
      )
      | inr (yes_p, m) ↦ (yes_p, Memᴰ.tail m)
    ]),
    ((λ _. over c refl), beats),
    λ a at.
        NotBetter-trans a c b
          (beaten c a (ap (better c) (sym at) ∙ (both (p c) (better c best) e).1)) (over c refl),
  )

  lost :
      (c : OperationCandidate) (cs : List OperationCandidate) (best : Option OperationCandidate)
      (b : OperationCandidate)
      → (p c && better c best) ≡ false
      → Survives cs best b
      → Survives (c ∷ cs) best b
  lost c cs none b e (from, beats, over) = (
    elim from [ inl same ↦ inl same | inr (yes_p, m) ↦ inr (yes_p, Memᴰ.tail m) ],
    ((λ h. cc (rw h at e)), beats),
    over,
  )
  lost c cs (some a) b e (from, beats, over) = (
    elim from [ inl same ↦ inl same | inr (yes_p, m) ↦ inr (yes_p, Memᴰ.tail m) ],
    ((λ h. NotBetter-trans c a b (not_better c a (rw h at e)) (over a refl)), beats),
    over,
  )

  best_from-Survives :
      (cs : List OperationCandidate) (best : Option OperationCandidate) {b : OperationCandidate}
      → best_from p cs best ≡ some b
      → Survives cs best b
  unfolding best_from
  best_from-Survives [] best {b} h =
      (inl h, tt, λ a at. subst (NotBetter a) (eq_of_some (sym at ∙ h)) (NotBetter-refl a))
  best_from-Survives (c ∷ cs) best {b} h = elim (Bool-cases (p c && better c best)) [
    | inl e ↦ won c cs best b e (best_from-Survives cs (some c) (rw e at h))
    | inr e ↦ lost c cs best b e (best_from-Survives cs best (rw e at h))
  ]

  -- What is found is a candidate of the kind, and none of the kind is worth more.
  pub best_candidate-Best :
      (cs : List OperationCandidate) {b : OperationCandidate}
      → best_candidate p cs ≡ some b
      → Best cs b
  unfolding best_candidate
  best_candidate-Best cs h =
      let (from, beats, _) = best_from-Survives cs none h in
      elim from [ inl impossible ↦ cc impossible | inr (yes_p, m) ↦ (yes_p, m, beats) ]

  never_lost :
      (cs : List OperationCandidate) (c : OperationCandidate) → best_from p cs (some c) ≡ none → ⊥
  unfolding best_from
  never_lost [] c h = cc
  never_lost (d ∷ cs) c h = elim (Bool-cases (p d && better d (some c))) [
    | inl e ↦ never_lost cs d (rw e at h)
    | inr e ↦ never_lost cs c (rw e at h)
  ]

  pub best_candidate-NoneOf :
      (cs : List OperationCandidate) → best_candidate p cs ≡ none → NoneOf cs
  unfolding best_candidate best_from
  best_candidate-NoneOf [] h = tt
  best_candidate-NoneOf (c ∷ cs) h = elim (Bool-cases (p c)) [
    | inl e ↦ absurd (never_lost cs c (rw e at h))
    | inr e ↦ (e, best_candidate-NoneOf cs (rw e at h))
  ]
