-- ===== src/Agent/Workflow/Database/Effects.antt =====
-- What a statement on one key does to the rows at that key and at the others.
use ding_ding_schedule.Prelude.{
  Bool, true, false, not, ◌≡◌, refl, ◌∙◌, inl, inr, none, some, [], ◌∷◌, ◌&&◌, any, keep_if, arith,
  Bool-cases, eq_of_some, if◌then◌else◌, subst,
}
use ding_ding_schedule.Agent.Workflow.Database.{
  Database, AgentWorkflowKey, AgentWorkflow, key_from_workflow,
}
use ding_ding_schedule.Agent.Workflow.Database.Table.{
  Table, same_key, at_key, count, replace_if, out_of_range,
}
use ding_ding_schedule.Agent.Workflow.Database.Operations.{first_row}
use ding_ding_schedule.Agent.Workflow.Database.Unique.{
  IsCollation, Unique, same_key_sym, same_key_trans, no_other, first_row-none,
}

if_true {ℓ} :
    {A : Type ℓ} (b : Bool) (x y : A) {z : A} → b ≡ true → (if b then x else y) ≡ z → x ≡ z
if_true true x y e h = h
if_true false x y e h = cc

pub replace_if-none :
    (p : AgentWorkflow → Bool) (f : AgentWorkflow → AgentWorkflow) (t : Table)
    → count p t ≡ 0
    → replace_if p f t ≡ t
replace_if-none p f [] h = refl
replace_if-none p f (w ∷ t) h = ground (arith, replace_if-none p f t)

pub keep_if-none :
    (p : AgentWorkflow → Bool) (t : Table) → count p t ≡ 0 → keep_if (λ w. not (p w)) t ≡ t
keep_if-none p [] h = refl
keep_if-none p (w ∷ t) h = ground (arith, keep_if-none p t)

-- Changes that leave the key of a row as it is.
abbrev pub KeepsKey : (AgentWorkflow → AgentWorkflow) → Type 0
KeepsKey f = (w : AgentWorkflow) → key_from_workflow (f w) ≡ key_from_workflow w

module _ (db : Database) where
  at_key_kept :
      (k : AgentWorkflowKey) (f : AgentWorkflow → AgentWorkflow) (w : AgentWorkflow)
      → KeepsKey f
      → at_key db k (f w) ≡ at_key db k w
  at_key_kept k f w keeps = rw (keeps w) refl

  pub any-replace_if :
      (k : AgentWorkflowKey) (p : AgentWorkflow → Bool) (f : AgentWorkflow → AgentWorkflow)
      (t : Table)
      → KeepsKey f
      → any (at_key db k) (replace_if p f t) ≡ any (at_key db k) t
  any-replace_if k p f [] keeps = refl
  any-replace_if k p f (w ∷ t) keeps =
      ground (arith, any-replace_if k p f t keeps, at_key_kept k f w keeps)

  pub any-keep_if-none :
      (k : AgentWorkflowKey) (p : AgentWorkflow → Bool) (t : Table)
      → any (at_key db k) t ≡ false
      → any (at_key db k) (keep_if p t) ≡ false
  any-keep_if-none k p [] h = refl
  any-keep_if-none k p (w ∷ t) h = ground (arith, any-keep_if-none k p t)

  -- The row at a key that a condition admits is changed in its place.
  pub first_row-replace_if :
      (k : AgentWorkflowKey) (p : AgentWorkflow → Bool) (f : AgentWorkflow → AgentWorkflow)
      (t : Table) (old : AgentWorkflow)
      → KeepsKey f
      → first_row (at_key db k) t ≡ some old
      → p old ≡ true
      → first_row (at_key db k) (replace_if p f t) ≡ some (f old)
  first_row-replace_if k p f [] old keeps found admitted = cc
  first_row-replace_if k p f (w ∷ t) old keeps found admitted =
      ground (arith, first_row-replace_if k p f t old keeps, at_key_kept k f w keeps)

  -- A row of another key stays, when the condition admits none of that key.
  pub first_row-replace_if-other :
      (j : AgentWorkflowKey) (p : AgentWorkflow → Bool) (f : AgentWorkflow → AgentWorkflow)
      (t : Table)
      → KeepsKey f
      → ((w : AgentWorkflow) → p w ≡ true → at_key db j w ≡ false)
      → first_row (at_key db j) (replace_if p f t) ≡ first_row (at_key db j) t
  first_row-replace_if-other j p f [] keeps off = refl
  first_row-replace_if-other j p f (w ∷ t) keeps off =
      ground (arith, first_row-replace_if-other j p f t keeps off, at_key_kept j f w keeps, off w)

  pub first_row-keep_if-other :
      (j : AgentWorkflowKey) (p : AgentWorkflow → Bool) (t : Table)
      → ((w : AgentWorkflow) → p w ≡ true → at_key db j w ≡ false)
      → first_row (at_key db j) (keep_if (λ w. not (p w)) t) ≡ first_row (at_key db j) t
  first_row-keep_if-other j p [] off = refl
  first_row-keep_if-other j p (w ∷ t) off = ground (arith, first_row-keep_if-other j p t off, off w)

  -- A statement that runs admits no row whose version is at its end.
  pub in_range :
      (k : AgentWorkflowKey) (p : AgentWorkflow → Bool) (t : Table) (old : AgentWorkflow)
      → first_row (at_key db k) t ≡ some old
      → any (λ w. p w && out_of_range w) t ≡ false
      → p old ≡ true
      → out_of_range old ≡ false
  in_range k p [] old found fits admitted = cc
  in_range k p (w ∷ t) old found fits admitted = elim (Bool-cases (at_key db k w)) [
    | inl at ↦
        let same =
          eq_of_some (if_true (at_key db k w) (some w) (first_row (at_key db k) t) at found) in
        subst (λ v. out_of_range v ≡ false) same ground (arith)
    | inr off ↦ in_range k p t old ground (arith) ground (arith) admitted
  ]

  -- Keys that are the same find the same row.
  pub first_row-same_key :
      (lawful : IsCollation db) (j k : AgentWorkflowKey) (t : Table)
      → same_key db k j ≡ true
      → first_row (at_key db j) t ≡ first_row (at_key db k) t
  first_row-same_key lawful j k [] same = refl
  first_row-same_key lawful j k (w ∷ t) same =
      let back = same_key_sym db lawful k j same in
      let to = same_key_trans db lawful k j (key_from_workflow w) same in
      let from = same_key_trans db lawful j k (key_from_workflow w) back in
      ground (arith, first_row-same_key lawful j k t same)

  module _ (lawful : IsCollation db) where
    -- The row at a key that a condition admits is gone, and there is no second one.
    pub first_row-keep_if :
        (k : AgentWorkflowKey) (p : AgentWorkflow → Bool) (t : Table) (old : AgentWorkflow)
        → Unique db t
        → first_row (at_key db k) t ≡ some old
        → p old ≡ true
        → first_row (at_key db k) (keep_if (λ w. not (p w)) t) ≡ none
    unfolding Unique
    first_row-keep_if k p [] old u found admitted = cc
    first_row-keep_if k p (w ∷ t) old u found admitted = elim (Bool-cases (at_key db k w)) [
      | inl at ↦
          let gone = first_row-none db lawful k (keep_if (λ w. not (p w)) t) (
            any-keep_if-none k (λ w. not (p w)) t
              (no_other db lawful (key_from_workflow w) k t
                (same_key_sym db lawful k (key_from_workflow w) at) u.0)) in
          ground (arith, gone)
      | inr off ↦ ground (arith, first_row-keep_if k p t old u.1)
    ]

    pub Unique-replace_if :
        (p : AgentWorkflow → Bool) (f : AgentWorkflow → AgentWorkflow) (t : Table)
        → KeepsKey f
        → Unique db t
        → Unique db (replace_if p f t)
    unfolding Unique
    Unique-replace_if p f [] keeps u = tt
    Unique-replace_if p f (w ∷ t) keeps u = elim (Bool-cases (p w)) [
      | inl admitted ↦ rw admitted (
        rw (keeps w) (any-replace_if (key_from_workflow w) p f t keeps ∙ u.0),
        Unique-replace_if p f t keeps u.1,
      )
      | inr passed ↦ rw passed (
        any-replace_if (key_from_workflow w) p f t keeps ∙ u.0,
        Unique-replace_if p f t keeps u.1,
      )
    ]

    pub Unique-keep_if :
        (p : AgentWorkflow → Bool) (t : Table) → Unique db t → Unique db (keep_if p t)
    unfolding Unique
    Unique-keep_if p [] u = tt
    Unique-keep_if p (w ∷ t) u = elim (Bool-cases (p w)) [
      | inl kept ↦ rw kept (any-keep_if-none (key_from_workflow w) p t u.0, Unique-keep_if p t u.1)
      | inr dropped ↦ rw dropped (Unique-keep_if p t u.1)
    ]
