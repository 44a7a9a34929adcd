-- ===== src/Agent/Workflow/Database/Unique.antt =====
-- No two rows of the workflow table have the same key, so a statement finds one row at most.
use ding_ding_schedule.Prelude.{
  Bool, true, false, ◌≡◌, refl, inl, inr, ◌⊎◌, String, none, some, [], ◌∷◌, any, arith, Bool-cases,
}
use ding_ding_schedule.Agent.Workflow.Database.{
  Database, AgentWorkflowKey, AgentWorkflow, key_from_workflow,
}
use ding_ding_schedule.Agent.Workflow.Database.Table.{Table, same_key, at_key, count}
use ding_ding_schedule.Agent.Workflow.Database.Operations.{first_row}

-- What a collation is: it says which texts count as one.
pub record IsCollation (db : Database) : Type 0 where
  pub reflexive : (a : String) → db.same a a ≡ true
  pub symmetric : (a b : String) → db.same a b ≡ true → db.same b a ≡ true
  pub transitive : (a b c : String) → db.same a b ≡ true → db.same b c ≡ true → db.same a c ≡ true

unfoldable pub Unique : Database → Table → Type 0
Unique db [] = Unit
Unique db (w ∷ t) = (any (at_key db (key_from_workflow w)) t ≡ false) × Unique db t

module _ (db : Database) (lawful : IsCollation db) where
  pub same_key_refl : (k : AgentWorkflowKey) → same_key db k k ≡ true
  unfolding same_key
  same_key_refl k = ground (arith, lawful.reflexive k.conversation_id)

  pub same_key_sym : (j k : AgentWorkflowKey) → same_key db j k ≡ true → same_key db k j ≡ true
  unfolding same_key
  same_key_sym j k h = ground (arith, lawful.symmetric j.conversation_id k.conversation_id)

  pub same_key_trans :
      (i j k : AgentWorkflowKey)
      → same_key db i j ≡ true
      → same_key db j k ≡ true
      → same_key db i k ≡ true
  unfolding same_key
  same_key_trans i j k h g =
      ground (arith, lawful.transitive i.conversation_id j.conversation_id k.conversation_id)

  -- A table without rows at a key has none at a key that is the same.
  pub no_other :
      (j k : AgentWorkflowKey) (t : Table)
      → same_key db j k ≡ true
      → any (at_key db j) t ≡ false
      → any (at_key db k) t ≡ false
  no_other j k [] same h = refl
  no_other j k (w ∷ t) same h =
      ground (arith, no_other j k t same, same_key_trans j k (key_from_workflow w) same)

  count_none :
      (k : AgentWorkflowKey) (p : AgentWorkflow → Bool) (t : Table)
      → ((w : AgentWorkflow) → p w ≡ true → at_key db k w ≡ true)
      → any (at_key db k) t ≡ false
      → count p t ≡ 0
  count_none k p [] within h = refl
  count_none k p (w ∷ t) within h = ground (arith, count_none k p t within, within w)

  pub first_row-none :
      (k : AgentWorkflowKey) (t : Table)
      → any (at_key db k) t ≡ false
      → first_row (at_key db k) t ≡ none
  first_row-none k [] h = refl
  first_row-none k (w ∷ t) h = ground (arith, first_row-none k t)

  module _ (k : AgentWorkflowKey) (p : AgentWorkflow → Bool)
      (within : (w : AgentWorkflow) → p w ≡ true → at_key db k w ≡ true) where
    unfoldable pub Located : Table → Type 0
    Located t =
        (old : AgentWorkflow) × (first_row (at_key db k) t ≡ some old)
        × (p old ≡ true)
        × (count p t ≡ 1)

    Located-later :
        (w : AgentWorkflow) (t : Table)
        → at_key db k w ≡ false
        → (count p t ≡ 0) ⊎ Located t
        → (count p (w ∷ t) ≡ 0) ⊎ Located (w ∷ t)
    unfolding Located
    Located-later w t off (inl none_later) = inl ground (arith, within w)
    Located-later w t off (inr (old, found, admitted, one)) =
        inr (old, ground (arith), admitted, ground (arith, within w))

    -- A condition on one key admits no row, or the first at the key and only that.
    pub count-Located : (t : Table) → Unique db t → (count p t ≡ 0) ⊎ Located t
    unfolding Unique Located
    count-Located [] u = inl refl
    count-Located (w ∷ t) u = elim (Bool-cases (at_key db k w)) [
      | inl at ↦
          let later =
            count_none k p t within
              (no_other (key_from_workflow w) k t (same_key_sym k (key_from_workflow w) at) u.0) in
          elim (Bool-cases (p w)) [
            | inl admitted ↦ inr (w, ground (arith), admitted, ground (arith, later))
            | inr passed ↦ inl ground (arith, later)
          ]
      | inr off ↦ Located-later w t off (count-Located t u.1)
    ]
