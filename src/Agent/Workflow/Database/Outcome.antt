-- ===== src/Agent/Workflow/Database/Outcome.antt =====
-- Every call of the repository either fails and leaves the table as it is, or does at its key what its
-- statement says and nothing elsewhere.
use ding_ding_schedule.Prelude.{
  Bool, true, false, not, ◌&&◌, ◌||◌, ◌≡◌, refl, sym, subst, ap, inl, inr, ◌⊎◌, Option, none, some,
  ◌∷◌, any, arith, Bool-cases,
}
use ding_ding_schedule.Agent.Workflow.Database.{
  Database, AgentWorkflowKey, AgentWorkflow, Error, Environment, RepositoryError, conflict,
  database_failure, key_from_workflow,
}
use ding_ding_schedule.Agent.Workflow.Database.Table.{
  Table, same_key, at_key, replace_if, update_where, delete_where, create_row, inserted, bump,
  out_of_range, prepare_new_workflow, apply_reservation_to_workflow, snapshot_updates,
  add_reservation_updates, begin_execution, result_updates, clear_execution_updates, final_updates,
  deferral_updates,
}
use ding_ding_schedule.Agent.Workflow.Database.Operations.{
  first_row, checked, idle_at, executing_at, recorded_at, expired_at, running_at,
}
use ding_ding_schedule.Agent.Workflow.Database.Calls.{
  Request, creates, swaps, deletes, creates_reserved, reserves, records, finalizes, releases,
  takes_over, defers, key_of, Call, Statement, inserts, updates, removes, statement, execute, step,
  serve_lem,
}
use ding_ding_schedule.Agent.Workflow.Database.Unique.{
  IsCollation, Unique, Located, count-Located, first_row-none, same_key_refl, same_key_sym,
  same_key_trans,
}
use ding_ding_schedule.Agent.Workflow.Database.Effects.{
  KeepsKey, replace_if-none, keep_if-none, first_row-replace_if, first_row-replace_if-other,
  in_range, first_row-same_key, first_row-keep_if, first_row-keep_if-other, Unique-replace_if,
  Unique-keep_if,
}

-- A statement that works on one key.
unfoldable pub Legal : Database → AgentWorkflowKey → Statement → Type 0
Legal db k (inserts w) = key_from_workflow w ≡ k
Legal db k (updates condition changes) =
    ((w : AgentWorkflow) → condition w ≡ true → at_key db k w ≡ true) × KeepsKey changes
Legal db k (removes condition) = (w : AgentWorkflow) → condition w ≡ true → at_key db k w ≡ true

module _ (db : Database) where
  abbrev pub found : AgentWorkflowKey → Table → Option AgentWorkflow
  found k t = first_row (at_key db k) t

  -- What a statement that succeeds does at its key.
  unfoldable pub Succeeded :
      Environment
      → AgentWorkflowKey
      → Statement
      → Option AgentWorkflow
      → Option AgentWorkflow
      → Type 0
  Succeeded env k (inserts w) before after = (before ≡ none) × (after ≡ some (inserted db env w))
  Succeeded env k (updates condition changes) before after =
      (old : AgentWorkflow) × (before ≡ some old)
      × (condition old ≡ true)
      × (out_of_range old ≡ false)
      × (after ≡ some (bump env (changes old)))
  Succeeded env k (removes condition) before after =
      (old : AgentWorkflow) × (before ≡ some old) × (condition old ≡ true) × (after ≡ none)

  pub record Done (env : Environment) (k : AgentWorkflowKey) (s : Statement) (t u : Table)
      : Type 0 where
    pub at_own_key : Succeeded env k s (found k t) (found k u)
    pub elsewhere : (j : AgentWorkflowKey) → same_key db k j ≡ false → found j u ≡ found j t
    pub unique : Unique db u

  -- The two ways in which a call ends.
  abbrev pub Outcome : Environment → AgentWorkflowKey → Statement → Table → Table × Error → Type 0
  Outcome env k s t r =
      ((e : RepositoryError) × (r.1 ≡ some e) × (r.0 ≡ t)) ⊎ ((r.1 ≡ none) × Done env k s t r.0)

  pub statement-Legal : (q : Request) → Legal db (key_of q) (statement db q)
  unfolding Legal idle_at executing_at recorded_at expired_at running_at prepare_new_workflow
      apply_reservation_to_workflow snapshot_updates add_reservation_updates begin_execution
      result_updates clear_execution_updates final_updates deferral_updates
  statement-Legal (creates w) = refl
  statement-Legal (swaps k v next) = (λ w h. ground (arith), λ w. refl)
  statement-Legal (deletes k v) = λ w h. ground (arith)
  statement-Legal (creates_reserved w r) = refl
  statement-Legal (reserves k v next r) = (λ w h. ground (arith), λ w. refl)
  statement-Legal (records k v token result) = (λ w h. ground (arith), λ w. refl)
  statement-Legal (finalizes k v token next) = (λ w h. ground (arith), λ w. refl)
  statement-Legal (releases k v token) = λ w h. ground (arith)
  statement-Legal (takes_over k v token before next) = (λ w h. ground (arith), λ w. refl)
  statement-Legal (defers k v token at) = (λ w h. ground (arith), λ w. refl)

  module _ (lawful : IsCollation db) where
    -- what a condition on one key admits is off every other key
    off_key :
        (j k : AgentWorkflowKey) (w : AgentWorkflow)
        → same_key db k j ≡ false
        → at_key db k w ≡ true
        → at_key db j w ≡ false
    off_key j k w differ at =
        let w_to_j = same_key_sym db lawful j (key_from_workflow w) in
        let through = same_key_trans db lawful k (key_from_workflow w) j at in ground (arith)

    insert-Done :
        (env : Environment) (k : AgentWorkflowKey) (w : AgentWorkflow) (t : Table)
        → key_from_workflow w ≡ k
        → any (at_key db (key_from_workflow w)) t ≡ false
        → Unique db t
        → Done env k (inserts w) t (inserted db env w ∷ t)
    unfolding Succeeded Unique
    insert-Done env k w t own free u =
        let at = same_key_refl db lawful k in
        record {
          at_own_key = (
            first_row-none db lawful k t (subst (λ j. any (at_key db j) t ≡ false) own free),
            rw own ground (arith),
          );
          elsewhere = λ j differ. rw own ground (arith, off_key j k (inserted db env w) differ);
          unique = (free, u);
        }

    done :
        (env : Environment) (k : AgentWorkflowKey) (s : Statement) (t u : Table) (r : Table × Error)
        → r ≡ (u, none)
        → Done env k s t u
        → Outcome env k s t r
    done env k s t u r e d = subst (Outcome env k s t) (sym e) (inr (refl, d))

    insert-Outcome :
        (env : Environment) (k : AgentWorkflowKey) (w : AgentWorkflow) (t : Table)
        → key_from_workflow w ≡ k
        → Unique db t
        → Outcome env k (inserts w) t (create_row db env w t)
    unfolding create_row
    insert-Outcome env k w t own u = elim (Bool-cases env.fails) [
      | inl fails ↦ inl (database_failure, ground (arith), ground (arith))
      | inr runs ↦ elim (Bool-cases (any (at_key db (key_from_workflow w)) t)) [
        | inl taken ↦ inl (conflict, ground (arith), ground (arith))
        | inr free ↦ done env k (inserts w) t _ _ ground (arith) (insert-Done env k w t own free u)
      ]
    ]

    update-Done :
        (env : Environment) (k : AgentWorkflowKey) (p : AgentWorkflow → Bool)
        (f : AgentWorkflow → AgentWorkflow) (t : Table)
        (within : (w : AgentWorkflow) → p w ≡ true → at_key db k w ≡ true)
        → KeepsKey f
        → Unique db t
        → any (λ w. p w && out_of_range w) t ≡ false
        → Located db lawful k p within t
        → Done env k (updates p f) t (replace_if p (λ w. bump env (f w)) t)
    unfolding Succeeded Located
    update-Done env k p f t within keeps u fits (old, at, admitted, one) = record {
      at_own_key = (
        old,
        at,
        admitted,
        in_range db k p t old at fits admitted,
        first_row-replace_if db k p (λ w. bump env (f w)) t old (λ w. keeps w) at admitted,
      );
      elsewhere = λ j differ.
          first_row-replace_if-other db j p (λ w. bump env (f w)) t (λ w. keeps w)
            (λ w h. off_key j k w differ (within w h));
      unique = Unique-replace_if db lawful p (λ w. bump env (f w)) t (λ w. keeps w) u;
    }

    update-Outcome :
        (env : Environment) (k : AgentWorkflowKey) (p : AgentWorkflow → Bool)
        (f : AgentWorkflow → AgentWorkflow) (t : Table)
        → Legal db k (updates p f)
        → Unique db t
        → Outcome env k (updates p f) t (update_where env p f t)
    unfolding Legal Located update_where
    update-Outcome env k p f t (within, keeps) u =
        elim (Bool-cases (env.fails || any (λ w. p w && out_of_range w) t)) [
          | inl fails ↦ inl (database_failure, ground (arith), ground (arith))
          | inr runs ↦ elim (count-Located db lawful k p within t u) [
            | inl nowhere ↦
                let same = replace_if-none p (λ w. bump env (f w)) t nowhere in
                inl (conflict, ground (arith), ground (arith))
            | inr (old, at, admitted, one) ↦
                done env k (updates p f) t _ _ ground (arith)
                  (update-Done env k p f t within keeps u ground (arith) (old, at, admitted, one))
          ]
        ]

    remove-Outcome :
        (env : Environment) (k : AgentWorkflowKey) (p : AgentWorkflow → Bool) (t : Table)
        → Legal db k (removes p)
        → Unique db t
        → Outcome env k (removes p) t (delete_where env p t)
    unfolding Legal Located delete_where Succeeded
    remove-Outcome env k p t within u = elim (Bool-cases env.fails) [
      | inl fails ↦ inl (database_failure, ground (arith), ground (arith))
      | inr runs ↦ elim (count-Located db lawful k p within t u) [
        | inl nowhere ↦
            let same = keep_if-none p t nowhere in inl (conflict, ground (arith), ground (arith))
        | inr (old, at, admitted, one) ↦ done env k (removes p) t _ _ ground (arith) (record {
          at_own_key = (old, at, admitted, first_row-keep_if db lawful k p t old u at admitted);
          elsewhere = λ j differ.
              first_row-keep_if-other db j p t (λ w h. off_key j k w differ (within w h));
          unique = Unique-keep_if db lawful (λ w. not (p w)) t u;
        })
      ]
    ]

    execute-Outcome :
        (env : Environment) (k : AgentWorkflowKey) (s : Statement) (t : Table)
        → Legal db k s
        → Unique db t
        → Outcome env k s t (execute db s env t)
    unfolding execute Legal
    execute-Outcome env k (inserts w) t legal u = insert-Outcome env k w t legal u
    execute-Outcome env k (updates p f) t legal u = update-Outcome env k p f t legal u
    execute-Outcome env k (removes p) t legal u = remove-Outcome env k p t legal u

    checked-Outcome :
        (env : Environment) (k : AgentWorkflowKey) (s : Statement) (t : Table) (e : Error)
        (r : Table × Error)
        → Outcome env k s t r
        → Outcome env k s t (checked t e r)
    checked-Outcome env k s t none r o = o
    checked-Outcome env k s t (some e) r o = inl (e, refl, refl)

    -- In a table where no two rows share a key, a call of any operation either fails, and the table
    -- stays as it is, or its statement succeeds: at the key of the call it inserts where no row was,
    -- or changes or removes the row there, which its condition admits; the first row at any other
    -- key is the one before, and again no two rows share a key.
    pub step-Outcome :
        (c : Call) (t : Table)
        → Unique db t
        → Outcome c.environment (key_of c.request) (statement db c.request) t (step db c t)
    unfolding step
    step-Outcome c t u =
        let (e, same) = serve_lem db c.request c.environment in
        subst (Outcome c.environment (key_of c.request) (statement db c.request) t) (sym (same t)) (
          checked-Outcome c.environment (key_of c.request) (statement db c.request) t e _ (
            execute-Outcome c.environment (key_of c.request) (statement db c.request) t
              (statement-Legal c.request) u))

    -- At any key, a call leaves the row or does what its statement says.
    pub step-at_key :
        (c : Call) (t : Table) (k : AgentWorkflowKey)
        → Unique db t
        → (found k (step db c t).0 ≡ found k t)
          ⊎ Succeeded c.environment
              (key_of c.request)
              (statement db c.request)
              (found k t)
              (found k (step db c t).0)
    step-at_key c t k u = elim (step-Outcome c t u) [
      | inl (e, failed, same) ↦ inl (ap (found k) same)
      | inr (succeeded, done) ↦ elim (Bool-cases (same_key db (key_of c.request) k)) [
        | inl own ↦
            let before = first_row-same_key db lawful k (key_of c.request) t own in
            let after = first_row-same_key db lawful k (key_of c.request) (step db c t).0 own in
            inr (rw before (rw after done.at_own_key))
        | inr other ↦ inl (done.elsewhere k other)
      ]
    ]

    pub success-Done :
        (c : Call) (t : Table)
        → Unique db t
        → (step db c t).1 ≡ none
        → Done c.environment (key_of c.request) (statement db c.request) t (step db c t).0
    success-Done c t u success = elim (step-Outcome c t u) [
      | inl (e, failed, same) ↦ cc
      | inr (succeeded, d) ↦ d
    ]
