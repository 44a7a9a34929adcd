-- ===== src/Agent/Workflow/Database/Sound.antt =====
-- The columns of a row agree with its execution status after any history of calls.
use ding_ding_schedule.Prelude.{
  ◌^◌, ◌≤◌, ◌<◌, Bool, true, false, not, ◌&&◌, ◌||◌, ◌≡◌, refl, sym, ◌∙◌, subst, inl, inr, Option,
  some, List, [], ◌∷◌, arith, eq_of_some,
}
use ding_ding_schedule.Agent.Workflow.Database.{
  Database, AgentWorkflowKey, AgentWorkflow, Environment, RowStatus, idle, executing,
  result_recorded, recovery_required, is_executing, is_recovery_required, is_idle,
}
use ding_ding_schedule.Agent.Workflow.Database.Table.{
  Table, is_null, idle_execution, inserted, bump, out_of_range, prepare_new_workflow,
  apply_reservation_to_workflow, snapshot_updates, add_reservation_updates, begin_execution,
  result_updates, clear_execution_updates, final_updates, deferral_updates,
}
use ding_ding_schedule.Agent.Workflow.Database.Operations.{
  idle_at, executing_at, recorded_at, expired_at, running_at,
}
use ding_ding_schedule.Agent.Workflow.Database.Calls.{
  Request, creates, swaps, deletes, creates_reserved, reserves, records, finalizes, releases,
  takes_over, defers, key_of, Call, statement, step, run,
}
use ding_ding_schedule.Agent.Workflow.Database.Unique.{IsCollation, Unique}
use ding_ding_schedule.Agent.Workflow.Database.Outcome.{found, Succeeded, step-Outcome, step-at_key}

-- the seven columns of a reservation, and the two of a result
abbrev pub reserved : AgentWorkflow → Bool
reserved w =
    not (is_null w.execution_token)
    && not (is_null w.execution_operation)
    && not (is_null w.business_key)
    && not (is_null w.request_id)
    && not (is_null w.execution_request_schema_version)
    && not (is_null w.execution_request_json)
    && not (is_null w.lease_expires_at)

abbrev pub without_result : AgentWorkflow → Bool
without_result w =
    is_null w.execution_result_schema_version
    && is_null w.execution_result_json
    && is_null w.write_effect

abbrev pub with_result : AgentWorkflow → Bool
with_result w =
    not (is_null w.execution_result_schema_version) && not (is_null w.execution_result_json)

abbrev pub columns_agree : RowStatus → AgentWorkflow → Bool
columns_agree idle w = idle_execution w
columns_agree executing w = reserved w && without_result w
columns_agree result_recorded w = reserved w && with_result w
columns_agree recovery_required w = reserved w && without_result w

pub record Sound (w : AgentWorkflow) : Type 0 where
  pub columns : columns_agree w.execution_status w ≡ true
  pub version_positive : 1 ≤ w.version
  pub version_bounded : w.version < 2 ^ 64

module _ (db : Database) where
  unfoldable pub AllSound : Table → Type 0
  AllSound t = (k : AgentWorkflowKey) (w : AgentWorkflow) → found db k t ≡ some w → Sound w

  columns_bumped :
      (env : Environment) (s : RowStatus) (w : AgentWorkflow)
      → columns_agree s w ≡ true
      → columns_agree s (bump env w) ≡ true
  unfolding idle_execution
  columns_bumped env idle w h = h
  columns_bumped env executing w h = h
  columns_bumped env result_recorded w h = h
  columns_bumped env recovery_required w h = h

  bumped :
      (env : Environment) (w : AgentWorkflow)
      → out_of_range w ≡ false
      → w.version < 2 ^ 64
      → columns_agree w.execution_status w ≡ true
      → Sound (bump env w)
  bumped env w fits bounded agree = record {
    columns = columns_bumped env w.execution_status w agree;
    version_positive = omega arith;
    version_bounded = ground arith;
  }

  -- what the status says of the columns of the row that a condition admits
  held_columns :
      (s : RowStatus) (w : AgentWorkflow)
      → (is_executing s || is_recovery_required s) ≡ true
      → columns_agree s w ≡ true
      → (reserved w && without_result w) ≡ true
  held_columns idle w held agree = cc
  held_columns executing w held agree = agree
  held_columns result_recorded w held agree = cc
  held_columns recovery_required w held agree = agree

  idle_columns :
      (s : RowStatus) (w : AgentWorkflow)
      → is_idle s ≡ true
      → idle_execution w ≡ true
      → columns_agree s w ≡ true
  idle_columns idle w h agree = agree
  idle_columns executing w h agree = cc
  idle_columns result_recorded w h agree = cc
  idle_columns recovery_required w h agree = cc

  settled :
      (env : Environment) (old new w : AgentWorkflow) (after : Option AgentWorkflow)
      → Sound old
      → out_of_range old ≡ false
      → new.version ≡ old.version
      → columns_agree new.execution_status new ≡ true
      → after ≡ some (bump env new)
      → after ≡ some w
      → Sound w
  settled env old new w after sound fits same agree stored h =
      subst Sound (eq_of_some (sym stored ∙ h))
        (bumped env new (rw same fits) (rw same sound.version_bounded) agree)

  created :
      (new w : AgentWorkflow) (after : Option AgentWorkflow)
      → new.version ≡ 1
      → columns_agree new.execution_status new ≡ true
      → after ≡ some new
      → after ≡ some w
      → Sound w
  created new w after one agree stored h =
      subst Sound (eq_of_some (sym stored ∙ h))
        (record { columns = agree; version_positive = omega arith; version_bounded = omega arith })

  -- The row that a successful statement leaves is sound when the one it found was.
  statement-Sound :
      (env : Environment) (q : Request) (before after : Option AgentWorkflow)
      → Succeeded db env (key_of q) (statement db q) before after
      → ((w : AgentWorkflow) → before ≡ some w → Sound w)
      → (w : AgentWorkflow) → after ≡ some w
      → Sound w
  unfolding Succeeded prepare_new_workflow apply_reservation_to_workflow snapshot_updates
      add_reservation_updates begin_execution result_updates clear_execution_updates final_updates
      deferral_updates idle_execution idle_at executing_at recorded_at expired_at running_at
  statement-Sound env (creates new) before after (absent, stored) sound w h =
      created (inserted db env (prepare_new_workflow idle new)) w after refl refl stored h
  statement-Sound env (swaps k v next) before after (old, at, admitted, fits, stored) sound w h =
      settled env old (snapshot_updates db next old) w after (sound old at) fits refl
        (idle_columns old.execution_status (snapshot_updates db next old) ground (arith) ground
          (arith))
        stored h
  statement-Sound env (deletes k v) before after (old, at, admitted, gone) sound w h = cc
  statement-Sound env (creates_reserved new r) before after (absent, stored) sound w h =
      created
        (inserted db env (apply_reservation_to_workflow db r (prepare_new_workflow executing new)))
        w after refl refl stored h
  statement-Sound env (reserves k v next r) before after (old, at, admitted, fits, stored) sound w
        h =
      settled env old
        (begin_execution (add_reservation_updates db r (snapshot_updates db next old))) w after
        (sound old at) fits refl refl stored h
  statement-Sound env (records k v token result) before after (old, at, admitted, fits, stored)
        sound w h =
      let held = held_columns old.execution_status old ground (arith) (sound old at).columns in
      settled env old (result_updates result old) w after (sound old at) fits refl ground (arith)
        stored h
  statement-Sound env (finalizes k v token next) before after (old, at, admitted, fits, stored)
        sound w h =
      settled env old (final_updates db next old) w after (sound old at) fits refl refl stored h
  statement-Sound env (releases k v token) before after (old, at, admitted, gone) sound w h = cc
  statement-Sound env (takes_over k v token t next) before after (old, at, admitted, fits, stored)
        sound w h =
      settled env old (begin_execution (add_reservation_updates db next old)) w after (sound old at)
        fits refl refl stored h
  statement-Sound env (defers k v token t) before after (old, at, admitted, fits, stored) sound w
        h =
      let held = held_columns old.execution_status old ground (arith) (sound old at).columns in
      settled env old (deferral_updates db t old) w after (sound old at) fits refl ground (arith)
        stored h

  module _ (lawful : IsCollation db) where
    step-AllSound : (c : Call) (t : Table) → Unique db t → AllSound t → AllSound (step db c t).0
    unfolding AllSound
    step-AllSound c t u sound k w h = elim (step-at_key db lawful c t k u) [
      | inl same ↦ sound k w (sym same ∙ h)
      | inr succeeded ↦ statement-Sound c.environment c.request _ _ succeeded (sound k) w h
    ]

    step-Unique : (c : Call) (t : Table) → Unique db t → Unique db (step db c t).0
    step-Unique c t u = elim (step-Outcome db lawful c t u) [
      | inl (e, failed, same) ↦ subst (Unique db) (sym same) u
      | inr (succeeded, done) ↦ done.unique
    ]

    run-invariant :
        (cs : List Call) (t : Table)
        → Unique db t
        → AllSound t
        → Unique db (run db cs t) × AllSound (run db cs t)
    unfolding run
    run-invariant [] t u sound = (u, sound)
    run-invariant (c ∷ cs) t u sound =
        run-invariant cs (step db c t).0 (step-Unique c t u) (step-AllSound c t u sound)

    -- After any history of calls on the empty table, no two rows have the same key, and every row
    -- has a version from 1 below 2^64 and columns that agree with its status: all of an execution
    -- are null when it is idle; the reservation is there and the result is null when it executes or
    -- needs recovery; the reservation and the result are there when the result is recorded.
    pub run-Sound :
        (cs : List Call)
        → Unique db (run db cs [])
          × ((k : AgentWorkflowKey) (w : AgentWorkflow)
              → found db k (run db cs []) ≡ some w
              → Sound w)
    unfolding AllSound Unique
    run-Sound cs = run-invariant cs [] tt (λ k w h. cc)
