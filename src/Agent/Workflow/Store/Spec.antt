-- ===== src/Agent/Workflow/Store/Spec.antt =====
-- What a call may do to the record of its key: the contract of `WorkflowStore`, without the checks
-- and without the map. `Change k v token t o p` relates the content of the key before and after, for a
-- call that expects the version `v` and shows the token `token`, if any, and reads the clock as `t`:
-- first for what has expired, then for what it writes.
use ding_ding_schedule.Prelude.{ℕ, ◌≡◌, ◌≢◌, ◌≤◌, true, String, Option, none, some, ◌⊎◌}
use ding_ding_schedule.Agent.Workflow.Contract.{Time}
use ding_ding_schedule.Agent.Workflow.Errors.{ok}
use ding_ding_schedule.Agent.Workflow.Execution.{
  ReservedExecution, ExecutionResult, Execution, result_recorded,
}
use ding_ding_schedule.Agent.Workflow.Codec.{
  PersistedReservedExecution, canonical_reserved_execution,
}
use ding_ding_schedule.Agent.Workflow.Store.{
  WorkflowKey, VersionedWorkflow, Readings, next_version, set_workflow_snapshot_version,
}
use ding_ding_schedule.Agent.Workflow.Store.Operations.{executing_now, is_recorded, status_after}

-- The snapshot carries the key and the version of its record.
pub record Fits (k : WorkflowKey) (r : VersionedWorkflow) : Type 0 where
  pub tenant : r.snapshot.tenant_id ≡ k.tenant_id
  pub conversation : r.snapshot.conversation_id ≡ k.conversation_id
  pub actor : r.snapshot.actor_user_id ≡ k.actor_user_id
  pub version : r.snapshot.version ≡ r.version

-- No execution is held, and the workflow has a time that was up at `now`.
abbrev pub Lapsed : Time → VersionedWorkflow → Type 0
Lapsed now r = (r.execution ≡ none) × (r.snapshot.expires_at ≢ 0) × (r.snapshot.expires_at ≤ now)

module _ (json_length : PersistedReservedExecution → ℕ) where
  abbrev pub IsCanonical : ReservedExecution → Type 0
  IsCanonical n =
      (given : ReservedExecution) × (canonical_reserved_execution json_length given ≡ ok n)

  -- what a workflow may hold when it is written as a whole
  abbrev pub Starts : Option Execution → Type 0
  Starts e = (e ≡ none) ⊎ ((n : ReservedExecution) × IsCanonical n × (e ≡ some (executing_now n)))

  pub data Change (k : WorkflowKey) (v : Option ℕ) (token : Option String) (t : Readings)
      (o p : Option VersionedWorkflow) : Type 0 where
    kept : p ≡ o → Change k v token t o p
    lapsed :
        (r : VersionedWorkflow) → o ≡ some r → Lapsed t.first r → p ≡ none → Change k v token t o p
    inserted :
        (r : VersionedWorkflow)
        → (o ≡ none) ⊎ ((old : VersionedWorkflow) × (o ≡ some old) × Lapsed t.first old)
        → v ≡ none
        → r.version ≡ 1
        → Starts r.execution
        → Fits k r
        → p ≡ some r
        → Change k v token t o p
    replaced :
        (old r : VersionedWorkflow)
        → o ≡ some old
        → v ≡ some old.version
        → old.execution ≡ none
        → r.version ≡ next_version old.version
        → Starts r.execution
        → Fits k r
        → p ≡ some r
        → Change k v token t o p
    deleted :
        (old : VersionedWorkflow)
        → o ≡ some old
        → v ≡ some old.version
        → old.execution ≡ none
        → p ≡ none
        → Change k v token t o p
    recorded :
        (old : VersionedWorkflow) (e : Execution) (result : ExecutionResult)
        → o ≡ some old
        → v ≡ some old.version
        → token ≡ some e.reservation.execution_token
        → old.execution ≡ some e
        → result.business_key ≡ e.reservation.business_key
        → p
          ≡ some (record {
            snapshot = set_workflow_snapshot_version old.snapshot (next_version old.version);
            version = next_version old.version;
            execution = some (record {
              status = result_recorded;
              reservation = e.reservation;
              result = some result;
            });
          })
        → Change k v token t o p
    finalized :
        (old r : VersionedWorkflow) (e : Execution)
        → o ≡ some old
        → v ≡ some old.version
        → token ≡ some e.reservation.execution_token
        → old.execution ≡ some e
        → is_recorded e.status e.result ≡ true
        → r.version ≡ next_version old.version
        → r.execution ≡ none
        → Fits k r
        → p ≡ some r
        → Change k v token t o p
    released :
        (old : VersionedWorkflow) (e : Execution)
        → o ≡ some old
        → v ≡ some old.version
        → token ≡ some e.reservation.execution_token
        → old.execution ≡ some e
        → is_recorded e.status e.result ≡ true
        → p ≡ none
        → Change k v token t o p
    taken_over :
        (old : VersionedWorkflow) (e : Execution) (n : ReservedExecution)
        → o ≡ some old
        → v ≡ some old.version
        → token ≡ some e.reservation.execution_token
        → old.execution ≡ some e
        → e.reservation.lease_expires_at ≤ t.second
        → IsCanonical n
        → n.operation ≡ e.reservation.operation
        → n.business_key ≡ e.reservation.business_key
        → n.execution_token ≢ e.reservation.execution_token
        → p
          ≡ some (record {
            snapshot = set_workflow_snapshot_version old.snapshot (next_version old.version);
            version = next_version old.version;
            execution =
                some
                  (record { status = status_after e.result; reservation = n; result = e.result });
          })
        → Change k v token t o p
