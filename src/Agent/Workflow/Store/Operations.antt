-- ===== src/Agent/Workflow/Store/Operations.antt =====
-- internal/agent/workflow_store.go: the ten operations of the in-memory workflow store.
-- What an operation would store is a result of its own (`swapped`, `taken_over`, …); `commit` and
-- `erase` put it into the map, as the code does at its end. The reason of a deletion is not read.
use ding_ding_schedule.Prelude.{
  ℕ, Bool, true, false, not, ◌&&◌, String, Option, none, some, trim_space, str_eq, ltb,
}
use ding_ding_schedule.Agent.Workflow.Contract.{WorkflowSnapshot}
use ding_ding_schedule.Agent.Workflow.Errors.{
  Result, ok, err, ◌>>=◌, ◌>>◌, guard, context_done, conflict, in_progress, business_key_mismatch,
  takeover_identity_changed, takeover_token_reused,
}
use ding_ding_schedule.Agent.Workflow.Execution.{
  ExecutionStatus, executing, result_recorded, ReservedExecution, ExecutionResult, Execution,
  validate_execution_result,
}
use ding_ding_schedule.Agent.Workflow.Codec.{
  PersistedReservedExecution, canonical_reserved_execution,
}
use ding_ding_schedule.Agent.Workflow.Store.{
  WorkflowKey, VersionedWorkflow, Store, Readings, Context, is_live, write, validate_workflow_key,
  unreserved, active_record, purge, record_for_versioned_mutation, record_for_execution_mutation,
  next_version, set_workflow_snapshot_version, prepare_snapshot, map_option,
  clone_versioned_workflow, require,
}

abbrev pub entry : Context → WorkflowKey → Result (Unit {0})
entry ctx k = guard (is_live ctx) context_done >> validate_workflow_key k

-- the checks before the lock is taken; an error there leaves the store as it is
abbrev pub checked {ℓ} :
    {A : Type ℓ} {B : Type 0} → Store → Result A → (A → Store × Result B) → Store × Result B
checked s (ok a) f = f a
checked s (err e) f = (s, err e)

unfoldable pub commit :
    Store → WorkflowKey → Result VersionedWorkflow → Store × Result VersionedWorkflow
unfolding write
commit s k (ok r) = (write s k (some r), ok (clone_versioned_workflow r))
commit s k (err e) = (s, err e)

unfoldable pub erase : Store → WorkflowKey → Result (Unit {0}) → Store × Result (Unit {0})
unfolding write
erase s k (ok _) = (write s k none, ok tt)
erase s k (err e) = (s, err e)

unfoldable pub load :
    Context → WorkflowKey → Readings → Store → Store × Result (Option VersionedWorkflow)
load ctx k t s =
    checked s (entry ctx k)
      λ _. (purge s k t.first, ok (map_option clone_versioned_workflow (active_record s k t.first)))

abbrev pub fresh : WorkflowKey → WorkflowSnapshot → Option Execution → Readings → VersionedWorkflow
fresh k w e t = record {
  snapshot = prepare_snapshot k w 1 none t.second;
  version = 1;
  execution = e;
}

abbrev pub if_absent : Option VersionedWorkflow → VersionedWorkflow → Result VersionedWorkflow
if_absent none r = ok r
if_absent (some old) r = err conflict

unfoldable pub create :
    Context
    → WorkflowKey
    → Option WorkflowSnapshot
    → Readings
    → Store
    → Store × Result VersionedWorkflow
create ctx k next t s =
    checked s (entry ctx k >> require next)
      λ w. commit (purge s k t.first) k (if_absent (active_record s k t.first) (fresh k w none t))

unfoldable pub swapped :
    Store
    → WorkflowKey
    → ℕ
    → WorkflowSnapshot
    → Option Execution
    → Readings
    → Result VersionedWorkflow
swapped s k v w reserved t = do
  r ← record_for_versioned_mutation s k v t.first
  guard (unreserved r.execution) in_progress
  ok (record {
    snapshot = prepare_snapshot k w (next_version r.version) (some r.snapshot) t.second;
    version = next_version r.version;
    execution = reserved;
  })

unfoldable pub compare_and_swap :
    Context
    → WorkflowKey
    → ℕ
    → Option WorkflowSnapshot
    → Readings
    → Store
    → Store × Result VersionedWorkflow
unfolding swapped
compare_and_swap ctx k v next t s =
    checked s (entry ctx k >> require next)
      λ w. commit (purge s k t.first) k (swapped s k v w none t)

unfoldable pub deletable : Store → WorkflowKey → ℕ → Readings → Result (Unit {0})
deletable s k v t = do
  r ← record_for_versioned_mutation s k v t.first
  guard (unreserved r.execution) in_progress

unfoldable pub delete_if_version :
    Context → WorkflowKey → ℕ → Readings → Store → Store × Result (Unit {0})
unfolding deletable
delete_if_version ctx k v t s =
    checked s (entry ctx k) λ _. erase (purge s k t.first) k (deletable s k v t)

abbrev pub executing_now : ReservedExecution → Execution
executing_now r = record { status = executing; reservation = r; result = none }

unfoldable pub recorded :
    Store → WorkflowKey → ℕ → String → ExecutionResult → Readings → Result VersionedWorkflow
recorded s k v token result t = do
  (r, e) ← record_for_execution_mutation s k v token t.first
  guard (str_eq e.reservation.business_key (trim_space result.business_key)) business_key_mismatch
  ok (record {
    snapshot = set_workflow_snapshot_version r.snapshot (next_version r.version);
    version = next_version r.version;
    execution = some (record e {
      status = result_recorded;
      result = some (record result { business_key = trim_space result.business_key });
    });
  })

unfoldable pub record_execution_result :
    Context
    → WorkflowKey
    → ℕ
    → String
    → ExecutionResult
    → Readings
    → Store
    → Store × Result VersionedWorkflow
unfolding recorded
record_execution_result ctx k v token result t s =
    checked s (entry ctx k >> validate_execution_result result)
      λ _. commit (purge s k t.first) k (recorded s k v token result t)

-- `Status == result_recorded && Result != nil`
abbrev pub is_recorded : ExecutionStatus → Option ExecutionResult → Bool
is_recorded result_recorded (some r) = true
is_recorded _ _ = false

unfoldable pub finalized :
    Store → WorkflowKey → ℕ → String → WorkflowSnapshot → Readings → Result VersionedWorkflow
finalized s k v token w t = do
  (r, e) ← record_for_execution_mutation s k v token t.first
  guard (is_recorded e.status e.result) in_progress
  ok (record {
    snapshot = prepare_snapshot k w (next_version r.version) (some r.snapshot) t.second;
    version = next_version r.version;
    execution = none;
  })

unfoldable pub finalize_execution :
    Context
    → WorkflowKey
    → ℕ
    → String
    → Option WorkflowSnapshot
    → Readings
    → Store
    → Store × Result VersionedWorkflow
unfolding finalized
finalize_execution ctx k v token next t s =
    checked s (entry ctx k >> require next)
      λ w. commit (purge s k t.first) k (finalized s k v token w t)

unfoldable pub reserved_deletable : Store → WorkflowKey → ℕ → String → Readings → Result (Unit {0})
reserved_deletable s k v token t = do
  (r, e) ← record_for_execution_mutation s k v token t.first
  guard (is_recorded e.status e.result) in_progress

unfoldable pub delete_reserved_execution :
    Context → WorkflowKey → ℕ → String → Readings → Store → Store × Result (Unit {0})
unfolding reserved_deletable
delete_reserved_execution ctx k v token t s =
    checked s (entry ctx k) λ _. erase (purge s k t.first) k (reserved_deletable s k v token t)

abbrev pub status_after : Option ExecutionResult → ExecutionStatus
status_after none = executing
status_after (some r) = result_recorded

unfoldable pub taken_over :
    Store → WorkflowKey → ℕ → String → ReservedExecution → Readings → Result VersionedWorkflow
taken_over s k v token next t = do
  (r, e) ← record_for_execution_mutation s k v token t.first
  guard (not (ltb t.second e.reservation.lease_expires_at)) in_progress
  guard
      (str_eq e.reservation.operation next.operation
        && str_eq e.reservation.business_key next.business_key)
      takeover_identity_changed
  ok (record {
    snapshot = set_workflow_snapshot_version r.snapshot (next_version r.version);
    version = next_version r.version;
    execution =
        some (record { status = status_after e.result; reservation = next; result = e.result });
  })

module _ (json_length : PersistedReservedExecution → ℕ) where
  abbrev pub canonical : ReservedExecution → Result ReservedExecution
  canonical = canonical_reserved_execution json_length

  unfoldable pub create_reserved_execution :
      Context
      → WorkflowKey
      → Option WorkflowSnapshot
      → ReservedExecution
      → Readings
      → Store
      → Store × Result VersionedWorkflow
  create_reserved_execution ctx k next reservation t s =
      checked s (entry ctx k >> require next) λ w. checked s (canonical reservation) λ normalized.
        commit (purge s k t.first) k
          (if_absent (active_record s k t.first) (fresh k w (some (executing_now normalized)) t))

  unfoldable pub reserve_execution :
      Context
      → WorkflowKey
      → ℕ
      → Option WorkflowSnapshot
      → ReservedExecution
      → Readings
      → Store
      → Store × Result VersionedWorkflow
  unfolding swapped
  reserve_execution ctx k v next reservation t s = checked s (entry ctx k >> require next) λ w.
      checked s (canonical reservation) λ normalized.
        commit (purge s k t.first) k (swapped s k v w (some (executing_now normalized)) t)

  unfoldable pub takeover_expired_execution :
      Context
      → WorkflowKey
      → ℕ
      → String
      → ReservedExecution
      → Readings
      → Store
      → Store × Result VersionedWorkflow
  unfolding taken_over
  takeover_expired_execution ctx k v token next t s =
      checked s (entry ctx k >> canonical next) λ normalized.
        checked s
          (guard (not (str_eq (trim_space token) normalized.execution_token)) takeover_token_reused)
          λ _. commit (purge s k t.first) k (taken_over s k v token normalized t)
