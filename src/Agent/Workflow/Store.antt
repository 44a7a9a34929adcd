-- ===== src/Agent/Workflow/Store.antt =====
-- internal/agent/workflow_store.go: the in-memory workflow store.
-- The map of the store is a function; a record that the code changes in place stands in no other
-- place, so the change is a write to the map. Each operation runs under the lock of the store, takes
-- the state before and returns the state after with its result. The clock is read at most twice in
-- an operation: `Readings` are its values there. The operations are in `Operations`.
pub mod Operations
pub mod Inversion
pub mod Trace
pub mod Spec
pub mod Refinement
pub mod Isolation
pub mod Invariant
pub mod Exclusion
pub mod Takeover
mod Examples
use ding_ding_schedule.Prelude.{
  ℕ, ◌+◌, ◌*◌, ◌%◌, ◌^◌, Bool, true, false, not, ◌&&◌, ◌||◌, String, Option, none, some, ◌==◌, ltb,
  if◌then◌else◌, is_empty, trim_space, str_eq,
}
use ding_ding_schedule.Agent.Workflow.Contract.{
  Time, WorkflowSnapshot, workflow_missing_fields, clone_workflow_candidates,
  clone_workflow_snapshot,
}
use ding_ding_schedule.Agent.Workflow.Errors.{
  Result, ok, err, ◌>>=◌, ◌>>◌, guard, key_incomplete, snapshot_required, conflict,
}
use ding_ding_schedule.Agent.Workflow.Execution.{Execution, present, clone_execution}

pub record WorkflowKey : Type 0 where
  pub tenant_id : ℕ
  pub conversation_id : String
  pub actor_user_id : ℕ

pub record VersionedWorkflow : Type 0 where
  pub snapshot : WorkflowSnapshot
  pub version : ℕ
  pub execution : Option Execution

abbrev pub Store : Type 0
Store = WorkflowKey → Option VersionedWorkflow

pub record Readings : Type 0 where
  pub first : Time
  pub second : Time

-- `ctx.Err()`
pub data Context : Type 0 where
  live done : Context

unfoldable pub key_eq : WorkflowKey → WorkflowKey → Bool
key_eq j k =
    j.tenant_id == k.tenant_id
    && str_eq j.conversation_id k.conversation_id
    && j.actor_user_id == k.actor_user_id

-- `s.workflows[key] = record` and `delete(s.workflows, key)`
unfoldable pub write : Store → WorkflowKey → Option VersionedWorkflow → Store
write s k r j = if key_eq k j then r else s j

unfoldable pub new_memory_workflow_store : Store
new_memory_workflow_store k = none

abbrev pub is_live : Context → Bool
is_live live = true
is_live done = false

unfoldable pub validate_workflow_key : WorkflowKey → Result (Unit {0})
validate_workflow_key k =
    guard
      (not (k.tenant_id == 0 || is_empty (trim_space k.conversation_id) || k.actor_user_id == 0))
      key_incomplete

-- `workflowExpired` at a workflow that is not nil
unfoldable pub workflow_expired : WorkflowSnapshot → Time → Bool
workflow_expired w now = if w.expires_at == 0 then false else not (ltb now w.expires_at)

abbrev pub unreserved : Option Execution → Bool
unreserved none = true
unreserved (some e) = false

abbrev pub active : Option VersionedWorkflow → Time → Option VersionedWorkflow
active none now = none
active (some r) now =
    if unreserved r.execution && workflow_expired r.snapshot now then none else some r

-- `activeRecordLocked`: the record, and the store without it if it had expired
unfoldable pub active_record : Store → WorkflowKey → Time → Option VersionedWorkflow
active_record s k now = active (s k) now

unfoldable pub purge : Store → WorkflowKey → Time → Store
unfolding active_record
purge s k now = write s k (active_record s k now)

abbrev pub expect_version : Option VersionedWorkflow → ℕ → Result VersionedWorkflow
expect_version none v = err conflict
expect_version (some r) v = guard (r.version == v) conflict >> ok r

unfoldable pub record_for_versioned_mutation :
    Store → WorkflowKey → ℕ → Time → Result VersionedWorkflow
record_for_versioned_mutation s k v now = expect_version (active_record s k now) v

-- a record that holds an execution, with that execution
abbrev pub Held : Type 0
Held = VersionedWorkflow × Execution

abbrev pub expect_token : VersionedWorkflow → Option Execution → String → Result Held
expect_token r none token = err conflict
expect_token r (some e) token =
    guard (present token && str_eq e.reservation.execution_token (trim_space token)) conflict
    >> ok (r, e)

unfoldable pub record_for_execution_mutation : Store → WorkflowKey → ℕ → String → Time → Result Held
unfolding record_for_versioned_mutation
record_for_execution_mutation s k v token now = do
  r ← record_for_versioned_mutation s k v now
  expect_token r r.execution token

abbrev pub default_workflow_ttl : Time
default_workflow_ttl = 30 * 60 * 1000000000

-- `record.version++` on a uint64
abbrev pub next_version : ℕ → ℕ
next_version v = (v + 1) % 2 ^ 64

abbrev pub created_at : Time → Option WorkflowSnapshot → Time → Time
created_at given none now = if given == 0 then now else given
created_at given (some old) now =
    if given == 0 then (if old.created_at == 0 then now else old.created_at) else given

unfoldable pub sync_workflow_snapshot_fields : WorkflowSnapshot → WorkflowSnapshot
unfolding workflow_missing_fields clone_workflow_candidates
sync_workflow_snapshot_fields w = record w {
  missing_fields = workflow_missing_fields w;
  missing_slots = workflow_missing_fields w;
  candidates = clone_workflow_candidates w.candidates;
}

abbrev pub set_workflow_snapshot_version : WorkflowSnapshot → ℕ → WorkflowSnapshot
set_workflow_snapshot_version w v = record w { version = v }

abbrev pub stamped :
    WorkflowKey → WorkflowSnapshot → ℕ → Option WorkflowSnapshot → Time → WorkflowSnapshot
stamped k w v old now = record w {
  tenant_id = k.tenant_id;
  conversation_id = k.conversation_id;
  actor_user_id = k.actor_user_id;
  created_at = created_at w.created_at old now;
  updated_at = now;
  expires_at = if w.expires_at == 0 then now + default_workflow_ttl else w.expires_at;
  version = v;
}

unfoldable pub prepare_snapshot :
    WorkflowKey → WorkflowSnapshot → ℕ → Option WorkflowSnapshot → Time → WorkflowSnapshot
unfolding sync_workflow_snapshot_fields clone_workflow_snapshot
prepare_snapshot k w v old now =
    sync_workflow_snapshot_fields (stamped k (clone_workflow_snapshot w) v old now)

abbrev pub map_option {ℓ κ} : {A : Type ℓ} {B : Type κ} → (A → B) → Option A → Option B
map_option f none = none
map_option f (some a) = some (f a)

unfoldable pub clone_versioned_workflow : VersionedWorkflow → VersionedWorkflow
unfolding clone_workflow_snapshot clone_execution
clone_versioned_workflow r = record {
  snapshot = clone_workflow_snapshot r.snapshot;
  version = r.version;
  execution = map_option clone_execution r.execution;
}

abbrev pub require : Option WorkflowSnapshot → Result WorkflowSnapshot
require none = err snapshot_required
require (some w) = ok w
