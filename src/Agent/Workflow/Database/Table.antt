-- ===== src/Agent/Workflow/Database/Table.antt =====
-- internal/repository/agent_workflow_repository.go: the statements on the table of workflows.
-- The table is a list of rows. An UPDATE or a DELETE works on every row that its condition admits;
-- that there is one at most is a theorem (`Unique`), not part of the model.
use ding_ding_schedule.Prelude.{
  ℕ, ◌+◌, ◌^◌, ◌-◌, Bool, true, false, not, ◌&&◌, ◌||◌, String, Option, none, some, List, [], ◌∷◌,
  ◌==◌, if◌then◌else◌, any, keep_if, suc,
}
use ding_ding_schedule.Agent.Workflow.Contract.{Time}
use ding_ding_schedule.Agent.Workflow.Database.{
  Database, AgentWorkflowKey, AgentWorkflow, AgentWorkflowSnapshotUpdate, AgentWorkflowReservation,
  AgentWorkflowExecutionResult, Error, Environment, RowStatus, idle, executing, result_recorded,
  recovery_required, is_idle, conflict, database_failure, key_from_workflow, blank,
}

abbrev pub Table : Type 0
Table = List AgentWorkflow

-- `workflowKeyWhere`, and the unique index on the key
unfoldable pub same_key : Database → AgentWorkflowKey → AgentWorkflowKey → Bool
same_key db j k =
    j.tenant_id == k.tenant_id
    && db.same j.conversation_id k.conversation_id
    && j.actor_user_id == k.actor_user_id

abbrev pub at_key : Database → AgentWorkflowKey → AgentWorkflow → Bool
at_key db k row = same_key db k (key_from_workflow row)

-- `column = ?`, and `column IS NULL`
abbrev pub equals : Database → Option String → String → Bool
equals db none value = false
equals db (some stored) value = db.same stored value

abbrev pub is_null {ℓ} : {A : Type ℓ} → Option A → Bool
is_null none = true
is_null (some a) = false

unfoldable pub idle_execution : AgentWorkflow → Bool
idle_execution w =
    is_idle w.execution_status
    && is_null w.execution_token
    && is_null w.execution_operation
    && is_null w.business_key
    && is_null w.request_id
    && is_null w.execution_request_schema_version
    && is_null w.execution_request_json
    && is_null w.execution_result_schema_version
    && is_null w.execution_result_json
    && is_null w.write_effect
    && is_null w.lease_expires_at

abbrev pub count {ℓ} : {A : Type ℓ} → (A → Bool) → List A → ℕ
count p [] = 0
count p (x ∷ xs) = if p x then suc (count p xs) else count p xs

abbrev pub replace_if {ℓ} : {A : Type ℓ} → (A → Bool) → (A → A) → List A → List A
replace_if p f [] = []
replace_if p f (x ∷ xs) = (if p x then f x else x) ∷ replace_if p f xs

-- `requireOneRow` at the number of rows that the statement has changed
unfoldable pub require_one_row : ℕ → Error
require_one_row affected = if affected == 1 then none else some conflict

-- The column `version` is a BIGINT UNSIGNED: the statement fails where `version + 1` does not fit.
abbrev pub out_of_range : AgentWorkflow → Bool
out_of_range w = w.version == 2 ^ 64 - 1

-- `Where(condition).Updates(changes)`, with the version that each of them increments and the
-- instant that gorm writes
abbrev pub bump : Environment → AgentWorkflow → AgentWorkflow
bump env w = record w { version = w.version + 1; updated_at = env.clock }

unfoldable pub update_where :
    Environment → (AgentWorkflow → Bool) → (AgentWorkflow → AgentWorkflow) → Table → Table × Error
unfolding require_one_row
update_where env condition changes t =
    if env.fails || any (λ w. condition w && out_of_range w) t
    then (t, some database_failure)
    else (replace_if condition (λ w. bump env (changes w)) t, require_one_row (count condition t))

-- `Where(condition).Delete`
unfoldable pub delete_where : Environment → (AgentWorkflow → Bool) → Table → Table × Error
unfolding require_one_row
delete_where env condition t =
    if env.fails
    then (t, some database_failure)
    else (keep_if (λ w. not (condition w)) t, require_one_row (count condition t))

abbrev pub stamp : Time → Time → Time
stamp given now = if given == 0 then now else given

-- the row that gorm inserts
abbrev pub inserted : Database → Environment → AgentWorkflow → AgentWorkflow
inserted db env w = record w {
  expires_at = db.column_time w.expires_at;
  created_at = stamp w.created_at env.clock;
  updated_at = stamp w.updated_at env.clock;
}

-- `requireOneCreatedRow(Create(workflow))`: the unique index refuses a second row at a key
unfoldable pub create_row : Database → Environment → AgentWorkflow → Table → Table × Error
unfolding same_key
create_row db env w t =
    if env.fails
    then (t, some database_failure)
    else if any (at_key db (key_from_workflow w)) t
    then (t, some conflict)
    else (inserted db env w ∷ t, none)

unfoldable pub snapshot_updates :
    Database → AgentWorkflowSnapshotUpdate → AgentWorkflow → AgentWorkflow
snapshot_updates db next w = record w {
  workflow_id = next.workflow_id;
  workflow_type = next.workflow_type;
  workflow_state = next.workflow_state;
  snapshot_schema_version = next.snapshot_schema_version;
  snapshot_json = next.snapshot_json;
  expires_at = db.column_time next.expires_at;
}

unfoldable pub add_reservation_updates :
    Database → AgentWorkflowReservation → AgentWorkflow → AgentWorkflow
add_reservation_updates db r w = record w {
  execution_token = some r.execution_token;
  execution_operation = some r.execution_operation;
  business_key = some r.business_key;
  request_id = some r.request_id;
  execution_request_schema_version = some r.request_schema_version;
  execution_request_json = some r.request_json;
  lease_expires_at = some (db.column_time r.lease_expires_at);
}

-- the updates that `ReserveExecution` and `TakeoverExpiredExecution` add to a reservation's
unfoldable pub begin_execution : AgentWorkflow → AgentWorkflow
begin_execution w = record w {
  execution_status = executing;
  execution_result_schema_version = none;
  execution_result_json = none;
  write_effect = none;
}

unfoldable pub clear_execution_updates : AgentWorkflow → AgentWorkflow
clear_execution_updates w = record w {
  execution_token = none;
  execution_operation = none;
  business_key = none;
  request_id = none;
  execution_request_schema_version = none;
  execution_request_json = none;
  execution_result_schema_version = none;
  execution_result_json = none;
  write_effect = none;
  lease_expires_at = none;
}

unfoldable pub nullable_string : String → Option String
nullable_string value = if blank value then none else some value

-- the updates of `RecordExecutionResult`
unfoldable pub result_updates : AgentWorkflowExecutionResult → AgentWorkflow → AgentWorkflow
unfolding nullable_string
result_updates result w = record w {
  execution_status = result_recorded;
  execution_result_schema_version = some result.result_schema_version;
  execution_result_json = some result.result_json;
  write_effect = nullable_string result.write_effect;
}

-- the updates of `FinalizeExecution`, and of `MarkExecutionRecoveryRequired`
unfoldable pub final_updates :
    Database → AgentWorkflowSnapshotUpdate → AgentWorkflow → AgentWorkflow
unfolding clear_execution_updates snapshot_updates
final_updates db next w = record (clear_execution_updates (snapshot_updates db next w)) {
  execution_status = idle;
}

unfoldable pub deferral_updates : Database → Time → AgentWorkflow → AgentWorkflow
deferral_updates db retry_at w = record w {
  execution_status = recovery_required;
  lease_expires_at = some (db.column_time retry_at);
}

-- `prepareNewWorkflow`, and `applyReservationToWorkflow`
unfoldable pub prepare_new_workflow : RowStatus → AgentWorkflow → AgentWorkflow
unfolding clear_execution_updates
prepare_new_workflow status w =
    let prepared = record w {
      version = 1;
      snapshot_schema_version =
          if w.snapshot_schema_version == 0 then 1 else w.snapshot_schema_version;
      execution_status = status;
    } in
    if is_idle status then clear_execution_updates prepared else prepared

unfoldable pub apply_reservation_to_workflow :
    Database → AgentWorkflowReservation → AgentWorkflow → AgentWorkflow
unfolding add_reservation_updates
apply_reservation_to_workflow db r w = record (add_reservation_updates db r w) {
  execution_result_schema_version = none;
  execution_result_json = none;
  write_effect = none;
}
