-- ===== src/Agent/Workflow/Database.antt =====
-- internal/repository/agent_workflow_repository.go and internal/model/agent_workflow.go: the table of
-- the workflows, its keys, and the statements that the repository sends.
-- What the database does is a parameter: how its collation compares texts (the tables use
-- utf8mb4_unicode_ci), what a DATETIME(3) column keeps of an instant, and whether a statement fails,
-- which then has no effect. The tenant plugin adds to a statement the tenant that `validate` has
-- compared with the key. The number that the database gives a row is left out: no code reads it.
pub mod Table
pub mod Operations
pub mod Calls
pub mod Unique
pub mod Effects
pub mod Outcome
pub mod Sound
pub mod Fencing
pub mod Takeover
pub mod Scan
mod Examples
use ding_ding_schedule.Prelude.{
  ℕ, Bool, true, false, not, ◌&&◌, ◌||◌, String, Option, none, some, List, [], ◌∷◌, ◌==◌,
  if◌then◌else◌, is_empty, trim_space,
}
use ding_ding_schedule.Agent.Workflow.Contract.{Time}

pub record Database : Type 0 where
  -- the `=` of the collation
  pub same : String → String → Bool
  -- what the column keeps of an instant
  pub column_time : Time → Time

-- The execution status of a row: the column holds one of the four texts that the repository writes.
pub data RowStatus : Type 0 where
  idle executing result_recorded recovery_required : RowStatus

abbrev pub is_idle : RowStatus → Bool
is_idle idle = true
is_idle _ = false

abbrev pub is_executing : RowStatus → Bool
is_executing executing = true
is_executing _ = false

abbrev pub is_result_recorded : RowStatus → Bool
is_result_recorded result_recorded = true
is_result_recorded _ = false

abbrev pub is_recovery_required : RowStatus → Bool
is_recovery_required recovery_required = true
is_recovery_required _ = false

pub record AgentWorkflowKey : Type 0 where
  pub tenant_id : ℕ
  pub conversation_id : String
  pub actor_user_id : ℕ

pub record AgentWorkflow : Type 0 where
  pub tenant_id : ℕ
  pub conversation_id : String
  pub actor_user_id : ℕ
  pub workflow_id : String
  pub workflow_type : String
  pub workflow_state : String
  pub version : ℕ
  pub snapshot_schema_version : ℕ
  pub snapshot_json : String
  pub execution_status : RowStatus
  pub execution_token : Option String
  pub execution_operation : Option String
  pub business_key : Option String
  pub request_id : Option String
  pub execution_request_schema_version : Option ℕ
  pub execution_request_json : Option String
  pub execution_result_schema_version : Option ℕ
  pub execution_result_json : Option String
  pub write_effect : Option String
  pub lease_expires_at : Option Time
  pub expires_at : Time
  pub created_at : Time
  pub updated_at : Time

pub record AgentWorkflowSnapshotUpdate : Type 0 where
  pub workflow_id : String
  pub workflow_type : String
  pub workflow_state : String
  pub snapshot_schema_version : ℕ
  pub snapshot_json : String
  pub expires_at : Time

pub record AgentWorkflowReservation : Type 0 where
  pub execution_token : String
  pub execution_operation : String
  pub business_key : String
  pub request_id : String
  pub request_schema_version : ℕ
  pub request_json : String
  pub lease_expires_at : Time

pub record AgentWorkflowExecutionResult : Type 0 where
  pub result_schema_version : ℕ
  pub result_json : String
  pub business_key : String
  pub write_effect : String
  pub completed_at : Time

pub data RepositoryError : Type 0 where
  database_missing context_done tenant_missing tenant_mismatch key_incomplete version_zero :
      RepositoryError
  workflow_missing update_incomplete reservation_incomplete token_empty : RepositoryError
  result_incomplete takeover_incomplete deferral_incomplete scan_invalid : RepositoryError
  -- `ErrAgentWorkflowConflict`, and an error of the database
  conflict database_failure : RepositoryError

-- A Go error: `none` is nil.
abbrev pub Error : Type 0
Error = Option RepositoryError

-- What a call finds outside its arguments.
pub record Environment : Type 0 where
  -- `r != nil && r.db != nil` and `ctx != nil`
  pub has_database : Bool
  pub has_context : Bool
  -- `ctx.Err() != nil`
  pub context_ended : Bool
  -- `tenantctx.TenantIDFrom`
  pub tenant : Option ℕ
  -- whether the statement fails in the database
  pub fails : Bool
  -- the clock from which gorm stamps the row
  pub clock : Time

-- `if condition { return failure }`
abbrev pub when : Bool → RepositoryError → Error
when true failure = some failure
when false failure = none

-- a chain of `if err := …; err != nil { return err }`
abbrev pub first_error : List Error → Error
first_error [] = none
first_error (some e ∷ rest) = some e
first_error (none ∷ rest) = first_error rest

abbrev pub blank : String → Bool
blank s = is_empty (trim_space s)

abbrev pub tenant_id_from_ctx : Option ℕ → Option ℕ
tenant_id_from_ctx none = none
tenant_id_from_ctx (some id) = if id == 0 then none else some id

abbrev pub same_tenant : Option ℕ → ℕ → Error
same_tenant none id = some tenant_missing
same_tenant (some tenant) id = when (not (tenant == id)) tenant_mismatch

unfoldable pub validate : Environment → AgentWorkflowKey → Error
validate env k = first_error (
    when (not env.has_database) database_missing
    ∷ when (not env.has_context) tenant_missing
    ∷ same_tenant (tenant_id_from_ctx env.tenant) k.tenant_id
    ∷ when (k.tenant_id == 0 || blank k.conversation_id) key_incomplete
    ∷ [])

unfoldable pub validate_mutation : Environment → AgentWorkflowKey → ℕ → Error
unfolding validate
validate_mutation env k expected_version =
    first_error (validate env k ∷ when (expected_version == 0) version_zero ∷ [])

unfoldable pub validate_reservation : AgentWorkflowReservation → Error
validate_reservation r =
    when
      (blank r.execution_token
        || blank r.execution_operation
        || blank r.business_key
        || blank r.request_id
        || r.request_schema_version == 0
        || blank r.request_json
        || r.lease_expires_at == 0)
      reservation_incomplete

unfoldable pub validate_snapshot_update : AgentWorkflowSnapshotUpdate → Error
validate_snapshot_update next =
    when
      (blank next.workflow_id
        || blank next.workflow_type
        || blank next.workflow_state
        || next.snapshot_schema_version == 0
        || blank next.snapshot_json
        || next.expires_at == 0)
      update_incomplete

unfoldable pub validate_workflow_for_create : AgentWorkflow → Error
unfolding validate_snapshot_update
validate_workflow_for_create w = validate_snapshot_update (record {
  workflow_id = w.workflow_id;
  workflow_type = w.workflow_type;
  workflow_state = w.workflow_state;
  snapshot_schema_version = w.snapshot_schema_version;
  snapshot_json = w.snapshot_json;
  expires_at = w.expires_at;
})

abbrev pub key_from_workflow : AgentWorkflow → AgentWorkflowKey
key_from_workflow w = record {
  tenant_id = w.tenant_id;
  conversation_id = w.conversation_id;
  actor_user_id = w.actor_user_id;
}
