-- ===== src/Agent/Workflow/Execution.antt =====
-- internal/agent/workflow_store.go: reserved executions and their results, with their validation.
-- A native text has no invalid UTF-8, so `runeLengthWithin` comes to its count.
use ding_ding_schedule.Prelude.{
  ℕ, ◌-◌, ◌%◌, Bool, true, false, not, ◌&&◌, String, Option, List, [], ◌∷◌, ◌==◌, leb, ltb,
  is_empty, trim_space, rune_count,
}
use ding_ding_schedule.Agent.Protocol.{Value, str, int, int64, uint, int64_slice, bool, other_value}
use ding_ding_schedule.Agent.Workflow.Contract.{Time}
use ding_ding_schedule.Agent.Workflow.Errors.{
  Result, ok, ◌>>◌, guard, operation_required, business_key_required, token_required,
  request_id_required, start_required, lease_required, lease_not_after_start, identifier_too_long,
  param_name_required, param_type_unsupported, effect_unsupported, completion_required,
}

pub data ExecutionStatus : Type 0 where
  executing result_recorded recovery_required : ExecutionStatus

pub data WriteEffect : Type 0 where
  created updated no_op cancelled_effect : WriteEffect
  other_effect : String → WriteEffect

abbrev pub TrustedParams : Type 0
TrustedParams = List (String × Value)

pub record ReservedExecution : Type 0 where
  pub operation : String
  pub business_key : String
  pub trusted_params : TrustedParams
  pub execution_token : String
  pub attempt_request_id : String
  pub started_at : Time
  pub lease_expires_at : Time

pub record ExecutionResult : Type 0 where
  pub business_key : String
  pub write_effect : WriteEffect
  pub completed_at : Time

pub record Execution : Type 0 where
  pub status : ExecutionStatus
  pub reservation : ReservedExecution
  pub result : Option ExecutionResult

abbrev pub execution_max_projection_runes : ℕ
execution_max_projection_runes = 64

unfoldable pub rune_length_within : String → ℕ → Bool
rune_length_within s limit = leb (rune_count s) limit

abbrev pub present : String → Bool
present s = not (is_empty (trim_space s))

abbrev pub projection_fits : String → Bool
projection_fits s = rune_length_within (trim_space s) execution_max_projection_runes

abbrev pub identifiers_fit : ReservedExecution → Bool
identifiers_fit r =
    projection_fits r.operation
    && projection_fits r.business_key
    && projection_fits r.execution_token
    && projection_fits r.attempt_request_id

persistable : Value → Bool
persistable (str s) = true
persistable (int n) = true
persistable (int64 n) = true
persistable (uint n) = true
persistable (int64_slice ns) = true
persistable (bool b) = true
persistable (other_value t) = false

-- the loop over the trusted parameters
unfoldable pub validate_params : TrustedParams → Result (Unit {0})
unfolding persistable
validate_params [] = ok tt
validate_params ((field, value) ∷ rest) =
    guard (present field) param_name_required
    >> (guard (persistable value) param_type_unsupported >> validate_params rest)

unfoldable pub validate_reserved_execution : ReservedExecution → Result (Unit {0})
validate_reserved_execution r = do
  guard (present r.operation) operation_required
  guard (present r.business_key) business_key_required
  guard (present r.execution_token) token_required
  guard (present r.attempt_request_id) request_id_required
  guard (not (r.started_at == 0)) start_required
  guard (not (r.lease_expires_at == 0)) lease_required
  guard (ltb r.started_at r.lease_expires_at) lease_not_after_start
  guard (identifiers_fit r) identifier_too_long
  validate_params r.trusted_params

unfoldable pub known_effect : WriteEffect → Bool
known_effect (other_effect s) = false
known_effect _ = true

unfoldable pub validate_execution_result : ExecutionResult → Result (Unit {0})
validate_execution_result r = do
  guard (present r.business_key) business_key_required
  guard (projection_fits r.business_key) identifier_too_long
  guard (known_effect r.write_effect) effect_unsupported
  guard (not (r.completed_at == 0)) completion_required

-- `value.UTC().Truncate(time.Millisecond)`
unfoldable pub normalize_database_time : Time → Time
normalize_database_time t = t - t % 1000000

unfoldable pub clone_reserved_execution : ReservedExecution → ReservedExecution
unfolding normalize_database_time
clone_reserved_execution r = record r {
  operation = trim_space r.operation;
  business_key = trim_space r.business_key;
  execution_token = trim_space r.execution_token;
  attempt_request_id = trim_space r.attempt_request_id;
  started_at = normalize_database_time r.started_at;
  lease_expires_at = normalize_database_time r.lease_expires_at;
}

unfoldable pub clone_execution : Execution → Execution
unfolding clone_reserved_execution
clone_execution e = record e { reservation = clone_reserved_execution e.reservation }
