-- ===== src/Agent/Workflow/Database/Operations.antt =====
-- internal/repository/agent_workflow_repository.go: the operations of the repository.
-- An operation takes the table and returns the table after it with its error.
use ding_ding_schedule.Prelude.{
  ℕ, Bool, false, not, ◌&&◌, ◌||◌, String, Option, none, some, List, [], ◌∷◌, ◌==◌, leb,
  if◌then◌else◌,
}
use ding_ding_schedule.Agent.Workflow.Contract.{Time}
use ding_ding_schedule.Agent.Workflow.Database.{
  Database, AgentWorkflowKey, AgentWorkflow, AgentWorkflowSnapshotUpdate, AgentWorkflowReservation,
  AgentWorkflowExecutionResult, Error, Environment, idle, executing, is_executing,
  is_result_recorded, is_recovery_required, workflow_missing, token_empty, result_incomplete,
  takeover_incomplete, deferral_incomplete, database_failure, when, first_error, blank, validate,
  validate_mutation, validate_reservation, validate_snapshot_update, validate_workflow_for_create,
  key_from_workflow, RepositoryError,
}
use ding_ding_schedule.Agent.Workflow.Database.Table.{
  Table, at_key, equals, is_null, idle_execution, update_where, delete_where, create_row,
  snapshot_updates, add_reservation_updates, begin_execution, final_updates, deferral_updates,
  result_updates, prepare_new_workflow, apply_reservation_to_workflow,
}

-- the checks of an operation, then its statement
abbrev pub checked : Table → Error → Table × Error → Table × Error
checked t none r = r
checked t (some e) r = (t, some e)

-- the rows that the conditions of an operation admit
unfoldable pub idle_at : Database → AgentWorkflowKey → ℕ → AgentWorkflow → Bool
unfolding idle_execution
idle_at db k v w = at_key db k w && w.version == v && idle_execution w

unfoldable pub executing_at :
    Database → AgentWorkflowKey → ℕ → String → AgentWorkflowExecutionResult → AgentWorkflow → Bool
executing_at db k v token result w =
    at_key db k w
    && w.version == v
    && is_executing w.execution_status
    && equals db w.execution_token token
    && equals db w.business_key result.business_key
    && not (is_null w.lease_expires_at)
    && not (is_null w.execution_request_schema_version)
    && not (is_null w.execution_request_json)

unfoldable pub recorded_at : Database → AgentWorkflowKey → ℕ → String → AgentWorkflow → Bool
recorded_at db k v token w =
    at_key db k w
    && w.version == v
    && is_result_recorded w.execution_status
    && equals db w.execution_token token
    && not (is_null w.execution_result_schema_version)
    && not (is_null w.execution_result_json)

-- `lease_expires_at IS NOT NULL AND lease_expires_at <= ?`
abbrev pub lease_ended : Option Time → Time → Bool
lease_ended none now = false
lease_ended (some lease) now = leb lease now

unfoldable pub expired_at :
    Database
    → AgentWorkflowKey
    → ℕ
    → String
    → Time
    → AgentWorkflowReservation
    → AgentWorkflow
    → Bool
expired_at db k v token expired_before next w =
    at_key db k w
    && w.version == v
    && equals db w.execution_token token
    && (is_executing w.execution_status || is_recovery_required w.execution_status)
    && equals db w.execution_operation next.execution_operation
    && equals db w.business_key next.business_key
    && not (is_null w.execution_request_schema_version)
    && not (is_null w.execution_request_json)
    && lease_ended w.lease_expires_at expired_before

unfoldable pub running_at : Database → AgentWorkflowKey → ℕ → String → AgentWorkflow → Bool
running_at db k v token w =
    at_key db k w
    && w.version == v
    && equals db w.execution_token token
    && is_executing w.execution_status

unfoldable pub create : Database → Environment → Option AgentWorkflow → Table → Table × Error
create db env none t = (t, some workflow_missing)
create db env (some w) t =
    checked t
      (first_error (validate env (key_from_workflow w) ∷ validate_workflow_for_create w ∷ []))
      (create_row db env (prepare_new_workflow idle w) t)

unfoldable pub compare_and_swap :
    Database
    → Environment
    → AgentWorkflowKey
    → ℕ
    → AgentWorkflowSnapshotUpdate
    → Table
    → Table × Error
unfolding idle_at
compare_and_swap db env k v next t =
    checked t (first_error (validate_mutation env k v ∷ validate_snapshot_update next ∷ []))
      (update_where env (idle_at db k v) (snapshot_updates db next) t)

unfoldable pub delete_if_version :
    Database → Environment → AgentWorkflowKey → ℕ → Table → Table × Error
unfolding idle_at
delete_if_version db env k v t =
    checked t (validate_mutation env k v) (delete_where env (idle_at db k v) t)

unfoldable pub create_reserved_execution :
    Database → Environment → Option AgentWorkflow → AgentWorkflowReservation → Table → Table × Error
create_reserved_execution db env none r t = (t, some workflow_missing)
create_reserved_execution db env (some w) r t =
    checked t
      (first_error (
        validate env (key_from_workflow w)
        ∷ validate_workflow_for_create w
        ∷ validate_reservation r
        ∷ []))
      (create_row db env (apply_reservation_to_workflow db r (prepare_new_workflow executing w)) t)

unfoldable pub reserve_execution :
    Database
    → Environment
    → AgentWorkflowKey
    → ℕ
    → AgentWorkflowSnapshotUpdate
    → AgentWorkflowReservation
    → Table
    → Table × Error
unfolding idle_at
reserve_execution db env k v next r t =
    checked t
      (first_error
        (validate_mutation env k v ∷ validate_snapshot_update next ∷ validate_reservation r ∷ []))
      (update_where env (idle_at db k v)
        (λ w. begin_execution (add_reservation_updates db r (snapshot_updates db next w))) t)

unfoldable pub record_execution_result :
    Database
    → Environment
    → AgentWorkflowKey
    → ℕ
    → String
    → AgentWorkflowExecutionResult
    → Table
    → Table × Error
unfolding executing_at
record_execution_result db env k v token result t =
    checked t
      (first_error (
        validate_mutation env k v
        ∷ when (blank token) token_empty
        ∷ when
            (result.result_schema_version == 0
              || blank result.result_json
              || blank result.business_key
              || blank result.write_effect
              || result.completed_at == 0)
            result_incomplete
        ∷ []))
      (update_where env (executing_at db k v token result) (result_updates result) t)

unfoldable pub finalize_execution :
    Database
    → Environment
    → AgentWorkflowKey
    → ℕ
    → String
    → AgentWorkflowSnapshotUpdate
    → Table
    → Table × Error
unfolding recorded_at
finalize_execution db env k v token next t =
    checked t
      (first_error (
        validate_mutation env k v
        ∷ validate_snapshot_update next
        ∷ when (blank token) token_empty
        ∷ []))
      (update_where env (recorded_at db k v token) (final_updates db next) t)

unfoldable pub delete_reserved_execution :
    Database → Environment → AgentWorkflowKey → ℕ → String → Table → Table × Error
unfolding recorded_at
delete_reserved_execution db env k v token t =
    checked t (first_error (validate_mutation env k v ∷ when (blank token) token_empty ∷ []))
      (delete_where env (recorded_at db k v token) t)

unfoldable pub takeover_expired_execution :
    Database
    → Environment
    → AgentWorkflowKey
    → ℕ
    → String
    → Time
    → AgentWorkflowReservation
    → Table
    → Table × Error
unfolding expired_at
takeover_expired_execution db env k v token expired_before next t =
    checked t
      (first_error (
        validate_mutation env k v
        ∷ when (blank token || expired_before == 0) takeover_incomplete
        ∷ validate_reservation next
        ∷ []))
      (update_where env (expired_at db k v token expired_before next)
        (λ w. begin_execution (add_reservation_updates db next w)) t)

unfoldable pub mark_execution_recovery_required :
    Database → Environment → AgentWorkflowKey → ℕ → String → Time → Table → Table × Error
unfolding running_at
mark_execution_recovery_required db env k v token retry_at t =
    checked t
      (first_error
        (validate_mutation env k v ∷ when (blank token || retry_at == 0) deferral_incomplete ∷ []))
      (update_where env (running_at db k v token) (deferral_updates db retry_at) t)

-- What a query returns: its rows, or an error.
pub data Found : Type 0 where
  failed : RepositoryError → Found
  rows : List AgentWorkflow → Found

abbrev pub queried : Error → Found → Found
queried none f = f
queried (some e) f = failed e

-- `First`: the first row that the condition admits
abbrev pub first_row : (AgentWorkflow → Bool) → Table → Option AgentWorkflow
first_row p [] = none
first_row p (w ∷ t) = if p w then some w else first_row p t

abbrev pub at_most_one : Option AgentWorkflow → List AgentWorkflow
at_most_one none = []
at_most_one (some w) = w ∷ []

-- `Load`: no row is no error
unfoldable pub load : Database → Environment → AgentWorkflowKey → Table → Found
load db env k t =
    queried (first_error (validate env k ∷ when env.fails database_failure ∷ []))
      (rows (at_most_one (first_row (at_key db k) t)))
