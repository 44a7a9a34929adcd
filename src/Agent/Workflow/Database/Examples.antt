-- ===== src/Agent/Workflow/Database/Examples.antt =====
-- Runs of the workflow repository: a reservation, its result, a second writer, a takeover and a scan.
use ding_ding_schedule.Prelude.{
  ℕ, true, false, ◌≡◌, refl, sym, ◌∙◌, none, some, List, [], ◌∷◌, str_eq, eq_iff, All, ◌≤◌,
  trim_space,
}
use ding_ding_schedule.Prelude.Int.{pos}
use ding_ding_schedule.Agent.Workflow.Database.{
  Database, AgentWorkflowKey, AgentWorkflow, AgentWorkflowSnapshotUpdate, AgentWorkflowReservation,
  AgentWorkflowExecutionResult, Environment, RepositoryError, idle, executing, result_recorded,
  is_result_recorded, validate_mutation, validate_reservation, validate_snapshot_update,
  validate_workflow_for_create,
}
use ding_ding_schedule.Agent.Workflow.Database.Table.{
  delete_where, add_reservation_updates, begin_execution, create_row, prepare_new_workflow,
  result_updates, snapshot_updates, update_where,
}
use ding_ding_schedule.Agent.Workflow.Database.Operations.{
  rows, delete_reserved_execution, compare_and_swap, create, record_execution_result,
  reserve_execution, takeover_expired_execution,
}
use ding_ding_schedule.Agent.Workflow.Database.Calls.{
  Request, creates, swaps, deletes, reserves, records, releases, takes_over, Call, statement, step,
  run, serve,
}
use ding_ding_schedule.Agent.Workflow.Database.Unique.{IsCollation, Unique}
use ding_ding_schedule.Agent.Workflow.Database.Outcome.{found, Outcome, step-Outcome}
use ding_ding_schedule.Agent.Workflow.Database.Sound.{Sound, run-Sound}
use ding_ding_schedule.Agent.Workflow.Database.Fencing.{
  bears, Ended, second_writer_fails, held_row_fenced, execution_ends_recorded_in_database,
}
use ding_ding_schedule.Agent.Workflow.Database.Takeover.{TookOver, takeover_after_lease}
use ding_ding_schedule.Agent.Workflow.Database.Scan.{
  list_recoverable_executions, scan_bounded, Pending,
}

abbrev exact : Database
exact = record { same = str_eq; column_time = λ t. t }

exact-IsCollation : IsCollation exact
exact-IsCollation = record {
  reflexive = λ a. (eq_iff a a).1 refl;
  symmetric = λ a b h. (eq_iff b a).1 (sym ((eq_iff a b).0 h));
  transitive = λ a b c h g. (eq_iff a c).1 ((eq_iff a b).0 h ∙ (eq_iff b c).0 g);
}

abbrev server : Environment
server = record {
  has_database = true;
  has_context = true;
  context_ended = false;
  tenant = some 1;
  fails = false;
  clock = 1000;
}

abbrev key : AgentWorkflowKey
key = record { tenant_id = 1; conversation_id = "cid"; actor_user_id = 7 }

abbrev snapshot : AgentWorkflowSnapshotUpdate
snapshot = record {
  workflow_id = "w";
  workflow_type = "subscription.start";
  workflow_state = "ready";
  snapshot_schema_version = 1;
  snapshot_json = "{}";
  expires_at = 5000;
}

abbrev workflow : AgentWorkflow
workflow = record {
  tenant_id = 1;
  conversation_id = "cid";
  actor_user_id = 7;
  workflow_id = "w";
  workflow_type = "subscription.start";
  workflow_state = "collect_scope";
  version = 0;
  snapshot_schema_version = 1;
  snapshot_json = "{}";
  execution_status = idle;
  execution_token = none;
  execution_operation = none;
  business_key = none;
  request_id = none;
  execution_request_schema_version = none;
  execution_request_json = none;
  execution_result_schema_version = none;
  execution_result_json = none;
  write_effect = none;
  lease_expires_at = none;
  expires_at = 5000;
  created_at = 0;
  updated_at = 0;
}

abbrev reservation : AgentWorkflowReservation
reservation = record {
  execution_token = "a";
  execution_operation = "subscription.set";
  business_key = "b";
  request_id = "r";
  request_schema_version = 1;
  request_json = "{}";
  lease_expires_at = 2000;
}

abbrev second_reservation : AgentWorkflowReservation
second_reservation = record reservation { execution_token = "c"; lease_expires_at = 4000 }

abbrev result : AgentWorkflowExecutionResult
result = record {
  result_schema_version = 1;
  result_json = "{}";
  business_key = "b";
  write_effect = "created";
  completed_at = 1500;
}

abbrev call : Request → Call
call q = record { environment = server; request = q }

abbrev reserved_history : List Call
reserved_history = call (creates workflow) ∷ call (reserves key 1 snapshot reservation) ∷ []

abbrev recorded_history : List Call
recorded_history =
    call (creates workflow)
    ∷ call (reserves key 1 snapshot reservation)
    ∷ call (records key 2 "a" result)
    ∷ []

abbrev reserved_row : AgentWorkflow
reserved_row = record workflow {
  workflow_state = "ready";
  version = 2;
  execution_status = executing;
  execution_token = some "a";
  execution_operation = some "subscription.set";
  business_key = some "b";
  request_id = some "r";
  execution_request_schema_version = some 1;
  execution_request_json = some "{}";
  lease_expires_at = some 2000;
  created_at = 1000;
  updated_at = 1000;
}

abbrev recorded_row : AgentWorkflow
recorded_row = record reserved_row {
  version = 3;
  execution_status = result_recorded;
  execution_result_schema_version = some 1;
  execution_result_json = some "{}";
  write_effect = some "created";
}

reserved_row-found : found exact key (run exact reserved_history []) ≡ some reserved_row
unfolding run step serve reserve_execution validate_mutation trim_space validate_snapshot_update
    validate_reservation update_where create validate_workflow_for_create create_row
    prepare_new_workflow begin_execution add_reservation_updates snapshot_updates
reserved_row-found = refl

recorded_row-found : found exact key (run exact recorded_history []) ≡ some recorded_row
unfolding run step serve record_execution_result validate_mutation trim_space update_where
    reserve_execution validate_snapshot_update validate_reservation create
    validate_workflow_for_create create_row prepare_new_workflow begin_execution
    add_reservation_updates snapshot_updates result_updates
recorded_row-found = refl

step-Outcome_example :
    Outcome exact server key
      (statement exact (reserves key 1 snapshot reservation))
      (run exact (call (creates workflow) ∷ []) [])
      (step exact
        (call (reserves key 1 snapshot reservation))
        (run exact (call (creates workflow) ∷ []) []))
step-Outcome_example =
    step-Outcome exact exact-IsCollation (call (reserves key 1 snapshot reservation))
      (run exact (call (creates workflow) ∷ []) [])
      (run-Sound exact exact-IsCollation (call (creates workflow) ∷ [])).0

run-Sound_example :
    Unique exact (run exact recorded_history [])
    × ((k : AgentWorkflowKey) (w : AgentWorkflow)
        → found exact k (run exact recorded_history []) ≡ some w
        → Sound w)
run-Sound_example = run-Sound exact exact-IsCollation recorded_history

created_once : Unique exact (run exact (call (creates workflow) ∷ []) [])
created_once = (run-Sound exact exact-IsCollation (call (creates workflow) ∷ [])).0

first_swap_succeeds :
    (step exact (call (swaps key 1 snapshot)) (run exact (call (creates workflow) ∷ []) [])).1
    ≡ none
unfolding run step serve compare_and_swap validate_mutation trim_space validate_snapshot_update
    update_where create validate_workflow_for_create create_row prepare_new_workflow
first_swap_succeeds = refl

second_writer_fails_example :
    (e : RepositoryError) × (step exact
        (call (deletes key 1))
        (step exact (call (swaps key 1 snapshot)) (run exact (call (creates workflow) ∷ []) [])).0
      ≡ (
        (step exact (call (swaps key 1 snapshot)) (run exact (call (creates workflow) ∷ []) [])).0,
        some e,
      ))
second_writer_fails_example =
    second_writer_fails exact exact-IsCollation (call (swaps key 1 snapshot)) (call (deletes key 1))
      (run exact (call (creates workflow) ∷ []) []) 1 created_once refl refl refl
      first_swap_succeeds

held_row_fenced_example :
    found exact key (step exact (call (records key 2 "z" result)) (run exact reserved_history [])).0
    ≡ some reserved_row
held_row_fenced_example =
    held_row_fenced exact exact-IsCollation (call (records key 2 "z" result))
      (run exact reserved_history []) key reserved_row
      (run-Sound exact exact-IsCollation reserved_history).0 reserved_row-found refl refl

release_ends :
    Ended exact
      (found exact key (step exact (call (releases key 3 "a")) (run exact recorded_history [])).0)
unfolding run step serve delete_reserved_execution validate_mutation trim_space delete_where
    record_execution_result update_where reserve_execution validate_snapshot_update
    validate_reservation create validate_workflow_for_create create_row prepare_new_workflow
    begin_execution add_reservation_updates snapshot_updates result_updates
release_ends = tt

execution_ends_recorded_in_database_example :
    (is_result_recorded recorded_row.execution_status ≡ true)
    × (bears exact recorded_row.execution_token (some "a") ≡ true)
execution_ends_recorded_in_database_example =
    execution_ends_recorded_in_database exact exact-IsCollation (call (releases key 3 "a"))
      (run exact recorded_history []) key recorded_row
      (run-Sound exact exact-IsCollation recorded_history).0 recorded_row-found refl release_ends

takeover_succeeds_here :
    (step exact
      (call (takes_over key 2 "a" 3000 second_reservation))
      (run exact reserved_history [])).1
    ≡ none
unfolding run step serve takeover_expired_execution validate_mutation trim_space
    validate_reservation update_where reserve_execution validate_snapshot_update create
    validate_workflow_for_create create_row prepare_new_workflow begin_execution
    add_reservation_updates snapshot_updates
takeover_succeeds_here = refl

takeover_after_lease_example :
    TookOver exact 2 "a" 3000 second_reservation (found exact key (run exact reserved_history [])) (
      found exact key
        (step exact
          (call (takes_over key 2 "a" 3000 second_reservation))
          (run exact reserved_history [])).0)
takeover_after_lease_example =
    takeover_after_lease exact exact-IsCollation
      (call (takes_over key 2 "a" 3000 second_reservation)) key 2 "a" 3000 second_reservation
      (run exact reserved_history []) refl (run-Sound exact exact-IsCollation reserved_history).0
      takeover_succeeds_here

scan_finds :
    list_recoverable_executions (λ ws. ws) server 3000 (pos 10) (reserved_row ∷ recorded_row ∷ [])
    ≡ rows (reserved_row ∷ recorded_row ∷ [])
unfolding list_recoverable_executions
scan_finds = refl

scan_bounded_example :
    (n : ℕ) × (pos 10 ≡ pos n)
    × (1 ≤ n)
    × (n ≤ 100)
    × (2 ≤ n)
    × All (Pending 3000) (reserved_row ∷ recorded_row ∷ [])
scan_bounded_example =
    scan_bounded (λ ws. ws) server 3000 (pos 10) (reserved_row ∷ recorded_row ∷ [])
      (reserved_row ∷ recorded_row ∷ []) (λ p xs. refl) scan_finds
