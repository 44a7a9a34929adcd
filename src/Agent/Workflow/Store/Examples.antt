-- ===== src/Agent/Workflow/Store/Examples.antt =====
-- One conversation: an execution is reserved, taken over after its lease, and recorded.
use ding_ding_schedule.Prelude.{
  ℕ, ◌*◌, ◌≤◌, ◌≡◌, ◌≢◌, refl, sym, ap, ◌∙◌, arith, eq_iff, ◌⊎◌, true, false, Option, none, some,
  [], ◌∷◌, eq_of_some, trim_space, rune_count, is_space, trim_left, trim_right,
}
use ding_ding_schedule.Agent.Protocol.{str}
use ding_ding_schedule.Agent.Workflow.Contract.{Time, WorkflowSnapshot, subscription_start, ready}
use ding_ding_schedule.Agent.Workflow.Errors.{ok}
use ding_ding_schedule.Agent.Workflow.Execution.{
  ReservedExecution, ExecutionResult, Execution, result_recorded, created, rune_length_within,
  validate_execution_result, known_effect, validate_reserved_execution, normalize_database_time,
  validate_params,
}
use ding_ding_schedule.Agent.Workflow.Engine.{empty_workflow}
use ding_ding_schedule.Agent.Workflow.Codec.{
  PersistedReservedExecution, canonical_reserved_execution, marshal_reserved_execution,
  reserved_execution_to_v1, format_workflow_time, parse_execution_time, reserved_execution_from_v1,
  unmarshal_reserved_execution, encode_typed_value, decode_typed_value, normalize_trusted_param,
  encode_params, decode_params,
}
use ding_ding_schedule.Agent.Workflow.Store.{
  WorkflowKey, VersionedWorkflow, Store, Readings, live, key_eq, write, new_memory_workflow_store,
  validate_workflow_key, record_for_execution_mutation, active_record, purge,
  record_for_versioned_mutation, workflow_expired, prepare_snapshot, set_workflow_snapshot_version,
  next_version, clone_versioned_workflow,
}
use ding_ding_schedule.Agent.Workflow.Store.Operations.{
  executing_now, is_recorded, canonical, status_after, takeover_expired_execution,
}
use ding_ding_schedule.Agent.Workflow.Store.Inversion.{Held}
use ding_ding_schedule.Agent.Workflow.Store.Trace
use ding_ding_schedule.Agent.Workflow.Store.Operations
use ding_ding_schedule.Agent.Workflow.Store.Trace.{Request, Call, step, run, shown, expected}
use ding_ding_schedule.Agent.Workflow.Store.Spec.{Change}
use ding_ding_schedule.Agent.Workflow.Store.Refinement.{step-Change}
use ding_ding_schedule.Agent.Workflow.Store.Isolation.{step-other}
use ding_ding_schedule.Agent.Workflow.Store.Invariant.{WellFormed, run-WellFormed}
use ding_ding_schedule.Agent.Workflow.Store.Exclusion.{
  Dropped, stale_version_refused, held_execution_fenced, second_writer_loses,
  execution_ends_recorded,
}
use ding_ding_schedule.Agent.Workflow.Store.Takeover.{
  takeover_succeeds, takeover_fences_former_holder,
}

abbrev sample_length : PersistedReservedExecution → ℕ
sample_length p = 300

abbrev minute : ℕ → Time
minute n = n * (60 * 1000000000)

abbrev key : WorkflowKey
key = record { tenant_id = 1; conversation_id = "cid"; actor_user_id = 7 }

abbrev other_key : WorkflowKey
other_key = record key { actor_user_id = 8 }

abbrev workflow : WorkflowSnapshot
workflow = empty_workflow subscription_start ready

abbrev first_reservation : ReservedExecution
first_reservation = record {
  operation = "subscription.start";
  business_key = "key";
  trusted_params = ("scope", str "all") ∷ [];
  execution_token = "first";
  attempt_request_id = "request-1";
  started_at = minute 1;
  lease_expires_at = minute 2;
}

abbrev second_reservation : ReservedExecution
second_reservation = record first_reservation {
  execution_token = "second";
  attempt_request_id = "request-2";
  started_at = minute 3;
  lease_expires_at = minute 4;
}

abbrev outcome : ExecutionResult
outcome = record { business_key = "key"; write_effect = created; completed_at = minute 3 }

abbrev at_minute : ℕ → Readings
at_minute n = record { first = minute n; second = minute n }

abbrev call : ℕ → Request → Call
call n request = record { context = live; key = key; readings = at_minute n; request = request }

abbrev reserving : Call
reserving = call 1 (Request.creates_reserved (some workflow) first_reservation)

abbrev taking_over : Call
taking_over = call 3 (Request.takes_over 1 "first" second_reservation)

abbrev recording : Call
recording = call 3 (Request.records 2 "second" outcome)

-- the former holder, who comes back with its result
abbrev late_recording : Call
late_recording = call 3 (Request.records 1 "first" outcome)

abbrev finalizing : Call
finalizing = call 3 (Request.finalizes 3 "second" (some workflow))

abbrev held_record : VersionedWorkflow
held_record = record {
  snapshot = prepare_snapshot key workflow 1 none (minute 1);
  version = 1;
  execution = some (executing_now first_reservation);
}

abbrev recorded_execution : Execution
recorded_execution = record {
  status = result_recorded;
  reservation = second_reservation;
  result = some outcome;
}

abbrev recorded_record : VersionedWorkflow
recorded_record = record {
  snapshot = set_workflow_snapshot_version (set_workflow_snapshot_version held_record.snapshot 2) 3;
  version = 3;
  execution = some recorded_execution;
}

abbrev holding : Option VersionedWorkflow → Store
holding o = write new_memory_workflow_store key o

abbrev taken_record : VersionedWorkflow
taken_record = record {
  snapshot = set_workflow_snapshot_version held_record.snapshot 2;
  version = 2;
  execution = some (executing_now second_reservation);
}

abbrev finished_record : VersionedWorkflow
finished_record = record {
  snapshot = prepare_snapshot key workflow 4 (some recorded_record.snapshot) (minute 3);
  version = 4;
  execution = none;
}

-- what the calls do here, computed
outcomes :
    (run sample_length (reserving ∷ taking_over ∷ recording ∷ []) new_memory_workflow_store key
      ≡ some recorded_record)
    × ((takeover_expired_execution sample_length live key 1 "first" second_reservation
          (at_minute 3)
          (holding (some held_record))).1
        ≡ ok (clone_versioned_workflow taken_record))
    × (step sample_length taking_over (holding (some held_record)) key ≡ some taken_record)
    × (step sample_length finalizing (holding (some recorded_record)) key ≡ some finished_record)
    × (shown late_recording.request ≡ some "first")
    × (shown finalizing.request ≡ some "second")
unfolding run step Trace.serve new_memory_workflow_store Operations.record_execution_result
    validate_workflow_key trim_space validate_execution_result rune_length_within rune_count
    known_effect Operations.commit record_for_execution_mutation active_record
    takeover_expired_execution canonical_reserved_execution marshal_reserved_execution
    reserved_execution_to_v1 validate_reserved_execution format_workflow_time parse_execution_time
    reserved_execution_from_v1 unmarshal_reserved_execution normalize_database_time
    Operations.create_reserved_execution Operations.finalize_execution key_eq purge
    record_for_versioned_mutation workflow_expired write is_space trim_left trim_right
    encode_typed_value decode_typed_value Operations.recorded Operations.taken_over
    Operations.finalized validate_params normalize_trusted_param encode_params decode_params
    clone_versioned_workflow
outcomes = (refl, refl, refl, refl, refl, refl)

run-WellFormed_example : WellFormed sample_length key recorded_record
run-WellFormed_example =
    run-WellFormed sample_length (reserving ∷ taking_over ∷ recording ∷ []) key recorded_record
      outcomes.0

holds : (o : Option VersionedWorkflow) → holding o key ≡ o
unfolding write key_eq
holds o = refl

step-Change_example :
    Change sample_length key
      (some 1)
      (shown taking_over.request)
      taking_over.readings
      (holding (some held_record) key)
      (step sample_length taking_over (holding (some held_record)) key)
step-Change_example = step-Change sample_length taking_over (holding (some held_record))

different : key_eq key other_key ≡ false
unfolding key_eq
different = refl

step-other_example :
    step sample_length taking_over (holding (some held_record)) other_key
    ≡ holding (some held_record) other_key
step-other_example =
    step-other sample_length taking_over (holding (some held_record)) other_key different

version_of : Option VersionedWorkflow → ℕ
version_of none = 0
version_of (some r) = r.version

-- a call for a version that is gone
stale : (r : VersionedWorkflow) → holding (some recorded_record) key ≡ some r → r.version ≢ 2
unfolding version_of
stale r at gone = omega (arith, ap version_of (sym (holds (some recorded_record)) ∙ at) ∙ gone)

stale_version_refused_example :
    (step sample_length recording (holding (some recorded_record)) key
      ≡ holding (some recorded_record) key)
    ⊎ Dropped recording.readings.first
        (holding (some recorded_record) key)
        (step sample_length recording (holding (some recorded_record)) key)
stale_version_refused_example =
    stale_version_refused sample_length recording (holding (some recorded_record)) 2 refl stale

other_token : shown late_recording.request ≢ some second_reservation.execution_token
other_token e = cc ((eq_iff "first" "second").1 (eq_of_some (sym outcomes.4 ∙ e)))

held_execution_fenced_example :
    step sample_length late_recording (holding (some taken_record)) key ≡ some taken_record
held_execution_fenced_example =
    held_execution_fenced sample_length late_recording (holding (some taken_record)) taken_record
      (executing_now second_reservation) (holds (some taken_record)) refl other_token

moved :
    step sample_length taking_over (holding (some held_record)) key ≢ holding (some held_record) key
unfolding version_of
moved e = omega (arith, ap version_of (sym outcomes.2 ∙ e ∙ holds (some held_record)))

second_writer_loses_example :
    (step sample_length late_recording
        (step sample_length taking_over (holding (some held_record)))
        key
      ≡ step sample_length taking_over (holding (some held_record)) key)
    ⊎ Dropped late_recording.readings.first
        (step sample_length taking_over (holding (some held_record)) key)
        (step sample_length late_recording
          (step sample_length taking_over (holding (some held_record)))
          key)
second_writer_loses_example =
    second_writer_loses sample_length taking_over late_recording (holding (some held_record)) 1 refl
      refl refl moved

over :
    (r : VersionedWorkflow) (e : Execution)
    → step sample_length finalizing (holding (some recorded_record)) key ≡ some r
    → r.execution ≢ some e
over r e at held = absurd (gone (eq_of_some (sym outcomes.3 ∙ at)))
  where
    gone : ¬ finished_record ≡ r
    gone same = cc (ap (λ x. x.execution) same ∙ held)

execution_ends_recorded_example :
    (is_recorded result_recorded (some outcome) ≡ true) × (shown finalizing.request ≡ some "second")
execution_ends_recorded_example =
    execution_ends_recorded sample_length finalizing (holding (some recorded_record))
      recorded_record recorded_execution (holds (some recorded_record)) refl over

takeover_fences_former_holder_example :
    step sample_length late_recording
      (takeover_expired_execution sample_length live key 1 "first" second_reservation
        (at_minute 3)
        (holding (some held_record))).0
      key
    ≡ (takeover_expired_execution sample_length live key 1 "first" second_reservation
          (at_minute 3)
          (holding (some held_record))).0
        key
takeover_fences_former_holder_example =
    takeover_fences_former_holder sample_length live key 1 "first" second_reservation (at_minute 3)
      (holding (some held_record)) late_recording outcomes.1 refl refl

takeover_succeeds_example :
    (m : ReservedExecution) × (h : Held (holding (some held_record)) key 1 "first") × (canonical
        sample_length second_reservation
      ≡ ok m)
    × (h.execution.reservation.lease_expires_at ≤ minute 3)
    × (m.operation ≡ h.execution.reservation.operation)
    × (m.business_key ≡ h.execution.reservation.business_key)
    × (m.execution_token ≢ trim_space "first")
    × ((takeover_expired_execution sample_length live key 1 "first" second_reservation
            (at_minute 3)
            (holding (some held_record))).0
          key
        ≡ some (record {
          snapshot = set_workflow_snapshot_version h.old.snapshot (next_version 1);
          version = next_version 1;
          execution = some (record {
            status = status_after h.execution.result;
            reservation = m;
            result = h.execution.result;
          });
        }))
takeover_succeeds_example =
    takeover_succeeds sample_length live key 1 "first" second_reservation (at_minute 3)
      (holding (some held_record)) outcomes.1
