-- ===== src/Agent/Workflow/Codec/Examples.antt =====
-- A reservation with ids out of order and times finer than a millisecond.
use ding_ding_schedule.Prelude.{
  ℕ, ◌+◌, ◌*◌, ◌≡◌, refl, [], ◌∷◌, trim_space, trim_left, trim_right, is_space, rune_count,
}
use ding_ding_schedule.Prelude.Int.{pos}
use ding_ding_schedule.Agent.Protocol.{str, int64_slice}
use ding_ding_schedule.Agent.Workflow.Errors.{ok}
use ding_ding_schedule.Agent.Workflow.Execution.{
  ReservedExecution, validate_reserved_execution, validate_params, rune_length_within,
  normalize_database_time,
}
use ding_ding_schedule.Agent.Workflow.Codec.{
  PersistedReservedExecution, canonical_reserved_execution, marshal_reserved_execution,
  unmarshal_reserved_execution, reserved_execution_to_v1, reserved_execution_from_v1, encode_params,
  decode_params, normalize_trusted_param, encode_typed_value, decode_typed_value,
  format_workflow_time, parse_execution_time,
}
use ding_ding_schedule.Agent.Workflow.Codec.Ids.{sorted_unique_int64s}
use ding_ding_schedule.Agent.Workflow.Codec.Canonical.{canonical_reserved_execution_again}

abbrev some_length : PersistedReservedExecution → ℕ
some_length dto = 400

abbrev rough : ReservedExecution
rough = record {
  operation = "subscription.start";
  business_key = "key";
  trusted_params =
      ("scope", str "department") ∷ ("dept_ids", int64_slice (pos 9 ∷ pos 7 ∷ pos 9 ∷ [])) ∷ [];
  execution_token = "token";
  attempt_request_id = "request";
  started_at = 60 * 1000000000 + 1;
  lease_expires_at = 120 * 1000000000 + 2;
}

abbrev smooth : ReservedExecution
smooth = record rough {
  trusted_params =
      ("scope", str "department") ∷ ("dept_ids", int64_slice (pos 7 ∷ pos 9 ∷ [])) ∷ [];
  started_at = 60 * 1000000000;
  lease_expires_at = 120 * 1000000000;
}

smoothed : canonical_reserved_execution some_length rough ≡ ok smooth
unfolding canonical_reserved_execution marshal_reserved_execution unmarshal_reserved_execution
    reserved_execution_to_v1 reserved_execution_from_v1 encode_params decode_params
    normalize_trusted_param encode_typed_value decode_typed_value format_workflow_time
    parse_execution_time validate_reserved_execution validate_params rune_length_within
    normalize_database_time trim_space trim_left trim_right is_space rune_count sorted_unique_int64s
smoothed = refl

canonical_reserved_execution_again_example :
    canonical_reserved_execution some_length smooth ≡ ok smooth
canonical_reserved_execution_again_example =
    canonical_reserved_execution_again some_length rough smooth smoothed
