-- ===== src/Agent/Workflow/Codec.antt =====
-- internal/agent/workflow_snapshot_codec.go: the persisted form of a reserved execution.
-- The form is the V1 structure. Of its JSON text the code reads only the length, which `json_length`
-- stands for: encoding/json writes a text that it reads back as the same structure.
-- A time is written in the nanosecond form of RFC 3339: the zero time as "", which is `none`.
pub mod Ids
pub mod IdOrder
pub mod Canonical
mod Examples
use ding_ding_schedule.Prelude.{
  ℕ, ◌*◌, Bool, true, false, not, ◌&&◌, ◌||◌, String, Option, none, some, List, [], ◌∷◌, ◌==◌, leb,
  ltb, if◌then◌else◌, is_empty, trim_space, length, any, str_eq,
}
use ding_ding_schedule.Prelude.Int.{ℤ, pos, negsuc, leb_ℤ, ltb_ℤ}
use ding_ding_schedule.Agent.Protocol.{Value, str, int, int64, uint, int64_slice, bool, other_value}
use ding_ding_schedule.Agent.Workflow.Contract.{Time}
use ding_ding_schedule.Agent.Workflow.Errors.{
  Result, ok, err, ◌>>=◌, ◌>>◌, guard, not_normalized, operation_unsupported, identifier_too_long,
  too_many_params, param_invalid, value_unsupported, value_too_long, payload_too_large,
  time_required, time_invalid, schema_unsupported,
}
use ding_ding_schedule.Agent.Workflow.Execution.{
  TrustedParams, ReservedExecution, rune_length_within, execution_max_projection_runes,
  validate_reserved_execution, normalize_database_time,
}
use Ids.{sorted_unique_int64s}

pub data TypedKind : Type 0 where
  string_kind int_kind int64_kind uint_kind int64_slice_kind bool_kind : TypedKind

pub data Json : Type 0 where
  null : Json
  text : String → Json
  number : ℤ → Json
  numbers : List ℤ → Json
  boolean : Bool → Json

pub record PersistedTypedValue : Type 0 where
  pub kind : TypedKind
  pub value : Json

pub record PersistedReservedExecution : Type 0 where
  pub schema_version : ℕ
  pub operation : String
  pub business_key : String
  pub trusted_params : List (String × PersistedTypedValue)
  pub execution_token : String
  pub attempt_request_id : String
  pub started_at : Option Time
  pub lease_expires_at : Option Time

abbrev pub max_bytes : ℕ
max_bytes = 64 * 1024

abbrev pub max_typed_string_runes : ℕ
max_typed_string_runes = 4096

abbrev pub max_int64_slice_items : ℕ
max_int64_slice_items = 256

abbrev pub max_conversation_runes : ℕ
max_conversation_runes = 128

abbrev pub max_label_runes : ℕ
max_label_runes = 256

abbrev pub execution_max_trusted_params : ℕ
execution_max_trusted_params = 6

abbrev pub execution_schema_version : ℕ
execution_schema_version = 1

unfoldable pub encode_typed_value : Value → Result PersistedTypedValue
encode_typed_value (str s) =
    guard (rune_length_within s max_typed_string_runes) value_too_long
    >> ok (record { kind = string_kind; value = text s })
encode_typed_value (int n) = ok (record { kind = int_kind; value = number n })
encode_typed_value (int64 n) = ok (record { kind = int64_kind; value = number n })
encode_typed_value (uint n) = ok (record { kind = uint_kind; value = number (pos n) })
encode_typed_value (int64_slice ns) =
    guard (leb (length ns) max_int64_slice_items) value_too_long
    >> ok (record { kind = int64_slice_kind; value = numbers ns })
encode_typed_value (bool b) = ok (record { kind = bool_kind; value = boolean b })
encode_typed_value (other_value t) = err value_unsupported

-- the `switch` of `decodePersistedTypedValue`, and the errors of json.Unmarshal; `int` has 64 bits
unfoldable pub decode_typed : TypedKind → Json → Result Value
decode_typed string_kind (text s) =
    guard (rune_length_within s max_typed_string_runes) value_too_long >> ok (str s)
decode_typed int_kind (number n) = ok (int n)
decode_typed int64_kind (number n) = ok (int64 n)
decode_typed uint_kind (number (pos n)) = ok (uint n)
decode_typed int64_slice_kind (numbers ns) =
    guard (leb (length ns) max_int64_slice_items) value_too_long >> ok (int64_slice ns)
decode_typed bool_kind (boolean b) = ok (bool b)
decode_typed _ _ = err value_unsupported

unfoldable pub decode_typed_value : PersistedTypedValue → Result Value
unfolding decode_typed
decode_typed_value v = decode_typed v.kind v.value

abbrev pub normalize_str : (String → Bool) → Value → Result Value
normalize_str valid (str s) = guard (valid s) param_invalid >> ok (str s)
normalize_str valid _ = err param_invalid

abbrev pub normalize_ids : Value → Result Value
normalize_ids (int64_slice ids) =
    guard (leb (length ids) max_int64_slice_items) param_invalid
    >> (guard (not (any (λ i. leb_ℤ i (pos 0)) ids)) param_invalid
        >> ok (int64_slice (sorted_unique_int64s ids)))
normalize_ids _ = err param_invalid

abbrev pub normalize_role : Value → Result Value
normalize_role (int role) = guard (not (ltb_ℤ role (pos 0))) param_invalid >> ok (int role)
normalize_role _ = err param_invalid

abbrev pub valid_conversation_id : String → Bool
valid_conversation_id s =
    not (is_empty s) && str_eq s (trim_space s) && rune_length_within s max_conversation_runes

-- `normalizeExecutionTrustedParam`
unfoldable pub normalize_trusted_param : String → Value → Result Value
normalize_trusted_param key v =
    if str_eq key "conversation_id"
    then normalize_str valid_conversation_id v
    else if str_eq key "scope"
    then normalize_str (λ s. str_eq s "all" || str_eq s "department") v
    else if str_eq key "dept_ids"
    then normalize_ids v
    else if str_eq key "actor_role"
    then normalize_role v
    else if str_eq key "conversation_type"
    then normalize_str (λ s. str_eq s "2") v
    else if str_eq key "conversation_title"
    then normalize_str (λ s. rune_length_within s max_label_runes) v
    else err param_invalid

-- the two loops over the parameters
unfoldable pub encode_params : TrustedParams → Result (List (String × PersistedTypedValue))
encode_params [] = ok []
encode_params ((key, value) ∷ rest) = do
  normalized ← normalize_trusted_param key value
  encoded ← encode_typed_value normalized
  more ← encode_params rest
  ok ((key, encoded) ∷ more)

unfoldable pub decode_params : List (String × PersistedTypedValue) → Result TrustedParams
decode_params [] = ok []
decode_params ((key, encoded) ∷ rest) = do
  value ← decode_typed_value encoded
  normalized ← normalize_trusted_param key value
  more ← decode_params rest
  ok ((key, normalized) ∷ more)

unfoldable pub format_workflow_time : Time → Option Time
format_workflow_time t = if t == 0 then none else some t

-- the first nanosecond of the year 10000, which RFC 3339 cannot write with four digits
abbrev pub year_10000 : Time
year_10000 = 315537897600 * 1000000000

unfoldable pub parse_execution_time : Option Time → Result Time
parse_execution_time none = err time_required
parse_execution_time (some t) = guard (ltb t year_10000) time_invalid >> ok t

abbrev pub normalized : String → Bool
normalized s = str_eq s (trim_space s)

abbrev pub supported_operation : String → Bool
supported_operation s = str_eq s "subscription.start" || str_eq s "subscription.cancel"

abbrev pub identifiers_normalized : ReservedExecution → Bool
identifiers_normalized r =
    normalized r.operation
    && normalized r.business_key
    && normalized r.execution_token
    && normalized r.attempt_request_id

abbrev pub identifiers_within : ReservedExecution → Bool
identifiers_within r =
    rune_length_within r.operation execution_max_projection_runes
    && rune_length_within r.business_key execution_max_projection_runes
    && rune_length_within r.execution_token execution_max_projection_runes
    && rune_length_within r.attempt_request_id execution_max_projection_runes

abbrev pub persisted :
    ReservedExecution → List (String × PersistedTypedValue) → PersistedReservedExecution
persisted r params = record {
  schema_version = execution_schema_version;
  operation = r.operation;
  business_key = r.business_key;
  trusted_params = params;
  execution_token = r.execution_token;
  attempt_request_id = r.attempt_request_id;
  started_at = format_workflow_time (normalize_database_time r.started_at);
  lease_expires_at = format_workflow_time (normalize_database_time r.lease_expires_at);
}

unfoldable pub reserved_execution_to_v1 : ReservedExecution → Result PersistedReservedExecution
reserved_execution_to_v1 r = do
  validate_reserved_execution r
  guard (identifiers_normalized r) not_normalized
  guard (supported_operation r.operation) operation_unsupported
  guard (identifiers_within r) identifier_too_long
  guard (leb (length r.trusted_params) execution_max_trusted_params) too_many_params
  params ← encode_params r.trusted_params
  ok (persisted r params)

abbrev pub restored : PersistedReservedExecution → Time → Time → TrustedParams → ReservedExecution
restored dto started lease params = record {
  operation = dto.operation;
  business_key = dto.business_key;
  trusted_params = params;
  execution_token = dto.execution_token;
  attempt_request_id = dto.attempt_request_id;
  started_at = started;
  lease_expires_at = lease;
}

unfoldable pub reserved_execution_from_v1 : PersistedReservedExecution → Result ReservedExecution
reserved_execution_from_v1 dto = do
  started ← parse_execution_time dto.started_at
  lease ← parse_execution_time dto.lease_expires_at
  params ← decode_params dto.trusted_params
  _ ← reserved_execution_to_v1 (restored dto started lease params)
  ok (restored dto started lease params)

module _ (json_length : PersistedReservedExecution → ℕ) where
  unfoldable pub marshal_reserved_execution : ReservedExecution → Result PersistedReservedExecution
  marshal_reserved_execution r = do
    dto ← reserved_execution_to_v1 r
    guard (leb (json_length dto) max_bytes) payload_too_large
    ok dto

  unfoldable pub unmarshal_reserved_execution :
      PersistedReservedExecution → Result ReservedExecution
  unmarshal_reserved_execution dto = do
    guard (leb (json_length dto) max_bytes) payload_too_large
    guard (dto.schema_version == execution_schema_version) schema_unsupported
    reserved_execution_from_v1 dto

  unfoldable pub canonical_reserved_execution : ReservedExecution → Result ReservedExecution
  canonical_reserved_execution r = do
    payload ← marshal_reserved_execution r
    unmarshal_reserved_execution payload
