-- ===== src/Agent/ExecutionGate/WriteGuard.antt =====
-- internal/agent/execution_gate.go: the write guard and its idempotency keys. `digest` stands for the
-- first sixteen hexadecimal digits of SHA-256, `sprint` for fmt.Sprint. sort.Slice on numbers is
-- the insertion sort of the codec: its result does not depend on the algorithm.
pub mod Fields
pub mod Admission
pub mod Order
mod Examples
use Prim.Native.String.{◌++◌}
use ding_ding_schedule.Prelude.{
  ℕ, Bool, true, false, not, ◌&&◌, ◌||◌, ◌≡◌, refl, sym, ◌∙◌, ap, inl, inr, ◌⊎◌, String, Option,
  none, some, List, [], ◌∷◌, ◌==◌, arith, Bool-cases, Option-cases, if_true, if_false,
  if◌then◌else◌, str_eq, is_empty, trim_space,
}
use ding_ding_schedule.Prelude.Int.{ℤ}
use ding_ding_schedule.Agent.Protocol.{
  Value, uint, int64, int64_slice, ResponseKind, result, refuse, confirm,
}
use ding_ding_schedule.Agent.PolicyGate.{is_unset}
use ding_ding_schedule.Agent.Catalog.{lookup_operation}
use ding_ding_schedule.Agent.Catalog.Manifest.{
  RiskLevel, write_medium, write_high, OperationManifest,
}
use ding_ding_schedule.Agent.Workflow.Contract.{WorkflowSnapshot}
use ding_ding_schedule.Agent.Workflow.Codec.Ids.{sort}
use ding_ding_schedule.Agent.ExecutionGate.{
  OperationRequest, UserContext, extract_param_string, trusted_param_concrete_value,
}

pub record WriteGuardInput : Type 0 where
  pub user : Option UserContext
  pub manifest : OperationManifest
  pub request : OperationRequest
  pub workflow : Option WorkflowSnapshot
  pub confirmed : Bool

pub record WriteGuardResult : Type 0 where
  pub allow : Bool
  pub response_kind : ResponseKind
  pub blocked_reason : String
  pub idempotency_key : String

unfoldable pub write_requires_confirmation : RiskLevel → Bool
write_requires_confirmation write_medium = true
write_requires_confirmation write_high = true
write_requires_confirmation _ = false

unfoldable pub manifest_response_kind : OperationManifest → ResponseKind
manifest_response_kind m = if is_unset m.renderer.kind then result else m.renderer.kind

unfoldable pub write_guard_manifest : WriteGuardInput → Option OperationManifest
write_guard_manifest input =
    if is_empty input.manifest.name
    then lookup_operation input.request.operation
    else some input.manifest

unfoldable pub join_text : String → List String → String
join_text sep [] = ""
join_text sep (part ∷ []) = part
join_text sep (part ∷ next ∷ parts) = part ++ (sep ++ join_text sep (next ∷ parts))

abbrev pub filled_text : String → Option String
filled_text text = if is_empty text then none else some text

abbrev pub or_else : Option String → Option String → Option String
or_else none later = later
or_else (some text) later = some text

abbrev pub or_none : Option String → Option String
or_none none = some "none"
or_none (some text) = some text

module _ (digest : String → String) (sprint : Value → String) (valid_date : String → Bool) where
  abbrev pub prints : List ℤ → List String
  prints [] = []
  prints (x ∷ xs) = sprint (int64 x) ∷ prints xs

  unfoldable pub canonical_idempotency_value : Value → String
  unfolding sort join_text
  canonical_idempotency_value (int64_slice xs) = join_text "," (prints (sort xs))
  canonical_idempotency_value value = sprint value

  abbrev pub number_text : ℕ → Option String
  number_text n = if n == 0 then none else some (sprint (uint n))

  abbrev pub user_text : (UserContext → Option String) → Option UserContext → Option String
  user_text read none = none
  user_text read (some u) = read u

  abbrev pub workflow_text : Option WorkflowSnapshot → Option String
  workflow_text none = none
  workflow_text (some w) = filled_text (trim_space w.id)

  abbrev pub value_text : Option Value → Option String
  value_text none = none
  value_text (some value) = some (canonical_idempotency_value value)

  unfoldable pub idempotency_field_value : String → WriteGuardInput → Option String
  unfolding canonical_idempotency_value
  idempotency_field_value field input =
      let value =
        value_text (trusted_param_concrete_value valid_date input.request.trusted_params field) in
      if str_eq field "tenant_id"
      then or_else (number_text input.request.tenant_id)
          (user_text (λ u. number_text u.tenant_id) input.user)
      else if str_eq field "actor_user_id"
      then or_else (number_text input.request.actor_user_id)
          (user_text (λ u. number_text u.user_id) input.user)
      else if str_eq field "conversation_id"
      then or_else (filled_text (trim_space input.request.conversation_id)) (
          or_else (extract_param_string valid_date input.request.trusted_params "conversation_id")
            (user_text (λ u. filled_text (trim_space u.conversation_id)) input.user))
      else if str_eq field "operation"
      then filled_text (trim_space input.request.operation)
      else if str_eq field "workflow_id"
      then workflow_text input.workflow
      else if str_eq field "dept_ids"
      then or_none value
      else value

  abbrev pub named_part : String → Option String → Option (List String) → Option (List String)
  named_part field none later = none
  named_part field (some value) none = none
  named_part field (some value) (some parts) = some ((field ++ ("=" ++ value)) ∷ parts)

  -- the loop over the fields
  unfoldable pub key_parts : List String → WriteGuardInput → Option (List String)
  unfolding idempotency_field_value
  key_parts [] input = some []
  key_parts (field ∷ fields) input =
      named_part field (idempotency_field_value field input) (key_parts fields input)

  abbrev pub key_from : OperationManifest → Option (List String) → String
  key_from m none = ""
  key_from m (some parts) = m.name ++ (":" ++ digest (join_text "|" parts))

  abbrev pub key_of : OperationManifest → List String → WriteGuardInput → String
  key_of m [] input = ""
  key_of m (field ∷ fields) input = key_from m (key_parts (field ∷ fields) input)

  unfoldable pub build_idempotency_key : OperationManifest → WriteGuardInput → String
  unfolding key_parts join_text
  build_idempotency_key m input = key_of m m.idempotency.key_fields input

  abbrev pub refused : String → WriteGuardResult
  refused reason = record {
    allow = false;
    response_kind = refuse;
    blocked_reason = reason;
    idempotency_key = "";
  }

  abbrev pub keyed : OperationManifest → String → WriteGuardResult
  keyed m key = if is_empty key then refused "idempotency_key_missing" else record {
    allow = true;
    response_kind = manifest_response_kind m;
    blocked_reason = "";
    idempotency_key = key;
  }

  abbrev pub checked : WriteGuardInput → Option OperationManifest → WriteGuardResult
  checked input none = refused "operation_not_allowed"
  checked input (some m) =
      if not m.is_write
      then record {
        allow = true;
        response_kind = manifest_response_kind m;
        blocked_reason = "";
        idempotency_key = "";
      }
      else if write_requires_confirmation m.risk && not input.confirmed
      then record {
        allow = false;
        response_kind = confirm;
        blocked_reason = "write_confirmation_required";
        idempotency_key = build_idempotency_key m input;
      }
      else keyed m (build_idempotency_key m input)

  unfoldable pub check : WriteGuardInput → WriteGuardResult
  unfolding write_guard_manifest build_idempotency_key write_requires_confirmation
      manifest_response_kind
  check input = checked input (write_guard_manifest input)
