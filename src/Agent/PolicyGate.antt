-- ===== src/Agent/PolicyGate.antt =====
-- internal/agent/policy_gate.go: the gate that an untrusted intent draft passes before anything runs.
pub mod Laws
pub mod Interruption
mod Examples
use ding_ding_schedule.Prelude.{
  ◌≡◌, Bool, true, false, not, ◌&&◌, ◌||◌, String, Option, none, some, List, [], ◌∷◌, if◌then◌else◌,
  str_eq, trim_space, any, String-discrete, decided,
}
use ding_ding_schedule.Prelude.Int.{ℤ, ltb_ℤ}
use ding_ding_schedule.Agent.Protocol.{
  UserAct, capability_question, rule_question, read_query, write_request, workflow_continue,
  workflow_cancel, help, unknown_act, other_act, BusinessDomain, ResponseKind, result, clarify,
  refuse, no_response, IntentDraft, low_confidence,
}
use ding_ding_schedule.Agent.Workflow.Contract.{WorkflowState, WorkflowType, Candidate}
use ding_ding_schedule.Agent.Catalog.{lookup_operation}
use ding_ding_schedule.Agent.Catalog.Manifest.{
  OperationManifest, WorkflowSpec, CapabilityBinding, ConversationScope, no_scope, both, dm, group,
}

-- `ValidationCode`, one constructor for each text
pub data ValidationCode : Type 0 where
  no_code unknown_intent workflow_missing workflow_cancel_non_executable operation_not_allowed :
      ValidationCode
  domain_operation_mismatch read_query_cannot_write write_request_cannot_read : ValidationCode
  act_operation_mismatch capability_non_executable rule_non_executable : ValidationCode
  help_non_executable allowed_read_query low_confidence_write allowed_write_request : ValidationCode
  unsupported_act workflow_operation_mismatch workflow_continue_allowed : ValidationCode
  conversation_scope_denied role_denied : ValidationCode

pub record ProtocolValidationResult : Type 0 where
  pub allow_execution : Bool
  pub validation_code : ValidationCode
  pub use_active_workflow : Bool
  pub interrupt_active_workflow : Bool
  pub response_kind : ResponseKind

pub record ProtocolWorkflowContext : Type 0 where
  pub type : String
  pub state : WorkflowState
  pub missing_fields : List String
  pub candidates : List (String × List Candidate)
  pub collected_labels : List (String × String)

pub record PrePolicyGateInput : Type 0 where
  pub draft : IntentDraft
  pub active_workflow : Option ProtocolWorkflowContext
  pub conversation_type : String
  pub user_role : ℤ
  pub has_user_context : Bool

unfoldable pub UserAct-discrete : Discrete UserAct
UserAct-discrete = hlevel String-discrete

unfoldable pub BusinessDomain-discrete : Discrete BusinessDomain
BusinessDomain-discrete = hlevel String-discrete

abbrev pub act_eq : UserAct → UserAct → Bool
act_eq a b = decided (UserAct-discrete a b)

abbrev pub domain_eq : BusinessDomain → BusinessDomain → Bool
domain_eq a b = decided (BusinessDomain-discrete a b)

abbrev pub refusal : ValidationCode → Bool → ResponseKind → ProtocolValidationResult
refusal code interrupt kind = record {
  allow_execution = false;
  validation_code = code;
  use_active_workflow = false;
  interrupt_active_workflow = interrupt;
  response_kind = kind;
}

-- answers that keep the active workflow
abbrev pub within_workflow : Bool → ValidationCode → ResponseKind → ProtocolValidationResult
within_workflow allow code kind = record {
  allow_execution = allow;
  validation_code = code;
  use_active_workflow = true;
  interrupt_active_workflow = false;
  response_kind = kind;
}

abbrev pub allowance : ValidationCode → Bool → ResponseKind → ProtocolValidationResult
allowance code interrupt kind = record {
  allow_execution = true;
  validation_code = code;
  use_active_workflow = false;
  interrupt_active_workflow = interrupt;
  response_kind = kind;
}

abbrev pub is_unset : ResponseKind → Bool
is_unset no_response = true
is_unset _ = false

unfoldable pub catalog_response_kind : OperationManifest → ResponseKind → ResponseKind
catalog_response_kind m fallback = if is_unset m.renderer.kind then fallback else m.renderer.kind

unfoldable pub policy_explicit_new_request : UserAct → Bool
policy_explicit_new_request help = true
policy_explicit_new_request capability_question = true
policy_explicit_new_request rule_question = true
policy_explicit_new_request read_query = true
policy_explicit_new_request write_request = true
policy_explicit_new_request _ = false

abbrev is_some : {A : Type 0} → Option A → Bool
is_some none = false
is_some (some a) = true

abbrev has_auxiliary : String → Option WorkflowSpec → Bool
has_auxiliary operation none = false
has_auxiliary operation (some w) = any (λ a. str_eq a operation) w.auxiliary_operations

abbrev manifest_has_auxiliary : String → Option OperationManifest → Bool
manifest_has_auxiliary operation none = false
manifest_has_auxiliary operation (some m) = has_auxiliary operation m.workflow

unfoldable pub workflow_allows_auxiliary_operation : WorkflowType → String → Bool
workflow_allows_auxiliary_operation type operation =
    manifest_has_auxiliary operation (lookup_operation type)

unfoldable pub has_missing_field : List String → String → Bool
has_missing_field fields target = any (λ f. str_eq f target) fields

unfoldable pub workflow_param_missing_aliases : String → List String
workflow_param_missing_aliases param = if str_eq param "dept_ids" then "dept_names" ∷ [] else []

unfoldable pub workflow_has_missing_param : List String → String → Bool
unfolding has_missing_field workflow_param_missing_aliases
workflow_has_missing_param fields param =
    has_missing_field fields param
    || any (λ a. has_missing_field fields a) (workflow_param_missing_aliases param)

unfoldable pub act_allowed : UserAct → List UserAct → Bool
act_allowed act allowed = any (λ a. act_eq act a) allowed

unfoldable pub conversation_scope_allowed : ConversationScope → String → Bool
conversation_scope_allowed both type = true
conversation_scope_allowed no_scope type = true
conversation_scope_allowed group type = str_eq (trim_space type) "2"
conversation_scope_allowed dm type = not (str_eq (trim_space type) "2")

-- `none`: not denied
unfoldable pub enforce_pre_user_policy :
    PrePolicyGateInput → OperationManifest → Bool → Option ProtocolValidationResult
enforce_pre_user_policy i m interrupt =
    if not i.has_user_context
    then none
    else if not (conversation_scope_allowed m.scope i.conversation_type)
    then some (refusal conversation_scope_denied interrupt refuse)
    else if ltb_ℤ i.user_role m.min_role
    then some (refusal role_denied interrupt refuse)
    else none

unfoldable pub workflow_continue_targets_active_workflow : String → WorkflowType → Bool
unfolding workflow_allows_auxiliary_operation
workflow_continue_targets_active_workflow operation type =
    str_eq operation type || workflow_allows_auxiliary_operation type operation

abbrev misses_required : List String → Option WorkflowSpec → Bool
misses_required fields none = false
misses_required fields (some w) =
    any (λ p. workflow_has_missing_param fields p) w.required_trusted_params

abbrev manifest_misses_required : List String → Option OperationManifest → Bool
manifest_misses_required fields none = false
manifest_misses_required fields (some m) = misses_required fields m.workflow

unfoldable pub workflow_continue_shape_allowed : String → ProtocolWorkflowContext → Bool
unfolding workflow_has_missing_param workflow_allows_auxiliary_operation
workflow_continue_shape_allowed operation w =
    workflow_allows_auxiliary_operation w.type operation
    || (str_eq operation w.type
        && manifest_misses_required w.missing_fields (lookup_operation w.type))

abbrev kept_workflow :
    Option ProtocolValidationResult → ProtocolValidationResult → ProtocolValidationResult
kept_workflow none allowed = allowed
kept_workflow (some denied) allowed = record denied { use_active_workflow = true }

abbrev denied_or :
    Option ProtocolValidationResult → ProtocolValidationResult → ProtocolValidationResult
denied_or none allowed = allowed
denied_or (some denied) allowed = denied

-- `validateWorkflowContinue` from the lookup on
continue_operation :
    PrePolicyGateInput
    → ProtocolWorkflowContext
    → Option OperationManifest
    → ProtocolValidationResult
unfolding workflow_continue_shape_allowed enforce_pre_user_policy catalog_response_kind
continue_operation i w none = within_workflow false operation_not_allowed refuse
continue_operation i w (some m) =
    if not (domain_eq i.draft.domain m.domain)
    then within_workflow false domain_operation_mismatch refuse
    else if not (workflow_continue_shape_allowed i.draft.operation w)
    then within_workflow false workflow_operation_mismatch refuse
    else kept_workflow (enforce_pre_user_policy i m false)
        (within_workflow true workflow_continue_allowed (catalog_response_kind m result))

continue_workflow : PrePolicyGateInput → Option ProtocolWorkflowContext → ProtocolValidationResult
unfolding continue_operation workflow_continue_targets_active_workflow
continue_workflow i none = refusal workflow_missing false clarify
continue_workflow i (some w) =
    if not (workflow_continue_targets_active_workflow i.draft.operation w.type)
    then within_workflow false workflow_operation_mismatch refuse
    else continue_operation i w (lookup_operation i.draft.operation)

unfoldable pub validate_workflow_continue : PrePolicyGateInput → ProtocolValidationResult
unfolding continue_workflow
validate_workflow_continue i = continue_workflow i i.active_workflow

-- the last `switch` of the gate, for an act that the operation allows
decide_act : PrePolicyGateInput → OperationManifest → Bool → UserAct → ProtocolValidationResult
unfolding enforce_pre_user_policy catalog_response_kind
decide_act i m interrupt capability_question = denied_or (enforce_pre_user_policy i m interrupt) (
    if is_some m.capability
    then refusal capability_non_executable interrupt (catalog_response_kind m result)
    else refusal act_operation_mismatch false refuse)
decide_act i m interrupt rule_question =
    denied_or (enforce_pre_user_policy i m interrupt)
      (refusal rule_non_executable interrupt (catalog_response_kind m result))
decide_act i m interrupt help = denied_or (enforce_pre_user_policy i m interrupt) (
    if is_some m.capability && domain_eq m.domain BusinessDomain.system
    then refusal help_non_executable interrupt (catalog_response_kind m result)
    else refusal act_operation_mismatch false refuse)
decide_act i m interrupt read_query =
    denied_or (enforce_pre_user_policy i m interrupt)
      (allowance allowed_read_query interrupt (catalog_response_kind m result))
decide_act i m interrupt write_request =
    if low_confidence i.draft.confidence
    then refusal low_confidence_write false clarify
    else denied_or (enforce_pre_user_policy i m interrupt)
        (allowance allowed_write_request interrupt (catalog_response_kind m result))
decide_act i m interrupt _ = refusal unsupported_act false refuse

-- the checks of a draft against its manifest, in the order of the source
catalog_mismatch : UserAct → BusinessDomain → OperationManifest → Option ValidationCode
unfolding act_allowed
catalog_mismatch act domain m =
    if not (domain_eq domain m.domain)
    then some domain_operation_mismatch
    else if act_eq act read_query && m.is_write
    then some read_query_cannot_write
    else if act_eq act write_request && not m.is_write
    then some write_request_cannot_read
    else if not (act_allowed act m.allowed_acts)
    then some act_operation_mismatch
    else none

abbrev refused_or :
    Option ValidationCode → Bool → ProtocolValidationResult → ProtocolValidationResult
refused_or none interrupt r = r
refused_or (some code) interrupt r = refusal code interrupt refuse

-- the gate from the lookup on
decide_operation : PrePolicyGateInput → Bool → Option OperationManifest → ProtocolValidationResult
unfolding decide_act catalog_mismatch
decide_operation i interrupt none =
    refusal operation_not_allowed
      (if act_eq i.draft.act write_request && low_confidence i.draft.confidence
        then false
        else interrupt)
      refuse
decide_operation i interrupt (some m) =
    refused_or (catalog_mismatch i.draft.act i.draft.domain m) interrupt
      (decide_act i m interrupt i.draft.act)

cancel_workflow : Option ProtocolWorkflowContext → ProtocolValidationResult
cancel_workflow none = refusal workflow_missing false clarify
cancel_workflow (some w) = within_workflow false workflow_cancel_non_executable result

validate_act : PrePolicyGateInput → UserAct → ProtocolValidationResult
unfolding validate_workflow_continue cancel_workflow decide_operation policy_explicit_new_request
validate_act i unknown_act = refusal unknown_intent false clarify
validate_act i workflow_continue = validate_workflow_continue i
validate_act i workflow_cancel = cancel_workflow i.active_workflow
validate_act i act =
    decide_operation i (is_some i.active_workflow && policy_explicit_new_request act)
      (lookup_operation i.draft.operation)

-- `prePolicyGate.Validate`
unfoldable pub validate : PrePolicyGateInput → ProtocolValidationResult
unfolding validate_act
validate i = validate_act i i.draft.act
