-- ===== src/Agent/ExecutionGate/Resource.antt =====
-- internal/agent/policy_gate.go: the resource policy gate, which a request passes before it runs.
-- The port of the departments is a parameter: not there, or an error, or its list.
use ding_ding_schedule.Prelude.{
  ℕ, Bool, true, false, not, ◌&&◌, ◌||◌, String, Option, none, some, List, [], ◌∷◌, ◌==◌, any,
  if◌then◌else◌, str_eq, is_empty, trim_space,
}
use ding_ding_schedule.Prelude.Int.{ℤ, pos, leb_ℤ, eq_ℤ}
use ding_ding_schedule.Agent.Protocol.{
  subscription, ResponseKind, result, refuse, no_response, Value, str, int64_slice, SourceKind,
  candidate_source, TrustedParam,
}
use ding_ding_schedule.Agent.PolicyGate.{domain_eq}
use ding_ding_schedule.Agent.Catalog.{lookup_operation}
use ding_ding_schedule.Agent.Catalog.Manifest.{OperationManifest}
use ding_ding_schedule.Agent.Workflow.Engine.{Params, find_param}
use ding_ding_schedule.Agent.ExecutionGate.{
  OperationRequest, UserContext, extract_param_string, extract_param_uint,
  extract_param_int64_slice,
}

-- the fields of `tools.DeptItem` that are read
pub record DeptItem : Type 0 where
  pub tenant_id : ℕ
  pub dept_id : ℤ

pub record ResourcePolicyGateInput : Type 0 where
  pub user : Option UserContext
  pub request : OperationRequest
  pub dept : Option (Option (List DeptItem))

pub record ResourcePolicyGateResult : Type 0 where
  pub allow : Bool
  pub blocked_reason : String
  pub response_kind : ResponseKind

unfoldable pub deny_resource_policy : String → ResourcePolicyGateResult
deny_resource_policy reason = record {
  allow = false;
  blocked_reason = reason;
  response_kind = refuse;
}

abbrev pub zero_result : ResourcePolicyGateResult
zero_result = record { allow = false; blocked_reason = ""; response_kind = no_response }

abbrev pub group_conversation : Option UserContext → Bool
group_conversation none = false
group_conversation (some u) = str_eq (trim_space u.conversation_type) "2"

abbrev pub is_candidate : SourceKind → Bool
is_candidate candidate_source = true
is_candidate _ = false

abbrev pub own_candidate : Option UserContext → TrustedParam → Bool
own_candidate none p = not (p.tenant_id == 0)
own_candidate (some u) p =
    if u.tenant_id == 0 then not (p.tenant_id == 0) else p.tenant_id == u.tenant_id

unfoldable pub candidate_dept_param_allowed : Option UserContext → Option TrustedParam → Bool
candidate_dept_param_allowed user none = false
candidate_dept_param_allowed user (some p) = is_candidate p.source.kind && own_candidate user p

-- the loop that collects the departments of the tenant
abbrev pub foreign : Option UserContext → DeptItem → Bool
foreign none d = false
foreign (some u) d =
    not (u.tenant_id == 0) && not (d.tenant_id == 0) && not (d.tenant_id == u.tenant_id)

abbrev pub listed : Option UserContext → List DeptItem → ℤ → Bool
listed user depts i = any (λ d. not (foreign user d) && eq_ℤ d.dept_id i) depts

abbrev pub all_listed : Option UserContext → List DeptItem → List ℤ → Bool
all_listed user depts [] = true
all_listed user depts (i ∷ ids) = listed user depts i && all_listed user depts ids

abbrev pub check_listed :
    Option UserContext → Option (List DeptItem) → List ℤ → ResourcePolicyGateResult
check_listed user none ids = deny_resource_policy "department_scope_unverified"
check_listed user (some depts) ids =
    if all_listed user depts ids
    then zero_result
    else deny_resource_policy "department_scope_denied"

unfoldable pub request_conversation : Option String → String → String
request_conversation none fallback = trim_space fallback
request_conversation (some conversation) fallback = conversation

unfoldable pub requires_conversation : Option OperationManifest → Bool
requires_conversation none = false
requires_conversation (some m) =
    domain_eq m.domain subscription
    && any (λ name. str_eq name "conversation_id") m.required_trusted_params

unfoldable pub subscription_operation_requires_current_conversation : String → Bool
unfolding requires_conversation
subscription_operation_requires_current_conversation operation =
    requires_conversation (lookup_operation operation)

abbrev pub department_scope : Option String → Bool
department_scope none = false
department_scope (some scope) = str_eq scope "department"

abbrev pub text_value : Value → Option String
text_value (str s) = some s
text_value _ = none

abbrev pub departments_value : Value → Bool
departments_value (int64_slice (d ∷ ds)) = true
departments_value _ = false

abbrev pub value_text : Option TrustedParam → Option String
value_text none = none
value_text (some p) = text_value p.value

abbrev pub has_departments : Option TrustedParam → Bool
has_departments none = false
has_departments (some p) = departments_value p.value

abbrev pub scope_complete : Option String → Params → Bool
scope_complete none params = false
scope_complete (some scope) params =
    if str_eq scope "all"
    then true
    else if str_eq scope "department"
    then has_departments (find_param "dept_ids" params)
    else false

-- of execution_gate.go
unfoldable pub subscription_scope_valid : String → Params → Bool
subscription_scope_valid operation params =
    if str_eq operation "subscription.start"
    then scope_complete (value_text (find_param "scope" params)) params
    else true

module _ (valid_date : String → Bool) where
  unfoldable pub request_conversation_matches_user : Option UserContext → OperationRequest → Bool
  unfolding request_conversation
  request_conversation_matches_user none req = false
  request_conversation_matches_user (some u) req =
      let conversation =
        request_conversation (extract_param_string valid_date req.trusted_params "conversation_id")
          req.conversation_id in
      not (is_empty conversation) && str_eq conversation (trim_space u.conversation_id)

  abbrev pub visible_to : UserContext → Option ℕ → Bool
  visible_to u none = false
  visible_to u (some target) = target == u.user_id || leb_ℤ (pos 1) u.user_role

  unfoldable pub schedule_user_visible : Option UserContext → Params → Bool
  schedule_user_visible none params = false
  schedule_user_visible (some u) params =
      visible_to u (extract_param_uint valid_date params "user_id")

  abbrev pub departments_allowed :
      ResourcePolicyGateInput → Option (List DeptItem) → Option (List ℤ) → ResourcePolicyGateResult
  departments_allowed input depts none = deny_resource_policy "department_scope_denied"
  departments_allowed input depts (some ids) =
      if candidate_dept_param_allowed input.user
        (find_param "dept_ids" input.request.trusted_params)
      then zero_result
      else check_listed input.user depts ids

  abbrev pub scope_checked :
      ResourcePolicyGateInput → Option (Option (List DeptItem)) → ResourcePolicyGateResult
  scope_checked input none = zero_result
  scope_checked input (some depts) =
      if department_scope (extract_param_string valid_date input.request.trusted_params "scope")
      then departments_allowed input depts
          (extract_param_int64_slice valid_date input.request.trusted_params "dept_ids")
      else zero_result

  unfoldable pub validate_department_scope : ResourcePolicyGateInput → ResourcePolicyGateResult
  unfolding candidate_dept_param_allowed deny_resource_policy
  validate_department_scope input = scope_checked input input.dept

  -- the loop over the policies: the first denial, or `none`
  unfoldable pub denied_by : ResourcePolicyGateInput → List String → Option ResourcePolicyGateResult
  unfolding validate_department_scope subscription_scope_valid schedule_user_visible
  denied_by input [] = none
  denied_by input (policy ∷ policies) =
      let later = denied_by input policies in
      if str_eq policy "group_conversation"
      then (if group_conversation input.user
          then later
          else some (deny_resource_policy "group_chat_required"))
      else if str_eq policy "subscription_scope"
      then (if not (subscription_scope_valid input.request.operation input.request.trusted_params)
          then some (deny_resource_policy "subscription_scope_invalid")
          else if is_empty (validate_department_scope input).blocked_reason
          then later
          else some (validate_department_scope input))
      else if str_eq policy "schedule_user_visibility"
      then (if schedule_user_visible input.user input.request.trusted_params
          then later
          else some (deny_resource_policy "schedule_user_visibility_denied"))
      else later

  abbrev pub after_policies :
      ResourcePolicyGateInput → Option ResourcePolicyGateResult → ResourcePolicyGateResult
  after_policies input (some denied) = denied
  after_policies input none =
      if subscription_operation_requires_current_conversation input.request.operation
        && not (request_conversation_matches_user input.user input.request)
      then deny_resource_policy "subscription_conversation_mismatch"
      else record { allow = true; blocked_reason = ""; response_kind = result }

  abbrev pub validated :
      ResourcePolicyGateInput → Option OperationManifest → ResourcePolicyGateResult
  validated input none = deny_resource_policy "operation_not_allowed"
  validated input (some m) = after_policies input (denied_by input m.policies)

  unfoldable pub validate : ResourcePolicyGateInput → ResourcePolicyGateResult
  unfolding denied_by subscription_operation_requires_current_conversation
      request_conversation_matches_user deny_resource_policy
  validate input = validated input (lookup_operation input.request.operation)
