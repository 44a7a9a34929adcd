-- ===== src/Agent/ExecutionGate/Examples.antt =====
-- A subscription of two departments: the request that is built, and its way through the resource gate.
use ding_ding_schedule.Agent.PolicyGate.{BusinessDomain-discrete}
use ding_ding_schedule.Prelude.{
  Bool, true, false, ◌≡◌, refl, String, some, List, [], ◌∷◌, trim_space,
}
use ding_ding_schedule.Prelude.Int.{pos, ltb_ℤ}
use ding_ding_schedule.Agent.Protocol.{
  Value, str, int64_slice, workflow_source, runtime, TrustedParam, TrustedEntities,
}
use ding_ding_schedule.Agent.Catalog.{lookup_operation}
use ding_ding_schedule.Agent.Catalog.Manifest.{OperationManifest}
use ding_ding_schedule.Agent.Workflow.Engine.{find_param, put_param}
use ding_ding_schedule.Agent.ExecutionGate.{
  OperationRequest, extract_param_string, extract_param_int64_slice, trusted_param_value,
}
use ding_ding_schedule.Agent.ExecutionGate.Resource.{
  DeptItem, ResourcePolicyGateInput, subscription_scope_valid,
  subscription_operation_requires_current_conversation,
}
use ding_ding_schedule.Agent.ExecutionGate.Resource
use ding_ding_schedule.Agent.ExecutionGate.Access.{Granted, resource_access}
use ding_ding_schedule.Agent.ExecutionGate.Requests.{build_operation_request}
use ding_ding_schedule.Agent.ExecutionGate.Trust.{Required, Holds, request_trusted}

abbrev any_date : String → Bool
any_date text = true

abbrev entities : TrustedEntities
entities = record {
  tenant_id = 1;
  department_id = pos 0;
  dept_ids = pos 5 ∷ pos 6 ∷ [];
  user_id = 0;
  user_name = "";
  date = "";
  section = pos 0;
  week = pos 0;
  conversation_id = "cid";
  scope = "department";
  query_shape = "";
  user_role = pos 1;
  trusted_params = [];
}

abbrev param : String → Value → String → TrustedParam
param field value resolver = record {
  field = field;
  value = value;
  source = record { kind = workflow_source; raw = ""; resolver = resolver };
  tenant_id = 1;
}

abbrev conversation : TrustedParam
conversation = record {
  field = "conversation_id";
  value = str "cid";
  source = record { kind = runtime; raw = ""; resolver = "conversation_runtime" };
  tenant_id = 1;
}

abbrev request : OperationRequest
request = record {
  operation = "subscription.start";
  tenant_id = 0;
  actor_user_id = 0;
  conversation_id = "";
  trusted_params =
      ("dept_ids", param "dept_ids" (int64_slice (pos 5 ∷ pos 6 ∷ [])) "department_resolver")
      ∷ ("scope", param "scope" (str "department") "subscription_scope")
      ∷ ("conversation_id", conversation)
      ∷ [];
  idempotency_key = "";
}

request_built : build_operation_request any_date entities "subscription.start" ≡ some request
unfolding build_operation_request lookup_operation trusted_param_value find_param
    subscription_scope_valid put_param
request_built = refl

abbrev input : ResourcePolicyGateInput
input = record {
  user = some (record {
    tenant_id = 1;
    user_id = 7;
    user_role = pos 1;
    conversation_type = "2";
    conversation_id = "cid";
  });
  request = request;
  dept = some (
      some (
        record { tenant_id = 1; dept_id = pos 5 }
        ∷ record { tenant_id = 1; dept_id = pos 6 }
        ∷ []));
}

request_allowed : (Resource.validate any_date input).allow ≡ true
unfolding Resource.validate lookup_operation trim_space find_param extract_param_string
    extract_param_int64_slice BusinessDomain-discrete
request_allowed = refl

request_trusted_example :
    (m : OperationManifest) × (fields : List String) × (lookup_operation "subscription.start"
      ≡ some m)
    × (m.is_write ≡ true → ltb_ℤ (pos 1) m.min_role ≡ false)
    × Required any_date entities m.query_shapes m.required_trusted_params fields
    × Holds any_date entities "subscription.start" fields request
request_trusted_example =
    request_trusted any_date entities "subscription.start" request request_built

resource_access_example :
    (m : OperationManifest) × (lookup_operation "subscription.start" ≡ some m)
    × Granted any_date input m
resource_access_example = resource_access any_date input request_allowed
