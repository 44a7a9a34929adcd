-- ===== src/Agent/ExecutionGate/Requests.antt =====
-- internal/agent/execution_gate.go: the request that is built from trusted entities, with its query shape and parameters.
use ding_ding_schedule.Prelude.{
  Bool, true, false, not, ◌&&◌, String, Option, none, some, List, [], ◌∷◌, keep_if, if◌then◌else◌,
  str_eq, is_empty,
}
use ding_ding_schedule.Prelude.Int.{ltb_ℤ}
use ding_ding_schedule.Agent.Protocol.{str, derived, TrustedParam, TrustedEntities}
use ding_ding_schedule.Agent.Catalog.{lookup_operation}
use ding_ding_schedule.Agent.Catalog.Manifest.{OperationManifest, QueryShapeMetadata}
use ding_ding_schedule.Agent.Workflow.Engine.{Params, put_param}
use ding_ding_schedule.Agent.ExecutionGate.{OperationRequest, trusted_param_value}
use ding_ding_schedule.Agent.ExecutionGate.Resource.{subscription_scope_valid}

unfoldable pub param_names : List String → List String
param_names names = keep_if (λ name. not (is_empty name)) names

abbrev pub is_some {ℓ} : {A : Type ℓ} → Option A → Bool
is_some none = false
is_some (some a) = true

module _ (valid_date : String → Bool) (t : TrustedEntities) where
  unfoldable pub trusted_has_required_params : List String → Bool
  trusted_has_required_params [] = true
  trusted_has_required_params (field ∷ fields) =
      is_some (trusted_param_value valid_date t field) && trusted_has_required_params fields

  abbrev pub named_shape : List QueryShapeMetadata → Option QueryShapeMetadata
  named_shape [] = none
  named_shape (shape ∷ shapes) =
      if str_eq shape.name t.query_shape then some shape else named_shape shapes

  abbrev pub first_shape : List QueryShapeMetadata → Option QueryShapeMetadata
  first_shape [] = none
  first_shape (shape ∷ shapes) =
      if trusted_has_required_params (param_names shape.required_trusted_params)
      then some shape
      else first_shape shapes

  unfoldable pub select_query_shape : List QueryShapeMetadata → Option QueryShapeMetadata
  unfolding trusted_has_required_params
  select_query_shape shapes =
      if is_empty t.query_shape then first_shape shapes else named_shape shapes

  abbrev pub query_shape_param : QueryShapeMetadata → TrustedParam
  query_shape_param shape = record {
    field = "query_shape";
    value = str shape.name;
    source = record { kind = derived; raw = ""; resolver = "query_shape_selector" };
    tenant_id = t.tenant_id;
  }

  -- the loops over the required and over the optional parameters
  abbrev pub put_if : String → Option TrustedParam → Params → Params
  put_if field none params = params
  put_if field (some param) params = put_param field param params

  unfoldable pub put_optional : List String → Params → Params
  put_optional [] params = params
  put_optional (field ∷ fields) params =
      put_optional fields (put_if field (trusted_param_value valid_date t field) params)

  unfoldable pub put_required : List String → Params → Option Params
  put_required [] params = some params
  put_required (field ∷ fields) params =
      let rest =
        put_required fields (put_if field (trusted_param_value valid_date t field) params) in
      if is_some (trusted_param_value valid_date t field) then rest else none

  abbrev pub request_from : String → List String → Option Params → Option OperationRequest
  request_from operation optional none = none
  request_from operation optional (some params) =
      if subscription_scope_valid operation (put_optional optional params)
      then some (record {
        operation = operation;
        tenant_id = 0;
        actor_user_id = 0;
        conversation_id = "";
        trusted_params = put_optional optional params;
        idempotency_key = "";
      })
      else none

  abbrev pub shaped :
      String → OperationManifest → Option QueryShapeMetadata → Option OperationRequest
  shaped operation m none = none
  shaped operation m (some shape) = request_from operation (param_names m.optional_trusted_params) (
      put_required (param_names shape.required_trusted_params)
        (put_param "query_shape" (query_shape_param shape) []))

  abbrev pub by_shape :
      String → OperationManifest → List QueryShapeMetadata → Option OperationRequest
  by_shape operation m [] =
      request_from operation (param_names m.optional_trusted_params)
        (put_required (param_names m.required_trusted_params) [])
  by_shape operation m (shape ∷ shapes) = shaped operation m (select_query_shape (shape ∷ shapes))

  abbrev pub built : String → Option OperationManifest → Option OperationRequest
  built operation none = none
  built operation (some m) =
      if m.is_write && ltb_ℤ t.user_role m.min_role
      then none
      else by_shape operation m m.query_shapes

  -- `none` asks for clarification
  unfoldable pub build_operation_request : String → Option OperationRequest
  unfolding put_required put_optional param_names select_query_shape
  build_operation_request operation = built operation (lookup_operation operation)
