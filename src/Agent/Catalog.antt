-- ===== src/Agent/Catalog.antt =====
-- internal/agent/operation_catalog.go and workflow_operation_catalog.go: the catalogue of operations.
pub mod Manifest
pub mod Subscription
pub mod Describe
pub mod Query
pub mod Rules
use ding_ding_schedule.Prelude.{
  Bool, true, false, ◌&&◌, String, Option, none, some, List, [], ◌∷◌, if◌then◌else◌, str_eq, ◌≡◌,
  refl,
}
use ding_ding_schedule.Agent.Workflow.Contract.{WorkflowType}
use Manifest.{OperationManifest, WorkflowSpec, WorkflowMode, multi_turn}
use Subscription.{start_subscription, cancel_subscription, subscription_status, list_departments}
use Describe.{
  system_capability, attendance_capability, schedule_capability, subscription_capability,
  manual_sign_capability,
}
use Query.{attendance_status, my_schedule, user_schedule}
use Rules.{attendance_rule, schedule_rule, subscription_rule}

-- in the order of the source
unfoldable pub operation_catalog_entries : List OperationManifest
unfolding attendance_status start_subscription cancel_subscription subscription_status
    list_departments system_capability attendance_capability schedule_capability
    subscription_capability manual_sign_capability attendance_rule schedule_rule subscription_rule
    my_schedule user_schedule
operation_catalog_entries =
    attendance_status ∷ start_subscription ∷ cancel_subscription ∷ subscription_status
    ∷ list_departments ∷ system_capability ∷ attendance_capability ∷ schedule_capability
    ∷ subscription_capability ∷ manual_sign_capability ∷ attendance_rule ∷ schedule_rule
    ∷ subscription_rule ∷ my_schedule ∷ user_schedule ∷ []

-- the loops over the catalogue
abbrev pub find_manifest :
    (OperationManifest → Bool) → List OperationManifest → Option OperationManifest
find_manifest p [] = none
find_manifest p (m ∷ ms) = if p m then some m else find_manifest p ms

unfoldable pub lookup_operation : String → Option OperationManifest
unfolding operation_catalog_entries
lookup_operation name = find_manifest (λ m. str_eq m.name name) operation_catalog_entries

is_multi_turn : WorkflowMode → Bool
is_multi_turn multi_turn = true
is_multi_turn _ = false

abbrev is_primary : WorkflowType → Option WorkflowSpec → Bool
is_primary type none = false
is_primary type (some w) = str_eq w.type type && is_multi_turn w.mode

unfoldable pub lookup_workflow_primary_operation : WorkflowType → Option OperationManifest
unfolding operation_catalog_entries is_multi_turn
lookup_workflow_primary_operation type =
    find_manifest (λ m. is_primary type m.workflow) operation_catalog_entries

abbrev manifest_name : Option OperationManifest → String
manifest_name none = ""
manifest_name (some m) = m.name

unfoldable pub workflow_primary_operation_name : WorkflowType → String
unfolding lookup_workflow_primary_operation
workflow_primary_operation_name type = manifest_name (lookup_workflow_primary_operation type)

abbrev pub auxiliary_operations : Option WorkflowSpec → List String
auxiliary_operations none = []
auxiliary_operations (some w) = w.auxiliary_operations

bound_to : String → Option OperationManifest → Bool
bound_to binding none = false
bound_to binding (some m) = str_eq m.executor binding

-- the loop of `workflowAuxiliaryOperationName`
find_bound : String → List String → String
unfolding bound_to
find_bound binding [] = ""
find_bound binding (name ∷ names) =
    if bound_to binding (lookup_operation name)
    then manifest_name (lookup_operation name)
    else find_bound binding names

abbrev workflow_of : Option OperationManifest → Option WorkflowSpec
workflow_of none = none
workflow_of (some m) = m.workflow

unfoldable pub workflow_auxiliary_operation_name : WorkflowType → String → String
unfolding lookup_workflow_primary_operation lookup_operation find_bound
workflow_auxiliary_operation_name type binding =
    find_bound binding (auxiliary_operations (workflow_of (lookup_workflow_primary_operation type)))

-- The names that the two workflows ask for.
primary_start : workflow_primary_operation_name "subscription.start" ≡ "subscription.start"
unfolding workflow_primary_operation_name
primary_start = refl

auxiliary_start :
    workflow_auxiliary_operation_name "subscription.start" "executor.subscription.list_departments"
    ≡ "subscription.list_departments"
unfolding workflow_auxiliary_operation_name
auxiliary_start = refl

primary_manual_sign : workflow_primary_operation_name "manual_sign.create" ≡ ""
unfolding workflow_primary_operation_name
primary_manual_sign = refl
