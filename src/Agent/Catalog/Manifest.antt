-- ===== src/Agent/Catalog/Manifest.antt =====
-- internal/agent/operation_catalog.go and operation_recognition.go: what a catalogue entry says.
-- `ParamSpec`, `PolicySpec` and the bindings that hold only a name are that name. The zero value of a
-- typed string is a constructor of its own; a map is an association list, a nil pointer `none`.
use ding_ding_schedule.Prelude.{Bool, String, Option, List, []}
use ding_ding_schedule.Prelude.Int.{ℤ}
use ding_ding_schedule.Agent.Protocol.{UserAct, BusinessDomain, ResponseKind}
use ding_ding_schedule.Agent.Workflow.Contract.{WorkflowType, WorkflowState}

pub data SlotDefault : Type 0 where
  no_default today current_week : SlotDefault

pub data RiskLevel : Type 0 where
  no_risk risk_read write_low write_medium write_high : RiskLevel

pub data ConversationScope : Type 0 where
  no_scope both dm group : ConversationScope

pub data WorkflowMode : Type 0 where
  no_mode single_turn_mode multi_turn auxiliary : WorkflowMode

pub data IdempotencyGuarantee : Type 0 where
  no_guarantee repository_unique_upsert repository_soft_delete : IdempotencyGuarantee

pub record QueryShapeMetadata : Type 0 where
  pub name : String
  pub required_trusted_params : List String

pub record WorkflowSpec : Type 0 where
  pub type : WorkflowType
  pub mode : WorkflowMode
  pub collect_states : List WorkflowState
  pub required_trusted_params : List String
  pub auxiliary_operations : List String

pub record ResolverSpec : Type 0 where
  pub param : String
  pub name : String

pub record IdempotencySpec : Type 0 where
  pub key_fields : List String
  pub guarantee : IdempotencyGuarantee

pub record RendererBinding : Type 0 where
  pub name : String
  pub kind : ResponseKind

pub record EvalBinding : Type 0 where
  pub case_ids : List String
  pub replay_tags : List String

pub record CapabilityBinding : Type 0 where
  pub title : String
  pub description : String
  pub answer_only : Bool
  pub directly_usable : Bool

pub record RawSlotSpec : Type 0 where
  pub raw_name : String
  pub target_param : String
  pub resolver : String
  pub shape : String
  pub required : Bool

pub record ContinueShape : Type 0 where
  pub workflow_type : WorkflowType
  pub states : List WorkflowState
  pub fields : List String
  pub source : String

pub record RecognitionSpec : Type 0 where
  pub description : String
  pub aliases : List String
  pub examples : List String
  pub negative_examples : List String
  pub raw_slots : List RawSlotSpec
  pub continue_shapes : List ContinueShape

pub record OperationManifest : Type 0 where
  pub name : String
  pub allowed_acts : List UserAct
  pub domain : BusinessDomain
  pub is_write : Bool
  pub risk : RiskLevel
  pub scope : ConversationScope
  pub min_role : ℤ
  pub required_trusted_params : List String
  pub optional_trusted_params : List String
  pub query_shapes : List QueryShapeMetadata
  pub defaults : List (String × SlotDefault)
  pub recognition : RecognitionSpec
  pub workflow : Option WorkflowSpec
  pub dispatch : String
  pub resolvers : List ResolverSpec
  pub policies : List String
  pub idempotency : IdempotencySpec
  pub write_guard : String
  pub executor : String
  pub renderer : RendererBinding
  pub eval : EvalBinding
  pub capability : Option CapabilityBinding

-- the zero value that a read operation has there
abbrev pub no_idempotency : IdempotencySpec
no_idempotency = record { key_fields = []; guarantee = no_guarantee }

abbrev pub no_texts : List String
no_texts = []

abbrev pub single_turn_workflow_spec : WorkflowSpec
single_turn_workflow_spec = record {
  type = "";
  mode = single_turn_mode;
  collect_states = [];
  required_trusted_params = [];
  auxiliary_operations = [];
}
