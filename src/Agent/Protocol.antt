-- ===== src/Agent/Protocol.antt =====
-- internal/agent/protocol_contract.go and the trusted parameters of execution_gate.go.
-- A typed string with named constants is a data type with one constructor for each constant and one
-- for any other text. A map is an association list.
use ding_ding_schedule.Prelude.{ℕ, ◌*◌, ◌^◌, Bool, String, List, ltb}
use ding_ding_schedule.Prelude.Int.{ℤ}

pub data UserAct : Type 0 where
  capability_question rule_question read_query write_request : UserAct
  workflow_continue workflow_cancel help unknown_act : UserAct
  other_act : String → UserAct

pub data BusinessDomain : Type 0 where
  system attendance subscription manual_sign schedule leave analytics unknown_domain :
      BusinessDomain
  other_domain : String → BusinessDomain

pub data ResponseKind : Type 0 where
  answer result clarify select_options refuse confirm : ResponseKind
  -- the zero value of the type, `""`
  no_response : ResponseKind

-- `any`: the Go types that the agent stores, and one constructor for all others.
pub data Value : Type 0 where
  str : String → Value
  int : ℤ → Value
  int64 : ℤ → Value
  uint : ℕ → Value
  int64_slice : List ℤ → Value
  bool : Bool → Value
  other_value : ℕ → Value

pub data SourceKind : Type 0 where
  raw_slot default_source runtime workflow_source candidate_source derived : SourceKind
  other_source : String → SourceKind

pub record TrustedParamSource : Type 0 where
  pub kind : SourceKind
  pub raw : String
  pub resolver : String

pub record TrustedParam : Type 0 where
  pub field : String
  pub value : Value
  pub source : TrustedParamSource
  pub tenant_id : ℕ

pub record SlotDraft : Type 0 where
  pub field : String
  pub raw : String

-- `Confidence` is a float64: a non-negative finite one is a whole number of units of 2^-1074.
pub record IntentDraft : Type 0 where
  pub act : UserAct
  pub domain : BusinessDomain
  pub operation : String
  pub confidence : ℕ
  pub slots : List (String × SlotDraft)
  pub reason : String
  pub params : List (String × Value)
  pub missing_fields : List String
  pub clarify_reason : String

-- 0.75, in the units of `confidence`
unfoldable pub low_confidence_write_threshold : ℕ
low_confidence_write_threshold = 3 * 2 ^ 1072

unfoldable pub low_confidence : ℕ → Bool
low_confidence c = ltb c low_confidence_write_threshold

pub record TrustedEntities : Type 0 where
  pub tenant_id : ℕ
  pub department_id : ℤ
  pub dept_ids : List ℤ
  pub user_id : ℕ
  pub user_name : String
  pub date : String
  pub section : ℤ
  pub week : ℤ
  pub conversation_id : String
  pub scope : String
  pub query_shape : String
  pub user_role : ℤ
  pub trusted_params : List (String × TrustedParam)
