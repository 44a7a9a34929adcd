-- ===== src/Agent/Workflow/Contract.antt =====
-- internal/agent/workflow_contract.go: the snapshot of a workflow, and its copies.
-- Lists and maps are values here, so the copies differ from their sources only where the code
-- normalises: a list of missing fields, and candidate fields with no candidate.
-- An instant is the number of nanoseconds since Go's zero time, which is 0.
use ding_ding_schedule.Prelude.{ℕ, String, List, [], ◌∷◌}
use ding_ding_schedule.Agent.Protocol.{Value, TrustedEntities}

abbrev pub Time : Type 0
Time = ℕ

abbrev pub WorkflowType : Type 0
WorkflowType = String

abbrev pub subscription_start : WorkflowType
subscription_start = "subscription.start"

abbrev pub subscription_cancel : WorkflowType
subscription_cancel = "subscription.cancel"

abbrev pub manual_sign_create : WorkflowType
manual_sign_create = "manual_sign.create"

pub data WorkflowState : Type 0 where
  collect_scope collect_departments collect_user collect_date collect_section : WorkflowState
  ready completed cancelled interrupted_state : WorkflowState
  other_state : String → WorkflowState

pub data WorkflowDecision : Type 0 where
  continue_decision ready_to_execute suspend_for_new_request reject_invalid_shape : WorkflowDecision
  meta_result completed_decision canceled interrupted start_new single_turn : WorkflowDecision

pub record TrustedEntity : Type 0 where
  pub id : String
  pub type : String
  pub label : String
  pub value : Value
  pub tenant_id : ℕ

pub record Candidate : Type 0 where
  pub id : String
  pub label : String
  pub value : Value
  pub tenant_id : ℕ

pub record WorkflowSnapshot : Type 0 where
  pub id : String
  pub tenant_id : ℕ
  pub actor_user_id : ℕ
  pub conversation_id : String
  pub type : WorkflowType
  pub state : WorkflowState
  pub missing_fields : List String
  pub trusted_entities : List (String × TrustedEntity)
  pub candidates : List (String × List Candidate)
  pub last_user_message : String
  pub created_at : Time
  pub updated_at : Time
  pub expires_at : Time
  pub version : ℕ
  pub missing_slots : List String
  pub trusted : TrustedEntities

pub record WorkflowResult : Type 0 where
  pub decision : WorkflowDecision
  pub workflow : WorkflowSnapshot

abbrev pub or_else {ℓ} : {A : Type ℓ} → List A → List A → List A
or_else [] ys = ys
or_else (x ∷ xs) ys = x ∷ xs

-- `workflowMissingFields` at a snapshot that is not nil
unfoldable pub workflow_missing_fields : WorkflowSnapshot → List String
workflow_missing_fields w = or_else w.missing_fields w.missing_slots

unfoldable pub set_workflow_missing_fields : WorkflowSnapshot → List String → WorkflowSnapshot
set_workflow_missing_fields w fields = record w { missing_fields = fields; missing_slots = fields }

unfoldable pub clone_workflow_candidates :
    List (String × List Candidate) → List (String × List Candidate)
clone_workflow_candidates [] = []
clone_workflow_candidates ((key, []) ∷ rest) = clone_workflow_candidates rest
clone_workflow_candidates ((key, c ∷ cs) ∷ rest) = (key, c ∷ cs) ∷ clone_workflow_candidates rest

-- `cloneWorkflowSnapshot` at a snapshot that is not nil
unfoldable pub clone_workflow_snapshot : WorkflowSnapshot → WorkflowSnapshot
unfolding workflow_missing_fields
clone_workflow_snapshot w = record w {
  missing_fields = workflow_missing_fields w;
  missing_slots = or_else w.missing_slots (workflow_missing_fields w);
  candidates = clone_workflow_candidates w.candidates;
}
