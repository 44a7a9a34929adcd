-- ===== src/Agent/PolicyGate/Interruption.antt =====
-- What the gate does to an active workflow.
use ding_ding_schedule.Prelude.{
  ◌≡◌, refl, ap, ◌∙◌, Bool, true, false, ◌&&◌, Option, none, some, arith, Bool-cases, Option-cases,
  inl, inr,
}
use ding_ding_schedule.Agent.Protocol.{
  UserAct, capability_question, rule_question, read_query, write_request, workflow_continue,
  workflow_cancel, help, unknown_act,
}
use ding_ding_schedule.Agent.Catalog.{lookup_operation}
use ding_ding_schedule.Agent.Catalog.Manifest.{OperationManifest}
use ding_ding_schedule.Agent.PolicyGate.{
  PrePolicyGateInput, ProtocolValidationResult, ProtocolWorkflowContext, validate, validate_act,
  validate_workflow_continue, continue_workflow, continue_operation, cancel_workflow,
  decide_operation, decide_act, catalog_mismatch, enforce_pre_user_policy,
  policy_explicit_new_request, is_some, workflow_continue_targets_active_workflow,
}

-- the effect of an answer where a request for something new may interrupt, or may not
abbrev Mild : Bool → ProtocolValidationResult → Type 0
Mild may r = (r.use_active_workflow ≡ false) × (r.interrupt_active_workflow ≡ true → may ≡ true)

decide_act-Mild :
    (i : PrePolicyGateInput) (m : OperationManifest) (may : Bool) (act : UserAct)
    → Mild may (decide_act i m may act)
unfolding decide_act enforce_pre_user_policy
decide_act-Mild i m may capability_question = (ground arith, λ e. ground arith)
decide_act-Mild i m may rule_question = (ground arith, λ e. ground arith)
decide_act-Mild i m may help = (ground arith, λ e. ground arith)
decide_act-Mild i m may read_query = (ground arith, λ e. ground arith)
decide_act-Mild i m may write_request = (ground arith, λ e. ground arith)
decide_act-Mild i m may _ = (refl, λ e. cc)

decide_operation-Mild :
    (i : PrePolicyGateInput) (may : Bool) (o : Option OperationManifest)
    → Mild may (decide_operation i may o)
unfolding decide_operation
decide_operation-Mild i may none = (refl, λ e. ground arith)
decide_operation-Mild i may (some m) =
    elim (Option-cases (catalog_mismatch i.draft.act i.draft.domain m)) [
      | inl e ↦ rw e (decide_act-Mild i m may i.draft.act)
      | inr (code, e) ↦ rw e (refl, λ h. h)
    ]

-- The answer keeps the active workflow or interrupts it only where there is one, never both; and it
-- interrupts only for an act that asks for something new.
abbrev pub Disturbs : PrePolicyGateInput → ProtocolValidationResult → Type 0
Disturbs i r =
    (r.interrupt_active_workflow ≡ true
      → (is_some i.active_workflow ≡ true)
        × (policy_explicit_new_request i.draft.act ≡ true)
        × (r.use_active_workflow ≡ false))
    × (r.use_active_workflow ≡ true
        → (is_some i.active_workflow ≡ true)
          × (policy_explicit_new_request i.draft.act ≡ false)
          × (r.interrupt_active_workflow ≡ false))

both : (s t : Bool) → (s && t) ≡ true → (s ≡ true) × (t ≡ true)
both s t h = ground arith

Mild-Disturbs :
    (i : PrePolicyGateInput) (r : ProtocolValidationResult) (act : UserAct)
    → i.draft.act ≡ act
    → Mild (is_some i.active_workflow && policy_explicit_new_request act) r
    → Disturbs i r
Mild-Disturbs i r act is (apart, may) = (
  λ e.
      let (there, new) =
        both (is_some i.active_workflow) (policy_explicit_new_request act) (may e) in
      (there, ap policy_explicit_new_request is ∙ new, apart),
  λ e. cc,
)

-- an answer within the active workflow, or one that leaves it alone
abbrev Within : PrePolicyGateInput → ProtocolValidationResult → Type 0
Within i r =
    (r.interrupt_active_workflow ≡ false)
    × (r.use_active_workflow ≡ true → is_some i.active_workflow ≡ true)

continue_operation-calm :
    (i : PrePolicyGateInput) (w : ProtocolWorkflowContext) (o : Option OperationManifest)
    → (continue_operation i w o).interrupt_active_workflow ≡ false
unfolding continue_operation enforce_pre_user_policy
continue_operation-calm i w none = refl
continue_operation-calm i w (some m) = ground arith

continue_workflow-Within :
    (i : PrePolicyGateInput) (o : Option ProtocolWorkflowContext)
    → ((continue_workflow i o).interrupt_active_workflow ≡ false)
      × ((continue_workflow i o).use_active_workflow ≡ true → is_some o ≡ true)
unfolding continue_workflow
continue_workflow-Within i none = (refl, λ e. cc)
continue_workflow-Within i (some w) =
    elim (Bool-cases (workflow_continue_targets_active_workflow i.draft.operation w.type)) [
      | inl e ↦ rw e (continue_operation-calm i w (lookup_operation i.draft.operation), λ h. refl)
      | inr e ↦ rw e (refl, λ h. refl)
    ]

cancel_workflow-Within :
    (o : Option ProtocolWorkflowContext)
    → ((cancel_workflow o).interrupt_active_workflow ≡ false)
      × ((cancel_workflow o).use_active_workflow ≡ true → is_some o ≡ true)
unfolding cancel_workflow
cancel_workflow-Within none = (refl, λ e. cc)
cancel_workflow-Within (some w) = (refl, λ e. refl)

Within-Disturbs :
    (i : PrePolicyGateInput) (r : ProtocolValidationResult)
    → Within i r
    → policy_explicit_new_request i.draft.act ≡ false
    → Disturbs i r
Within-Disturbs i r (calm, there) old = ((λ e. cc), λ e. (there e, old, calm))

validate_act-Disturbs :
    (i : PrePolicyGateInput) (act : UserAct) → i.draft.act ≡ act → Disturbs i (validate_act i act)
unfolding validate_act validate_workflow_continue policy_explicit_new_request
validate_act-Disturbs i unknown_act is = ((λ e. cc), λ e. cc)
validate_act-Disturbs i workflow_continue is =
    Within-Disturbs i (continue_workflow i i.active_workflow)
      (continue_workflow-Within i i.active_workflow) (ap policy_explicit_new_request is)
validate_act-Disturbs i workflow_cancel is =
    Within-Disturbs i (cancel_workflow i.active_workflow) (cancel_workflow-Within i.active_workflow)
      (ap policy_explicit_new_request is)
validate_act-Disturbs i act is =
    Mild-Disturbs i
      (decide_operation i (is_some i.active_workflow && policy_explicit_new_request act)
        (lookup_operation i.draft.operation))
      act is
      (decide_operation-Mild i (is_some i.active_workflow && policy_explicit_new_request act)
        (lookup_operation i.draft.operation))

-- The gate keeps the active workflow or interrupts it only where there is one, and never both. It
-- interrupts only for an act that asks for something new, and keeps it only for one that does not.
pub validate-Disturbs : (i : PrePolicyGateInput) → Disturbs i (validate i)
unfolding validate
validate-Disturbs i = validate_act-Disturbs i i.draft.act refl
