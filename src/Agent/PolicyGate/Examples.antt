-- ===== src/Agent/PolicyGate/Examples.antt =====
-- An administrator starts a subscription in a group conversation.
use ding_ding_schedule.Prelude.{◌^◌, ◌≡◌, refl, true, none, some, trim_space, [], ◌∷◌}
use ding_ding_schedule.Prelude.Int.{pos, ◌≤ℤ◌}
use ding_ding_schedule.Agent.Protocol.{
  IntentDraft, write_request, BusinessDomain, low_confidence, low_confidence_write_threshold,
}
use ding_ding_schedule.Agent.Catalog.{lookup_operation}
use ding_ding_schedule.Agent.Catalog.Subscription.{start_subscription}
use ding_ding_schedule.Agent.PolicyGate.{
  PrePolicyGateInput, validate, BusinessDomain-discrete, UserAct-discrete,
  conversation_scope_allowed,
}
use ding_ding_schedule.Agent.Workflow.Contract.{collect_scope}
use ding_ding_schedule.Agent.PolicyGate.Interruption.{Disturbs, validate-Disturbs}
use ding_ding_schedule.Agent.PolicyGate.Laws.{
  Grounds, AsWrite, execution_authorised, write_needs_admin_in_group,
}

abbrev write_draft : IntentDraft
write_draft = record {
  act = write_request;
  domain = BusinessDomain.subscription;
  operation = "subscription.start";
  confidence = 2 ^ 1074;
  slots = [];
  reason = "";
  params = [];
  missing_fields = [];
  clarify_reason = "";
}

abbrev from_admin : PrePolicyGateInput
from_admin = record {
  draft = write_draft;
  active_workflow = none;
  conversation_type = "2";
  user_role = pos 1;
  has_user_context = true;
}

allowed : (validate from_admin).allow_execution ≡ true
unfolding validate lookup_operation BusinessDomain-discrete UserAct-discrete low_confidence
    low_confidence_write_threshold conversation_scope_allowed trim_space
allowed = refl

execution_authorised_example : Grounds from_admin
execution_authorised_example = execution_authorised from_admin allowed

named : lookup_operation "subscription.start" ≡ some start_subscription
unfolding lookup_operation
named = refl

writes : start_subscription.is_write ≡ true
unfolding start_subscription
writes = refl

write_needs_admin_in_group_example : (trim_space "2" ≡ "2") × (pos 1 ≤ℤ pos 1) × AsWrite from_admin
write_needs_admin_in_group_example =
    write_needs_admin_in_group from_admin start_subscription allowed named writes refl

-- with a workflow that is waiting for its scope
abbrev amid_workflow : PrePolicyGateInput
amid_workflow = record from_admin {
  active_workflow = some (record {
    type = "subscription.start";
    state = collect_scope;
    missing_fields = "scope" ∷ [];
    candidates = [];
    collected_labels = [];
  });
}

validate-Disturbs_example : Disturbs amid_workflow (validate amid_workflow)
validate-Disturbs_example = validate-Disturbs amid_workflow
