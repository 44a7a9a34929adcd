-- ===== src/Agent/Workflow/Engine/Examples.antt =====
-- A subscription for one department.
use ding_ding_schedule.Prelude.{length, ◌+◌, ◌≤◌, ◌^◌, ◌≡◌, refl, some, List, [], ◌∷◌}
use ding_ding_schedule.Prelude.Int.{pos}
use ding_ding_schedule.Agent.Protocol.{
  IntentDraft, TrustedEntities, write_request, workflow_continue, BusinessDomain,
}
use ding_ding_schedule.Agent.Catalog.{
  workflow_primary_operation_name, workflow_auxiliary_operation_name,
}
use ding_ding_schedule.Agent.Workflow.Contract.{
  WorkflowSnapshot, set_workflow_missing_fields, subscription_start, collect_scope, ready,
  manual_sign_create, collect_user,
}
use ding_ding_schedule.Agent.Workflow.Engine.{
  merge_trusted_params, workflow_missing_slots, next_manual_sign_state,
  continue_manual_sign_workflow, start_workflow, continue_workflow, continue_subscription_workflow,
  given_departments, empty_workflow, empty_entities,
}
use ding_ding_schedule.Agent.Workflow.Engine.ManualSign.{
  Asking, Answers, manual_turns, supplies, three_replies_suffice,
}
use ding_ding_schedule.Agent.Workflow.Engine.Subscription.{turns, Shaped, started-Shaped}

abbrev opening : IntentDraft
opening = record {
  act = write_request;
  domain = BusinessDomain.subscription;
  operation = "subscription.start";
  confidence = 2 ^ 1074;
  slots = [];
  reason = "";
  params = [];
  missing_fields = [];
  clarify_reason = "";
}

abbrev answer : IntentDraft
answer = record opening { act = workflow_continue }

abbrev talk : List (IntentDraft × TrustedEntities)
talk =
    (answer, record empty_entities { scope = "department" })
    ∷ (answer, record empty_entities { dept_ids = pos 7 ∷ pos 9 ∷ [] })
    ∷ []

abbrev first_workflow : WorkflowSnapshot
first_workflow = record (empty_workflow subscription_start collect_scope) {
  id = "wf-1";
  missing_fields = "scope" ∷ [];
  missing_slots = "scope" ∷ [];
}

starts : start_workflow "wf-1" opening ≡ some first_workflow
unfolding start_workflow workflow_primary_operation_name
starts = refl

ends_ready : (turns talk first_workflow).state ≡ ready
unfolding turns continue_workflow continue_subscription_workflow workflow_auxiliary_operation_name
    workflow_primary_operation_name given_departments set_workflow_missing_fields
ends_ready = refl

started-Shaped_example : Shaped (turns talk first_workflow)
started-Shaped_example = started-Shaped "wf-1" opening talk starts

abbrev signing : WorkflowSnapshot
signing = record (empty_workflow manual_sign_create collect_user) {
  missing_fields = "user_id" ∷ "date" ∷ "section" ∷ [];
  missing_slots = "user_id" ∷ "date" ∷ "section" ∷ [];
}

-- the user with the date, then the section
abbrev replies : List TrustedEntities
replies =
    record empty_entities { user_id = 7; date = "2026-07-13" }
    ∷ record empty_entities { section = pos 2 }
    ∷ []

asks : Asking signing
unfolding workflow_missing_slots next_manual_sign_state
asks = record { missing = refl; state = refl }

replies_answer : Answers replies signing
unfolding Answers supplies continue_manual_sign_workflow set_workflow_missing_fields
    merge_trusted_params next_manual_sign_state
replies_answer = (refl, (refl, tt))

signed : (manual_turns replies signing).state ≡ ready
unfolding manual_turns continue_manual_sign_workflow set_workflow_missing_fields
    merge_trusted_params next_manual_sign_state
signed = refl

three_replies_suffice_example :
    Asking (manual_turns replies signing)
    × (length replies + length (manual_turns replies signing).missing_fields
        ≤ length signing.missing_fields)
    × (length signing.missing_fields ≤ 3)
three_replies_suffice_example = three_replies_suffice replies signing asks replies_answer
