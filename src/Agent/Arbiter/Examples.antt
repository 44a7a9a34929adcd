-- ===== src/Agent/Arbiter/Examples.antt =====
-- A message with a question and a cancellation: the question comes first.
use ding_ding_schedule.Prelude.{◌^◌, ◌≡◌, ◌↔◌, refl, true, false, some, [], ◌∷◌}
use ding_ding_schedule.Agent.Protocol.{read_query, workflow_cancel, BusinessDomain}
use ding_ding_schedule.Agent.Workflow.Contract.{collect_scope}
use ding_ding_schedule.Agent.PolicyGate.{
  policy_explicit_new_request, workflow_allows_auxiliary_operation,
}
use ding_ding_schedule.Agent.Catalog.{lookup_operation}
use ding_ding_schedule.Agent.Arbiter.{
  ambiguous_operation_candidates, OperationCandidate, OperationArbiterInput, llm, workflow_control,
  match_llm, exact_workflow_control, decide, new_operation,
}
use ding_ding_schedule.Agent.Arbiter.Ambiguity.{Torn, ambiguous_operation_candidates_iff}
use ding_ding_schedule.Agent.Arbiter.Decision.{Verdict, decide-Verdict}

abbrev question : OperationCandidate
question = record {
  draft = record {
    act = read_query;
    domain = BusinessDomain.schedule;
    operation = "schedule.query_my_schedule";
    confidence = 2 ^ 1074;
    slots = [];
    reason = "";
    params = [];
    missing_fields = [];
    clarify_reason = "";
  };
  source = llm;
  match_kind = match_llm;
  short_circuit = false;
  confidence = 2 ^ 1074;
  evidence = "";
}

abbrev cancellation : OperationCandidate
cancellation = record question {
  draft = record question.draft { act = workflow_cancel; operation = "" };
  source = workflow_control;
  match_kind = exact_workflow_control;
}

abbrev message : OperationArbiterInput
message = record {
  message = "";
  active_workflow = some (record {
    type = "subscription.start";
    state = collect_scope;
    missing_fields = "scope" ∷ [];
    candidates = [];
    collected_labels = [];
  });
  candidates = question ∷ cancellation ∷ [];
}

question_first : (decide message).kind ≡ new_operation
unfolding decide policy_explicit_new_request workflow_allows_auxiliary_operation lookup_operation
question_first = refl

decide-Verdict_example : Verdict message (question ∷ cancellation ∷ []) (decide message)
decide-Verdict_example = decide-Verdict message

-- the same question of somebody else's timetable, as sure
abbrev other_question : OperationCandidate
other_question = record question {
  draft = record question.draft { operation = "schedule.query_user_schedule" };
}

two_questions : ambiguous_operation_candidates (question ∷ other_question ∷ []) ≡ true
unfolding ambiguous_operation_candidates
two_questions = refl

ambiguous_operation_candidates_iff_example :
    (ambiguous_operation_candidates (question ∷ other_question ∷ []) ≡ true)
    ↔ Torn (question ∷ other_question ∷ [])
ambiguous_operation_candidates_iff_example =
    ambiguous_operation_candidates_iff (question ∷ other_question ∷ [])
