-- ===== src/Agent/Arbiter.antt =====
-- internal/agent/operation_arbiter.go: the choice among the candidate drafts of a message.
-- A confidence is a number of units of 2^-1074, as in a draft; a set of texts is a list without a
-- text twice.
pub mod Ranking
pub mod Ambiguity
pub mod Decision
mod Examples
use ding_ding_schedule.Prelude.{
  ℕ, ◌+◌, Bool, true, false, not, ◌&&◌, ◌||◌, String, Option, none, some, List, [], ◌∷◌, ◌==◌, ltb,
  if◌then◌else◌, str_eq, any, length,
}
use ding_ding_schedule.Agent.Protocol.{
  UserAct, capability_question, rule_question, read_query, write_request, workflow_continue,
  workflow_cancel, help, unknown_act, other_act, BusinessDomain, unknown_domain, IntentDraft,
}
use ding_ding_schedule.Agent.PolicyGate.{
  ProtocolWorkflowContext, policy_explicit_new_request, workflow_allows_auxiliary_operation,
}

pub data OperationCandidateSource : Type 0 where
  llm catalog_alias workflow_slot workflow_control legacy no_source : OperationCandidateSource

pub data CandidateMatchKind : Type 0 where
  exact_alias contained_alias exact_workflow_control exact_candidate : CandidateMatchKind
  structured_slot legacy_rule match_llm : CandidateMatchKind
  -- any other text, as the empty one
  no_match_kind : CandidateMatchKind

pub record OperationCandidate : Type 0 where
  pub draft : IntentDraft
  pub source : OperationCandidateSource
  pub match_kind : CandidateMatchKind
  pub short_circuit : Bool
  pub confidence : ℕ
  pub evidence : String

pub data DecisionKind : Type 0 where
  unknown_decision new_operation continues auxiliary cancels ambiguous : DecisionKind

pub record OperationArbiterInput : Type 0 where
  pub message : String
  pub active_workflow : Option ProtocolWorkflowContext
  pub candidates : List OperationCandidate

pub record OperationArbiterDecision : Type 0 where
  pub kind : DecisionKind
  pub draft : IntentDraft
  pub source : OperationCandidateSource
  pub interrupt_workflow : Bool
  pub reason : String

abbrev pub source_rank : OperationCandidateSource → ℕ
source_rank catalog_alias = 50
source_rank llm = 40
source_rank workflow_slot = 30
source_rank workflow_control = 20
source_rank legacy = 10
source_rank no_source = 0

abbrev pub match_rank : CandidateMatchKind → OperationCandidateSource → ℕ
match_rank exact_alias s = 100
match_rank exact_workflow_control s = 100
match_rank exact_candidate s = 100
match_rank match_llm s = 80
match_rank structured_slot s = 70
match_rank contained_alias s = 20
match_rank legacy_rule s = 10
match_rank no_match_kind s = source_rank s

unfoldable pub operation_candidate_rank : OperationCandidate → ℕ
operation_candidate_rank c = match_rank c.match_kind c.source

-- the text of an act
abbrev pub act_text : UserAct → String
act_text capability_question = "capability_question"
act_text rule_question = "rule_question"
act_text read_query = "read_query"
act_text write_request = "write_request"
act_text workflow_continue = "workflow_continue"
act_text workflow_cancel = "workflow_cancel"
act_text help = "help"
act_text unknown_act = "unknown"
act_text (other_act s) = s

abbrev pub is_unknown : UserAct → Bool
is_unknown unknown_act = true
is_unknown _ = false

-- the texts on both sides of the NUL character, which no act and no operation holds
abbrev pub Identity : Type 0
Identity = String × String

unfoldable pub candidate_identity : OperationCandidate → Identity
candidate_identity c = (act_text c.draft.act, c.draft.operation)

abbrev pub same_identity : Identity → Identity → Bool
same_identity i j = str_eq i.0 j.0 && str_eq i.1 j.1

unfoldable pub put_identity : Identity → List Identity → List Identity
put_identity i is = if any (same_identity i) is then is else i ∷ is

-- `topRank`, which starts below every rank, and `operations`
abbrev pub Tally : Type 0
Tally = Option ℕ × List Identity

abbrev pub above : ℕ → Option ℕ → Bool
above rank none = true
above rank (some top) = ltb top rank

abbrev pub level : ℕ → Option ℕ → Bool
level rank none = false
level rank (some top) = rank == top

-- one round of the loop
unfoldable pub count_candidate : OperationCandidate → Tally → Tally
unfolding operation_candidate_rank candidate_identity put_identity
count_candidate c (top, operations) =
    if is_unknown c.draft.act
    then (top, operations)
    else if above (operation_candidate_rank c) top
    then (some (operation_candidate_rank c), candidate_identity c ∷ [])
    else if level (operation_candidate_rank c) top
    then (top, put_identity (candidate_identity c) operations)
    else (top, operations)

unfoldable pub count_candidates : List OperationCandidate → Tally → Tally
unfolding count_candidate
count_candidates [] tally = tally
count_candidates (c ∷ cs) tally = count_candidates cs (count_candidate c tally)

unfoldable pub ambiguous_operation_candidates : List OperationCandidate → Bool
unfolding count_candidates
ambiguous_operation_candidates cs = ltb 1 (length (count_candidates cs (none, [])).1)

-- `c` replaces the best candidate so far
abbrev pub better : OperationCandidate → Option OperationCandidate → Bool
better c none = true
better c (some b) =
    ltb (operation_candidate_rank b) (operation_candidate_rank c)
    || (operation_candidate_rank c == operation_candidate_rank b && ltb b.confidence c.confidence)

-- the loop over the candidates, with the best one so far
unfoldable pub best_from :
    (OperationCandidate → Bool)
    → List OperationCandidate
    → Option OperationCandidate
    → Option OperationCandidate
best_from p [] best = best
best_from p (c ∷ cs) best = best_from p cs (if p c && better c best then some c else best)

unfoldable pub best_candidate :
    (OperationCandidate → Bool) → List OperationCandidate → Option OperationCandidate
unfolding best_from
best_candidate p cs = best_from p cs none

abbrev pub explicit : OperationCandidate → Bool
explicit c = policy_explicit_new_request c.draft.act

abbrev pub is_workflow_cancel : UserAct → Bool
is_workflow_cancel workflow_cancel = true
is_workflow_cancel _ = false

abbrev pub is_workflow_continue : UserAct → Bool
is_workflow_continue workflow_continue = true
is_workflow_continue _ = false

abbrev pub cancelling : OperationCandidate → Bool
cancelling c = is_workflow_cancel c.draft.act

abbrev pub continuing : OperationCandidate → Bool
continuing c = is_workflow_continue c.draft.act

abbrev pub unknown_draft : String → IntentDraft
unknown_draft reason = record {
  act = unknown_act;
  domain = unknown_domain;
  operation = "";
  confidence = 0;
  slots = [];
  reason = "";
  params = [];
  missing_fields = [];
  clarify_reason = reason;
}

-- `unknownIntentDraft`
abbrev pub unknown_intent_draft : String → IntentDraft
unknown_intent_draft reason = record (unknown_draft reason) { reason = reason }

abbrev pub undecided :
    DecisionKind → IntentDraft → OperationCandidateSource → String → OperationArbiterDecision
undecided kind draft source reason = record {
  kind = kind;
  draft = draft;
  source = source;
  interrupt_workflow = false;
  reason = reason;
}

unfoldable pub auxiliary_for_active : String → Option ProtocolWorkflowContext → Bool
auxiliary_for_active operation none = false
auxiliary_for_active operation (some w) = workflow_allows_auxiliary_operation w.type operation

abbrev pub active : Option ProtocolWorkflowContext → Bool
active none = false
active (some w) = true

abbrev pub decide_explicit :
    Option ProtocolWorkflowContext → OperationCandidate → OperationArbiterDecision
decide_explicit w c =
    if auxiliary_for_active c.draft.operation w
    then undecided auxiliary (record c.draft { act = workflow_continue }) c.source
        "active_workflow_auxiliary_operation"
    else record {
      kind = new_operation;
      draft = c.draft;
      source = c.source;
      interrupt_workflow = active w && policy_explicit_new_request c.draft.act;
      reason = "explicit_operation";
    }

abbrev pub decide_first : OperationCandidate → OperationArbiterDecision
decide_first c =
    if is_unknown c.draft.act
    then undecided unknown_decision c.draft c.source "unknown_candidate"
    else undecided unknown_decision (unknown_draft "unknown_intent") c.source
        "unsupported_candidate"

-- what a kind of candidate decides, or else the next
abbrev pub or_decide :
    Option OperationCandidate
    → (OperationCandidate → OperationArbiterDecision)
    → OperationArbiterDecision
    → OperationArbiterDecision
or_decide none f next = next
or_decide (some c) f next = f c

unfoldable pub decide_candidates :
    OperationArbiterInput → List OperationCandidate → OperationArbiterDecision
unfolding auxiliary_for_active best_candidate ambiguous_operation_candidates
decide_candidates i [] =
    undecided unknown_decision (unknown_draft "unknown_intent") no_source "no_candidates"
decide_candidates i (c ∷ cs) =
    if ambiguous_operation_candidates (c ∷ cs)
    then undecided ambiguous (unknown_intent_draft "ambiguous_intent") no_source
        "ambiguous_candidates"
    else or_decide (best_candidate explicit (c ∷ cs)) (decide_explicit i.active_workflow) (
        or_decide (best_candidate cancelling (c ∷ cs))
          (λ b. undecided cancels b.draft b.source "workflow_control")
          (or_decide (best_candidate continuing (c ∷ cs))
            (λ b. undecided continues b.draft b.source "workflow_slot_value") (decide_first c)))

-- `operationArbiter.Decide`
unfoldable pub decide : OperationArbiterInput → OperationArbiterDecision
unfolding decide_candidates
decide i = decide_candidates i i.candidates
