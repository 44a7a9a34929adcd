-- ===== src/Agent/Arbiter/Decision.antt =====
-- What the arbiter decides, and for which candidate.
use ding_ding_schedule.Prelude.{
  ◌≡◌, refl, Bool, true, false, ◌&&◌, List, [], ◌∷◌, Bool-cases, Option-cases, inl, inr, arith,
}
use ding_ding_schedule.Agent.Protocol.{workflow_continue, unknown_act}
use ding_ding_schedule.Agent.Arbiter.{
  OperationCandidate, OperationArbiterInput, OperationArbiterDecision, unknown_decision,
  new_operation, auxiliary, continues, cancels, ambiguous, active, explicit, cancelling, continuing,
  is_unknown, or_decide, decide_explicit, decide_first, decide_candidates, decide,
  ambiguous_operation_candidates, auxiliary_for_active, best_candidate, undecided,
}
use ding_ding_schedule.Agent.Arbiter.Ranking.{
  Best, NoneOf, best_candidate-Best, best_candidate-NoneOf,
}

-- What a decision says, on each of its kinds: operations that are asked for come before a
-- cancellation, and that before the continuation of the active workflow.
pub data Verdict (i : OperationArbiterInput) (cs : List OperationCandidate)
    (d : OperationArbiterDecision) : Type 0 where
  torn :
      ambiguous_operation_candidates cs ≡ true
      → d.kind ≡ ambiguous
      → d.draft.act ≡ unknown_act
      → d.interrupt_workflow ≡ false
      → Verdict i cs d
  starts :
      (c : OperationCandidate)
      → ambiguous_operation_candidates cs ≡ false
      → Best explicit cs c
      → auxiliary_for_active c.draft.operation i.active_workflow ≡ false
      → d.kind ≡ new_operation
      → d.draft ≡ c.draft
      → d.interrupt_workflow ≡ active i.active_workflow
      → Verdict i cs d
  aids :
      (c : OperationCandidate)
      → ambiguous_operation_candidates cs ≡ false
      → Best explicit cs c
      → auxiliary_for_active c.draft.operation i.active_workflow ≡ true
      → d.kind ≡ auxiliary
      → d.draft ≡ record c.draft { act = workflow_continue }
      → d.interrupt_workflow ≡ false
      → Verdict i cs d
  withdraws :
      (c : OperationCandidate)
      → ambiguous_operation_candidates cs ≡ false
      → NoneOf explicit cs
      → Best cancelling cs c
      → d.kind ≡ cancels
      → d.draft ≡ c.draft
      → d.interrupt_workflow ≡ false
      → Verdict i cs d
  answers :
      (c : OperationCandidate)
      → ambiguous_operation_candidates cs ≡ false
      → NoneOf explicit cs
      → NoneOf cancelling cs
      → Best continuing cs c
      → d.kind ≡ continues
      → d.draft ≡ c.draft
      → d.interrupt_workflow ≡ false
      → Verdict i cs d
  gives_up :
      NoneOf explicit cs
      → NoneOf cancelling cs
      → NoneOf continuing cs
      → d.kind ≡ unknown_decision
      → d.draft.act ≡ unknown_act
      → d.interrupt_workflow ≡ false
      → Verdict i cs d

act_unknown : (c : OperationCandidate) → is_unknown c.draft.act ≡ true → c.draft.act ≡ unknown_act
act_unknown c h = ground arith

and_true : (b : Bool) → (b && true) ≡ b
and_true true = refl
and_true false = refl

module _ (i : OperationArbiterInput) (cs : List OperationCandidate)
    (clear : ambiguous_operation_candidates cs ≡ false) where
  explicit-Verdict :
      (c : OperationCandidate)
      → Best explicit cs c
      → Verdict i cs (decide_explicit i.active_workflow c)
  explicit-Verdict c best =
      elim (Bool-cases (auxiliary_for_active c.draft.operation i.active_workflow)) [
        | inl e ↦ rw e (aids c clear best e refl refl refl)
        | inr e ↦
            rw e (starts c clear best e refl refl (rw best.0 (and_true (active i.active_workflow))))
      ]

  first-Verdict :
      (c : OperationCandidate)
      → NoneOf explicit cs
      → NoneOf cancelling cs
      → NoneOf continuing cs
      → Verdict i cs (decide_first c)
  first-Verdict c a b k = elim (Bool-cases (is_unknown c.draft.act)) [
    | inl e ↦ rw e (gives_up a b k refl (act_unknown c e) refl)
    | inr e ↦ rw e (gives_up a b k refl refl refl)
  ]

  ranked-Verdict :
      (c : OperationCandidate)
      → Verdict i cs (
          or_decide (best_candidate explicit cs) (decide_explicit i.active_workflow) (
            or_decide
              (best_candidate cancelling cs)
              (λ b. undecided cancels b.draft b.source "workflow_control")
              (or_decide
                (best_candidate continuing cs)
                (λ b. undecided continues b.draft b.source "workflow_slot_value")
                (decide_first c))))
  ranked-Verdict c = elim (Option-cases (best_candidate explicit cs)) [
    | inr (b, e) ↦ rw e (explicit-Verdict b (best_candidate-Best explicit cs e))
    | inl e ↦ elim (Option-cases (best_candidate cancelling cs)) [
      | inr (b, k) ↦
          rw (e, k)
            (withdraws b clear (best_candidate-NoneOf explicit cs e)
              (best_candidate-Best cancelling cs k) refl refl refl)
      | inl k ↦ elim (Option-cases (best_candidate continuing cs)) [
        | inr (b, l) ↦
            rw (e, k, l)
              (answers b clear (best_candidate-NoneOf explicit cs e)
                (best_candidate-NoneOf cancelling cs k) (best_candidate-Best continuing cs l) refl
                refl refl)
        | inl l ↦
            rw (e, k, l)
              (first-Verdict c (best_candidate-NoneOf explicit cs e)
                (best_candidate-NoneOf cancelling cs k) (best_candidate-NoneOf continuing cs l))
      ]
    ]
  ]

candidates-Verdict :
    (i : OperationArbiterInput) (cs : List OperationCandidate)
    → Verdict i cs (decide_candidates i cs)
unfolding decide_candidates
candidates-Verdict i [] = gives_up tt tt tt refl refl refl
candidates-Verdict i (c ∷ cs) = elim (Bool-cases (ambiguous_operation_candidates (c ∷ cs))) [
  | inl e ↦ rw e (torn e refl refl refl)
  | inr e ↦ rw e (ranked-Verdict i (c ∷ cs) e c)
]

-- The arbiter asks back when candidates are ambiguous. Otherwise it decides for the best candidate that
-- asks for an operation, as an auxiliary step of the active workflow if it is one, and else as a new
-- operation, which alone interrupts an active workflow; with no such candidate, for the best
-- cancellation; with none, for the best continuation; and with none, for an unknown act.
pub decide-Verdict : (i : OperationArbiterInput) → Verdict i i.candidates (decide i)
unfolding decide
decide-Verdict i = candidates-Verdict i i.candidates
