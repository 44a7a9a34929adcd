-- ===== src/Agent/Workflow/Engine/ManualSign.antt =====
-- A manual-sign workflow: each turn that answers what was asked brings it nearer to its end.
use ding_ding_schedule.Prelude.{
  ◌+◌, ◌≤◌, ◌<◌, ◌≡◌, refl, sym, ap, ◌∙◌, Bool, true, false, not, String, List, [], ◌∷◌, ◌==◌,
  is_empty, length, arith,
}
use ding_ding_schedule.Prelude.Int.{pos, eq_ℤ}
use ding_ding_schedule.Agent.Protocol.{TrustedEntities}
use ding_ding_schedule.Agent.Workflow.Contract.{
  WorkflowSnapshot, WorkflowState, collect_user, collect_date, collect_section, ready,
  set_workflow_missing_fields,
}
use ding_ding_schedule.Agent.Workflow.Engine.{
  continue_manual_sign_workflow, workflow_missing_slots, next_manual_sign_state, filled,
  merge_trusted_params, ask_for,
}

-- a turn gives what the state asks for
unfoldable pub supplies : TrustedEntities → WorkflowState → Bool
supplies t collect_user = not (t.user_id == 0)
supplies t collect_date = not (is_empty t.date)
supplies t collect_section = not (eq_ℤ t.section (pos 0))
supplies t _ = false

abbrev pub asked_state : List String → WorkflowState
asked_state [] = ready
asked_state (slot ∷ slots) = next_manual_sign_state slot

-- The workflow misses the slots that are empty, and asks for the first of them.
pub record Asking (w : WorkflowSnapshot) : Type 0 where
  pub missing : w.missing_fields ≡ workflow_missing_slots w.trusted
  pub state : w.state ≡ asked_state (workflow_missing_slots w.trusted)

ask_for-Asking :
    (slots : List String) (w : WorkflowSnapshot)
    → workflow_missing_slots w.trusted ≡ slots
    → Asking (ask_for slots w).workflow
unfolding set_workflow_missing_fields
ask_for-Asking [] w e = record { missing = sym e; state = ap asked_state (sym e) }
ask_for-Asking (slot ∷ slots) w e = record { missing = sym e; state = ap asked_state (sym e) }

turn-Asking :
    (w : WorkflowSnapshot) (t : TrustedEntities)
    → Asking (continue_manual_sign_workflow w t).workflow
unfolding continue_manual_sign_workflow
turn-Asking w t = ask_for-Asking (workflow_missing_slots (filled w.trusted t)) _ refl

turn-trusted :
    (w : WorkflowSnapshot) (t : TrustedEntities)
    → (continue_manual_sign_workflow w t).workflow.trusted ≡ filled w.trusted t
unfolding continue_manual_sign_workflow set_workflow_missing_fields
turn-trusted w t = go (workflow_missing_slots (filled w.trusted t))
  where
    go :
        (slots : List String)
        → (ask_for slots (record w { trusted = filled w.trusted t })).workflow.trusted
          ≡ filled w.trusted t
    go [] = refl
    go (slot ∷ slots) = refl

-- Filled slots stay filled, and the slot that was asked for is filled by an answer.
fewer_slots :
    (old t : TrustedEntities)
    → supplies t (asked_state (workflow_missing_slots old)) ≡ true
    → length (workflow_missing_slots (filled old t)) < length (workflow_missing_slots old)
unfolding workflow_missing_slots filled merge_trusted_params supplies next_manual_sign_state
fewer_slots old t h = ground arith

at_most_three : (t : TrustedEntities) → length (workflow_missing_slots t) ≤ 3
unfolding workflow_missing_slots
at_most_three t = ground arith

turn-shorter :
    (w : WorkflowSnapshot) (t : TrustedEntities)
    → Asking w
    → supplies t w.state ≡ true
    → length (continue_manual_sign_workflow w t).workflow.missing_fields < length w.missing_fields
turn-shorter w t asking gives = omega (
  arith,
  ap length asking.missing,
  ap length (turn-Asking w t).missing,
  ap (λ x. length (workflow_missing_slots x)) (turn-trusted w t),
  fewer_slots w.trusted t (sym (ap (supplies t) asking.state) ∙ gives),
)

-- Turns one after the other, and that each of them gives what the workflow asks for.
unfoldable pub manual_turns : List TrustedEntities → WorkflowSnapshot → WorkflowSnapshot
manual_turns [] w = w
manual_turns (t ∷ ts) w = manual_turns ts (continue_manual_sign_workflow w t).workflow

unfoldable pub Answers : List TrustedEntities → WorkflowSnapshot → Type 0
Answers [] w = Unit
Answers (t ∷ ts) w =
    (supplies t w.state ≡ true) × Answers ts (continue_manual_sign_workflow w t).workflow

-- Through turns that answer, a manual-sign workflow that asks for its first empty slot goes on asking
-- for the first one that is still empty, and is ready when there is none; its list of empty slots,
-- which has at most three, loses one or more at each of these turns.
pub three_replies_suffice :
    (ts : List TrustedEntities) (w : WorkflowSnapshot)
    → Asking w
    → Answers ts w
    → Asking (manual_turns ts w)
      × (length ts + length (manual_turns ts w).missing_fields ≤ length w.missing_fields)
      × (length w.missing_fields ≤ 3)
unfolding manual_turns Answers
three_replies_suffice [] w asking given =
    (asking, omega arith, rw asking.missing (at_most_three w.trusted))
three_replies_suffice (t ∷ ts) w asking (gives, given) =
    let (asks, shorter, _) =
      three_replies_suffice ts (continue_manual_sign_workflow w t).workflow (turn-Asking w t)
        given in
    (
      asks,
      omega (arith, turn-shorter w t asking gives, shorter),
      rw asking.missing (at_most_three w.trusted),
    )
