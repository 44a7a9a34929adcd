-- ===== src/Agent/Workflow/Database/Takeover.antt =====
-- What a takeover of an execution through the repository finds and leaves.
use ding_ding_schedule.Prelude.{
  ℕ, ◌+◌, true, ◌||◌, ◌≡◌, refl, subst, String, Option, none, some, arith,
}
use ding_ding_schedule.Agent.Workflow.Contract.{Time}
use ding_ding_schedule.Agent.Workflow.Database.{
  Database, AgentWorkflowKey, AgentWorkflow, AgentWorkflowReservation, Environment, executing,
  is_executing, is_recovery_required,
}
use ding_ding_schedule.Agent.Workflow.Database.Table.{
  Table, equals, add_reservation_updates, begin_execution,
}
use ding_ding_schedule.Agent.Workflow.Database.Operations.{expired_at, lease_ended}
use ding_ding_schedule.Agent.Workflow.Database.Calls.{takes_over, key_of, Call, statement, step}
use ding_ding_schedule.Agent.Workflow.Database.Unique.{IsCollation, Unique}
use ding_ding_schedule.Agent.Workflow.Database.Outcome.{found, Succeeded, success-Done}

module _ (db : Database) where
  pub TookOver :
      ℕ
      → String
      → Time
      → AgentWorkflowReservation
      → Option AgentWorkflow
      → Option AgentWorkflow
      → Type 0
  TookOver v token before next found_before found_after =
      (old new : AgentWorkflow) × (found_before ≡ some old)
      × (found_after ≡ some new)
      × (old.version ≡ v)
      × ((is_executing old.execution_status || is_recovery_required old.execution_status) ≡ true)
      × (equals db old.execution_token token ≡ true)
      × (equals db old.execution_operation next.execution_operation ≡ true)
      × (equals db old.business_key next.business_key ≡ true)
      × (lease_ended old.lease_expires_at before ≡ true)
      × (new.version ≡ v + 1)
      × (new.execution_status ≡ executing)
      × (new.execution_token ≡ some next.execution_token)
      × (new.execution_result_json ≡ none)

  took_over :
      (env : Environment) (k : AgentWorkflowKey) (v : ℕ) (token : String) (before : Time)
      (next : AgentWorkflowReservation) (b a : Option AgentWorkflow)
      → Succeeded db env k (statement db (takes_over k v token before next)) b a
      → TookOver v token before next b a
  unfolding TookOver Succeeded expired_at add_reservation_updates begin_execution
  took_over env k v token before next b a (old, at, admitted, fits, stored) = (
    old,
    _,
    at,
    stored,
    ground (arith),
    ground (arith),
    ground (arith),
    ground (arith),
    ground (arith),
    ground (arith),
    ground (arith),
    refl,
    refl,
    refl,
  )

  module _ (lawful : IsCollation db) where
    -- In a table where no two rows share a key, a takeover that succeeds found at its key a row of the
    -- expected version that executes or needs recovery, with the shown token, the operation and the
    -- business key of the new reservation, and a lease that had ended by the given instant; it leaves
    -- the row executing, without a result, under the new token and the next version.
    pub takeover_after_lease :
        (c : Call) (k : AgentWorkflowKey) (v : ℕ) (token : String) (before : Time)
        (next : AgentWorkflowReservation) (t : Table)
        → c.request ≡ takes_over k v token before next
        → Unique db t
        → (step db c t).1 ≡ none
        → TookOver v token before next (found db k t) (found db k (step db c t).0)
    takeover_after_lease c k v token before next t is_takeover u success =
        took_over c.environment k v token before next _ _ (
          subst
            (λ q.
              Succeeded db c.environment (key_of q) (statement db q) (found db (key_of q) t)
                (found db (key_of q) (step db c t).0))
            is_takeover (success-Done db lawful c t u success).at_own_key)
