-- ===== src/Agent/Workflow/Database/Calls.antt =====
-- Calls of the workflow repository as data, histories of them, and the one statement of each.
-- A statement is atomic in the database, so a history of several servers is a list of calls.
use ding_ding_schedule.Prelude.{ℕ, Bool, true, ◌≡◌, refl, String, Option, none, some, List, [], ◌∷◌}
use ding_ding_schedule.Agent.Workflow.Contract.{Time}
use ding_ding_schedule.Agent.Workflow.Database.{
  Database, AgentWorkflowKey, AgentWorkflow, AgentWorkflowSnapshotUpdate, AgentWorkflowReservation,
  AgentWorkflowExecutionResult, Error, Environment, idle, executing, key_from_workflow,
}
use ding_ding_schedule.Agent.Workflow.Database.Table.{
  Table, update_where, delete_where, create_row, snapshot_updates, add_reservation_updates,
  begin_execution, final_updates, deferral_updates, result_updates, prepare_new_workflow,
  apply_reservation_to_workflow,
}
use ding_ding_schedule.Agent.Workflow.Database.Operations.{
  checked, idle_at, executing_at, recorded_at, expired_at, running_at,
}
use ding_ding_schedule.Agent.Workflow.Database.Operations

pub data Request : Type 0 where
  creates : AgentWorkflow → Request
  swaps : AgentWorkflowKey → ℕ → AgentWorkflowSnapshotUpdate → Request
  deletes : AgentWorkflowKey → ℕ → Request
  creates_reserved : AgentWorkflow → AgentWorkflowReservation → Request
  reserves : AgentWorkflowKey → ℕ → AgentWorkflowSnapshotUpdate → AgentWorkflowReservation → Request
  records : AgentWorkflowKey → ℕ → String → AgentWorkflowExecutionResult → Request
  finalizes : AgentWorkflowKey → ℕ → String → AgentWorkflowSnapshotUpdate → Request
  releases : AgentWorkflowKey → ℕ → String → Request
  takes_over : AgentWorkflowKey → ℕ → String → Time → AgentWorkflowReservation → Request
  defers : AgentWorkflowKey → ℕ → String → Time → Request

abbrev pub key_of : Request → AgentWorkflowKey
key_of (creates w) = key_from_workflow w
key_of (swaps k v next) = k
key_of (deletes k v) = k
key_of (creates_reserved w r) = key_from_workflow w
key_of (reserves k v next r) = k
key_of (records k v token result) = k
key_of (finalizes k v token next) = k
key_of (releases k v token) = k
key_of (takes_over k v token before next) = k
key_of (defers k v token at) = k

-- the version that a request expects, and the token that it shows
abbrev pub expected : Request → Option ℕ
expected (creates w) = none
expected (swaps k v next) = some v
expected (deletes k v) = some v
expected (creates_reserved w r) = none
expected (reserves k v next r) = some v
expected (records k v token result) = some v
expected (finalizes k v token next) = some v
expected (releases k v token) = some v
expected (takes_over k v token before next) = some v
expected (defers k v token at) = some v

abbrev pub shown : Request → Option String
shown (records k v token result) = some token
shown (finalizes k v token next) = some token
shown (releases k v token) = some token
shown (takes_over k v token before next) = some token
shown (defers k v token at) = some token
shown _ = none

pub record Call : Type 0 where
  pub environment : Environment
  pub request : Request

pub data Statement : Type 0 where
  inserts : AgentWorkflow → Statement
  updates : (AgentWorkflow → Bool) → (AgentWorkflow → AgentWorkflow) → Statement
  removes : (AgentWorkflow → Bool) → Statement

module _ (db : Database) where
  unfoldable pub serve : Request → Environment → Table → Table × Error
  serve (creates w) env t = Operations.create db env (some w) t
  serve (swaps k v next) env t = Operations.compare_and_swap db env k v next t
  serve (deletes k v) env t = Operations.delete_if_version db env k v t
  serve (creates_reserved w r) env t = Operations.create_reserved_execution db env (some w) r t
  serve (reserves k v next r) env t = Operations.reserve_execution db env k v next r t
  serve (records k v token result) env t =
      Operations.record_execution_result db env k v token result t
  serve (finalizes k v token next) env t = Operations.finalize_execution db env k v token next t
  serve (releases k v token) env t = Operations.delete_reserved_execution db env k v token t
  serve (takes_over k v token before next) env t =
      Operations.takeover_expired_execution db env k v token before next t
  serve (defers k v token at) env t =
      Operations.mark_execution_recovery_required db env k v token at t

  unfoldable pub step : Call → Table → Table × Error
  step c t = serve c.request c.environment t

  unfoldable pub run : List Call → Table → Table
  run [] t = t
  run (c ∷ cs) t = run cs (step c t).0

  abbrev pub statement : Request → Statement
  statement (creates w) = inserts (prepare_new_workflow idle w)
  statement (swaps k v next) = updates (idle_at db k v) (snapshot_updates db next)
  statement (deletes k v) = removes (idle_at db k v)
  statement (creates_reserved w r) =
      inserts (apply_reservation_to_workflow db r (prepare_new_workflow executing w))
  statement (reserves k v next r) =
      updates (idle_at db k v)
        (λ w. begin_execution (add_reservation_updates db r (snapshot_updates db next w)))
  statement (records k v token result) =
      updates (executing_at db k v token result) (result_updates result)
  statement (finalizes k v token next) = updates (recorded_at db k v token) (final_updates db next)
  statement (releases k v token) = removes (recorded_at db k v token)
  statement (takes_over k v token before next) =
      updates (expired_at db k v token before next)
        (λ w. begin_execution (add_reservation_updates db next w))
  statement (defers k v token at) = updates (running_at db k v token) (deferral_updates db at)

  unfoldable pub execute : Statement → Environment → Table → Table × Error
  execute (inserts w) env t = create_row db env w t
  execute (updates condition changes) env t = update_where env condition changes t
  execute (removes condition) env t = delete_where env condition t

  -- An operation is its checks, which may refuse it, and its statement.
  pub serve_lem :
      (q : Request) (env : Environment)
      → (e : Error) × ((t : Table) → serve q env t ≡ checked t e (execute (statement q) env t))
  unfolding serve execute Operations.create Operations.compare_and_swap Operations.delete_if_version
      Operations.create_reserved_execution Operations.reserve_execution
      Operations.record_execution_result Operations.finalize_execution
      Operations.delete_reserved_execution Operations.takeover_expired_execution
      Operations.mark_execution_recovery_required
  serve_lem (creates w) env = (_, λ t. refl)
  serve_lem (swaps k v next) env = (_, λ t. refl)
  serve_lem (deletes k v) env = (_, λ t. refl)
  serve_lem (creates_reserved w r) env = (_, λ t. refl)
  serve_lem (reserves k v next r) env = (_, λ t. refl)
  serve_lem (records k v token result) env = (_, λ t. refl)
  serve_lem (finalizes k v token next) env = (_, λ t. refl)
  serve_lem (releases k v token) env = (_, λ t. refl)
  serve_lem (takes_over k v token before next) env = (_, λ t. refl)
  serve_lem (defers k v token at) env = (_, λ t. refl)

  -- A condition admits a row at its key and of its version only.
  abbrev pub Admits : Statement → AgentWorkflow → Type 0
  Admits (inserts new) w = Unit
  Admits (updates condition changes) w = condition w ≡ true
  Admits (removes condition) w = condition w ≡ true
