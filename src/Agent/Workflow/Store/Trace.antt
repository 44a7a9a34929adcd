-- ===== src/Agent/Workflow/Store/Trace.antt =====
-- Calls of the in-memory workflow store as data, and sequences of them.
-- The lock makes each call one step, so a history of several callers is a list of calls.
use ding_ding_schedule.Prelude.{ℕ, String, Option, none, some, List, [], ◌∷◌, trim_space}
use ding_ding_schedule.Agent.Workflow.Contract.{WorkflowSnapshot}
use ding_ding_schedule.Agent.Workflow.Execution.{ReservedExecution, ExecutionResult}
use ding_ding_schedule.Agent.Workflow.Codec.{PersistedReservedExecution}
use ding_ding_schedule.Agent.Workflow.Store.{WorkflowKey, Store, Readings, Context}
use ding_ding_schedule.Agent.Workflow.Store.Operations

pub data Request : Type 0 where
  loads : Request
  creates : Option WorkflowSnapshot → Request
  swaps : ℕ → Option WorkflowSnapshot → Request
  deletes : ℕ → Request
  creates_reserved : Option WorkflowSnapshot → ReservedExecution → Request
  reserves : ℕ → Option WorkflowSnapshot → ReservedExecution → Request
  records : ℕ → String → ExecutionResult → Request
  finalizes : ℕ → String → Option WorkflowSnapshot → Request
  releases : ℕ → String → Request
  takes_over : ℕ → String → ReservedExecution → Request

-- the version that a request expects, and the token that it shows
abbrev pub expected : Request → Option ℕ
expected (swaps v next) = some v
expected (deletes v) = some v
expected (reserves v next r) = some v
expected (records v token result) = some v
expected (finalizes v token next) = some v
expected (releases v token) = some v
expected (takes_over v token next) = some v
expected _ = none

abbrev pub shown : Request → Option String
shown (records v token result) = some (trim_space token)
shown (finalizes v token next) = some (trim_space token)
shown (releases v token) = some (trim_space token)
shown (takes_over v token next) = some (trim_space token)
shown _ = none

pub record Call : Type 0 where
  pub context : Context
  pub key : WorkflowKey
  pub readings : Readings
  pub request : Request

module _ (json_length : PersistedReservedExecution → ℕ) where
  unfoldable pub serve : Request → Context → WorkflowKey → Readings → Store → Store
  serve loads ctx k t s = (Operations.load ctx k t s).0
  serve (creates next) ctx k t s = (Operations.create ctx k next t s).0
  serve (swaps v next) ctx k t s = (Operations.compare_and_swap ctx k v next t s).0
  serve (deletes v) ctx k t s = (Operations.delete_if_version ctx k v t s).0
  serve (creates_reserved next r) ctx k t s =
      (Operations.create_reserved_execution json_length ctx k next r t s).0
  serve (reserves v next r) ctx k t s =
      (Operations.reserve_execution json_length ctx k v next r t s).0
  serve (records v token result) ctx k t s =
      (Operations.record_execution_result ctx k v token result t s).0
  serve (finalizes v token next) ctx k t s =
      (Operations.finalize_execution ctx k v token next t s).0
  serve (releases v token) ctx k t s = (Operations.delete_reserved_execution ctx k v token t s).0
  serve (takes_over v token next) ctx k t s =
      (Operations.takeover_expired_execution json_length ctx k v token next t s).0

  unfoldable pub step : Call → Store → Store
  step c s = serve c.request c.context c.key c.readings s

  unfoldable pub run : List Call → Store → Store
  run [] s = s
  run (c ∷ cs) s = run cs (step c s)
