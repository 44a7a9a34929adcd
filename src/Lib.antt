-- ===== src/Lib.antt =====
-- Verification library of the schedule server: the core of its assistant, its attendance
-- details and its week lists.
--
-- The server answers chat messages of teachers and administrators. A message becomes an intent draft,
-- which nobody trusts; a gate decides on it by the catalogue of operations; an operation that takes
-- several turns is a workflow, which an engine moves on; and a workflow, with the write that it may be
-- executing, is kept in a store under optimistic versions and execution tokens. Beside the assistant,
-- the timetable keeps the weeks of each course as a text, and the attendance of a section is
-- made from candidates, courses, leaves, rest days, checks and overrides. The parts and their files:
--
-- - Agent/Protocol: internal/agent/protocol_contract.go, the acts, domains and drafts, and the
--   trusted entities of internal/agent/execution_gate.go.
-- - Agent/Catalog: internal/agent/operation_catalog.go, its fifteen manifests and the lookups
--   (lookupOperation, and those of workflow_operation_catalog.go).
-- - Agent/PolicyGate: internal/agent/policy_gate.go, prePolicyGate.Validate and all that it calls.
--   `validate` is Validate; `decide_operation` is what follows the lookup, `decide_act` its last
--   switch, and `enforce_pre_user_policy` the check of scope and role.
-- - Agent/ExecutionGate: internal/agent/execution_gate.go, buildOperationRequest and all that it calls;
--   Resource is the resource gate of internal/agent/policy_gate.go, resourcePolicyGate.Validate, of
--   which Ownership says the conditions and Access what it lets through;
--   WriteGuard is writeGuard.Check of the former with its idempotency keys.
-- - Agent/Arbiter: internal/agent/operation_arbiter.go, the choice among candidate drafts.
-- - Agent/Workflow/Contract: internal/agent/workflow_contract.go, snapshots and their copies.
-- - Agent/Workflow/Engine: internal/agent/workflow_engine.go, startWorkflow, continueWorkflow and
--   completeWorkflow, and the turns of the two kinds of workflow.
-- - Agent/Workflow/Execution: reservations and results in internal/agent/workflow_store.go.
-- - Agent/Workflow/Codec: internal/agent/workflow_snapshot_codec.go, the persisted form of a
--   reservation. Storing one means writing and reading it back (canonicalReservedExecution).
-- - Agent/Workflow/Store: internal/agent/workflow_store.go, memoryWorkflowStore. Operations has one
--   function for each method, from the store before to the store after and the result; Spec is the
--   contract (`Change`), said without the checks and without the map; Trace has calls as data.
-- - Agent/Workflow/Database: internal/repository/agent_workflow_repository.go, the same store in SQL.
--   Table has the statements, Operations one function for each method; Calls gives each call its
--   checks and its one statement, Outcome what a call does, and Fencing and Takeover what callers can
--   rely on against each other.
-- - Attendance: internal/service/attendance_record_service.go, buildAttendanceDetail and all that it calls,
--   and applyManualOverridesToDetail. Sources is what its collaborators return, Detail and Build go
--   from the candidates to the answer, CarryForward is applyCarryForward and Overrides the overrides.
-- - Timetable: pkg/scheduleparse/parser.go from expandWeeksToArray to joinWeeks, and ContainsWeek of
--   pkg/weekutil/week.go.
--
-- Conventions. Numbers are native; uint64 versions wrap at 2 ^ 64, and the int of ContainsWeek is its
-- 64-bit pattern. An instant is a number of nanoseconds since Go's zero time, a confidence a number of
-- units of 2 ^ -1074. A Go map is an association list, or a function for the map of the store. A native
-- text is a Go string of valid UTF-8. Each method of the store runs under its lock, so a history of any
-- number of callers is a list of calls; the clock is read at most twice in a call, and both readings are
-- arguments. The length of the JSON text of a reservation is the parameter `json_length`, since
-- encoding/json is not part of the source. Of the database, parameters are the comparison of texts
-- by its collation (an equivalence, where a theorem says so; the tables use utf8mb4_unicode_ci, which
-- does not tell cases apart), what a column keeps of an instant, whether a statement fails, and the
-- order of a scan. `valid_date` is time.Parse at a date, `digest` and `sprint` are SHA-256 and
-- fmt.Sprint, and the port of the departments is what it returns. There are two bounds on rounds. The digits of a number get one more round than the number itself, of which a digit
-- takes at least one. The loop over a range of weeks gets one more round than the range has weeks,
-- and gives no list when that does not end it: then it ends in no number of rounds.
--
-- Not modelled: the calls of the language model and the text heuristics around it, the services and
-- repositories but those above, the HTTP layer, the admin interface and the DingTalk client. Of
-- execution_gate.go, trustedParamsFromValues; of the store file, the workflow arbiter and the keys
-- that are derived from sessions; of the codec, the form of whole snapshots; of the
-- engine, interruptActiveWorkflow, which writes the session manager; of the attendance service, its
-- windows, the saving and reading of records, signing and notifications.
mod Prelude
pub mod Agent
pub mod Attendance
pub mod Timetable
