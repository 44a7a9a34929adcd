-- ===== src/Agent.antt =====
-- internal/agent: the conversational agent of the schedule server.
pub mod Protocol
pub mod Catalog
pub mod PolicyGate
pub mod Arbiter
pub mod Workflow
pub mod ExecutionGate
