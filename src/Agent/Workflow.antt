-- ===== src/Agent/Workflow.antt =====
-- internal/agent/workflow_*.go: persisted multi-turn workflows.
pub mod Contract
pub mod Errors
pub mod Execution
pub mod Codec
pub mod Engine
pub mod Store
pub mod Database
