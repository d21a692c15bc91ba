-- ===== src/Executions.antt =====
-- src/modules/executions: the repository (execution.repository.ts) and the service.
pub mod Success
pub mod Faults
pub mod Repository
pub mod Service
pub mod Recovery
pub mod Lifecycle
pub mod Closing
pub mod Attempts
