-- ===== src/Orchestrator.antt =====
-- The orchestrator (agentorchestrator/, internal/storage): runs, where they are kept, how they are
-- executed, and the requests that create and cancel them.
pub mod Types
pub mod RunStore
pub mod EventSink
pub mod Messages
pub mod AgentLoop
pub mod Execution
pub mod RunHandlers
pub mod Executor
mod Examples
