-- ===== src/Storage.antt =====
-- internal/storage: the stores of agents, a file for each agent.
pub mod Files
pub mod FileKvStore
pub mod FileMemoryStore
mod Examples
