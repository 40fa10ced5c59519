-- ===== src/Quota.antt =====
-- internal/quota: request rates, concurrency and token budgets of tenants.
pub mod MemoryBackend
pub mod TokenBudget
mod Examples
