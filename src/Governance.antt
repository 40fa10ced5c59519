-- ===== src/Governance.antt =====
-- internal/governance: the policy engine that every tool call passes. Times are nanoseconds.
pub mod Types
pub mod KillSwitch
pub mod RateLimiter
pub mod LoopDetector
pub mod CircuitBreaker
pub mod Engine
mod Examples
