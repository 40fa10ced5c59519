-- ===== src/ModelPolicy.antt =====
-- modelpolicy: calls of model providers behind a retry loop and a circuit breaker.
pub mod Breaker
pub mod Retry
mod Examples
