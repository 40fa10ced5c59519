-- ===== src/Tools.antt =====
-- internal/tools: what agents call.
pub mod MathEval
mod Examples
