-- ===== src/Network.antt =====
-- Requests to other hosts: which addresses they may go to.
pub mod Ssrf
mod Examples
