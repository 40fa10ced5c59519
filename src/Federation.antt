-- ===== src/Federation.antt =====
-- The federation of stacks (federation/): the store of forwarded events, the index of runs that
-- were forwarded to a peer and the registry of peers.
pub mod EventStore
pub mod ForwardIndex
pub mod PeerRegistry
mod Examples
