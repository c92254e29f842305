-- ===== src/Chaos.antt =====
-- pkg/chaos: the fault injection of the cluster tests, its transport, and the oracles that judge a run.
pub mod Faults
pub mod Oracles
pub mod Transport
