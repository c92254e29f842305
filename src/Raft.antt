-- ===== src/Raft.antt =====
-- pkg/raft: the consensus layer. `Types` holds the shared node state; the other children follow the
-- files of the package.
pub mod Types
pub mod Log
pub mod Persistence
pub mod Follower
pub mod Node
pub mod Replication
pub mod Commit
pub mod Snapshot
pub mod Election
pub mod Leader
pub mod Apply
