-- ===== src/Storage.antt =====
-- pkg/storage: the state machine that the consensus log drives, and its durable engine.
pub mod Engine
pub mod Strconv
pub mod MemStore
pub mod Machine
pub mod Wal
pub mod DiskStore
pub mod Glob
pub mod Fake
pub mod Crypto
pub mod SnapshotFile
