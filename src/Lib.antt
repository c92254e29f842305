-- ===== src/Lib.antt =====
-- A verification library for the key-value store: the Raft consensus layer (pkg/raft), the durable storage engine
-- (pkg/storage) that it replicates, and the HTTP handlers (pkg/api) in front of it, with the history checker
-- (pkg/linearizability) and the fault injection (pkg/chaos) of its tests.
--
-- A client's request passes the check of its key to a handler (pkg/api), which calls the engine and answers with a
-- status. A write is a command. A leader appends it to its log and saves the log (pkg/raft/leader.go,
-- persistence.go), sends it to its followers (leader.go, node.go, follower.go), commits it once a majority has
-- it (commit.go), and every node applies the committed commands in order (apply.go) to its store. The store is a
-- map with deadlines (pkg/storage/memstore.go) behind a log of its own (wal.go) that is written in batches
-- (batcher.go) and emptied by snapshots (snapshot.go). Elections are in pkg/raft/election.go, and the snapshots
-- that a leader sends to a follower far behind in pkg/raft/snapshot.go.
--
-- Common: lists, byte strings and their order, maps with string keys, signed integers and lists of different names,
--   over the native natural numbers.
-- Raft.Types: pkg/raft/types.go; the node as a record, its log as a list above a compaction base.
-- Raft.Log: reading the log by raft index.
-- Raft.Persistence: `persist`, `SetRaftStore` and a restart. The file is a field of the node; a save ends in
--   one of three ways, of which two are errors.
-- Raft.Follower: `checkPrevLog` and `mergeEntries`; Follower.Merge has the log after a merge, and
--   Follower.Again a second merge.
-- Raft.Node: `HandleRequestVote` and `HandleAppendEntries`; Node.Vote and Node.Append have their theorems. A
--   handler takes how its save ends and returns the new node and the response.
-- Raft.Replication: `replState` and `majority`.
-- Raft.Commit: `maybeCommit`; Commit.Sort has the sort that it calls and Commit.Quorum its theorems.
-- Raft.Snapshot: `CompactLog` and `HandleInstallSnapshot`; Snapshot.Retained and Snapshot.Install.
-- Raft.Election: `startElection` and the step down of a leader; Election.Quorum,
--   Election.History over the votes of a node, and Election.Unique over those of a cluster.
-- Raft.Leader: `propose`, `proposeWait`, `replicateToPeer` and `installSnapshot`; Leader.Exchange joins a
--   leader's request to a follower's handler, and Leader.Rewind ends the loop of rejections.
-- Raft.Apply: a turn of `applyLoop`; Apply.Drain.
-- Storage.Engine: pkg/storage/engine.go. Storage.Strconv: the decimal integers that `Incr` reads and writes.
-- Storage.MemStore: pkg/storage/memstore.go; MemStore.View has the live entries that a client can see,
--   and MemStore.Scan the pages: Scan.Sorted, Scan.Page, Scan.Behind and Scan.Walk.
-- Storage.Machine: `applyCmd`; Machine.Refinement has the abstract machine.
-- Storage.Wal: the records of pkg/storage/wal.go and `Replay`; Wal.Numbers, Wal.Records, Wal.Replay, Wal.Cut and
--   Wal.Clock have its theorems. Wal.Encrypted: the sealed log, with Encrypted.Sealed and Encrypted.Cut.
-- Storage.Crypto: pkg/storage/crypto.go over a parameter for AES-GCM, with what GCM promises as a record.
-- Storage.SnapshotFile: the snapshot file of pkg/storage/snapshot.go over a parameter for JSON; SnapshotFile.Load.
-- Storage.Fake: the fake engine of pkg/storage/fake.go; Fake.View and Fake.Agreement set it beside the memory store.
-- Storage.Glob: `matchGlob` of pkg/storage/fake.go; Glob.Sound, Glob.Fuel, Glob.Begins and Glob.Exact.
-- Storage.DiskStore: pkg/storage/batcher.go and the opening of a store; DiskStore.Steady, DiskStore.Acknowledged,
--   DiskStore.Alike, DiskStore.Recovery and DiskStore.Crash.
-- Linearizability: `Check` of pkg/linearizability/checker.go; Linearizability.Verdict.
-- Api: the data of pkg/api and the engine as a record of operations; Api.Handlers has one function per handler of
--   handlers.go, and Api.Requests the check of the key and the record of the status (middleware.go, server.go), with
--   Requests.Keyed, Requests.Keys, Requests.Deadlines, Requests.Pages and Requests.Counts.
-- Chaos.Faults: pkg/chaos/faults.go and the faults of cluster.go; Faults.Partition, Faults.Quiet and
--   Faults.Cleared. Chaos.Oracles: the oracles of oracles.go over the nodes; Oracles.Verdicts.
--   Chaos.Transport: transport.go; Transport.Delivery.
-- Tests: the theorems at concrete inputs.
--
-- A handler of Raft.Node has nothing between its locked section and its save; Node.Interleaved has the two as steps
-- of their own and Interleaved.Elections sections of an election; Interleaved.Votes is about these. Node.Cleared is
-- about a vote that is forgotten, Node.Repeated and Node.Retried about a request that comes twice.
-- In the elections, the exchanges and the apply loop, what runs between two locked sections of the source is an
-- argument of the model (`before`, `meanwhile`, `between`), and a lost remote call is an absent response. The clock is an
-- argument, with one value for each reading of it, and one for the whole of a replay.
-- Terms and indexes are natural numbers, and ℤ where the source can hold -1; a deadline and a counter are `int64`
-- in the source, and the model writes out the checks at their bounds.
--
-- Four loops run on fuel. The match of a pattern has a bound on its steps, by the length of pattern and string.
-- Replay has the length of the file as fuel, and each record takes a byte at least.
-- A sealed log is replayed the same way, and each round takes four bytes at least.
-- `replicate_to_peer` needs seven turns, since each rejection doubles the rewind step up to 64, as long as no
-- other goroutine lowers it.
--
-- The disk store is modelled in plain mode, with the bytes of its snapshot file. JSON gives a map back only where its
-- strings are text, since it replaces other bytes, so the theorems on restarts ask for that where a map is saved.
--
-- Not modelled: timers, channels and goroutines as such, the network transports, the client, the server's wiring and the
-- texts of its responses, file system calls and their errors, the rendering of metrics, and the harness of the chaos
-- tests with the oracles over its history. JSON, AES-GCM and the random sources are parameters.
pub mod Common
pub mod Storage
pub mod Raft
pub mod Linearizability
pub mod Api
pub mod Chaos
mod Tests
