-- ===== src/Raft/Snapshot.antt =====
-- pkg/raft/snapshot.go: the compaction of the log and the receiving side of InstallSnapshot. The snapshot
-- sink is not a part of the node: the handler returns the data that it hands to the sink.
pub mod Retained
pub mod Install
use kv_store.Common.{
  ℕ, ◌-◌, ℤ, Bool, true, false, ◌||◌, Option, none, some, [], Bytes, length, drop, ltb, leb,
  if◌then◌else◌,
}
use kv_store.Raft.Types.{
  Node, InstallSnapshotRequest, InstallSnapshotResponse, last_log_index, last_log_term,
}
use kv_store.Raft.Persistence.{SaveOutcome, persist}
use kv_store.Raft.Node.{follow_leader}

-- The commit index and the applied index move up to a new base.
abbrev pub raise_to : ℕ → Node → Node
raise_to index n = record n {
  commit_index = if ltb n.commit_index index then index else n.commit_index;
  last_applied = if ltb n.last_applied index then index else n.last_applied;
  dirty = true;
}

-- `CompactLog`.
unfoldable pub compact_log : Node → ℕ → ℤ → Node
compact_log n index term =
    if leb index n.last_included_index
    then n
    else if leb (last_log_index n) index
    then raise_to index
        (record n { log = []; last_included_index = index; last_included_term = last_log_term n })
    else raise_to index (record n {
      log = drop (index - n.last_included_index) n.log;
      last_included_index = index;
      last_included_term = term;
    })

-- The adoption of a snapshot that is ahead of the applied index. The source's `drop` would be negative
-- only with an applied index below the base; the subtraction stops at 0 there.
unfoldable pub adopt_snapshot : Node → InstallSnapshotRequest → Node
adopt_snapshot n req =
    let cut = req.last_included_index - n.last_included_index in
    raise_to req.last_included_index (record n {
      log = drop (if ltb (length n.log) cut then length n.log else cut) n.log;
      last_included_index = req.last_included_index;
      last_included_term = req.last_included_term;
    })

-- `HandleInstallSnapshot`: the new node, the data for the sink, and the response. An error of the sink or
-- of the save is only logged.
unfoldable pub handle_install_snapshot :
    SaveOutcome → Node → InstallSnapshotRequest → Node × Option Bytes × InstallSnapshotResponse
handle_install_snapshot out n req =
    if ltb req.term n.term
    then (n, none, record { term = n.term; success = false })
    else (let n' = follow_leader n req.term req.leader_id in
        let response : InstallSnapshotResponse = record { term = n'.term; success = true } in
        if ltb n'.last_applied req.last_included_index
        then ((persist out (adopt_snapshot n' req)).0, some req.snapshot, response)
        else ((persist out n').0, none, response))
