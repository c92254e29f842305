-- ===== src/Raft/Leader.antt =====
-- pkg/raft/leader.go: the proposal of a command and the exchange of AppendEntries and InstallSnapshot with
-- one follower (also `installSnapshot` of snapshot.go). A remote call ends the first locked section and its
-- answer starts the second; what lies between is not part of either.
pub mod Exchange
pub mod Rewind
use kv_store.Common.{
  ℕ, zero, suc, ◌+◌, ◌-◌, ◌*◌, ℤ, Bool, true, false, ◌&&◌, Option, none, some, List, [], ◌∷◌, ◌++◌,
  Bytes, length, drop, ltb, leb, ◌==◌, if◌then◌else◌,
}
use kv_store.Storage.Engine.{Command, Error}
use kv_store.Storage.MemStore.{MemStore}
use kv_store.Storage.Machine.{Reply, apply_cmd}
use kv_store.Raft.Types.{
  Node, Entry, ReplicationState, AppendEntriesRequest, AppendEntriesResponse,
  InstallSnapshotRequest, InstallSnapshotResponse, update, last_log_index, first_index, log_term_at,
  is_leader, become_follower,
}
use kv_store.Raft.Persistence.{SaveOutcome, persist}
use kv_store.Raft.Replication.{repl_of, repl_state}
use kv_store.Raft.Commit.{maybe_commit}

-- The new entry at the end of the leader's log.
unfoldable pub append_command : Node → Command → Node
append_command n cmd = record n {
  log = n.log ++ record { term = n.term; cmd = cmd } ∷ [];
  dirty = true;
}

-- How a proposal ends: refused by a node that is not the leader, with the address that it knows; applied at
-- once in a cluster of one; not saved; without an apply loop to wait for; or logged, and to be replicated.
pub data Proposal : Type 0 where
  not_leader : Option Bytes → Proposal
  applied_inline : MemStore → Reply → Proposal
  not_saved : Proposal
  not_started : Proposal
  logged : Proposal

-- `propose`.
unfoldable pub propose : SaveOutcome → ℤ → Command → MemStore → Node → Node × Proposal
propose out now cmd store n =
    if is_leader n.role
    then elim n.peers [
      | [] ↦
          let (store', reply) = apply_cmd now cmd store in
          let n' = append_command n cmd in
          (record n' { commit_index = last_log_index n' }, applied_inline store' reply)
      | _ ∷ _ ↦
          let (n', ok) = persist out (append_command n cmd) in
          (n', if ok then logged else not_saved)
    ]
    else (n, not_leader n.leader_id)

-- `proposeWait` up to its wait for the apply loop, of which `started` says whether there is a tracker. The
-- result has the index to wait for.
unfoldable pub propose_wait :
    SaveOutcome → Bool → ℤ → Command → MemStore → Node → Node × Proposal × ℕ
propose_wait out started now cmd store n =
    let n' = append_command n cmd in
    let idx = last_log_index n' in
    if is_leader n.role
    then elim n.peers [
      | [] ↦
          let (store', reply) = apply_cmd now cmd store in
          (record n' { commit_index = idx }, applied_inline store' reply, idx)
      | _ ∷ _ ↦
          if started
          then (let (n'', ok) = persist out n' in (n'', if ok then logged else not_saved, idx))
          else (n', not_started, idx)
    ]
    else (n, not_leader n.leader_id, idx)

abbrev pub max_repl_backoff : ℕ
max_repl_backoff = 64

-- What the first section of `replicateToPeer` decides: nothing to do here, a snapshot instead, or a request.
pub data Sending : Type 0 where
  idle : Sending
  resync : Sending
  send : AppendEntriesRequest → Sending

abbrev pub next_of : Node → Bytes → ℕ
next_of n peer = let next = (repl_of n).next_index peer in if ltb next 1 then 1 else next

abbrev set_in_flight : Bool → Bytes → Node → Node
set_in_flight b peer n = record n {
  repl = some (record (repl_of n) { in_flight = update (repl_of n).in_flight peer b });
}

unfoldable pub append_request : Node → ℕ → AppendEntriesRequest
append_request n next = record {
  term = n.term;
  leader_id = n.id;
  prev_log_index = next - 1;
  prev_log_term = log_term_at n (next - 1);
  entries = if leb next (last_log_index n) then drop (next - first_index n) n.log else [];
  leader_commit = n.commit_index;
}

unfoldable pub start_replication : Node → Bytes → Node × Sending
start_replication n peer =
    if is_leader n.role
    then (if (repl_of n).in_flight peer
        then (repl_state n, idle)
        else if ltb (next_of n peer) (first_index n)
        then (repl_state n, resync)
        else (set_in_flight true peer n, send (append_request n (next_of n peer))))
    else (n, idle)

-- The step of a rewind, and the state after it.
abbrev pub rewind_step : ReplicationState → Bytes → ℕ
rewind_step st peer = if st.backoff peer == 0 then 1 else st.backoff peer

unfoldable pub rewind : ReplicationState → Bytes → ReplicationState
rewind st peer =
    let step = rewind_step st peer in
    record st {
      next_index =
          update st.next_index peer
            (if ltb step (st.next_index peer) then st.next_index peer - step else 1);
      backoff = if ltb step max_repl_backoff then update st.backoff peer (step * 2) else st.backoff;
    }

-- The state after an acknowledgement up to `matched`.
unfoldable pub record_match : ReplicationState → Bytes → ℕ → ReplicationState
record_match st peer matched = record st {
  backoff = update st.backoff peer 0;
  match_index =
      if ltb (st.match_index peer) matched
      then update st.match_index peer matched
      else st.match_index;
  next_index =
      if ltb (st.next_index peer) (matched + 1)
      then update st.next_index peer (matched + 1)
      else st.next_index;
}

-- The answer to a request, as the loop of `replicateToPeer` ends or goes on: returned, or tried again.
pub data Exchanged : Type 0 where
  acked : Exchanged
  gave_up : Exchanged
  again : Exchanged

-- The second section; `none` is an error of the call.
unfoldable pub finish_replication :
    Node → Bytes → AppendEntriesRequest → Option AppendEntriesResponse → Node × Exchanged
finish_replication n peer req none = (set_in_flight false peer n, gave_up)
finish_replication n peer req (some resp) =
    let m = set_in_flight false peer n in
    let st = repl_of m in
    if ltb m.term resp.term
    then (become_follower m resp.term none, gave_up)
    else if ltb resp.term m.term
    then (m, gave_up)
    else if resp.success
    then (
      maybe_commit (record m {
        repl = some (record_match st peer (req.prev_log_index + length req.entries));
      }),
      acked,
    )
    else (
      record m { repl = some (rewind st peer) },
      if leb max_repl_backoff (rewind_step st peer) then gave_up else again,
    )

-- `replicateToPeer`, on fuel for its loop. At turn `k` the peer answers by `call k`, and the other goroutines
-- do `meanwhile k` to the node during the call, and `between k` after the turn, before the next one takes the lock.
-- A follower that needs a snapshot ends the loop.
unfoldable pub replicate_to_peer :
    ℕ
    → (ℕ → AppendEntriesRequest → Option AppendEntriesResponse)
    → (meanwhile between : ℕ → Node → Node) → Bytes
    → ℕ
    → Node
    → Option (Node × Sending × Exchanged)
replicate_to_peer zero call meanwhile between peer k n = none
replicate_to_peer (suc fuel) call meanwhile between peer k n =
    let (m, sending) = start_replication n peer in
    elim sending [
      | idle ↦ some (m, idle, gave_up)
      | resync ↦ some (m, resync, gave_up)
      | send req ↦
          let (m', result) = finish_replication (meanwhile k m) peer req (call k req) in
          elim result [
            | acked ↦ some (m', send req, acked)
            | gave_up ↦ some (m', send req, gave_up)
            | again ↦ replicate_to_peer fuel call meanwhile between peer (k + 1) (between k m')
          ]
    ]

-- `installSnapshot`, the first section: whether the provider is asked for a snapshot.
unfoldable pub may_install : Bool → Node → Bytes → Bool
may_install has_provider n peer =
    if is_leader n.role && has_provider
    then (if (repl_of n).in_flight peer then false else true)
    else false

-- The second section, with the snapshot that the provider returned.
unfoldable pub start_install : Node → Bytes → ℕ → ℤ → Bytes → Option (Node × InstallSnapshotRequest)
start_install n peer index term snapshot =
    if (repl_of n).in_flight peer
    then none
    else some (
      set_in_flight true peer n,
      record {
        term = n.term;
        leader_id = n.id;
        last_included_index = index;
        last_included_term = term;
        snapshot = snapshot;
      },
    )

-- The section after the answer; `none` is an error of the call.
unfoldable pub finish_install : Node → Bytes → ℕ → Option InstallSnapshotResponse → Node × Bool
finish_install n peer index none = (set_in_flight false peer n, false)
finish_install n peer index (some resp) =
    let m = set_in_flight false peer n in
    if ltb m.term resp.term
    then (become_follower m resp.term none, false)
    else if ltb resp.term m.term
    then (m, false)
    else if resp.success
    then (maybe_commit (record m { repl = some (record_match (repl_of m) peer index) }), true)
    else (m, false)
