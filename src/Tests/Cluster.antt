-- ===== src/Tests/Cluster.antt =====
-- Runs of elections, exchanges, snapshots and the apply loop (pkg/raft).
use kv_store.Common.{
  ℕ, ◌+◌, ◌≤◌, ◌<◌, ◌≡◌, ◌≢◌, pos, ℤ, true, false, none, some, List, [], ◌∷◌, refl, arith, drop,
}
use kv_store.Storage.MemStore.{new_mem_store}
use kv_store.Raft.Types.{
  Node, InstallSnapshotRequest, entry_at, log_term_at, become_follower, become_candidate,
  become_leader, is_leader,
}
use kv_store.Raft.Persistence.{saved, persist}
use kv_store.Raft.Replication.{majority, repl_of}
use kv_store.Raft.Follower.{check_prev_log, merge_entries, merge_loop, cut_suffix}
use kv_store.Raft.Follower.Merge.{Agrees}
use kv_store.Raft.Node.{
  handle_append_entries, follow_leader, accept_entries, advance_commit, acknowledge,
}
use kv_store.Raft.Snapshot.{compact_log, handle_install_snapshot}
use kv_store.Raft.Snapshot.Retained.{IsOrdered, compact_log-indexes, compact_log-entries}
use kv_store.Raft.Snapshot.Install.{IsInstalled, install-ahead, install-behind}
use kv_store.Raft.Election.{Arrival, start_election, tally, conclude_tally, conclude}
use kv_store.Raft.Election.Quorum.{granted, start_election-quorum, quorum-start_election}
use kv_store.Raft.Leader.{append_request, start_replication, send, replicate_to_peer}
use kv_store.Raft.Leader.Exchange.{IsFromLog, start_replication-IsFromLog, replicated}
use kv_store.Raft.Leader.Rewind.{replicate_to_peer-ends}
use kv_store.Raft.Apply.{Replica}
use kv_store.Raft.Apply.Drain.{turns, apply_entries, due, turns-entries}
use kv_store.Tests.Raft.{node, leader_node, entry_of, id_b, id_c}

-- Both peers grant their votes.
abbrev arrivals : List Arrival
arrivals =
    record {
      meanwhile = λ n. n;
      response = record { term = 3; vote_granted = true };
      outcome = saved;
    }
    ∷ record {
      meanwhile = λ n. n;
      response = record { term = 3; vote_granted = true };
      outcome = saved;
    }
    ∷ []

elected : is_leader (start_election saved (λ n. n) arrivals (λ n. n) node).role ≡ true
unfolding start_election tally conclude_tally conclude become_candidate become_leader persist
    majority
elected = refl

start_election-quorum_example :
    (2 ≤ 1 + granted arrivals) × ((start_election saved (λ n. n) arrivals (λ n. n) node).term ≡ 3)
unfolding majority
start_election-quorum_example =
    start_election-quorum saved (λ n. n) arrivals (λ n. n) node (λ n h. h)
      ((λ n h. h), ((λ n h. h), tt)) (λ n h. h) elected

enough_granted : majority node.peers ≤ 1 + granted arrivals
unfolding majority granted
enough_granted = omega arith

candidate_saved : (persist saved (become_candidate node)).1 ≡ true
unfolding persist become_candidate
candidate_saved = refl

quorum-start_election_example :
    start_election saved (λ n. n) arrivals (λ m. m) node
    ≡ become_leader (persist saved (become_candidate node)).0
quorum-start_election_example =
    quorum-start_election saved arrivals node candidate_saved
      ((λ n. refl), omega arith, ((λ n. refl), omega arith, tt)) enough_granted

-- A leader whose follower still lacks the third entry.
abbrev sender : Node
sender = record leader_node {
  repl = some (record {
    next_index = λ _. 3;
    match_index = λ _. 0;
    in_flight = λ _. false;
    backoff = λ _. 0;
  });
}

sends : (start_replication sender id_b).1 ≡ send (append_request sender 3)
unfolding start_replication repl_of
sends = refl

-- The follower, with two of the entries.
abbrev lagging : Node
lagging = record node { log = entry_of 1 7 ∷ entry_of 1 8 ∷ [] }

request-IsFromLog : IsFromLog sender (append_request sender 3)
request-IsFromLog = (start_replication-IsFromLog sender id_b (append_request sender 3) sends).0

replicated_succeeds :
    (handle_append_entries saved lagging (append_request sender 3)).1.success ≡ true
unfolding handle_append_entries follow_leader check_prev_log log_term_at entry_at accept_entries
    merge_entries merge_loop cut_suffix advance_commit acknowledge persist become_follower
    append_request
replicated_succeeds = refl

replicated-Agrees : Agrees lagging 3 (append_request sender 3).entries
unfolding append_request entry_at
replicated-Agrees = (λ a found same. ground arith, tt)

replicated_example :
    entry_at (handle_append_entries saved lagging (append_request sender 3)).0 3 ≡ entry_at sender 3
unfolding append_request
replicated_example =
    replicated saved sender lagging (append_request sender 3) 3 request-IsFromLog replicated-Agrees
      replicated_succeeds (omega arith) (omega arith)

-- A peer that refuses whatever it gets.
replicate_to_peer-ends_example :
    replicate_to_peer 7
      (λ k req. some (record { term = 2; success = false }))
      (λ k n. n)
      (λ k n. n)
      id_b
      0
      sender
    ≢ none
replicate_to_peer-ends_example =
    replicate_to_peer-ends (λ k req. some (record { term = 2; success = false })) (λ k n. n)
      (λ k n. n) id_b (λ k n. omega arith) (λ k n. omega arith) sender

node-IsOrdered : IsOrdered node
node-IsOrdered = record { base-applied = omega arith; applied-committed = omega arith }

compact_log-indexes_example :
    IsOrdered (compact_log node 2 (pos 1))
    × (2 ≤ (compact_log node 2 (pos 1)).last_included_index)
    × (2 ≤ (compact_log node 2 (pos 1)).commit_index)
    × (1 ≤ (compact_log node 2 (pos 1)).last_applied)
compact_log-indexes_example = compact_log-indexes node 2 (pos 1) node-IsOrdered

term_at_two : pos 1 ≡ log_term_at node 2
unfolding log_term_at entry_at
term_at_two = refl

compact_log_base : (compact_log node 2 (pos 1)).last_included_index ≤ 3
unfolding compact_log
compact_log_base = omega arith

compact_log-entries_example :
    (log_term_at (compact_log node 2 (pos 1)) 3 ≡ log_term_at node 3)
    × ((compact_log node 2 (pos 1)).last_included_index < 3
        → entry_at (compact_log node 2 (pos 1)) 3 ≡ entry_at node 3)
compact_log-entries_example =
    compact_log-entries node 2 (pos 1) 3 (omega arith) term_at_two compact_log_base

abbrev snapshot_request : InstallSnapshotRequest
snapshot_request = record {
  term = 2;
  leader_id = id_c;
  last_included_index = 2;
  last_included_term = pos 1;
  snapshot = b's' ∷ [];
}

install-ahead_example :
    ((handle_install_snapshot saved node snapshot_request).1 ≡ some (b's' ∷ []))
    × ((handle_install_snapshot saved node snapshot_request).2.success ≡ true)
    × IsInstalled node snapshot_request (handle_install_snapshot saved node snapshot_request).0
install-ahead_example =
    install-ahead saved node snapshot_request node-IsOrdered (omega arith) (omega arith)

abbrev old_snapshot : InstallSnapshotRequest
old_snapshot = record snapshot_request { last_included_index = 1 }

install-behind_example :
    ((handle_install_snapshot saved node old_snapshot).1 ≡ none)
    × ((handle_install_snapshot saved node old_snapshot).0.log ≡ node.log)
    × ((handle_install_snapshot saved node old_snapshot).0.last_included_index ≡ 0)
    × ((handle_install_snapshot saved node old_snapshot).0.last_applied ≡ 1)
    × ((handle_install_snapshot saved node old_snapshot).0.commit_index ≡ 2)
install-behind_example = install-behind saved node old_snapshot (omega arith)

abbrev replica : Replica
replica = record { node = node; store = new_mem_store; results = [] }

abbrev clock : ℕ → ℤ
clock idx = pos (100 + idx)

turns-entries_example :
    ((turns clock 1 replica).store ≡ apply_entries clock 2 (due 1 node) new_mem_store)
    × ((turns clock 1 replica).node ≡ record node { last_applied = 2 })
turns-entries_example = turns-entries clock 1 replica (omega arith) (omega arith) (omega arith)

-- The snapshot arrives between the picking of entry 2 and its application.
abbrev install : Replica → Replica
install r = record r {
  node = record r.node { log = drop 2 r.node.log; last_included_index = 2; last_applied = 2 };
}
