-- ===== src/Tests/Raft.antt =====
-- Runs of the consensus layer (pkg/raft) on a node of a cluster of three.
use kv_store.Common.{
  ℕ, ◌≤◌, ◌<◌, ◌≡◌, ◌⊎◌, pos, true, false, none, some, [], ◌∷◌, ◌++◌, Bytes, bytes_eq, refl, arith,
  take, drop, if◌then◌else◌, ◌==◌,
}
use kv_store.Storage.Engine.{Command, op_put}
use kv_store.Raft.Types.{
  Entry, Node, Role, RaftState, VoteRequest, AppendEntriesRequest, entry_at, log_term_at,
  become_follower,
}
use kv_store.Raft.Persistence.{saved, save_failed, persist, raft_state, restart}
use kv_store.Raft.Replication.{majority, repl_of}
use kv_store.Raft.Commit.{match_indexes, threshold, current_term_at, maybe_commit}
use kv_store.Raft.Commit.Sort.{count_reaching, sort_ints}
use kv_store.Raft.Commit.Quorum.{maybe_commit-quorum}
use kv_store.Raft.Follower.{check_prev_log, merge_entries, merge_loop, cut_suffix}
use kv_store.Raft.Follower.Merge.{Agrees}
use kv_store.Raft.Node.{
  handle_request_vote, handle_append_entries, follow_leader, accept_entries, advance_commit,
  acknowledge,
}
use kv_store.Raft.Node.Append.{
  Accepted, append-Accepted, append-log, append-durable, append_drops_committed,
}
use kv_store.Raft.Node.Retried.{append-retry}
use kv_store.Raft.Node.Vote.{here, next, one_vote_per_term}
use kv_store.Raft.Node.Vote.{Step}

abbrev pub id_a : Bytes
id_a = b'a' ∷ []

abbrev pub id_b : Bytes
id_b = b'b' ∷ []

abbrev pub id_c : Bytes
id_c = b'c' ∷ []

abbrev pub command : ℕ → Command
command v = record { op = op_put; key = b'k' ∷ []; old = []; value = v ∷ []; expires_at = pos 0 }

abbrev pub entry_of : ℕ → ℕ → Entry
entry_of term v = record { term = term; cmd = command v }

abbrev empty_state : RaftState
empty_state = record {
  term = 0;
  voted_for = none;
  log = [];
  last_included_index = 0;
  last_included_term = pos 0;
}

-- A follower in term 2 with three entries, the first two committed, and a durable file.
abbrev pub node : Node
node = record {
  id = id_a;
  peers = id_b ∷ id_c ∷ [];
  role = Role.follower;
  term = 2;
  voted_for = none;
  leader_id = none;
  log = entry_of 1 7 ∷ entry_of 1 8 ∷ entry_of 2 9 ∷ [];
  commit_index = 2;
  last_applied = 1;
  last_quorum_ack = 0;
  repl = none;
  raft_store = some empty_state;
  dirty = false;
  last_included_index = 0;
  last_included_term = pos 0;
  reset_election = false;
}

abbrev pub vote_for : Bytes → VoteRequest
vote_for c = record { term = 3; candidate_id = c; last_log_index = 3; last_log_term = pos 2 }

one_vote_per_term_example : id_b ≡ id_b
unfolding handle_request_vote restart bytes_eq
one_vote_per_term_example =
    one_vote_per_term saved saved node (restart (handle_request_vote saved node (vote_for id_b)).0)
      (vote_for id_b) (vote_for id_b) (λ e. ground arith) refl (next here Step.crash) refl refl

-- The leader's entries from index 2 on: the second entry again, and another third one.
abbrev pub append_request : AppendEntriesRequest
append_request = record {
  term = 3;
  leader_id = id_b;
  prev_log_index = 1;
  prev_log_term = pos 1;
  entries = entry_of 1 8 ∷ entry_of 3 5 ∷ entry_of 3 6 ∷ [];
  leader_commit = 3;
}

abbrev appended : Node
appended = (handle_append_entries saved node append_request).0

append_run :
    (appended.log ≡ entry_of 1 7 ∷ entry_of 1 8 ∷ entry_of 3 5 ∷ entry_of 3 6 ∷ [])
    × (appended.commit_index ≡ 3)
unfolding handle_append_entries follow_leader check_prev_log log_term_at entry_at accept_entries
    merge_entries merge_loop cut_suffix advance_commit acknowledge persist become_follower
append_run = (refl, refl)

append_succeeds : (handle_append_entries saved node append_request).1.success ≡ true
unfolding handle_append_entries follow_leader check_prev_log log_term_at entry_at accept_entries
    merge_entries merge_loop cut_suffix advance_commit acknowledge persist become_follower
append_succeeds = refl

append-Accepted_example : Accepted node append_request appended
append-Accepted_example = append-Accepted saved node append_request append_succeeds

append-Agrees : Agrees node 2 append_request.entries
unfolding entry_at
append-Agrees = (
  λ a found same. ground arith,
  (λ a found same. ground arith, (λ a found same. ground arith, tt)),
)

append-log_example : appended.log ≡ take 1 node.log ++ drop 0 append_request.entries
append-log_example = append-log saved node append_request append_succeeds append-Agrees

append-durable_example :
    (appended.raft_store ≡ some (raft_state appended)) ⊎ (appended.log ≡ node.log)
append-durable_example =
    append-durable saved node append_request append_succeeds (λ e. ground arith)

abbrev stale_request : AppendEntriesRequest
stale_request = record append_request { term = 1 }

-- A delayed request of the leader with the first entry alone.
abbrev short_request : AppendEntriesRequest
short_request = record {
  term = 2;
  leader_id = id_b;
  prev_log_index = 0;
  prev_log_term = pos 0;
  entries = entry_of 1 7 ∷ [];
  leader_commit = 2;
}

short_succeeds : (handle_append_entries saved node short_request).1.success ≡ true
unfolding handle_append_entries follow_leader check_prev_log log_term_at entry_at accept_entries
    merge_entries merge_loop cut_suffix advance_commit acknowledge persist become_follower
short_succeeds = refl

append_drops_committed_example :
    entry_at (handle_append_entries saved node short_request).0 2 ≡ none
unfolding entry_at
append_drops_committed_example =
    append_drops_committed saved node short_request (entry_of 1 8) short_succeeds refl (omega arith)

-- The same log on a leader that knows one follower at index 3.
abbrev pub leader_node : Node
leader_node = record node {
  role = Role.leader;
  repl = some (record {
    next_index = λ _. 4;
    match_index = λ p. elim p [ [] ↦ 0 | c ∷ _ ↦ if c == b'b' then 3 else 0 ];
    in_flight = λ _. false;
    backoff = λ _. 0;
  });
}

leader_commits : (maybe_commit leader_node).commit_index ≡ 3
unfolding maybe_commit threshold current_term_at match_indexes majority repl_of sort_ints entry_at
leader_commits = refl

maybe_commit-quorum_example :
    (leader_node.role ≡ Role.leader)
    × (2 < (maybe_commit leader_node).commit_index)
    × (majority leader_node.peers
        ≤ count_reaching (maybe_commit leader_node).commit_index (match_indexes leader_node))
    × ((e : Entry) × (entry_at leader_node (maybe_commit leader_node).commit_index ≡ some e)
        × (e.term ≡ 2))
maybe_commit-quorum_example = maybe_commit-quorum leader_node (λ e. omega (arith, leader_commits))

threshold_current : current_term_at leader_node (threshold leader_node) ≡ true
unfolding threshold current_term_at match_indexes majority repl_of sort_ints entry_at
threshold_current = refl

-- The same request with a commit index that the node has.
abbrev later_request : AppendEntriesRequest
later_request = record append_request { leader_commit = 2 }

later_succeeds : (handle_append_entries saved node later_request).1.success ≡ true
unfolding handle_append_entries follow_leader check_prev_log log_term_at entry_at accept_entries
    merge_entries merge_loop cut_suffix advance_commit acknowledge persist become_follower
later_succeeds = refl

-- Its save fails, and it is refused.
abbrev unsaved : Node
unsaved = (handle_append_entries save_failed node later_request).0

unsaved_refused : (handle_append_entries save_failed node later_request).1.success ≡ false
unfolding handle_append_entries follow_leader check_prev_log log_term_at entry_at accept_entries
    merge_entries merge_loop cut_suffix advance_commit acknowledge persist become_follower
unsaved_refused = refl

append-retry_example :
    ((handle_append_entries saved unsaved later_request).1.success ≡ true)
    × ((handle_append_entries saved unsaved later_request).0.raft_store ≡ some empty_state)
    × ((handle_append_entries saved unsaved later_request).0.log
        ≡ take 1 node.log ++ later_request.entries)
append-retry_example =
    append-retry node later_request later_succeeds (omega arith) append-Agrees (omega arith) saved
