-- ===== src/Tests/Votes.antt =====
-- Runs of votes that others interrupt (pkg/raft/node.go).
use kv_store.Common.{◌≡◌, inl, pos, true, some, [], bytes_eq, refl, arith}
use kv_store.Raft.Types.{
  Node, Role, VoteRequest, AppendEntriesRequest, entry_at, log_term_at, become_follower,
}
use kv_store.Raft.Persistence.{saved, persist, raft_state, restart}
use kv_store.Raft.Follower.{check_prev_log, merge_entries, merge_loop, cut_suffix}
use kv_store.Raft.Node.{
  handle_request_vote, handle_append_entries, follow_leader, vote_step_down, accept_entries,
  advance_commit, acknowledge, log_fresh,
}
use kv_store.Raft.Node.Interleaved.{decide_vote, merge_request, IsSaved}
use kv_store.Raft.Node.Interleaved.Votes.{one_vote_interleaved, more, done, merge, crash, start}
use kv_store.Raft.Node.Cleared.{append-votes_again}
use kv_store.Tests.Raft.{node, id_a, id_b, id_c, vote_for, append_request}

-- The node votes for b and is interrupted before the save by a later AppendEntries of the same term.
abbrev late_request : AppendEntriesRequest
late_request = record append_request { term = 3 }

-- The same node with its state in the file.
abbrev saved_node : Node
saved_node = record node { raft_store = some (raft_state node) }

node-IsSaved : IsSaved saved_node
node-IsSaved = record { wired = λ e. ground arith; clean = λ e. refl }

decides : (decide_vote saved_node (vote_for id_b)).1 ≡ true
unfolding decide_vote vote_step_down become_follower bytes_eq
decides = refl

decided_follower : (decide_vote saved_node (vote_for id_b)).0.role ≡ Role.follower
unfolding decide_vote vote_step_down become_follower bytes_eq
decided_follower = refl

abbrev interrupted : Node
interrupted = merge_request (decide_vote saved_node (vote_for id_b)).0 late_request

interrupted_saved : (persist saved interrupted).1 ≡ true
unfolding persist decide_vote vote_step_down merge_request become_follower follow_leader
    check_prev_log accept_entries merge_entries merge_loop cut_suffix advance_commit log_term_at
    entry_at
interrupted_saved = refl

decides_again :
    (decide_vote
      (restart (persist saved interrupted).0)
      (record (vote_for id_b) { last_log_index = 9; last_log_term = pos 9 })).1
    ≡ true
unfolding persist decide_vote vote_step_down merge_request become_follower follow_leader
    check_prev_log accept_entries merge_entries merge_loop cut_suffix advance_commit log_term_at
    entry_at restart bytes_eq
decides_again = refl

one_vote_interleaved_example : id_b ≡ id_b
one_vote_interleaved_example =
    one_vote_interleaved saved saved_node interrupted (restart (persist saved interrupted).0)
      (vote_for id_b) (record (vote_for id_b) { last_log_index = 9; last_log_term = pos 9 })
      node-IsSaved decides (more done (merge late_request (inl (decided_follower))))
      interrupted_saved (crash start) decides_again refl

abbrev rival : VoteRequest
rival = record (vote_for id_c) { term = 2 }

-- A candidate of term 2 that has voted for itself, and a probe of the leader of that term.
abbrev voted : Node
voted = record node { role = Role.candidate; voted_for = some id_a }

abbrev probe : AppendEntriesRequest
probe = record append_request {
  term = 2;
  prev_log_index = 3;
  prev_log_term = pos 2;
  entries = [];
  leader_commit = 2;
}

rival_fresh : log_fresh (handle_append_entries saved voted probe).0 rival ≡ true
unfolding handle_append_entries follow_leader check_prev_log log_term_at entry_at accept_entries
    merge_entries merge_loop cut_suffix advance_commit acknowledge persist become_follower
rival_fresh = refl

append-votes_again_example :
    (handle_request_vote saved (handle_append_entries saved voted probe).0 rival).1.vote_granted
    ≡ true
append-votes_again_example =
    append-votes_again saved voted probe rival (λ e. ground arith) refl refl rival_fresh
