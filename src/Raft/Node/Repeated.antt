-- ===== src/Raft/Node/Repeated.antt =====
-- A RequestVote that is delivered twice (pkg/raft/node.go, HandleRequestVote).
use kv_store.Common.{
  ℕ, ◌+◌, ◌≤◌, ◌≡◌, true, false, some, length, drop, ◌∙◌, refl, arith, bytes_eq_iff,
}
use kv_store.Raft.Types.{
  Node, VoteRequest, AppendEntriesRequest, is_follower, log_term_at, entry_at,
}
use kv_store.Raft.Persistence.{SaveOutcome}
use kv_store.Raft.Follower.{check_prev_log, merge_entries}
use kv_store.Raft.Follower.Again.{merge_entries-held}
use kv_store.Raft.Node.{
  handle_request_vote, handle_append_entries, follow_leader, accept_entries, advance_commit,
  acknowledge,
}

-- A second delivery of a vote request leaves the state and gives the response of the first, if its save ends the same way.
pub vote-again :
    (out : SaveOutcome) (n : Node) (req : VoteRequest)
    → handle_request_vote out (handle_request_vote out n req).0 req ≡ handle_request_vote out n req
unfolding handle_request_vote
vote-again out n req = ground (arith, bytes_eq_iff req.candidate_id req.candidate_id)

accept-held :
    (n : Node) (req : AppendEntriesRequest)
    → merge_entries n req ≡ (n, false)
    → req.leader_commit ≤ n.commit_index
    → accept_entries n req ≡ (n, false)
unfolding accept_entries advance_commit
accept-held n req same commit = ground arith

module _ (out : SaveOutcome) (n : Node) (req : AppendEntriesRequest) (k : ℕ) where
  abbrev heard : Node
  heard = record n { leader_id = some req.leader_id; reset_election = true }

  heard_leader :
      req.term ≡ n.term → is_follower n.role ≡ true → follow_leader n req.term req.leader_id ≡ heard
  unfolding follow_leader
  heard_leader term role = ground arith

  heard-prev :
      check_prev_log heard req.prev_log_index req.prev_log_term
      ≡ check_prev_log n req.prev_log_index req.prev_log_term
  unfolding check_prev_log log_term_at entry_at
  heard-prev = refl

  -- A follower that holds the entries of a request of its term, behind a preceding entry that matches, and the commit
  -- index of it, acknowledges the request whatever the end of a save, and leaves its file as it is, also where the log
  -- in it is another one.
  pub append-held :
      req.term ≡ n.term
      → is_follower n.role ≡ true
      → check_prev_log n req.prev_log_index req.prev_log_term ≡ true
      → req.prev_log_index ≡ n.last_included_index + k
      → length n.log ≡ k + length req.entries
      → drop k n.log ≡ req.entries
      → req.leader_commit ≤ n.commit_index
      → ((handle_append_entries out n req).1.success ≡ true)
        × ((handle_append_entries out n req).0.raft_store ≡ n.raft_store)
        × ((handle_append_entries out n req).0.log ≡ n.log)
  unfolding handle_append_entries acknowledge
  append-held term role prev at size held commit =
      let follow = heard_leader term role in
      let found = heard-prev ∙ prev in
      let same = accept-held heard req (merge_entries-held heard req k at size held) commit in
      ground arith
