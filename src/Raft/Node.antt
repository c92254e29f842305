-- ===== src/Raft/Node.antt =====
-- pkg/raft/node.go: the handlers of RequestVote and AppendEntries. A handler takes how its save ends,
-- the node and the request, and returns the new node and the response.
pub mod Vote
pub mod Append
pub mod Cleared
pub mod Interleaved
pub mod Repeated
pub mod Retried
use kv_store.Common.{
  ℕ, Bool, true, false, ◌&&◌, ◌||◌, Option, none, some, Bytes, bytes_eq, ltb, leb, ltb_ℤ, ◌==ℤ◌,
  if◌then◌else◌,
}
use kv_store.Raft.Types.{
  VoteRequest, VoteResponse, AppendEntriesRequest, AppendEntriesResponse, Node, is_follower,
  last_log_index, last_log_term, become_follower,
}
use kv_store.Raft.Persistence.{SaveOutcome, persist}
use kv_store.Raft.Follower.{check_prev_log, merge_entries}

abbrev pub not_voted_yet : Node → VoteRequest → Bool
not_voted_yet n req = elim n.voted_for [ none ↦ true | some c ↦ bytes_eq c req.candidate_id ]

abbrev pub log_fresh : Node → VoteRequest → Bool
log_fresh n req =
    ltb_ℤ (last_log_term n) req.last_log_term
    || (req.last_log_term ==ℤ last_log_term n && leb (last_log_index n) req.last_log_index)

-- The state in which the vote is decided.
unfoldable pub vote_step_down : Node → VoteRequest → Node
unfolding become_follower
vote_step_down n req = if ltb n.term req.term then become_follower n req.term none else n

abbrev cast_vote : Node → VoteRequest → Node
cast_vote n req = record n {
  voted_for = some req.candidate_id;
  dirty = true;
  reset_election = true;
}

-- The vote counts only if it was saved.
unfoldable pub grant_vote : SaveOutcome → Node → VoteRequest → Node × VoteResponse
unfolding persist
grant_vote out n req =
    let (n', ok) = persist out (cast_vote n req) in
    (n', record { term = n.term; vote_granted = ok })

unfoldable pub handle_request_vote : SaveOutcome → Node → VoteRequest → Node × VoteResponse
unfolding vote_step_down grant_vote
handle_request_vote out n req =
    if ltb req.term n.term
    then (n, record { term = n.term; vote_granted = false })
    else (let n' = vote_step_down n req in
        if not_voted_yet n' req && log_fresh n' req
        then grant_vote out n' req
        else (n', record { term = n'.term; vote_granted = false }))

-- Following the sender of a request that is not from an older term.
unfoldable pub follow_leader : Node → ℕ → Bytes → Node
unfolding become_follower
follow_leader n term leader_id =
    if ltb n.term term || (if is_follower n.role then false else true)
    then record (become_follower n term (some leader_id)) { reset_election = true }
    else record n { leader_id = some leader_id; reset_election = true }

-- The leader's commit index, as far as the log goes.
commit_target : Node → ℕ → ℕ
commit_target n leader_commit =
    if ltb leader_commit (last_log_index n) then leader_commit else last_log_index n

-- The advance of the commit index, with whether it moved.
unfoldable pub advance_commit : Node → ℕ → Node × Bool
unfolding commit_target
advance_commit n leader_commit =
    if ltb n.commit_index leader_commit
    then (record n { commit_index = commit_target n leader_commit; dirty = true }, true)
    else (n, false)

abbrev mark_dirty : Bool → Node → Node
mark_dirty changed n = record n { dirty = if changed then true else n.dirty }

-- The merge and the commit advance of an accepted request, and whether anything changed.
unfoldable pub accept_entries : Node → AppendEntriesRequest → Node × Bool
accept_entries n req =
    let (n', merged) = merge_entries n req in
    let (n'', moved) = advance_commit (mark_dirty merged n') req.leader_commit in
    (n'', merged || moved)

unfoldable pub acknowledge : SaveOutcome → Node → Bool → Node × AppendEntriesResponse
acknowledge out n changed =
    let (n', ok) = persist out n in
    if changed
    then (n', record { term = n.term; success = ok })
    else (n, record { term = n.term; success = true })

unfoldable pub handle_append_entries :
    SaveOutcome → Node → AppendEntriesRequest → Node × AppendEntriesResponse
handle_append_entries out n req =
    if ltb req.term n.term
    then (n, record { term = n.term; success = false })
    else (let n' = follow_leader n req.term req.leader_id in
        if check_prev_log n' req.prev_log_index req.prev_log_term
        then (let (n'', changed) = accept_entries n' req in acknowledge out n'' changed)
        else (n', record { term = n'.term; success = false }))
