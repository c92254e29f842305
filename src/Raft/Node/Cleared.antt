-- ===== src/Raft/Node/Cleared.antt =====
-- A vote that is forgotten within its term (pkg/raft/node.go, HandleAppendEntries).
use kv_store.Common.{
  ℕ, ◌≡◌, ◌≢◌, ap, ◌∙◌, Bool, true, false, none, ltb, Bool-cases, inl, inr, arith,
}
use kv_store.Raft.Types.{Node, Role, VoteRequest, AppendEntriesRequest, become_follower}
use kv_store.Raft.Persistence.{SaveOutcome, saved, persist}
use kv_store.Raft.Follower.{check_prev_log}
use kv_store.Raft.Follower.Merge.{merge_entries-frame}
use kv_store.Raft.Node.Append.{accept-SameFields}
use kv_store.Raft.Node.{
  follow_leader, accept_entries, acknowledge, log_fresh, handle_append_entries, handle_request_vote,
}

-- No vote in a term.
abbrev Unvoted : ℕ → Node → Type 0
Unvoted t n = (n.voted_for ≡ none) × (n.term ≡ t)

follow-Unvoted :
    (n : Node) (req : AppendEntriesRequest)
    → n.role ≢ Role.follower
    → Unvoted req.term (follow_leader n req.term req.leader_id)
unfolding follow_leader become_follower
follow-Unvoted n req h = ground arith

accept-Unvoted :
    (n : Node) (req : AppendEntriesRequest)
    → Unvoted req.term n
    → Unvoted req.term (accept_entries n req).0
accept-Unvoted n req u =
    let s = accept-SameFields n req in
    let f = merge_entries-frame n req in
    (s.voted ∙ ap (λ (m : Node). m.voted_for) f ∙ u.0, s.term ∙ ap (λ (m : Node). m.term) f ∙ u.1)

acknowledge-Unvoted :
    (out : SaveOutcome) (n : Node) (changed : Bool) (t : ℕ)
    → Unvoted t n
    → Unvoted t (acknowledge out n changed).0
unfolding acknowledge persist
acknowledge-Unvoted out n changed t u = ground arith

append-Unvoted :
    (out : SaveOutcome) (n : Node) (req : AppendEntriesRequest)
    → n.role ≢ Role.follower
    → n.term ≡ req.term
    → Unvoted req.term (handle_append_entries out n req).0
unfolding handle_append_entries
append-Unvoted out n req h same =
    let f = follow_leader n req.term req.leader_id in
    let u = follow-Unvoted n req h in
    let current : ltb req.term n.term ≡ false = ground arith in
    elim (Bool-cases (check_prev_log f req.prev_log_index req.prev_log_term)) [
      | inl matches ↦
          rw (current, matches)
            (acknowledge-Unvoted out (accept_entries f req).0 (accept_entries f req).1 req.term
              (accept-Unvoted f req u))
      | inr differs ↦ rw (current, differs) u
    ]

-- A candidate or leader that has got an AppendEntries of its own term grants a vote of that term, if it can
-- save it, to any candidate whose log is as fresh as its own, whomever it had voted for.
pub append-votes_again :
    (out : SaveOutcome) (n : Node) (req : AppendEntriesRequest) (vote : VoteRequest)
    → n.role ≢ Role.follower
    → n.term ≡ req.term
    → vote.term ≡ req.term
    → log_fresh (handle_append_entries out n req).0 vote ≡ true
    → (handle_request_vote saved (handle_append_entries out n req).0 vote).1.vote_granted ≡ true
unfolding handle_request_vote persist
append-votes_again out n req vote h same t fresh =
    let u = append-Unvoted out n req h same in ground arith
