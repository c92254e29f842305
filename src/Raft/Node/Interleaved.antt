-- ===== src/Raft/Node/Interleaved.antt =====
-- The handlers of pkg/raft/node.go release the lock before they save, so other handlers run between the two:
-- the locked sections of HandleRequestVote and HandleAppendEntries as steps of their own. Elections has those of startElection.
pub mod Elections
pub mod Votes
use mathlib.Core.Path.{subst}
use kv_store.Common.{
  ℕ, ◌≤◌, ◌<◌, ◌≡◌, ◌≢◌, refl, sym, ap, ◌∙◌, ◌⊎◌, inl, inr, Bool, true, false, ◌&&◌, Option, none,
  some, Bytes, bytes_eq_iff, Bool-cases, ltb, if◌then◌else◌, arith,
}
use kv_store.Raft.Types.{VoteRequest, AppendEntriesRequest, RaftState, Node, Role, become_follower}
use kv_store.Raft.Persistence.{SaveOutcome, persist, restart, raft_state}
use kv_store.Raft.Follower.{check_prev_log}
use kv_store.Raft.Follower.Merge.{merge_entries-frame}
use kv_store.Raft.Node.Append.{accept-SameFields, accept-dirty, accept-unchanged}
use kv_store.Raft.Node.Vote.{Bound, FileBound, IsBound, persist-IsBound, restart-IsBound}
use kv_store.Raft.Node.{
  not_voted_yet, log_fresh, vote_step_down, cast_vote, follow_leader, accept_entries,
  handle_request_vote, acknowledge, handle_append_entries, advance_commit,
}

-- The locked section of HandleRequestVote, and whether it decides for the candidate.
unfoldable pub decide_vote : Node → VoteRequest → Node × Bool
decide_vote n req =
    if ltb req.term n.term
    then (n, false)
    else (let n' = vote_step_down n req in
        if not_voted_yet n' req && log_fresh n' req then (cast_vote n' req, true) else (n', false))

-- The locked section of HandleAppendEntries.
unfoldable pub merge_request : Node → AppendEntriesRequest → Node
merge_request n req =
    if ltb req.term n.term
    then n
    else (let n' = follow_leader n req.term req.leader_id in
        if check_prev_log n' req.prev_log_index req.prev_log_term
        then (accept_entries n' req).0
        else n')

-- A handler that nothing interrupts is its locked section and then a save.
pub handle_request_vote-decide :
    (out : SaveOutcome) (n : Node) (req : VoteRequest)
    → (decide_vote n req).1 ≡ true
    → ((handle_request_vote out n req).0 ≡ (persist out (decide_vote n req).0).0)
      × ((handle_request_vote out n req).1.vote_granted ≡ (persist out (decide_vote n req).0).1)
unfolding handle_request_vote decide_vote
handle_request_vote-decide out n req h = ground arith

-- A node that is not dirty has its state in the file.
pub record IsSaved (n : Node) : Type 0 where
  pub wired : n.raft_store ≢ none
  pub clean : n.dirty ≡ false → n.raft_store ≡ some (raft_state n)

pub decide-IsSaved : (n : Node) (req : VoteRequest) → IsSaved n → IsSaved (decide_vote n req).0
unfolding decide_vote vote_step_down become_follower
decide-IsSaved n req s = record { wired = ground arith; clean = λ d. ground arith }

pub persist-IsSaved : (out : SaveOutcome) (n : Node) → IsSaved n → IsSaved (persist out n).0
unfolding persist
persist-IsSaved out n s = record { wired = ground arith; clean = λ d. ground arith }

restart-IsSaved : (n : Node) → IsSaved n → IsSaved (restart n)
unfolding restart
restart-IsSaved n s = record { wired = ground arith; clean = λ d. ground arith }

follow-IsSaved :
    (n : Node) (req : AppendEntriesRequest)
    → IsSaved n
    → IsSaved (follow_leader n req.term req.leader_id)
unfolding follow_leader become_follower
follow-IsSaved n req s = record { wired = ground arith; clean = λ d. ground arith }

accept-clean :
    (n : Node) (req : AppendEntriesRequest)
    → (accept_entries n req).1 ≡ false
    → (accept_entries n req).0 ≡ n
unfolding accept_entries advance_commit
accept-clean n req h = ground (arith, accept-unchanged n req h)

accept-IsSaved :
    (n : Node) (req : AppendEntriesRequest) → IsSaved n → IsSaved (accept_entries n req).0
accept-IsSaved n req s = elim (Bool-cases (accept_entries n req).1) [
  | inl changed ↦
      let d = accept-dirty n req changed in
      let p = accept-SameFields n req in
      let f = merge_entries-frame n req in
      let store : (accept_entries n req).0.raft_store ≡ n.raft_store =
        p.store ∙ ap (λ (m : Node). m.raft_store) f in
      record { wired = λ e. s.wired (sym store ∙ e); clean = λ e. ground arith }
  | inr same ↦ subst IsSaved (sym (accept-clean n req same)) s
]

pub merge-IsSaved :
    (n : Node) (req : AppendEntriesRequest) → IsSaved n → IsSaved (merge_request n req)
unfolding merge_request
merge-IsSaved n req s =
    let f = follow_leader n req.term req.leader_id in
    let fs = follow-IsSaved n req s in
    elim (Bool-cases (ltb req.term n.term)) [
      | inl old ↦ rw old s
      | inr current ↦ elim (Bool-cases (check_prev_log f req.prev_log_index req.prev_log_term)) [
        | inl matches ↦ rw (current, matches) (accept-IsSaved f req fs)
        | inr differs ↦ rw (current, differs) fs
      ]
    ]

pub decide-Bound :
    (n : Node) (req : VoteRequest) (t : ℕ) (c : Bytes)
    → Bound t c n.term n.voted_for
    → Bound t c (decide_vote n req).0.term (decide_vote n req).0.voted_for
unfolding decide_vote vote_step_down become_follower
decide-Bound n req t c b = ground (arith, bytes_eq_iff c req.candidate_id)

follow-Bound :
    (n : Node) (req : AppendEntriesRequest) (t : ℕ) (c : Bytes)
    → (n.role ≡ Role.follower) ⊎ (n.term ≢ req.term)
    → n.term ≤ req.term
    → Bound t c n.term n.voted_for
    → Bound t c
        (follow_leader n req.term req.leader_id).term
        (follow_leader n req.term req.leader_id).voted_for
unfolding follow_leader become_follower
follow-Bound n req t c safe le b = ground arith

pub merge-Bound :
    (n : Node) (req : AppendEntriesRequest) (t : ℕ) (c : Bytes)
    → (n.role ≡ Role.follower) ⊎ (n.term ≢ req.term)
    → Bound t c n.term n.voted_for
    → Bound t c (merge_request n req).term (merge_request n req).voted_for
unfolding merge_request
merge-Bound n req t c safe b =
    let f = follow_leader n req.term req.leader_id in
    let p = accept-SameFields f req in
    let frame = merge_entries-frame f req in ground (arith, follow-Bound n req t c safe)

pub persist-Bound :
    (out : SaveOutcome) (n : Node) (t : ℕ) (c : Bytes)
    → Bound t c n.term n.voted_for
    → Bound t c (persist out n).0.term (persist out n).0.voted_for
unfolding persist
persist-Bound out n t c b = ground arith

-- A save without an error puts the bound into the file.
pub persist-FileBound :
    (out : SaveOutcome) (n : Node) (t : ℕ) (c : Bytes)
    → IsSaved n
    → Bound t c n.term n.voted_for
    → (persist out n).1 ≡ true
    → FileBound t c (persist out n).0.raft_store
unfolding persist
persist-FileBound out n t c s b ok = elim (Bool-cases n.dirty) [
  | inl changed ↦ ground arith
  | inr clean ↦ let file = s.clean clean in ground arith
]

pub decide-store : (n : Node) (req : VoteRequest) → (decide_vote n req).0.raft_store ≡ n.raft_store
unfolding decide_vote vote_step_down become_follower
decide-store n req = ground arith

pub merge-store :
    (n : Node) (req : AppendEntriesRequest) → (merge_request n req).raft_store ≡ n.raft_store
unfolding merge_request follow_leader become_follower
merge-store n req =
    let f = follow_leader n req.term req.leader_id in
    let p = accept-SameFields f req in let frame = merge_entries-frame f req in ground arith
