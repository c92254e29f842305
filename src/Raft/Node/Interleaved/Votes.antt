-- ===== src/Raft/Node/Interleaved/Votes.antt =====
-- One vote in a term, when the locked sections of the handlers, saves and crashes interleave
-- (pkg/raft/node.go).
use mathlib.Core.Path.{subst}
use kv_store.Common.{ℕ, ◌≡◌, ◌≢◌, ◌<◌, sym, ◌⊎◌, true, none, Bytes, bytes_eq_iff, arith}
use kv_store.Raft.Types.{
  VoteRequest, AppendEntriesRequest, Node, Role, become_follower, become_candidate,
}
use kv_store.Raft.Election.{conclude}
use kv_store.Raft.Persistence.{SaveOutcome, persist, restart}
use kv_store.Raft.Node.Vote.{Bound, FileBound, IsBound, persist-IsBound, restart-IsBound}
use kv_store.Raft.Node.{vote_step_down}
use kv_store.Raft.Node.Interleaved.Elections.{
  IsQuiet, candidate-Bound, candidate-IsSaved, candidate-store, higher-Bound, follower-IsSaved,
  follower-store, conclude-IsQuiet, quiet-Bound, quiet-IsSaved,
}
use kv_store.Raft.Node.Interleaved.{
  decide_vote, merge_request, IsSaved, decide-IsSaved, persist-IsSaved, merge-IsSaved, decide-Bound,
  merge-Bound, persist-Bound, persist-FileBound, decide-store, merge-store,
}

-- What other goroutines do while the process lives: a locked section of HandleRequestVote or HandleAppendEntries, a
-- save, or of startElection the start, the step down at a response of a higher term, and an end that makes a leader;
-- and any section that leaves the term, the vote and the file alone and marks the node where it changes what is
-- saved. Left out are what clears the vote of the node's own term: an AppendEntries or a snapshot of that term while
-- the node is candidate or leader, an end of startElection that makes no leader, and the step down of a leader.
pub data Move (n : Node) : Node → Type 0 where
  decide : (req : VoteRequest) → Move n (decide_vote n req).0
  merge :
      (req : AppendEntriesRequest)
      → (n.role ≡ Role.follower) ⊎ (n.term ≢ req.term)
      → Move n (merge_request n req)
  flush : (out : SaveOutcome) → Move n (persist out n).0
  campaign : Move n (become_candidate n)
  hear : (term : ℕ) → n.term < term → Move n (become_follower n term none)
  win :
      (quorum term votes : ℕ)
      → (conclude quorum term n votes).role ≡ Role.leader
      → Move n (conclude quorum term n votes)
  other : (m : Node) → IsQuiet n m → Move n m

pub data Moves (n : Node) : Node → Type 0 where
  done : Moves n n
  more : {m l : Node} → Moves n m → Move m l → Moves n l

-- The same, with crashes.
pub data Life (n : Node) : Node → Type 0 where
  start : Life n n
  move : {m l : Node} → Life n m → Move m l → Life n l
  crash : {m : Node} → Life n m → Life n (restart m)

-- Between the decision and the save the bound is in memory alone.
record IsPending (t : ℕ) (c : Bytes) (n : Node) : Type 0 where
  memory : Bound t c n.term n.voted_for
  saved : IsSaved n

quiet-IsPending : {n m : Node} (t : ℕ) (c : Bytes) → IsQuiet n m → IsPending t c n → IsPending t c m
quiet-IsPending {n} {m} t c q p = record {
  memory = quiet-Bound n m t c q p.memory;
  saved = quiet-IsSaved n m q p.saved;
}

Move-IsPending : {n m : Node} (t : ℕ) (c : Bytes) → Move n m → IsPending t c n → IsPending t c m
Move-IsPending {n} t c (decide req) p = record {
  memory = decide-Bound n req t c p.memory;
  saved = decide-IsSaved n req p.saved;
}
Move-IsPending {n} t c (merge req safe) p = record {
  memory = merge-Bound n req t c safe p.memory;
  saved = merge-IsSaved n req p.saved;
}
Move-IsPending {n} t c (flush out) p = record {
  memory = persist-Bound out n t c p.memory;
  saved = persist-IsSaved out n p.saved;
}
Move-IsPending {n} t c campaign p = record {
  memory = candidate-Bound n t c p.memory;
  saved = candidate-IsSaved n p.saved;
}
Move-IsPending {n} t c (hear term lt) p = record {
  memory = higher-Bound n term t c lt p.memory;
  saved = follower-IsSaved n term lt p.saved;
}
Move-IsPending {n} t c (win quorum term votes h) p =
    quiet-IsPending t c (conclude-IsQuiet quorum term n votes h) p
Move-IsPending t c (other m q) p = quiet-IsPending t c q p

Moves-IsPending : {n m : Node} (t : ℕ) (c : Bytes) → Moves n m → IsPending t c n → IsPending t c m
Moves-IsPending t c done p = p
Moves-IsPending t c (more ms m) p = Move-IsPending t c m (Moves-IsPending t c ms p)

quiet-IsBound : {n m : Node} (t : ℕ) (c : Bytes) → IsQuiet n m → IsBound t c n → IsBound t c m
quiet-IsBound {n} {m} t c q b = record {
  memory = quiet-Bound n m t c q b.memory;
  file = subst (FileBound t c) (sym q.store) b.file;
}

Move-IsBound : {n m : Node} (t : ℕ) (c : Bytes) → Move n m → IsBound t c n → IsBound t c m
Move-IsBound {n} t c (decide req) b = record {
  memory = decide-Bound n req t c b.memory;
  file = subst (FileBound t c) (sym (decide-store n req)) b.file;
}
Move-IsBound {n} t c (merge req safe) b = record {
  memory = merge-Bound n req t c safe b.memory;
  file = subst (FileBound t c) (sym (merge-store n req)) b.file;
}
Move-IsBound {n} t c (flush out) b = persist-IsBound out n t c b
Move-IsBound {n} t c campaign b = record {
  memory = candidate-Bound n t c b.memory;
  file = subst (FileBound t c) (sym (candidate-store n)) b.file;
}
Move-IsBound {n} t c (hear term lt) b = record {
  memory = higher-Bound n term t c lt b.memory;
  file = subst (FileBound t c) (sym (follower-store n term)) b.file;
}
Move-IsBound {n} t c (win quorum term votes h) b =
    quiet-IsBound t c (conclude-IsQuiet quorum term n votes h) b
Move-IsBound t c (other m q) b = quiet-IsBound t c q b

Life-IsBound : {n m : Node} (t : ℕ) (c : Bytes) → Life n m → IsBound t c n → IsBound t c m
Life-IsBound t c start b = b
Life-IsBound t c (move l m) b = Move-IsBound t c m (Life-IsBound t c l b)
Life-IsBound t c (crash {m} l) b = restart-IsBound m t c (Life-IsBound t c l b)

decided-Bound :
    (n : Node) (req : VoteRequest)
    → (decide_vote n req).1 ≡ true
    → Bound req.term req.candidate_id (decide_vote n req).0.term (decide_vote n req).0.voted_for
unfolding decide_vote vote_step_down become_follower
decided-Bound n req h = ground arith

decided-candidate :
    (n : Node) (req : VoteRequest) (c : Bytes)
    → Bound req.term c n.term n.voted_for
    → (decide_vote n req).1 ≡ true
    → c ≡ req.candidate_id
unfolding decide_vote vote_step_down become_follower
decided-candidate n req c b h = ground (arith, bytes_eq_iff c req.candidate_id)

-- A node whose file is up to date unless it is dirty decides for a candidate; moves come between; its own save
-- returns without an error. Whatever moves and crashes follow, it decides for no other candidate of the same term.
-- A move is a locked section of HandleRequestVote or HandleAppendEntries, a save, the start of an election, its
-- step down at a higher term or its win, or a section that leaves the term, the vote and the file alone and marks
-- the node where it changes what is saved. No move is an AppendEntries or a snapshot of the node's own term that
-- reaches it while it is candidate or leader, an election's end without a win, or the step down of a leader in its
-- term, which clear the vote.
pub one_vote_interleaved :
    (out : SaveOutcome) (n m l : Node) (req req' : VoteRequest)
    → IsSaved n
    → (decide_vote n req).1 ≡ true
    → Moves (decide_vote n req).0 m
    → (persist out m).1 ≡ true
    → Life (persist out m).0 l
    → (decide_vote l req').1 ≡ true
    → req'.term ≡ req.term
    → req'.candidate_id ≡ req.candidate_id
one_vote_interleaved out n m l req req' s d moves ok life d' same =
    let c = req.candidate_id in
    let pending =
      Moves-IsPending req.term c moves
        (record { memory = decided-Bound n req d; saved = decide-IsSaved n req s }) in
    let bound : IsBound req.term c (persist out m).0 = record {
      memory = persist-Bound out m req.term c pending.memory;
      file = persist-FileBound out m req.term c pending.saved pending.memory ok;
    } in
    sym (decided-candidate l req' c (rw same (Life-IsBound req.term c life bound).memory) d')
