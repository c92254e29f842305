-- ===== src/Raft/Node/Vote.antt =====
-- One vote in a term (pkg/raft/node.go, HandleRequestVote), across later requests and crashes.
use native.Mathlib.Decide.{dec_le}
use kv_store.Common.{
  ℕ, ◌≤◌, ◌<◌, ◌≡◌, ◌≢◌, sym, ◌⊎◌, Bool, true, false, Option, none, some, Bytes, bytes_eq_iff,
  arith,
}
use kv_store.Raft.Types.{VoteRequest, AppendEntriesRequest, RaftState, Node, Role}
use kv_store.Raft.Persistence.{SaveOutcome, persist, restart}
use kv_store.Raft.Follower.Merge.{merge_entries-frame}
use kv_store.Raft.Node.Append.{accept-SameFields}
use kv_store.Raft.Node.{
  follow_leader, accept_entries, acknowledge, handle_request_vote, handle_append_entries,
}

-- The vote for `c` in term `t` cannot be given to another candidate by a node in term `term` that has
-- voted for `v`.
abbrev pub Bound : ℕ → Bytes → ℕ → Option Bytes → Type 0
Bound t c term v = (t < term) ⊎ ((t ≡ term) × (v ≡ some c))

abbrev pub FileBound : ℕ → Bytes → Option RaftState → Type 0
FileBound t c none = ⊥
FileBound t c (some d) = Bound t c d.term d.voted_for

-- So in memory and in the durable file.
pub record IsBound (t : ℕ) (c : Bytes) (n : Node) : Type 0 where
  pub memory : Bound t c n.term n.voted_for
  pub file : FileBound t c n.raft_store

pub vote-IsBound :
    (out : SaveOutcome) (n : Node) (req : VoteRequest) (t : ℕ) (c : Bytes)
    → IsBound t c n
    → IsBound t c (handle_request_vote out n req).0
unfolding handle_request_vote
vote-IsBound out n req t c b = ground (arith, bytes_eq_iff c req.candidate_id)

pub restart-IsBound : (n : Node) (t : ℕ) (c : Bytes) → IsBound t c n → IsBound t c (restart n)
unfolding restart
restart-IsBound n t c b = ground arith

-- A granted vote binds a node with a durable file.
pub granted-IsBound :
    (out : SaveOutcome) (n : Node) (req : VoteRequest)
    → n.raft_store ≢ none
    → (handle_request_vote out n req).1.vote_granted ≡ true
    → IsBound req.term req.candidate_id (handle_request_vote out n req).0
unfolding handle_request_vote
granted-IsBound out n req w g = ground arith

pub bound-grants :
    (out : SaveOutcome) (n : Node) (req : VoteRequest) (c : Bytes)
    → IsBound req.term c n
    → (handle_request_vote out n req).1.vote_granted ≡ true
    → c ≡ req.candidate_id
unfolding handle_request_vote
bound-grants out n req c b g = ground (arith, bytes_eq_iff c req.candidate_id)

pub persist-IsBound :
    (out : SaveOutcome) (n : Node) (t : ℕ) (c : Bytes)
    → IsBound t c n
    → IsBound t c (persist out n).0
unfolding persist
persist-IsBound out n t c b = ground arith

acknowledge-IsBound :
    (out : SaveOutcome) (n : Node) (changed : Bool) (t : ℕ) (c : Bytes)
    → IsBound t c n
    → IsBound t c (acknowledge out n changed).0
unfolding acknowledge
acknowledge-IsBound out n true t c b = persist-IsBound out n t c b
acknowledge-IsBound out n false t c b = b

accept-IsBound :
    (n : Node) (req : AppendEntriesRequest) (t : ℕ) (c : Bytes)
    → IsBound t c n
    → IsBound t c (accept_entries n req).0
accept-IsBound n req t c b =
    let s = accept-SameFields n req in let f = merge_entries-frame n req in ground arith

follow-IsBound :
    (n : Node) (req : AppendEntriesRequest) (t : ℕ) (c : Bytes)
    → (n.role ≡ Role.follower) ⊎ (n.term ≢ req.term)
    → n.term ≤ req.term
    → IsBound t c n
    → IsBound t c (follow_leader n req.term req.leader_id)
unfolding follow_leader
follow-IsBound n req t c safe le b = ground arith

append-IsBound :
    (out : SaveOutcome) (n : Node) (req : AppendEntriesRequest) (t : ℕ) (c : Bytes)
    → (n.role ≡ Role.follower) ⊎ (n.term ≢ req.term)
    → IsBound t c n
    → IsBound t c (handle_append_entries out n req).0
unfolding handle_append_entries
append-IsBound out n req t c safe b = elim (dec_le n.term req.term) [
  | yes le ↦
      let f = follow-IsBound n req t c safe le b in
      let a = accept_entries (follow_leader n req.term req.leader_id) req in
      ground (
        arith,
        acknowledge-IsBound out a.0 a.1 t c
            (accept-IsBound (follow_leader n req.term req.leader_id) req t c f),
      )
  | no lt ↦ ground arith
]

-- What a node with a durable file meets: vote requests, AppendEntries, and crashes. An AppendEntries of
-- the node's own term is left out while the node is a candidate or leader, since it clears the vote.
pub data Step (n : Node) : Node → Type 0 where
  vote : (out : SaveOutcome) (req : VoteRequest) → Step n (handle_request_vote out n req).0
  append :
      (out : SaveOutcome) (req : AppendEntriesRequest)
      → (n.role ≡ Role.follower) ⊎ (n.term ≢ req.term)
      → Step n (handle_append_entries out n req).0
  crash : Step n (restart n)

pub data Steps (n : Node) : Node → Type 0 where
  here : Steps n n
  next : {m l : Node} → Steps n m → Step m l → Steps n l

pub Step-IsBound : {n m : Node} (t : ℕ) (c : Bytes) → Step n m → IsBound t c n → IsBound t c m
Step-IsBound {n} t c (vote out req) b = vote-IsBound out n req t c b
Step-IsBound {n} t c (append out req safe) b = append-IsBound out n req t c safe b
Step-IsBound {n} t c crash b = restart-IsBound n t c b

Steps-IsBound : {n m : Node} (t : ℕ) (c : Bytes) → Steps n m → IsBound t c n → IsBound t c m
Steps-IsBound t c here b = b
Steps-IsBound t c (next r s) b = Step-IsBound t c s (Steps-IsBound t c r b)

-- A node with a durable file that has granted a vote grants no vote of the same term to another
-- candidate, whatever vote requests, AppendEntries, failed saves and crashes come between, except an
-- AppendEntries of the node's own term that reaches it while it is candidate or leader.
pub one_vote_per_term :
    (out out' : SaveOutcome) (n m : Node) (req req' : VoteRequest)
    → n.raft_store ≢ none
    → (handle_request_vote out n req).1.vote_granted ≡ true
    → Steps (handle_request_vote out n req).0 m
    → (handle_request_vote out' m req').1.vote_granted ≡ true
    → req'.term ≡ req.term
    → req'.candidate_id ≡ req.candidate_id
one_vote_per_term out out' n m req req' wired g steps g' same = sym (
    bound-grants out' m req' req.candidate_id
      (rw same (Steps-IsBound req.term req.candidate_id steps (granted-IsBound out n req wired g)))
      g')
