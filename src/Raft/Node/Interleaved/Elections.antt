-- ===== src/Raft/Node/Interleaved/Elections.antt =====
-- The sections of startElection (pkg/raft/election.go) that run beside the handlers of pkg/raft/node.go.
use mathlib.Core.Path.{subst}
use kv_store.Common.{ℕ, ◌<◌, ◌≡◌, refl, sym, ap, ◌∙◌, false, none, some, Bytes, arith}
use kv_store.Raft.Types.{Node, Role, become_follower, become_candidate, become_leader}
use kv_store.Raft.Persistence.{raft_state}
use kv_store.Raft.Election.{conclude}
use kv_store.Raft.Node.Vote.{Bound}
use kv_store.Raft.Node.Interleaved.{IsSaved}

-- The first section of startElection.
pub candidate-Bound :
    (n : Node) (t : ℕ) (c : Bytes)
    → Bound t c n.term n.voted_for
    → Bound t c (become_candidate n).term (become_candidate n).voted_for
unfolding become_candidate
candidate-Bound n t c b = ground arith

pub candidate-IsSaved : (n : Node) → IsSaved n → IsSaved (become_candidate n)
unfolding become_candidate
candidate-IsSaved n s = record { wired = s.wired; clean = λ d. ground arith }

pub candidate-store : (n : Node) → (become_candidate n).raft_store ≡ n.raft_store
unfolding become_candidate
candidate-store n = refl

-- A step down at a higher term.
pub higher-Bound :
    (n : Node) (term t : ℕ) (c : Bytes)
    → n.term < term
    → Bound t c n.term n.voted_for
    → Bound t c (become_follower n term none).term (become_follower n term none).voted_for
unfolding become_follower
higher-Bound n term t c lt b = ground arith

pub follower-IsSaved :
    (n : Node) (term : ℕ) → n.term < term → IsSaved n → IsSaved (become_follower n term none)
unfolding become_follower
follower-IsSaved n term lt s = record { wired = ground arith; clean = λ d. ground arith }

pub follower-store : (n : Node) (term : ℕ) → (become_follower n term none).raft_store ≡ n.raft_store
unfolding become_follower
follower-store n term = ground arith

-- The last section of startElection, where it makes a leader.
conclude-win :
    (quorum term : ℕ) (n : Node) (votes : ℕ)
    → (conclude quorum term n votes).role ≡ Role.leader
    → conclude quorum term n votes ≡ become_leader n
unfolding conclude become_follower
conclude-win quorum term n votes h = ground arith

-- A section that leaves the term, the vote and the file alone, and marks the node where it changes what is saved.
pub record IsQuiet (n m : Node) : Type 0 where
  pub term : m.term ≡ n.term
  pub vote : m.voted_for ≡ n.voted_for
  pub store : m.raft_store ≡ n.raft_store
  pub marked : m.dirty ≡ false → (n.dirty ≡ false) × (raft_state m ≡ raft_state n)

leader-IsQuiet : (n : Node) → IsQuiet n (become_leader n)
unfolding become_leader
leader-IsQuiet n = record { term = refl; vote = refl; store = refl; marked = λ d. (d, refl) }

pub conclude-IsQuiet :
    (quorum term : ℕ) (n : Node) (votes : ℕ)
    → (conclude quorum term n votes).role ≡ Role.leader
    → IsQuiet n (conclude quorum term n votes)
conclude-IsQuiet quorum term n votes h =
    subst (IsQuiet n) (sym (conclude-win quorum term n votes h)) (leader-IsQuiet n)

pub quiet-Bound :
    (n m : Node) (t : ℕ) (c : Bytes)
    → IsQuiet n m
    → Bound t c n.term n.voted_for
    → Bound t c m.term m.voted_for
quiet-Bound n m t c q b = ground (arith, q.term, q.vote)

pub quiet-IsSaved : (n m : Node) → IsQuiet n m → IsSaved n → IsSaved m
quiet-IsSaved n m q s = record {
  wired = λ e. s.wired (sym q.store ∙ e);
  clean = λ d. let k = q.marked d in q.store ∙ (s.clean k.0 ∙ ap some (sym k.1));
}
