-- ===== src/Tests/Elections.antt =====
-- Votes of a cluster of three (pkg/raft), and the election oracle (pkg/chaos/oracles.go).
use kv_store.Common.{
  ◌≡◌, inl, inr, pos, true, some, List, [], ◌∷◌, Bytes, bytes_eq, refl, arith, Bool-cases,
}
use kv_store.Raft.Types.{Node, VoteRequest, become_candidate, become_follower, become_leader}
use kv_store.Chaos.Oracles.{two_leaders, check_leaders, election_safety}
use kv_store.Raft.Persistence.{saved, persist, raft_state}
use kv_store.Raft.Replication.{majority}
use kv_store.Raft.Node.{handle_request_vote, vote_step_down, acknowledge}
use kv_store.Raft.Election.History.{Ballot, ballot, fresh, grant, campaign}
use kv_store.Raft.Election.Unique.{Votes, Elected, one_leader_per_term}
use kv_store.Tests.Raft.{node, id_a, id_b, id_c, vote_for}

abbrev request : VoteRequest
request = record (vote_for id_b) { term = 3; last_log_index = 9; last_log_term = pos 9 }

-- A node with its state in its file.
abbrev saved_node : Node
saved_node = record node { id = id_b; raft_store = some (raft_state node) }

granted : (handle_request_vote saved saved_node request).1.vote_granted ≡ true
unfolding handle_request_vote vote_step_down become_follower bytes_eq persist acknowledge
granted = refl

started : (persist saved (become_candidate saved_node)).1 ≡ true
unfolding persist become_candidate
started = refl

-- One node votes for itself, and the others grant it their votes.
abbrev votes : Bytes → List Ballot
votes v = ballot 3 id_b ∷ []

casts : Votes votes (id_a ∷ id_b ∷ id_c ∷ [])
casts v h = elim (Bool-cases (bytes_eq v id_b)) [
  | inl self ↦ (
    saved_node,
    (persist saved (become_candidate saved_node)).0,
    campaign saved fresh (λ e. ground arith) started,
  )
  | inr other ↦ (
    saved_node,
    (handle_request_vote saved saved_node request).0,
    grant saved request fresh (λ e. ground arith) granted,
  )
]

won : Elected votes (id_a ∷ id_b ∷ id_c ∷ []) (id_a ∷ id_c ∷ []) 3 id_b
unfolding majority bytes_eq
won = (
  id_a ∷ id_b ∷ [],
  (refl, (refl, tt)),
  (λ x h. ground arith),
  omega arith,
  (λ v h. inl (refl, refl)),
)

one_leader_per_term_example : id_b ≡ id_b
one_leader_per_term_example =
    one_leader_per_term (id_a ∷ id_b ∷ id_c ∷ []) (id_a ∷ id_c ∷ []) votes 3 id_b id_b refl casts
      won won

-- Two leaders of one term are reported, and one that leads alone is not.
two_leaders_reported :
    election_safety ((id_a, become_leader node) ∷ (id_b, become_leader saved_node) ∷ [])
    ≡ two_leaders node.term id_a id_b ∷ []
unfolding election_safety check_leaders become_leader bytes_eq
two_leaders_reported = refl

one_leader_passes : election_safety ((id_a, become_leader node) ∷ (id_b, saved_node) ∷ []) ≡ []
unfolding election_safety check_leaders become_leader bytes_eq
one_leader_passes = refl
