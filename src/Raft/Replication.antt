-- ===== src/Raft/Replication.antt =====
-- The leader's bookkeeping for its followers: `replState` of pkg/raft/leader.go and `majority` of
-- pkg/raft/election.go.
use kv_store.Common.{
  ℕ, ◌+◌, ◌/◌, Bool, false, ◌||◌, none, some, List, [], ◌∷◌, Bytes, bytes_eq, length, if◌then◌else◌,
}
use kv_store.Raft.Types.{Node, ReplicationState, last_log_index}

unfoldable pub majority : List Bytes → ℕ
majority peers = (length peers + 1) / 2 + 1

abbrev pub contains : List Bytes → Bytes → Bool
contains [] p = false
contains (q ∷ qs) p = bytes_eq q p || contains qs p

unfoldable pub fresh_repl : Node → ReplicationState
fresh_repl n = record {
  next_index = λ p. if contains n.peers p then last_log_index n + 1 else 0;
  match_index = λ _. 0;
  in_flight = λ _. false;
  backoff = λ _. 0;
}

-- `replState`: the state in force, and the node that holds it.
unfoldable pub repl_of : Node → ReplicationState
unfolding fresh_repl
repl_of n = elim n.repl [ some st ↦ st | none ↦ fresh_repl n ]

unfoldable pub repl_state : Node → Node
unfolding repl_of
repl_state n = record n { repl = some (repl_of n) }
