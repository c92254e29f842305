-- ===== src/Raft/Commit.antt =====
-- pkg/raft/commit.go: the leader's advance of the commit index.
pub mod Sort
pub mod Quorum
use kv_store.Common.{
  ℕ, ◌-◌, Bool, true, false, ◌&&◌, Option, none, some, List, [], ◌∷◌, map, length, get_elem?, ltb,
  leb, ◌==◌, if◌then◌else◌,
}
use kv_store.Raft.Types.{Node, entry_at, last_log_index, is_leader}
use kv_store.Raft.Replication.{majority, repl_of, repl_state}
use Sort.{sort_ints}

-- The log index that each node of the cluster is known to have reached, the leader first.
unfoldable pub match_indexes : Node → List ℕ
match_indexes n = last_log_index n ∷ map (repl_of n).match_index n.peers

abbrev or_zero : Option ℕ → ℕ
or_zero none = 0
or_zero (some v) = v

-- The value at position N - majority in ascending order.
unfoldable pub threshold : Node → ℕ
threshold n = or_zero (
    get_elem? (sort_ints (match_indexes n))
      (length (sort_ints (match_indexes n)) - majority n.peers))

-- Whether the entry at the index is of the leader's term; the check is skipped at 0.
unfoldable pub current_term_at : Node → ℕ → Bool
current_term_at n i =
    if ltb 0 i then elim (entry_at n i) [ none ↦ false | some e ↦ e.term == n.term ] else true

unfoldable pub maybe_commit : Node → Node
unfolding repl_state
maybe_commit n =
    if is_leader n.role
    then (if leb (threshold n) n.commit_index
        then repl_state n
        else if current_term_at n (threshold n)
        then record (repl_state n) { commit_index = threshold n }
        else repl_state n)
    else n
