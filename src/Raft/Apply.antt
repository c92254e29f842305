-- ===== src/Raft/Apply.antt =====
-- pkg/raft/apply.go: the apply loop over the in-memory store, one turn at a time, and the tracker of results.
-- A turn holds the lock twice, first to pick an entry and then, together with the apply lock, to apply it:
-- what the other goroutines do in between is an argument. Waiters are channels and not modelled.
pub mod Drain
use kv_store.Common.{
  ℕ, suc, zero, ◌+◌, ℤ, Bool, Option, none, some, List, [], ◌∷◌, leb, ltb, ◌==◌, if◌then◌else◌,
}
use kv_store.Storage.MemStore.{MemStore}
use kv_store.Storage.Machine.{Reply, apply_cmd}
use kv_store.Raft.Types.{Node, Entry, entry_at}

-- The node, the state machine and the results that were recorded, by index; a result is `none` where an
-- index was passed over.
pub record Replica : Type 0 where
  pub node : Node
  pub store : MemStore
  pub results : List (ℕ × Option Reply)

abbrev record_result : ℕ → Option Reply → Replica → Replica
record_result idx result r = record r { results = (idx, result) ∷ r.results }

abbrev advance_applied : ℕ → Node → Node
advance_applied idx n = record n {
  last_applied = if ltb n.last_applied idx then idx else n.last_applied;
}

-- The locked part of a turn, for the entry that was picked.
apply_picked : ℤ → ℕ → Option Entry → Replica → Replica
apply_picked now idx none r =
    if leb idx r.node.last_applied
    then record_result idx none r
    else record_result idx none (record r { node = advance_applied idx r.node })
apply_picked now idx (some entry) r =
    if leb idx r.node.last_applied
    then record_result idx none r
    else (let (store, reply) = apply_cmd now entry.cmd r.store in
        record_result idx (some reply)
          (record r { node = advance_applied idx r.node; store = store }))

-- One turn of `applyLoop`.
unfoldable pub apply_turn : ℤ → (Replica → Replica) → Replica → Replica
unfolding apply_picked
apply_turn now meanwhile r =
    if leb r.node.commit_index r.node.last_applied
    then r
    else apply_picked now (r.node.last_applied + 1) (entry_at r.node (r.node.last_applied + 1))
        (meanwhile r)

-- `Result`: the last result recorded for an index.
unfoldable pub result_of : ℕ → List (ℕ × Option Reply) → Option (Option Reply)
result_of i [] = none
result_of i ((j, x) ∷ rest) = if i == j then some x else result_of i rest
