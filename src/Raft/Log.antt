-- ===== src/Raft/Log.antt =====
-- Reading the log by raft index (pkg/raft/types.go): the entry at an index above the compaction base is
-- the one at the offset from it.
use kv_store.Common.{
  ℕ, ◌+◌, ◌≡◌, ℤ, pos, negsuc, Option, none, some, get_elem?, get_elem?-none, arith,
}
use kv_store.Raft.Types.{Entry, Node, entry_at, log_term_at}

pub entry_at-above :
    (n : Node) (k : ℕ) → entry_at n (n.last_included_index + 1 + k) ≡ get_elem? n.log k
unfolding entry_at
entry_at-above n k = ground (arith, get_elem?-none n.log k)

abbrev pub term_of : Option Entry → ℤ
term_of none = negsuc 0
term_of (some e) = pos e.term

pub log_term_at-above :
    (n : Node) (k : ℕ) → log_term_at n (n.last_included_index + 1 + k) ≡ term_of (get_elem? n.log k)
unfolding log_term_at
log_term_at-above n k = ground (arith, entry_at-above n k)
