-- ===== src/Raft/Commit/Quorum.antt =====
-- Where the commit index moves (pkg/raft/commit.go).
use kv_store.Common.{
  ℕ, ◌+◌, ◌-◌, ◌≤◌, ◌<◌, ◌≡◌, ◌≢◌, true, some, List, [], ◌∷◌, map, Bytes, length, get_elem?,
  get_elem?-some, arith, Option-cases, inl, inr,
}
use kv_store.Raft.Types.{Node, Entry, Role, entry_at}
use kv_store.Raft.Replication.{majority, repl_of}
use kv_store.Raft.Commit.{match_indexes, threshold, current_term_at, maybe_commit}
use kv_store.Raft.Commit.Sort.{
  sort_ints, count_reaching, sort-IsSorted, count-sort, length-sort, count-sorted_ge,
  count-sorted_lt,
}

length-map : (f : Bytes → ℕ) (xs : List Bytes) → length (map f xs) ≡ length xs
length-map f [] = omega arith
length-map f (x ∷ xs) = ground (arith, length-map f xs)

length-match_indexes : (n : Node) → length (match_indexes n) ≡ length n.peers + 1
unfolding match_indexes
length-match_indexes n = omega (arith, length-map (repl_of n).match_index n.peers)

-- The value at position N - majority of the sorted indexes.
module _ (n : Node) where
  abbrev sorted : List ℕ
  sorted = sort_ints (match_indexes n)

  abbrev position : ℕ
  position = length sorted - majority n.peers

  sizes :
      (length sorted ≡ length n.peers + 1)
      × (majority n.peers + position ≡ length sorted)
      × (0 < majority n.peers)
  unfolding majority
  sizes = let l = length-sort (match_indexes n) in let m = length-match_indexes n in omega arith

  threshold-at : get_elem? sorted position ≡ some (threshold n)
  unfolding threshold
  threshold-at =
      let s = sizes in let (v, at) = get_elem?-some sorted position (omega arith) in ground arith

  -- A majority has reached the threshold, and no majority has reached more.
  pub threshold-quorum :
      (majority n.peers ≤ count_reaching (threshold n) (match_indexes n))
      × ((w : ℕ) → threshold n < w → count_reaching w (match_indexes n) < majority n.peers)
  threshold-quorum =
      let s = sizes in
      let o = sort-IsSorted (match_indexes n) in
      (
        omega (
          arith,
          count-sort (threshold n) (match_indexes n),
          count-sorted_ge sorted position (threshold n) o threshold-at,
        ),
        λ w lt. omega (
          arith,
          count-sort w (match_indexes n),
          count-sorted_lt sorted position (threshold n) w o threshold-at lt,
        ),
      )

  current_term-entry :
      (i : ℕ)
      → 0 < i
      → current_term_at n i ≡ true
      → (e : Entry) × (entry_at n i ≡ some e) × (e.term ≡ n.term)
  unfolding current_term_at
  current_term-entry i above h = elim (Option-cases (entry_at n i)) [
    | inl e ↦ absurd (ground arith)
    | inr (x, e) ↦ (x, e, ground arith)
  ]

  moved-threshold :
      n.commit_index ≢ (maybe_commit n).commit_index
      → (n.role ≡ Role.leader)
        × (n.commit_index < threshold n)
        × (current_term_at n (threshold n) ≡ true)
        × ((maybe_commit n).commit_index ≡ threshold n)
  unfolding maybe_commit
  moved-threshold h = ground arith

  -- Where the commit index moves, the node is the leader, and it moves up to an index that a majority is
  -- known to have reached and that holds an entry of the leader's term.
  pub maybe_commit-quorum :
      n.commit_index ≢ (maybe_commit n).commit_index
      → (n.role ≡ Role.leader)
        × (n.commit_index < (maybe_commit n).commit_index)
        × (majority n.peers ≤ count_reaching (maybe_commit n).commit_index (match_indexes n))
        × ((e : Entry) × (entry_at n (maybe_commit n).commit_index ≡ some e) × (e.term ≡ n.term))
  maybe_commit-quorum h =
      let m = moved-threshold h in
      rw m.3 (m.0, m.1, threshold-quorum.0, current_term-entry (threshold n) (omega arith) m.2)

  -- On a leader, if the entry at the threshold is of its term, no index above the new commit index is known
  -- to be reached by a majority.
  pub maybe_commit-maximal :
      n.role ≡ Role.leader
      → current_term_at n (threshold n) ≡ true
      → (w : ℕ) → (maybe_commit n).commit_index < w
      → count_reaching w (match_indexes n) < majority n.peers
  unfolding maybe_commit
  maybe_commit-maximal h c w lt = ground (arith, threshold-quorum.1 w)
