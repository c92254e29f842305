-- ===== src/Raft/Follower.antt =====
-- pkg/raft/follower.go: the check of the preceding entry and the merge of the leader's entries.
pub mod Merge
pub mod Again
use kv_store.Common.{
  ℕ, ◌+◌, ◌-◌, ℤ, pos, Bool, true, false, not, List, [], ◌∷◌, ◌++◌, length, take, ltb, leb, ◌==ℤ◌,
  if◌then◌else◌,
}
use kv_store.Raft.Types.{Entry, AppendEntriesRequest, Node, last_log_index, log_term_at}

unfoldable pub check_prev_log : Node → ℕ → ℤ → Bool
check_prev_log n prev_log_index prev_log_term =
    if ltb (last_log_index n) prev_log_index
    then false
    else if ltb 0 prev_log_index
    then log_term_at n prev_log_index ==ℤ prev_log_term
    else true

-- The loop over the entries; `idx` is the raft index of the first one left.
unfoldable pub merge_loop : Node → ℕ → List Entry → Bool → Node × Bool
merge_loop n idx [] changed = (n, changed)
merge_loop n idx (e ∷ es) changed =
    let rest = merge_loop n (idx + 1) es changed in
    if leb idx n.last_included_index
    then rest
    else if leb idx (last_log_index n)
    then (if log_term_at n idx ==ℤ pos e.term
        then rest
        else (record n { log = take (idx - n.last_included_index - 1) n.log ++ e ∷ es }, true))
    else (record n { log = n.log ++ e ∷ es }, true)

-- The cut of what lies beyond the leader's entries. The subtraction stops at 0, as `keep` does.
unfoldable pub cut_suffix : Node → ℕ → Node × Bool
cut_suffix n end =
    if ltb end (last_log_index n)
    then (record n { log = take (end - n.last_included_index) n.log }, true)
    else (n, false)

-- The second component is the result `changed`.
unfoldable pub merge_entries : Node → AppendEntriesRequest → Node × Bool
merge_entries n req =
    let (n', changed) = cut_suffix n (req.prev_log_index + length req.entries) in
    merge_loop n' (req.prev_log_index + 1) req.entries changed
