-- ===== src/Raft/Follower/Again.antt =====
-- A merge of entries that the log holds already (pkg/raft/follower.go, mergeEntries).
use kv_store.Common.{
  ℕ, zero, suc, ◌+◌, ◌-◌, ◌≤◌, ◌≡◌, sym, ap, ◌∙◌, refl, pos, Bool, false, some, List, [], ◌∷◌, ◌++◌,
  length, take, drop, get_elem?, length-append, length-take, length-drop, arith,
}
use kv_store.Raft.Types.{Entry, AppendEntriesRequest, Node, last_log_index, log_term_at}
use kv_store.Raft.Log.{log_term_at-above, term_of}
use kv_store.Raft.Follower.{merge_loop, cut_suffix, merge_entries}
use kv_store.Raft.Follower.Merge.{Agrees, merge_entries-log, merge_entries-frame}

drop-cons {ℓ} :
    {A : Type ℓ} (k : ℕ) (xs : List A) (e : A) (es : List A)
    → drop k xs ≡ e ∷ es
    → (get_elem? xs k ≡ some e) × (drop (suc k) xs ≡ es)
drop-cons zero [] e es h = absurd (ground arith)
drop-cons zero (x ∷ xs) e es h = ground arith
drop-cons (suc k) [] e es h = absurd (ground arith)
drop-cons (suc k) (x ∷ xs) e es h = drop-cons k xs e es h

pub drop-append_take {ℓ} :
    {A : Type ℓ} (k : ℕ) (xs ys : List A) → k ≤ length xs → drop k (take k xs ++ ys) ≡ ys
drop-append_take zero xs ys h = refl
drop-append_take (suc k) [] ys h = absurd (omega arith)
drop-append_take (suc k) (x ∷ xs) ys h = drop-append_take k xs ys (omega arith)

-- The entries from an index on are those in the log: nothing changes.
merge_loop-held :
    (n : Node) (k idx : ℕ) (es : List Entry) (c : Bool)
    → idx ≡ n.last_included_index + 1 + k
    → drop k n.log ≡ es
    → merge_loop n idx es c ≡ (n, c)
unfolding merge_loop
merge_loop-held n k idx [] c at h = refl
merge_loop-held n k idx (e ∷ es) c at h =
    let d = drop-cons k n.log e es h in
    let room : length n.log - k ≡ length (e ∷ es) = sym (length-drop k n.log) ∙ ap length h in
    let index : n.last_included_index + 1 + k ≡ idx = sym at in
    let term : log_term_at n idx ≡ pos e.term =
      ap (log_term_at n) (sym index) ∙ (log_term_at-above n k ∙ ap term_of d.0) in
    let rest = merge_loop-held n (suc k) (idx + 1) es c (omega arith) d.1 in ground arith

-- A request whose entries are the log from its preceding entry on.
pub merge_entries-held :
    (n : Node) (req : AppendEntriesRequest) (k : ℕ)
    → req.prev_log_index ≡ n.last_included_index + k
    → length n.log ≡ k + length req.entries
    → drop k n.log ≡ req.entries
    → merge_entries n req ≡ (n, false)
unfolding merge_entries cut_suffix
merge_entries-held n req k at size h =
    let loop = merge_loop-held n k (req.prev_log_index + 1) req.entries false (omega arith) h in
    ground arith

module _ (n : Node) (req : AppendEntriesRequest) where
  abbrev merged : Node
  merged = (merge_entries n req).0

  -- A second merge of a request changes nothing, where the preceding entry is at the base or above it and in the log,
  -- and the entries that the node shares with the leader by index and term are the leader's.
  pub merge_entries-again :
      n.last_included_index ≤ req.prev_log_index
      → req.prev_log_index ≤ last_log_index n
      → Agrees n (req.prev_log_index + 1) req.entries
      → merge_entries merged req ≡ (merged, false)
  merge_entries-again above near ag =
      let k : ℕ = req.prev_log_index - n.last_included_index in
      let frame = merge_entries-frame n req in
      let base : merged.last_included_index ≡ n.last_included_index =
        ap (λ (m : Node). m.last_included_index) frame in
      let none_covered : n.last_included_index - req.prev_log_index ≡ 0 = omega arith in
      let log : merged.log ≡ take k n.log ++ req.entries =
        merge_entries-log n req near ag
        ∙ ap (λ j. take k n.log ++ drop j req.entries) none_covered in
      let room : k ≤ length n.log = omega arith in
      let size : length merged.log ≡ k + length req.entries =
        ap length log
        ∙ omega (arith, length-append (take k n.log) req.entries, length-take k n.log) in
      let kept : drop k merged.log ≡ req.entries =
        ap (drop k) log ∙ drop-append_take k n.log req.entries room in
      merge_entries-held merged req k (omega arith) size kept
