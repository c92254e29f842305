-- ===== src/Raft/Follower/Merge.antt =====
-- What a merge of the leader's entries leaves in the log (`mergeEntries` of pkg/raft/follower.go).
use kv_store.Common.{
  ℕ, zero, suc, ◌+◌, ◌-◌, ◌≤◌, ◌≡◌, refl, ap, ◌∙◌, pos, Bool, false, some, List, [], ◌∷◌, ◌++◌,
  length, take, drop, take-all, take-suc, take-take, eq-nil, get_elem?-some, get_elem?-take, min,
  length-take, le→leb, length-append, arith, max,
}
use mathlib.Core.List.{append-nil, append_assoc}
use native.Mathlib.Decide.{dec_le, dec_lt}
use kv_store.Raft.Types.{Entry, AppendEntriesRequest, Node, last_log_index, entry_at, log_term_at}
use kv_store.Raft.Log.{entry_at-above, log_term_at-above, term_of}
use kv_store.Raft.Follower.{merge_loop, cut_suffix, merge_entries}

-- The log property that consensus maintains: an entry of the node with the index and term of one that
-- the leader sent is that entry. `idx` is the raft index of the first one.
abbrev pub Agrees : Node → ℕ → List Entry → Type 0
Agrees n idx [] = Unit
Agrees n idx (e ∷ es) =
    ((a : Entry) → entry_at n idx ≡ some a → a.term ≡ e.term → a ≡ e) × Agrees n (idx + 1) es

-- A merge touches nothing but the log.
merge_loop-frame :
    (n : Node) (idx : ℕ) (es : List Entry) (c : Bool)
    → (merge_loop n idx es c).0 ≡ record n { log = (merge_loop n idx es c).0.log }
unfolding merge_loop
merge_loop-frame n idx [] c = refl
merge_loop-frame n idx (e ∷ es) c = ground (arith, merge_loop-frame n (idx + 1) es c)

pub merge_entries-frame :
    (n : Node) (req : AppendEntriesRequest)
    → (merge_entries n req).0 ≡ record n { log = (merge_entries n req).0.log }
unfolding merge_entries cut_suffix
merge_entries-frame n req = ground (
  arith,
  merge_loop-frame (cut_suffix n (req.prev_log_index + length req.entries)).0
      (req.prev_log_index + 1) req.entries
      (cut_suffix n (req.prev_log_index + length req.entries)).1,
)

-- From an index above the base: what stands before it stays, and the entries follow.
merge_loop-above :
    (n : Node) (k : ℕ) (idx : ℕ) (es : List Entry) (c : Bool)
    → idx ≡ n.last_included_index + 1 + k
    → k ≤ length n.log
    → length n.log ≤ k + length es
    → Agrees n idx es
    → (merge_loop n idx es c).0.log ≡ take k n.log ++ es
unfolding merge_loop
merge_loop-above n k idx [] c at near short ag = rw (append-nil, take-all k n.log (omega arith))
merge_loop-above n k idx (e ∷ es) c at near short ag = elim (dec_lt k (length n.log)) [
  | yes inside ↦
      let (a, found) = get_elem?-some n.log k inside in
      let term : log_term_at n idx ≡ pos a.term =
        rw at (log_term_at-above n k ∙ ap term_of found) in
      let same : a.term ≡ e.term → a ≡ e = ag.0 a (rw at (entry_at-above n k ∙ found)) in
      let rest : (merge_loop n (idx + 1) es c).0.log ≡ take (suc k) n.log ++ es =
        merge_loop-above n (suc k) (idx + 1) es c (omega arith) inside (omega arith) ag.1 in
      let split : take (suc k) n.log ≡ take k n.log ++ a ∷ [] = take-suc k n.log found in
      let offset : idx - n.last_included_index - 1 ≡ k = omega arith in
      ground (arith, append_assoc (take k n.log) (a ∷ []) es)
  | no past ↦ ground (arith, take-all k n.log (omega arith))
]

-- From an index at or below the base: the first `m` entries are covered by it.
merge_loop-below :
    (n : Node) (m : ℕ) (idx : ℕ) (es : List Entry) (c : Bool)
    → idx + m ≡ n.last_included_index + 1
    → length n.log ≤ length es - m
    → Agrees n idx es
    → (merge_loop n idx es c).0.log ≡ drop m es
unfolding merge_loop
merge_loop-below n zero idx es c at short ag =
    merge_loop-above n 0 idx es c (omega arith) (omega arith) (omega arith) ag
merge_loop-below n (suc m) idx [] c at short ag = eq-nil n.log (omega arith)
merge_loop-below n (suc m) idx (e ∷ es) c at short ag =
    rw (le→leb idx n.last_included_index (omega arith))
      (merge_loop-below n m (idx + 1) es c (omega arith) (omega arith) ag.1)

-- The lengths need no hypothesis on the entries.
length-merge_loop_above :
    (n : Node) (k : ℕ) (idx : ℕ) (es : List Entry) (c : Bool)
    → idx ≡ n.last_included_index + 1 + k
    → k ≤ length n.log
    → length n.log ≤ k + length es
    → length (merge_loop n idx es c).0.log ≡ k + length es
unfolding merge_loop
length-merge_loop_above n k idx [] c at near short = omega arith
length-merge_loop_above n k idx (e ∷ es) c at near short = elim (dec_lt k (length n.log)) [
  | yes inside ↦ ground (
    arith,
    length-merge_loop_above n (suc k) (idx + 1) es c (omega arith) inside (omega arith),
    length-append (take (idx - n.last_included_index - 1) n.log) (e ∷ es),
    length-take (idx - n.last_included_index - 1) n.log,
  )
  | no past ↦ ground (arith, length-append n.log (e ∷ es))
]

length-merge_loop_below :
    (n : Node) (m : ℕ) (idx : ℕ) (es : List Entry) (c : Bool)
    → idx + m ≡ n.last_included_index + 1
    → length n.log ≤ length es - m
    → length (merge_loop n idx es c).0.log ≡ length es - m
unfolding merge_loop
length-merge_loop_below n zero idx es c at short =
    omega (arith, length-merge_loop_above n 0 idx es c (omega arith) (omega arith) (omega arith))
length-merge_loop_below n (suc m) idx [] c at short = omega arith
length-merge_loop_below n (suc m) idx (e ∷ es) c at short =
    ground (arith, length-merge_loop_below n m (idx + 1) es c (omega arith) (omega arith))

-- The result tells whether the log changed.
merge_loop-unchanged :
    (n : Node) (idx : ℕ) (es : List Entry) (c : Bool)
    → (merge_loop n idx es c).1 ≡ false
    → ((merge_loop n idx es c).0 ≡ n) × (c ≡ false)
unfolding merge_loop
merge_loop-unchanged n idx [] c h = (refl, h)
merge_loop-unchanged n idx (e ∷ es) c h = ground (arith, merge_loop-unchanged n (idx + 1) es c)

module _ (n : Node) (end : ℕ) where
  abbrev cut : Node
  cut = (cut_suffix n end).0

  base-cut : cut.last_included_index ≡ n.last_included_index
  unfolding cut_suffix
  base-cut = ground arith

  length-cut : length cut.log ≡ min (length n.log) (end - n.last_included_index)
  unfolding cut_suffix
  length-cut = ground (arith, length-take (end - n.last_included_index) n.log)

  take-cut : (k : ℕ) → k ≤ end - n.last_included_index → take k cut.log ≡ take k n.log
  unfolding cut_suffix
  take-cut k h = ground (arith, take-take k (end - n.last_included_index) n.log)

  entry_at-cut :
      (idx : ℕ) (a : Entry) → idx ≤ end → entry_at cut idx ≡ some a → entry_at n idx ≡ some a
  unfolding cut_suffix entry_at
  entry_at-cut idx a h e = ground (
    arith,
    get_elem?-take (end - n.last_included_index) n.log (idx - n.last_included_index - 1),
    length-take (end - n.last_included_index) n.log,
  )

  Agrees-cut :
      (idx : ℕ) (es : List Entry) → idx + length es ≤ end + 1 → Agrees n idx es → Agrees cut idx es
  Agrees-cut idx [] le ag = tt
  Agrees-cut idx (e ∷ es) le ag = (
    λ a found same. ag.0 a (entry_at-cut idx a (omega arith) found) same,
    Agrees-cut (idx + 1) es (omega arith) ag.1,
  )

module _ (n : Node) (req : AppendEntriesRequest) where
  abbrev last : ℕ
  last = req.prev_log_index + length req.entries

  -- With `Agrees`, the log after a merge is the part up to the preceding entry followed by the entries
  -- above the base.
  pub merge_entries-log :
      req.prev_log_index ≤ last_log_index n
      → Agrees n (req.prev_log_index + 1) req.entries
      → (merge_entries n req).0.log
        ≡ take (req.prev_log_index - n.last_included_index) n.log
          ++ drop (n.last_included_index - req.prev_log_index) req.entries
  unfolding merge_entries
  merge_entries-log near ag =
      let base = base-cut n last in
      let len = length-cut n last in
      let same = Agrees-cut n last (req.prev_log_index + 1) req.entries (omega arith) ag in
      elim (dec_le n.last_included_index req.prev_log_index) [
        | yes above ↦ ground (
          arith,
          merge_loop-above (cut n last) (req.prev_log_index - n.last_included_index)
              (req.prev_log_index + 1) req.entries (cut_suffix n last).1 (omega arith) (omega arith)
              (omega arith) same,
          take-cut n last (req.prev_log_index - n.last_included_index) (omega arith),
        )
        | no below ↦ ground (
          arith,
          merge_loop-below (cut n last) (n.last_included_index - req.prev_log_index)
              (req.prev_log_index + 1) req.entries (cut_suffix n last).1 (omega arith) (omega arith)
              same,
        )
      ]

  pub last-merge_entries :
      req.prev_log_index ≤ last_log_index n
      → last_log_index (merge_entries n req).0 ≡ max n.last_included_index last
  unfolding merge_entries
  last-merge_entries near =
      let base = base-cut n last in
      let len = length-cut n last in
      let frame = ap (λ (m : Node). m.last_included_index) (merge_entries-frame n req) in
      elim (dec_le n.last_included_index req.prev_log_index) [
        | yes above ↦ ground (
          arith,
          frame,
          length-merge_loop_above (cut n last) (req.prev_log_index - n.last_included_index)
              (req.prev_log_index + 1) req.entries (cut_suffix n last).1 (omega arith) (omega arith)
              (omega arith),
        )
        | no below ↦ ground (
          arith,
          frame,
          length-merge_loop_below (cut n last) (n.last_included_index - req.prev_log_index)
              (req.prev_log_index + 1) req.entries (cut_suffix n last).1 (omega arith)
              (omega arith),
        )
      ]

  -- The result is false only if nothing changed.
  pub merge_entries-unchanged : (merge_entries n req).1 ≡ false → (merge_entries n req).0 ≡ n
  unfolding merge_entries cut_suffix
  merge_entries-unchanged h = ground (
    arith,
    merge_loop-unchanged (cut_suffix n last).0 (req.prev_log_index + 1) req.entries
        (cut_suffix n last).1 h,
  )
