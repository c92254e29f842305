-- ===== src/Raft/Snapshot/Retained.antt =====
-- What compaction keeps (pkg/raft/snapshot.go).
use native.Mathlib.Decide.{dec_lt}
use kv_store.Common.{
  ℕ, suc, ◌+◌, ◌-◌, ◌≤◌, ◌<◌, ◌≡◌, refl, ◌∙◌, ℤ, false, List, [], ◌∷◌, length, drop, drop-all, sym,
  ap, pos, get_elem?, get_elem?-drop, leb, Bool-cases, inl, inr, arith,
}
use kv_store.Raft.Types.{
  Entry, Node, last_log_index, last_log_term, entry_at, log_term_at, last_term,
}
use kv_store.Raft.Log.{entry_at-above, log_term_at-above, term_of}
use kv_store.Raft.Snapshot.{compact_log}

-- The base is at most the applied index, and that at most the commit index.
pub record IsOrdered (n : Node) : Type 0 where
  pub base-applied : n.last_included_index ≤ n.last_applied
  pub applied-committed : n.last_applied ≤ n.commit_index

-- A log whose base moves up, with the entries up to the new base dropped, has the same entry at each index
-- above it.
entry_at-offset :
    (n n' : Node) (k : ℕ)
    → n.last_included_index ≤ n'.last_included_index
    → n'.log ≡ drop (n'.last_included_index - n.last_included_index) n.log
    → entry_at n' (n'.last_included_index + 1 + k) ≡ entry_at n (n'.last_included_index + 1 + k)
entry_at-offset n n' k le e =
    let cut = n'.last_included_index - n.last_included_index in
    let i : n'.last_included_index + 1 + k ≡ n.last_included_index + 1 + (cut + k) = omega arith in
    entry_at-above n' k
    ∙ ap (λ (l : List Entry). get_elem? l k) e
    ∙ get_elem?-drop cut n.log k
    ∙ sym (entry_at-above n (cut + k))
    ∙ ap (entry_at n) (sym i)

unfoldable pub KeepsEntries : Node → Node → Type 0
KeepsEntries n n' =
    (index : ℕ) → n'.last_included_index < index → entry_at n' index ≡ entry_at n index

pub drop-KeepsEntries :
    (n n' : Node)
    → n.last_included_index ≤ n'.last_included_index
    → n'.log ≡ drop (n'.last_included_index - n.last_included_index) n.log
    → KeepsEntries n n'
unfolding KeepsEntries
drop-KeepsEntries n n' le e index lt =
    let k = index - n'.last_included_index - 1 in
    let i : index ≡ n'.last_included_index + 1 + k = omega arith in
    ap (entry_at n') i ∙ entry_at-offset n n' k le e ∙ ap (entry_at n) (sym i)

pub same-KeepsEntries :
    (n n' : Node)
    → n'.last_included_index ≡ n.last_included_index
    → n'.log ≡ n.log
    → KeepsEntries n n'
same-KeepsEntries n n' b l = drop-KeepsEntries n n' (omega arith) (
    l
    ∙ ap (λ (k : ℕ). drop k n.log)
        (let z : 0 ≡ n'.last_included_index - n.last_included_index = omega arith in z))

last_term-get :
    (base : ℤ) (es : List Entry)
    → 0 < length es
    → last_term base es ≡ term_of (get_elem? es (length es - 1))
last_term-get base [] h = absurd (omega arith)
last_term-get base (e ∷ []) h = refl
last_term-get base (e ∷ d ∷ es) h =
    let q : suc (length (d ∷ es) - 1) ≡ length (e ∷ d ∷ es) - 1 = omega arith in
    last_term-get (pos e.term) (d ∷ es) (omega arith)
    ∙ ap (λ (k : ℕ). term_of (get_elem? (e ∷ d ∷ es) k)) q

compact_log-KeepsEntries :
    (n : Node) (index : ℕ) (term : ℤ) → KeepsEntries n (compact_log n index term)
unfolding compact_log
compact_log-KeepsEntries n index term = elim (Bool-cases (leb index n.last_included_index)) [
  | inl low ↦ rw low (same-KeepsEntries n n refl refl)
  | inr above ↦ elim (Bool-cases (leb (last_log_index n) index)) [
    | inl all ↦
        rw (above, all)
          (drop-KeepsEntries n _ (ground arith)
            (sym (drop-all (index - n.last_included_index) n.log (ground arith))))
    | inr some_left ↦ rw (above, some_left) (drop-KeepsEntries n _ (ground arith) refl)
  ]
]

-- What `CompactLog` promises of the indexes.
pub compact_log-indexes :
    (n : Node) (index : ℕ) (term : ℤ)
    → IsOrdered n
    → IsOrdered (compact_log n index term)
      × (index ≤ (compact_log n index term).last_included_index)
      × (n.commit_index ≤ (compact_log n index term).commit_index)
      × (n.last_applied ≤ (compact_log n index term).last_applied)
unfolding compact_log
compact_log-indexes n index term h = ground arith

log_term_at-kept :
    (n n' : Node) (index : ℕ)
    → KeepsEntries n n'
    → n.last_included_index ≤ n'.last_included_index
    → n'.last_included_index < index
    → log_term_at n' index ≡ log_term_at n index
unfolding KeepsEntries log_term_at
log_term_at-kept n n' index k le lt = let e = k index lt in ground arith

last_log_term-at :
    (n : Node) → 0 < length n.log → log_term_at n (last_log_index n) ≡ last_log_term n
last_log_term-at n h =
    let i : last_log_index n ≡ n.last_included_index + 1 + (length n.log - 1) = omega arith in
    ap (log_term_at n) i
    ∙ log_term_at-above n (length n.log - 1)
    ∙ sym (last_term-get n.last_included_term n.log h)

log_term_at-base :
    (n : Node)
    → 0 < n.last_included_index
    → log_term_at n n.last_included_index ≡ n.last_included_term
unfolding log_term_at
log_term_at-base n h = ground arith

compact_log-base :
    (n : Node) (index : ℕ) (term : ℤ)
    → n.last_included_index < index
    → index ≤ last_log_index n
    → term ≡ log_term_at n index
    → log_term_at (compact_log n index term) index ≡ log_term_at n index
unfolding compact_log
compact_log-base n index term above le e = elim (Bool-cases (leb (last_log_index n) index)) [
  | inl all ↦
      let low : leb index n.last_included_index ≡ false = ground arith in
      let i : index ≡ last_log_index n = ground arith in
      rw (low, all)
        (log_term_at-base _ (omega arith)
          ∙ sym (last_log_term-at n (omega arith))
          ∙ ap (log_term_at n) (sym i))
  | inr less ↦
      let low : leb index n.last_included_index ≡ false = ground arith in
      rw (low, less) (log_term_at-base _ (omega arith) ∙ e)
]

compact_log-new_base :
    (n : Node) (index : ℕ) (term : ℤ)
    → n.last_included_index < index
    → (compact_log n index term).last_included_index ≡ index
unfolding compact_log
compact_log-new_base n index term h = ground arith

compact_log-low :
    (n : Node) (index : ℕ) (term : ℤ) → index ≤ n.last_included_index → compact_log n index term ≡ n
unfolding compact_log
compact_log-low n index term h = ground arith

-- Compacting at an index of the log, with the term of its entry, keeps the term at every index from the new
-- base on and the entry at every index above it.
pub compact_log-entries :
    (n : Node) (index : ℕ) (term : ℤ) (at : ℕ)
    → index ≤ last_log_index n
    → term ≡ log_term_at n index
    → (compact_log n index term).last_included_index ≤ at
    → (log_term_at (compact_log n index term) at ≡ log_term_at n at)
      × ((compact_log n index term).last_included_index < at
          → entry_at (compact_log n index term) at ≡ entry_at n at)
unfolding KeepsEntries
compact_log-entries n index term at le e from =
    let k = compact_log-KeepsEntries n index term in
    elim (dec_lt n.last_included_index index) [
      | yes above ↦
          let b = compact_log-new_base n index term above in
          elim (dec_lt index at) [
            | yes more ↦ (
              log_term_at-kept n (compact_log n index term) at k (omega arith) (omega arith),
              k at,
            )
            | no less ↦
                let i : at ≡ index = omega arith in
                (
                  ap (log_term_at (compact_log n index term)) i
                      ∙ compact_log-base n index term above le e
                      ∙ ap (log_term_at n) (sym i),
                  k at,
                )
          ]
      | no low ↦
          (ap (λ (m : Node). log_term_at m at) (compact_log-low n index term (omega arith)), k at)
    ]
