-- ===== src/Storage/MemStore/Scan/Behind.antt =====
-- What stands behind a part of a list in the order of its keys (pkg/storage/memstore.go, Scan).
use kv_store.Common.{
  ℕ, zero, suc, ◌≤◌, ◌≡◌, ◌≢◌, inl, inr, refl, ◌∙◌, true, none, [], ◌∷◌, List, Bytes, bytes_eq_refl,
  bytes_lt, if◌then◌else◌, length, take, drop, arith, Bool-cases,
}
use kv_store.Common.Order.{bytes_lt_eq, bytes_lt_trans}
use kv_store.Storage.Engine.{KeyValue}
use kv_store.Storage.MemStore.Scan.{last_key, is_past}
use kv_store.Storage.MemStore.Scan.Sorted.{find, Above, IsAscending, find-below}

Above-last :
    (n : ℕ) (k : Bytes) (l : List KeyValue)
    → suc n ≤ length l
    → Above k l
    → bytes_lt k (last_key (take (suc n) l)) ≡ true
unfolding last_key
Above-last n k [] le a = absurd (omega arith)
Above-last zero k (x ∷ l) le a = a.0
Above-last (suc n) k (x ∷ []) le a = absurd (omega arith)
Above-last (suc n) k (x ∷ y ∷ l) le a = Above-last n k (y ∷ l) (omega arith) a.1

-- What stands behind a page is what is greater than its last key.
pub find-drop :
    (n : ℕ) (k : Bytes) (l : List KeyValue)
    → suc n ≤ length l
    → IsAscending l
    → find k (drop (suc n) l) ≡ (if bytes_lt (last_key (take (suc n) l)) k then find k l else none)
unfolding last_key
find-drop n k [] le a = absurd (omega arith)
find-drop zero k (x ∷ l) le a = elim (Bool-cases (bytes_lt x.key k)) [
  | inl lt ↦ rw (lt, bytes_lt_eq x.key k lt) refl
  | inr ge ↦ rw ge (find-below k x.key l ge a.0)
]
find-drop (suc n) k (x ∷ []) le a = absurd (omega arith)
find-drop (suc n) k (x ∷ y ∷ l) le a =
    let last = last_key (take (suc n) (y ∷ l)) in
    let more = find-drop n k (y ∷ l) (omega arith) a.1 in
    let lt = Above-last n x.key (y ∷ l) (omega arith) a.0 in
    elim (Bool-cases (bytes_lt last k)) [
      | inl h ↦
          let e = bytes_lt_eq x.key k (bytes_lt_trans x.key last k lt h) in more ∙ rw (h, e) refl
      | inr h ↦ more ∙ rw h refl
    ]

-- The last key of a page is there.
pub find-last :
    (n : ℕ) (l : List KeyValue)
    → suc n ≤ length l
    → IsAscending l
    → find (last_key (take (suc n) l)) l ≢ none
unfolding last_key
find-last n [] le a = absurd (omega arith)
find-last zero (x ∷ l) le a = rw (bytes_eq_refl x.key) (ground arith)
find-last (suc n) (x ∷ []) le a = absurd (omega arith)
find-last (suc n) (x ∷ y ∷ l) le a =
    let more = find-last n (y ∷ l) (omega arith) a.1 in
    let lt = Above-last n x.key (y ∷ l) (omega arith) a.0 in
    let e = bytes_lt_eq x.key (last_key (take (suc n) (y ∷ l))) lt in λ h. more (ground arith)

pub is_past_trans :
    (cursor j k : Bytes) → is_past cursor j ≡ true → bytes_lt j k ≡ true → is_past cursor k ≡ true
is_past_trans [] j k h lt = refl
is_past_trans (c ∷ cursor) j k h lt = bytes_lt_trans (c ∷ cursor) j k h lt

pub drop-IsAscending : (n : ℕ) (l : List KeyValue) → IsAscending l → IsAscending (drop n l)
drop-IsAscending zero l a = a
drop-IsAscending (suc n) [] a = tt
drop-IsAscending (suc n) (x ∷ l) a = drop-IsAscending n l a.1
