-- ===== src/Storage/MemStore/Scan/Page.antt =====
-- One page of Scan (pkg/storage/memstore.go) against the store's map.
use mathlib.Core.Path.{subst}
use kv_store.Common.{
  ℕ, zero, suc, ◌<◌, ◌≡◌, ◌⊎◌, inl, inr, refl, ap, sym, ◌∙◌, Option, none, some, List, [], ◌∷◌,
  ◌++◌, Bytes, bytes_eq_iff, if◌then◌else◌, length, take, drop, arith, ℤ, pos, negsuc, ◌==◌,
}
use kv_store.Common.Dict.{Dict, lookup, UniqueKeys}
use kv_store.Storage.Engine.{KeyValue, ok}
use kv_store.Storage.MemStore.{MemStore, Entry}
use kv_store.Storage.MemStore.Scan.{is_wanted, collect, sort_keys, last_key, page_of, scan}
use kv_store.Storage.MemStore.Scan.Sorted.{
  find, IsAscending, NoTwice, find-sort, sort-IsAscending, IsAscending-unique,
}

-- What a scan should give for a key, from what the map has for it.
abbrev pub wanted : ℤ → Bytes → Bytes → Bytes → Option Entry → Option Bytes
wanted now cursor pattern k none = none
wanted now cursor pattern k (some e) =
    if is_wanted now cursor pattern k e then some e.value else none

-- All that is left to scan behind a cursor, in order.
abbrev pub remaining : ℤ → Bytes → Bytes → MemStore → List KeyValue
remaining now cursor pattern m = sort_keys (collect now cursor pattern m.items)

module _ (now : ℤ) (cursor pattern : Bytes) where
  find-collect :
      (k : Bytes) (l : Dict Entry)
      → UniqueKeys l
      → find k (collect now cursor pattern l) ≡ wanted now cursor pattern k (lookup k l)
  unfolding collect lookup
  find-collect k [] u = refl
  find-collect k ((j, e) ∷ l) u = ground (arith, bytes_eq_iff j k, find-collect k l u.1)

  collect-NoTwice : (l : Dict Entry) → UniqueKeys l → NoTwice (collect now cursor pattern l)
  unfolding collect
  collect-NoTwice [] u = tt
  collect-NoTwice ((j, e) ∷ l) u = ground (arith, find-collect j l u.1, collect-NoTwice l u.1)

  pub find-remaining :
      (k : Bytes) (m : MemStore)
      → UniqueKeys m.items
      → find k (remaining now cursor pattern m) ≡ wanted now cursor pattern k (lookup k m.items)
  find-remaining k m u =
      find-sort k (collect now cursor pattern m.items) (collect-NoTwice m.items u)
      ∙ find-collect k m.items u

  pub remaining-IsAscending :
      (m : MemStore) → UniqueKeys m.items → IsAscending (remaining now cursor pattern m)
  remaining-IsAscending m u =
      sort-IsAscending (collect now cursor pattern m.items) (collect-NoTwice m.items u)

pub take-drop : (n : ℕ) (l : List KeyValue) → take n l ++ drop n l ≡ l
take-drop zero l = refl
take-drop (suc n) [] = refl
take-drop (suc n) (x ∷ l) = ap (λ r. x ∷ r) (take-drop n l)

pub full-or-all :
    (n : ℕ) (l : List KeyValue)
    → (length (take n l) ≡ n) ⊎ ((drop n l ≡ []) × (length (take n l) < n))
full-or-all zero l = inl refl
full-or-all (suc n) [] = inr (refl, omega arith)
full-or-all (suc n) (x ∷ l) = ground (arith, full-or-all n l)

-- What a scan at a time, behind a cursor, of a count of pairs and with a pattern gives is the page and a rest.
abbrev pub IsPage : ℤ → Bytes → ℕ → Bytes → MemStore → List KeyValue → List KeyValue → Type 0
IsPage now cursor count pattern m page rest =
    IsAscending (page ++ rest)
    × ((k : Bytes) → find k (page ++ rest) ≡ wanted now cursor pattern k (lookup k m.items))
    × ((length page ≡ count) ⊎ ((rest ≡ []) × (length page < count)))

abbrev pub next_cursor : ℕ → List KeyValue → Bytes
next_cursor count page = if length page == count then last_key page else []

-- A scan of a positive count on a map without a key twice gives a page such that, with some rest behind it, the pairs
-- stand in the ascending order of their keys and hold for each key what is wanted of the map's entry: its value if it
-- has not expired, is greater than a cursor that is not empty, and matches the pattern. The page has as many pairs as
-- counted, or fewer when there is no rest; the next cursor is its last key in the first case, and empty in the other.
pub scan-IsPage :
    (now : ℤ) (cursor : Bytes) (n : ℕ) (pattern : Bytes) (m : MemStore)
    → UniqueKeys m.items
    → (page rest : List KeyValue) × IsPage now cursor (suc n) pattern m page rest
      × (scan now cursor (pos (suc n)) pattern m ≡ ok (page, next_cursor (suc n) page))
unfolding scan
scan-IsPage now cursor n pattern m u =
    let all = remaining now cursor pattern m in
    let e = take-drop (suc n) all in
    (
      take (suc n) all,
      drop (suc n) all,
      (
        subst IsAscending (sym e) (remaining-IsAscending now cursor pattern m u),
        (λ k. ap (find k) e ∙ find-remaining now cursor pattern k m u),
        full-or-all (suc n) all,
      ),
      refl,
    )

-- Two stores whose maps agree on every key, whatever the order they are iterated in, scan the same.
pub scan-order :
    (now : ℤ) (cursor : Bytes) (count : ℤ) (pattern : Bytes) (m m' : MemStore)
    → UniqueKeys m.items
    → UniqueKeys m'.items
    → ((k : Bytes) → lookup k m.items ≡ lookup k m'.items)
    → scan now cursor count pattern m ≡ scan now cursor count pattern m'
unfolding scan
scan-order now cursor (pos zero) pattern m m' u v h = refl
scan-order now cursor (negsuc n) pattern m m' u v h = refl
scan-order now cursor (pos (suc n)) pattern m m' u v h =
    ap (λ (l : List KeyValue). ok (page_of (suc n) l))
      (IsAscending-unique (remaining now cursor pattern m) (remaining now cursor pattern m')
        (remaining-IsAscending now cursor pattern m u)
        (remaining-IsAscending now cursor pattern m' v)
        (λ k.
          find-remaining now cursor pattern k m u
          ∙ ap (wanted now cursor pattern k) (h k)
          ∙ sym (find-remaining now cursor pattern k m' v)))
