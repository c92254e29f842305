-- ===== src/Storage/MemStore/Scan/Walk.antt =====
-- A client that scans page after page (pkg/storage/memstore.go, Scan), from the cursor of each page to the next.
use mathlib.Core.Path.{subst}
use kv_store.Common.{
  ℕ, zero, suc, ◌≤◌, ◌<◌, ◌≡◌, ◌≢◌, inl, inr, refl, ap, sym, ◌∙◌, true, Option, none, some, List,
  [], ◌∷◌, ◌++◌, Bytes, bytes_lt, if◌then◌else◌, length, take, drop, length-take, length-drop,
  take-all, arith, ℤ, pos,
}
use kv_store.Common.Dict.{Dict, lookup, UniqueKeys}
use kv_store.Storage.Engine.{KeyValue, ok, err}
use kv_store.Storage.MemStore.{MemStore, Entry}
use kv_store.Storage.MemStore.Scan.{
  is_wanted, collect, sort_keys, insert_sorted, last_key, scan, is_past,
}
use kv_store.Storage.MemStore.Scan.Sorted.{find, IsAscending, IsAscending-unique}
use kv_store.Storage.MemStore.Scan.Behind.{find-drop, find-last, is_past_trans, drop-IsAscending}
use kv_store.Storage.MemStore.Scan.Page.{
  wanted, remaining, find-remaining, remaining-IsAscending, next_cursor, take-drop, full-or-all,
}

-- The walk ends at the first empty cursor; a bound on the number of pages is its fuel.
walk_on : Bytes → List KeyValue → Option (List KeyValue) → Option (List KeyValue)
walk_on [] page rest = some page
walk_on (c ∷ cursor) page none = none
walk_on (c ∷ cursor) page (some rest) = some (page ++ rest)

unfoldable pub walk : ℕ → ℤ → Bytes → ℤ → Bytes → MemStore → Option (List KeyValue)
unfolding walk_on
walk zero now cursor count pattern m = none
walk (suc fuel) now cursor count pattern m = elim (scan now cursor count pattern m) [
  | err e ↦ none
  | ok (page, next) ↦ walk_on next page (walk fuel now next count pattern m)
]

module _ (now : ℤ) (pattern : Bytes) where
  wanted-is_past :
      (cursor k : Bytes) (o : Option Entry)
      → wanted now cursor pattern k o ≢ none
      → (is_past cursor k ≡ true) × (o ≢ none)
  unfolding is_wanted
  wanted-is_past cursor k none h = absurd (h refl)
  wanted-is_past cursor k (some e) h = ground arith

  -- What is wanted behind a greater cursor.
  wanted-next :
      (cursor : Bytes) (c : ℕ) (last k : Bytes) (o : Option Entry)
      → is_past cursor (c ∷ last) ≡ true
      → wanted now (c ∷ last) pattern k o
        ≡ (if bytes_lt (c ∷ last) k then wanted now cursor pattern k o else none)
  unfolding is_wanted
  wanted-next cursor c last k none h = ground arith
  wanted-next cursor c last k (some e) h = ground (arith, is_past_trans cursor (c ∷ last) k h)

  -- Behind the last key of a page stands what was left of the list.
  remaining-next :
      (cursor : Bytes) (n c : ℕ) (last : Bytes) (m : MemStore)
      → UniqueKeys m.items
      → suc n ≤ length (remaining now cursor pattern m)
      → last_key (take (suc n) (remaining now cursor pattern m)) ≡ c ∷ last
      → remaining now (c ∷ last) pattern m ≡ drop (suc n) (remaining now cursor pattern m)
  remaining-next cursor n c last m u le e =
      let r = remaining now cursor pattern m in
      let a = remaining-IsAscending now cursor pattern m u in
      let is : find (c ∷ last) r ≢ none =
        subst (λ (k : Bytes). find k r ≢ none) e (find-last n r le a) in
      let past =
        wanted-is_past cursor (c ∷ last) (lookup (c ∷ last) m.items)
          (λ h. is (find-remaining now cursor pattern (c ∷ last) m u ∙ h)) in
      IsAscending-unique (remaining now (c ∷ last) pattern m) (drop (suc n) r)
        (remaining-IsAscending now (c ∷ last) pattern m u) (drop-IsAscending (suc n) r a)
        (λ k.
          find-remaining now (c ∷ last) pattern k m u
          ∙ wanted-next cursor c last k (lookup k m.items) past.0
          ∙ sym (
              find-drop n k r le a
              ∙ ap (λ (j : Bytes). if bytes_lt j k then find k r else none) e
              ∙ ap (λ (o : Option Bytes). if bytes_lt (c ∷ last) k then o else none)
                  (find-remaining now cursor pattern k m u)))

  walk_step :
      (fuel : ℕ) (cursor : Bytes) (n : ℕ) (m : MemStore)
      → walk (suc fuel) now cursor (pos (suc n)) pattern m ≡ (
          let page = take (suc n) (remaining now cursor pattern m) in
          walk_on
            (next_cursor (suc n) page)
            page
            (walk fuel now (next_cursor (suc n) page) (pos (suc n)) pattern m))
  unfolding walk scan
  walk_step fuel cursor n m = refl

  no_empty_last :
      (cursor : Bytes) (n : ℕ) (m : MemStore)
      → UniqueKeys m.items
      → lookup [] m.items ≡ none
      → suc n ≤ length (remaining now cursor pattern m)
      → last_key (take (suc n) (remaining now cursor pattern m)) ≢ []
  no_empty_last cursor n m u h le e =
      let r = remaining now cursor pattern m in
      let a = remaining-IsAscending now cursor pattern m u in
      subst (λ (k : Bytes). find k r ≢ none) e (find-last n r le a)
        (find-remaining now cursor pattern [] m u ∙ ap (wanted now cursor pattern []) h)

  -- A full page and the walk behind it.
  walk-full :
      (fuel : ℕ) (cursor : Bytes) (n : ℕ) (m : MemStore) (last : Bytes)
      → UniqueKeys m.items
      → lookup [] m.items ≡ none
      → suc n ≤ length (remaining now cursor pattern m)
      → last_key (take (suc n) (remaining now cursor pattern m)) ≡ last
      → walk fuel now last (pos (suc n)) pattern m ≡ some (remaining now last pattern m)
      → walk_on last
          (take (suc n) (remaining now cursor pattern m))
          (walk fuel now last (pos (suc n)) pattern m)
        ≡ some (remaining now cursor pattern m)
  unfolding walk_on
  walk-full fuel cursor n m [] u h le e more = absurd (no_empty_last cursor n m u h le e)
  walk-full fuel cursor n m (c ∷ last) u h le e more =
      let r = remaining now cursor pattern m in
      let page = take (suc n) r in
      ap (walk_on (c ∷ last) page) more
      ∙ ap (λ (l : List KeyValue). some (page ++ l)) (remaining-next cursor n c last m u le e)
      ∙ ap some (take-drop (suc n) r)

  -- The list left behind a full page is shorter.
  length-next :
      (cursor : Bytes) (n : ℕ) (m : MemStore) (last : Bytes)
      → UniqueKeys m.items
      → lookup [] m.items ≡ none
      → suc n ≤ length (remaining now cursor pattern m)
      → last_key (take (suc n) (remaining now cursor pattern m)) ≡ last
      → length (remaining now last pattern m) < length (remaining now cursor pattern m)
  length-next cursor n m [] u h le e = absurd (no_empty_last cursor n m u h le e)
  length-next cursor n m (c ∷ last) u h le e =
      let r = remaining now cursor pattern m in
      let d = length-drop (suc n) r in
      let x : length (remaining now (c ∷ last) pattern m) ≡ length (drop (suc n) r) =
        ap (λ (l : List KeyValue). length l) (remaining-next cursor n c last m u le e) in
      omega arith

  walk-remaining :
      (fuel : ℕ) (cursor : Bytes) (n : ℕ) (m : MemStore)
      → UniqueKeys m.items
      → lookup [] m.items ≡ none
      → length (remaining now cursor pattern m) < fuel
      → walk fuel now cursor (pos (suc n)) pattern m ≡ some (remaining now cursor pattern m)
  unfolding walk_on
  walk-remaining zero cursor n m u h lt = absurd (omega arith)
  walk-remaining (suc fuel) cursor n m u h lt =
      let r = remaining now cursor pattern m in
      let page = take (suc n) r in
      walk_step fuel cursor n m ∙ elim (full-or-all (suc n) r) [
        | inr (e, short) ↦
            let next : next_cursor (suc n) page ≡ [] = ground arith in
            let l = length-drop (suc n) r in
            let le : length r ≤ suc n = ground arith in rw next (ap some (take-all (suc n) r le))
        | inl full ↦
            let next : next_cursor (suc n) page ≡ last_key page = ground arith in
            let l = length-take (suc n) r in
            let le : suc n ≤ length r = omega arith in
            let last = last_key page in
            let shorter = length-next cursor n m last u h le refl in
            let more = walk-remaining fuel last n m u h (omega arith) in
            rw next (walk-full fuel cursor n m last u h le refl more)
      ]

  length-insert : (x : KeyValue) (l : List KeyValue) → length (insert_sorted x l) ≡ suc (length l)
  unfolding insert_sorted
  length-insert x [] = refl
  length-insert x (y ∷ l) = ground (arith, length-insert x l)

  length-sort : (l : List KeyValue) → length (sort_keys l) ≡ length l
  unfolding sort_keys
  length-sort [] = refl
  length-sort (x ∷ l) = omega (arith, length-insert x (sort_keys l), length-sort l)

  length-collect :
      (cursor : Bytes) (l : Dict Entry) → length (collect now cursor pattern l) ≤ length l
  unfolding collect
  length-collect cursor [] = omega arith
  length-collect cursor ((k, e) ∷ l) = ground (arith, length-collect cursor l)

-- Scans of a positive count, page after page from the empty cursor to each page's next until that is empty, end
-- within one more page than the map has entries, when the map has no key twice and no empty key. The pages together
-- stand in the ascending order of their keys, and hold for each key exactly the value of an entry that has not
-- expired and matches the pattern.
pub walk-listing :
    (fuel : ℕ) (now : ℤ) (n : ℕ) (pattern : Bytes) (m : MemStore)
    → UniqueKeys m.items
    → lookup [] m.items ≡ none
    → length m.items < fuel
    → (all : List KeyValue) × (walk fuel now [] (pos (suc n)) pattern m ≡ some all)
      × IsAscending all
      × ((k : Bytes) → find k all ≡ wanted now [] pattern k (lookup k m.items))
walk-listing fuel now n pattern m u h lt =
    let s = length-sort now pattern (collect now [] pattern m.items) in
    let c = length-collect now pattern [] m.items in
    (
      remaining now [] pattern m,
      walk-remaining now pattern fuel [] n m u h (omega arith),
      remaining-IsAscending now [] pattern m u,
      (λ k. find-remaining now [] pattern k m u),
    )
