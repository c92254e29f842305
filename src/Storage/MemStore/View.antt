-- ===== src/Storage/MemStore/View.antt =====
-- What a client can see of a store (pkg/storage/memstore.go) at a reading of the clock: the entries that
-- have not expired.
use kv_store.Common.{
  ◌+◌, ◌≡◌, refl, ℤ, leb_ℤ, leb_ℤ_trans, true, Option, none, some, Bytes, bytes_eq, bytes_eq_iff,
  if◌then◌else◌, arith, length, sym, [], ◌∷◌, Option-cases, inl, inr,
}
use kv_store.Common.Dict.{Dict, lookup, lookup-insert, lookup-erase, UniqueKeys}
use kv_store.Storage.Engine.{Result, ok, err, Error}
use kv_store.Storage.MemStore.{
  Entry, MemStore, entry_expired, lookup_live, get, put_entry, delete, sweep_items, sweep_expired,
  count_live, size,
}

abbrev pub alive : ℤ → Entry → Option Entry
alive now e = if entry_expired e now then none else some e

abbrev alive? : ℤ → Option Entry → Option Entry
alive? now none = none
alive? now (some e) = alive now e

unfoldable pub view : ℤ → MemStore → Bytes → Option Entry
view now m k = alive? now (lookup k m.items)

abbrev pub found : Option Entry → Result Bytes
found none = err Error.not_found
found (some e) = ok e.value

-- What has expired stays expired.
pub expired-later :
    (e : Entry) (now later : ℤ)
    → leb_ℤ now later ≡ true
    → entry_expired e now ≡ true
    → entry_expired e later ≡ true
unfolding entry_expired
expired-later e now later le x = ground (arith, leb_ℤ_trans e.exp now later)

-- The lookup that starts Incr, CAS and Expire finds the live entry, and drops only a dead one.
pub lookup_live-view : (now : ℤ) (k : Bytes) (m : MemStore) → (lookup_live now k m).1 ≡ view now m k
unfolding lookup_live view
lookup_live-view now k m = ground arith

pub view-lookup_live :
    (now later : ℤ) (k j : Bytes) (m : MemStore)
    → leb_ℤ now later ≡ true
    → view later (lookup_live now k m).0 j ≡ view later m j
unfolding lookup_live view
view-lookup_live now later k j m le = elim (Option-cases (lookup k m.items)) [
  | inl e ↦ ground arith
  | inr (x, e) ↦
      ground (arith, lookup-erase k j m.items, bytes_eq_iff k j, expired-later x now later le)
]

-- Get answers what the view at its first reading of the clock has for the key, whatever the second reading.
pub get-view :
    (now again : ℤ) (k : Bytes) (m : MemStore) → (get now again k m).1 ≡ found (view now m k)
unfolding get view
get-view now again k m = ground arith

-- What Get removes cannot be seen: the view of every key at its second reading of the clock, or at any time
-- after that, is as it was.
pub view-get :
    (now again later : ℤ) (k j : Bytes) (m : MemStore)
    → leb_ℤ again later ≡ true
    → view later (get now again k m).0 j ≡ view later m j
unfolding get
view-get now again later k j m le = ground (arith, view-lookup_live again later k j m le)

-- The view after a write of one key, and after its removal.
pub view-put :
    (now : ℤ) (k j : Bytes) (e : Entry) (m : MemStore)
    → view now (put_entry k e m) j ≡ (if bytes_eq k j then alive now e else view now m j)
unfolding view
view-put now k j e m = ground (arith, lookup-insert k j e m.items)

pub view-delete :
    (now : ℤ) (k j : Bytes) (m : MemStore)
    → view now (delete k m) j ≡ (if bytes_eq k j then none else view now m j)
unfolding view delete
view-delete now k j m = ground (arith, lookup-erase k j m.items)

lookup-sweep :
    (now later : ℤ) (j : Bytes) (l : Dict Entry)
    → UniqueKeys l
    → leb_ℤ now later ≡ true
    → alive? later (lookup j (sweep_items now l).0) ≡ alive? later (lookup j l)
unfolding sweep_items lookup
lookup-sweep now later j [] u le = refl
lookup-sweep now later j ((k, e) ∷ l) u le =
    ground
      (arith, bytes_eq_iff k j, expired-later e now later le, lookup-sweep now later j l u.1 le)

length-sweep :
    (now : ℤ) (l : Dict Entry)
    → ((sweep_items now l).1 + length (sweep_items now l).0 ≡ length l)
      × (count_live now l ≡ length (sweep_items now l).0)
unfolding sweep_items count_live
length-sweep now [] = (omega arith, refl)
length-sweep now ((k, e) ∷ l) = ground (arith, length-sweep now l)

-- On a map without a key twice, the sweep leaves as many entries as `Size` counts and counts the entries
-- that it drops, and the view of every key at its time, or at any time after that, is as it was.
pub sweep-view :
    (now later : ℤ) (m : MemStore) (j : Bytes)
    → UniqueKeys m.items
    → leb_ℤ now later ≡ true
    → (view later (sweep_expired now m).0 j ≡ view later m j)
      × (length (sweep_expired now m).0.items ≡ size now m)
      × ((sweep_expired now m).1 + length (sweep_expired now m).0.items ≡ length m.items)
unfolding view sweep_expired size
sweep-view now later m j u le =
    let s = length-sweep now m.items in (lookup-sweep now later j m.items u le, sym s.1, s.0)
