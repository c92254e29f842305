-- ===== src/Storage/DiskStore/Alike.antt =====
-- Stores whose maps agree on every key, as a map and what its JSON decodes to do: an operation of pkg/storage/memstore.go
-- leaves them so.
use mathlib.Core.Path.{subst}
use kv_store.Common.{
  ◌≡◌, refl, sym, ◌∙◌, ℤ, true, false, Option, none, some, List, [], ◌∷◌, Bytes, bytes_eq,
  Bool-cases, Option-cases, inl, inr, arith, ◌==ℤ◌, pos, suc_ℤ,
}
use kv_store.Common.Dict.{lookup, lookup-insert, lookup-erase}
use kv_store.Storage.Strconv.{max_int64, parse_int, format_int}
use kv_store.Storage.MemStore.{
  MemStore, Entry, entry, put_entry, drop_key, lookup_live, entry_expired, put, delete, clear, incr,
  cas, expire, incr_entry, cas_entry, expire_entry,
}
use kv_store.Storage.Wal.{
  Record, put_record, delete_record, clear_record, incr_record, cas_record, expire_record,
}
use kv_store.Storage.Wal.Records.{effect}
use kv_store.Storage.Wal.Replay.{effects}

abbrev pub Alike : MemStore → MemStore → Type 0
Alike m m' = (k : Bytes) → lookup k m.items ≡ lookup k m'.items

put_entry-Alike :
    (key : Bytes) (e : Entry) (m m' : MemStore)
    → Alike m m'
    → Alike (put_entry key e m) (put_entry key e m')
put_entry-Alike key e m m' h k =
    ground (arith, lookup-insert key k e m.items, lookup-insert key k e m'.items, h k)

drop_key-Alike :
    (key : Bytes) (m m' : MemStore) → Alike m m' → Alike (drop_key key m) (drop_key key m')
drop_key-Alike key m m' h k =
    ground (arith, lookup-erase key k m.items, lookup-erase key k m'.items, h k)

live-absent :
    (now : ℤ) (key : Bytes) (m : MemStore)
    → lookup key m.items ≡ none
    → lookup_live now key m ≡ (m, none)
unfolding lookup_live
live-absent now key m e = ground arith

live-dead :
    (now : ℤ) (key : Bytes) (m : MemStore) (x : Entry)
    → lookup key m.items ≡ some x
    → entry_expired x now ≡ true
    → lookup_live now key m ≡ (drop_key key m, none)
unfolding lookup_live
live-dead now key m x e d = ground arith

live-found :
    (now : ℤ) (key : Bytes) (m : MemStore) (x : Entry)
    → lookup key m.items ≡ some x
    → entry_expired x now ≡ false
    → lookup_live now key m ≡ (m, some x)
unfolding lookup_live
live-found now key m x e d = ground arith

lookup_live-Alike :
    (now : ℤ) (key : Bytes) (m m' : MemStore)
    → Alike m m'
    → Alike (lookup_live now key m).0 (lookup_live now key m').0
      × ((lookup_live now key m).1 ≡ (lookup_live now key m').1)
lookup_live-Alike now key m m' h = elim (Option-cases (lookup key m.items)) [
  | inl e ↦
      let e' = sym (h key) ∙ e in rw (live-absent now key m e, live-absent now key m' e') (h, refl)
  | inr (x, e) ↦
      let e' = sym (h key) ∙ e in
      elim (Bool-cases (entry_expired x now)) [
        | inl dead ↦
            rw (live-dead now key m x e dead, live-dead now key m' x e' dead)
              (drop_key-Alike key m m' h, refl)
        | inr live ↦ rw (live-found now key m x e live, live-found now key m' x e' live) (h, refl)
      ]
]

incr_entry-Alike :
    (key : Bytes) (o : Option Entry) (m m' : MemStore)
    → Alike m m'
    → Alike (incr_entry key m o).0 (incr_entry key m' o).0
unfolding incr
incr_entry-Alike key none m m' h = put_entry-Alike key (entry (b'1' ∷ [])) m m' h
incr_entry-Alike key (some e) m m' h = elim (Option-cases (parse_int e.value)) [
  | inl bad ↦ rw (bad, incr_entry) h
  | inr (v, good) ↦
      rw (good, incr_entry)
        (elim (Bool-cases (v ==ℤ pos max_int64)) [
          | inl top ↦ rw top h
          | inr room ↦ rw room (put_entry-Alike key (entry (format_int (suc_ℤ v))) m m' h)
        ])
]

cas_entry-Alike :
    (key old new : Bytes) (o : Option Entry) (m m' : MemStore)
    → Alike m m'
    → Alike (cas_entry key old new m o).0 (cas_entry key old new m' o).0
unfolding cas
cas_entry-Alike key old new none m m' h = h
cas_entry-Alike key old new (some e) m m' h = elim (Bool-cases (bytes_eq e.value old)) [
  | inl same ↦ rw (same, cas_entry) (put_entry-Alike key (entry new) m m' h)
  | inr other ↦ rw (other, cas_entry) h
]

expire_entry-Alike :
    (key : Bytes) (t : ℤ) (o : Option Entry) (m m' : MemStore)
    → Alike m m'
    → Alike (expire_entry key t m o).0 (expire_entry key t m' o).0
unfolding expire
expire_entry-Alike key t none m m' h = h
expire_entry-Alike key t (some e) m m' h =
    put_entry-Alike key (record { value = e.value; exp = t }) m m' h

pub effect-Alike :
    (now : ℤ) (r : Record) (m m' : MemStore) → Alike m m' → Alike (effect now r m) (effect now r m')
unfolding effect put delete clear incr cas expire
effect-Alike now (put_record key value) m m' h = put_entry-Alike key (entry value) m m' h
effect-Alike now (delete_record key) m m' h = drop_key-Alike key m m' h
effect-Alike now clear_record m m' h = λ k. refl
effect-Alike now (incr_record key) m m' h =
    let l = lookup_live-Alike now key m m' h in
    subst
      (λ (o : Option Entry).
        Alike (incr_entry key (lookup_live now key m).0 o).0
          (incr_entry key (lookup_live now key m').0 (lookup_live now key m').1).0)
      (sym l.1)
      (incr_entry-Alike key (lookup_live now key m').1 (lookup_live now key m).0
        (lookup_live now key m').0 l.0)
effect-Alike now (cas_record key old new) m m' h =
    let l = lookup_live-Alike now key m m' h in
    subst
      (λ (o : Option Entry).
        Alike (cas_entry key old new (lookup_live now key m).0 o).0
          (cas_entry key old new (lookup_live now key m').0 (lookup_live now key m').1).0)
      (sym l.1)
      (cas_entry-Alike key old new (lookup_live now key m').1 (lookup_live now key m).0
        (lookup_live now key m').0 l.0)
effect-Alike now (expire_record key t) m m' h =
    let l = lookup_live-Alike now key m m' h in
    subst
      (λ (o : Option Entry).
        Alike (expire_entry key t (lookup_live now key m).0 o).0
          (expire_entry key t (lookup_live now key m').0 (lookup_live now key m').1).0)
      (sym l.1)
      (expire_entry-Alike key t (lookup_live now key m').1 (lookup_live now key m).0
        (lookup_live now key m').0 l.0)

pub effects-Alike :
    (now : ℤ) (rs : List Record) (m m' : MemStore)
    → Alike m m'
    → Alike (effects now rs m) (effects now rs m')
unfolding effects
effects-Alike now [] m m' h = h
effects-Alike now (r ∷ rs) m m' h =
    effects-Alike now rs (effect now r m) (effect now r m') (effect-Alike now r m m' h)
