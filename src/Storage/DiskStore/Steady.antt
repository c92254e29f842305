-- ===== src/Storage/DiskStore/Steady.antt =====
-- Stores without deadlines (pkg/storage/memstore.go).
use mathlib.Core.Path.{subst}
use kv_store.Common.{
  ◌≡◌, refl, sym, ap, ◌∙◌, ℤ, pos, suc_ℤ, Bool, Option, none, some, [], ◌∷◌, Bytes, Option-cases,
  inl, inr, arith,
}
use kv_store.Common.Dict.{Dict, lookup, insert, erase}
use kv_store.Storage.Engine.{Result}
use kv_store.Storage.MemStore.{
  Entry, MemStore, entry, lookup_live, get, put, delete, clear, incr, cas, incr_entry, cas_entry,
}
use kv_store.Storage.MemStore.View.{found}
use kv_store.Storage.Strconv.{parse_int, format_int}
use kv_store.Storage.Wal.{
  Record, put_record, delete_record, clear_record, incr_record, cas_record, expire_record,
}
use kv_store.Storage.Wal.Records.{effect}

-- No entry of the map has a deadline.
abbrev pub NoDeadlines : Dict Entry → Type 0
NoDeadlines [] = Unit
NoDeadlines ((k, e) ∷ l) = (e.exp ≡ pos 0) × NoDeadlines l

lookup-NoDeadlines :
    (k : Bytes) (l : Dict Entry) (e : Entry) → NoDeadlines l → lookup k l ≡ some e → e.exp ≡ pos 0
unfolding lookup
lookup-NoDeadlines k [] e h at = ground arith
lookup-NoDeadlines k ((j, d) ∷ l) e h at = ground (arith, lookup-NoDeadlines k l e h.1)

insert-NoDeadlines :
    (k v : Bytes) (l : Dict Entry) → NoDeadlines l → NoDeadlines (insert k (entry v) l)
unfolding insert
insert-NoDeadlines k v [] h = (refl, tt)
insert-NoDeadlines k v ((j, d) ∷ l) h = ground (arith, insert-NoDeadlines k v l h.1)

erase-NoDeadlines : (k : Bytes) (l : Dict Entry) → NoDeadlines l → NoDeadlines (erase k l)
unfolding erase
erase-NoDeadlines k [] h = tt
erase-NoDeadlines k ((j, d) ∷ l) h = ground (arith, erase-NoDeadlines k l h.1)

-- Then the clock does not matter.
pub lookup_live-steady :
    (now : ℤ) (k : Bytes) (m : MemStore)
    → NoDeadlines m.items
    → lookup_live now k m ≡ (m, lookup k m.items)
unfolding lookup_live
lookup_live-steady now k m h = elim (Option-cases (lookup k m.items)) [
  | inl e ↦ ground arith
  | inr (x, e) ↦ ground (arith, lookup-NoDeadlines k m.items x h e)
]

pub get-steady :
    (now again : ℤ) (k : Bytes) (m : MemStore)
    → NoDeadlines m.items
    → get now again k m ≡ (m, found (lookup k m.items))
unfolding get
get-steady now again k m h = elim (Option-cases (lookup k m.items)) [
  | inl e ↦ ground arith
  | inr (x, e) ↦ ground (arith, lookup-NoDeadlines k m.items x h e)
]

abbrev pub IsPlain : Record → Type 0
IsPlain (expire_record key expires_at) = ⊥
IsPlain _ = Unit

-- What a record without a deadline does to a store without deadlines.
pub record Steady (now : ℤ) (r : Record) (m : MemStore) : Type 0 where
  pub any_time : (later : ℤ) → effect later r m ≡ effect now r m
  pub no_deadlines : NoDeadlines (effect now r m).items
  pub none_expired : (effect now r m).expired ≡ m.expired

pub incr-steady :
    (now : ℤ) (k : Bytes) (m : MemStore)
    → NoDeadlines m.items
    → incr now k m ≡ incr_entry k m (lookup k m.items)
unfolding incr
incr-steady now k m h = rw (lookup_live-steady now k m h) refl

pub cas-steady :
    (now : ℤ) (k old new : Bytes) (m : MemStore)
    → NoDeadlines m.items
    → cas now k old new m ≡ cas_entry k old new m (lookup k m.items)
unfolding cas
cas-steady now k old new m h = rw (lookup_live-steady now k m h) refl

incr_entry-NoDeadlines :
    (k : Bytes) (m : MemStore) (o : Option Entry)
    → NoDeadlines m.items
    → NoDeadlines (incr_entry k m o).0.items × ((incr_entry k m o).0.expired ≡ m.expired)
unfolding incr
incr_entry-NoDeadlines k m none h = (insert-NoDeadlines k (b'1' ∷ []) m.items h, refl)
incr_entry-NoDeadlines k m (some e) h = elim (Option-cases (parse_int e.value)) [
  | inl bad ↦ ground arith
  | inr (v, good) ↦ ground (arith, insert-NoDeadlines k (format_int (suc_ℤ v)) m.items h)
]

cas_entry-NoDeadlines :
    (k old new : Bytes) (m : MemStore) (o : Option Entry)
    → NoDeadlines m.items
    → NoDeadlines (cas_entry k old new m o).0.items
      × ((cas_entry k old new m o).0.expired ≡ m.expired)
unfolding cas
cas_entry-NoDeadlines k old new m none h = (h, refl)
cas_entry-NoDeadlines k old new m (some e) h = ground (arith, insert-NoDeadlines k new m.items h)

steady :
    (now : ℤ) (r : Record) (m m' : MemStore)
    → ((t : ℤ) → effect t r m ≡ m')
    → NoDeadlines m'.items
    → m'.expired ≡ m.expired
    → Steady now r m
steady now r m m' e h x = record {
  any_time = λ t. e t ∙ sym (e now);
  no_deadlines = subst (λ (s : MemStore). NoDeadlines s.items) (sym (e now)) h;
  none_expired = ap (λ (s : MemStore). s.expired) (e now) ∙ x;
}

pub effect-Steady :
    (now : ℤ) (r : Record) (m : MemStore) → IsPlain r → NoDeadlines m.items → Steady now r m
unfolding effect
effect-Steady now (put_record key value) m p h = record {
  any_time = λ t. refl;
  no_deadlines = unfold put in insert-NoDeadlines key value m.items h;
  none_expired = unfold put in refl;
}
effect-Steady now (delete_record key) m p h = record {
  any_time = λ t. refl;
  no_deadlines = unfold delete in erase-NoDeadlines key m.items h;
  none_expired = unfold delete in refl;
}
effect-Steady now clear_record m p h = record {
  any_time = λ t. refl;
  no_deadlines = unfold clear in tt;
  none_expired = unfold clear in refl;
}
effect-Steady now (incr_record key) m p h =
    let n = incr_entry-NoDeadlines key m (lookup key m.items) h in
    steady now (incr_record key) m (incr_entry key m (lookup key m.items)).0
      (λ t. ap (λ (x : MemStore × Result ℤ). x.0) (incr-steady t key m h)) n.0 n.1
effect-Steady now (cas_record key old new) m p h =
    let n = cas_entry-NoDeadlines key old new m (lookup key m.items) h in
    steady now (cas_record key old new) m (cas_entry key old new m (lookup key m.items)).0
      (λ t. ap (λ (x : MemStore × Result Bool). x.0) (cas-steady t key old new m h)) n.0 n.1
effect-Steady now (expire_record key t) m p h = absurd p
