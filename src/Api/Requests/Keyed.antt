-- ===== src/Api/Requests/Keyed.antt =====
-- What the operations of a store in memory (pkg/storage/memstore.go) keep, as a request calls them: a map without a
-- key twice, and no empty key.
use mathlib.Core.Path.{subst}
use kv_store.Storage.Strconv.{parse_int, format_int, max_int64}
use kv_store.Common.{
  sym, ◌+◌, ◌%◌, ◌^◌, suc_ℤ, ◌==ℤ◌, ℕ, ◌≡◌, ◌∙◌, ℤ, pos, Option, none, some, [], ◌∷◌, Bytes,
  bytes_eq, arith, Bool-cases, Option-cases, inl, inr,
}
use kv_store.Common.Dict.{
  lookup, insert, erase, UniqueKeys, UniqueKeys-insert, UniqueKeys-erase, lookup-insert,
  lookup-erase,
}
use kv_store.Storage.MemStore.{
  MemStore, Entry, entry, put_entry, incr_entry, cas_entry, expire_entry, entry_expired,
  lookup_live, get, put, incr, cas, expire,
}

pub record IsKeyed (m : MemStore) : Type 0 where
  pub unique : UniqueKeys m.items
  pub no_empty : lookup [] m.items ≡ none

insert-IsKeyed :
    (c : ℕ) (key : Bytes) (e : Entry) (m : MemStore) (n : ℕ)
    → IsKeyed m
    → IsKeyed (record { items = insert (c ∷ key) e m.items; expired = n })
insert-IsKeyed c key e m n k = record {
  unique = UniqueKeys-insert (c ∷ key) e m.items k.unique;
  no_empty = lookup-insert (c ∷ key) [] e m.items ∙ unfold bytes_eq in k.no_empty;
}

pub erase-IsKeyed :
    (key : Bytes) (m : MemStore) (n : ℕ)
    → IsKeyed m
    → IsKeyed (record { items = erase key m.items; expired = n })
erase-IsKeyed key m n k = record {
  unique = UniqueKeys-erase key m.items k.unique;
  no_empty = ground (arith, lookup-erase key [] m.items, k.no_empty);
}

live-IsKeyed :
    (now : ℤ) (key : Bytes) (m : MemStore) → IsKeyed m → IsKeyed (lookup_live now key m).0
live-IsKeyed now key m k = elim (Option-cases (lookup key m.items)) [
  | inl e ↦
      let q : (lookup_live now key m).0 ≡ m = unfold lookup_live in ground arith in
      subst IsKeyed (sym q) k
  | inr (x, e) ↦ elim (Bool-cases (entry_expired x now)) [
    | inl dead ↦
        let n = (m.expired + 1) % 2 ^ 64 in
        let gone : MemStore = record { items = erase key m.items; expired = n } in
        let q : (lookup_live now key m).0 ≡ gone = unfold lookup_live in ground arith in
        subst IsKeyed (sym q) (erase-IsKeyed key m n k)
    | inr alive ↦
        let q : (lookup_live now key m).0 ≡ m = unfold lookup_live in ground arith in
        subst IsKeyed (sym q) k
  ]
]

pub get-IsKeyed : (now : ℤ) (key : Bytes) (m : MemStore) → IsKeyed m → IsKeyed (get now now key m).0
get-IsKeyed now key m k = elim (Option-cases (lookup key m.items)) [
  | inl e ↦
      let q : (get now now key m).0 ≡ m = unfold get in ground arith in subst IsKeyed (sym q) k
  | inr (x, e) ↦ elim (Bool-cases (entry_expired x now)) [
    | inl dead ↦
        let q : (get now now key m).0 ≡ (lookup_live now key m).0 = unfold get in ground arith in
        subst IsKeyed (sym q) (live-IsKeyed now key m k)
    | inr alive ↦
        let q : (get now now key m).0 ≡ m = unfold get in ground arith in subst IsKeyed (sym q) k
  ]
]

module _ (now : ℤ) (c : ℕ) (key : Bytes) where
  pub put-IsKeyed : (v : Bytes) (m : MemStore) → IsKeyed m → IsKeyed (put (c ∷ key) v m)
  unfolding put
  put-IsKeyed v m k = insert-IsKeyed c key (entry v) m m.expired k

  incr_entry-IsKeyed :
      (m : MemStore) (o : Option Entry) → IsKeyed m → IsKeyed (incr_entry (c ∷ key) m o).0
  unfolding incr
  incr_entry-IsKeyed m none k = insert-IsKeyed c key (entry (b'1' ∷ [])) m m.expired k
  incr_entry-IsKeyed m (some e) k = elim (Option-cases (parse_int e.value)) [
    | inl bad ↦
        let q : (incr_entry (c ∷ key) m (some e)).0 ≡ m = ground arith in subst IsKeyed (sym q) k
    | inr (v, good) ↦ elim (Bool-cases (v ==ℤ pos max_int64)) [
      | inl top ↦
          let q : (incr_entry (c ∷ key) m (some e)).0 ≡ m = ground arith in subst IsKeyed (sym q) k
      | inr below ↦
          let d = entry (format_int (suc_ℤ v)) in
          let q : (incr_entry (c ∷ key) m (some e)).0 ≡ put_entry (c ∷ key) d m = ground arith in
          subst IsKeyed (sym q) (insert-IsKeyed c key d m m.expired k)
    ]
  ]

  pub incr-IsKeyed : (m : MemStore) → IsKeyed m → IsKeyed (incr now (c ∷ key) m).0
  incr-IsKeyed m k =
      unfold incr in
      incr_entry-IsKeyed (lookup_live now (c ∷ key) m).0 (lookup_live now (c ∷ key) m).1
        (live-IsKeyed now (c ∷ key) m k)

  cas_entry-IsKeyed :
      (old new : Bytes) (m : MemStore) (o : Option Entry)
      → IsKeyed m
      → IsKeyed (cas_entry (c ∷ key) old new m o).0
  unfolding cas
  cas_entry-IsKeyed old new m none k = k
  cas_entry-IsKeyed old new m (some e) k = elim (Bool-cases (bytes_eq e.value old)) [
    | inl same ↦ rw same (insert-IsKeyed c key (entry new) m m.expired k)
    | inr differ ↦ rw differ k
  ]

  pub cas-IsKeyed :
      (old new : Bytes) (m : MemStore) → IsKeyed m → IsKeyed (cas now (c ∷ key) old new m).0
  cas-IsKeyed old new m k =
      unfold cas in
      cas_entry-IsKeyed old new (lookup_live now (c ∷ key) m).0 (lookup_live now (c ∷ key) m).1
        (live-IsKeyed now (c ∷ key) m k)

  expire_entry-IsKeyed :
      (t : ℤ) (m : MemStore) (o : Option Entry)
      → IsKeyed m
      → IsKeyed (expire_entry (c ∷ key) t m o).0
  unfolding expire
  expire_entry-IsKeyed t m none k = k
  expire_entry-IsKeyed t m (some e) k =
      insert-IsKeyed c key (record { value = e.value; exp = t }) m m.expired k

  pub expire-IsKeyed : (t : ℤ) (m : MemStore) → IsKeyed m → IsKeyed (expire now (c ∷ key) t m).0
  expire-IsKeyed t m k =
      unfold expire in
      expire_entry-IsKeyed t (lookup_live now (c ∷ key) m).0 (lookup_live now (c ∷ key) m).1
        (live-IsKeyed now (c ∷ key) m k)
