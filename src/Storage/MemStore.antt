-- ===== src/Storage/MemStore.antt =====
-- pkg/storage/memstore.go: the in-memory store. An operation takes the clock's reading, and returns the
-- new store and its result. Locks are not modelled: an operation runs alone.
pub mod View
pub mod Scan
use kv_store.Common.{
  ℕ, ◌+◌, ◌^◌, ◌%◌, ℤ, pos, suc_ℤ, ◌==ℤ◌, leb_ℤ, Bool, true, false, not, ◌&&◌, Option, none, some,
  [], ◌∷◌, Bytes, bytes_eq, if◌then◌else◌,
}
use kv_store.Common.Dict.{Dict, lookup, insert, erase}
use kv_store.Storage.Engine.{Result, ok, err, Error}
use kv_store.Storage.Strconv.{max_int64, parse_int, format_int}

pub record Entry : Type 0 where
  pub value : Bytes
  pub exp : ℤ

-- `items` is the field `data`, and `expired` a `uint64`.
pub record MemStore : Type 0 where
  pub items : Dict Entry
  pub expired : ℕ

abbrev pub new_mem_store : MemStore
new_mem_store = record { items = []; expired = 0 }

abbrev pub entry : Bytes → Entry
entry v = record { value = v; exp = pos 0 }

unfoldable pub entry_expired : Entry → ℤ → Bool
entry_expired e now = not (e.exp ==ℤ pos 0) && leb_ℤ e.exp now

abbrev u64 : ℕ → ℕ
u64 n = n % 2 ^ 64

abbrev pub drop_key : Bytes → MemStore → MemStore
drop_key key m = record { items = erase key m.items; expired = u64 (m.expired + 1) }

abbrev pub put_entry : Bytes → Entry → MemStore → MemStore
put_entry key e m = record m { items = insert key e m.items }

-- The lookup that starts Incr, CAS and Expire: an expired entry is dropped and counts as absent.
unfoldable pub lookup_live : ℤ → Bytes → MemStore → MemStore × Option Entry
unfolding entry_expired
lookup_live now key m = elim (lookup key m.items) [
  | none ↦ (m, none)
  | some e ↦ if entry_expired e now then (drop_key key m, none) else (m, some e)
]

-- `again` is the clock's second reading, under the write lock.
unfoldable pub get : ℤ → ℤ → Bytes → MemStore → MemStore × Result Bytes
unfolding lookup_live
get now again key m = elim (lookup key m.items) [
  | none ↦ (m, err Error.not_found)
  | some e ↦
      if entry_expired e now
      then ((lookup_live again key m).0, err Error.not_found)
      else (m, ok e.value)
]

unfoldable pub put : Bytes → Bytes → MemStore → MemStore
put key value m = put_entry key (entry value) m

unfoldable pub delete : Bytes → MemStore → MemStore
delete key m = record m { items = erase key m.items }

unfoldable pub clear : MemStore → MemStore
clear m = record m { items = [] }

pub incr_entry : Bytes → MemStore → Option Entry → MemStore × Result ℤ
incr_entry key m none = (put_entry key (entry (b'1' ∷ [])) m, ok (pos 1))
incr_entry key m (some e) = elim (parse_int e.value) [
  | none ↦ (m, err Error.not_numeric)
  | some v ↦
      if v ==ℤ pos max_int64
      then (m, err Error.overflow)
      else (put_entry key (entry (format_int (suc_ℤ v))) m, ok (suc_ℤ v))
]

unfoldable pub incr : ℤ → Bytes → MemStore → MemStore × Result ℤ
unfolding lookup_live incr_entry
incr now key m = let (m', found) = lookup_live now key m in incr_entry key m' found

pub cas_entry : Bytes → Bytes → Bytes → MemStore → Option Entry → MemStore × Result Bool
cas_entry key old new m none = (m, err Error.not_found)
cas_entry key old new m (some e) =
    if bytes_eq e.value old then (put_entry key (entry new) m, ok true) else (m, ok false)

unfoldable pub cas : ℤ → Bytes → Bytes → Bytes → MemStore → MemStore × Result Bool
unfolding lookup_live cas_entry
cas now key old new m = let (m', found) = lookup_live now key m in cas_entry key old new m' found

pub expire_entry : Bytes → ℤ → MemStore → Option Entry → MemStore × Result (Unit {0})
expire_entry key expires_at m none = (m, err Error.not_found)
expire_entry key expires_at m (some e) =
    (put_entry key (record { value = e.value; exp = expires_at }) m, ok tt)

unfoldable pub expire : ℤ → Bytes → ℤ → MemStore → MemStore × Result (Unit {0})
unfolding lookup_live expire_entry
expire now key expires_at m =
    let (m', found) = lookup_live now key m in expire_entry key expires_at m' found

-- The loop of `Size`, and that of `SweepExpired` with the number of entries it dropped.
count_live : ℤ → Dict Entry → ℕ
count_live now [] = 0
count_live now ((k, e) ∷ l) =
    let rest = count_live now l in if entry_expired e now then rest else rest + 1

unfoldable pub size : ℤ → MemStore → ℕ
unfolding count_live entry_expired
size now m = count_live now m.items

sweep_items : ℤ → Dict Entry → Dict Entry × ℕ
sweep_items now [] = ([], 0)
sweep_items now ((k, e) ∷ l) =
    let (rest, n) = sweep_items now l in
    if entry_expired e now then (rest, n + 1) else ((k, e) ∷ rest, n)

unfoldable pub sweep_expired : ℤ → MemStore → MemStore × ℕ
unfolding sweep_items entry_expired
sweep_expired now m =
    let (rest, n) = sweep_items now m.items in
    (record { items = rest; expired = u64 (m.expired + n) }, n)
