-- ===== src/Storage/Fake.antt =====
-- pkg/storage/fake.go: the engine of the tests, whose deadlines stand in a map of their own. An operation takes the
-- clock's reading and returns the new engine and its result. `matchGlob` is in Storage.Glob.
pub mod View
pub mod Agreement
use kv_store.Common.{
  ℕ, zero, suc, ℤ, pos, suc_ℤ, ◌==ℤ◌, leb_ℤ, Bool, true, false, Option, none, some, List, [], ◌∷◌,
  Bytes, bytes_eq, if◌then◌else◌, length, take, ◌==◌, not, ◌&&◌,
}
use kv_store.Common.Dict.{Dict, lookup, insert, erase}
use kv_store.Storage.Engine.{
  KeyValue, Result, ok, err, Error, Command, Op, op_put, op_delete, op_clear, op_incr, op_cas,
  op_expire, op_other,
}
use kv_store.Storage.Strconv.{max_int64, parse_int, format_int}
use kv_store.Storage.Glob.{match_glob}
use kv_store.Storage.MemStore.Scan.{held, is_past, pair, sort_keys, page_of}
use kv_store.Storage.Machine.{Reply, done, failed, reply_number, reply_swapped, reply_done}

-- `items` is the field `data`.
pub record FakeEngine : Type 0 where
  pub items : Dict Bytes
  pub expires : Dict ℤ
  pub cleared : Bool

abbrev pub new_fake_engine : FakeEngine
new_fake_engine = record { items = []; expires = []; cleared = false }

abbrev pub is_due : ℤ → Option ℤ → Bool
is_due now none = false
is_due now (some exp) = leb_ℤ exp now

unfoldable pub expired_locked : ℤ → Bytes → FakeEngine → Bool
expired_locked now key f = is_due now (lookup key f.expires)

unfoldable pub fake_delete : Bytes → FakeEngine → FakeEngine
fake_delete key f = record f { items = erase key f.items; expires = erase key f.expires }

-- The lines that start Incr, CAS and Expire.
unfoldable pub drop_due : ℤ → Bytes → FakeEngine → FakeEngine
unfolding expired_locked
drop_due now key f = if expired_locked now key f then fake_delete key f else f

abbrev pub value_or_missing : Option Bytes → Result Bytes
value_or_missing none = err Error.not_found
value_or_missing (some v) = ok v

unfoldable pub fake_get : ℤ → Bytes → FakeEngine → FakeEngine × Result Bytes
unfolding expired_locked
fake_get now key f =
    if expired_locked now key f
    then (fake_delete key f, err Error.not_found)
    else (f, value_or_missing (lookup key f.items))

unfoldable pub fake_put : Bytes → Bytes → FakeEngine → FakeEngine
fake_put key value f = record f { items = insert key value f.items; expires = erase key f.expires }

unfoldable pub fake_clear : FakeEngine → FakeEngine
fake_clear f = record { items = []; expires = []; cleared = true }

abbrev pub set_item : Bytes → Bytes → FakeEngine → FakeEngine
set_item key value f = record f { items = insert key value f.items }

-- The deadline stays.
pub fake_incr_value : Bytes → FakeEngine → Option Bytes → FakeEngine × Result ℤ
fake_incr_value key f none = (set_item key (b'1' ∷ []) f, ok (pos 1))
fake_incr_value key f (some cur) = elim (parse_int cur) [
  | none ↦ (f, err Error.not_numeric)
  | some v ↦
      if v ==ℤ pos max_int64
      then (f, err Error.overflow)
      else (set_item key (format_int (suc_ℤ v)) f, ok (suc_ℤ v))
]

unfoldable pub fake_incr : ℤ → Bytes → FakeEngine → FakeEngine × Result ℤ
unfolding drop_due fake_incr_value
fake_incr now key f = let f' = drop_due now key f in fake_incr_value key f' (lookup key f'.items)

pub fake_cas_value : Bytes → Bytes → Bytes → FakeEngine → Option Bytes → FakeEngine × Result Bool
fake_cas_value key old new f none = (f, err Error.not_found)
fake_cas_value key old new f (some cur) =
    if bytes_eq cur old then (fake_put key new f, ok true) else (f, ok false)

unfoldable pub fake_cas : ℤ → Bytes → Bytes → Bytes → FakeEngine → FakeEngine × Result Bool
unfolding drop_due fake_cas_value
fake_cas now key old new f =
    let f' = drop_due now key f in fake_cas_value key old new f' (lookup key f'.items)

pub fake_expire_value : Bytes → ℤ → FakeEngine → Option Bytes → FakeEngine × Result (Unit {0})
fake_expire_value key at f none = (f, err Error.not_found)
fake_expire_value key at f (some cur) = (record f { expires = insert key at f.expires }, ok tt)

unfoldable pub fake_expire : ℤ → Bytes → ℤ → FakeEngine → FakeEngine × Result (Unit {0})
unfolding drop_due fake_expire_value
fake_expire now key at f =
    let f' = drop_due now key f in fake_expire_value key at f' (lookup key f'.items)

-- The loop of Scan and the value that it reads after the sort.
unfoldable pub fake_collect : ℤ → Bytes → Bytes → Dict ℤ → Dict Bytes → List KeyValue
fake_collect now cursor pattern expires [] = []
fake_collect now cursor pattern expires ((k, v) ∷ l) =
    let rest = fake_collect now cursor pattern expires l in
    if not (is_due now (lookup k expires)) && is_past cursor k && held (match_glob pattern k)
    then pair k v ∷ rest
    else rest

-- Scan of a positive count; any other makes an index out of range, a panic of the program.
unfoldable pub fake_scan : ℤ → Bytes → ℕ → Bytes → FakeEngine → Option (List KeyValue × Bytes)
unfolding fake_collect
fake_scan now cursor zero pattern f = none
fake_scan now cursor (suc n) pattern f =
    some (page_of (suc n) (sort_keys (fake_collect now cursor pattern f.expires f.items)))

pub fake_op : Op → ℤ → Command → FakeEngine → FakeEngine × Reply
fake_op op_put now c f = (fake_put c.key c.value f, done)
fake_op op_delete now c f = (fake_delete c.key f, done)
fake_op op_clear now c f = (fake_clear f, done)
fake_op op_incr now c f = let (f', r) = fake_incr now c.key f in (f', reply_number r)
fake_op op_cas now c f = let (f', r) = fake_cas now c.key c.old c.value f in (f', reply_swapped r)
fake_op op_expire now c f = let (f', r) = fake_expire now c.key c.expires_at f in (f', reply_done r)
fake_op (op_other _) now c f = (f, failed Error.other)

-- `applyCmd` (pkg/raft/leader.go) over the fake.
unfoldable pub fake_apply : ℤ → Command → FakeEngine → FakeEngine × Reply
unfolding fake_op
fake_apply now c f = fake_op c.op now c f
