-- ===== src/Storage/Wal/Records.antt =====
-- Reading back what was appended (pkg/storage/wal.go).
use mathlib.Core.List.{append_assoc}
use kv_store.Common.{
  ℕ, ◌+◌, ◌-◌, ◌≤◌, ◌≡◌, refl, ℤ, true, Option, some, ◌++◌, Bytes, length, length-append,
  take-append, drop-append, arith,
}
use kv_store.Storage.MemStore.{MemStore, put, delete, clear, incr, cas, expire}
use kv_store.Storage.Wal.Numbers.{be32, of_be32-be32, be64, of_be64-be64, IsInt64}
use kv_store.Storage.Wal.{
  Record, put_record, delete_record, clear_record, incr_record, cas_record, expire_record,
  max_record_field, field, op_code, fields, read_string, Applied, tolerate_incr, tolerate_cas,
  tolerate_expire, apply_record, read_deadline, apply_put, apply_delete, apply_incr, apply_cas,
  apply_expire,
}

-- The bounds that the reader puts on a field.
abbrev pub Fits : Bytes → Type 0
Fits s = length s ≤ max_record_field

abbrev pub IsLoggable : Record → Type 0
IsLoggable (put_record key value) = Fits key × Fits value
IsLoggable (delete_record key) = Fits key
IsLoggable clear_record = Unit
IsLoggable (incr_record key) = Fits key
IsLoggable (cas_record key old new) = Fits key × Fits old × Fits new
IsLoggable (expire_record key expires_at) = Fits key × IsInt64 expires_at

-- What a record does to the store, whatever its outcome.
unfoldable pub effect : ℤ → Record → MemStore → MemStore
effect now (put_record key value) m = put key value m
effect now (delete_record key) m = delete key m
effect now clear_record m = clear m
effect now (incr_record key) m = (incr now key m).0
effect now (cas_record key old new) m = (cas now key old new m).0
effect now (expire_record key expires_at) m = (expire now key expires_at m).0

pub read-field :
    (s rest : Bytes) (remaining : ℕ)
    → Fits s
    → 4 + length s ≤ remaining
    → read_string (field s ++ rest) remaining ≡ some (s, 4 + length s, rest)
unfolding read_string be32
read-field s rest remaining fits room = ground (
  arith,
  of_be32-be32 (length s) (omega arith),
  take-append s rest,
  drop-append s rest,
  length-append s rest,
)

pub length-field : (s : Bytes) → length (field s) ≡ 4 + length s
unfolding be32
length-field s = omega arith

-- Every error of the conditional operations is one that replay passes over.
tolerates-incr : (now : ℤ) (k : Bytes) (m : MemStore) → tolerate_incr (incr now k m).1 ≡ true
unfolding incr
tolerates-incr now k m = ground arith

tolerates-cas :
    (now : ℤ) (k old new : Bytes) (m : MemStore) → tolerate_cas (cas now k old new m).1 ≡ true
unfolding cas
tolerates-cas now k old new m = ground arith

tolerates-expire :
    (now : ℤ) (k : Bytes) (t : ℤ) (m : MemStore) → tolerate_expire (expire now k t m).1 ≡ true
unfolding expire
tolerates-expire now k t m = ground arith

pub read-deadline :
    (t : ℤ) (rest : Bytes) (remaining : ℕ)
    → IsInt64 t
    → 8 ≤ remaining
    → read_deadline (be64 t ++ rest) remaining ≡ some (t, rest)
unfolding read_deadline be64
read-deadline t rest remaining fits room = ground (arith, of_be64-be64 t fits)

pub length-be64 : (t : ℤ) → length (be64 t) ≡ 8
unfolding be64
length-be64 t = refl

module _ (now : ℤ) (rest : Bytes) (remaining : ℕ) (m : MemStore) where
  -- What the reader of a record's fields is to return.
  abbrev Reads : Option Applied → Record → Type 0
  Reads o r = o ≡ some (effect now r m, length (fields r), rest)

  apply_put-fields :
      (key value : Bytes)
      → IsLoggable (put_record key value)
      → length (field key ++ field value) ≤ remaining
      → Reads (apply_put ((field key ++ field value) ++ rest) remaining m) (put_record key value)
  unfolding apply_put effect fields
  apply_put-fields key value fit room =
      let len = length-append (field key) (field value) in
      let lk = length-field key in
      let lv = length-field value in
      rw
        (
          append_assoc (field key) (field value) rest,
          read-field key (field value ++ rest) remaining fit.0 (omega arith),
          read-field value rest (remaining - (4 + length key)) fit.1 (omega arith),
        )
        (ground arith)

  apply_delete-fields :
      (key : Bytes)
      → IsLoggable (delete_record key)
      → length (field key) ≤ remaining
      → Reads (apply_delete (field key ++ rest) remaining m) (delete_record key)
  unfolding apply_delete effect fields
  apply_delete-fields key fit room =
      let lk = length-field key in
      rw (read-field key rest remaining fit (omega arith)) (ground arith)

  apply_incr-fields :
      (key : Bytes)
      → IsLoggable (incr_record key)
      → length (field key) ≤ remaining
      → Reads (apply_incr now (field key ++ rest) remaining m) (incr_record key)
  unfolding apply_incr effect fields
  apply_incr-fields key fit room =
      let lk = length-field key in
      rw (read-field key rest remaining fit (omega arith), tolerates-incr now key m) (ground arith)

  apply_cas-fields :
      (key old new : Bytes)
      → IsLoggable (cas_record key old new)
      → length (field key ++ (field old ++ field new)) ≤ remaining
      → Reads
          (apply_cas now ((field key ++ (field old ++ field new)) ++ rest) remaining m)
          (cas_record key old new)
  unfolding apply_cas effect fields
  apply_cas-fields key old new fit room =
      let len = length-append (field key) (field old ++ field new) in
      let len' = length-append (field old) (field new) in
      let lk = length-field key in
      let lo = length-field old in
      let ln = length-field new in
      rw
        (
          append_assoc (field key) (field old ++ field new) rest,
          append_assoc (field old) (field new) rest,
          read-field key (field old ++ (field new ++ rest)) remaining fit.0 (omega arith),
          read-field old (field new ++ rest) (remaining - (4 + length key)) fit.1 (omega arith),
          read-field new rest (remaining - (4 + length key) - (4 + length old)) fit.2 (omega arith),
          tolerates-cas now key old new m,
        )
        (ground arith)

  apply_expire-fields :
      (key : Bytes) (t : ℤ)
      → IsLoggable (expire_record key t)
      → length (field key ++ be64 t) ≤ remaining
      → Reads (apply_expire now ((field key ++ be64 t) ++ rest) remaining m) (expire_record key t)
  unfolding apply_expire effect fields
  apply_expire-fields key t fit room =
      let len = length-append (field key) (be64 t) in
      let lk = length-field key in
      let lt = length-be64 t in
      rw
        (
          append_assoc (field key) (be64 t) rest,
          read-field key (be64 t ++ rest) remaining fit.0 (omega arith),
          read-deadline t rest (remaining - (4 + length key)) fit.1 (omega arith),
          tolerates-expire now key t m,
        )
        (ground arith)

  -- A record that was appended, with bounded fields, is read back: the store gets its effect, all its
  -- bytes are consumed, and the reader stands behind it.
  pub apply_record-append :
      (r : Record)
      → IsLoggable r
      → length (fields r) ≤ remaining
      → apply_record now (op_code r) (fields r ++ rest) remaining m
        ≡ some (effect now r m, length (fields r), rest)
  unfolding apply_record op_code
  apply_record-append (put_record key value) fit room =
      unfold fields in apply_put-fields key value fit room
  apply_record-append (delete_record key) fit room =
      unfold fields in apply_delete-fields key fit room
  apply_record-append clear_record fit room = unfold fields effect in refl
  apply_record-append (incr_record key) fit room = unfold fields in apply_incr-fields key fit room
  apply_record-append (cas_record key old new) fit room =
      unfold fields in apply_cas-fields key old new fit room
  apply_record-append (expire_record key t) fit room =
      unfold fields in apply_expire-fields key t fit room
