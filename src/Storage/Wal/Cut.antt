-- ===== src/Storage/Wal/Cut.antt =====
-- A log that ends inside a record (pkg/storage/wal.go).
use mathlib.Core.List.{append-nil}
use native.Mathlib.Decide.{dec_lt}
use kv_store.Common.{
  ℕ, zero, suc, ◌+◌, ◌-◌, ◌≤◌, ◌<◌, ◌≡◌, refl, ◌∙◌, ℤ, none, some, List, [], ◌++◌, Bytes, length,
  take, length-append, length-take, take-append_more, arith,
}
use kv_store.Storage.MemStore.{MemStore}
use kv_store.Storage.Wal.Numbers.{be32, of_be32-be32, be64}
use kv_store.Storage.Wal.{
  Record, put_record, delete_record, clear_record, incr_record, cas_record, expire_record, field,
  op_code, fields, append_record, read_string, apply_record, read_deadline, apply_put, apply_delete,
  apply_incr, apply_cas, apply_expire, corrupted, replay_loop, replay,
}
use kv_store.Storage.Wal.Records.{Fits, IsLoggable, read-field, length-field, length-be64}
use kv_store.Storage.Wal.Replay.{log_of, effects, AllLoggable, replay_loop-log, length-log}

-- A field that is cut short is refused.
read-cut :
    (s rest : Bytes) (j : ℕ)
    → Fits s
    → j < 4 + length s
    → read_string (take j (field s ++ rest)) j ≡ none
unfolding read_string be32
read-cut s rest zero fits short = refl
read-cut s rest (suc zero) fits short = refl
read-cut s rest (suc (suc zero)) fits short = refl
read-cut s rest (suc (suc (suc zero))) fits short = refl
read-cut s rest (suc (suc (suc (suc j)))) fits short =
    ground (arith, of_be32-be32 (length s) (omega arith))

-- A field that is whole is read, and what follows is still cut.
read-whole :
    (s rest : Bytes) (j : ℕ)
    → Fits s
    → 4 + length s ≤ j
    → read_string (take j (field s ++ rest)) j
      ≡ some (s, 4 + length s, take (j - (4 + length s)) rest)
read-whole s rest j fits room =
    rw (take-append_more j (field s) rest (omega (arith, length-field s)), length-field s)
      (read-field s (take (j - (4 + length s)) rest) j fits room)

deadline-cut : (t : ℤ) (j : ℕ) → j < 8 → read_deadline (take j (be64 t)) j ≡ none
unfolding read_deadline be64
deadline-cut t zero h = refl
deadline-cut t (suc zero) h = refl
deadline-cut t (suc (suc zero)) h = refl
deadline-cut t (suc (suc (suc zero))) h = refl
deadline-cut t (suc (suc (suc (suc zero)))) h = refl
deadline-cut t (suc (suc (suc (suc (suc zero))))) h = refl
deadline-cut t (suc (suc (suc (suc (suc (suc zero)))))) h = refl
deadline-cut t (suc (suc (suc (suc (suc (suc (suc zero))))))) h = refl
deadline-cut t (suc (suc (suc (suc (suc (suc (suc (suc j)))))))) h = absurd (omega arith)

one-cut :
    (s : Bytes) (j : ℕ) → Fits s → j < length (field s) → read_string (take j (field s)) j ≡ none
one-cut s j fits short =
    rw (append-nil (field s)) at (read-cut s [] j fits (omega (arith, length-field s)))

module _ (now : ℤ) (m : MemStore) where
  cut-put :
      (key value : Bytes) (j : ℕ)
      → IsLoggable (put_record key value)
      → j < length (field key ++ field value)
      → apply_put (take j (field key ++ field value)) j m ≡ none
  unfolding apply_put
  cut-put key value j fit short =
      let len = length-append (field key) (field value) in
      let lk = length-field key in
      elim (dec_lt j (4 + length key)) [
        | yes cut ↦ rw (read-cut key (field value) j fit.0 cut) refl
        | no whole ↦
            rw
              (
                read-whole key (field value) j fit.0 (omega arith),
                one-cut value (j - (4 + length key)) fit.1 (omega arith),
              )
              refl
      ]

  cut-delete :
      (key : Bytes) (j : ℕ)
      → Fits key
      → j < length (field key)
      → apply_delete (take j (field key)) j m ≡ none
  unfolding apply_delete
  cut-delete key j fit short = rw (one-cut key j fit short) refl

  cut-incr :
      (key : Bytes) (j : ℕ)
      → Fits key
      → j < length (field key)
      → apply_incr now (take j (field key)) j m ≡ none
  unfolding apply_incr
  cut-incr key j fit short = rw (one-cut key j fit short) refl

  cut-cas :
      (key old new : Bytes) (j : ℕ)
      → IsLoggable (cas_record key old new)
      → j < length (field key ++ (field old ++ field new))
      → apply_cas now (take j (field key ++ (field old ++ field new))) j m ≡ none
  unfolding apply_cas
  cut-cas key old new j fit short =
      let len = length-append (field key) (field old ++ field new) in
      let len' = length-append (field old) (field new) in
      let lk = length-field key in
      let lo = length-field old in
      elim (dec_lt j (4 + length key)) [
        | yes cut ↦ rw (read-cut key (field old ++ field new) j fit.0 cut) refl
        | no whole ↦ elim (dec_lt (j - (4 + length key)) (4 + length old)) [
          | yes cut ↦
              rw
                (
                  read-whole key (field old ++ field new) j fit.0 (omega arith),
                  read-cut old (field new) (j - (4 + length key)) fit.1 cut,
                )
                refl
          | no both ↦
              rw
                (
                  read-whole key (field old ++ field new) j fit.0 (omega arith),
                  read-whole old (field new) (j - (4 + length key)) fit.1 (omega arith),
                  one-cut new (j - (4 + length key) - (4 + length old)) fit.2 (omega arith),
                )
                refl
        ]
      ]

  cut-expire :
      (key : Bytes) (t : ℤ) (j : ℕ)
      → IsLoggable (expire_record key t)
      → j < length (field key ++ be64 t)
      → apply_expire now (take j (field key ++ be64 t)) j m ≡ none
  unfolding apply_expire
  cut-expire key t j fit short =
      let len = length-append (field key) (be64 t) in
      let lk = length-field key in
      let lt = length-be64 t in
      elim (dec_lt j (4 + length key)) [
        | yes cut ↦ rw (read-cut key (be64 t) j fit.0 cut) refl
        | no whole ↦
            rw
              (
                read-whole key (be64 t) j fit.0 (omega arith),
                deadline-cut t (j - (4 + length key)) (omega arith),
              )
              refl
      ]

  apply_record-cut :
      (r : Record) (j : ℕ)
      → IsLoggable r
      → j < length (fields r)
      → apply_record now (op_code r) (take j (fields r)) j m ≡ none
  unfolding apply_record op_code fields
  apply_record-cut (put_record key value) j fit short = cut-put key value j fit short
  apply_record-cut (delete_record key) j fit short = cut-delete key j fit short
  apply_record-cut clear_record j fit short = absurd (omega arith)
  apply_record-cut (incr_record key) j fit short = cut-incr key j fit short
  apply_record-cut (cas_record key old new) j fit short = cut-cas key old new j fit short
  apply_record-cut (expire_record key t) j fit short = cut-expire key t j fit short

  cut_tail :
      (r : Record) (j fuel : ℕ)
      → IsLoggable r
      → j < length (fields r)
      → replay_loop
          (suc fuel)
          now
          (take (suc j) (append_record r))
          (length (take (suc j) (append_record r)))
          m
        ≡ corrupted
  unfolding replay_loop append_record
  cut_tail r j fuel fit short =
      let len : length (take j (fields r)) ≡ j = omega (arith, length-take j (fields r)) in
      let left : suc j - 1 ≡ j = omega arith in
      rw (len, left, apply_record-cut r j fit short) (ground arith)

cut-length :
    (r : Record) (j : ℕ) → j < length (fields r) → length (take (suc j) (append_record r)) ≡ suc j
unfolding append_record
cut-length r j short = omega (arith, length-take j (fields r))

-- A log whose last record is cut short, at any byte behind its op code, is refused as a whole: replay
-- does not stop in front of the partial record.
pub replay-cut :
    (now : ℤ) (rs : List Record) (r : Record) (j : ℕ) (m : MemStore)
    → AllLoggable rs
    → IsLoggable r
    → j < length (fields r)
    → replay now (log_of rs ++ take (suc j) (append_record r)) m ≡ corrupted
unfolding replay
replay-cut now rs r j m fits fit short =
    let tail : Bytes = take (suc j) (append_record r) in
    let len : length tail ≡ suc j = cut-length r j short in
    let total = length-append (log_of rs) tail in
    let least = length-log rs in
    let left : length (log_of rs ++ tail) - length rs
        ≡ suc (length (log_of rs ++ tail) - length rs - 1) =
      omega arith in
    replay_loop-log (length (log_of rs ++ tail)) now rs tail m fits (omega arith)
    ∙ rw left
        (cut_tail now (effects now rs m) r j (length (log_of rs ++ tail) - length rs - 1) fit short)
