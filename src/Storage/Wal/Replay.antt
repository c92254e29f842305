-- ===== src/Storage/Wal/Replay.antt =====
-- Replay of a whole log (`Replay` and `replayPlain` of pkg/storage/wal.go).
use mathlib.Core.List.{append_assoc, append-nil}
use kv_store.Common.{
  ℕ, zero, suc, ◌-◌, ◌≤◌, ◌≡◌, ◌≢◌, refl, ℤ, List, [], ◌∷◌, ◌++◌, Bytes, length, length-append,
  Option-cases, inl, inr, arith, ◌∙◌,
}
use native.Mathlib.Decide.{dec_lt}
use kv_store.Storage.MemStore.{MemStore}
use kv_store.Storage.Wal.{
  Record, fields, append_record, apply_record, restored, out_of_fuel, replay_loop, replay,
}
use kv_store.Storage.Wal.Records.{IsLoggable, effect, apply_record-append}

-- The file after appending the records to an empty one, and their effects in order.
unfoldable pub log_of : List Record → Bytes
log_of [] = []
log_of (r ∷ rs) = append_record r ++ log_of rs

unfoldable pub effects : ℤ → List Record → MemStore → MemStore
effects now [] m = m
effects now (r ∷ rs) m = effects now rs (effect now r m)

abbrev pub AllLoggable : List Record → Type 0
AllLoggable [] = Unit
AllLoggable (r ∷ rs) = IsLoggable r × AllLoggable rs

replay_loop-record :
    (fuel : ℕ) (now : ℤ) (r : Record) (rest : Bytes) (m : MemStore)
    → IsLoggable r
    → replay_loop (suc fuel) now (append_record r ++ rest) (length (append_record r ++ rest)) m
      ≡ replay_loop fuel now rest (length rest) (effect now r m)
unfolding replay_loop append_record
replay_loop-record fuel now r rest m fit =
    let len = length-append (fields r) rest in
    let whole : suc (length (fields r ++ rest)) - 1 ≡ length (fields r ++ rest) = omega arith in
    let left : suc (length (fields r ++ rest)) - 1 - length (fields r) ≡ length rest =
      omega arith in
    ground (
      arith,
      apply_record-append now rest (suc (length (fields r ++ rest)) - 1) m r fit (omega arith),
    )

-- Replay works through the complete records in front of any bytes.
pub replay_loop-log :
    (fuel : ℕ) (now : ℤ) (rs : List Record) (tail : Bytes) (m : MemStore)
    → AllLoggable rs
    → length rs ≤ fuel
    → replay_loop fuel now (log_of rs ++ tail) (length (log_of rs ++ tail)) m
      ≡ replay_loop (fuel - length rs) now tail (length tail) (effects now rs m)
unfolding log_of effects
replay_loop-log fuel now [] tail m fit enough = let e : fuel - 0 ≡ fuel = omega arith in rw e
replay_loop-log zero now (r ∷ rs) tail m fit enough = absurd (omega arith)
replay_loop-log (suc fuel) now (r ∷ rs) tail m fit enough =
    let e : suc fuel - suc (length rs) ≡ fuel - length rs = omega arith in
    rw (append_assoc (append_record r) (log_of rs) tail, e)
      (replay_loop-record fuel now r (log_of rs ++ tail) m fit.0
        ∙ replay_loop-log fuel now rs tail (effect now r m) fit.1 (omega arith))

replay_loop-nil : (fuel : ℕ) (now : ℤ) (m : MemStore) → replay_loop fuel now [] 0 m ≡ restored m
unfolding replay_loop
replay_loop-nil zero now m = refl
replay_loop-nil (suc fuel) now m = refl

-- A replay has fuel enough, whatever the bytes.
replay_loop_ends :
    (fuel : ℕ) (now : ℤ) (r : Bytes) (remaining : ℕ) (m : MemStore)
    → remaining ≤ fuel
    → replay_loop fuel now r remaining m ≢ out_of_fuel
unfolding replay_loop
replay_loop_ends zero now r remaining m le = ground arith
replay_loop_ends (suc fuel) now [] remaining m le = ground arith
replay_loop_ends (suc fuel) now (op ∷ r) remaining m le =
    elim (Option-cases (apply_record now op r (remaining - 1) m)) [
      | inl bad ↦ rw bad (ground arith)
      | inr (x, good) ↦ rw good (elim (dec_lt 0 remaining) [
        | yes more ↦
            ground (arith, replay_loop_ends fuel now x.2 (remaining - 1 - x.1) x.0 (omega arith))
        | no less ↦ ground arith
      ])
    ]

pub length-log : (rs : List Record) → length rs ≤ length (log_of rs)
unfolding log_of append_record
length-log [] = omega arith
length-log (r ∷ rs) = omega (arith, length-log rs, length-append (fields r) (log_of rs))

-- Replaying what was appended, with bounded fields, gives the store that the records make one after the
-- other.
pub replay-log :
    (now : ℤ) (rs : List Record) (m : MemStore)
    → AllLoggable rs
    → replay now (log_of rs) m ≡ restored (effects now rs m)
unfolding replay
replay-log now rs m fit =
    (rw append-nil at (replay_loop-log (length (log_of rs)) now rs [] m fit (length-log rs)))
    ∙ replay_loop-nil (length (log_of rs) - length rs) now (effects now rs m)

-- Replay of any bytes ends with a restored store or with an error, never for want of fuel.
pub replay_ends : (now : ℤ) (file : Bytes) (m : MemStore) → replay now file m ≢ out_of_fuel
unfolding replay
replay_ends now file m = replay_loop_ends (length file) now file (length file) m (omega arith)
