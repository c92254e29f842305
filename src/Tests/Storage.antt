-- ===== src/Tests/Storage.antt =====
-- Runs of the storage layer (pkg/storage).
use kv_store.Common.{
  ◌+◌, ◌≡◌, true, false, some, none, pos, negsuc, List, [], ◌∷◌, ◌++◌, Bytes, bytes_eq, refl, arith,
  take, length,
}
use kv_store.Common.Dict.{Dict, UniqueKeys, lookup, insert}
use kv_store.Storage.MemStore.{
  MemStore, Entry, new_mem_store, entry, put, expire, cas, sweep_expired, size,
}
use kv_store.Storage.MemStore.View.{view, sweep-view}
use kv_store.Storage.Wal.{
  Record, put_record, delete_record, incr_record, cas_record, expire_record, append_record, replay,
  restored, corrupted, fields,
}
use kv_store.Storage.Wal.Numbers.{be32}
use kv_store.Storage.Wal.Replay.{log_of, effects, AllLoggable, replay-log}
use kv_store.Storage.Wal.Cut.{replay-cut}
use kv_store.Storage.Glob.{star, match_glob}
use kv_store.Storage.Glob.Sound.{Matches, match_glob_misses}
use kv_store.Storage.Wal.Clock.{swap_log, replay_loses_swap}
use kv_store.Storage.Engine.{Command, op_cas}
use kv_store.Storage.Machine.{apply_cmd}
use kv_store.Storage.Machine.Refinement.{spec, apply_cmd-spec}
use kv_store.Storage.SnapshotFile.{Json}
use kv_store.Tests.Files.{codec_of, IsThis, codec_of-IsJson}
use kv_store.Storage.DiskStore.{
  DiskStore, written, write_batch, append_all, Readings, write_single, compact, open_disk_store,
  apply_batch, apply_batched,
}
use kv_store.Storage.DiskStore.Recovery.{
  Run, empty_disk_store, here, next, batch, single, compaction, open_disk_store-Run,
}

abbrev k1 : Bytes
k1 = b'k' ∷ []

abbrev k2 : Bytes
k2 = b'k' ∷ b'2' ∷ []

-- Two keys, the first with the deadline 50.
abbrev store : MemStore
store = record {
  items = (k1, record { value = b'4' ∷ []; exp = pos 50 }) ∷ (k2, entry (b'x' ∷ [])) ∷ [];
  expired = 0;
}

sweep-view_example :
    (view (pos 70) (sweep_expired (pos 60) store).0 k2 ≡ view (pos 70) store k2)
    × (length (sweep_expired (pos 60) store).0.items ≡ size (pos 60) store)
    × ((sweep_expired (pos 60) store).1 + length (sweep_expired (pos 60) store).0.items ≡ 2)
unfolding lookup bytes_eq
sweep-view_example = sweep-view (pos 60) (pos 70) store k2 (refl, (refl, tt)) refl

abbrev script : List Record
script =
    put_record k1 (b'4' ∷ [])
    ∷ incr_record k1
    ∷ cas_record k1 (b'5' ∷ []) (b'9' ∷ [])
    ∷ expire_record k1 (negsuc 4)
    ∷ delete_record k2
    ∷ []

script_loggable : AllLoggable script
script_loggable = omega arith

replay-log_example :
    replay (pos 60) (log_of script) new_mem_store ≡ restored (effects (pos 60) script new_mem_store)
replay-log_example = replay-log (pos 60) script new_mem_store script_loggable

replay-cut_example :
    replay (pos 60) (log_of script ++ take 3 (append_record (incr_record k2))) new_mem_store
    ≡ corrupted
unfolding fields be32
replay-cut_example =
    replay-cut (pos 60) script (incr_record k2) 2 new_mem_store script_loggable (omega arith)
      (omega arith)

abbrev swap : Command
swap = record { op = op_cas; key = k2; old = b'x' ∷ []; value = b'y' ∷ []; expires_at = pos 0 }

apply_cmd-spec_example :
    ((j : Bytes)
      → view (pos 60) (apply_cmd (pos 60) swap store).0 j
        ≡ (spec (pos 60) swap (view (pos 60) store)).0 j)
    × ((apply_cmd (pos 60) swap store).1 ≡ (spec (pos 60) swap (view (pos 60) store)).1)
apply_cmd-spec_example = apply_cmd-spec (pos 60) swap store

abbrev swapped_log : List Record
swapped_log = swap_log k1 (b'4' ∷ []) (b'5' ∷ []) (pos 50)

replay_loses_swap_example :
    (view
        (pos 60)
        (cas
          (pos 40)
          k1
          (b'4' ∷ [])
          (b'5' ∷ [])
          (expire (pos 40) k1 (pos 50) (put k1 (b'4' ∷ []) new_mem_store)).0).0
        k1
      ≡ some (entry (b'5' ∷ [])))
    × ((m' : MemStore) × (replay (pos 60) (log_of swapped_log) new_mem_store ≡ restored m')
        × (view (pos 60) m' k1 ≡ none))
replay_loses_swap_example =
    replay_loses_swap (pos 40) (pos 60) (pos 50) k1 (b'4' ∷ []) (b'5' ∷ []) new_mem_store refl refl
      refl (omega arith)

abbrev two_puts : List Record
two_puts = put_record k1 (b'4' ∷ []) ∷ put_record k2 (b'x' ∷ []) ∷ []

batch_acknowledged : (write_batch [] true two_puts empty_disk_store).1 ≡ true
unfolding write_batch append_all
batch_acknowledged = refl

abbrev after_batch : DiskStore
after_batch = (write_batch [] true two_puts empty_disk_store).0

abbrev readings : Readings
readings = record { now = pos 60; again = pos 61; later = pos 62 }

-- JSON that knows the map of the batch.
abbrev batch_codec : Json
batch_codec = codec_of after_batch.mem.items

batch-UniqueKeys : UniqueKeys after_batch.mem.items
unfolding write_batch append_all apply_batch apply_batched put insert lookup bytes_eq
batch-UniqueKeys = (refl, (refl, tt))

abbrev after_incr : DiskStore
after_incr =
    (write_single written true readings (incr_record k1) (compact batch_codec after_batch)).0

-- A batch, a compaction, and an increment that is in the log alone.
abbrev IsBatchMap : Dict Entry → Type 0
IsBatchMap = IsThis after_batch.mem.items

after_incr-Run : Run batch_codec IsBatchMap empty_disk_store after_incr
after_incr-Run =
    next
      (next (next here (batch [] true two_puts (tt, (tt, tt)) (omega arith) batch_acknowledged))
        (compaction refl))
      (single readings (incr_record k1) tt (omega arith))

open_disk_store-Run_example :
    (m : MemStore) × (open_disk_store batch_codec (pos 70) after_incr.wal after_incr.snapshot
      ≡ some (record {
        mem = m;
        wal = after_incr.wal;
        snapshot = after_incr.snapshot;
        closed = false;
      }))
    × ((k : Bytes) → lookup k m.items ≡ lookup k after_incr.mem.items)
open_disk_store-Run_example =
    open_disk_store-Run batch_codec IsBatchMap after_incr (pos 70)
      (codec_of-IsJson after_batch.mem.items batch-UniqueKeys) after_incr-Run

abbrev pattern_k : Bytes
pattern_k = b'k' ∷ b'*' ∷ b'2' ∷ []

abbrev key_k : Bytes
key_k = b'k' ∷ b'2' ∷ b'1' ∷ b'2' ∷ []

match_glob_misses_example :
    (match_glob (star ∷ []) (star ∷ b'k' ∷ []) ≡ some false)
    × Matches (star ∷ []) (star ∷ b'k' ∷ [])
match_glob_misses_example = match_glob_misses b'k' []
