-- ===== src/Storage/DiskStore.antt =====
-- pkg/storage/batcher.go and `DiskStore` of pkg/storage/wal.go, in plain mode: the write of a batch with one
-- sync, the write of a single state-dependent request, and the start from a snapshot and the log. The
-- channel and the timer of `batchLoop` decide only where a sequence of requests is cut into batches.
pub mod Steady
pub mod Alike
pub mod Acknowledged
pub mod Recovery
pub mod Crash
use kv_store.Common.{
  ℕ, ◌+◌, ℤ, Bool, true, false, Option, none, some, List, [], ◌∷◌, ◌++◌, Bytes, bytes_eq, take,
  length, ltb, ◌*◌, if◌then◌else◌,
}
use kv_store.Storage.Engine.{Result, ok, err, Error}
use kv_store.Storage.MemStore.{MemStore, new_mem_store, get, put, delete, clear, incr, expire}
use kv_store.Storage.SnapshotFile.{Json, snapshot_bytes, load_snapshot}
use kv_store.Storage.Machine.{Reply, done, number, swapped, failed, reply_number, reply_done}
use kv_store.Storage.Wal.{
  Record, put_record, delete_record, clear_record, incr_record, cas_record, expire_record,
  append_record, Replayed, restored, replay,
}

-- `wal` is the content of the log file and `snapshot` that of the snapshot file, if there is one.
pub record DiskStore : Type 0 where
  pub mem : MemStore
  pub wal : Bytes
  pub snapshot : Option Bytes
  pub closed : Bool

-- How one `Write` of a record ends: whole, or with an error after some of its bytes.
pub data AppendOutcome : Type 0 where
  written : AppendOutcome
  torn : (bytes : ℕ) → AppendOutcome

-- The writes of a batch up to the first error, and whether there was none. Where the outcomes end, the
-- writes succeed.
unfoldable pub append_all : Bytes → List Record → List AppendOutcome → Bytes × Bool
append_all wal [] outs = (wal, true)
append_all wal (r ∷ rs) [] = append_all (wal ++ append_record r) rs []
append_all wal (r ∷ rs) (written ∷ outs) = append_all (wal ++ append_record r) rs outs
append_all wal (r ∷ rs) (torn n ∷ outs) = (wal ++ take n (append_record r), false)

-- The part of a batch that changes memory; only Put, Delete and Clear are batched.
unfoldable pub apply_batched : Record → MemStore → MemStore
apply_batched (put_record key value) m = put key value m
apply_batched (delete_record key) m = delete key m
apply_batched clear_record m = clear m
apply_batched (incr_record key) m = m
apply_batched (cas_record key old new) m = m
apply_batched (expire_record key expires_at) m = m

unfoldable pub apply_batch : List Record → MemStore → MemStore
apply_batch [] m = m
apply_batch (r ∷ rs) m = apply_batch rs (apply_batched r m)

-- `writeBatch`: the new store, and whether the requests get a nil error.
unfoldable pub write_batch : List AppendOutcome → Bool → List Record → DiskStore → DiskStore × Bool
write_batch outs synced [] s = (s, true)
write_batch outs synced (r ∷ rs) s =
    let (wal, whole) = append_all s.wal (r ∷ rs) outs in
    if whole
    then (if synced
        then (record s { wal = wal; mem = apply_batch (r ∷ rs) s.mem }, true)
        else (record s { wal = wal }, false))
    else (record s { wal = wal }, false)

-- The append and the sync of a single request.
abbrev log_one : AppendOutcome → Bool → Record → DiskStore → DiskStore × Bool
log_one written synced r s = (record s { wal = s.wal ++ append_record r }, synced)
log_one (torn n) synced r s = (record s { wal = s.wal ++ take n (append_record r) }, false)

write_incr : AppendOutcome → Bool → ℤ → Bytes → DiskStore → DiskStore × Reply
write_incr out synced now key s =
    let (s', logged) = log_one out synced (incr_record key) s in
    if logged
    then (let (m, res) = incr now key s'.mem in (record s' { mem = m }, reply_number res))
    else (s', failed Error.other)

-- The compare of CAS is on the value that `Get` returns.
pub cas_compared :
    AppendOutcome → Bool → Bytes → Bytes → Bytes → DiskStore → Result Bytes → DiskStore × Reply
cas_compared out synced key old new s (err e) = (s, failed e)
cas_compared out synced key old new s (ok cur) =
    if bytes_eq cur old
    then (let (s', logged) = log_one out synced (cas_record key old new) s in
        if logged
        then (record s' { mem = put key new s'.mem }, swapped true)
        else (s', failed Error.other))
    else (s, swapped false)

write_cas : AppendOutcome → Bool → ℤ → ℤ → Bytes → Bytes → Bytes → DiskStore → DiskStore × Reply
unfolding cas_compared
write_cas out synced now again key old new s =
    let (m, res) = get now again key s.mem in
    cas_compared out synced key old new (record s { mem = m }) res

expire_found : AppendOutcome → Bool → ℤ → Bytes → ℤ → DiskStore → Result Bytes → DiskStore × Reply
expire_found out synced later key expires_at s (err e) = (s, failed e)
expire_found out synced later key expires_at s (ok _) =
    let (s', logged) = log_one out synced (expire_record key expires_at) s in
    if logged
    then (let (m, res) = expire later key expires_at s'.mem in
        (record s' { mem = m }, reply_done res))
    else (s', failed Error.other)

write_expire : AppendOutcome → Bool → ℤ → ℤ → ℤ → Bytes → ℤ → DiskStore → DiskStore × Reply
unfolding expire_found
write_expire out synced now again later key expires_at s =
    let (m, res) = get now again key s.mem in
    expire_found out synced later key expires_at (record s { mem = m }) res

-- The readings of the clock that a single request may take.
pub record Readings : Type 0 where
  pub now : ℤ
  pub again : ℤ
  pub later : ℤ

-- `writeSingle`: the request's result and error as a reply.
unfoldable pub write_single :
    AppendOutcome → Bool → Readings → Record → DiskStore → DiskStore × Reply
unfolding write_incr write_cas write_expire
write_single out synced t (incr_record key) s = write_incr out synced t.now key s
write_single out synced t (cas_record key old new) s =
    write_cas out synced t.now t.again key old new s
write_single out synced t (expire_record key expires_at) s =
    write_expire out synced t.now t.again t.later key expires_at s
write_single out synced t (put_record key value) s = (s, failed Error.other)
write_single out synced t (delete_record key) s = (s, failed Error.other)
write_single out synced t clear_record s = (s, failed Error.other)

abbrev pub opened : Bytes → Option Bytes → Replayed → Option DiskStore
opened wal snapshot (restored m) =
    some (record { mem = m; wal = wal; snapshot = snapshot; closed = false })
opened wal snapshot _ = none

abbrev pub replayed_onto : ℤ → Bytes → Option Bytes → Option MemStore → Option DiskStore
replayed_onto now wal snapshot none = none
replayed_onto now wal snapshot (some m) = opened wal snapshot (replay now wal m)

abbrev pub snapshot_threshold : ℕ
snapshot_threshold = 1024 * 1024

abbrev pub truncate : DiskStore → DiskStore
truncate s = record s { wal = [] }

-- JSON is a parameter, as in SnapshotFile.
module _ (j : Json) where
  -- `openDiskStore` over the two files: the snapshot is loaded and the log replayed onto it; `none` where either is
  -- refused.
  unfoldable pub open_disk_store : ℤ → Bytes → Option Bytes → Option DiskStore
  open_disk_store now wal snapshot =
      replayed_onto now wal snapshot (load_snapshot j none snapshot new_mem_store)

  -- `saveSnapshot` and `Truncate` where the file operations succeed: the file gets the JSON of the map, and the log is
  -- emptied.
  abbrev pub save_snapshot : DiskStore → DiskStore
  save_snapshot s = record s { snapshot = snapshot_bytes j none none s.mem }

  -- `compactLocked`, whole.
  unfoldable pub compact : DiskStore → DiskStore
  compact s = truncate (save_snapshot s)

  -- `compactIfNeeded`.
  unfoldable pub compact_if_needed : DiskStore → DiskStore
  unfolding compact
  compact_if_needed s = if ltb (length s.wal) snapshot_threshold then s else compact s
