-- ===== src/Storage/DiskStore/Crash.antt =====
-- A crash inside a compaction (pkg/storage/snapshot.go): the snapshot is saved and the log not yet emptied, so that a
-- restart replays the log on what it made already.
use kv_store.Common.{◌≡◌, ◌⊎◌, ℤ, Option, none, some, List, [], ◌∷◌, Bytes, false}
use kv_store.Common.Dict.{Dict, lookup}
use kv_store.Storage.MemStore.{Entry, MemStore, new_mem_store}
use kv_store.Storage.Wal.{Record, put_record, delete_record, clear_record}
use kv_store.Storage.Wal.Replay.{log_of, effects, AllLoggable}
use kv_store.Storage.SnapshotFile.{Json, load_snapshot}
use kv_store.Storage.DiskStore.{DiskStore, save_snapshot, open_disk_store}
use kv_store.Storage.DiskStore.Alike.{Alike}

-- The records whose effect does not depend on the store.
abbrev pub IsPlain : Record → Type 0
IsPlain (put_record key value) = Unit
IsPlain (delete_record key) = Unit
IsPlain clear_record = Unit
IsPlain _ = ⊥

abbrev pub AllPlain : List Record → Type 0
AllPlain [] = Unit
AllPlain (r ∷ rs) = IsPlain r × AllPlain rs

-- Records set a key, whatever the store, or leave it.
Sets : ℤ → List Record → Bytes → Type 0
Sets now rs j =
    ((o : Option Entry) × ((m : MemStore) → lookup j (effects now rs m).items ≡ o))
    ⊎ ((m : MemStore) → lookup j (effects now rs m).items ≡ lookup j m.items)

-- A store whose snapshot is loaded to a map, whose log has bounded records, and whose memory agrees on every key with
-- what they make of that map.
pub record IsLogged (j : Json) (now : ℤ) (rs : List Record) (base : MemStore) (s : DiskStore)
    : Type 0 where
  pub loaded : load_snapshot j none s.snapshot new_mem_store ≡ some base
  pub loggable : AllLoggable rs
  pub logged : s.wal ≡ log_of rs
  pub memory : Alike s.mem (effects now rs base)

-- The store that starts again on the files that a crash between the two halves of a compaction leaves.
abbrev pub after_crash : Json → ℤ → DiskStore → Option DiskStore
after_crash j again s = open_disk_store j again s.wal (save_snapshot j s).snapshot

-- The memory of the new store, and the fields that the files give.
abbrev pub restarted : Json → DiskStore → MemStore → DiskStore
restarted j s m = record {
  mem = m;
  wal = s.wal;
  snapshot = (save_snapshot j s).snapshot;
  closed = false;
}
