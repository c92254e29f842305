-- ===== src/Storage/SnapshotFile.antt =====
-- pkg/storage/snapshot.go: the snapshot file, plain or sealed, and its decoding. `encoding/json` is not code of the
-- repository: its two directions on the types of this file are a parameter. Errors of the file system are not modelled.
pub mod Load
use kv_store.Common.{
  ℕ, ℤ, pos, Bool, true, false, ◌||◌, Option, none, some, List, [], ◌∷◌, ◌++◌, Bytes, bytes_eq,
  length, take, drop, ltb_ℤ, if◌then◌else◌,
}
use kv_store.Common.Dict.{Dict, insert}
use kv_store.Storage.Crypto.{Aead, encrypt, decrypt, snapshot_magic}
use kv_store.Storage.MemStore.{MemStore, Entry, entry}

-- `snapshotFile`: the version, and the map, which may be nil.
pub record SnapshotFile : Type 0 where
  pub v : ℤ
  pub entries : Option (Dict Entry)

pub record Json : Type 0 where
  pub marshal : SnapshotFile → Bytes
  pub unmarshal_file : Bytes → Option SnapshotFile
  pub unmarshal_v1 : Bytes → Option (Dict Bytes)

abbrev pub snapshot_version : ℤ
snapshot_version = pos 2

-- The loops that fill the destination.
unfoldable pub fill : Dict Entry → Dict Entry → Dict Entry
fill [] dst = dst
fill ((k, e) ∷ l) dst = fill l (insert k e dst)

unfoldable pub fill_v1 : Dict Bytes → Dict Entry → Dict Entry
fill_v1 [] dst = dst
fill_v1 ((k, v) ∷ l) dst = fill_v1 l (insert k (entry v) dst)

abbrev pub entries_of : Option (Dict Entry) → Dict Entry
entries_of none = []
entries_of (some d) = d

abbrev pub is_envelope : SnapshotFile → Bool
is_envelope f = ltb_ℤ (pos 0) f.v || elim f.entries [ none ↦ false | some _ ↦ true ]

abbrev pub decode_v1 : Option (Dict Bytes) → Dict Entry → Option (Dict Entry)
decode_v1 none dst = none
decode_v1 (some v1) dst = some (fill_v1 v1 dst)

abbrev pub decode_parsed :
    Option SnapshotFile → Option (Dict Bytes) → Dict Entry → Option (Dict Entry)
decode_parsed none v1 dst = decode_v1 v1 dst
decode_parsed (some f) v1 dst =
    if is_envelope f then some (fill (entries_of f.entries) dst) else decode_v1 v1 dst

-- `decodeSnapshot`: the destination filled, or an error.
unfoldable pub decode_snapshot : Json → Bytes → Dict Entry → Option (Dict Entry)
decode_snapshot j blob dst = decode_parsed (j.unmarshal_file blob) (j.unmarshal_v1 blob) dst

abbrev pub sealed_file : Option Bytes → Option Bytes
sealed_file none = none
sealed_file (some sealed) = some (snapshot_magic ++ sealed)

-- `saveSnapshot`: what it writes to the file, or an error of the cipher.
unfoldable pub snapshot_bytes : Json → Option Aead → Option Bytes → MemStore → Option Bytes
unfolding encrypt
snapshot_bytes j none random m =
    some (j.marshal (record { v = snapshot_version; entries = some m.items }))
snapshot_bytes j (some c) random m =
    sealed_file
      (encrypt c random (j.marshal (record { v = snapshot_version; entries = some m.items })))

-- `SerializeSnapshot`.
unfoldable pub serialize_snapshot : Json → MemStore → Bytes
serialize_snapshot j m = j.marshal (record { v = snapshot_version; entries = some m.items })

abbrev pub is_encrypted : Bytes → Bool
is_encrypted file = bytes_eq (take 4 file) snapshot_magic

abbrev pub decoded_onto : MemStore → Option (Dict Entry) → Option MemStore
decoded_onto m none = none
decoded_onto m (some fresh) = some (record m { items = fresh })

abbrev pub unsealed_onto : Json → MemStore → Option Bytes → Option MemStore
unsealed_onto j m none = none
unsealed_onto j m (some blob) = decoded_onto m (decode_snapshot j blob [])

-- `loadSnapshot`: no file leaves the store; otherwise its map is replaced, or the file refused.
unfoldable pub load_snapshot : Json → Option Aead → Option Bytes → MemStore → Option MemStore
unfolding decrypt
load_snapshot j cipher none m = some m
load_snapshot j none (some file) m =
    if is_encrypted file then none else decoded_onto m (decode_snapshot j file [])
load_snapshot j (some c) (some file) m =
    if is_encrypted file then unsealed_onto j m (decrypt c (drop 4 file)) else none

abbrev pub saved_onto :
    Json
    → Option Aead
    → Option Bytes
    → MemStore
    → Option (Dict Entry)
    → Option (MemStore × Option Bytes)
saved_onto j cipher random m none = none
saved_onto j cipher random m (some fresh) =
    some (record m { items = fresh }, snapshot_bytes j cipher random (record m { items = fresh }))

-- `RestoreSnapshot`: the new store, and the content of the snapshot file; the log is emptied after that.
unfoldable pub restore_snapshot :
    Json → Option Aead → Option Bytes → Bytes → MemStore → Option (MemStore × Option Bytes)
restore_snapshot j cipher random blob m = saved_onto j cipher random m (decode_snapshot j blob [])
