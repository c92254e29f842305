-- ===== src/Tests/Files.antt =====
-- Runs over the files of a store (pkg/storage): sealed logs, snapshots and crashes.
use kv_store.Common.{
  ℕ, zero, suc, ◌-◌, ◌≡◌, pos, none, some, List, [], ◌∷◌, ◌++◌, Bytes, bytes_eq, refl, sym, ap, ◌∙◌,
  arith, take, length, length-append, take-append, false,
}
use kv_store.Common.Dict.{Dict, lookup, UniqueKeys}
use kv_store.Storage.MemStore.{MemStore, Entry, new_mem_store, entry, put, incr}
use kv_store.Storage.Crypto.{Aead, IsGcm, wal_encrypted_magic}
use kv_store.Storage.Wal.{
  Record, put_record, incr_record, append_record, fields, restored, corrupted,
}
use kv_store.Storage.Wal.Numbers.{be32}
use kv_store.Storage.Wal.Replay.{log_of, effects}
use kv_store.Storage.Wal.Encrypted.{append_sealed, replay_encrypted}
use kv_store.Storage.Wal.Encrypted.Sealed.{frame, sealed_log, records, replay_encrypted-log}
use kv_store.Storage.Wal.Encrypted.Cut.{replay_encrypted-too_long}
use kv_store.Storage.SnapshotFile.{Json, snapshot_version, snapshot_bytes, load_snapshot}
use kv_store.Storage.SnapshotFile.Load.{IsJson, load_snapshot-snapshot_bytes}
use kv_store.Storage.DiskStore.{DiskStore}

abbrev k1 : Bytes
k1 = b'k' ∷ []

zeros : ℕ → Bytes
zeros zero = []
zeros (suc n) = 0 ∷ zeros n

length-zeros : (n : ℕ) → length (zeros n) ≡ n
unfolding zeros
length-zeros zero = refl
length-zeros (suc n) = omega (arith, length-zeros n)

-- A cipher that keeps the text, with a tag of sixteen bytes.
abbrev plain_cipher : Aead
plain_cipher = record {
  seal = λ nonce text. text ++ zeros 16;
  unseal = λ nonce sealed. some (take (length sealed - 16) sealed);
}

plain_cipher-IsGcm : IsGcm plain_cipher
plain_cipher-IsGcm = record {
  opens = λ nonce text.
      let e : length (text ++ zeros 16) - 16 ≡ length text =
        omega (arith, length-append text (zeros 16), length-zeros 16) in
      ap some (ap (λ (n : ℕ). take n (text ++ zeros 16)) e ∙ take-append text (zeros 16));
  longer = λ nonce text. omega (arith, length-append text (zeros 16), length-zeros 16);
}

abbrev nonce_of : Bytes
nonce_of = 1 ∷ 2 ∷ 3 ∷ 4 ∷ 5 ∷ 6 ∷ 7 ∷ 8 ∷ 9 ∷ 10 ∷ 11 ∷ 12 ∷ []

abbrev sealed_records : List (Bytes × Record)
sealed_records = (nonce_of, put_record k1 (b'4' ∷ [])) ∷ []

replay_encrypted-log_example :
    replay_encrypted plain_cipher
      (pos 60)
      (wal_encrypted_magic ∷ sealed_log plain_cipher sealed_records)
      new_mem_store
    ≡ restored (effects (pos 60) (records sealed_records) new_mem_store)
unfolding append_record fields be32
replay_encrypted-log_example =
    replay_encrypted-log plain_cipher (pos 60) sealed_records new_mem_store plain_cipher-IsGcm
      ((omega arith, refl, omega arith), tt)

abbrev long_record : Record
long_record = incr_record (zeros 2097216)

length-long : length (append_record long_record) ≡ 2097221
unfolding append_record fields be32
length-long = omega (arith, length-zeros 2097216)

replay_encrypted-too_long_example :
    (append_sealed plain_cipher (some nonce_of) long_record
      ≡ some (frame plain_cipher nonce_of long_record))
    × (replay_encrypted plain_cipher
          (pos 60)
          (wal_encrypted_magic ∷ (frame plain_cipher nonce_of long_record ++ []))
          new_mem_store
        ≡ corrupted)
replay_encrypted-too_long_example =
    replay_encrypted-too_long plain_cipher (pos 60) nonce_of long_record [] new_mem_store
      plain_cipher-IsGcm refl (omega (arith, length-long)) (omega (arith, length-long))

-- A codec that knows one map.
abbrev known : Dict Entry
known = (k1, entry (b'4' ∷ [])) ∷ []

abbrev pub codec_of : Dict Entry → Json
codec_of d = record {
  marshal = λ f. b'{' ∷ b'}' ∷ [];
  unmarshal_file = λ b. some (record { v = snapshot_version; entries = some d });
  unmarshal_v1 = λ b. none;
}

abbrev pub IsThis : Dict Entry → Dict Entry → Type 0
IsThis d e = e ≡ d

pub codec_of-IsJson : (d : Dict Entry) → UniqueKeys d → IsJson (codec_of d) (IsThis d)
unfolding bytes_eq
codec_of-IsJson d u = record {
  again = λ e same. (d, refl, u, (λ k. ap (lookup k) (sym same)));
  unmarked = λ e. refl;
}

known-UniqueKeys : UniqueKeys known
unfolding lookup
known-UniqueKeys = (refl, tt)

abbrev known_store : MemStore
known_store = record { items = known; expired = 0 }

load_snapshot-snapshot_bytes_example :
    (file : Bytes) × (snapshot_bytes
        (codec_of known)
        (some plain_cipher)
        (some nonce_of)
        known_store
      ≡ some file)
    × (m' : MemStore) × (load_snapshot
          (codec_of known)
          (some plain_cipher)
          (some file)
          new_mem_store
        ≡ some m')
    × ((k : Bytes) → lookup k m'.items ≡ lookup k known)
load_snapshot-snapshot_bytes_example =
    load_snapshot-snapshot_bytes (codec_of known) (IsThis known) (some plain_cipher) nonce_of
      known_store new_mem_store (codec_of-IsJson known known-UniqueKeys) refl plain_cipher-IsGcm
      refl

abbrev one_put : List Record
one_put = put_record k1 (b'4' ∷ []) ∷ []

abbrev put_store : DiskStore
put_store = record {
  mem = put k1 (b'4' ∷ []) new_mem_store;
  wal = log_of one_put;
  snapshot = none;
  closed = false;
}

abbrev counted_store : DiskStore
counted_store = record {
  mem = (incr (pos 60) k1 new_mem_store).0;
  wal = log_of (incr_record k1 ∷ []);
  snapshot = none;
  closed = false;
}

abbrev one : Dict Entry
one = (k1, entry (b'1' ∷ [])) ∷ []
