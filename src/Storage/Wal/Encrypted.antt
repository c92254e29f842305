-- ===== src/Storage/Wal/Encrypted.antt =====
-- pkg/storage/wal.go: the log under a cipher. A record stands sealed behind its length, and the file behind one byte.
-- A write that fails, or stops half way, is not modelled here: the file after a crash is a prefix.
pub mod Sealed
pub mod Cut
use kv_store.Common.{
  ℕ, zero, suc, ◌+◌, ◌*◌, ◌^◌, ℤ, Bool, Option, none, some, List, [], ◌∷◌, ◌++◌, Bytes, length,
  take, drop, ltb, ◌==◌, if◌then◌else◌,
}
use kv_store.Storage.Crypto.{Aead, encrypt, decrypt, wal_encrypted_magic}
use kv_store.Storage.MemStore.{MemStore}
use kv_store.Storage.Wal.{
  Record, append_record, max_record_field, Replayed, restored, corrupted, out_of_fuel, replay,
}
use kv_store.Storage.Wal.Numbers.{be32, of_be32}

-- `OpenWALEncrypted` on the bytes that the file has.
unfoldable pub open_wal_encrypted : Bytes → Option Bytes
open_wal_encrypted [] = some (wal_encrypted_magic ∷ [])
open_wal_encrypted (first ∷ rest) =
    if first == wal_encrypted_magic then some (first ∷ rest) else none

abbrev framed : Option Bytes → Option Bytes
framed none = none
framed (some sealed) = some (be32 (length sealed) ++ sealed)

-- `append` under a cipher: the bytes it writes.
unfoldable pub append_sealed : Aead → Option Bytes → Record → Option Bytes
append_sealed c nonce r = framed (encrypt c nonce (append_record r))

-- `Truncate`.
abbrev pub truncate_encrypted : Bytes
truncate_encrypted = wal_encrypted_magic ∷ []

abbrev pub max_sealed : ℕ
max_sealed = max_record_field * 2 + 64

abbrev unsealed_onto : ℤ → MemStore → Option Bytes → Replayed
unsealed_onto now m none = corrupted
unsealed_onto now m (some plain) = replay now plain m

-- A sealed record of a length, from what is left of the file.
unfoldable pub read_sealed : Aead → ℤ → ℕ → Bytes → MemStore → Replayed
read_sealed c now len rest m = unsealed_onto now m (decrypt c (take len rest))

-- The loop of `replayEncrypted`, one record a round.
unfoldable pub sealed_loop : Aead → ℕ → ℤ → Bytes → MemStore → Replayed
sealed_loop c zero now [] m = restored m
sealed_loop c zero now (a ∷ r) m = out_of_fuel
sealed_loop c (suc fuel) now (a ∷ b ∷ d ∷ e ∷ rest) m =
    let len = of_be32 a b d e in
    if ltb max_sealed len
    then corrupted
    else if ltb (length rest) len
    then (if length rest == 0 then restored m else corrupted)
    else elim (read_sealed c now len rest m) [
      | restored m' ↦ sealed_loop c fuel now (drop len rest) m'
      | corrupted ↦ corrupted
      | out_of_fuel ↦ out_of_fuel
    ]
sealed_loop c (suc fuel) now _ m = restored m

-- Every round reads four bytes at least, so the file's length is enough fuel.
unfoldable pub replay_encrypted : Aead → ℤ → Bytes → MemStore → Replayed
replay_encrypted c now [] m = restored m
replay_encrypted c now (magic ∷ r) m =
    if magic == wal_encrypted_magic then sealed_loop c (length r) now r m else corrupted
