-- ===== src/Storage/Wal/Encrypted/Cut.antt =====
-- A sealed log (pkg/storage/wal.go) that ends inside a record, or has one that is too long.
use kv_store.Common.{
  ℕ, zero, suc, ◌+◌, ◌/◌, ◌%◌, ◌^◌, ◌≤◌, ◌<◌, ◌≡◌, refl, ℤ, true, some, ◌∷◌, ◌++◌, Bytes, length,
  ltb, leb, if◌then◌else◌, arith,
}
use kv_store.Storage.Crypto.{Aead, IsGcm, encrypt, at_rest_nonce_size, wal_encrypted_magic}
use kv_store.Storage.MemStore.{MemStore}
use kv_store.Storage.Wal.{Record, append_record, Replayed, restored, corrupted}
use kv_store.Storage.Wal.Numbers.{be32, of_be32, of_be32-be32}
use kv_store.Storage.Wal.Encrypted.{append_sealed, max_sealed, sealed_loop, replay_encrypted}
use kv_store.Storage.Wal.Encrypted.Sealed.{blob, frame, length-blob}

-- How a replay ends on what a crash left of a last frame: no more than the length, or not the whole blob.
abbrev pub cut_end : ℕ → MemStore → Replayed
cut_end j m = if leb j 4 then restored m else corrupted

module _ (c : Aead) (g : IsGcm c) (now : ℤ) where
  sealed_loop-refused :
      (fuel a b d e : ℕ) (rest : Bytes) (m : MemStore)
      → 1 ≤ fuel
      → ltb max_sealed (of_be32 a b d e) ≡ true
      → sealed_loop c fuel now (a ∷ b ∷ d ∷ e ∷ rest) m ≡ corrupted
  unfolding sealed_loop
  sealed_loop-refused zero a b d e rest m le bound = absurd (omega arith)
  sealed_loop-refused (suc fuel) a b d e rest m le bound = rw bound refl

-- A record whose sealed blob is longer than the bound of replay, and shorter than 2^32 bytes, is appended without an
-- error, and the replay of a log that begins with it is refused, whatever stands behind it.
pub replay_encrypted-too_long :
    (c : Aead) (now : ℤ) (nonce : Bytes) (r : Record) (rest : Bytes) (m : MemStore)
    → IsGcm c
    → length nonce ≡ at_rest_nonce_size
    → max_sealed < length (append_record r) + 28
    → length (append_record r) + 28 < 2 ^ 32
    → (append_sealed c (some nonce) r ≡ some (frame c nonce r))
      × (replay_encrypted c now (wal_encrypted_magic ∷ (frame c nonce r ++ rest)) m ≡ corrupted)
unfolding replay_encrypted append_sealed encrypt be32
replay_encrypted-too_long c now nonce r rest m g e long fits =
    let n = length (blob c nonce r) in
    let len = length-blob c g now nonce r e in
    let same = of_be32-be32 n (omega arith) in
    let bound : ltb max_sealed n ≡ true = ground arith in
    (
      refl,
      sealed_loop-refused c g now (length (frame c nonce r ++ rest)) (n / 2 ^ 24 % 256)
          (n / 2 ^ 16 % 256) (n / 2 ^ 8 % 256) (n % 256) (blob c nonce r ++ rest) m (omega arith)
          (rw same bound),
    )
