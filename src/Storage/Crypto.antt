-- ===== src/Storage/Crypto.antt =====
-- pkg/storage/crypto.go: the blobs at rest. AES-GCM and the random source are not code of the repository: the first is
-- a parameter, and the nonce that the second gives, or nothing on an error, is an argument.
use kv_store.Common.{
  ℕ, ◌+◌, ◌≡◌, false, Option, none, some, [], ◌∷◌, ◌++◌, Bytes, length, take, drop, ltb, ◌==◌,
  if◌then◌else◌, take-append, drop-append, length-append, arith,
}

-- `cipher.AEAD` without associated data.
pub record Aead : Type 0 where
  pub seal : (nonce plain : Bytes) → Bytes
  pub unseal : (nonce sealed : Bytes) → Option Bytes

abbrev pub at_rest_key_size : ℕ
at_rest_key_size = 32

abbrev pub at_rest_nonce_size : ℕ
at_rest_nonce_size = 12

-- The magics of the log and of a snapshot.
abbrev pub wal_encrypted_magic : ℕ
wal_encrypted_magic = 240

abbrev pub snapshot_magic : Bytes
snapshot_magic = b'K' ∷ b'V' ∷ b'E' ∷ b'S' ∷ []

-- `newAtRestCipher`, over the constructor of the library.
unfoldable pub new_at_rest_cipher : (Bytes → Aead) → Bytes → Option Aead
new_at_rest_cipher new_gcm key = if length key == at_rest_key_size then some (new_gcm key) else none

unfoldable pub encrypt : Aead → Option Bytes → Bytes → Option Bytes
encrypt c none plain = none
encrypt c (some nonce) plain = some (nonce ++ c.seal nonce plain)

unfoldable pub decrypt : Aead → Bytes → Option Bytes
decrypt c sealed =
    if ltb (length sealed) at_rest_nonce_size
    then none
    else c.unseal (take at_rest_nonce_size sealed) (drop at_rest_nonce_size sealed)

-- What GCM promises: a sealed blob opens under its nonce, and is 16 bytes longer.
pub record IsGcm (c : Aead) : Type 0 where
  pub opens : (nonce plain : Bytes) → c.unseal nonce (c.seal nonce plain) ≡ some plain
  pub longer : (nonce plain : Bytes) → length (c.seal nonce plain) ≡ length plain + 16

pub decrypt-encrypt :
    (c : Aead) (nonce plain : Bytes)
    → IsGcm c
    → length nonce ≡ at_rest_nonce_size
    → decrypt c (nonce ++ c.seal nonce plain) ≡ some plain
unfolding decrypt
decrypt-encrypt c nonce plain g e =
    let long : ltb (length (nonce ++ c.seal nonce plain)) at_rest_nonce_size ≡ false =
      ground (arith, length-append nonce (c.seal nonce plain)) in
    let t : take at_rest_nonce_size (nonce ++ c.seal nonce plain) ≡ nonce =
      rw (← e) (take-append nonce (c.seal nonce plain)) in
    let d : drop at_rest_nonce_size (nonce ++ c.seal nonce plain) ≡ c.seal nonce plain =
      rw (← e) (drop-append nonce (c.seal nonce plain)) in
    rw (long, t, d) (g.opens nonce plain)
