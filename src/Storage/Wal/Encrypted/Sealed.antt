-- ===== src/Storage/Wal/Encrypted/Sealed.antt =====
-- Replay of a sealed log (`replayEncrypted` of pkg/storage/wal.go).
use mathlib.Core.List.{append_assoc, append-nil}
use kv_store.Common.{
  ℕ, zero, suc, ◌+◌, ◌-◌, ◌/◌, ◌%◌, ◌^◌, ◌≤◌, ◌≡◌, ◌≢◌, refl, ap, ◌∙◌, ℤ, false, List, [], ◌∷◌,
  ◌++◌, Bytes, length, length-append, length-drop, ◌⊎◌, take, drop, take-append, drop-append,
  Option-cases, inl, inr, ltb, arith,
}
use kv_store.Storage.Crypto.{
  Aead, IsGcm, decrypt, decrypt-encrypt, at_rest_nonce_size, wal_encrypted_magic,
}
use kv_store.Storage.MemStore.{MemStore}
use kv_store.Storage.Wal.{Record, append_record, Replayed, restored, corrupted, out_of_fuel, replay}
use kv_store.Storage.Wal.Numbers.{be32, of_be32, of_be32-be32}
use kv_store.Storage.Wal.Records.{IsLoggable, effect}
use kv_store.Storage.Wal.Replay.{log_of, effects, replay-log, replay_ends}
use kv_store.Storage.Wal.Encrypted.{max_sealed, read_sealed, sealed_loop, replay_encrypted}

-- Records with the nonces they were sealed under.
abbrev pub blob : Aead → Bytes → Record → Bytes
blob c nonce r = nonce ++ c.seal nonce (append_record r)

abbrev pub frame : Aead → Bytes → Record → Bytes
frame c nonce r = be32 (length (blob c nonce r)) ++ blob c nonce r

unfoldable pub sealed_log : Aead → List (Bytes × Record) → Bytes
sealed_log c [] = []
sealed_log c ((nonce, r) ∷ rs) = frame c nonce r ++ sealed_log c rs

abbrev pub records : List (Bytes × Record) → List Record
records [] = []
records ((nonce, r) ∷ rs) = r ∷ records rs

-- The bounds of the fields and of the sealed blob, and the length of a nonce.
abbrev pub IsSealable : Bytes → Record → Type 0
IsSealable nonce r =
    IsLoggable r
    × (length nonce ≡ at_rest_nonce_size)
    × (length (append_record r) + 28 ≤ max_sealed)

abbrev pub AllSealable : List (Bytes × Record) → Type 0
AllSealable [] = Unit
AllSealable ((nonce, r) ∷ rs) = IsSealable nonce r × AllSealable rs

module _ (c : Aead) (g : IsGcm c) (now : ℤ) where
  pub length-blob :
      (nonce : Bytes) (r : Record)
      → length nonce ≡ at_rest_nonce_size
      → length (blob c nonce r) ≡ length (append_record r) + 28
  length-blob nonce r e =
      let a = length-append nonce (c.seal nonce (append_record r)) in
      let l = g.longer nonce (append_record r) in omega arith

  one_record :
      (r : Record) (m : MemStore)
      → IsLoggable r
      → replay now (append_record r) m ≡ restored (effect now r m)
  one_record r m fit =
      unfold log_of effects in (rw append-nil at (replay-log now (r ∷ []) m (fit, tt)))

  read_sealed-frame :
      (nonce : Bytes) (r : Record) (rest : Bytes) (m : MemStore)
      → IsSealable nonce r
      → read_sealed c now (length (blob c nonce r)) (blob c nonce r ++ rest) m
        ≡ restored (effect now r m)
  unfolding read_sealed
  read_sealed-frame nonce r rest m fit =
      rw (take-append (blob c nonce r) rest, decrypt-encrypt c nonce (append_record r) g fit.1)
        (one_record r m fit.0)

  -- A round on a blob that is all there.
  sealed_loop-round :
      (fuel a b d e : ℕ) (rest : Bytes) (m m' : MemStore)
      → ltb max_sealed (of_be32 a b d e) ≡ false
      → ltb (length rest) (of_be32 a b d e) ≡ false
      → read_sealed c now (of_be32 a b d e) rest m ≡ restored m'
      → sealed_loop c (suc fuel) now (a ∷ b ∷ d ∷ e ∷ rest) m
        ≡ sealed_loop c fuel now (drop (of_be32 a b d e) rest) m'
  unfolding sealed_loop
  sealed_loop-round fuel a b d e rest m m' bound room done = rw (bound, room, done)

  sealed_loop-frame :
      (fuel : ℕ) (nonce : Bytes) (r : Record) (rest : Bytes) (m : MemStore)
      → IsSealable nonce r
      → sealed_loop c (suc fuel) now (frame c nonce r ++ rest) m
        ≡ sealed_loop c fuel now rest (effect now r m)
  unfolding be32
  sealed_loop-frame fuel nonce r rest m fit =
      let n = length (blob c nonce r) in
      let len = length-blob nonce r fit.1 in
      let e = of_be32-be32 n (omega arith) in
      let bound : ltb max_sealed n ≡ false = ground arith in
      let room : ltb (length (blob c nonce r ++ rest)) n ≡ false =
        ground (arith, length-append (blob c nonce r) rest) in
      sealed_loop-round fuel (n / 2 ^ 24 % 256) (n / 2 ^ 16 % 256) (n / 2 ^ 8 % 256) (n % 256)
        (blob c nonce r ++ rest) m (effect now r m) (rw e bound) (rw e room)
        (rw e (read_sealed-frame nonce r rest m fit))
      ∙ ap (λ (k : Bytes). sealed_loop c fuel now k (effect now r m))
          (ap (λ (k : ℕ). drop k (blob c nonce r ++ rest)) e ∙ drop-append (blob c nonce r) rest)

  -- Replay works through the complete frames in front of any bytes.
  pub sealed_loop-log :
      (fuel : ℕ) (rs : List (Bytes × Record)) (tail : Bytes) (m : MemStore)
      → AllSealable rs
      → length rs ≤ fuel
      → sealed_loop c fuel now (sealed_log c rs ++ tail) m
        ≡ sealed_loop c (fuel - length rs) now tail (effects now (records rs) m)
  unfolding sealed_log effects
  sealed_loop-log fuel [] tail m fit enough = let e : fuel - 0 ≡ fuel = omega arith in rw e
  sealed_loop-log zero (x ∷ rs) tail m fit enough = absurd (omega arith)
  sealed_loop-log (suc fuel) ((nonce, r) ∷ rs) tail m fit enough =
      let e : suc fuel - suc (length rs) ≡ fuel - length rs = omega arith in
      rw (append_assoc (frame c nonce r) (sealed_log c rs) tail, e)
        (sealed_loop-frame fuel nonce r (sealed_log c rs ++ tail) m fit.0
          ∙ sealed_loop-log fuel rs tail (effect now r m) fit.1 (omega arith))

  sealed_loop-nil : (fuel : ℕ) (m : MemStore) → sealed_loop c fuel now [] m ≡ restored m
  unfolding sealed_loop
  sealed_loop-nil zero m = refl
  sealed_loop-nil (suc fuel) m = refl

  pub length-sealed : (rs : List (Bytes × Record)) → length rs ≤ length (sealed_log c rs)
  unfolding sealed_log be32
  length-sealed [] = omega arith
  length-sealed ((nonce, r) ∷ rs) =
      omega (arith, length-sealed rs, length-append (frame c nonce r) (sealed_log c rs))

-- Under a cipher that does what GCM promises, replaying what was appended, with bounded fields and blobs and nonces of
-- 12 bytes, gives the store that the records make one after the other.
pub replay_encrypted-log :
    (c : Aead) (now : ℤ) (rs : List (Bytes × Record)) (m : MemStore)
    → IsGcm c
    → AllSealable rs
    → replay_encrypted c now (wal_encrypted_magic ∷ sealed_log c rs) m
      ≡ restored (effects now (records rs) m)
unfolding replay_encrypted
replay_encrypted-log c now rs m g fit =
    let k = length (sealed_log c rs) in
    rw append-nil at (sealed_loop-log c g now k rs [] m fit (length-sealed c g now rs))
    ∙ sealed_loop-nil c g now (k - length rs) (effects now (records rs) m)

Replayed-cases :
    (x : Replayed) → (x ≡ out_of_fuel) ⊎ ((x ≡ corrupted) ⊎ ((m : MemStore) × (x ≡ restored m)))
Replayed-cases (restored m) = inr (inr (m, refl))
Replayed-cases corrupted = inr (inl refl)
Replayed-cases out_of_fuel = inl refl

read_sealed_ends :
    (c : Aead) (now : ℤ) (len : ℕ) (rest : Bytes) (m : MemStore)
    → read_sealed c now len rest m ≢ out_of_fuel
unfolding read_sealed
read_sealed_ends c now len rest m = elim (Option-cases (decrypt c (take len rest))) [
  | inl bad ↦ rw bad (ground arith)
  | inr (plain, good) ↦ rw good (replay_ends now plain m)
]

sealed_loop_ends :
    (c : Aead) (fuel : ℕ) (now : ℤ) (r : Bytes) (m : MemStore)
    → length r ≤ fuel
    → sealed_loop c fuel now r m ≢ out_of_fuel
unfolding sealed_loop
sealed_loop_ends c zero now [] m le = ground arith
sealed_loop_ends c zero now (a ∷ r) m le = absurd (omega arith)
sealed_loop_ends c (suc fuel) now [] m le = ground arith
sealed_loop_ends c (suc fuel) now (a ∷ []) m le = ground arith
sealed_loop_ends c (suc fuel) now (a ∷ b ∷ []) m le = ground arith
sealed_loop_ends c (suc fuel) now (a ∷ b ∷ d ∷ []) m le = ground arith
sealed_loop_ends c (suc fuel) now (a ∷ b ∷ d ∷ e ∷ rest) m le =
    let n = of_be32 a b d e in
    let x = read_sealed_ends c now n rest m in
    let len = length-drop n rest in
    elim (Replayed-cases (read_sealed c now n rest m)) [
      | inl bad ↦ absurd (x bad)
      | inr (inl bad) ↦ ground arith
      | inr (inr (m', good)) ↦
          ground (arith, sealed_loop_ends c fuel now (drop n rest) m' (omega arith))
    ]

-- Replay of any bytes under any cipher ends with a restored store or with an error, never for want of fuel.
pub replay_encrypted_ends :
    (c : Aead) (now : ℤ) (file : Bytes) (m : MemStore) → replay_encrypted c now file m ≢ out_of_fuel
unfolding replay_encrypted
replay_encrypted_ends c now [] m = ground arith
replay_encrypted_ends c now (magic ∷ r) m =
    ground (arith, sealed_loop_ends c (length r) now r m (omega arith))
