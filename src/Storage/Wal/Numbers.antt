-- ===== src/Storage/Wal/Numbers.antt =====
-- `binary.BigEndian` on 32 and 64 bits, and the conversions `uint64(x)` and `int64(x)`.
use kv_store.Common.{
  ℕ, ◌+◌, ◌-◌, ◌*◌, ◌/◌, ◌%◌, ◌^◌, ◌<◌, ◌≡◌, ℤ, pos, negsuc, Bytes, [], ◌∷◌, ltb, if◌then◌else◌,
  arith,
}

-- The value is cut to 32 bits, as `uint32(n)` does.
unfoldable pub be32 : ℕ → Bytes
be32 n = (n / 2 ^ 24 % 256) ∷ (n / 2 ^ 16 % 256) ∷ (n / 2 ^ 8 % 256) ∷ (n % 256) ∷ []

unfoldable pub of_be32 : ℕ → ℕ → ℕ → ℕ → ℕ
of_be32 a b c d = a * 2 ^ 24 + b * 2 ^ 16 + c * 2 ^ 8 + d

pub of_be32-be32 :
    (n : ℕ)
    → n < 2 ^ 32
    → of_be32 (n / 2 ^ 24 % 256) (n / 2 ^ 16 % 256) (n / 2 ^ 8 % 256) (n % 256) ≡ n
unfolding of_be32
of_be32-be32 n h = omega arith

-- Two's complement.
unfoldable pub to_u64 : ℤ → ℕ
to_u64 (pos n) = n % 2 ^ 64
to_u64 (negsuc n) = (2 ^ 64 - 1 - n % 2 ^ 64) % 2 ^ 64

unfoldable pub of_u64 : ℕ → ℤ
of_u64 n = if ltb n (2 ^ 63) then pos n else negsuc (2 ^ 64 - 1 - n)

abbrev pub IsInt64 : ℤ → Type 0
IsInt64 (pos n) = n < 2 ^ 63
IsInt64 (negsuc n) = n < 2 ^ 63

pub of_u64-to_u64 : (x : ℤ) → IsInt64 x → of_u64 (to_u64 x) ≡ x
unfolding of_u64 to_u64
of_u64-to_u64 (pos n) h = ground arith
of_u64-to_u64 (negsuc n) h = ground arith

to_u64-lt : (x : ℤ) → to_u64 x < 2 ^ 64
unfolding to_u64
to_u64-lt (pos n) = omega arith
to_u64-lt (negsuc n) = omega arith

pub byte_of : ℕ → ℕ → ℕ
byte_of n k = n / 2 ^ (8 * k) % 256

unfoldable pub be64 : ℤ → Bytes
unfolding byte_of
be64 x =
    let n = to_u64 x in
    byte_of n 7
    ∷ byte_of n 6
    ∷ byte_of n 5
    ∷ byte_of n 4
    ∷ byte_of n 3
    ∷ byte_of n 2
    ∷ byte_of n 1
    ∷ byte_of n 0
    ∷ []

unfoldable pub of_be64 : ℕ → ℕ → ℕ → ℕ → ℕ → ℕ → ℕ → ℕ → ℤ
of_be64 a b c d e f g h =
    of_u64
      (a * 2 ^ 56 + b * 2 ^ 48 + c * 2 ^ 40 + d * 2 ^ 32 + e * 2 ^ 24 + f * 2 ^ 16 + g * 2 ^ 8 + h)

split64 :
    (n : ℕ)
    → n < 2 ^ 64
    → byte_of n 7 * 2 ^ 56
        + byte_of n 6 * 2 ^ 48
        + byte_of n 5 * 2 ^ 40
        + byte_of n 4 * 2 ^ 32
        + byte_of n 3 * 2 ^ 24
        + byte_of n 2 * 2 ^ 16
        + byte_of n 1 * 2 ^ 8
        + byte_of n 0
      ≡ n
unfolding byte_of
split64 n h = omega arith

pub of_be64-be64 :
    (x : ℤ)
    → IsInt64 x
    → of_be64
        (byte_of (to_u64 x) 7)
        (byte_of (to_u64 x) 6)
        (byte_of (to_u64 x) 5)
        (byte_of (to_u64 x) 4)
        (byte_of (to_u64 x) 3)
        (byte_of (to_u64 x) 2)
        (byte_of (to_u64 x) 1)
        (byte_of (to_u64 x) 0)
      ≡ x
unfolding of_be64
of_be64-be64 x h = rw (split64 (to_u64 x) (to_u64-lt x)) (of_u64-to_u64 x h)
