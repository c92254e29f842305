-- ===== src/Common/Order.antt =====
-- Go's `<` on strings as an order.
use kv_store.Common.{
  ℕ, ◌≡◌, ◌⊎◌, inl, inr, refl, true, false, [], ◌∷◌, Bytes, bytes_lt, bytes_eq, bytes_eq_iff, arith,
}

pub bytes_lt_irrefl : (a : Bytes) → bytes_lt a a ≡ false
unfolding bytes_lt
bytes_lt_irrefl [] = refl
bytes_lt_irrefl (x ∷ a) = ground (arith, bytes_lt_irrefl a)

pub bytes_lt_trans :
    (a b c : Bytes) → bytes_lt a b ≡ true → bytes_lt b c ≡ true → bytes_lt a c ≡ true
unfolding bytes_lt
bytes_lt_trans [] [] c h k = ground arith
bytes_lt_trans [] (y ∷ b) [] h k = ground arith
bytes_lt_trans [] (y ∷ b) (z ∷ c) h k = refl
bytes_lt_trans (x ∷ a) [] c h k = ground arith
bytes_lt_trans (x ∷ a) (y ∷ b) [] h k = ground arith
bytes_lt_trans (x ∷ a) (y ∷ b) (z ∷ c) h k = ground (arith, bytes_lt_trans a b c)

pub bytes_lt_total : (a b : Bytes) → (bytes_lt a b ≡ true) ⊎ (a ≡ b) ⊎ (bytes_lt b a ≡ true)
unfolding bytes_lt
bytes_lt_total [] [] = inr (inl refl)
bytes_lt_total [] (y ∷ b) = inl refl
bytes_lt_total (x ∷ a) [] = inr (inr refl)
bytes_lt_total (x ∷ a) (y ∷ b) = ground (arith, bytes_lt_total a b)

-- What is smaller is not equal.
pub bytes_lt_eq : (a b : Bytes) → bytes_lt a b ≡ true → bytes_eq a b ≡ false
bytes_lt_eq a b h = ground (arith, bytes_eq_iff a b, bytes_lt_irrefl a)

pub bytes_lt_eq_sym : (a b : Bytes) → bytes_lt a b ≡ true → bytes_eq b a ≡ false
bytes_lt_eq_sym a b h = ground (arith, bytes_eq_iff b a, bytes_lt_irrefl a)

-- The smallest string is the empty one.
pub bytes_lt_empty : (a : Bytes) → bytes_lt a [] ≡ false
unfolding bytes_lt
bytes_lt_empty [] = refl
bytes_lt_empty (x ∷ a) = refl

pub empty_bytes_lt : (x : ℕ) (a : Bytes) → bytes_lt [] (x ∷ a) ≡ true
unfolding bytes_lt
empty_bytes_lt x a = refl

pub bytes_lt_asym : (a b : Bytes) → bytes_lt a b ≡ true → bytes_lt b a ≡ false
bytes_lt_asym a b h = ground (arith, bytes_lt_trans a b a h, bytes_lt_irrefl a)
