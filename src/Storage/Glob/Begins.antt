-- ===== src/Storage/Glob/Begins.antt =====
-- How a match of a pattern (pkg/storage/fake.go) can begin.
use kv_store.Common.{ℕ, ◌≡◌, ◌≢◌, ◌⊎◌, inl, inr, refl, [], ◌∷◌, Bytes}
use kv_store.Storage.Glob.{star}
use kv_store.Storage.Glob.Sound.{Matches, nothing, same, skip, take_one}

abbrev pub NoStar : Bytes → Type 0
NoStar [] = Unit
NoStar (c ∷ s) = (c ≢ star) × NoStar s

-- How a match can begin.
abbrev pub Begins : Bytes → Bytes → Type 0
Begins [] [] = Unit
Begins [] (c ∷ s) = ⊥
Begins (d ∷ p) [] = (d ≡ star) × Matches p []
Begins (d ∷ p) (c ∷ s) =
    ((d ≡ c) × Matches p s) ⊎ ((d ≡ star) × (Matches p (c ∷ s) ⊎ Matches (star ∷ p) s))

pub Matches-Begins : (p s : Bytes) → Matches p s → Begins p s
Matches-Begins [] [] nothing = tt
Matches-Begins [] (c ∷ s) m = elim m [ ]
Matches-Begins (d ∷ p) (c ∷ s) (same _ m) = inl (refl, m)
Matches-Begins (d ∷ p) [] (skip m) = (refl, m)
Matches-Begins (d ∷ p) (c ∷ s) (skip m) = inr (refl, inl m)
Matches-Begins (d ∷ p) (c ∷ s) (take_one _ m) = inr (refl, inr m)

-- More bytes in front of what a star stands for.
pub collapse : (p s : Bytes) → Matches (star ∷ star ∷ p) s → Matches (star ∷ p) s
collapse p [] m = (Matches-Begins (star ∷ star ∷ p) [] m).1
collapse p (c ∷ s) m = elim (Matches-Begins (star ∷ star ∷ p) (c ∷ s) m) [
  | inl (e, k) ↦ take_one c k
  | inr (e, inl k) ↦ k
  | inr (e, inr k) ↦ take_one c (collapse p s k)
]

pub tail_of :
    (d : ℕ) (p : Bytes) (c : ℕ) (s : Bytes) → d ≢ star → Matches (d ∷ p) (c ∷ s) → Matches p s
tail_of d p c s n m = elim (Matches-Begins (d ∷ p) (c ∷ s) m) [
  | inl (e, k) ↦ k
  | inr (e, k) ↦ absurd (n e)
]

-- What a match says of the match without the first byte, which is no star, and the same from behind a star.
after : (d : ℕ) (p s : Bytes) → d ≢ star → Matches (d ∷ p) s → Matches (star ∷ p) s
after d p [] n m = absurd (n (Matches-Begins (d ∷ p) [] m).0)
after d p (c ∷ s) n m = elim (Matches-Begins (d ∷ p) (c ∷ s) m) [
  | inl (e, k) ↦ take_one c (skip k)
  | inr (e, k) ↦ absurd (n e)
]

pub behind :
    (d : ℕ) (p : Bytes) (c : ℕ) (s : Bytes)
    → d ≢ star
    → Matches (star ∷ d ∷ p) (c ∷ s)
    → Matches (star ∷ p) s
behind d p c [] n m = elim (Matches-Begins (star ∷ d ∷ p) (c ∷ []) m) [
  | inl (e, k) ↦ after d p [] n k
  | inr (e, inl k) ↦ skip (tail_of d p c [] n k)
  | inr (e, inr k) ↦ after d p [] n (Matches-Begins (star ∷ d ∷ p) [] k).1
]
behind d p c (c' ∷ s) n m = elim (Matches-Begins (star ∷ d ∷ p) (c ∷ c' ∷ s) m) [
  | inl (e, k) ↦ after d p (c' ∷ s) n k
  | inr (e, inl k) ↦ skip (tail_of d p c (c' ∷ s) n k)
  | inr (e, inr k) ↦ take_one c' (behind d p c' s n k)
]
