-- ===== src/Storage/Glob/Sound.antt =====
-- What a match found by `matchGlob` (pkg/storage/fake.go) means.
use native.Mathlib.Nat.{mul-le-mul_right}
use kv_store.Common.{
  ◌≤◌, ℕ, zero, suc, ◌≡◌, ◌⊎◌, inl, inr, refl, Bool, true, false, Option, none, some, [], ◌∷◌,
  Bytes, ◌==◌, ◌+◌, ◌*◌, length, if◌then◌else◌, arith,
}
use kv_store.Storage.Glob.{
  star, all_stars, Progress, ended, at, retry, glob_step, glob_loop, match_glob,
}

-- A star stands for any bytes, any other byte for itself.
pub data Matches : Bytes → Bytes → Type 0 where
  nothing : Matches [] []
  same : {p s : Bytes} (c : ℕ) → Matches p s → Matches (c ∷ p) (c ∷ s)
  skip : {p s : Bytes} → Matches p s → Matches (star ∷ p) s
  take_one : {p s : Bytes} (c : ℕ) → Matches (star ∷ p) s → Matches (star ∷ p) (c ∷ s)

abbrev pub Back : Option (Bytes × Bytes) → Type 0
Back none = ⊥
Back (some (q, m)) = Matches (star ∷ q) m

-- What a state of the loop finds.
abbrev pub Found : Progress → Type 0
Found (ended b) = b ≡ true
Found (at p s back) = Matches p s ⊎ Back back

abbrev pub FoundBy : Bytes → Bytes → Option (Bytes × Bytes) → Type 0
FoundBy p s back = Matches p s ⊎ Back back

all_stars-Matches : (p : Bytes) → all_stars p ≡ true → Matches p []
all_stars-Matches [] h = nothing
all_stars-Matches (d ∷ p) h =
    let e : d ≡ star = ground arith in
    let r : all_stars p ≡ true = ground arith in rw e (skip (all_stars-Matches p r))

retry-Found : (back : Option (Bytes × Bytes)) → Found (retry back) → Back back
retry-Found none h = ground arith
retry-Found (some (q, [])) h = ground arith
retry-Found (some (q, x ∷ m)) (inl h) = take_one x (skip h)
retry-Found (some (q, x ∷ m)) (inr h) = take_one x h

-- Which branch of a step found it.
Found-if :
    (b b' : Bool) (x y z : Progress)
    → Found (if b then x else if b' then y else z)
    → ((b ≡ true) × Found x) ⊎ ((b' ≡ true) × Found y) ⊎ Found z
Found-if true b' x y z h = inl (refl, h)
Found-if false true x y z h = inr (inl (refl, h))
Found-if false false x y z h = inr (inr h)

both : (p s : Bytes) → FoundBy p s (some (p, s)) → Matches (star ∷ p) s
both p s (inl h) = skip h
both p s (inr h) = h

glob_step-Found :
    (p s : Bytes) (back : Option (Bytes × Bytes)) → Found (glob_step p s back) → FoundBy p s back
unfolding glob_step
glob_step-Found p [] back h = inl (all_stars-Matches p h)
glob_step-Found [] (c ∷ s) back h = inr (retry-Found back h)
glob_step-Found (d ∷ p) (c ∷ s) back h =
    elim (Found-if (d == c) (d == star) (at p s back) (at p (c ∷ s) (some (p, c ∷ s))) (retry back)
      h) [
        | inl (e, inl m) ↦ let x : d ≡ c = ground arith in rw x (inl (same c m))
        | inl (e, inr b) ↦ inr b
        | inr (inl (e, f)) ↦ let x : d ≡ star = ground arith in rw x (inl (both p (c ∷ s) f))
        | inr (inr f) ↦ inr (retry-Found back f)
      ]

pub glob_loop-Found : (fuel : ℕ) (x : Progress) → glob_loop fuel x ≡ some true → Found x
unfolding glob_loop
glob_loop-Found fuel (ended b) h = ground arith
glob_loop-Found zero (at p s back) h = absurd (ground arith)
glob_loop-Found (suc fuel) (at p s back) h =
    glob_step-Found p s back (glob_loop-Found fuel (glob_step p s back) h)

-- A string that a pattern with a byte at least is said to match, it matches, where a star stands for any bytes and
-- any other byte for itself.
pub match_glob-Matches :
    (d : ℕ) (p s : Bytes) → match_glob (d ∷ p) s ≡ some true → Matches (d ∷ p) s
unfolding match_glob
match_glob-Matches d p s h =
    elim (glob_loop-Found ((length s + 2) * (length (d ∷ p) + length s + 1)) (at (d ∷ p) s none)
      h) [ inl m ↦ m | inr b ↦ absurd b ]

any : (s : Bytes) → Matches (star ∷ []) s
any [] = skip nothing
any (c ∷ s) = take_one c (any s)

glob_loop-ended : (fuel : ℕ) (b : Bool) → glob_loop fuel (ended b) ≡ some b
unfolding glob_loop
glob_loop-ended zero b = refl
glob_loop-ended (suc f) b = refl

glob_loop-misses :
    (fuel : ℕ) (c : ℕ) (s : Bytes)
    → 2 ≤ fuel
    → glob_loop fuel (at (star ∷ []) (star ∷ c ∷ s) none) ≡ some false
unfolding glob_loop glob_step
glob_loop-misses zero c s le = absurd (omega arith)
glob_loop-misses (suc zero) c s le = absurd (omega arith)
glob_loop-misses (suc (suc f)) c s le = glob_loop-ended f false

-- The pattern of one star is said not to match a string of two bytes or more that begins with a star itself,
-- although it stands for any bytes.
pub match_glob_misses :
    (c : ℕ) (s : Bytes)
    → (match_glob (star ∷ []) (star ∷ c ∷ s) ≡ some false) × Matches (star ∷ []) (star ∷ c ∷ s)
unfolding match_glob
match_glob_misses c s =
    let n = length (star ∷ c ∷ s) in
    let k = length (star ∷ []) + n + 1 in
    let enough : 1 * k ≤ (n + 2) * k = mul-le-mul_right k (omega arith) in
    (glob_loop-misses ((n + 2) * k) c s (omega arith), any (star ∷ c ∷ s))
