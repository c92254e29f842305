-- ===== src/Storage/Glob/Fuel.antt =====
-- The steps of `matchGlob` (pkg/storage/fake.go) and its fuel.
use native.Mathlib.Nat.{suc-mul, mul-le-mul_right}
use kv_store.Common.{
  ℕ, zero, suc, ◌+◌, ◌*◌, ◌≤◌, ◌<◌, ◌≡◌, ◌≢◌, ap, ◌∙◌, Bool, true, false, Option, none, some, [],
  ◌∷◌, Bytes, length, ◌==◌, if◌then◌else◌, arith,
}
use kv_store.Storage.Glob.{
  star, all_stars, Progress, ended, at, retry, glob_step, glob_loop, match_glob,
}

module _ (k n : ℕ) where
  -- How often the mark can still move, times a bound on the steps between two moves, and the steps left.
  abbrev weight : Progress → ℕ
  weight (ended b) = 0
  weight (at p s none) = (n + 1) * k + length p + length s + 1
  weight (at p s (some (q, m))) = length m * k + length p + length s + 1

  abbrev Fits : Progress → Type 0
  Fits (ended b) = Unit
  Fits (at p s none) = (length p + length s < k) × (length s ≤ n)
  Fits (at p s (some (q, m))) =
      (length p + length s < k) × (length s ≤ length m) × (length q + length m < k)

  -- A step keeps the fit and lowers the weight.
  Lower : ℕ → Progress → Type 0
  Lower w x = Fits x × (weight x < w)

  retry-Lower :
      (p s : Bytes) (back : Option (Bytes × Bytes))
      → Fits (at p s back)
      → Lower (weight (at p s back)) (retry back)
  unfolding Lower
  retry-Lower p s none f = (tt, omega arith)
  retry-Lower p s (some (q, [])) f = (tt, omega arith)
  retry-Lower p s (some (q, x ∷ m)) f =
      let e : suc (length m) * k ≡ length m * k + k = suc-mul (length m) k in
      ((omega arith, omega arith, omega arith), omega arith)

  star-Lower :
      (d : ℕ) (p : Bytes) (c : ℕ) (s : Bytes) (back : Option (Bytes × Bytes))
      → Fits (at (d ∷ p) (c ∷ s) back)
      → Lower (weight (at (d ∷ p) (c ∷ s) back)) (at p (c ∷ s) (some (p, c ∷ s)))
  unfolding Lower
  star-Lower d p c s none f =
      let le : length (c ∷ s) ≤ n + 1 = omega arith in
      let more = mul-le-mul_right k le in ((omega arith, omega arith, omega arith), omega arith)
  star-Lower d p c s (some (q, m)) f =
      let more = mul-le-mul_right k f.1 in ((omega arith, omega arith, omega arith), omega arith)

  same-Lower :
      (d : ℕ) (p : Bytes) (c : ℕ) (s : Bytes) (back : Option (Bytes × Bytes))
      → Fits (at (d ∷ p) (c ∷ s) back)
      → Lower (weight (at (d ∷ p) (c ∷ s) back)) (at p s back)
  unfolding Lower
  same-Lower d p c s none f = ((omega arith, omega arith), omega arith)
  same-Lower d p c s (some (q, m)) f = ((omega arith, omega arith, omega arith), omega arith)

  end-Lower :
      (p s : Bytes) (back : Option (Bytes × Bytes)) (b : Bool)
      → Lower (weight (at p s back)) (ended b)
  unfolding Lower
  end-Lower p s none b = (tt, omega arith)
  end-Lower p s (some (q, m)) b = (tt, omega arith)

  if-Lower :
      (w : ℕ) (b : Bool) (x y : Progress) → Lower w x → Lower w y → Lower w (if b then x else y)
  if-Lower w true x y h k = h
  if-Lower w false x y h k = k

  glob_step-Lower :
      (p s : Bytes) (back : Option (Bytes × Bytes))
      → Fits (at p s back)
      → Lower (weight (at p s back)) (glob_step p s back)
  unfolding glob_step
  glob_step-Lower p [] back f = end-Lower p [] back (all_stars p)
  glob_step-Lower [] (c ∷ s) back f = retry-Lower [] (c ∷ s) back f
  glob_step-Lower (d ∷ p) (c ∷ s) back f =
      let w = weight (at (d ∷ p) (c ∷ s) back) in
      if-Lower w (d == c) (at p s back) _ (same-Lower d p c s back f) (
        if-Lower w (d == star) (at p (c ∷ s) (some (p, c ∷ s))) (retry back)
          (star-Lower d p c s back f) (retry-Lower (d ∷ p) (c ∷ s) back f))

  glob_loop-ends : (fuel : ℕ) (x : Progress) → Fits x → weight x ≤ fuel → glob_loop fuel x ≢ none
  unfolding glob_loop Lower
  glob_loop-ends fuel (ended b) f le = ground arith
  glob_loop-ends zero (at p s none) f le = absurd (omega arith)
  glob_loop-ends zero (at p s (some (q, m))) f le = absurd (omega arith)
  glob_loop-ends (suc fuel) (at p s back) f le =
      let l = glob_step-Lower p s back f in
      glob_loop-ends fuel (glob_step p s back) l.0 (omega (arith, l.1))

-- The match of any pattern with any string ends within its fuel.
pub match_glob-ends : (p s : Bytes) → match_glob p s ≢ none
unfolding match_glob
match_glob-ends [] s = ground arith
match_glob-ends (d ∷ p) s =
    let k = length (d ∷ p) + length s + 1 in
    let e : (length s + 2) * k ≡ (length s + 1) * k + k =
      ap (λ (a : ℕ). a * k) (let q : length s + 2 ≡ suc (length s + 1) = omega arith in q)
      ∙ suc-mul (length s + 1) k in
    glob_loop-ends k (length s) ((length s + 2) * k) (at (d ∷ p) s none) (omega arith, omega arith)
      (omega arith)
