-- ===== src/Storage/Glob/Exact.antt =====
-- `matchGlob` (pkg/storage/fake.go) on strings without a star of their own.
use mathlib.Core.Path.{subst}
use kv_store.Common.{
  ℕ, zero, suc, ◌≡◌, ◌≢◌, inl, inr, refl, Bool, true, Option, none, some, [], ◌∷◌, Bytes, ◌==◌, ◌+◌,
  ◌*◌, length, arith, ◌↔◌, sym, Bool-cases, Option-cases, ◌∙◌, ap,
}
use kv_store.Storage.Glob.{
  star, all_stars, Progress, ended, at, retry, glob_step, glob_loop, match_glob,
}
use kv_store.Storage.Glob.Sound.{Matches, Found, FoundBy, glob_loop-Found}
use kv_store.Storage.Glob.Fuel.{match_glob-ends}
use kv_store.Storage.Glob.Begins.{NoStar, Matches-Begins, collapse, tail_of, behind}

-- What a state keeps: the tried match from the mark is the rest of a match now, also behind a star.
abbrev Kept : Bytes → Bytes → Option (Bytes × Bytes) → Type 0
Kept p s none = NoStar s
Kept p s (some (q, m)) =
    NoStar s
    × NoStar m
    × (Matches q m → Matches p s)
    × (Matches (star ∷ q) m → Matches (star ∷ p) s)

-- What a state that has not ended finds, the next one finds too.
Goes : Bytes → Bytes → Option (Bytes × Bytes) → Progress → Type 0
Goes p s back (ended b) = FoundBy p s back → b ≡ true
Goes p s back (at p' s' back') = (FoundBy p s back → FoundBy p' s' back') × Kept p' s' back'

retry-Goes :
    (p s : Bytes) (back : Option (Bytes × Bytes))
    → (Matches p s → ⊥)
    → Kept p s back
    → Goes p s back (retry back)
unfolding Goes
retry-Goes p s none fails k = λ h. elim h [ inl m ↦ absurd (fails m) | inr b ↦ absurd b ]
retry-Goes p s (some (q, [])) fails k = λ h. elim h [
  | inl m ↦ absurd (fails m)
  | inr b ↦ absurd (fails (k.2 (Matches-Begins (star ∷ q) [] b).1))
]
retry-Goes p s (some (q, x ∷ m)) fails k = (
  (λ h. elim h [
    | inl m ↦ absurd (fails m)
    | inr b ↦ elim (Matches-Begins (star ∷ q) (x ∷ m) b) [
      | inl (e, h) ↦ absurd (k.1.0 (sym e))
      | inr (e, inl h) ↦ absurd (fails (k.2 h))
      | inr (e, inr h) ↦ inr h
    ]
  ]),
  (k.1.1, k.1.1, (λ h. h), (λ h. h)),
)

same-Goes :
    (d : ℕ) (p s : Bytes) (back : Option (Bytes × Bytes))
    → d ≢ star
    → Kept (d ∷ p) (d ∷ s) back
    → Goes (d ∷ p) (d ∷ s) back (at p s back)
unfolding Goes
same-Goes d p s none n k =
    ((λ h. elim h [ inl m ↦ inl (tail_of d p d s n m) | inr b ↦ absurd b ]), k.1)
same-Goes d p s (some (q, m)) n k = (
  (λ h. elim h [ inl m ↦ inl (tail_of d p d s n m) | inr b ↦ inr b ]),
  (k.0.1, k.1, (λ h. tail_of d p d s n (k.2 h)), (λ h. behind d p d s n (k.3 h))),
)

star-Goes :
    (p s : Bytes) (back : Option (Bytes × Bytes))
    → Kept (star ∷ p) s back
    → Goes (star ∷ p) s back (at p s (some (p, s)))
unfolding Goes
star-Goes p s none k =
    ((λ h. elim h [ inl m ↦ inr m | inr b ↦ absurd b ]), (k, k, (λ h. h), (λ h. h)))
star-Goes p s (some (q, m)) k = (
  (λ h. elim h [ inl m ↦ inr m | inr b ↦ inr (collapse p s (k.3 b)) ]),
  (k.0, k.0, (λ h. h), (λ h. h)),
)

Matches-all_stars : (p : Bytes) → Matches p [] → all_stars p ≡ true
Matches-all_stars [] m = refl
Matches-all_stars (d ∷ p) m =
    let b = Matches-Begins (d ∷ p) [] m in let r = Matches-all_stars p b.1 in ground (arith, r, b.0)

end-Goes :
    (p : Bytes) (back : Option (Bytes × Bytes))
    → Kept p [] back
    → Goes p [] back (ended (all_stars p))
unfolding Goes
end-Goes p none k = λ h. elim h [ inl m ↦ Matches-all_stars p m | inr b ↦ absurd b ]
end-Goes p (some (q, m)) k = λ h. elim h [
  | inl m ↦ Matches-all_stars p m
  | inr b ↦ Matches-all_stars p (Matches-Begins (star ∷ p) [] (k.3 b)).1
]

Kept-NoStar : (p s : Bytes) (back : Option (Bytes × Bytes)) → Kept p s back → NoStar s
Kept-NoStar p s none k = k
Kept-NoStar p s (some (q, m)) k = k.0

glob_step-Goes :
    (p s : Bytes) (back : Option (Bytes × Bytes))
    → Kept p s back
    → Goes p s back (glob_step p s back)
unfolding glob_step
glob_step-Goes p [] back k = end-Goes p back k
glob_step-Goes [] (c ∷ s) back k = retry-Goes [] (c ∷ s) back (λ m. Matches-Begins [] (c ∷ s) m) k
glob_step-Goes (d ∷ p) (c ∷ s) back k = elim (Bool-cases (d == c)) [
  | inl e ↦
      let x : d ≡ c = ground arith in
      let n : d ≢ star =
        subst (λ (a : ℕ). a ≢ star) (sym x) (Kept-NoStar (d ∷ p) (c ∷ s) back k).0 in
      rw e (
        subst (λ (a : ℕ). Kept (d ∷ p) (a ∷ s) back → Goes (d ∷ p) (a ∷ s) back (at p s back)) x
          (same-Goes d p s back n) k)
  | inr e ↦ elim (Bool-cases (d == star)) [
    | inl f ↦
        let x : d ≡ star = ground arith in
        rw (e, f)
          (subst
            (λ (a : ℕ).
              Kept (a ∷ p) (c ∷ s) back
              → Goes (a ∷ p) (c ∷ s) back (at p (c ∷ s) (some (p, c ∷ s))))
            (sym x) (star-Goes p (c ∷ s) back) k)
    | inr f ↦
        let u : d ≢ c = λ (h : d ≡ c). ground arith in
        let v : d ≢ star = λ (h : d ≡ star). ground arith in
        rw (e, f)
          (retry-Goes (d ∷ p) (c ∷ s) back
            (λ m. elim (Matches-Begins (d ∷ p) (c ∷ s) m) [ inl (h, r) ↦ u h | inr (h, r) ↦ v h ])
            k)
  ]
]

abbrev Kept-at : Progress → Type 0
Kept-at (ended b) = Unit
Kept-at (at p s back) = Kept p s back

Goes-Found :
    (p s : Bytes) (back : Option (Bytes × Bytes)) (x : Progress)
    → Goes p s back x
    → FoundBy p s back
    → Found x × Kept-at x
unfolding Goes
Goes-Found p s back (ended b) g f = (g f, tt)
Goes-Found p s back (at p' s' back') g f = (g.0 f, g.1)

glob_loop-Goes :
    (fuel : ℕ) (x : Progress) (b : Bool)
    → Kept-at x
    → glob_loop fuel x ≡ some b
    → Found x
    → b ≡ true
unfolding glob_loop Goes
glob_loop-Goes fuel (ended a) b k e f = ground arith
glob_loop-Goes zero (at p s back) b k e f = absurd (ground arith)
glob_loop-Goes (suc fuel) (at p s back) b k e f =
    let r = Goes-Found p s back (glob_step p s back) (glob_step-Goes p s back k) f in
    glob_loop-Goes fuel (glob_step p s back) b r.1 e r.0

-- On a string without a star of its own, the match of a pattern with a byte at least ends within its fuel with an
-- answer, and the answer is true exactly when the string matches the pattern, where a star stands for any bytes and
-- any other byte for itself.
pub match_glob-decides :
    (d : ℕ) (p s : Bytes)
    → NoStar s
    → (b : Bool) × (match_glob (d ∷ p) s ≡ some b) × ((b ≡ true) ↔ Matches (d ∷ p) s)
unfolding match_glob
match_glob-decides d p s n =
    let fuel = (length s + 2) * (length (d ∷ p) + length s + 1) in
    let start = at (d ∷ p) s none in
    elim (Option-cases (glob_loop fuel start)) [
      | inl e ↦ absurd (match_glob-ends (d ∷ p) s e)
      | inr (b, e) ↦ (
        b,
        e,
        (
          (λ h. elim (glob_loop-Found fuel start (e ∙ ap some h)) [ inl m ↦ m | inr x ↦ absurd x ]),
          (λ m. glob_loop-Goes fuel start b n e (inl m)),
        ),
      )
    ]
