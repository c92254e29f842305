-- ===== src/Storage/Glob.antt =====
-- `matchGlob` of pkg/storage/fake.go, which Scan uses: the iterative match with the position of the last star.
-- The indexes of the source are suffixes here: what is left of pattern and string, and, once a star was met, the
-- pattern behind it and the string from its mark.
pub mod Sound
pub mod Fuel
pub mod Begins
pub mod Exact
use kv_store.Common.{
  ℕ, zero, suc, ◌+◌, ◌*◌, Bool, true, false, ◌&&◌, Option, none, some, List, [], ◌∷◌, Bytes, length,
  ◌==◌, if◌then◌else◌,
}

abbrev pub star : ℕ
star = b'*'

abbrev pub all_stars : Bytes → Bool
all_stars [] = true
all_stars (d ∷ p) = (d == star) && all_stars p

-- One step goes on or ends.
pub data Progress : Type 0 where
  ended : Bool → Progress
  at : Bytes → Bytes → Option (Bytes × Bytes) → Progress

abbrev pub retry : Option (Bytes × Bytes) → Progress
retry none = ended false
retry (some (q, [])) = ended false
retry (some (q, x ∷ m)) = at q m (some (q, m))

unfoldable pub glob_step : Bytes → Bytes → Option (Bytes × Bytes) → Progress
glob_step p [] back = ended (all_stars p)
glob_step [] (c ∷ s) back = retry back
glob_step (d ∷ p) (c ∷ s) back =
    if d == c then at p s back else if d == star then at p (c ∷ s) (some (p, c ∷ s)) else retry back

unfoldable pub glob_loop : ℕ → Progress → Option Bool
glob_loop fuel (ended b) = some b
glob_loop zero (at p s back) = none
glob_loop (suc fuel) (at p s back) = glob_loop fuel (glob_step p s back)

-- The fuel is a bound on the steps.
unfoldable pub match_glob : Bytes → Bytes → Option Bool
match_glob [] s = some true
match_glob (d ∷ p) s =
    glob_loop ((length s + 2) * (length (d ∷ p) + length s + 1)) (at (d ∷ p) s none)
