-- ===== src/Raft/Commit/Sort.antt =====
-- `sort.Ints` as an insertion sort, and how many values of a list reach a bound.
use kv_store.Common.{
  ℕ, zero, suc, ◌+◌, ◌≤◌, ◌<◌, ◌≡◌, refl, some, List, [], ◌∷◌, length, get_elem?, leb,
  if◌then◌else◌, arith, Bool-cases, leb→le, leb→lt, inl, inr,
}

insert_sorted : ℕ → List ℕ → List ℕ
insert_sorted x [] = x ∷ []
insert_sorted x (y ∷ ys) = if leb x y then x ∷ y ∷ ys else y ∷ insert_sorted x ys

unfoldable pub sort_ints : List ℕ → List ℕ
unfolding insert_sorted
sort_ints [] = []
sort_ints (x ∷ xs) = insert_sorted x (sort_ints xs)

-- How many values are at least `v`.
pub count_reaching : ℕ → List ℕ → ℕ
count_reaching v [] = 0
count_reaching v (x ∷ xs) = (if leb v x then 1 else 0) + count_reaching v xs

abbrev AllFrom : ℕ → List ℕ → Type 0
AllFrom a [] = Unit
AllFrom a (x ∷ xs) = (a ≤ x) × AllFrom a xs

abbrev IsSorted : List ℕ → Type 0
IsSorted [] = Unit
IsSorted (x ∷ xs) = AllFrom x xs × IsSorted xs

AllFrom-le : (a b : ℕ) (xs : List ℕ) → a ≤ b → AllFrom b xs → AllFrom a xs
AllFrom-le a b [] le h = tt
AllFrom-le a b (x ∷ xs) le h = (omega arith, AllFrom-le a b xs le h.1)

insert-AllFrom : (a x : ℕ) (xs : List ℕ) → a ≤ x → AllFrom a xs → AllFrom a (insert_sorted x xs)
unfolding insert_sorted
insert-AllFrom a x [] le h = (le, tt)
insert-AllFrom a x (y ∷ ys) le h = ground (arith, insert-AllFrom a x ys le h.1)

insert-IsSorted : (x : ℕ) (xs : List ℕ) → IsSorted xs → IsSorted (insert_sorted x xs)
unfolding insert_sorted
insert-IsSorted x [] s = (tt, tt)
insert-IsSorted x (y ∷ ys) s = elim (Bool-cases (leb x y)) [
  | inl le ↦ rw le (((leb→le x y le), AllFrom-le x y ys (leb→le x y le) s.0), s)
  | inr gt ↦
      rw gt (insert-AllFrom y x ys (omega (arith, leb→lt x y gt)) s.0, insert-IsSorted x ys s.1)
]

pub sort-IsSorted : (xs : List ℕ) → IsSorted (sort_ints xs)
unfolding sort_ints
sort-IsSorted [] = tt
sort-IsSorted (x ∷ xs) = insert-IsSorted x (sort_ints xs) (sort-IsSorted xs)

count-insert :
    (v x : ℕ) (xs : List ℕ) → count_reaching v (insert_sorted x xs) ≡ count_reaching v (x ∷ xs)
unfolding insert_sorted count_reaching
count-insert v x [] = refl
count-insert v x (y ∷ ys) = ground (arith, count-insert v x ys)

pub count-sort : (v : ℕ) (xs : List ℕ) → count_reaching v (sort_ints xs) ≡ count_reaching v xs
unfolding sort_ints count_reaching
count-sort v [] = refl
count-sort v (x ∷ xs) = ground (arith, count-insert v x (sort_ints xs), count-sort v xs)

length-insert : (x : ℕ) (xs : List ℕ) → length (insert_sorted x xs) ≡ suc (length xs)
unfolding insert_sorted
length-insert x [] = refl
length-insert x (y ∷ ys) = ground (arith, length-insert x ys)

pub length-sort : (xs : List ℕ) → length (sort_ints xs) ≡ length xs
unfolding sort_ints
length-sort [] = refl
length-sort (x ∷ xs) = ground (arith, length-insert x (sort_ints xs), length-sort xs)

count-AllFrom : (a : ℕ) (xs : List ℕ) → AllFrom a xs → count_reaching a xs ≡ length xs
unfolding count_reaching
count-AllFrom a [] h = refl
count-AllFrom a (x ∷ xs) h = ground (arith, count-AllFrom a xs h.1)

count-le-length : (a : ℕ) (xs : List ℕ) → count_reaching a xs ≤ length xs
unfolding count_reaching
count-le-length a [] = omega arith
count-le-length a (x ∷ xs) = ground (arith, count-le-length a xs)

-- In ascending order, the value at position `i` is reached by all from there on.
pub count-sorted_ge :
    (xs : List ℕ) (i v : ℕ)
    → IsSorted xs
    → get_elem? xs i ≡ some v
    → length xs ≤ count_reaching v xs + i
unfolding count_reaching
count-sorted_ge [] i v s e = omega arith
count-sorted_ge (x ∷ xs) zero v s e = ground (arith, count-AllFrom x xs s.0)
count-sorted_ge (x ∷ xs) (suc i) v s e = ground (arith, count-sorted_ge xs i v s.1 e)

AllFrom-get : (a : ℕ) (xs : List ℕ) (i v : ℕ) → AllFrom a xs → get_elem? xs i ≡ some v → a ≤ v
AllFrom-get a [] i v h e = ground arith
AllFrom-get a (x ∷ xs) zero v h e = ground arith
AllFrom-get a (x ∷ xs) (suc i) v h e = AllFrom-get a xs i v h.1 e

-- A greater value is reached only behind it.
pub count-sorted_lt :
    (xs : List ℕ) (i v w : ℕ)
    → IsSorted xs
    → get_elem? xs i ≡ some v
    → v < w
    → count_reaching w xs + suc i ≤ length xs
unfolding count_reaching
count-sorted_lt [] i v w s e lt = ground arith
count-sorted_lt (x ∷ xs) zero v w s e lt = ground (arith, count-le-length w xs)
count-sorted_lt (x ∷ xs) (suc i) v w s e lt =
    ground (arith, count-sorted_lt xs i v w s.1 e lt, AllFrom-get x xs i v s.0 e)
