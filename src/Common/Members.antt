-- ===== src/Common/Members.antt =====
-- Lists of different names, and what two majorities of one list share.
use kv_store.Common.{
  ◌+◌, ◌≤◌, ◌<◌, ◌≡◌, ◌⊎◌, inl, inr, refl, Bool, true, false, ◌||◌, List, [], ◌∷◌, ◌++◌, Bytes,
  bytes_eq, bytes_eq_iff, length, length-append, if◌then◌else◌, arith, Bool-cases,
}

abbrev pub is_in : Bytes → List Bytes → Bool
is_in x [] = false
is_in x (y ∷ l) = bytes_eq y x || is_in x l

abbrev pub Distinct : List Bytes → Type 0
Distinct [] = Unit
Distinct (x ∷ l) = (is_in x l ≡ false) × Distinct l

abbrev pub Within : List Bytes → List Bytes → Type 0
Within l members = (x : Bytes) → is_in x l ≡ true → is_in x members ≡ true

remove : Bytes → List Bytes → List Bytes
remove x [] = []
remove x (y ∷ l) = let rest = remove x l in if bytes_eq y x then rest else y ∷ rest

is_in-remove :
    (x y : Bytes) (l : List Bytes) → bytes_eq x y ≡ false → is_in y (remove x l) ≡ is_in y l
unfolding remove
is_in-remove x y [] d = refl
is_in-remove x y (z ∷ l) d =
    ground (arith, is_in-remove x y l d, bytes_eq_iff z x, bytes_eq_iff z y, bytes_eq_iff x y)

length-remove : (x : Bytes) (l : List Bytes) → length (remove x l) ≤ length l
unfolding remove
length-remove x [] = omega arith
length-remove x (z ∷ l) = ground (arith, length-remove x l)

length-remove_in : (x : Bytes) (l : List Bytes) → is_in x l ≡ true → length (remove x l) < length l
unfolding remove
length-remove_in x [] h = absurd (ground arith)
length-remove_in x (z ∷ l) h = ground (arith, length-remove x l, length-remove_in x l)

-- A list of different members is not longer than the list of members.
length-Distinct :
    (l members : List Bytes) → Distinct l → Within l members → length l ≤ length members
length-Distinct [] members d w = omega arith
length-Distinct (x ∷ l) members d w =
    let here : is_in x members ≡ true = w x (ground (arith, bytes_eq_iff x x)) in
    let rest : Within l (remove x members) = λ y h.
      let different : bytes_eq x y ≡ false = ground (arith, bytes_eq_iff x y, d.0) in
      let there : is_in y members ≡ true = w y (ground arith) in
      ground (arith, is_in-remove x y members different) in
    let le = length-Distinct l (remove x members) d.1 rest in
    omega (arith, length-remove_in x members here)

is_in-append : (x : Bytes) (l k : List Bytes) → is_in x (l ++ k) ≡ (is_in x l || is_in x k)
is_in-append x [] k = refl
is_in-append x (y ∷ l) k = ground (arith, is_in-append x l k)

-- A common member, or the two lists together are different.
common :
    (l k : List Bytes)
    → Distinct l
    → Distinct k
    → ((x : Bytes) × (is_in x l ≡ true) × (is_in x k ≡ true)) ⊎ Distinct (l ++ k)
common [] k d e = inr e
common (y ∷ l) k d e = elim (Bool-cases (is_in y k)) [
  | inl here ↦ inl (y, ground (arith, bytes_eq_iff y y), here)
  | inr no_here ↦ elim (common l k d.1 e) [
    | inl (x, a, b) ↦ inl (x, ground arith, b)
    | inr apart ↦ inr (ground (arith, is_in-append y l k), apart)
  ]
]

-- Two lists of different members that are together longer than the list of members share one.
pub share :
    (members l k : List Bytes)
    → Distinct l
    → Distinct k
    → Within l members
    → Within k members
    → length members < length l + length k
    → (x : Bytes) × (is_in x l ≡ true) × (is_in x k ≡ true)
share members l k d e w v more = elim (common l k d e) [
  | inl x ↦ x
  | inr apart ↦
      let within : Within (l ++ k) members = λ x h. elim (Bool-cases (is_in x l)) [
        | inl a ↦ w x a
        | inr a ↦ v x (ground (arith, is_in-append x l k))
      ] in
      absurd (omega (arith, length-Distinct (l ++ k) members apart within, length-append l k))
]
