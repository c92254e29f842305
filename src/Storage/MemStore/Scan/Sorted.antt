-- ===== src/Storage/MemStore/Scan/Sorted.antt =====
-- Lists of pairs in the order of their keys (pkg/storage/memstore.go, the sort of Scan).
use mathlib.Core.Path.{subst}
use kv_store.Common.{
  ◌≡◌, inl, inr, refl, ap, sym, ◌∙◌, true, false, Option, none, some, List, [], ◌∷◌, Bytes,
  bytes_eq, bytes_eq_iff, bytes_eq_refl, bytes_lt, if◌then◌else◌, arith,
}
use kv_store.Common.Order.{bytes_lt_trans, bytes_lt_total, bytes_lt_eq_sym, bytes_lt_asym}
use kv_store.Storage.Engine.{KeyValue}
use kv_store.Storage.MemStore.Scan.{insert_sorted, sort_keys}

abbrev pub find : Bytes → List KeyValue → Option Bytes
find k [] = none
find k (x ∷ l) = if bytes_eq x.key k then some x.value else find k l

-- All keys are greater.
abbrev pub Above : Bytes → List KeyValue → Type 0
Above k [] = Unit
Above k (x ∷ l) = (bytes_lt k x.key ≡ true) × Above k l

abbrev pub IsAscending : List KeyValue → Type 0
IsAscending [] = Unit
IsAscending (x ∷ l) = Above x.key l × IsAscending l

abbrev pub NoTwice : List KeyValue → Type 0
NoTwice [] = Unit
NoTwice (x ∷ l) = (find x.key l ≡ none) × NoTwice l

Above-weaken : (j k : Bytes) (l : List KeyValue) → bytes_lt j k ≡ true → Above k l → Above j l
Above-weaken j k [] h a = tt
Above-weaken j k (x ∷ l) h a = (bytes_lt_trans j k x.key h a.0, Above-weaken j k l h a.1)

pub find-Above : (k : Bytes) (l : List KeyValue) → Above k l → find k l ≡ none
find-Above k [] a = refl
find-Above k (x ∷ l) a = ground (arith, bytes_lt_eq_sym k x.key a.0, find-Above k l a.1)

-- A key that is not greater than the bound is not there.
pub find-below :
    (j k : Bytes) (l : List KeyValue) → bytes_lt k j ≡ false → Above k l → find j l ≡ none
find-below j k [] h a = refl
find-below j k (x ∷ l) h a = ground (arith, bytes_eq_iff x.key j, find-below j k l h a.1)

pub find-insert :
    (k : Bytes) (x : KeyValue) (l : List KeyValue)
    → find x.key l ≡ none
    → find k (insert_sorted x l) ≡ (if bytes_eq x.key k then some x.value else find k l)
unfolding insert_sorted
find-insert k x [] h = refl
find-insert k x (y ∷ l) h =
    ground (
      arith,
      bytes_eq_iff x.key k,
      bytes_eq_iff y.key k,
      bytes_eq_iff y.key x.key,
      find-insert k x l,
    )

pub find-sort : (k : Bytes) (l : List KeyValue) → NoTwice l → find k (sort_keys l) ≡ find k l
unfolding sort_keys
find-sort k [] u = refl
find-sort k (x ∷ l) u =
    find-insert k x (sort_keys l) (find-sort x.key l u.1 ∙ u.0)
    ∙ ap (λ (r : Option Bytes). if bytes_eq x.key k then some x.value else r) (find-sort k l u.1)

Above-insert :
    (k : Bytes) (x : KeyValue) (l : List KeyValue)
    → bytes_lt k x.key ≡ true
    → Above k l
    → Above k (insert_sorted x l)
unfolding insert_sorted
Above-insert k x [] h a = (h, tt)
Above-insert k x (y ∷ l) h a = ground (arith, Above-insert k x l h a.1)

insert-IsAscending :
    (x : KeyValue) (l : List KeyValue)
    → find x.key l ≡ none
    → IsAscending l
    → IsAscending (insert_sorted x l)
unfolding insert_sorted
insert-IsAscending x [] h a = (tt, tt)
insert-IsAscending x (y ∷ l) h a = elim (bytes_lt_total x.key y.key) [
  | inl lt ↦ rw lt (((lt, Above-weaken x.key y.key l lt a.0), a))
  | inr (inl e) ↦ absurd (ground (arith, bytes_eq_iff y.key x.key))
  | inr (inr lt) ↦
      let rest : find x.key l ≡ none = ground arith in
      rw (bytes_lt_asym y.key x.key lt)
        ((Above-insert y.key x l lt a.0, insert-IsAscending x l rest a.1))
]

pub sort-IsAscending : (l : List KeyValue) → NoTwice l → IsAscending (sort_keys l)
unfolding sort_keys
sort-IsAscending [] u = tt
sort-IsAscending (x ∷ l) u =
    insert-IsAscending x (sort_keys l) (find-sort x.key l u.1 ∙ u.0) (sort-IsAscending l u.1)

-- An ascending list is known by what it holds.
missing : (x : KeyValue) (l : List KeyValue) → ((k : Bytes) → find k (x ∷ l) ≡ find k []) → ⊥
missing x l h = ground (arith, h x.key, bytes_eq_refl x.key)

same_head :
    (x y : KeyValue) (l l' : List KeyValue)
    → IsAscending (x ∷ l)
    → IsAscending (y ∷ l')
    → ((k : Bytes) → find k (x ∷ l) ≡ find k (y ∷ l'))
    → x ≡ y
same_head x y l l' a b h = elim (bytes_lt_total x.key y.key) [
  | inl lt ↦ absurd (
      ground (
        arith,
        h x.key,
        bytes_eq_refl x.key,
        find-Above x.key (y ∷ l') (lt, Above-weaken x.key y.key l' lt b.0),
      ))
  | inr (inl e) ↦
      let v : x.value ≡ y.value =
        ground (arith, h x.key, bytes_eq_refl x.key, bytes_eq_iff y.key x.key) in
      cc (e, v)
  | inr (inr lt) ↦ absurd (
      ground (
        arith,
        h y.key,
        bytes_eq_refl y.key,
        find-Above y.key (x ∷ l) (lt, Above-weaken y.key x.key l lt a.0),
      ))
]

same_tail :
    (x : KeyValue) (l l' : List KeyValue) (k : Bytes)
    → Above x.key l
    → Above x.key l'
    → find k (x ∷ l) ≡ find k (x ∷ l')
    → find k l ≡ find k l'
same_tail x l l' k a b h =
    ground (arith, bytes_eq_iff x.key k, find-Above x.key l a, find-Above x.key l' b)

pub IsAscending-unique :
    (l l' : List KeyValue)
    → IsAscending l
    → IsAscending l'
    → ((k : Bytes) → find k l ≡ find k l')
    → l ≡ l'
IsAscending-unique [] [] a b h = refl
IsAscending-unique [] (y ∷ l') a b h = absurd (missing y l' (λ k. sym (h k)))
IsAscending-unique (x ∷ l) [] a b h = absurd (missing x l h)
IsAscending-unique (x ∷ l) (y ∷ l') a b h =
    let e = same_head x y l l' a b h in
    let b' : Above x.key l' = subst (λ (z : KeyValue). Above z.key l') (sym e) b.0 in
    let h' = λ (k : Bytes).
      same_tail x l l' k a.0 b' (h k ∙ ap (λ (z : KeyValue). find k (z ∷ l')) (sym e)) in
    ap (λ r. x ∷ r) (IsAscending-unique l l' a.1 b.1 h') ∙ ap (λ (z : KeyValue). z ∷ l') e
