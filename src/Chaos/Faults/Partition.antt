-- ===== src/Chaos/Faults/Partition.antt =====
-- Which messages a partition drops (pkg/chaos/faults.go).
use kv_store.Common.{
  ◌≡◌, ◌∙◌, Bool, true, ◌&&◌, ◌||◌, List, [], ◌∷◌, Bytes, bytes_eq, bytes_eq_iff, if◌then◌else◌,
  arith, Bool-cases, inl, inr,
}
use kv_store.Chaos.Faults.{
  FaultConfig, is_in, differ, set_edge_drop, cut_from, cut_all, set_partition,
}

-- One round over a pair of nodes: the Boolean algebra, and the round.
cut_table :
    (e d d' ax by ay bx : Bool)
    → (ax && by ≡ true → d ≡ d')
    → (ay && bx ≡ true → d ≡ d')
    → (if d then (if bx && ay then true else if ax && by then true else e) else e)
      ≡ (e || (d' && ((ax && by) || (ay && bx))))
cut_table e d d' ax by ay bx h k = ground arith

module _ (subset : List Bytes) where
  -- The two nodes stand on different sides.
  abbrev pub apart : Bytes → Bytes → Bool
  apart x y = differ (is_in x subset) (is_in y subset)

  apart-same : (a b x y : Bytes) → bytes_eq a x && bytes_eq b y ≡ true → apart a b ≡ apart x y
  apart-same a b x y h =
      let p : a ≡ x = ground (arith, bytes_eq_iff a x) in
      let q : b ≡ y = ground (arith, bytes_eq_iff b y) in cc (p, q)

  apart-sym : (x y : Bytes) → apart x y ≡ apart y x
  apart-sym x y = ground arith

module _ {G F : Type 0} (subset : List Bytes) where
  cut_round :
      (a b : Bytes) (c : FaultConfig G F) (x y : Bytes)
      → (if apart subset a b then set_edge_drop (set_edge_drop c a b) b a else c).edge_drop x y ≡ (
          c.edge_drop x y
          || (apart subset x y
              && ((bytes_eq a x && bytes_eq b y) || (bytes_eq a y && bytes_eq b x))))
  unfolding set_edge_drop
  cut_round a b c x y =
      let table =
        cut_table (c.edge_drop x y) (apart subset a b) (apart subset x y) (bytes_eq a x)
          (bytes_eq b y) (bytes_eq a y) (bytes_eq b x) (apart-same subset a b x y)
          (λ h. apart-same subset a b y x h ∙ apart-sym subset y x) in
      elim (Bool-cases (apart subset a b)) [
        | inl cut ↦ rw cut (rw cut at table)
        | inr whole ↦ rw whole (rw whole at table)
      ]

  cut_from-edges :
      (a : Bytes) (l : List Bytes) (c : FaultConfig G F) (x y : Bytes)
      → (cut_from subset a l c).edge_drop x y ≡ (
          c.edge_drop x y
          || (apart subset x y && ((bytes_eq a x && is_in y l) || (bytes_eq a y && is_in x l))))
  unfolding cut_from
  cut_from-edges a [] c x y = ground arith
  cut_from-edges a (b ∷ l) c x y =
      let cut = if apart subset a b then set_edge_drop (set_edge_drop c a b) b a else c in
      ground (arith, cut_from-edges a l cut x y, cut_round a b c x y)

  cut_all-edges :
      (l all : List Bytes) (c : FaultConfig G F) (x y : Bytes)
      → (cut_all subset l all c).edge_drop x y ≡ (
          c.edge_drop x y
          || (apart subset x y && ((is_in x l && is_in y all) || (is_in y l && is_in x all))))
  unfolding cut_all
  cut_all-edges [] all c x y = ground arith
  cut_all-edges (a ∷ l) all c x y =
      ground (arith, cut_all-edges l all (cut_from subset a all c) x y, cut_from-edges a all c x y)

  -- A partition drops what was dropped, and every message between two of the nodes on different sides, in both
  -- directions, and no other.
  pub set_partition-edges :
      (all : List Bytes) (c : FaultConfig G F) (x y : Bytes)
      → (set_partition c subset all).edge_drop x y
        ≡ (c.edge_drop x y || (apart subset x y && (is_in x all && is_in y all)))
  unfolding set_partition
  set_partition-edges all c x y = ground (arith, cut_all-edges all all c x y)
