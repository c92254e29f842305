-- ===== src/Chaos/Faults/Cleared.antt =====
-- Faults that are applied and cleared again (pkg/chaos/faults.go, cluster.go).
use mathlib.Core.Path.{subst}
use kv_store.Common.{
  length, take, sym, ℕ, ◌+◌, ◌/◌, ◌≡◌, ◌≢◌, refl, ◌∙◌, Option, none, some, List, [], ◌∷◌, Bytes,
  if◌then◌else◌, arith, Bool-cases, inl, inr,
}
use kv_store.Chaos.Faults.{
  Rng, FaultConfig, Kind, crash, leader_isolation, minority_partition, majority_partition,
  asymmetric_partition, packet_loss, duplication, reordering, constant_delay, clock_skew, fs_error,
  set_edge_drop, clear_edge_drop, cut_from, cut_all, set_partition, clear_partition, apply_fault,
  clear_fault,
}
use kv_store.Chaos.Faults.Partition.{apart}
use kv_store.Chaos.Faults.Quiet.{IsQuiet, fault_of, apply_and_clear}

module _ {G F : Type 0} where
  cut_from-clear :
      (subset : List Bytes) (a : Bytes) (l : List Bytes) (c : FaultConfig G F)
      → clear_partition (cut_from subset a l c) ≡ clear_partition c
  unfolding cut_from clear_partition set_edge_drop
  cut_from-clear subset a [] c = refl
  cut_from-clear subset a (b ∷ l) c =
      let cut = if apart subset a b then set_edge_drop (set_edge_drop c a b) b a else c in
      cut_from-clear subset a l cut
      ∙ elim (Bool-cases (apart subset a b)) [ inl h ↦ rw h refl | inr h ↦ rw h refl ]

  cut_all-clear :
      (subset l all : List Bytes) (c : FaultConfig G F)
      → clear_partition (cut_all subset l all c) ≡ clear_partition c
  unfolding cut_all
  cut_all-clear subset [] all c = refl
  cut_all-clear subset (a ∷ l) all c =
      cut_all-clear subset l all (cut_from subset a all c) ∙ cut_from-clear subset a all c

  clear-set_partition :
      (subset all : List Bytes) (c : FaultConfig G F)
      → clear_partition (set_partition c subset all) ≡ clear_partition c
  unfolding set_partition
  clear-set_partition subset all c = cut_all-clear subset all all c

  clear-IsQuiet : (r : Rng G F) (c : FaultConfig G F) → IsQuiet r c → IsQuiet r (clear_partition c)
  unfolding clear_partition
  clear-IsQuiet r c q = record {
    none_isolated = q.none_isolated;
    no_drop = λ x y. refl;
    no_loss = q.no_loss;
    no_dup = q.no_dup;
    no_reorder = q.no_reorder;
    no_delay = q.no_delay;
    no_skew = q.no_skew;
    no_failure = q.no_failure;
  }

  partition-IsQuiet :
      (r : Rng G F) (subset all : List Bytes) (c : FaultConfig G F)
      → IsQuiet r c
      → IsQuiet r (clear_partition (set_partition c subset all))
  partition-IsQuiet r subset all c q =
      subst (IsQuiet r) (sym (clear-set_partition subset all c)) (clear-IsQuiet r c q)

  -- A fault of any kind but reordering that is applied with no other in force, and cleared, leaves none in force.
  pub apply_and_clear-IsQuiet :
      (r : Rng G F) (leader : Option Bytes) (ids : List Bytes) (k : Kind) (target peer : Bytes)
      (rate : F) (delay : ℕ) (c : FaultConfig G F)
      → k ≢ reordering
      → IsQuiet r c
      → IsQuiet r (apply_and_clear r leader ids (fault_of k target peer rate delay) c)
  unfolding apply_fault clear_fault set_edge_drop clear_edge_drop
  apply_and_clear-IsQuiet r leader ids crash target peer rate delay c n q = q
  apply_and_clear-IsQuiet r none ids leader_isolation target peer rate delay c n q =
      clear-IsQuiet r c q
  apply_and_clear-IsQuiet r (some id) ids leader_isolation target peer rate delay c n q =
      partition-IsQuiet r (id ∷ []) ids c q
  apply_and_clear-IsQuiet r leader ids minority_partition target peer rate delay c n q =
      partition-IsQuiet r (take (length ids / 2) ids) ids c q
  apply_and_clear-IsQuiet r leader ids majority_partition target peer rate delay c n q =
      partition-IsQuiet r (take ((length ids + 1) / 2) ids) ids c q
  apply_and_clear-IsQuiet r leader ids asymmetric_partition target peer rate delay c n q = record {
    none_isolated = q.none_isolated;
    no_drop = λ x y. ground (arith, q.no_drop x y);
    no_loss = q.no_loss;
    no_dup = q.no_dup;
    no_reorder = q.no_reorder;
    no_delay = q.no_delay;
    no_skew = q.no_skew;
    no_failure = q.no_failure;
  }
  apply_and_clear-IsQuiet r leader ids packet_loss target peer rate delay c n q = record {
    none_isolated = q.none_isolated;
    no_drop = q.no_drop;
    no_loss = refl;
    no_dup = q.no_dup;
    no_reorder = q.no_reorder;
    no_delay = q.no_delay;
    no_skew = q.no_skew;
    no_failure = q.no_failure;
  }
  apply_and_clear-IsQuiet r leader ids duplication target peer rate delay c n q = record {
    none_isolated = q.none_isolated;
    no_drop = q.no_drop;
    no_loss = q.no_loss;
    no_dup = refl;
    no_reorder = q.no_reorder;
    no_delay = q.no_delay;
    no_skew = q.no_skew;
    no_failure = q.no_failure;
  }
  apply_and_clear-IsQuiet r leader ids reordering target peer rate delay c n q = absurd (n refl)
  apply_and_clear-IsQuiet r leader ids constant_delay target peer rate delay c n q = record {
    none_isolated = q.none_isolated;
    no_drop = q.no_drop;
    no_loss = q.no_loss;
    no_dup = q.no_dup;
    no_reorder = q.no_reorder;
    no_delay = (refl, refl);
    no_skew = q.no_skew;
    no_failure = q.no_failure;
  }
  apply_and_clear-IsQuiet r leader ids clock_skew target peer rate delay c n q = record {
    none_isolated = q.none_isolated;
    no_drop = q.no_drop;
    no_loss = q.no_loss;
    no_dup = q.no_dup;
    no_reorder = q.no_reorder;
    no_delay = q.no_delay;
    no_skew = λ x. ground (arith, q.no_skew x);
    no_failure = q.no_failure;
  }
  apply_and_clear-IsQuiet r leader ids fs_error target peer rate delay c n q = record {
    none_isolated = q.none_isolated;
    no_drop = q.no_drop;
    no_loss = q.no_loss;
    no_dup = q.no_dup;
    no_reorder = q.no_reorder;
    no_delay = q.no_delay;
    no_skew = q.no_skew;
    no_failure = λ x. ground (arith, q.no_failure x);
  }
