-- ===== src/Chaos/Faults/Quiet.antt =====
-- When no fault is in force, and what a reordering leaves (pkg/chaos/faults.go, cluster.go).
use kv_store.Common.{◌-◌, ℕ, ◌+◌, ◌≡◌, ◌≤◌, refl, true, false, Option, List, Bytes, ltb, arith}
use kv_store.Chaos.Faults.{
  Rng, Fault, FaultConfig, Kind, reordering, route, set_reorder, apply_fault, clear_fault,
}

-- No fault is in force.
pub record IsQuiet {G F : Type 0} (r : Rng G F) (c : FaultConfig G F) : Type 0 where
  pub none_isolated : (x : Bytes) → c.isolated x ≡ false
  pub no_drop : (x y : Bytes) → c.edge_drop x y ≡ false
  pub no_loss : c.loss_rate ≡ r.no_rate
  pub no_dup : c.dup_rate ≡ r.no_rate
  pub no_reorder : c.reorder ≡ r.no_rate
  pub no_delay : (c.delay_min ≡ 0) × (c.delay_max ≡ 0)
  pub no_skew : (x : Bytes) → c.skew x ≡ 0
  pub no_failure : (x : Bytes) → c.fail_fsync x ≡ false

-- With no fault in force every message is delivered at once, and nothing is drawn.
quiet-route :
    {G F : Type 0} (r : Rng G F) (c : FaultConfig G F) (from to : Bytes)
    → r.is_positive r.no_rate ≡ false
    → IsQuiet r c
    → ((route r c from to).1 ≡ false)
      × ((route r c from to).2 ≡ 0)
      × ((route r c from to).0.rng ≡ c.rng)
unfolding route
quiet-route r c from to z q =
    rw
      (
        q.none_isolated from,
        q.none_isolated to,
        q.no_drop from to,
        q.no_loss,
        z,
        q.no_reorder,
        z,
        q.no_delay.0,
        q.no_delay.1,
        q.no_skew from,
      )
      (refl, refl, refl)

-- The fault of a kind.
abbrev pub fault_of : {F : Type 0} → Kind → Bytes → Bytes → F → ℕ → Fault F
fault_of k target peer rate delay = record {
  kind = k;
  target = target;
  peer = peer;
  rate = rate;
  delay = delay;
}

module _ {G F : Type 0} where
  abbrev pub apply_and_clear :
      Rng G F → Option Bytes → List Bytes → Fault F → FaultConfig G F → FaultConfig G F
  apply_and_clear r leader ids f c = clear_fault r f (apply_fault leader ids f c)

  -- What is left after a reordering.
  delayed : Rng G F → ℕ → FaultConfig G F → FaultConfig G F
  delayed r d c = record c { reorder = r.no_rate; delay_max = d }

  route-delayed :
      (r : Rng G F) (d : ℕ) (c : FaultConfig G F) (from to : Bytes)
      → 1 ≤ d
      → r.is_positive r.no_rate ≡ false
      → IsQuiet r c
      → ((route r (delayed r d c) from to).1 ≡ false)
        × ((route r (delayed r d c) from to).2 ≡ (r.int_n d c.rng).1)
  unfolding route delayed
  route-delayed r d c from to le z q =
      let more : ltb 0 d ≡ true = ground arith in
      let whole : d - 0 ≡ d = omega arith in
      let e : 0 + (r.int_n d c.rng).1 + 0 ≡ (r.int_n d c.rng).1 = omega arith in
      rw
        (
          q.none_isolated from,
          q.none_isolated to,
          q.no_drop from to,
          q.no_loss,
          z,
          q.no_delay.0,
          q.no_skew from,
          more,
          whole,
        )
        (refl, e)

  apply_and_clear-reordering :
      (r : Rng G F) (leader : Option Bytes) (ids : List Bytes) (target peer : Bytes) (rate : F)
      (d : ℕ) (c : FaultConfig G F)
      → 1 ≤ d
      → apply_and_clear r leader ids (fault_of reordering target peer rate d) c ≡ delayed r d c
  unfolding apply_fault clear_fault set_reorder delayed
  apply_and_clear-reordering r leader ids target peer rate d c le =
      let more : ltb 0 d ≡ true = ground arith in rw more refl

  -- A reordering with a jitter that is applied with no other fault in force, and cleared, goes on to delay: every
  -- message is still delivered after a time that is drawn below the jitter.
  pub reordering_stays :
      (r : Rng G F) (leader : Option Bytes) (ids : List Bytes) (target peer : Bytes) (rate : F)
      (d : ℕ) (c : FaultConfig G F) (from to : Bytes)
      → 1 ≤ d
      → r.is_positive r.no_rate ≡ false
      → IsQuiet r c
      → ((route r
            (apply_and_clear r leader ids (fault_of reordering target peer rate d) c)
            from
            to).1
          ≡ false)
        × ((route r
              (apply_and_clear r leader ids (fault_of reordering target peer rate d) c)
              from
              to).2
            ≡ (r.int_n d c.rng).1)
  reordering_stays r leader ids target peer rate d c from to le z q =
      rw (apply_and_clear-reordering r leader ids target peer rate d c le)
        (route-delayed r d c from to le z q)
