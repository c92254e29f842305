-- ===== src/Chaos/Faults.antt =====
-- pkg/chaos/faults.go, and the faults of a schedule in cluster.go: the state that every faulty transport asks. The
-- random source and the type of its fractions are a parameter; durations are nanoseconds that are not negative.
pub mod Partition
pub mod Quiet
pub mod Cleared
use kv_store.Common.{
  ℕ, zero, suc, ◌+◌, ◌-◌, ◌/◌, Bool, true, false, not, ◌&&◌, ◌||◌, Option, none, some, List, [],
  ◌∷◌, Bytes, bytes_eq, length, take, ltb, if◌then◌else◌,
}

-- `*rand.Rand` and the tests on its fractions.
pub record Rng (G F : Type 0) : Type 0 where
  pub float : G → G × F
  pub int_n : ℕ → G → G × ℕ
  pub less : F → F → Bool
  pub is_positive : F → Bool
  pub no_rate : F

pub data Kind : Type 0 where
  crash leader_isolation minority_partition majority_partition asymmetric_partition packet_loss
        duplication :
      Kind
  reordering constant_delay clock_skew fs_error : Kind

pub record Fault (F : Type 0) : Type 0 where
  pub kind : Kind
  pub target : Bytes
  pub peer : Bytes
  pub rate : F
  pub delay : ℕ

-- A map reads as its zero value where a key is missing.
pub record FaultConfig (G F : Type 0) : Type 0 where
  pub rng : G
  pub isolated : Bytes → Bool
  pub edge_drop : Bytes → Bytes → Bool
  pub loss_rate : F
  pub dup_rate : F
  pub reorder : F
  pub delay_min : ℕ
  pub delay_max : ℕ
  pub skew : Bytes → ℕ
  pub fail_fsync : Bytes → Bool

abbrev pub set_at {ℓ} : {A : Type ℓ} → Bytes → A → (Bytes → A) → Bytes → A
set_at k v m j = if bytes_eq k j then v else m j

abbrev pub is_in : Bytes → List Bytes → Bool
is_in x [] = false
is_in x (y ∷ l) = bytes_eq y x || is_in x l

abbrev pub differ : Bool → Bool → Bool
differ true b = not b
differ false b = b

-- One hundred milliseconds.
abbrev pub default_jitter : ℕ
default_jitter = 100000000

module _ {G F : Type 0} (r : Rng G F) where
  unfoldable pub new_fault_config : G → FaultConfig G F
  new_fault_config g = record {
    rng = g;
    isolated = λ _. false;
    edge_drop = λ _ _. false;
    loss_rate = r.no_rate;
    dup_rate = r.no_rate;
    reorder = r.no_rate;
    delay_min = 0;
    delay_max = 0;
    skew = λ _. 0;
    fail_fsync = λ _. false;
  }

  -- A draw against a rate: none is made for a rate that is not positive.
  abbrev pub draw : F → G → G × Bool
  draw rate g =
      let (g', x) = r.float g in if r.is_positive rate then (g', r.less x rate) else (g, false)

  abbrev pub base_latency : FaultConfig G F → G → G × ℕ
  base_latency c g =
      let (g', x) = r.int_n (c.delay_max - c.delay_min) g in
      if ltb c.delay_min c.delay_max then (g', c.delay_min + x) else (g, c.delay_min)

  abbrev pub jitter_of : FaultConfig G F → ℕ
  jitter_of c = if ltb default_jitter c.delay_max then c.delay_max else default_jitter

  abbrev pub jittered : FaultConfig G F → G → ℕ → G × ℕ
  jittered c g latency =
      let (g', hit) = draw c.reorder g in
      let (g'', x) = r.int_n (jitter_of c) g' in if hit then (g'', latency + x) else (g', latency)

  abbrev pub delivered : FaultConfig G F → Bytes → G → FaultConfig G F × Bool × ℕ
  delivered c from g =
      let (g', latency) = base_latency c g in
      let (g'', total) = jittered c g' (latency + c.skew from) in
      (record c { rng = g'' }, false, total)

  -- The new state, whether the message is dropped, and its latency.
  unfoldable pub route : FaultConfig G F → Bytes → Bytes → FaultConfig G F × Bool × ℕ
  route c from to =
      let (g, lost) = draw c.loss_rate c.rng in
      if c.isolated from || c.isolated to
      then (c, true, 0)
      else if c.edge_drop from to
      then (c, true, 0)
      else if lost
      then (record c { rng = g }, true, 0)
      else delivered c from g

  unfoldable pub should_duplicate : FaultConfig G F → FaultConfig G F × Bool
  should_duplicate c = let (g, hit) = draw c.dup_rate c.rng in (record c { rng = g }, hit)

  unfoldable pub fsync_fails : FaultConfig G F → Bytes → Bool
  fsync_fails c id = c.fail_fsync [] || c.fail_fsync id

module _ {G F : Type 0} where
  unfoldable pub set_edge_drop : FaultConfig G F → Bytes → Bytes → FaultConfig G F
  set_edge_drop c from to = record c {
    edge_drop = λ x y. if bytes_eq from x && bytes_eq to y then true else c.edge_drop x y;
  }

  unfoldable pub clear_edge_drop : FaultConfig G F → Bytes → Bytes → FaultConfig G F
  clear_edge_drop c from to = record c {
    edge_drop = λ x y. if bytes_eq from x && bytes_eq to y then false else c.edge_drop x y;
  }

  -- The inner loop, and the outer.
  unfoldable pub cut_from : List Bytes → Bytes → List Bytes → FaultConfig G F → FaultConfig G F
  cut_from subset a [] c = c
  cut_from subset a (b ∷ rest) c =
      let cut = set_edge_drop (set_edge_drop c a b) b a in
      cut_from subset a rest (if differ (is_in a subset) (is_in b subset) then cut else c)

  unfoldable pub cut_all : List Bytes → List Bytes → List Bytes → FaultConfig G F → FaultConfig G F
  cut_all subset [] all c = c
  cut_all subset (a ∷ rest) all c = cut_all subset rest all (cut_from subset a all c)

  unfoldable pub set_partition : FaultConfig G F → (subset all : List Bytes) → FaultConfig G F
  set_partition c subset all = cut_all subset all all c

  unfoldable pub clear_partition : FaultConfig G F → FaultConfig G F
  clear_partition c = record c { edge_drop = λ _ _. false }

  unfoldable pub set_reorder : FaultConfig G F → F → ℕ → FaultConfig G F
  set_reorder c rate jitter =
      let c' : FaultConfig G F = record c { reorder = rate } in
      if ltb 0 jitter then record c' { delay_max = jitter } else c'

  abbrev pub set_delay : FaultConfig G F → ℕ → FaultConfig G F
  set_delay c d = record c { delay_min = d; delay_max = d }

  -- `applyFault` on this state: a crash stops a node and leaves it. `leader` is the leader's id, if there is one.
  unfoldable pub apply_fault :
      Option Bytes → List Bytes → Fault F → FaultConfig G F → FaultConfig G F
  apply_fault leader ids f c = elim f.kind [
    | crash ↦ c
    | leader_isolation ↦ elim leader [ none ↦ c | some id ↦ set_partition c (id ∷ []) ids ]
    | minority_partition ↦ set_partition c (take (length ids / 2) ids) ids
    | majority_partition ↦ set_partition c (take ((length ids + 1) / 2) ids) ids
    | asymmetric_partition ↦ set_edge_drop c f.target f.peer
    | packet_loss ↦ record c { loss_rate = f.rate }
    | duplication ↦ record c { dup_rate = f.rate }
    | reordering ↦ set_reorder c f.rate f.delay
    | constant_delay ↦ set_delay c f.delay
    | clock_skew ↦ record c { skew = set_at f.target f.delay c.skew }
    | fs_error ↦ record c { fail_fsync = set_at f.target true c.fail_fsync }
  ]

  -- `clearFault`.
  unfoldable pub clear_fault : Rng G F → Fault F → FaultConfig G F → FaultConfig G F
  clear_fault r f c = elim f.kind [
    | crash ↦ c
    | leader_isolation ↦ clear_partition c
    | minority_partition ↦ clear_partition c
    | majority_partition ↦ clear_partition c
    | asymmetric_partition ↦ clear_edge_drop c f.target f.peer
    | packet_loss ↦ record c { loss_rate = r.no_rate }
    | duplication ↦ record c { dup_rate = r.no_rate }
    | reordering ↦ set_reorder c r.no_rate 0
    | constant_delay ↦ set_delay c 0
    | clock_skew ↦ record c { skew = set_at f.target 0 c.skew }
    | fs_error ↦ record c { fail_fsync = set_at f.target false c.fail_fsync }
  ]
