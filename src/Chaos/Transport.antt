-- ===== src/Chaos/Transport.antt =====
-- pkg/chaos/transport.go: the faulty transport and the faulty raft store of one node. The three calls of the transport
-- are the same code over their request and response types; an error is an absent response.
pub mod Delivery
use kv_store.Common.{ℕ, ◌<◌, Bool, true, false, Option, none, some, Bytes, ltb, if◌then◌else◌}
use kv_store.Raft.Persistence.{SaveOutcome, save_failed}
use kv_store.Chaos.Faults.{Rng, FaultConfig, route, should_duplicate, fsync_fails}

module _ {G F S Q R : Type 0} (r : Rng G F) (base : S → Q → S × Option R) where
  -- `S` is the state behind the base transport, and `wait` what happens to it and to the faults while the call sleeps.
  -- Nothing else reaches it between the two deliveries of a duplicate.
  unfoldable pub send :
      (wait : ℕ → FaultConfig G F × S → FaultConfig G F × S) (id peer : Bytes)
      → FaultConfig G F
      → S
      → Q
      → FaultConfig G F × S × Option R
  send wait id peer c s req =
      let (c', dropped, latency) = route r c id peer in
      let (later, s') = if ltb 0 latency then wait latency (c', s) else (c', s) in
      let (c'', twice) = should_duplicate r later in
      if dropped
      then (c', s, none)
      else (let (s'', response) = base (if twice then (base s' req).0 else s') req in
          (c'', s'', response))

module _ {G F : Type 0} where
  -- `faultStore.Save`: an injected failure does not reach the store behind it.
  abbrev pub fault_save : Rng G F → FaultConfig G F → Bytes → SaveOutcome → SaveOutcome
  fault_save r c id out = if fsync_fails r c id then save_failed else out
