-- ===== src/Chaos/Transport/Delivery.antt =====
-- A message that the faulty transport (pkg/chaos/transport.go) delivers twice.
use kv_store.Common.{
  ℕ, ◌≡◌, ◌⊎◌, inl, inr, refl, ap, Bool, true, false, Option, none, some, Bytes, Bool-cases, ltb,
  if◌then◌else◌,
}
use kv_store.Raft.Types.{Node, VoteRequest, VoteResponse}
use kv_store.Raft.Persistence.{SaveOutcome}
use kv_store.Raft.Node.{handle_request_vote}
use kv_store.Raft.Node.Repeated.{vote-again}
use kv_store.Chaos.Faults.{Rng, FaultConfig, route}
use kv_store.Chaos.Transport.{send}

-- A second delivery of a request changes nothing and gives the same response.
abbrev pub IsIdempotent : {S Q R : Type 0} → (S → Q → S × Option R) → Type 0
IsIdempotent {S} {Q} base =
    (s : S) (req : Q)
    → ((base (base s req).0 req).0 ≡ (base s req).0)
      × ((base (base s req).0 req).1 ≡ (base s req).1)

module _ {G F S Q R : Type 0} (r : Rng G F) (base : S → Q → S × Option R) where
  twice-once :
      (twice : Bool) (s : S) (req : Q)
      → IsIdempotent base
      → ((base (if twice then (base s req).0 else s) req).0 ≡ (base s req).0)
        × ((base (if twice then (base s req).0 else s) req).1 ≡ (base s req).1)
  twice-once true s req again = again s req
  twice-once false s req again = (refl, refl)

  -- The state when the call has slept.
  abbrev waited :
      (wait : ℕ → FaultConfig G F × S → FaultConfig G F × S) (id peer : Bytes)
      → FaultConfig G F
      → S
      → S
  waited wait id peer c s =
      let (c', dropped, latency) = route r c id peer in
      (if ltb 0 latency then wait latency (c', s) else (c', s)).1

  -- Over calls that are idempotent, a sent message is lost, and leaves the state alone, or ends as one delivery to the
  -- state that the wait left, duplicated or not.
  pub send-once :
      (wait : ℕ → FaultConfig G F × S → FaultConfig G F × S) (id peer : Bytes) (c : FaultConfig G F)
      (s : S) (req : Q)
      → IsIdempotent base
      → let (_, after, response) = send r base wait id peer c s req in
        ((after ≡ s) × (response ≡ none))
        ⊎ ((s' : S) × ((after ≡ (base s' req).0) × (response ≡ (base s' req).1)))
  unfolding send
  send-once wait id peer c s req again = elim (Bool-cases (route r c id peer).1) [
    | inl lost ↦ rw lost (inl (refl, refl))
    | inr there ↦ rw there (inr (waited wait id peer c s, twice-once _ _ req again))
  ]

-- The vote handler behind the base transport, with the same end of every save.
abbrev pub vote_call : SaveOutcome → Node → VoteRequest → Node × Option VoteResponse
vote_call out n req = let (n', response) = handle_request_vote out n req in (n', some response)

vote_call-IsIdempotent : (out : SaveOutcome) → IsIdempotent (vote_call out)
vote_call-IsIdempotent out n req =
    let e = vote-again out n req in (ap (λ p. p.0) e, ap (λ p. some p.1) e)

-- A duplicated vote request ends as one delivery, for the voter and for the candidate.
pub send-vote :
    {G F : Type 0} (r : Rng G F) (out : SaveOutcome)
    (wait : ℕ → FaultConfig G F × Node → FaultConfig G F × Node) (id peer : Bytes)
    (c : FaultConfig G F) (n : Node) (req : VoteRequest)
    → let (_, after, response) = send r (vote_call out) wait id peer c n req in
      ((after ≡ n) × (response ≡ none))
      ⊎ ((n' : Node) × ((after ≡ (handle_request_vote out n' req).0)
            × (response ≡ some (handle_request_vote out n' req).1)))
send-vote r out wait id peer c n req =
    send-once r (vote_call out) wait id peer c n req (vote_call-IsIdempotent out)
