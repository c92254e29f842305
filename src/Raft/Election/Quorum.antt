-- ===== src/Raft/Election/Quorum.antt =====
-- Who wins an election (pkg/raft/election.go).
use kv_store.Common.{
  ℕ, ◌+◌, ◌≤◌, ◌≡◌, refl, true, false, List, [], ◌∷◌, none, ltb, leb, Bool-cases, inl, inr, arith,
}
use kv_store.Raft.Types.{
  Node, become_candidate, become_follower, become_leader, is_candidate, is_leader,
}
use kv_store.Raft.Persistence.{SaveOutcome, persist}
use kv_store.Raft.Replication.{majority}
use kv_store.Raft.Election.{
  Arrival, Tally, counted, stepped_down, add_vote, tally, conclude, conclude_tally, start_election,
}

-- The granted votes among responses.
unfoldable pub granted : List Arrival → ℕ
granted [] = 0
granted (a ∷ rest) = add_vote (granted rest) a.response.vote_granted

-- What the other goroutines do does not make the node leader.
abbrev pub NeverCrowns : (Node → Node) → Type 0
NeverCrowns f = (n : Node) → is_leader n.role ≡ false → is_leader (f n).role ≡ false

abbrev pub NoneCrowns : List Arrival → Type 0
NoneCrowns [] = Unit
NoneCrowns (a ∷ rest) = NeverCrowns a.meanwhile × NoneCrowns rest

persist-role :
    (out : SaveOutcome) (n : Node)
    → ((persist out n).0.role ≡ n.role) × ((persist out n).0.term ≡ n.term)
unfolding persist
persist-role out n = ground arith

-- The count is of votes that were granted; a node that stepped down is no leader.
abbrev Fair : ℕ → Tally → Type 0
Fair bound (counted n votes) = (is_leader n.role ≡ false) × (votes ≤ bound)
Fair bound (stepped_down n) = is_leader n.role ≡ false

Fair-le : (a b : ℕ) (t : Tally) → a ≤ b → Fair a t → Fair b t
Fair-le a b (counted n votes) le f = (f.0, omega arith)
Fair-le a b (stepped_down n) le f = f

persist-follower :
    (out : SaveOutcome) (n : Node)
    → is_leader n.role ≡ false
    → is_leader (persist out n).0.role ≡ false
persist-follower out n h = ground (arith, persist-role out n)

tally-Fair :
    (quorum : ℕ) (n : Node) (votes : ℕ) (arrivals : List Arrival)
    → is_leader n.role ≡ false
    → NoneCrowns arrivals
    → Fair (votes + granted arrivals) (tally quorum n votes arrivals)
unfolding tally granted become_follower
tally-Fair quorum n votes [] h c = (h, omega arith)
tally-Fair quorum n votes (a ∷ rest) h c =
    let v = add_vote votes a.response.vote_granted in
    elim (Bool-cases (ltb (a.meanwhile n).term a.response.term)) [
      | inl later ↦
          rw later
            (persist-follower a.outcome (become_follower (a.meanwhile n) a.response.term none) refl)
      | inr same ↦ elim (Bool-cases (leb quorum v)) [
        | inl enough ↦ rw (same, enough) (c.0 n h, ground arith)
        | inr more ↦
            rw (same, more)
              (Fair-le (v + granted rest) (votes + granted (a ∷ rest))
                (tally quorum (a.meanwhile n) v rest) (ground arith)
                (tally-Fair quorum (a.meanwhile n) v rest (c.0 n h) c.1))
      ]
    ]

conclude-Won :
    (quorum term : ℕ) (n : Node) (votes : ℕ)
    → is_leader n.role ≡ false
    → is_leader (conclude quorum term n votes).role ≡ true
    → (quorum ≤ votes) × (is_candidate n.role ≡ true) × (n.term ≡ term)
unfolding conclude become_follower
conclude-Won quorum term n votes h w = ground arith

concluded-Won :
    (quorum term bound : ℕ) (meanwhile : Node → Node) (t : Tally)
    → NeverCrowns meanwhile
    → Fair bound t
    → is_leader (conclude_tally quorum term meanwhile t).role ≡ true
    → (quorum ≤ bound) × ((conclude_tally quorum term meanwhile t).term ≡ term)
unfolding conclude_tally conclude become_leader
concluded-Won quorum term bound meanwhile (counted n votes) f h won =
    ground (arith, f n h.0, conclude-Won quorum term (meanwhile n) votes (f n h.0) won)
concluded-Won quorum term bound meanwhile (stepped_down n) f h won = ground arith

-- A node that is leader after its election, where nothing else made it leader, was granted votes that
-- with its own are a majority of the cluster, and is leader of the term after the one it started in.
pub start_election-quorum :
    (out : SaveOutcome) (before : Node → Node) (arrivals : List Arrival) (meanwhile : Node → Node)
    (n : Node)
    → NeverCrowns before
    → NoneCrowns arrivals
    → NeverCrowns meanwhile
    → is_leader (start_election out before arrivals meanwhile n).role ≡ true
    → (majority n.peers ≤ 1 + granted arrivals)
      × ((start_election out before arrivals meanwhile n).term ≡ n.term + 1)
unfolding start_election become_candidate
start_election-quorum out before arrivals meanwhile n b c f won =
    let candidate = before (become_candidate n) in
    let p = persist-role out candidate in
    let unled : is_leader candidate.role ≡ false = b (become_candidate n) refl in
    let fair =
      tally-Fair (majority n.peers) (persist out candidate).0 1 arrivals (ground arith) c in
    ground (
      arith,
      concluded-Won (majority n.peers) (become_candidate n).term (1 + granted arrivals) meanwhile
          (tally (majority n.peers) (persist out candidate).0 1 arrivals) f fair,
    )

-- The other goroutines leave the node alone, and no response is of a later term.
abbrev pub Undisturbed : ℕ → List Arrival → Type 0
Undisturbed term [] = Unit
Undisturbed term (a ∷ rest) =
    ((n : Node) → a.meanwhile n ≡ n) × (a.response.term ≤ term) × Undisturbed term rest

-- The votes that the loop has counted when it stops.
Enough : ℕ → Node → Tally → Type 0
Enough quorum n t = (votes : ℕ) × ((t ≡ counted n votes) × (quorum ≤ votes))

tally-Enough :
    (quorum : ℕ) (n : Node) (votes : ℕ) (arrivals : List Arrival)
    → Undisturbed n.term arrivals
    → quorum ≤ votes + granted arrivals
    → Enough quorum n (tally quorum n votes arrivals)
unfolding tally granted Enough
tally-Enough quorum n votes [] u le = (votes, (refl, omega arith))
tally-Enough quorum n votes (a ∷ rest) u le =
    let v = add_vote votes a.response.vote_granted in
    let same : a.meanwhile n ≡ n = u.0 n in
    let early : ltb n.term a.response.term ≡ false = ground arith in
    let more : quorum ≤ v + granted rest = ground arith in
    elim (Bool-cases (leb quorum v)) [
      | inl enough ↦ rw (same, early, enough) (v, (refl, ground arith))
      | inr few ↦ rw (same, early, few) (tally-Enough quorum n v rest u.2 more)
    ]

-- If the state of the new term is saved, nothing disturbs the node, and the votes that peers grant make a
-- majority with its own, the node is leader of the next term.
pub quorum-start_election :
    (out : SaveOutcome) (arrivals : List Arrival) (n : Node)
    → (persist out (become_candidate n)).1 ≡ true
    → Undisturbed (n.term + 1) arrivals
    → majority n.peers ≤ 1 + granted arrivals
    → start_election out (λ m. m) arrivals (λ m. m) n
      ≡ become_leader (persist out (become_candidate n)).0
unfolding start_election conclude_tally conclude become_candidate Enough
quorum-start_election out arrivals n saved u le =
    let c = (persist out (become_candidate n)).0 in
    let p = persist-role out (become_candidate n) in
    let t : c.term ≡ n.term + 1 = p.1 in
    let e = tally-Enough (majority n.peers) c 1 arrivals (rw t u) le in
    rw (saved, e.1.0) (ground arith)
