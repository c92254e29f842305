-- ===== src/Raft/Leader/Rewind.antt =====
-- The turns of the loop of `replicateToPeer` (pkg/raft/leader.go).
use native.Mathlib.Nat.{pow-suc, mul_assoc, mul-le-mul_left}
use kv_store.Common.{
  ℕ, zero, suc, ◌+◌, ◌*◌, ◌^◌, ◌≤◌, ◌<◌, ◌≡◌, ◌≢◌, ◌⊎◌, refl, sym, ◌∙◌, Option, none, some, Bytes,
  bytes_eq_refl, inl, inr, arith,
}
use kv_store.Raft.Types.{Node, AppendEntriesRequest, AppendEntriesResponse, become_follower}
use kv_store.Raft.Replication.{repl_of, repl_state}
use kv_store.Raft.Leader.{
  start_replication, Sending, send, idle, resync, finish_replication, Exchanged, acked, gave_up,
  again, rewind, rewind_step, max_repl_backoff, replicate_to_peer,
}

-- The step of the next rewind.
abbrev pub step_of : Node → Bytes → ℕ
step_of n peer = rewind_step (repl_of n) peer

start_replication-step :
    (n : Node) (peer : Bytes) → step_of (start_replication n peer).0 peer ≡ step_of n peer
unfolding start_replication repl_state repl_of
start_replication-step n peer = ground arith

finish_replication-again :
    (m : Node) (peer : Bytes) (req : AppendEntriesRequest) (o : Option AppendEntriesResponse)
    → (finish_replication m peer req o).1 ≡ again
    → (step_of m peer < max_repl_backoff)
      × (step_of (finish_replication m peer req o).0 peer ≡ 2 * step_of m peer)
unfolding finish_replication rewind repl_of become_follower
finish_replication-again m peer req none h = ground arith
finish_replication-again m peer req (some resp) h = ground (arith, bytes_eq_refl peer)

-- The other goroutines do not lower the next rewind of a peer. While its call is in flight none has a call of its own to
-- the peer; between two turns another one whose call succeeds sets the backoff to 0, and that is left out.
abbrev pub KeepsStep : Bytes → (ℕ → Node → Node) → Type 0
KeepsStep peer others = (k : ℕ) (n : Node) → step_of n peer ≤ step_of (others k n) peer

Sending-cases :
    (s : Sending) → (s ≡ idle) ⊎ (s ≡ resync) ⊎ (req : AppendEntriesRequest) × (s ≡ send req)
Sending-cases idle = inl refl
Sending-cases resync = inr (inl refl)
Sending-cases (send req) = inr (inr (req, refl))

Exchanged-cases : (e : Exchanged) → (e ≡ acked) ⊎ (e ≡ gave_up) ⊎ (e ≡ again)
Exchanged-cases acked = inl refl
Exchanged-cases gave_up = inr (inl refl)
Exchanged-cases again = inr (inr refl)

double_step :
    (g step step' : ℕ)
    → max_repl_backoff ≤ 2 ^ suc g * step
    → 2 * step ≤ step'
    → max_repl_backoff ≤ 2 ^ g * step'
double_step g step step' le e =
    let grown = rw (pow-suc 2 g ∙ refl, mul_assoc (2 ^ g) 2 step) at le in
    omega (arith, grown, mul-le-mul_left (2 ^ g) e)

module _ (call : ℕ → AppendEntriesRequest → Option AppendEntriesResponse)
    (meanwhile between : ℕ → Node → Node) (peer : Bytes) (keeps : KeepsStep peer meanwhile)
    (keeps_between : KeepsStep peer between) where
  -- The node before the answer of a turn, and after it.
  abbrev before : ℕ → Node → Node
  before k n = meanwhile k (start_replication n peer).0

  abbrev answered : ℕ → Node → AppendEntriesRequest → Node × Exchanged
  answered k n req = finish_replication (before k n) peer req (call k req)

  -- The node at the start of the next turn.
  abbrev left : ℕ → Node → AppendEntriesRequest → Node
  left k n req = between k (answered k n req).0

  turn-step :
      (k : ℕ) (n : Node) (req : AppendEntriesRequest)
      → (answered k n req).1 ≡ again
      → (step_of n peer < max_repl_backoff) × (2 * step_of n peer ≤ step_of (left k n req) peer)
  turn-step k n req e =
      let same = start_replication-step n peer in
      let kept = keeps k (start_replication n peer).0 in
      let later = keeps_between k (answered k n req).0 in
      let turn = finish_replication-again (before k n) peer req (call k req) e in
      (omega arith, omega arith)

  -- A turn ends the loop, or leaves it to the turns after it.
  one_turn :
      (f k : ℕ) (n : Node)
      → ((req : AppendEntriesRequest)
          → (answered k n req).1 ≡ again
          → replicate_to_peer f call meanwhile between peer (k + 1) (left k n req) ≢ none)
      → replicate_to_peer (suc f) call meanwhile between peer k n ≢ none
  unfolding replicate_to_peer
  one_turn f k n rest = elim (Sending-cases (start_replication n peer).1) [
    | inl e ↦ ground arith
    | inr (inl e) ↦ ground arith
    | inr (inr (req, e)) ↦ elim (Exchanged-cases (answered k n req).1) [
      | inl x ↦ ground arith
      | inr (inl x) ↦ ground arith
      | inr (inr x) ↦
          let same : replicate_to_peer (suc f) call meanwhile between peer k n
              ≡ replicate_to_peer f call meanwhile between peer (k + 1) (left k n req) =
            ground arith in
          λ h. rest req x (sym same ∙ h)
    ]
  ]

  replicate_to_peer-enough :
      (f k : ℕ) (n : Node)
      → max_repl_backoff ≤ 2 ^ f * step_of n peer
      → replicate_to_peer (suc f) call meanwhile between peer k n ≢ none
  replicate_to_peer-enough zero k n le =
      one_turn 0 k n (λ req x. absurd (omega (arith, turn-step k n req x)))
  replicate_to_peer-enough (suc g) k n le = one_turn (suc g) k n (λ req x.
      let t = turn-step k n req x in
      replicate_to_peer-enough g (k + 1) (left k n req)
        (double_step g (step_of n peer) (step_of (left k n req) peer) le t.1))

  step_of-positive : (n : Node) → 1 ≤ step_of n peer
  step_of-positive n = ground arith

  -- The loop of `replicateToPeer` ends after at most seven turns, whatever the peer answers, if the other
  -- goroutines lower the next rewind of the peer neither while its call is in flight nor between two turns. They
  -- may do anything else to the node.
  pub replicate_to_peer-ends :
      (n : Node) → replicate_to_peer 7 call meanwhile between peer 0 n ≢ none
  replicate_to_peer-ends n =
      replicate_to_peer-enough 6 0 n (let p = step_of-positive n in omega arith)
