-- ===== src/Raft/Election.antt =====
-- pkg/raft/election.go: an election from the timer to its outcome, and the step down of a leader that
-- misses its quorum. The other goroutines run between two locked sections: what they do to the node is an
-- argument of the definitions. Timers and their reset are not modelled.
pub mod Quorum
pub mod History
pub mod Unique
use kv_store.Common.{
  ℕ, ◌+◌, ◌-◌, Bool, true, false, ◌&&◌, Option, none, some, List, [], ◌∷◌, Bytes, ltb, leb, ◌==◌,
  if◌then◌else◌,
}
use kv_store.Raft.Types.{
  Node, VoteRequest, VoteResponse, last_log_index, last_log_term, become_candidate, become_follower,
  become_leader, is_candidate, is_leader,
}
use kv_store.Raft.Persistence.{SaveOutcome, persist}
use kv_store.Raft.Replication.{majority}

abbrev pub vote_request : Node → VoteRequest
vote_request n = record {
  term = n.term;
  candidate_id = n.id;
  last_log_index = last_log_index n;
  last_log_term = last_log_term n;
}

-- A response that arrives, how the save after a step down would end, and what happened to the node since
-- the section before. A peer whose call fails has no arrival.
pub record Arrival : Type 0 where
  pub meanwhile : Node → Node
  pub response : VoteResponse
  pub outcome : SaveOutcome

-- The state of the loop over the responses: still counting, or returned.
pub data Tally : Type 0 where
  counted : Node → (votes : ℕ) → Tally
  stepped_down : Node → Tally

abbrev pub add_vote : ℕ → Bool → ℕ
add_vote votes granted = if granted then votes + 1 else votes

unfoldable pub tally : ℕ → Node → ℕ → List Arrival → Tally
tally quorum n votes [] = counted n votes
tally quorum n votes (a ∷ rest) =
    let n' = a.meanwhile n in
    let further = tally quorum n' (add_vote votes a.response.vote_granted) rest in
    if ltb n'.term a.response.term
    then stepped_down (persist a.outcome (become_follower n' a.response.term none)).0
    else if leb quorum (add_vote votes a.response.vote_granted)
    then counted n' (add_vote votes a.response.vote_granted)
    else further

unfoldable pub conclude : ℕ → ℕ → Node → ℕ → Node
conclude quorum term n votes =
    if leb quorum votes && (is_candidate n.role && (n.term == term))
    then become_leader n
    else become_follower n n.term none

unfoldable pub conclude_tally : ℕ → ℕ → (Node → Node) → Tally → Node
unfolding conclude
conclude_tally quorum term meanwhile (counted n votes) = conclude quorum term (meanwhile n) votes
conclude_tally quorum term meanwhile (stepped_down n) = n

-- `startElection`; `before` is what happens before the save, and `meanwhile` what happens between the last
-- response heard and the conclusion.
unfoldable pub start_election :
    SaveOutcome → (Node → Node) → List Arrival → (Node → Node) → Node → Node
unfolding conclude_tally
start_election out before arrivals meanwhile n =
    let c = become_candidate n in
    let (n', saved) = persist out (before c) in
    if saved
    then conclude_tally (majority n.peers) c.term meanwhile (tally (majority n.peers) n' 1 arrivals)
    else n'

-- The end of `sendHeartbeats`: the time of the acknowledgement by a quorum.
unfoldable pub record_acks : ℕ → ℕ → Node → Node
record_acks now acks n =
    if is_leader n.role && leb (majority n.peers) acks
    then record n { last_quorum_ack = now }
    else n

-- `electionTimeoutMin` (types.go), in milliseconds.
abbrev pub election_timeout_min : ℕ
election_timeout_min = 500

-- The step down after the heartbeats of a leader that has not been acknowledged by a quorum.
unfoldable pub check_quorum : ℕ → Node → Node
check_quorum now n =
    if is_leader n.role && ltb election_timeout_min (now - n.last_quorum_ack)
    then become_follower n n.term none
    else n
