-- ===== src/Raft/Election/Unique.antt =====
-- One leader in a term: two majorities of the votes that the nodes of a cluster cast (pkg/raft/node.go, election.go).
use kv_store.Common.{ℕ, ◌+◌, ◌≤◌, ◌≡◌, true, List, Bytes, length, arith}
use kv_store.Common.Members.{is_in, Distinct, Within, share}
use kv_store.Raft.Types.{Node}
use kv_store.Raft.Replication.{majority}
use kv_store.Raft.Election.History.{Ballot, Cast, History, History-OneEach}

-- The votes that the members of a cluster have cast.
abbrev pub Votes : (Bytes → List Ballot) → List Bytes → Type 0
Votes votes members =
    (v : Bytes) → is_in v members ≡ true → (n : Node) × (m : Node) × History n m (votes v)

-- A candidate has the votes of a majority of different members in a term; `peers` are the members without one.
abbrev pub Elected : (Bytes → List Ballot) → (members peers : List Bytes) → ℕ → Bytes → Type 0
Elected votes members peers t c =
    (voters : List Bytes) × Distinct voters
    × Within voters members
    × (majority peers ≤ length voters)
    × ((v : Bytes) → is_in v voters ≡ true → Cast t c (votes v))

-- In a cluster whose members keep their state in durable files, two candidates who have the votes of majorities in
-- the same term are one. Its nodes may grant votes, start elections, step down at a higher term that they hear in
-- one, win, take AppendEntries, fail to save, crash, and do what leaves their term, vote and file alone, in any
-- order, but nothing else. Left out with that are an election's end without a win, an AppendEntries or a snapshot
-- of a node's own term that reaches it while it is candidate or leader, and the step down of a leader in its term,
-- which clear the vote.
pub one_leader_per_term :
    (members peers : List Bytes) (votes : Bytes → List Ballot) (t : ℕ) (c c' : Bytes)
    → length members ≡ length peers + 1
    → Votes votes members
    → Elected votes members peers t c
    → Elected votes members peers t c'
    → c ≡ c'
unfolding majority
one_leader_per_term members peers votes t c c' size casts won won' =
    let (l, d, w, q, yes_votes) = won in
    let (k, e, u, r, other_votes) = won' in
    let both = share members l k d e w u (omega arith) in
    let (n, m, h) = casts both.0 (w both.0 both.1) in
    History-OneEach h t c c' (yes_votes both.0 both.1) (other_votes both.0 both.2)
