-- ===== src/Raft/Types.antt =====
-- pkg/raft/types.go: the node, the messages, the access to the log by raft index and the three role
-- transitions. A raft index is a natural number and the log holds the entries above the compaction
-- base. Terms are natural numbers; where the code can hold -1 for "unknown" the type is ℤ.
use kv_store.Common.{
  ℕ, ◌+◌, ◌-◌, ℤ, pos, negsuc, Bool, true, false, Option, none, some, List, [], ◌∷◌, Bytes,
  bytes_eq, length, get_elem?, ltb, ◌==◌, if◌then◌else◌,
}
use kv_store.Storage.Engine.{Command}

pub data Role : Type 0 where
  follower candidate leader : Role

pub record Entry : Type 0 where
  pub term : ℕ
  pub cmd : Command

pub record VoteRequest : Type 0 where
  pub term : ℕ
  pub candidate_id : Bytes
  pub last_log_index : ℕ
  pub last_log_term : ℤ

pub record VoteResponse : Type 0 where
  pub term : ℕ
  pub vote_granted : Bool

pub record AppendEntriesRequest : Type 0 where
  pub term : ℕ
  pub leader_id : Bytes
  pub prev_log_index : ℕ
  pub prev_log_term : ℤ
  pub entries : List Entry
  pub leader_commit : ℕ

pub record AppendEntriesResponse : Type 0 where
  pub term : ℕ
  pub success : Bool

pub record InstallSnapshotRequest : Type 0 where
  pub term : ℕ
  pub leader_id : Bytes
  pub last_included_index : ℕ
  pub last_included_term : ℤ
  pub snapshot : Bytes

pub record InstallSnapshotResponse : Type 0 where
  pub term : ℕ
  pub success : Bool

-- `replicationState` of leader.go. A Go map reads as its zero value where a key is missing.
pub record ReplicationState : Type 0 where
  pub next_index : Bytes → ℕ
  pub match_index : Bytes → ℕ
  pub in_flight : Bytes → Bool
  pub backoff : Bytes → ℕ

-- `RaftState` of persistence.go: what a save writes.
pub record RaftState : Type 0 where
  pub term : ℕ
  pub voted_for : Option Bytes
  pub log : List Entry
  pub last_included_index : ℕ
  pub last_included_term : ℤ

-- `raft_store` is the content of the durable file, or `none` where no store is wired.
-- `reset_election` is the channel of capacity one. Mutexes, timers and the transport are not state.
pub record Node : Type 0 where
  pub id : Bytes
  pub peers : List Bytes
  pub role : Role
  pub term : ℕ
  pub voted_for : Option Bytes
  pub leader_id : Option Bytes
  pub log : List Entry
  pub commit_index : ℕ
  pub last_applied : ℕ
  pub last_quorum_ack : ℕ
  pub repl : Option ReplicationState
  pub raft_store : Option RaftState
  pub dirty : Bool
  pub last_included_index : ℕ
  pub last_included_term : ℤ
  pub reset_election : Bool

-- `m[k] = v` on a map.
abbrev pub update {ℓ} : {A : Type ℓ} → (Bytes → A) → Bytes → A → Bytes → A
update m k v j = if bytes_eq k j then v else m j

unfoldable pub new_node : Bytes → List Bytes → Node
new_node id peers = record {
  id = id;
  peers = peers;
  role = elim peers [ [] ↦ leader | _ ∷ _ ↦ follower ];
  term = 0;
  voted_for = none;
  leader_id = elim peers [ [] ↦ some id | _ ∷ _ ↦ none ];
  log = [];
  commit_index = 0;
  last_applied = 0;
  last_quorum_ack = 0;
  repl = none;
  raft_store = none;
  dirty = false;
  last_included_index = 0;
  last_included_term = pos 0;
  reset_election = false;
}

abbrev pub is_leader : Role → Bool
is_leader leader = true
is_leader follower = false
is_leader candidate = false

abbrev pub is_follower : Role → Bool
is_follower follower = true
is_follower leader = false
is_follower candidate = false

abbrev pub is_candidate : Role → Bool
is_candidate candidate = true
is_candidate leader = false
is_candidate follower = false

unfoldable pub has_leader : Node → Bool
has_leader n = elim n.leader_id [ none ↦ false | some _ ↦ true ]

abbrev pub last_log_index : Node → ℕ
last_log_index n = n.last_included_index + length n.log

abbrev pub last_term : ℤ → List Entry → ℤ
last_term base [] = base
last_term base (e ∷ es) = last_term (pos e.term) es

abbrev pub last_log_term : Node → ℤ
last_log_term n = last_term n.last_included_term n.log

abbrev pub first_index : Node → ℕ
first_index n = n.last_included_index + 1

-- `none` stands for the result -1.
unfoldable pub log_offset : Node → ℕ → Option ℕ
log_offset n index =
    if ltb n.last_included_index index
    then (if ltb (index - n.last_included_index - 1) (length n.log)
        then some (index - n.last_included_index - 1)
        else none)
    else none

unfoldable pub entry_at : Node → ℕ → Option Entry
unfolding log_offset
entry_at n index = elim (log_offset n index) [ some off ↦ get_elem? n.log off | none ↦ none ]

unfoldable pub log_term_at : Node → ℕ → ℤ
log_term_at n index =
    if index == 0
    then pos 0
    else if index == n.last_included_index
    then n.last_included_term
    else elim (entry_at n index) [ some e ↦ pos e.term | none ↦ negsuc 0 ]

unfoldable pub become_candidate : Node → Node
become_candidate n = record n {
  role = candidate;
  term = n.term + 1;
  voted_for = some n.id;
  leader_id = none;
  dirty = true;
}

unfoldable pub become_leader : Node → Node
become_leader n = record n { role = leader; leader_id = some n.id }

unfoldable pub become_follower : Node → ℕ → Option Bytes → Node
become_follower n term leader_id = record n {
  role = follower;
  term = term;
  voted_for = none;
  leader_id = leader_id;
  dirty = true;
}
