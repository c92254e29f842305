-- ===== src/Raft/Persistence.antt =====
-- pkg/raft/persistence.go: `persist` and `SetRaftStore`, and a restart from the durable file. The
-- encoding and the file system calls of `Save` and `Load` are not modelled: a save has an outcome.
use kv_store.Common.{Bool, true, false, Option, none, some, ltb, if◌then◌else◌}
use kv_store.Raft.Types.{RaftState, Node, new_node}

-- How one `Save` of fileRaftStore ends: done; an error before the rename; an error after it, where the
-- new content is in place.
pub data SaveOutcome : Type 0 where
  saved save_failed renamed_then_failed : SaveOutcome

abbrev pub raft_state : Node → RaftState
raft_state n = record {
  term = n.term;
  voted_for = n.voted_for;
  log = n.log;
  last_included_index = n.last_included_index;
  last_included_term = n.last_included_term;
}

abbrev save : SaveOutcome → Node → Node × Bool
save saved n = (record n { raft_store = some (raft_state n); dirty = false }, true)
save save_failed n = (n, false)
save renamed_then_failed n = (record n { raft_store = some (raft_state n) }, false)

-- The second component is true where no error is returned.
unfoldable pub persist : SaveOutcome → Node → Node × Bool
persist out n = elim n.raft_store [
  | none ↦ (n, true)
  | some _ ↦ if n.dirty then save out n else (n, true)
]

abbrev restore : RaftState → Node → Node
restore st n = record n {
  term = st.term;
  voted_for = st.voted_for;
  log = st.log;
  last_included_index = st.last_included_index;
  last_included_term = st.last_included_term;
  commit_index =
      if ltb n.commit_index st.last_included_index then st.last_included_index else n.commit_index;
  last_applied =
      if ltb n.last_applied st.last_included_index then st.last_included_index else n.last_applied;
}

-- The argument is the file behind the store, `none` for a nil store; `loads` is whether it can be read.
unfoldable pub set_raft_store : Option RaftState → Bool → Node → Node × Bool
set_raft_store none loads n = (record n { raft_store = none }, true)
set_raft_store (some st) loads n =
    let n' = record n { raft_store = some st } in
    if loads then (restore st n', true) else (n', false)

-- A crash and a new start of the process, as cmd/server/main.go starts a node: all but the file is lost.
unfoldable pub restart : Node → Node
unfolding set_raft_store new_node
restart n = (set_raft_store n.raft_store true (new_node n.id n.peers)).0
