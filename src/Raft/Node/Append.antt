-- ===== src/Raft/Node/Append.antt =====
-- What HandleAppendEntries does (pkg/raft/node.go) on each of its branches.
use kv_store.Common.{
  ℕ, ◌+◌, ◌-◌, ◌≤◌, ◌<◌, ◌≡◌, ap, ◌∙◌, ◌≢◌, ℤ, Bool, true, false, none, some, List, [], ◌∷◌, ◌++◌,
  ◌⊎◌, length, take, drop, ltb, max, min, arith, ==ℤ_iff, if◌then◌else◌, Bool-cases, inl, inr,
}
use kv_store.Raft.Types.{
  Entry, AppendEntriesRequest, Node, Role, last_log_index, log_term_at, entry_at,
}
use kv_store.Raft.Persistence.{SaveOutcome, persist, raft_state}
use kv_store.Raft.Follower.{check_prev_log, merge_entries}
use kv_store.Raft.Follower.Merge.{
  Agrees, merge_entries-frame, merge_entries-log, last-merge_entries, merge_entries-unchanged,
}
use kv_store.Raft.Node.{
  follow_leader, advance_commit, commit_target, mark_dirty, accept_entries, acknowledge,
  handle_append_entries,
}

check_prev_log-eq :
    (n : Node) (prev : ℕ) (term : ℤ)
    → check_prev_log n prev term ≡ true
    → (prev ≤ last_log_index n) × ((prev ≡ 0) ⊎ (log_term_at n prev ≡ term))
unfolding check_prev_log
check_prev_log-eq n prev term h = ground (arith, ==ℤ_iff (log_term_at n prev) term)

-- A follower's new state after a request that it accepts, apart from the log.
pub record Accepted (n : Node) (req : AppendEntriesRequest) (n' : Node) : Type 0 where
  pub not_stale : n.term ≤ req.term
  pub prefix : req.prev_log_index ≤ last_log_index n
  pub prefix_term :
      (req.prev_log_index ≡ 0) ⊎ (log_term_at n req.prev_log_index ≡ req.prev_log_term)
  pub term : n'.term ≡ req.term
  pub role : n'.role ≡ Role.follower
  pub leader : n'.leader_id ≡ some req.leader_id
  pub base : n'.last_included_index ≡ n.last_included_index
  pub applied : n'.last_applied ≡ n.last_applied
  pub last : last_log_index n' ≡ max n.last_included_index (req.prev_log_index + length req.entries)
  pub commit : n'.commit_index ≡ (
      if ltb n.commit_index req.leader_commit
      then min req.leader_commit (last_log_index n')
      else n.commit_index)

-- The fields that the last steps of the handler leave alone.
pub record SameFields (n n' : Node) : Type 0 where
  pub store : n'.raft_store ≡ n.raft_store
  pub term : n'.term ≡ n.term
  pub role : n'.role ≡ n.role
  pub voted : n'.voted_for ≡ n.voted_for
  pub leader : n'.leader_id ≡ n.leader_id
  pub base : n'.last_included_index ≡ n.last_included_index
  pub applied : n'.last_applied ≡ n.last_applied
  pub log : n'.log ≡ n.log

-- `acknowledge` changes the durable file and the dirty flag alone.
acknowledge-frame :
    (out : SaveOutcome) (n : Node) (changed : Bool)
    → (acknowledge out n changed).0 ≡ record n {
      raft_store = (acknowledge out n changed).0.raft_store;
      dirty = (acknowledge out n changed).0.dirty;
    }
unfolding acknowledge persist
acknowledge-frame out n changed = ground arith

pub accept-SameFields :
    (n : Node) (req : AppendEntriesRequest)
    → SameFields (merge_entries n req).0 (accept_entries n req).0
unfolding accept_entries advance_commit
accept-SameFields n req = ground arith

commit_target-eq-min :
    (n : Node) (leader_commit : ℕ)
    → commit_target n leader_commit ≡ min leader_commit (last_log_index n)
unfolding commit_target
commit_target-eq-min n leader_commit = ground arith

commit_index-advance :
    (n : Node) (leader_commit : ℕ)
    → (advance_commit n leader_commit).0.commit_index ≡ (
        if ltb n.commit_index leader_commit
        then min leader_commit (last_log_index n)
        else n.commit_index)
unfolding advance_commit
commit_index-advance n leader_commit = ground (arith, commit_target-eq-min n leader_commit)

accept-commit :
    (n : Node) (req : AppendEntriesRequest)
    → (accept_entries n req).0.commit_index ≡ (
        if ltb (merge_entries n req).0.commit_index req.leader_commit
        then min req.leader_commit (last_log_index (merge_entries n req).0)
        else (merge_entries n req).0.commit_index)
unfolding accept_entries
accept-commit n req =
    commit_index-advance (mark_dirty (merge_entries n req).1 (merge_entries n req).0)
      req.leader_commit

acknowledge-durable :
    (out : SaveOutcome) (n : Node) (changed : Bool)
    → (acknowledge out n changed).1.success ≡ true
    → changed ≡ true
    → n.dirty ≡ true
    → n.raft_store ≢ none
    → (acknowledge out n changed).0.raft_store ≡ some (raft_state (acknowledge out n changed).0)
unfolding acknowledge persist
acknowledge-durable out n changed h c d w = ground arith

pub accept-dirty :
    (n : Node) (req : AppendEntriesRequest)
    → (accept_entries n req).1 ≡ true
    → (accept_entries n req).0.dirty ≡ true
unfolding accept_entries advance_commit
accept-dirty n req h = ground arith

pub accept-unchanged :
    (n : Node) (req : AppendEntriesRequest)
    → (accept_entries n req).1 ≡ false
    → (merge_entries n req).0 ≡ n
unfolding accept_entries advance_commit
accept-unchanged n req h = ground (arith, merge_entries-unchanged n req)

module _ (out : SaveOutcome) (n : Node) (req : AppendEntriesRequest) where
  abbrev followed : Node
  followed = follow_leader n req.term req.leader_id

  abbrev accepted : Node × Bool
  accepted = accept_entries followed req

  entry_at-followed : (i : ℕ) → entry_at n i ≡ entry_at followed i
  unfolding follow_leader entry_at
  entry_at-followed i = ground arith

  log_term-followed : (i : ℕ) → log_term_at followed i ≡ log_term_at n i
  unfolding follow_leader log_term_at entry_at
  log_term-followed i = ground arith

  Agrees-followed : (idx : ℕ) (es : List Entry) → Agrees n idx es → Agrees followed idx es
  Agrees-followed idx [] ag = tt
  Agrees-followed idx (e ∷ es) ag = (
    λ a found same. ag.0 a (entry_at-followed idx ∙ found) same,
    Agrees-followed (idx + 1) es ag.1,
  )

  check-followed :
      check_prev_log followed req.prev_log_index req.prev_log_term
      ≡ check_prev_log n req.prev_log_index req.prev_log_term
  unfolding follow_leader check_prev_log
  check-followed = ground (arith, log_term-followed req.prev_log_index)

  store-followed :
      n.raft_store ≢ none
      → accepted.0.raft_store ≡ (merge_entries followed req).0.raft_store
      → accepted.0.raft_store ≢ none
  unfolding follow_leader
  store-followed w e =
      ground (arith, ap (λ (m : Node). m.raft_store) (merge_entries-frame followed req))

  abbrev outcome : Node
  outcome = (handle_append_entries out n req).0

  abbrev success : Bool
  success = (handle_append_entries out n req).1.success

  abbrev merged : Node
  merged = (merge_entries followed req).0

  -- A success comes from the last branch.
  success-branch :
      success ≡ true
      → (n.term ≤ req.term)
        × (check_prev_log followed req.prev_log_index req.prev_log_term ≡ true)
        × (outcome ≡ (acknowledge out accepted.0 accepted.1).0)
        × ((acknowledge out accepted.0 accepted.1).1.success ≡ true)
  unfolding handle_append_entries
  success-branch h = ground arith

  followed-parts :
      n.term ≤ req.term
      → (followed.term ≡ req.term)
        × (followed.role ≡ Role.follower)
        × (followed.leader_id ≡ some req.leader_id)
        × (followed.last_included_index ≡ n.last_included_index)
        × (followed.last_applied ≡ n.last_applied)
        × (followed.log ≡ n.log)
        × (followed.commit_index ≡ n.commit_index)
  unfolding follow_leader
  followed-parts h = ground arith

  -- A success means that the request was not from an older term and matched at its preceding entry. It
  -- leaves a follower of the sender in the request's term, with its base and applied index, with the log
  -- ending where the entries end but not below the base, and with the commit index set to the leader's, as
  -- far as the log goes, where the leader's is greater.
  pub append-Accepted : success ≡ true → Accepted n req outcome
  append-Accepted h =
      let b = success-branch h in
      let p = accept-SameFields followed req in
      let q = acknowledge-frame out accepted.0 accepted.1 in
      let moved = accept-commit followed req in
      let f = followed-parts b.0 in
      let c = check_prev_log-eq followed req.prev_log_index req.prev_log_term b.1 in
      let frame = merge_entries-frame followed req in
      let l = last-merge_entries followed req c.0 in
      ground (arith, log_term-followed req.prev_log_index)

  -- If the entries that the node shares with the leader by index and term are the leader's, its log
  -- after a success is its own up to the preceding entry, followed by the leader's entries that lie above
  -- the node's base.
  pub append-log :
      success ≡ true
      → Agrees n (req.prev_log_index + 1) req.entries
      → outcome.log
        ≡ take (req.prev_log_index - n.last_included_index) n.log
          ++ drop (n.last_included_index - req.prev_log_index) req.entries
  append-log h ag =
      let b = success-branch h in
      let p = accept-SameFields followed req in
      let q = acknowledge-frame out accepted.0 accepted.1 in
      let f = followed-parts b.0 in
      let c = check_prev_log-eq followed req.prev_log_index req.prev_log_term b.1 in
      ground (
        arith,
        merge_entries-log followed req c.0
            (Agrees-followed (req.prev_log_index + 1) req.entries ag),
      )

  -- A request from an older term, or one whose preceding entry does not match, is refused, and the log,
  -- the commit index, the applied index and the durable file stay as they are.
  pub append-refused :
      (req.term < n.term) ⊎ (check_prev_log n req.prev_log_index req.prev_log_term ≡ false)
      → (success ≡ false)
        × (outcome.log ≡ n.log)
        × (outcome.commit_index ≡ n.commit_index)
        × (outcome.last_applied ≡ n.last_applied)
        × (outcome.raft_store ≡ n.raft_store)
  unfolding handle_append_entries follow_leader
  append-refused h = ground (arith, check-followed)

  -- A node with a durable file has, after a success, the new state in the file, or the log that it had.
  pub append-durable :
      success ≡ true
      → n.raft_store ≢ none
      → (outcome.raft_store ≡ some (raft_state outcome)) ⊎ (outcome.log ≡ n.log)
  append-durable h wired =
      let b = success-branch h in
      let p = accept-SameFields followed req in
      let f = followed-parts b.0 in
      let frame = merge_entries-frame followed req in
      elim (Bool-cases accepted.1) [
        | inl changed ↦ inl (
            rw b.2 (
              acknowledge-durable out accepted.0 accepted.1 (ground arith) changed
                (accept-dirty followed req changed) (store-followed wired p.store)))
        | inr same ↦ inr (
            ground (
              arith,
              acknowledge-frame out accepted.0 accepted.1,
              accept-unchanged followed req same,
            ))
      ]

  -- If the node has an entry at its commit index, a success for entries that end before that index leaves
  -- it without an entry there.
  pub append_drops_committed :
      (e : Entry)
      → success ≡ true
      → entry_at n n.commit_index ≡ some e
      → req.prev_log_index + length req.entries < n.commit_index
      → entry_at outcome n.commit_index ≡ none
  unfolding entry_at
  append_drops_committed e h there short = ground (arith, append-Accepted h)
