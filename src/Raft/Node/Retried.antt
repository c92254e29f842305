-- ===== src/Raft/Node/Retried.antt =====
-- An AppendEntries that is sent again because its save failed (pkg/raft/node.go, HandleAppendEntries).
use kv_store.Common.{
  ℕ, zero, suc, ◌+◌, ◌-◌, ◌≤◌, ◌≡◌, sym, ap, ◌∙◌, true, length, take, drop, ◌++◌, arith,
  length-append, length-take, get_elem?, get_elem?-append_left, ◌⊎◌, inl, inr, ℤ, List, ==ℤ_iff,
  get_elem?-take,
}
use kv_store.Raft.Types.{
  Node, Entry, AppendEntriesRequest, is_follower, log_term_at, last_log_index,
}
use kv_store.Raft.Log.{log_term_at-above, term_of}
use kv_store.Raft.Persistence.{SaveOutcome, saved, save_failed, persist}
use kv_store.Raft.Follower.{check_prev_log, merge_entries}
use kv_store.Raft.Follower.Again.{drop-append_take}
use kv_store.Raft.Follower.Merge.{Agrees, merge_entries-frame}
use kv_store.Raft.Node.{
  handle_append_entries, advance_commit, follow_leader, accept_entries, acknowledge,
}
use kv_store.Raft.Node.Append.{Accepted, append-Accepted, append-log}
use kv_store.Raft.Node.Repeated.{append-held}

accept-merge :
    (n : Node) (req : AppendEntriesRequest)
    → ((accept_entries n req).0.raft_store ≡ (merge_entries n req).0.raft_store)
      × ((accept_entries n req).0.last_included_term ≡ (merge_entries n req).0.last_included_term)
unfolding accept_entries advance_commit
accept-merge n req = ground arith

accept-store :
    (n : Node) (req : AppendEntriesRequest)
    → ((accept_entries n req).0.raft_store ≡ n.raft_store)
      × ((accept_entries n req).0.last_included_term ≡ n.last_included_term)
accept-store n req =
    let frame = merge_entries-frame n req in
    let a = accept-merge n req in
    (
      a.0 ∙ ap (λ (m : Node). m.raft_store) frame,
      a.1 ∙ ap (λ (m : Node). m.last_included_term) frame,
    )

-- Up to the preceding entry the terms are those of the old log.
log_term-prefix :
    (n m : Node) (k : ℕ) (es : List Entry)
    → m.last_included_index ≡ n.last_included_index
    → m.last_included_term ≡ n.last_included_term
    → m.log ≡ take k n.log ++ es
    → k ≤ length n.log
    → log_term_at m (n.last_included_index + k) ≡ log_term_at n (n.last_included_index + k)
unfolding log_term_at
log_term-prefix n m zero es base term log le = ground arith
log_term-prefix n m (suc k) es base term log le =
    let left = log_term_at-above m k in
    let right = log_term_at-above n k in
    let here : get_elem? m.log k ≡ get_elem? n.log k =
      ap (λ l. get_elem? l k) log
      ∙ (get_elem?-append_left (take (suc k) n.log) es k (omega (arith, length-take (suc k) n.log))
          ∙ get_elem?-take (suc k) n.log k (omega arith)) in
    let low : m.last_included_index + 1 + k ≡ n.last_included_index + suc k = omega arith in
    let high : n.last_included_index + 1 + k ≡ n.last_included_index + suc k = omega arith in
    ap (log_term_at m) (sym low)
    ∙ (left ∙ (ap term_of here ∙ (sym right ∙ ap (log_term_at n) high)))

-- The check of the preceding entry, from its parts.
check_prev_log-true :
    (n : Node) (prev : ℕ) (term : ℤ)
    → prev ≤ last_log_index n
    → (prev ≡ 0) ⊎ (log_term_at n prev ≡ term)
    → check_prev_log n prev term ≡ true
unfolding check_prev_log
check_prev_log-true n prev term near at = ground (arith, ==ℤ_iff (log_term_at n prev) term)

module _ (n : Node) (req : AppendEntriesRequest) where
  abbrev kept : Node
  kept = (handle_append_entries saved n req).0

  abbrev unsaved : Node
  unsaved = (handle_append_entries save_failed n req).0

  -- Whether the save succeeds shows in the file and the mark alone.
  unsaved-kept :
      (unsaved.term ≡ kept.term)
      × (unsaved.role ≡ kept.role)
      × (unsaved.last_included_index ≡ kept.last_included_index)
      × (unsaved.last_included_term ≡ kept.last_included_term)
      × (unsaved.log ≡ kept.log)
      × (unsaved.commit_index ≡ kept.commit_index)
  unfolding handle_append_entries acknowledge persist
  unsaved-kept = ground arith

  unsaved-store :
      (unsaved.raft_store ≡ n.raft_store) × (unsaved.last_included_term ≡ n.last_included_term)
  unfolding handle_append_entries acknowledge persist follow_leader
  unsaved-store = ground (arith, accept-store (follow_leader n req.term req.leader_id) req)

  -- How far the preceding entry lies above the base.
  abbrev offset : ℕ
  offset = req.prev_log_index - n.last_included_index

  module _ (ok : (handle_append_entries saved n req).1.success ≡ true)
      (above : n.last_included_index ≤ req.prev_log_index)
      (ag : Agrees n (req.prev_log_index + 1) req.entries) where
    parts : Accepted n req kept
    parts = append-Accepted saved n req ok

    room : offset ≤ length n.log
    room = let p = parts.prefix in omega arith

    unsaved-log : unsaved.log ≡ take offset n.log ++ req.entries
    unsaved-log =
        let none_covered : n.last_included_index - req.prev_log_index ≡ 0 = omega arith in
        unsaved-kept.4
        ∙ (append-log saved n req ok ag
            ∙ ap (λ j. take offset n.log ++ drop j req.entries) none_covered)

    unsaved-length : length unsaved.log ≡ offset + length req.entries
    unsaved-length =
        let r = room in
        ap length unsaved-log
        ∙ omega (arith, length-append (take offset n.log) req.entries, length-take offset n.log)

    unsaved-entries : drop offset unsaved.log ≡ req.entries
    unsaved-entries = ap (drop offset) unsaved-log ∙ drop-append_take offset n.log req.entries room

    unsaved-base : unsaved.last_included_index ≡ n.last_included_index
    unsaved-base = unsaved-kept.2 ∙ parts.base

    unsaved-prev : check_prev_log unsaved req.prev_log_index req.prev_log_term ≡ true
    unsaved-prev =
        let index : n.last_included_index + offset ≡ req.prev_log_index = omega arith in
        let at =
          log_term-prefix n unsaved offset req.entries unsaved-base unsaved-store.1 unsaved-log
            room in
        let same : log_term_at unsaved req.prev_log_index ≡ log_term_at n req.prev_log_index =
          ap (log_term_at unsaved) (sym index) ∙ (at ∙ ap (log_term_at n) index) in
        let r = room in
        let base = unsaved-base in
        let size = unsaved-length in
        check_prev_log-true unsaved req.prev_log_index req.prev_log_term (omega arith)
          (elim parts.prefix_term [ inl e ↦ inl e | inr e ↦ inr (same ∙ e) ])

    -- A request that would succeed if its save did, with its preceding entry at the base or above it, no commit
    -- index above the node's, and the leader's entries wherever the node has one of the same index and term, is
    -- acknowledged when it comes again after a save that failed, whatever the end of a save: the log has the
    -- entries, and the durable file is the one from before the first request.
    pub append-retry :
        req.leader_commit ≤ n.commit_index
        → (out : SaveOutcome)
        → ((handle_append_entries out unsaved req).1.success ≡ true)
          × ((handle_append_entries out unsaved req).0.raft_store ≡ n.raft_store)
          × ((handle_append_entries out unsaved req).0.log ≡ take offset n.log ++ req.entries)
    append-retry le out =
        let base = unsaved-base in
        let index : req.prev_log_index ≡ unsaved.last_included_index + offset = omega arith in
        let moved = unsaved-kept.5 ∙ parts.commit in
        let commit : req.leader_commit ≤ unsaved.commit_index = ground arith in
        let h =
          append-held out unsaved req offset (sym (unsaved-kept.0 ∙ parts.term))
            (ap is_follower (unsaved-kept.1 ∙ parts.role)) unsaved-prev index unsaved-length
            unsaved-entries commit in
        (h.0, h.1 ∙ unsaved-store.0, h.2 ∙ unsaved-log)
