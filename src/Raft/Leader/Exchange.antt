-- ===== src/Raft/Leader/Exchange.antt =====
-- One exchange of AppendEntries between a leader and a follower (pkg/raft/leader.go, node.go).
use mathlib.Core.Path.{subst}
use kv_store.Common.{
  ℕ, max, ◌+◌, ◌-◌, ◌≤◌, ◌<◌, ◌≡◌, refl, sym, ap, ◌∙◌, true, List, ◌++◌, Bytes, length, take, drop,
  get_elem?, get_elem?-drop, get_elem?-none, get_elem?-append_right, length-take, length-drop, leb,
  Bool-cases, inl, inr, arith,
}
use kv_store.Raft.Types.{
  Node, Entry, AppendEntriesRequest, last_log_index, first_index, entry_at, log_term_at, is_leader,
}
use kv_store.Raft.Log.{entry_at-above}
use kv_store.Raft.Persistence.{SaveOutcome}
use kv_store.Raft.Follower.Merge.{Agrees}
use kv_store.Raft.Node.{handle_append_entries}
use kv_store.Raft.Node.Append.{append-log, append-Accepted}
use kv_store.Raft.Leader.{append_request, start_replication, send, next_of}

-- The preceding index lies in the log or at its base, and the entries are those that the node has from
-- there to its end.
pub record IsFromLog (n : Node) (req : AppendEntriesRequest) : Type 0 where
  pub above_base : n.last_included_index ≤ req.prev_log_index
  pub prev_term : req.prev_log_term ≡ log_term_at n req.prev_log_index
  pub to_end :
      req.prev_log_index ≤ last_log_index n
      → req.prev_log_index + length req.entries ≡ last_log_index n
  pub entry : (i : ℕ) → get_elem? req.entries i ≡ entry_at n (req.prev_log_index + 1 + i)

append_request-entry :
    (n : Node) (next i : ℕ)
    → n.last_included_index < next
    → get_elem? (append_request n next).entries i ≡ entry_at n (next - 1 + 1 + i)
unfolding append_request
append_request-entry n next i above =
    let cut = next - first_index n in
    let at : n.last_included_index + 1 + (cut + i) ≡ next - 1 + 1 + i = omega arith in
    let here = sym (entry_at-above n (cut + i)) ∙ ap (entry_at n) at in
    elim (Bool-cases (leb next (last_log_index n))) [
      | inl some_left ↦ rw some_left (get_elem?-drop cut n.log i ∙ here)
      | inr past ↦ rw past (sym (get_elem?-none n.log (cut + i) (ground arith)) ∙ here)
    ]

append_request-IsFromLog :
    (n : Node) (next : ℕ) → n.last_included_index < next → IsFromLog n (append_request n next)
append_request-IsFromLog n next above = record {
  above_base = unfold append_request in omega arith;
  prev_term = unfold append_request in refl;
  to_end = unfold append_request in ground (arith, length-drop (next - first_index n) n.log);
  entry = λ i. unfold append_request in append_request-entry n next i above;
}

start_replication-send :
    (n : Node) (peer : Bytes) (req : AppendEntriesRequest)
    → (start_replication n peer).1 ≡ send req
    → (append_request n (next_of n peer) ≡ req)
      × (is_leader n.role ≡ true)
      × (first_index n ≤ next_of n peer)
unfolding start_replication
start_replication-send n peer req h = ground arith

append_request-parts :
    (n : Node) (next : ℕ)
    → ((append_request n next).term ≡ n.term) × ((append_request n next).prev_log_index ≡ next - 1)
unfolding append_request
append_request-parts n next = (refl, refl)

-- A request that is sent is a leader's. It is in the leader's term, it comes from the leader's log, and its
-- preceding index is the one before the follower's next index.
pub start_replication-IsFromLog :
    (n : Node) (peer : Bytes) (req : AppendEntriesRequest)
    → (start_replication n peer).1 ≡ send req
    → IsFromLog n req
      × (req.term ≡ n.term)
      × (is_leader n.role ≡ true)
      × (req.prev_log_index + 1 ≡ next_of n peer)
start_replication-IsFromLog n peer req h =
    let s = start_replication-send n peer req h in
    let next = next_of n peer in
    let parts = append_request-parts n next in
    (
      subst (IsFromLog n) s.0 (append_request-IsFromLog n next (omega arith)),
      ap (λ (r : AppendEntriesRequest). r.term) (sym s.0) ∙ parts.0,
      s.1,
      (let e : req.prev_log_index ≡ next - 1 =
            ap (λ (r : AppendEntriesRequest). r.prev_log_index) (sym s.0) ∙ parts.1 in
          omega arith),
    )

get_elem?-spliced :
    (k d j : ℕ) (xs ys : List Entry)
    → k ≤ length xs
    → get_elem? (take k xs ++ drop d ys) (k + j) ≡ get_elem? ys (d + j)
get_elem?-spliced k d j xs ys le =
    let e : k + j ≡ length (take k xs) + j = omega (arith, length-take k xs) in
    ap (get_elem? (take k xs ++ drop d ys)) e
    ∙ get_elem?-append_right (take k xs) (drop d ys) j
    ∙ get_elem?-drop d ys j

-- A follower that acknowledges entries from the leader's log, where its entries with the index and term of
-- the leader's are the leader's, has then the leader's entry at each index above the preceding one and its
-- own base.
pub replicated :
    (out : SaveOutcome) (n f : Node) (req : AppendEntriesRequest) (index : ℕ)
    → IsFromLog n req
    → Agrees f (req.prev_log_index + 1) req.entries
    → (handle_append_entries out f req).1.success ≡ true
    → req.prev_log_index < index
    → f.last_included_index < index
    → entry_at (handle_append_entries out f req).0 index ≡ entry_at n index
replicated out n f req index w ag ok after above =
    let a = append-Accepted out f req ok in
    let f' = (handle_append_entries out f req).0 in
    let k = req.prev_log_index - f.last_included_index in
    let d = f.last_included_index - req.prev_log_index in
    let j = index - max req.prev_log_index f.last_included_index - 1 in
    let at : index ≡ f'.last_included_index + 1 + (k + j) = omega (arith, a.base) in
    let at' : req.prev_log_index + 1 + (d + j) ≡ index = omega arith in
    ap (entry_at f') at
    ∙ entry_at-above f' (k + j)
    ∙ ap (λ (l : List Entry). get_elem? l (k + j)) (append-log out f req ok ag)
    ∙ get_elem?-spliced k d j f.log req.entries (omega (arith, a.prefix))
    ∙ w.entry (d + j)
    ∙ ap (entry_at n) at'
