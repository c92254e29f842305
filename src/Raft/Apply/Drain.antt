-- ===== src/Raft/Apply/Drain.antt =====
-- What the apply loop does to the state machine (pkg/raft/apply.go).
use kv_store.Common.{
  ℕ, suc, zero, ◌+◌, ◌-◌, ◌≤◌, ◌<◌, ◌≡◌, refl, sym, ap, ◌∙◌, ℤ, true, false, some, List, [], ◌∷◌,
  take, drop, get_elem?, get_elem?-some, leb, ltb, Option-cases, inl, inr, arith,
}
use kv_store.Storage.MemStore.{MemStore}
use kv_store.Storage.Machine.{apply_cmd}
use kv_store.Raft.Types.{Node, Entry, entry_at, last_log_index}
use kv_store.Raft.Log.{entry_at-above}
use kv_store.Raft.Apply.{Replica, apply_turn, apply_picked}

-- The commands of entries one after the other; `clock` gives the time at which each index is applied.
unfoldable pub apply_entries : (ℕ → ℤ) → ℕ → List Entry → MemStore → MemStore
apply_entries clock idx [] m = m
apply_entries clock idx (e ∷ es) m =
    apply_entries clock (idx + 1) es (apply_cmd (clock idx) e.cmd m).0

-- So many turns, with nothing in between.
unfoldable pub turns : (ℕ → ℤ) → ℕ → Replica → Replica
turns clock zero r = r
turns clock (suc k) r = turns clock k (apply_turn (clock (r.node.last_applied + 1)) (λ q. q) r)

drop-get {ℓ} :
    {A : Type ℓ}
    → (xs : List A) (d : ℕ) (x : A) → get_elem? xs d ≡ some x
    → drop d xs ≡ x ∷ drop (suc d) xs
drop-get [] d x h = ground arith
drop-get (y ∷ ys) zero x h = ground arith
drop-get (y ∷ ys) (suc d) x h = drop-get ys d x h

-- A turn over a committed entry of the log applies its command and records the reply under its index.
apply_turn-entry :
    (now : ℤ) (r : Replica) (e : Entry)
    → r.node.last_applied < r.node.commit_index
    → entry_at r.node (r.node.last_applied + 1) ≡ some e
    → apply_turn now (λ q. q) r ≡ record {
      node = record r.node { last_applied = r.node.last_applied + 1 };
      store = (apply_cmd now e.cmd r.store).0;
      results = (r.node.last_applied + 1, some (apply_cmd now e.cmd r.store).1) ∷ r.results;
    }
unfolding apply_turn apply_picked
apply_turn-entry now r e lt at =
    let due : leb r.node.commit_index r.node.last_applied ≡ false = ground arith in
    let fresh : leb (r.node.last_applied + 1) r.node.last_applied ≡ false = ground arith in
    let next : ltb r.node.last_applied (r.node.last_applied + 1) ≡ true = ground arith in
    rw (due, at, fresh, next) refl

-- The entry that a turn picks, as the head of what is left of the log.
due_entry :
    (n : Node)
    → n.last_included_index ≤ n.last_applied
    → n.last_applied < last_log_index n
    → (e : Entry) × ((entry_at n (n.last_applied + 1) ≡ some e)
        × (drop (n.last_applied - n.last_included_index) n.log
            ≡ e ∷ drop (n.last_applied + 1 - n.last_included_index) n.log))
due_entry n base lt =
    let d = n.last_applied - n.last_included_index in
    let (e, found) = get_elem?-some n.log d (omega arith) in
    let at : n.last_applied + 1 ≡ n.last_included_index + 1 + d = omega arith in
    let more : suc d ≡ n.last_applied + 1 - n.last_included_index = omega arith in
    (
      e,
      (
        ap (entry_at n) at ∙ entry_at-above n d ∙ found,
        drop-get n.log d e found ∙ ap (λ (k : ℕ). e ∷ drop k n.log) more,
      ),
    )

abbrev pub due : ℕ → Node → List Entry
due k n = take k (drop (n.last_applied - n.last_included_index) n.log)

-- Turns without interruption apply, each once and in order, the commands of as many of the next entries of
-- the log, where these are committed, and move the applied index by as much.
pub turns-entries :
    (clock : ℕ → ℤ) (k : ℕ) (r : Replica)
    → r.node.last_included_index ≤ r.node.last_applied
    → r.node.last_applied + k ≤ r.node.commit_index
    → r.node.commit_index ≤ last_log_index r.node
    → ((turns clock k r).store
        ≡ apply_entries clock (r.node.last_applied + 1) (due k r.node) r.store)
      × ((turns clock k r).node ≡ record r.node { last_applied = r.node.last_applied + k })
unfolding turns apply_entries
turns-entries clock zero r base le end = (
  refl,
  ap (λ (a : ℕ). record r.node { last_applied = a })
      (let e : r.node.last_applied ≡ r.node.last_applied + 0 = omega arith in e),
)
turns-entries clock (suc k) r base le end =
    let (e, found) = due_entry r.node base (omega arith) in
    let now = clock (r.node.last_applied + 1) in
    let turn = apply_turn-entry now r e (omega arith) found.0 in
    let r' : Replica = record {
      node = record r.node { last_applied = r.node.last_applied + 1 };
      store = (apply_cmd now e.cmd r.store).0;
      results = (r.node.last_applied + 1, some (apply_cmd now e.cmd r.store).1) ∷ r.results;
    } in
    let rest = turns-entries clock k r' (omega arith) (omega arith) end in
    let sum : r.node.last_applied + 1 + k ≡ r.node.last_applied + suc k = omega arith in
    (
      ap (λ (q : Replica). (turns clock k q).store) turn
          ∙ rest.0
          ∙ ap
              (λ (l : List Entry).
                apply_entries clock (r.node.last_applied + 1) (take (suc k) l) r.store)
              (sym found.1),
      ap (λ (q : Replica). (turns clock k q).node) turn
          ∙ rest.1
          ∙ ap (λ (a : ℕ). record r.node { last_applied = a }) sum,
    )

-- Where a snapshot that covers the picked entry is installed before the turn applies it, the turn leaves
-- node and state machine as the snapshot left them.
pub apply_turn-covered :
    (now : ℤ) (meanwhile : Replica → Replica) (r : Replica)
    → r.node.last_applied < r.node.commit_index
    → r.node.last_applied < (meanwhile r).node.last_applied
    → ((apply_turn now meanwhile r).store ≡ (meanwhile r).store)
      × ((apply_turn now meanwhile r).node ≡ (meanwhile r).node)
unfolding apply_turn apply_picked
apply_turn-covered now meanwhile r lt covered =
    elim (Option-cases (entry_at r.node (r.node.last_applied + 1))) [
      | inl e ↦ ground arith
      | inr (x, e) ↦ ground arith
    ]
