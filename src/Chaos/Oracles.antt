-- ===== src/Chaos/Oracles.antt =====
-- pkg/chaos/oracles.go: the oracles over the started nodes of a cluster, whose map is a list of ids and nodes here.
-- The nodes are as they stand at one moment: the source reads the fields of a node one after the other.
-- A violation holds the ids and the number that its message prints. The oracles over the history of the workload are not modelled.
pub mod Verdicts
use kv_store.Common.{
  ℕ, zero, suc, ◌+◌, Bool, true, false, not, ◌&&◌, Option, none, some, List, [], ◌∷◌, ◌++◌, Bytes,
  bytes_eq, ltb, length, ◌==◌, ◌==ℤ◌, if◌then◌else◌, min, max,
}
use kv_store.Storage.Engine.{
  Command, Op, op_put, op_delete, op_clear, op_incr, op_cas, op_expire, op_other,
}
use kv_store.Raft.Types.{Node, Entry, is_leader, entry_at}

pub data Violation : Type 0 where
  two_leaders : (term : ℕ) (prev id : Bytes) → Violation
  diverged : (index : ℕ) (a b : Bytes) → Violation
  applied_differently : (index : ℕ) (a b : Bytes) → Violation

abbrev pub clash : ℕ → Option Bytes → Bytes → List Violation
clash term none id = []
clash term (some prev) id = if bytes_eq prev id then [] else two_leaders term prev id ∷ []

abbrev pub put_leader : ℕ → Bytes → (ℕ → Option Bytes) → ℕ → Option Bytes
put_leader term id leaders t = if term == t then some id else leaders t

unfoldable pub check_leaders : (ℕ → Option Bytes) → List (Bytes × Node) → List Violation
check_leaders leaders [] = []
check_leaders leaders ((id, n) ∷ rest) =
    let further = check_leaders (put_leader n.term id leaders) rest in
    let skipped = check_leaders leaders rest in
    if is_leader n.role then clash n.term (leaders n.term) id ++ further else skipped

-- `electionSafetyOracle`.
unfoldable pub election_safety : List (Bytes × Node) → List Violation
unfolding check_leaders
election_safety nodes = check_leaders (λ _. none) nodes

abbrev pub same_op : Op → Op → Bool
same_op op_put op_put = true
same_op op_delete op_delete = true
same_op op_clear op_clear = true
same_op op_incr op_incr = true
same_op op_cas op_cas = true
same_op op_expire op_expire = true
same_op (op_other a) (op_other b) = a == b
same_op _ _ = false

-- `==` on commands.
abbrev pub same_command : Command → Command → Bool
same_command a b =
    same_op a.op b.op
    && (bytes_eq a.key b.key
        && (bytes_eq a.old b.old && (bytes_eq a.value b.value && (a.expires_at ==ℤ b.expires_at))))

abbrev pub diverges : Entry → Entry → Bool
diverges x y = (x.term == y.term) && not (same_command x.cmd y.cmd)

-- The loop over the indexes of `logMatchingOracle`, for one pair of nodes: the first index that diverges.
unfoldable pub match_from : ℕ → ℕ → Node → Node → Option ℕ
match_from zero index a b = none
match_from (suc fuel) index a b =
    let further = match_from fuel (index + 1) a b in
    elim (entry_at a index) [
      | none ↦ none
      | some x ↦ elim (entry_at b index) [
        | none ↦ none
        | some y ↦ if diverges x y then some index else further
      ]
    ]

-- The fuel is more than the first node's last index.
unfoldable pub match_logs : Node → Node → Option ℕ
unfolding match_from
match_logs a b = match_from (a.last_included_index + length a.log + 1) 1 a b

-- The same loop of `stateMachineSafetyOracle`, up to the smaller applied index; terms do not count.
unfoldable pub applied_from : (left : ℕ) → ℕ → Node → Node → Option ℕ
applied_from zero index a b = none
applied_from (suc left) index a b =
    let further = applied_from left (index + 1) a b in
    elim (entry_at a index) [
      | none ↦ none
      | some x ↦ elim (entry_at b index) [
        | none ↦ none
        | some y ↦ if same_command x.cmd y.cmd then further else some index
      ]
    ]

unfoldable pub match_applied : Node → Node → Option ℕ
unfolding applied_from
match_applied a b = applied_from (min a.last_applied b.last_applied) 1 a b

abbrev pub diverged_at : Bytes → Bytes → Option ℕ → List Violation
diverged_at a b none = []
diverged_at a b (some index) = diverged index a b ∷ []

abbrev pub applied_at : Bytes → Bytes → Option ℕ → List Violation
applied_at a b none = []
applied_at a b (some index) = applied_differently index a b ∷ []

-- One node against those behind it, and all pairs.
pub log_matching_one : Bytes → Node → List (Bytes × Node) → List Violation
log_matching_one id n [] = []
log_matching_one id n ((other, m) ∷ rest) =
    diverged_at id other (match_logs n m) ++ log_matching_one id n rest

unfoldable pub log_matching : List (Bytes × Node) → List Violation
unfolding log_matching_one
log_matching [] = []
log_matching ((id, n) ∷ rest) = log_matching_one id n rest ++ log_matching rest

pub state_machine_safety_one : Bytes → Node → List (Bytes × Node) → List Violation
state_machine_safety_one id n [] = []
state_machine_safety_one id n ((other, m) ∷ rest) =
    applied_at id other (match_applied n m) ++ state_machine_safety_one id n rest

unfoldable pub state_machine_safety : List (Bytes × Node) → List Violation
unfolding state_machine_safety_one
state_machine_safety [] = []
state_machine_safety ((id, n) ∷ rest) =
    state_machine_safety_one id n rest ++ state_machine_safety rest
