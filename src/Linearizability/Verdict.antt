-- ===== src/Linearizability/Verdict.antt =====
-- What the verdict of the checker (pkg/linearizability/checker.go) means.
use kv_store.Common.{◌≤◌, ◌≡◌, true, false, Option, none, some, List, [], ◌∷◌}
use kv_store.Common.Dict.{lookup}
use kv_store.Linearizability.{Op, Seen, is_counted, write_of, is_early, seen_max}

-- No later read of the reader is of an older version.
abbrev pub NoneOlder : Op → List Op → Type 0
NoneOlder o [] = Unit
NoneOlder o (y ∷ ys) = (is_counted y ≡ true → o.reader ≡ y.reader → o.seq ≤ y.seq) × NoneOlder o ys

-- No reader goes back.
abbrev pub NoRollback : List Op → Type 0
NoRollback [] = Unit
NoRollback (o ∷ ops) = (is_counted o ≡ true → NoneOlder o ops) × NoRollback ops

abbrev pub NotEarly : Option Op → Op → Type 0
NotEarly none o = Unit
NotEarly (some w) o = is_early o w ≡ false

-- No read in the list ends before the write began, in the history, whose version it has.
abbrev pub InTime : List Op → List Op → Type 0
InTime ops [] = Unit
InTime ops (o ∷ rest) = (is_counted o ≡ true → NotEarly (write_of ops o.seq) o) × InTime ops rest

-- No read is below what its reader has seen.
abbrev AtLeast : Seen → List Op → Type 0
AtLeast s [] = Unit
AtLeast s (y ∷ ys) =
    (is_counted y ≡ true → seen_max (lookup y.reader s.max_seen) ≤ y.seq) × AtLeast s ys
