-- ===== src/Linearizability.antt =====
-- pkg/linearizability/checker.go: the checker of the history of one key. A violation holds what its message prints.
pub mod Verdict
use kv_store.Common.{
  ℕ, ℤ, pos, Bool, true, false, not, ◌&&◌, Option, none, some, List, [], ◌∷◌, ◌++◌, Bytes, ltb,
  ◌==◌, ltb_ℤ, leb_ℤ, if◌then◌else◌,
}
use kv_store.Common.Dict.{Dict, lookup, insert}

pub data Kind : Type 0 where
  write read : Kind

-- `end` is the field `End`, `start` and it 0 when unknown.
pub record Op : Type 0 where
  pub kind : Kind
  pub seq : ℕ
  pub reader : Bytes
  pub start : ℤ
  pub end : ℤ

pub data Violation : Type 0 where
  before_write : (read_op write_op : Op) → Violation
  rolled_back : (read_op : Op) (prev : ℕ) (prev_at : ℤ) (reads : List Op) → Violation

-- The maps of the loop over the reads.
pub record Seen : Type 0 where
  pub max_seen : Dict ℕ
  pub max_seen_at : Dict ℤ
  pub timeline : Dict (List Op)

abbrev pub is_read : Kind → Bool
is_read write = false
is_read read = true

-- `o.Kind != Read || o.Seq == 0` continues.
abbrev pub is_counted : Op → Bool
is_counted o = is_read o.kind && not (o.seq == 0)

-- The map of the writes at a sequence number: the last write of it.
unfoldable pub write_of : List Op → ℕ → Option Op
write_of [] seq = none
write_of (o ∷ ops) seq = elim (write_of ops seq) [
  | some w ↦ some w
  | none ↦ if not (is_read o.kind) && (o.seq == seq) then some o else none
]

abbrev pub is_early : Op → Op → Bool
is_early o w = ltb_ℤ (pos 0) w.start && (ltb_ℤ (pos 0) o.end && leb_ℤ o.end w.start)

unfoldable pub early_read : Option Op → Op → List Violation
early_read none o = []
early_read (some w) o = if is_early o w then before_write o w ∷ [] else []

-- A map reads as its zero value where a key is missing.
abbrev pub seen_max : Option ℕ → ℕ
seen_max none = 0
seen_max (some n) = n

abbrev pub seen_at : Option ℤ → ℤ
seen_at none = pos 0
seen_at (some t) = t

abbrev pub reads_of : Option (List Op) → List Op
reads_of none = []
reads_of (some l) = l

abbrev pub rollback : Seen → Op → List Violation
rollback s o = elim (lookup o.reader s.max_seen) [
  | none ↦ []
  | some prev ↦
      if ltb o.seq prev
      then rolled_back o prev (seen_at (lookup o.reader s.max_seen_at))
          (reads_of (lookup o.reader s.timeline))
        ∷ []
      else []
]

abbrev pub raise_max : Seen → Op → Seen
raise_max s o =
    if ltb (seen_max (lookup o.reader s.max_seen)) o.seq
    then record s {
      max_seen = insert o.reader o.seq s.max_seen;
      max_seen_at = insert o.reader o.end s.max_seen_at;
    }
    else s

unfoldable pub note_read : Seen → Op → Seen
note_read s o =
    let s' = raise_max s o in
    record s' {
      timeline = insert o.reader (reads_of (lookup o.reader s'.timeline) ++ o ∷ []) s'.timeline;
    }

unfoldable pub check_reads : List Op → Seen → List Op → List Violation
check_reads ops s [] = []
check_reads ops s (o ∷ rest) =
    let further = check_reads ops (note_read s o) rest in
    let skipped = check_reads ops s rest in
    if is_counted o then early_read (write_of ops o.seq) o ++ (rollback s o ++ further) else skipped

unfoldable pub check : List Op → List Violation
unfolding check_reads
check ops = check_reads ops (record { max_seen = []; max_seen_at = []; timeline = [] }) ops
