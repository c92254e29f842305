-- ===== src/Storage/Wal.antt =====
-- pkg/storage/wal.go: the binary log in plain mode. The file is the list of its bytes. Replay reads the
-- clock once; file errors other than the end of the data are not modelled.
pub mod Numbers
pub mod Records
pub mod Replay
pub mod Cut
pub mod Clock
pub mod Encrypted
use kv_store.Common.{
  ℕ, zero, suc, ◌+◌, ◌-◌, ◌^◌, ℤ, Bool, true, false, Option, none, some, List, [], ◌∷◌, ◌++◌, Bytes,
  length, take, drop, ltb, ◌==◌, if◌then◌else◌,
}
use kv_store.Storage.Engine.{Result, ok, err, Error}
use kv_store.Storage.MemStore.{MemStore, put, delete, clear, incr, cas, expire}
use Numbers.{be32, of_be32, be64, of_be64}

-- One append, with its arguments.
pub data Record : Type 0 where
  put_record : (key value : Bytes) → Record
  delete_record : (key : Bytes) → Record
  clear_record : Record
  incr_record : (key : Bytes) → Record
  cas_record : (key old new : Bytes) → Record
  expire_record : (key : Bytes) (expires_at : ℤ) → Record

abbrev pub max_record_field : ℕ
max_record_field = 2 ^ 20

-- `uint32(len(s))`, big endian, and the bytes.
abbrev pub field : Bytes → Bytes
field s = be32 (length s) ++ s

-- The bytes that an append writes: the op code and the fields.
unfoldable pub op_code : Record → ℕ
op_code (put_record key value) = 1
op_code (delete_record key) = 2
op_code clear_record = 3
op_code (incr_record key) = 4
op_code (cas_record key old new) = 5
op_code (expire_record key expires_at) = 6

unfoldable pub fields : Record → Bytes
fields (put_record key value) = field key ++ field value
fields (delete_record key) = field key
fields clear_record = []
fields (incr_record key) = field key
fields (cas_record key old new) = field key ++ (field old ++ field new)
fields (expire_record key expires_at) = field key ++ be64 expires_at

unfoldable pub append_record : Record → Bytes
append_record r = op_code r ∷ fields r

-- `append` in plain mode: the file after the write of a record.
unfoldable pub append : Bytes → Record → Bytes
append file r = file ++ append_record r

-- `readString`: the string, the bytes consumed and the rest of the reader, or an error.
abbrev read_body : Bytes → ℕ → ℕ → Option (Bytes × ℕ × Bytes)
read_body rest remaining len =
    if ltb max_record_field len
    then none
    else if ltb remaining (len + 4)
    then none
    else if ltb (length rest) len
    then none
    else some (take len rest, 4 + len, drop len rest)

unfoldable pub read_string : Bytes → ℕ → Option (Bytes × ℕ × Bytes)
read_string (a ∷ b ∷ c ∷ d ∷ rest) remaining = read_body rest remaining (of_be32 a b c d)
read_string _ remaining = none

-- The store after a record, the field bytes consumed, and the rest of the reader.
abbrev pub Applied : Type 0
Applied = MemStore × ℕ × Bytes

infixl 5 ◌>>=◌
abbrev pub ◌>>=◌ {ℓ κ} : {A : Type ℓ} {B : Type κ} → Option A → (A → Option B) → Option B
none >>= f = none
some a >>= f = f a

-- The errors of a conditional operation that replay passes over.
abbrev tolerate_incr : Result ℤ → Bool
tolerate_incr (ok _) = true
tolerate_incr (err Error.not_numeric) = true
tolerate_incr (err Error.overflow) = true
tolerate_incr (err _) = false

abbrev tolerate_cas : Result Bool → Bool
tolerate_cas (ok _) = true
tolerate_cas (err Error.not_found) = true
tolerate_cas (err _) = false

abbrev tolerate_expire : Result (Unit {0}) → Bool
tolerate_expire (ok _) = true
tolerate_expire (err Error.not_found) = true
tolerate_expire (err _) = false

abbrev finish : Bool → MemStore → ℕ → Bytes → Option Applied
finish true m n rest = some (m, n, rest)
finish false m n rest = none

pub read_deadline : Bytes → ℕ → Option (ℤ × Bytes)
read_deadline (a ∷ b ∷ c ∷ d ∷ e ∷ f ∷ g ∷ h ∷ rest) remaining =
    if ltb remaining 8 then none else some (of_be64 a b c d e f g h, rest)
read_deadline _ remaining = none

apply_put : Bytes → ℕ → MemStore → Option Applied
apply_put r remaining m = do
  (key, n1, r1) ← read_string r remaining
  (value, n2, r2) ← read_string r1 (remaining - n1)
  some (put key value m, n1 + n2, r2)

apply_delete : Bytes → ℕ → MemStore → Option Applied
apply_delete r remaining m = do (key, n, r1) ← read_string r remaining; some (delete key m, n, r1)

apply_incr : ℤ → Bytes → ℕ → MemStore → Option Applied
apply_incr now r remaining m = do
  (key, n, r1) ← read_string r remaining
  let (m', res) = incr now key m
  finish (tolerate_incr res) m' n r1

apply_cas : ℤ → Bytes → ℕ → MemStore → Option Applied
apply_cas now r remaining m = do
  (key, n1, r1) ← read_string r remaining
  (old, n2, r2) ← read_string r1 (remaining - n1)
  (new, n3, r3) ← read_string r2 (remaining - n1 - n2)
  let (m', res) = cas now key old new m
  finish (tolerate_cas res) m' (n1 + n2 + n3) r3

apply_expire : ℤ → Bytes → ℕ → MemStore → Option Applied
apply_expire now r remaining m = do
  (key, n1, r1) ← read_string r remaining
  (expires_at, r2) ← read_deadline r1 (remaining - n1)
  let (m', res) = expire now key expires_at m
  finish (tolerate_expire res) m' (n1 + 8) r2

unfoldable pub apply_record : ℤ → ℕ → Bytes → ℕ → MemStore → Option Applied
unfolding read_deadline apply_put apply_delete apply_incr apply_cas apply_expire
apply_record now op r remaining m =
    if op == 1
    then apply_put r remaining m
    else if op == 2
    then apply_delete r remaining m
    else if op == 3
    then some (clear m, 0, r)
    else if op == 4
    then apply_incr now r remaining m
    else if op == 5
    then apply_cas now r remaining m
    else if op == 6
    then apply_expire now r remaining m
    else none

-- The end of a replay; the fuel is a device of the model.
pub data Replayed : Type 0 where
  restored : MemStore → Replayed
  corrupted out_of_fuel : Replayed

-- The loop of `replayPlain`, one record a round.
pub replay_loop : ℕ → ℤ → Bytes → ℕ → MemStore → Replayed
replay_loop zero now r remaining m = if remaining == 0 then restored m else out_of_fuel
replay_loop (suc fuel) now [] remaining m = restored m
replay_loop (suc fuel) now (op ∷ r) remaining m =
    if remaining == 0 then restored m else elim (apply_record now op r (remaining - 1) m) [
      | none ↦ corrupted
      | some (m', n, r') ↦ replay_loop fuel now r' (remaining - 1 - n) m'
    ]

-- Every round consumes a byte, so the file's length is enough fuel.
unfoldable pub replay : ℤ → Bytes → MemStore → Replayed
unfolding replay_loop
replay now file m = replay_loop (length file) now file (length file) m
