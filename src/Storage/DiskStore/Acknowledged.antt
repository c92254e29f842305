-- ===== src/Storage/DiskStore/Acknowledged.antt =====
-- What an acknowledged request leaves in the log and in memory (pkg/storage/wal.go and batcher.go).
use mathlib.Core.List.{append_assoc, append-nil}
use kv_store.Common.{
  ◌≡◌, refl, sym, ap, ◌∙◌, ℤ, Bool, true, List, [], ◌∷◌, ◌++◌, Bytes, bytes_eq, Option-cases,
  Bool-cases, inl, inr, ◌⊎◌, arith,
}
use kv_store.Common.Dict.{lookup}
use kv_store.Storage.Engine.{Result}
use kv_store.Storage.MemStore.{MemStore, put, cas, cas_entry}
use kv_store.Storage.MemStore.View.{found}
use kv_store.Storage.Wal.{
  Record, put_record, delete_record, clear_record, incr_record, cas_record, expire_record,
  append_record,
}
use kv_store.Storage.Wal.Records.{effect}
use kv_store.Storage.Wal.Replay.{log_of, effects, AllLoggable}
use kv_store.Storage.DiskStore.{
  DiskStore, AppendOutcome, written, torn, append_all, apply_batched, apply_batch, write_batch,
  cas_compared, Readings, write_single,
}
use kv_store.Storage.DiskStore.Steady.{NoDeadlines, IsPlain, get-steady, cas-steady}

abbrev pub IsBatched : Record → Type 0
IsBatched (put_record key value) = Unit
IsBatched (delete_record key) = Unit
IsBatched clear_record = Unit
IsBatched _ = ⊥

abbrev pub AllBatched : List Record → Type 0
AllBatched [] = Unit
AllBatched (r ∷ rs) = IsBatched r × AllBatched rs

abbrev pub AllPlain : List Record → Type 0
AllPlain [] = Unit
AllPlain (r ∷ rs) = IsPlain r × AllPlain rs

pub effects-append :
    (now : ℤ) (rs qs : List Record) (m : MemStore)
    → effects now (rs ++ qs) m ≡ effects now qs (effects now rs m)
unfolding effects
effects-append now [] qs m = refl
effects-append now (r ∷ rs) qs m = effects-append now rs qs (effect now r m)

pub log_of-append : (rs qs : List Record) → log_of (rs ++ qs) ≡ log_of rs ++ log_of qs
unfolding log_of
log_of-append [] qs = refl
log_of-append (r ∷ rs) qs =
    ap (λ (l : Bytes). append_record r ++ l) (log_of-append rs qs)
    ∙ sym (append_assoc (append_record r) (log_of rs) (log_of qs))

pub AllLoggable-append :
    (rs qs : List Record) → AllLoggable rs → AllLoggable qs → AllLoggable (rs ++ qs)
AllLoggable-append [] qs h k = k
AllLoggable-append (r ∷ rs) qs h k = (h.0, AllLoggable-append rs qs h.1 k)

append_all-log :
    (rs : List Record) (wal : Bytes) (outs : List AppendOutcome)
    → (append_all wal rs outs).1 ≡ true
    → (append_all wal rs outs).0 ≡ wal ++ log_of rs
unfolding append_all log_of
append_all-log [] wal outs h = sym (append-nil wal)
append_all-log (r ∷ rs) wal [] h =
    append_all-log rs (wal ++ append_record r) [] h ∙ append_assoc wal (append_record r) (log_of rs)
append_all-log (r ∷ rs) wal (written ∷ outs) h =
    append_all-log rs (wal ++ append_record r) outs h
    ∙ append_assoc wal (append_record r) (log_of rs)
append_all-log (r ∷ rs) wal (torn n ∷ outs) h = ground arith

apply_batched-effect :
    (now : ℤ) (r : Record) (m : MemStore) → IsBatched r → apply_batched r m ≡ effect now r m
unfolding apply_batched effect
apply_batched-effect now (put_record key value) m b = refl
apply_batched-effect now (delete_record key) m b = refl
apply_batched-effect now clear_record m b = refl
apply_batched-effect now r m b = absurd b

apply_batch-effects :
    (now : ℤ) (rs : List Record) (m : MemStore)
    → AllBatched rs
    → apply_batch rs m ≡ effects now rs m
unfolding apply_batch effects
apply_batch-effects now [] m b = refl
apply_batch-effects now (r ∷ rs) m b =
    apply_batch-effects now rs (apply_batched r m) b.1
    ∙ ap (effects now rs) (apply_batched-effect now r m b.0)

-- A batch of Put, Delete and Clear that gets a nil error is in the log, record by record, and in memory, by
-- the effects that replay gives its records at any time.
pub write_batch-acknowledged :
    (now : ℤ) (outs : List AppendOutcome) (synced : Bool) (rs : List Record) (s : DiskStore)
    → AllBatched rs
    → (write_batch outs synced rs s).1 ≡ true
    → (write_batch outs synced rs s).0
      ≡ record s { wal = s.wal ++ log_of rs; mem = effects now rs s.mem }
unfolding write_batch
write_batch-acknowledged now outs synced [] s b h =
    unfold log_of effects in ground (arith, append-nil s.wal)
write_batch-acknowledged now outs synced (r ∷ rs) s b h =
    let mem = apply_batch-effects now (r ∷ rs) s.mem b in
    ground (arith, append_all-log (r ∷ rs) s.wal outs)

-- A single request is logged with its effect, or leaves both the log and the memory as they are.
abbrev pub Logged : ℤ → Record → DiskStore → DiskStore → Type 0
Logged now r s s' =
    (s' ≡ record s { wal = s.wal ++ append_record r; mem = effect now r s.mem }) ⊎ (s' ≡ s)

cas-Logged :
    (now : ℤ) (key old new : Bytes) (s : DiskStore)
    → (effect now (cas_record key old new) s.mem)
      ≡ (cas_entry key old new s.mem (lookup key s.mem.items)).0
    → Logged now
        (cas_record key old new)
        s
        (cas_compared written true key old new s (found (lookup key s.mem.items))).0
unfolding cas_compared cas put
cas-Logged now key old new s c = elim (Option-cases (lookup key s.mem.items)) [
  | inl e ↦ inr (ground arith)
  | inr (x, e) ↦ elim (Bool-cases (bytes_eq x.value old)) [
    | inl same ↦ inl (ground arith)
    | inr other ↦ inr (ground arith)
  ]
]

pub write_single-Logged :
    (t : Readings) (r : Record) (s : DiskStore)
    → IsPlain r
    → NoDeadlines s.mem.items
    → Logged t.now r s (write_single written true t r s).0
unfolding write_single
write_single-Logged t (put_record key value) s p h = inr refl
write_single-Logged t (delete_record key) s p h = inr refl
write_single-Logged t clear_record s p h = inr refl
write_single-Logged t (incr_record key) s p h = inl (unfold effect in refl)
write_single-Logged t (cas_record key old new) s p h =
    let g = get-steady t.now t.again key s.mem h in
    let c : effect t.now (cas_record key old new) s.mem
        ≡ (cas_entry key old new s.mem (lookup key s.mem.items)).0 =
      unfold effect in
      ap (λ (x : MemStore × Result Bool). x.0) (cas-steady t.now key old new s.mem h) in
    rw g (cas-Logged t.now key old new s c)
write_single-Logged t (expire_record key expires_at) s p h = absurd p
