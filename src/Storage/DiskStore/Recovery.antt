-- ===== src/Storage/DiskStore/Recovery.antt =====
-- What a restart finds after acknowledged writes (pkg/storage/wal.go and batcher.go).
use mathlib.Core.List.{append-nil}
use mathlib.Core.Path.{subst}
use kv_store.Common.{
  ◌≡◌, refl, sym, ap, ◌∙◌, ℤ, pos, Bool, true, false, none, some, List, [], ◌∷◌, ◌++◌, Bytes, inl,
  inr,
}
use kv_store.Storage.Engine.{Result}
use kv_store.Storage.MemStore.{MemStore, Entry, new_mem_store, get}
use kv_store.Storage.Wal.{
  Record, put_record, delete_record, clear_record, incr_record, cas_record, expire_record,
  append_record, replay, restored,
}
use kv_store.Storage.Wal.Records.{IsLoggable, effect}
use kv_store.Storage.Wal.Replay.{log_of, effects, AllLoggable, replay-log}
use kv_store.Storage.DiskStore.{
  DiskStore, AppendOutcome, opened, replayed_onto, written, write_batch, Readings, write_single,
  open_disk_store, compact,
}
use kv_store.Storage.DiskStore.Alike.{Alike, effects-Alike}
use kv_store.Storage.SnapshotFile.{Json, load_snapshot}
use kv_store.Storage.SnapshotFile.Load.{IsJson, load_snapshot-plain}
use kv_store.Common.Dict.{Dict, lookup}
use kv_store.Storage.DiskStore.Steady.{NoDeadlines, IsPlain, effect-Steady, get-steady}
use kv_store.Storage.DiskStore.Acknowledged.{
  AllBatched, AllPlain, effects-append, log_of-append, AllLoggable-append, write_batch-acknowledged,
  write_single-Logged,
}

-- A store whose snapshot is loaded to a map, from which a replay of its log gives, at every reading of the clock, a map
-- that agrees with its memory.
pub record IsRecoverable (j : Json) (s : DiskStore) : Type 0 where
  pub base : MemStore
  pub loaded : load_snapshot j none s.snapshot new_mem_store ≡ some base
  pub records : List Record
  pub loggable : AllLoggable records
  pub logged : s.wal ≡ log_of records
  pub replayed : (t : ℤ) → Alike (effects t records base) s.mem
  pub no_deadlines : NoDeadlines s.mem.items

-- One acknowledged step: a batch, a single request whose write and sync succeed, a read, and a compaction of a map of
-- text, since JSON replaces other bytes.
pub data Acked (j : Json) (IsText : Dict Entry → Type 0) (s : DiskStore) : DiskStore → Type 0 where
  batch :
      (outs : List AppendOutcome) (synced : Bool) (rs : List Record)
      → AllBatched rs
      → AllLoggable rs
      → (write_batch outs synced rs s).1 ≡ true
      → Acked j IsText s (write_batch outs synced rs s).0
  single :
      (t : Readings) (r : Record)
      → IsPlain r
      → IsLoggable r
      → Acked j IsText s (write_single written true t r s).0
  read :
      (now again : ℤ) (key : Bytes)
      → Acked j IsText s (record s { mem = (get now again key s.mem).0 })
  compaction : IsText s.mem.items → Acked j IsText s (compact j s)

pub data Run (j : Json) (IsText : Dict Entry → Type 0) (s : DiskStore) : DiskStore → Type 0 where
  here : Run j IsText s s
  next : {u v : DiskStore} → Run j IsText s u → Acked j IsText u v → Run j IsText s v

effects-steady :
    (now : ℤ) (rs : List Record) (m : MemStore)
    → AllPlain rs
    → NoDeadlines m.items
    → ((later : ℤ) → effects later rs m ≡ effects now rs m) × NoDeadlines (effects now rs m).items
unfolding effects
effects-steady now [] m p h = (λ t. refl, h)
effects-steady now (r ∷ rs) m p h =
    let s = effect-Steady now r m p.0 h in
    let rest = effects-steady now rs (effect now r m) p.1 s.no_deadlines in
    (λ t. ap (effects t rs) (s.any_time t) ∙ rest.0 t, rest.1)

AllBatched-AllPlain : (rs : List Record) → AllBatched rs → AllPlain rs
AllBatched-AllPlain [] b = tt
AllBatched-AllPlain (put_record key value ∷ rs) b = (tt, AllBatched-AllPlain rs b.1)
AllBatched-AllPlain (delete_record key ∷ rs) b = (tt, AllBatched-AllPlain rs b.1)
AllBatched-AllPlain (clear_record ∷ rs) b = (tt, AllBatched-AllPlain rs b.1)
AllBatched-AllPlain (incr_record key ∷ rs) b = absurd b.0
AllBatched-AllPlain (cas_record key old new ∷ rs) b = absurd b.0
AllBatched-AllPlain (expire_record key expires_at ∷ rs) b = absurd b.0

module _ (j : Json) where
  -- Further records on the log, with their effects on the memory, keep the store recoverable.
  extend-IsRecoverable :
      (now : ℤ) (rs : List Record) (s : DiskStore)
      → AllPlain rs
      → AllLoggable rs
      → IsRecoverable j s
      → IsRecoverable j (record s { wal = s.wal ++ log_of rs; mem = effects now rs s.mem })
  extend-IsRecoverable now rs s p fit w =
      let e = effects-steady now rs s.mem p w.no_deadlines in
      record {
        base = w.base;
        loaded = w.loaded;
        records = w.records ++ rs;
        loggable = AllLoggable-append w.records rs w.loggable fit;
        logged = ap (λ (l : Bytes). l ++ log_of rs) w.logged ∙ sym (log_of-append w.records rs);
        replayed = λ t k.
            ap (λ (m : MemStore). lookup k m.items) (effects-append t w.records rs w.base)
            ∙ (effects-Alike t rs (effects t w.records w.base) s.mem (w.replayed t) k
                ∙ ap (λ (m : MemStore). lookup k m.items) (e.0 t));
        no_deadlines = e.1;
      }

  single-IsRecoverable :
      (t : Readings) (r : Record) (s : DiskStore)
      → IsPlain r
      → IsLoggable r
      → IsRecoverable j s
      → IsRecoverable j (write_single written true t r s).0
  single-IsRecoverable t r s p fit w = elim (write_single-Logged t r s p w.no_deadlines) [
    | inl e ↦
        subst (IsRecoverable j)
          (ap (λ (l : Bytes). record s { wal = s.wal ++ l; mem = effect t.now r s.mem })
              (append-nil (append_record r))
            ∙ sym e)
          (unfold log_of effects in extend-IsRecoverable t.now (r ∷ []) s (p, tt) (fit, tt) w)
    | inr e ↦ subst (IsRecoverable j) (sym e) w
  ]

module _ (j : Json) (IsText : Dict Entry → Type 0) (codec : IsJson j IsText) where
  compact-IsRecoverable :
      (s : DiskStore) → IsText s.mem.items → IsRecoverable j s → IsRecoverable j (compact j s)
  unfolding compact
  compact-IsRecoverable s text w =
      let (m, e, same) = load_snapshot-plain j IsText s.mem new_mem_store codec text in
      record {
        base = m;
        loaded = e;
        records = [];
        loggable = tt;
        logged = unfold log_of in refl;
        replayed = λ t. unfold effects in same;
        no_deadlines = w.no_deadlines;
      }

  Acked-IsRecoverable :
      (s u : DiskStore) → Acked j IsText s u → IsRecoverable j s → IsRecoverable j u
  Acked-IsRecoverable s _ (batch outs synced rs b fit ack) w =
      subst (IsRecoverable j) (sym (write_batch-acknowledged (pos 0) outs synced rs s b ack))
        (extend-IsRecoverable j (pos 0) rs s (AllBatched-AllPlain rs b) fit w)
  Acked-IsRecoverable s _ (single t r p fit) w = single-IsRecoverable j t r s p fit w
  Acked-IsRecoverable s _ (read now again key) w =
      subst (IsRecoverable j)
        (ap (λ (x : MemStore × Result Bytes). record s { mem = x.0 })
          (sym (get-steady now again key s.mem w.no_deadlines)))
        w
  Acked-IsRecoverable s _ (compaction text) w = compact-IsRecoverable s text w

  Run-IsRecoverable : (s u : DiskStore) → Run j IsText s u → IsRecoverable j s → IsRecoverable j u
  Run-IsRecoverable s _ here w = w
  Run-IsRecoverable s _ (next {u} {v} run step) w =
      Acked-IsRecoverable u v step (Run-IsRecoverable s u run w)

abbrev pub empty_disk_store : DiskStore
empty_disk_store = record { mem = new_mem_store; wal = []; snapshot = none; closed = false }

empty-IsRecoverable : (j : Json) → IsRecoverable j empty_disk_store
unfolding log_of effects load_snapshot
empty-IsRecoverable j = record {
  base = new_mem_store;
  loaded = refl;
  records = [];
  loggable = tt;
  logged = refl;
  replayed = λ t k. refl;
  no_deadlines = tt;
}

-- Take any run from the empty store of acknowledged batches, of single requests other than Expire whose write and sync
-- succeed, of reads, and of compactions of maps of text, with fields that the log's reader accepts, where JSON gives
-- text back. Opening the files it leaves, at any time, succeeds, keeps the files, and gives a store whose memory has
-- under every key the entry that the run left there.
pub open_disk_store-Run :
    (j : Json) (IsText : Dict Entry → Type 0) (u : DiskStore) (now : ℤ)
    → IsJson j IsText
    → Run j IsText empty_disk_store u
    → (m : MemStore) × (open_disk_store j now u.wal u.snapshot
        ≡ some (record { mem = m; wal = u.wal; snapshot = u.snapshot; closed = false }))
      × ((k : Bytes) → lookup k m.items ≡ lookup k u.mem.items)
unfolding open_disk_store
open_disk_store-Run j IsText u now codec run =
    let w = Run-IsRecoverable j IsText codec empty_disk_store u run (empty-IsRecoverable j) in
    let e : replay now u.wal w.base ≡ restored (effects now w.records w.base) =
      ap (λ (l : Bytes). replay now l w.base) w.logged
      ∙ replay-log now w.records w.base w.loggable in
    (
      effects now w.records w.base,
      ap (replayed_onto now u.wal u.snapshot) w.loaded ∙ ap (opened u.wal u.snapshot) e,
      w.replayed now,
    )
