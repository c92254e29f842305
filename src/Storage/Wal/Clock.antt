-- ===== src/Storage/Wal/Clock.antt =====
-- The clock of a replay (pkg/storage/wal.go): `applyRecord` evaluates Incr, CAS and Expire at the time of the
-- replay, not at the time at which they were acknowledged.
use kv_store.Common.{
  ◌≡◌, refl, ℤ, pos, leb_ℤ, ◌==ℤ◌, true, false, none, some, List, [], ◌∷◌, Bytes, bytes_eq_refl,
  if◌then◌else◌, arith,
}
use kv_store.Common.Dict.{lookup, insert, lookup-insert, lookup-erase}
use kv_store.Storage.MemStore.{Entry, MemStore, entry, entry_expired, put, cas, expire, lookup_live}
use kv_store.Storage.MemStore.View.{view, view-put}
use kv_store.Storage.Wal.{Record, put_record, cas_record, expire_record, replay, restored}
use kv_store.Storage.Wal.Records.{effect}
use kv_store.Storage.Wal.Replay.{effects, log_of, AllLoggable, replay-log}

-- A key is put, given a deadline and swapped.
abbrev pub swap_log : Bytes → Bytes → Bytes → ℤ → List Record
swap_log key old new deadline =
    put_record key old ∷ expire_record key deadline ∷ cas_record key old new ∷ []

put-expire :
    (now deadline : ℤ) (key old : Bytes) (m : MemStore)
    → effect now (expire_record key deadline) (put key old m) ≡ record m {
      items = insert key (record { value = old; exp = deadline }) (insert key (entry old) m.items);
    }
unfolding effect put expire lookup_live entry_expired
put-expire now deadline key old m =
    ground (arith, lookup-insert key key (entry old) m.items, bytes_eq_refl key)

cas-at :
    (now : ℤ) (key old new : Bytes) (e : Entry) (m : MemStore)
    → lookup key m.items ≡ some e
    → e.value ≡ old
    → effect now (cas_record key old new) m
      ≡ (if entry_expired e now then (lookup_live now key m).0 else put key new m)
unfolding effect cas lookup_live put
cas-at now key old new e m at same = ground (arith, bytes_eq_refl old)

put-effect :
    (now : ℤ) (key old : Bytes) (m : MemStore) → effect now (put_record key old) m ≡ put key old m
unfolding effect
put-effect now key old m = refl

view-swapped :
    (later : ℤ) (key new : Bytes) (m : MemStore) → view later (put key new m) key ≡ some (entry new)
unfolding put entry_expired
view-swapped later key new m =
    ground (arith, view-put later key key (entry new) m, bytes_eq_refl key)

view-dropped :
    (later : ℤ) (key : Bytes) (e : Entry) (m : MemStore)
    → lookup key m.items ≡ some e
    → entry_expired e later ≡ true
    → view later (lookup_live later key m).0 key ≡ none
unfolding view lookup_live
view-dropped later key e m at dead = ground (arith, lookup-erase key key m.items, bytes_eq_refl key)

module _ (now later deadline : ℤ) (key old new : Bytes) (m : MemStore)
    (early : leb_ℤ deadline now ≡ false) (late : leb_ℤ deadline later ≡ true)
    (real : (deadline ==ℤ pos 0) ≡ false) where
  abbrev put_entry : Entry
  put_entry = record { value = old; exp = deadline }

  abbrev timed : MemStore
  timed = record m { items = insert key put_entry (insert key (entry old) m.items) }

  found-timed : lookup key timed.items ≡ some put_entry
  found-timed =
      ground
        (arith, lookup-insert key key put_entry (insert key (entry old) m.items), bytes_eq_refl key)

  swap_now : view later (effects now (swap_log key old new deadline) m) key ≡ some (entry new)
  unfolding effects
  swap_now =
      let alive : entry_expired put_entry now ≡ false = unfold entry_expired in ground arith in
      rw
        (
          put-effect now key old m,
          put-expire now deadline key old m,
          cas-at now key old new put_entry timed found-timed refl,
          alive,
        )
        (view-swapped later key new timed)

  swap_later : view later (effects later (swap_log key old new deadline) m) key ≡ none
  unfolding effects
  swap_later =
      let dead : entry_expired put_entry later ≡ true = unfold entry_expired in ground arith in
      rw
        (
          put-effect later key old m,
          put-expire later deadline key old m,
          cas-at later key old new put_entry timed found-timed refl,
          dead,
        )
        (view-dropped later key put_entry timed found-timed dead)

  -- A store puts a key, gives it a deadline and swaps its value, all before the deadline, which takes the deadline
  -- away: the key has the swapped value at any time after. The replay of the log of the three, with fields that the
  -- log's reader accepts, onto the same store, at a time that is past the deadline, succeeds, and leaves no value.
  pub replay_loses_swap :
      AllLoggable (swap_log key old new deadline)
      → (view later (cas now key old new (expire now key deadline (put key old m)).0).0 key
          ≡ some (entry new))
        × ((m' : MemStore) × (replay later (log_of (swap_log key old new deadline)) m ≡ restored m')
            × (view later m' key ≡ none))
  unfolding effects effect
  replay_loses_swap fit = (
    swap_now,
    (
      effects later (swap_log key old new deadline) m,
      replay-log later (swap_log key old new deadline) m fit,
      swap_later,
    ),
  )
