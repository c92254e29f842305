-- ===== src/Api/Requests/Deadlines.antt =====
-- The deadlines that a request can set (pkg/api/handlers.go) on a store in memory (pkg/storage/memstore.go).
use kv_store.Common.{
  ℕ, ◌+◌, ◌≤◌, ◌≡◌, ◌≢◌, refl, sym, ◌∙◌, ℤ, pos, negsuc, Option, none, some, [], ◌∷◌, Bytes,
  bytes_eq_refl, ltb, if◌then◌else◌, arith, Option-cases, inl, inr,
}
use kv_store.Common.Dict.{lookup, lookup-insert}
use kv_store.Storage.Engine.{Result, ok, err, Error}
use kv_store.Storage.Strconv.{parse_int}
use kv_store.Storage.MemStore.{MemStore, Entry, entry_expired, lookup_live, expire}
use kv_store.Storage.MemStore.View.{view, lookup_live-view, alive}
use kv_store.Api.{Engine, Server, max_ttl}
use kv_store.Api.Handlers.{
  write_error, found_error, handle_expire, expire_within, accepted_ttl, expire_response,
}
use kv_store.Api.Requests.{mem_engine}

pub write_error-status : (uri : Bytes) (e : Error) → (write_error uri e).status ≢ 200
unfolding write_error
write_error-status uri (Error.not_leader []) = ground arith
write_error-status uri (Error.not_leader (a ∷ addr)) = ground arith
write_error-status uri Error.not_found = ground arith
write_error-status uri Error.closed = ground arith
write_error-status uri Error.not_numeric = ground arith
write_error-status uri Error.overflow = ground arith
write_error-status uri Error.invalid_cursor = ground arith
write_error-status uri Error.other = ground arith

found_error-status : (uri : Bytes) (e : Error) → (found_error uri e).status ≢ 200
found_error-status uri (Error.not_leader a) = write_error-status uri (Error.not_leader a)
found_error-status uri Error.not_found = ground arith
found_error-status uri Error.closed = write_error-status uri Error.closed
found_error-status uri Error.not_numeric = write_error-status uri Error.not_numeric
found_error-status uri Error.overflow = write_error-status uri Error.overflow
found_error-status uri Error.invalid_cursor = write_error-status uri Error.invalid_cursor
found_error-status uri Error.other = write_error-status uri Error.other

-- An Expire that succeeds found a live entry, and gives it the deadline.
expire-found :
    (now : ℤ) (key : Bytes) (t : ℤ) (m : MemStore)
    → (expire now key t m).1 ≡ ok tt
    → (e : Entry) × (view now m key ≡ some e)
      × (lookup key (expire now key t m).0.items ≡ some (record { value = e.value; exp = t }))
unfolding expire
expire-found now key t m h = elim (Option-cases (lookup_live now key m).1) [
  | inl e ↦ absurd (ground arith)
  | inr (x, e) ↦ (
    x,
    sym (lookup_live-view now key m) ∙ e,
    rw e (
        lookup-insert key key (record { value = x.value; exp = t }) (lookup_live now key m).0.items
        ∙ rw (bytes_eq_refl key) refl),
  )
]

alive-until :
    (v : Bytes) (t later : ℕ)
    → 1 ≤ t
    → alive (pos later) (record { value = v; exp = pos t })
      ≡ (if ltb later t then some (record { value = v; exp = pos t }) else none)
unfolding entry_expired
alive-until v t later le = ground arith

accepted_ttl-bounds :
    (S : Type 0) (engine : Engine S) (o : Option ℤ) (n : ℕ)
    → accepted_ttl engine o ≡ some n
    → (1 ≤ n) × (n ≤ max_ttl) × (o ≡ some (pos n))
accepted_ttl-bounds S engine none n h = absurd (ground arith)
accepted_ttl-bounds S engine (some (negsuc k)) n h = absurd (ground arith)
accepted_ttl-bounds S engine (some (pos k)) n h = ground arith

-- Between the acknowledgement and the deadline the key can be seen, and after that it cannot.
abbrev pub IsTimed : Server MemStore → Bytes → ℕ → Entry → ℕ → Type 0
IsTimed s key now e n =
    (later : ℕ)
    → view (pos later) s.store key ≡ (
        if ltb later (now + n)
        then some (record { value = e.value; exp = pos (now + n) })
        else none)

module _ (uri key : Bytes) (now : ℕ) where
  abbrev pub on_memory : Engine MemStore
  on_memory = mem_engine (pos now)

  expired_at :
      (n : ℕ) (s : Server MemStore) (r : Result (Unit {0}))
      → (expire (pos now) key (pos (now + n)) s.store).1 ≡ r
      → (expire_response uri key r).status ≡ 200
      → (expire (pos now) key (pos (now + n)) s.store).1 ≡ ok tt
  expired_at n s (ok tt) e h = e
  expired_at n s (err x) e h = absurd (found_error-status uri x h)

  expire_within-IsTimed :
      (o : Option ℕ) (s : Server MemStore)
      → ((n : ℕ) → o ≡ some n → 1 ≤ n)
      → (expire_within on_memory uri key now o s).1.status ≡ 200
      → (e : Entry) × (n : ℕ) × (view (pos now) s.store key ≡ some e)
        × (o ≡ some n)
        × IsTimed (expire_within on_memory uri key now o s).0 key now e n
  unfolding view
  expire_within-IsTimed none s some_time h = absurd (ground arith)
  expire_within-IsTimed (some n) s some_time h =
      let (e, seen, there) =
        expire-found (pos now) key (pos (now + n)) s.store
          (expired_at n s (expire (pos now) key (pos (now + n)) s.store).1 refl h) in
      let le = some_time n refl in
      (e, n, seen, refl, (λ later. rw there (alive-until e.value (now + n) later (omega arith))))

-- An Expire of a key that is acknowledged with the status 200 was asked for a lifetime from one nanosecond to ten years
-- of 365 days, of a key that could be seen at its time, and leaves it to be seen, with its value, at every time before
-- the lifetime is over, and at none from there on.
pub handle_expire-IsTimed :
    (uri key ttl : Bytes) (now : ℕ) (s : Server MemStore)
    → (handle_expire (mem_engine (pos now)) uri key now ttl s).1.status ≡ 200
    → (e : Entry) × (n : ℕ) × (view (pos now) s.store key ≡ some e)
      × ((1 ≤ n) × (n ≤ max_ttl) × (parse_int ttl ≡ some (pos n)))
      × IsTimed (handle_expire (mem_engine (pos now)) uri key now ttl s).0 key now e n
unfolding handle_expire
handle_expire-IsTimed uri key [] now s h = absurd (ground arith)
handle_expire-IsTimed uri key (c ∷ ttl) now s h =
    let engine = mem_engine (pos now) in
    let bounds = accepted_ttl-bounds MemStore engine (parse_int (c ∷ ttl)) in
    let (e, n, seen, o, timed) =
      expire_within-IsTimed uri key now (accepted_ttl engine (parse_int (c ∷ ttl))) s
        (λ n e. (bounds n e).0) h in
    (e, n, seen, bounds n o, timed)
