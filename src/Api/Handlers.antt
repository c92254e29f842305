-- ===== src/Api/Handlers.antt =====
-- pkg/api/handlers.go: one function per handler, over any engine.
use kv_store.Common.{
  ℕ, ◌+◌, ℤ, pos, negsuc, Bool, true, false, ◌||◌, Option, none, some, List, [], ◌∷◌, ◌++◌, Bytes,
  length, ltb, ◌==◌, if◌then◌else◌,
}
use kv_store.Storage.Engine.{KeyValue, Result, ok, err, Error}
use kv_store.Storage.Strconv.{parse_int}
use kv_store.Api.{
  Engine, Server, Response, nothing, problem, value, stored, number, items, location, respond, Body,
  whole, too_large, unreadable, incr_keys, decr_keys, max_ttl, default_count, max_count,
  max_cursor_len, max_pattern_len,
}

-- `handleWriteError`, with the response to the error that is written where it consumes none.
unfoldable pub write_error : (uri : Bytes) → Error → Response
write_error uri (Error.not_leader []) = respond 503 problem
write_error uri (Error.not_leader (a ∷ addr)) = respond 307 (location ((a ∷ addr) ++ uri))
write_error uri _ = respond 500 problem

-- `ErrNotFound` first, where the handler asks for it.
abbrev pub found_error : Bytes → Error → Response
found_error uri Error.not_found = respond 404 problem
found_error uri e = write_error uri e

abbrev pub is_missing : Result Bytes → Bool
is_missing (err Error.not_found) = true
is_missing _ = false

abbrev pub is_present : Result Bytes → Bool
is_present (ok _) = true
is_present (err _) = false

abbrev pub get_response : Result Bytes → Response
get_response (ok v) = respond 200 (value v)
get_response (err Error.not_found) = respond 404 problem
get_response (err _) = respond 500 problem

abbrev pub put_response : Bytes → Bytes → Result (Unit {0}) → Response
put_response uri key (ok _) = respond 200 (stored key)
put_response uri key (err e) = write_error uri e

abbrev pub delete_response : Bytes → Result (Unit {0}) → Response
delete_response uri (ok _) = respond 200 nothing
delete_response uri (err e) = write_error uri e

abbrev pub expire_response : Bytes → Bytes → Result (Unit {0}) → Response
expire_response uri key (ok _) = respond 200 (stored key)
expire_response uri key (err e) = found_error uri e

abbrev pub incr_response : Bytes → Bytes → Result ℤ → Response
incr_response uri key (ok v) = respond 200 (number key v)
incr_response uri key (err Error.not_numeric) = respond 422 problem
incr_response uri key (err Error.overflow) = respond 422 problem
incr_response uri key (err e) = write_error uri e

abbrev pub cas_response : Bytes → Bytes → Result Bool → Response
cas_response uri key (ok true) = respond 200 (stored key)
cas_response uri key (ok false) = respond 409 problem
cas_response uri key (err e) = found_error uri e

abbrev pub scan_response : Result (List KeyValue × Bytes) → Response
scan_response (ok (page, next)) = respond 200 (items page next)
scan_response (err _) = respond 500 problem

module _ {S : Type 0} (engine : Engine S) where
  unfoldable pub handle_get : Bytes → Server S → Server S × Response
  handle_get key s = let (t, r) = engine.get key s.store in (record s { store = t }, get_response r)

  unfoldable pub handle_put : (uri key : Bytes) → Body → Server S → Server S × Response
  handle_put uri key too_large s = (s, respond 413 problem)
  handle_put uri key unreadable s = (s, respond 400 problem)
  handle_put uri key (whole body) s =
      let (t, seen) = engine.get key s.store in
      let m = if is_missing seen then incr_keys s.metrics else s.metrics in
      let (u, r) = engine.put key body t in
      (record { store = u; metrics = m }, put_response uri key r)

  unfoldable pub handle_delete : (uri key : Bytes) → Server S → Server S × Response
  handle_delete uri key s =
      let (t, seen) = engine.get key s.store in
      let m = if is_present seen then decr_keys s.metrics else s.metrics in
      let (u, r) = engine.delete key t in (record { store = u; metrics = m }, delete_response uri r)

  -- A lifetime that is accepted.
  abbrev pub accepted_ttl : Option ℤ → Option ℕ
  accepted_ttl none = none
  accepted_ttl (some (negsuc n)) = none
  accepted_ttl (some (pos n)) = if (n == 0) || ltb max_ttl n then none else some n

  abbrev pub expire_within :
      (uri key : Bytes) → (now : ℕ) → Option ℕ → Server S → Server S × Response
  expire_within uri key now none s = (s, respond 400 problem)
  expire_within uri key now (some ttl) s =
      let (t, r) = engine.expire key (pos (now + ttl)) s.store in
      (record s { store = t }, expire_response uri key r)

  -- `now` is the time in nanoseconds; a missing `ttl` is an empty one.
  unfoldable pub handle_expire :
      (uri key : Bytes) → ℕ → (ttl : Bytes) → Server S → Server S × Response
  handle_expire uri key now [] s = (s, respond 400 problem)
  handle_expire uri key now (c ∷ ttl) s =
      expire_within uri key now (accepted_ttl (parse_int (c ∷ ttl))) s

  unfoldable pub handle_incr : (uri key : Bytes) → Server S → Server S × Response
  handle_incr uri key s =
      let (t, r) = engine.incr key s.store in (record s { store = t }, incr_response uri key r)

  abbrev pub cas_decoded :
      (uri key : Bytes) → Option (Bytes × Bytes) → Server S → Server S × Response
  cas_decoded uri key none s = (s, respond 400 problem)
  cas_decoded uri key (some (old, new)) s =
      let (t, r) = engine.cas key old new s.store in
      (record s { store = t }, cas_response uri key r)

  -- `decode` is the decoding of the body.
  unfoldable pub handle_cas :
      (decode : Bytes → Option (Bytes × Bytes))
      → (uri key : Bytes) → Body
      → Server S
      → Server S × Response
  handle_cas decode uri key too_large s = (s, respond 413 problem)
  handle_cas decode uri key unreadable s = (s, respond 400 problem)
  handle_cas decode uri key (whole body) s = cas_decoded uri key (decode body) s

  -- `strconv.Atoi` on a 64-bit machine, and the bounds.
  abbrev pub counted : Option ℤ → Option ℕ
  counted none = none
  counted (some (negsuc n)) = none
  counted (some (pos n)) = if ltb n 1 || ltb max_count n then none else some n

  abbrev pub count_of : Bytes → Option ℕ
  count_of [] = some default_count
  count_of (c ∷ cs) = counted (parse_int (c ∷ cs))

  abbrev pub scan_from : Bytes → Option ℕ → Bytes → Server S → Server S × Response
  scan_from cursor none pattern s = (s, respond 400 problem)
  scan_from cursor (some n) pattern s =
      if ltb max_pattern_len (length pattern)
      then (s, respond 400 problem)
      else (let (t, r) = engine.scan cursor (pos n) pattern s.store in
          (record s { store = t }, scan_response r))

  unfoldable pub handle_scan : (cursor count pattern : Bytes) → Server S → Server S × Response
  handle_scan cursor count pattern s =
      if ltb max_cursor_len (length cursor)
      then (s, respond 400 problem)
      else scan_from cursor (count_of count) pattern s
