-- ===== src/Api/Requests.antt =====
-- pkg/api/middleware.go and server.go: a routed request through the check of its key, its handler and the record of
-- its status. The answer to a preflight and the recovery from a panic are not modelled.
pub mod Deadlines
pub mod Keyed
pub mod Keys
pub mod Pages
pub mod Counts
use kv_store.Common.{ℕ, ℤ, Bool, true, false, Option, List, Bytes, if◌then◌else◌}
use kv_store.Storage.Engine.{KeyValue, Result, ok, err}
use kv_store.Storage.MemStore.{MemStore, get, put, delete, incr, cas, expire}
use kv_store.Storage.MemStore.Scan.{scan}
use kv_store.Api.{Engine, Server, Metrics, Response, problem, respond, Body, record_request, is_key}
use kv_store.Api.Handlers.{
  handle_get, handle_put, handle_delete, handle_expire, handle_incr, handle_cas, handle_scan,
}

-- The routes under `/kv/{key}`, and `GET /kv`.
pub data Call : Type 0 where
  get_key delete_key incr_key : (key : Bytes) → Call
  put_key cas_key : (key : Bytes) → Body → Call
  expire_key : (key ttl : Bytes) → Call
  scan_keys : (cursor count pattern : Bytes) → Call

-- The `engine` of a node that stores in memory, at a reading of the clock.
abbrev pub mem_engine : ℤ → Engine MemStore
mem_engine now = record {
  get = λ key m. get now now key m;
  put = λ key value m. (put key value m, ok tt);
  delete = λ key m. (delete key m, ok tt);
  incr = λ key m. incr now key m;
  cas = λ key old new m. cas now key old new m;
  expire = λ key at m. expire now key at m;
  scan = λ cursor count pattern m. (m, scan now cursor count pattern m);
}

module _ {S : Type 0} (engine : Engine S) (decode : Bytes → Option (Bytes × Bytes)) (uri : Bytes)
    (now : ℕ) where
  -- `validateKey` around a handler.
  abbrev pub validated : Bytes → Server S → Server S × Response → Server S × Response
  validated key s handled = if is_key key then handled else (s, respond 400 problem)

  unfoldable pub handle : Call → Server S → Server S × Response
  handle (get_key key) s = validated key s (handle_get engine key s)
  handle (put_key key body) s = validated key s (handle_put engine uri key body s)
  handle (delete_key key) s = validated key s (handle_delete engine uri key s)
  handle (expire_key key ttl) s = validated key s (handle_expire engine uri key now ttl s)
  handle (incr_key key) s = validated key s (handle_incr engine uri key s)
  handle (cas_key key body) s = validated key s (handle_cas engine decode uri key body s)
  handle (scan_keys cursor count pattern) s = handle_scan engine cursor count pattern s

  -- `logRequests`; `d` is how long the request took.
  unfoldable pub serve : (d : ℕ) → Call → Server S → Server S × Response
  unfolding handle
  serve d call s =
      let (s', r) = handle call s in
      (record s' { metrics = record_request r.status d s'.metrics }, r)
