-- ===== src/Api/Requests/Keys.antt =====
-- What the handlers (pkg/api) keep of a store in memory: a map without a key twice, and no empty key.
use kv_store.Storage.Strconv.{parse_int}
use kv_store.Common.{
  ◌+◌, ltb, length, ℕ, ◌≡◌, pos, true, Option, none, some, [], ◌∷◌, Bytes, arith, Bool-cases, inl,
  inr,
}
use kv_store.Storage.MemStore.{MemStore, get, delete}
use kv_store.Api.{
  Engine, Server, is_key, whole, too_large, unreadable, Body, Response, max_pattern_len,
  max_cursor_len,
}
use kv_store.Api.Handlers.{
  handle_get, handle_put, handle_delete, handle_expire, handle_incr, handle_cas, handle_scan,
  expire_within, accepted_ttl, cas_decoded, scan_from, count_of,
}
use kv_store.Api.Requests.{
  Call, get_key, delete_key, incr_key, put_key, cas_key, expire_key, scan_keys, mem_engine, handle,
  serve, validated,
}
use kv_store.Api.Requests.Keyed.{
  IsKeyed, erase-IsKeyed, get-IsKeyed, put-IsKeyed, incr-IsKeyed, cas-IsKeyed, expire-IsKeyed,
}

-- What a handler leaves, by the request; the key of a checked request is not empty.
module _ (decode : Bytes → Option (Bytes × Bytes)) (uri : Bytes) (now : ℕ) where
  abbrev engine : Engine MemStore
  engine = mem_engine (pos now)

  checked :
      (key : Bytes) (s : Server MemStore) (handled : Server MemStore × Response)
      → IsKeyed s.store
      → (is_key key ≡ true → IsKeyed handled.0.store)
      → IsKeyed (validated engine decode uri now key s handled).0.store
  checked key s handled k h = elim (Bool-cases (is_key key)) [
    | inl good ↦ rw good (h good)
    | inr bad ↦ rw bad k
  ]

  put-Keeps :
      (key : Bytes) (body : Body) (s : Server MemStore)
      → IsKeyed s.store
      → is_key key ≡ true
      → IsKeyed (handle_put engine uri key body s).0.store
  unfolding handle_put is_key
  put-Keeps [] body s k h = absurd (ground arith)
  put-Keeps (c ∷ key) too_large s k h = k
  put-Keeps (c ∷ key) unreadable s k h = k
  put-Keeps (c ∷ key) (whole v) s k h =
      put-IsKeyed (pos now) c key v (get (pos now) (pos now) (c ∷ key) s.store).0
        (get-IsKeyed (pos now) (c ∷ key) s.store k)

  delete-Keeps :
      (key : Bytes) (s : Server MemStore)
      → IsKeyed s.store
      → IsKeyed (handle_delete engine uri key s).0.store
  unfolding handle_delete delete
  delete-Keeps key s k =
      let m = (get (pos now) (pos now) key s.store).0 in
      erase-IsKeyed key m m.expired (get-IsKeyed (pos now) key s.store k)

  expire_within-Keeps :
      (c : ℕ) (key : Bytes) (t : Option ℕ) (s : Server MemStore)
      → IsKeyed s.store
      → IsKeyed (expire_within engine uri (c ∷ key) now t s).0.store
  expire_within-Keeps c key none s k = k
  expire_within-Keeps c key (some n) s k = expire-IsKeyed (pos now) c key (pos (now + n)) s.store k

  expire-Keeps :
      (key ttl : Bytes) (s : Server MemStore)
      → IsKeyed s.store
      → is_key key ≡ true
      → IsKeyed (handle_expire engine uri key now ttl s).0.store
  unfolding handle_expire is_key
  expire-Keeps [] ttl s k h = absurd (ground arith)
  expire-Keeps (c ∷ key) [] s k h = k
  expire-Keeps (c ∷ key) (d ∷ ttl) s k h =
      expire_within-Keeps c key (accepted_ttl engine (parse_int (d ∷ ttl))) s k

  incr-Keeps :
      (key : Bytes) (s : Server MemStore)
      → IsKeyed s.store
      → is_key key ≡ true
      → IsKeyed (handle_incr engine uri key s).0.store
  unfolding handle_incr is_key
  incr-Keeps [] s k h = absurd (ground arith)
  incr-Keeps (c ∷ key) s k h = incr-IsKeyed (pos now) c key s.store k

  cas_decoded-Keeps :
      (c : ℕ) (key : Bytes) (o : Option (Bytes × Bytes)) (s : Server MemStore)
      → IsKeyed s.store
      → IsKeyed (cas_decoded engine uri (c ∷ key) o s).0.store
  cas_decoded-Keeps c key none s k = k
  cas_decoded-Keeps c key (some (old, new)) s k = cas-IsKeyed (pos now) c key old new s.store k

  cas-Keeps :
      (key : Bytes) (body : Body) (s : Server MemStore)
      → IsKeyed s.store
      → is_key key ≡ true
      → IsKeyed (handle_cas engine decode uri key body s).0.store
  unfolding handle_cas is_key
  cas-Keeps [] body s k h = absurd (ground arith)
  cas-Keeps (c ∷ key) too_large s k h = k
  cas-Keeps (c ∷ key) unreadable s k h = k
  cas-Keeps (c ∷ key) (whole body) s k h = cas_decoded-Keeps c key (decode body) s k

  scan_from-Keeps :
      (cursor : Bytes) (n : Option ℕ) (pattern : Bytes) (s : Server MemStore)
      → IsKeyed s.store
      → IsKeyed (scan_from engine cursor n pattern s).0.store
  scan_from-Keeps cursor none pattern s k = k
  scan_from-Keeps cursor (some n) pattern s k =
      elim (Bool-cases (ltb max_pattern_len (length pattern))) [
        | inl long ↦ rw long k
        | inr short ↦ rw short k
      ]

  scan-Keeps :
      (cursor count pattern : Bytes) (s : Server MemStore)
      → IsKeyed s.store
      → IsKeyed (handle_scan engine cursor count pattern s).0.store
  unfolding handle_scan
  scan-Keeps cursor count pattern s k = elim (Bool-cases (ltb max_cursor_len (length cursor))) [
    | inl long ↦ rw long k
    | inr short ↦ rw short (scan_from-Keeps cursor (count_of engine count) pattern s k)
  ]

  handle-IsKeyed :
      (call : Call) (s : Server MemStore)
      → IsKeyed s.store
      → IsKeyed (handle engine decode uri now call s).0.store
  unfolding handle
  handle-IsKeyed (get_key key) s k =
      checked key s (handle_get engine key s) k
        (λ _. unfold handle_get in get-IsKeyed (pos now) key s.store k)
  handle-IsKeyed (put_key key body) s k =
      checked key s (handle_put engine uri key body s) k (put-Keeps key body s k)
  handle-IsKeyed (delete_key key) s k =
      checked key s (handle_delete engine uri key s) k (λ _. delete-Keeps key s k)
  handle-IsKeyed (expire_key key ttl) s k =
      checked key s (handle_expire engine uri key now ttl s) k (expire-Keeps key ttl s k)
  handle-IsKeyed (incr_key key) s k =
      checked key s (handle_incr engine uri key s) k (incr-Keeps key s k)
  handle-IsKeyed (cas_key key body) s k =
      checked key s (handle_cas engine decode uri key body s) k (cas-Keeps key body s k)
  handle-IsKeyed (scan_keys cursor count pattern) s k = scan-Keeps cursor count pattern s k

-- Every request leaves a store in memory with no key twice and no empty key, if it had none before.
pub serve-IsKeyed :
    (decode : Bytes → Option (Bytes × Bytes)) (uri : Bytes) (now d : ℕ) (call : Call)
    (s : Server MemStore)
    → IsKeyed s.store
    → IsKeyed (serve (mem_engine (pos now)) decode uri now d call s).0.store
unfolding serve
serve-IsKeyed decode uri now d call s k = handle-IsKeyed decode uri now call s k
