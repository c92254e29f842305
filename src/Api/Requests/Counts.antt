-- ===== src/Api/Requests/Counts.antt =====
-- The key counter and the request counters (pkg/api/metrics.go, handlers.go).
use mathlib.Core.Path.{subst}
use kv_store.Common.{sym, ◌≡◌, ◌≢◌, refl, Bytes, suc_ℤ}
use kv_store.Storage.Engine.{Result, err, Error}
use kv_store.Api.{Engine, Server, whole}
use kv_store.Api.Handlers.{handle_put, put_response}
use kv_store.Api.Requests.Deadlines.{write_error-status}

-- A Put of a key that the engine does not have, and that the engine refuses, is counted as a new key all the same,
-- and answered with another status than 200.
pub handle_put-counts_refused :
    (S : Type 0) (engine : Engine S) (uri key body : Bytes) (s : Server S) (e : Error)
    → (engine.get key s.store).1 ≡ err Error.not_found
    → (engine.put key body (engine.get key s.store).0).1 ≡ err e
    → ((handle_put engine uri key (whole body) s).0.metrics.total_keys ≡ suc_ℤ s.metrics.total_keys)
      × ((handle_put engine uri key (whole body) s).1.status ≢ 200)
unfolding handle_put
handle_put-counts_refused S engine uri key body s e g p = (
  rw g refl,
  subst (λ (r : Result (Unit {0})). (put_response uri key r).status ≢ 200) (sym p)
      (write_error-status uri e),
)
