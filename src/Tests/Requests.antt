-- ===== src/Tests/Requests.antt =====
-- Runs of requests (pkg/api), of the history checker (pkg/linearizability) and of faults (pkg/chaos).
use kv_store.Common.{
  arith, ℕ, ◌+◌, ◌≤◌, ◌≡◌, pos, none, some, Option, List, [], ◌∷◌, Bytes, bytes_eq, refl, true,
  false, Bool,
}
use kv_store.Common.Dict.{lookup, insert}
use kv_store.Storage.MemStore.{MemStore, Entry, entry, entry_expired, lookup_live, expire}
use kv_store.Storage.MemStore.View.{view}
use kv_store.Storage.Strconv.{parse_int}
use kv_store.Api.{Server, new_metrics, max_ttl, whole}
use kv_store.Api.Handlers.{handle_expire, handle_scan}
use kv_store.Api.Requests.{mem_engine, put_key, serve}
use kv_store.Api.Requests.Keyed.{IsKeyed}
use kv_store.Api.Requests.Keys.{serve-IsKeyed}
use kv_store.Api.Requests.Deadlines.{IsTimed, handle_expire-IsTimed}
use kv_store.Api.Requests.Pages.{IsInRange, IsScanResponse, handle_scan-IsScanResponse}
use kv_store.Linearizability.{Op, write, read}
use kv_store.Chaos.Faults.{
  apply_fault, clear_fault, set_reorder, Rng, FaultConfig, new_fault_config, reordering,
}
use kv_store.Chaos.Faults.Quiet.{IsQuiet, fault_of, apply_and_clear}

abbrev k1 : Bytes
k1 = b'k' ∷ []

abbrev server : Server MemStore
server = record {
  store = record { items = (k1, entry (b'4' ∷ [])) ∷ []; expired = 0 };
  metrics = new_metrics;
}

abbrev no_cas : Bytes → Option (Bytes × Bytes)
no_cas b = none

server-IsKeyed : IsKeyed server.store
unfolding lookup bytes_eq
server-IsKeyed = record { unique = (refl, tt); no_empty = refl }

serve-IsKeyed_example :
    IsKeyed
      (serve (mem_engine (pos 60)) no_cas [] 60 1 (put_key [] (whole (b'5' ∷ []))) server).0.store
serve-IsKeyed_example =
    serve-IsKeyed no_cas [] 60 1 (put_key [] (whole (b'5' ∷ []))) server server-IsKeyed

abbrev ttl : Bytes
ttl = b'3' ∷ b'0' ∷ []

expired_ok : (handle_expire (mem_engine (pos 60)) [] k1 60 ttl server).1.status ≡ 200
unfolding handle_expire parse_int expire lookup_live entry_expired lookup insert bytes_eq
expired_ok = refl

handle_expire-IsTimed_example :
    (e : Entry) × (n : ℕ) × (view (pos 60) server.store k1 ≡ some e)
    × ((1 ≤ n) × (n ≤ max_ttl) × (parse_int ttl ≡ some (pos n)))
    × IsTimed (handle_expire (mem_engine (pos 60)) [] k1 60 ttl server).0 k1 60 e n
handle_expire-IsTimed_example = handle_expire-IsTimed [] k1 ttl 60 server expired_ok

handle_scan-IsScanResponse_example :
    IsScanResponse 60 []
      (b'7' ∷ [])
      (b'*' ∷ [])
      server.store
      (handle_scan (mem_engine (pos 60)) [] (b'7' ∷ []) (b'*' ∷ []) server).1
unfolding lookup
handle_scan-IsScanResponse_example =
    handle_scan-IsScanResponse 60 [] (b'7' ∷ []) (b'*' ∷ []) server (refl, tt)

seven_asked : IsInRange [] (b'7' ∷ []) (b'*' ∷ []) 7
unfolding parse_int
seven_asked = (omega arith, refl, omega arith, omega arith, omega arith)

-- A write and two reads that go back.
abbrev history : List Op
history =
    record { kind = write; seq = 2; reader = []; start = pos 10; end = pos 12 }
    ∷ record { kind = read; seq = 2; reader = k1; start = pos 11; end = pos 13 }
    ∷ record { kind = read; seq = 1; reader = k1; start = pos 14; end = pos 15 }
    ∷ []

-- Fractions are Booleans here, and every draw gives the same.
abbrev source : Rng ℕ Bool
source = record {
  float = λ g. (g + 1, false);
  int_n = λ n g. (g + 1, 0);
  less = λ x y. y;
  is_positive = λ x. x;
  no_rate = false;
}

source-IsQuiet : IsQuiet source (new_fault_config source 7)
unfolding new_fault_config
source-IsQuiet = record {
  none_isolated = λ x. refl;
  no_drop = λ x y. refl;
  no_loss = refl;
  no_dup = refl;
  no_reorder = refl;
  no_delay = (refl, refl);
  no_skew = λ x. refl;
  no_failure = λ x. refl;
}

abbrev after_fault : FaultConfig ℕ Bool
after_fault =
    apply_and_clear source none [] (fault_of reordering [] [] true 5) (new_fault_config source 7)

-- The greatest delay of the cleared fault is still there.
after_fault_delay : (after_fault.delay_min ≡ 0) × (after_fault.delay_max ≡ 5)
unfolding apply_fault clear_fault set_reorder new_fault_config
after_fault_delay = (refl, refl)
