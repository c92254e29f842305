-- ===== src/Api.antt =====
-- pkg/api: the handlers of the HTTP server over an engine, their checks, and the counters. `net/http` routes a request
-- to its handler, reads its body and its query; what it hands over is an argument here, as are the clock and the
-- decoding of JSON. The texts of messages and the headers are not modelled.
pub mod Handlers
pub mod Requests
use kv_store.Common.{
  ℕ, zero, suc, ◌+◌, ◌*◌, ◌%◌, ◌^◌, ℤ, pos, negsuc, suc_ℤ, Bool, true, false, ◌&&◌, ◌||◌, Option,
  none, some, List, [], ◌∷◌, Bytes, length, leb, ltb, ◌==◌, if◌then◌else◌,
}
use kv_store.Common.Dict.{Dict, lookup, insert}
use kv_store.Storage.Engine.{KeyValue, Result, Error}

-- `storage.Engine`, on the states of an engine.
pub record Engine (S : Type 0) : Type 0 where
  pub get : Bytes → S → S × Result Bytes
  pub put : (key value : Bytes) → S → S × Result (Unit {0})
  pub delete : Bytes → S → S × Result (Unit {0})
  pub incr : Bytes → S → S × Result ℤ
  pub cas : (key old new : Bytes) → S → S × Result Bool
  pub expire : Bytes → ℤ → S → S × Result (Unit {0})
  pub scan : (cursor : Bytes) → ℤ → (pattern : Bytes) → S → S × Result (List KeyValue × Bytes)

-- `Metrics`; the counters of a status that was never recorded are 0. The times are in nanoseconds.
pub record Metrics : Type 0 where
  pub total_req : ℕ
  pub latency_sum : ℕ
  pub latency_count : ℕ
  pub total_keys : ℤ
  pub statuses : ℕ → ℕ

abbrev pub new_metrics : Metrics
new_metrics = record {
  total_req = 0;
  latency_sum = 0;
  latency_count = 0;
  total_keys = pos 0;
  statuses = λ _. 0;
}

abbrev pub u64 : ℕ → ℕ
u64 n = n % 2 ^ 64

unfoldable pub record_request : ℕ → ℕ → Metrics → Metrics
record_request status d m = record m {
  total_req = u64 (m.total_req + 1);
  latency_sum = u64 (m.latency_sum + d);
  latency_count = u64 (m.latency_count + 1);
  statuses = λ code. if code == status then u64 (m.statuses code + 1) else m.statuses code;
}

abbrev pub pred_ℤ : ℤ → ℤ
pred_ℤ (pos zero) = negsuc 0
pred_ℤ (pos (suc n)) = pos n
pred_ℤ (negsuc n) = negsuc (n + 1)

-- The key counters, an `int64` that no sequence of requests takes to its ends.
abbrev pub incr_keys : Metrics → Metrics
incr_keys m = record m { total_keys = suc_ℤ m.total_keys }

abbrev pub decr_keys : Metrics → Metrics
decr_keys m = record m { total_keys = pred_ℤ m.total_keys }

pub record Server (S : Type 0) : Type 0 where
  pub store : S
  pub metrics : Metrics

-- What a response holds besides its status.
pub data Payload : Type 0 where
  nothing : Payload
  problem : Payload
  value : Bytes → Payload
  stored : (key : Bytes) → Payload
  number : (key : Bytes) → ℤ → Payload
  items : List KeyValue → (cursor : Bytes) → Payload
  location : Bytes → Payload

pub record Response : Type 0 where
  pub status : ℕ
  pub payload : Payload

abbrev pub respond : ℕ → Payload → Response
respond status payload = record { status = status; payload = payload }

-- What `io.ReadAll` gives of a body whose length is limited.
pub data Body : Type 0 where
  whole : Bytes → Body
  too_large : Body
  unreadable : Body

is_alphanumeric : ℕ → Bool
is_alphanumeric c =
    (leb b'a' c && leb c b'z') || ((leb b'A' c && leb c b'Z') || (leb b'0' c && leb c b'9'))

all_key_bytes : Bytes → Bool
unfolding is_alphanumeric
all_key_bytes [] = true
all_key_bytes (c ∷ key) = (is_alphanumeric c || (c == b':')) && all_key_bytes key

-- `keyPattern`.
unfoldable pub is_key : Bytes → Bool
unfolding all_key_bytes
is_key [] = false
is_key (c ∷ key) = all_key_bytes (c ∷ key)

-- `maxTTL` in nanoseconds, and the bounds of a scan's query.
abbrev pub max_ttl : ℕ
max_ttl = 10 * 365 * 24 * 3600 * 1000000000

abbrev pub default_count : ℕ
default_count = 100

abbrev pub max_count : ℕ
max_count = 1000

abbrev pub max_cursor_len : ℕ
max_cursor_len = 4096

abbrev pub max_pattern_len : ℕ
max_pattern_len = 256
