-- ===== src/Storage/Engine.antt =====
-- pkg/storage/engine.go: the contract between the API layer, the consensus layer and the store.
-- Keys and values are byte strings; a deadline is a signed number of nanoseconds.
use kv_store.Common.{ℕ, ℤ, Bytes}

-- `OpPut` to `OpExpire` of the `uint8` type `Op`; `op_other` is every other code.
pub data Op : Type 0 where
  op_put op_delete op_clear op_incr op_cas op_expire : Op
  op_other : ℕ → Op

pub record Command : Type 0 where
  pub op : Op
  pub key : Bytes
  pub old : Bytes
  pub value : Bytes
  pub expires_at : ℤ

-- The errors of the package, by name, with `NotLeaderError` and one case for all others.
pub data Error : Type 0 where
  not_found closed not_numeric overflow invalid_cursor : Error
  not_leader : (leader_addr : Bytes) → Error
  other : Error

pub record KeyValue : Type 0 where
  pub key : Bytes
  pub value : Bytes

pub data Result {ℓ} (A : Type ℓ) : Type ℓ where
  ok : A → Result A
  err : Error → Result A
