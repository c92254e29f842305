-- ===== src/Storage/Machine.antt =====
-- `applyCmd` of pkg/raft/leader.go over the in-memory store: what one command of the log does.
pub mod Refinement
use kv_store.Common.{ℕ, ℤ, Bool, Bytes}
use kv_store.Storage.Engine.{
  Command, Op, op_put, op_delete, op_clear, op_incr, op_cas, op_expire, op_other, Result, ok, err,
  Error,
}
use kv_store.Storage.MemStore.{MemStore, put, delete, clear, incr, cas, expire}

-- The value and error of an apply: `done` is a nil value with a nil error.
pub data Reply : Type 0 where
  done : Reply
  number : ℤ → Reply
  swapped : Bool → Reply
  failed : Error → Reply

abbrev pub reply_number : Result ℤ → Reply
reply_number (ok v) = number v
reply_number (err e) = failed e

abbrev pub reply_swapped : Result Bool → Reply
reply_swapped (ok b) = swapped b
reply_swapped (err e) = failed e

abbrev pub reply_done : Result (Unit {0}) → Reply
reply_done (ok _) = done
reply_done (err e) = failed e

pub apply_op : Op → ℤ → Command → MemStore → MemStore × Reply
apply_op op_put now c m = (put c.key c.value m, done)
apply_op op_delete now c m = (delete c.key m, done)
apply_op op_clear now c m = (clear m, done)
apply_op op_incr now c m = let (m', r) = incr now c.key m in (m', reply_number r)
apply_op op_cas now c m = let (m', r) = cas now c.key c.old c.value m in (m', reply_swapped r)
apply_op op_expire now c m = let (m', r) = expire now c.key c.expires_at m in (m', reply_done r)
apply_op (op_other _) now c m = (m, failed Error.other)

unfoldable pub apply_cmd : ℤ → Command → MemStore → MemStore × Reply
unfolding apply_op
apply_cmd now c m = apply_op c.op now c m
