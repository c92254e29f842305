-- ===== src/Storage/Machine/Refinement.antt =====
-- `applyCmd` (pkg/raft/leader.go) against an abstract machine: a total map from keys to live entries.
use kv_store.Common.{
  ◌≡◌, refl, ℤ, pos, suc_ℤ, ◌==ℤ◌, true, false, Option, none, some, Bytes, bytes_eq, leb_ℤ, [], ◌∷◌,
  Option-cases, inl, inr, if◌then◌else◌, arith,
}
use kv_store.Storage.Engine.{
  Command, Op, op_put, op_delete, op_clear, op_incr, op_cas, op_expire, op_other, Error,
}
use kv_store.Storage.Strconv.{parse_int, format_int, max_int64}
use kv_store.Common.Dict.{lookup}
use kv_store.Storage.MemStore.{
  Entry, MemStore, entry, entry_expired, put, incr, cas, expire, clear, lookup_live, incr_entry,
  cas_entry, expire_entry,
}
use kv_store.Storage.MemStore.View.{
  alive, view, view-put, view-delete, lookup_live-view, view-lookup_live,
}
use kv_store.Storage.Machine.{
  Reply, done, number, swapped, failed, reply_number, reply_swapped, reply_done, apply_op,
  apply_cmd,
}

-- The abstract state at one reading of the clock.
abbrev pub Live : Type 0
Live = Bytes → Option Entry

abbrev pub write : Bytes → Option Entry → Live → Live
write k o s j = if bytes_eq k j then o else s j

abbrev pub spec_incr : Bytes → Live → Option Entry → Live × Reply
spec_incr k s none = (write k (some (entry (b'1' ∷ []))) s, number (pos 1))
spec_incr k s (some e) = elim (parse_int e.value) [
  | none ↦ (s, failed Error.not_numeric)
  | some v ↦
      if v ==ℤ pos max_int64
      then (s, failed Error.overflow)
      else (write k (some (entry (format_int (suc_ℤ v)))) s, number (suc_ℤ v))
]

abbrev pub spec_cas : Bytes → Bytes → Bytes → Live → Option Entry → Live × Reply
spec_cas k old new s none = (s, failed Error.not_found)
spec_cas k old new s (some e) =
    if bytes_eq e.value old
    then (write k (some (entry new)) s, swapped true)
    else (s, swapped false)

abbrev pub spec_expire : ℤ → Bytes → ℤ → Live → Option Entry → Live × Reply
spec_expire now k t s none = (s, failed Error.not_found)
spec_expire now k t s (some e) = (write k (alive now (record { value = e.value; exp = t })) s, done)

abbrev pub spec_op : Op → ℤ → Command → Live → Live × Reply
spec_op op_put now c s = (write c.key (some (entry c.value)) s, done)
spec_op op_delete now c s = (write c.key none s, done)
spec_op op_clear now c s = (λ _. none, done)
spec_op op_incr now c s = spec_incr c.key s (s c.key)
spec_op op_cas now c s = spec_cas c.key c.old c.value s (s c.key)
spec_op op_expire now c s = spec_expire now c.key c.expires_at s (s c.key)
spec_op (op_other _) now c s = (s, failed Error.other)

-- What a command means on the abstract state.
unfoldable pub spec : ℤ → Command → Live → Live × Reply
spec now c s = spec_op c.op now c s

leb_ℤ_refl : (a : ℤ) → leb_ℤ a a ≡ true
leb_ℤ_refl a = ground arith

-- The view of a store and the reply are those of an abstract result.
abbrev Refines : ℤ → MemStore → Reply → Live × Reply → Type 0
Refines now m r s = ((j : Bytes) → view now m j ≡ s.0 j) × (r ≡ s.1)

alive-entry : (now : ℤ) (v : Bytes) → alive now (entry v) ≡ some (entry v)
unfolding entry_expired
alive-entry now v = refl

module _ (now : ℤ) (k : Bytes) (m : MemStore) (s : Live)
    (same : (j : Bytes) → view now m j ≡ s j) where
  incr_entry-Refines :
      (o : Option Entry)
      → Refines now (incr_entry k m o).0 (reply_number (incr_entry k m o).1) (spec_incr k s o)
  unfolding incr
  incr_entry-Refines none =
      (λ j. ground (arith, same j, view-put now k j (entry (b'1' ∷ [])) m), refl)
  incr_entry-Refines (some e) = elim (Option-cases (parse_int e.value)) [
    | inl bad ↦ (λ j. ground (arith, same j), ground arith)
    | inr (v, good) ↦ (
      λ j. ground (
        arith,
        same j,
        view-put now k j (entry (format_int (suc_ℤ v))) m,
        alive-entry now (format_int (suc_ℤ v)),
      ),
      ground arith,
    )
  ]

  cas_entry-Refines :
      (old new : Bytes) (o : Option Entry)
      → Refines now
          (cas_entry k old new m o).0
          (reply_swapped (cas_entry k old new m o).1)
          (spec_cas k old new s o)
  unfolding cas
  cas_entry-Refines old new none = (same, refl)
  cas_entry-Refines old new (some e) = (
    λ j. ground (arith, same j, view-put now k j (entry new) m, alive-entry now new),
    ground arith,
  )

  expire_entry-Refines :
      (t : ℤ) (o : Option Entry)
      → Refines now
          (expire_entry k t m o).0
          (reply_done (expire_entry k t m o).1)
          (spec_expire now k t s o)
  unfolding expire
  expire_entry-Refines t none = (same, refl)
  expire_entry-Refines t (some e) =
      (λ j. ground (arith, same j, view-put now k j (record { value = e.value; exp = t }) m), refl)

-- The three operations that look a live entry up first.
module _ (now : ℤ) (k : Bytes) (m : MemStore) where
  abbrev looked : MemStore
  looked = (lookup_live now k m).0

  same-looked : (j : Bytes) → view now looked j ≡ view now m j
  same-looked j = view-lookup_live now now k j m (leb_ℤ_refl now)

  found-looked : (lookup_live now k m).1 ≡ view now m k
  found-looked = lookup_live-view now k m

apply_op-spec :
    (op : Op) (now : ℤ) (c : Command) (m : MemStore)
    → Refines now (apply_op op now c m).0 (apply_op op now c m).1 (spec_op op now c (view now m))
unfolding apply_cmd
apply_op-spec op_put now c m = (
  λ j.
      unfold put in ground (arith, view-put now c.key j (entry c.value) m, alive-entry now c.value),
  refl,
)
apply_op-spec op_delete now c m = (λ j. view-delete now c.key j m, refl)
apply_op-spec op_clear now c m = (λ j. unfold view clear lookup in refl, refl)
apply_op-spec op_incr now c m = rw (← found-looked now c.key m) (
    unfold incr in
    incr_entry-Refines now c.key (looked now c.key m) (view now m) (same-looked now c.key m)
      (lookup_live now c.key m).1)
apply_op-spec op_cas now c m = rw (← found-looked now c.key m) (
    unfold cas in
    cas_entry-Refines now c.key (looked now c.key m) (view now m) (same-looked now c.key m) c.old
      c.value (lookup_live now c.key m).1)
apply_op-spec op_expire now c m = rw (← found-looked now c.key m) (
    unfold expire in
    expire_entry-Refines now c.key (looked now c.key m) (view now m) (same-looked now c.key m)
      c.expires_at (lookup_live now c.key m).1)
apply_op-spec (op_other _) now c m = (λ j. refl, refl)

-- Every command does to the view of every key at the time of the command, and replies, what the abstract
-- machine says of that view.
pub apply_cmd-spec :
    (now : ℤ) (c : Command) (m : MemStore)
    → ((j : Bytes) → view now (apply_cmd now c m).0 j ≡ (spec now c (view now m)).0 j)
      × ((apply_cmd now c m).1 ≡ (spec now c (view now m)).1)
unfolding apply_cmd spec
apply_cmd-spec now c m = apply_op-spec c.op now c m
