-- ===== src/Storage/Fake/Agreement.antt =====
-- The fake engine (pkg/storage/fake.go) against the abstract machine, and so against the store of
-- pkg/storage/memstore.go.
use mathlib.Core.Path.{fun_ext}
use kv_store.Common.{
  ◌≡◌, ◌≢◌, refl, ap, sym, ◌∙◌, ℤ, pos, suc_ℤ, ◌==ℤ◌, false, Option, none, some, [], ◌∷◌, Bytes,
  bytes_eq, bytes_eq_iff, arith, Option-cases, Bool-cases, inl, inr,
}
use kv_store.Common.Dict.{lookup, lookup-insert, lookup-erase}
use kv_store.Storage.Engine.{
  Command, Op, op_put, op_delete, op_clear, op_incr, op_cas, op_expire, op_other, Error, ok, err,
}
use kv_store.Storage.Strconv.{parse_int, format_int, max_int64}
use kv_store.Storage.MemStore.{Entry, MemStore, entry, entry_expired}
use kv_store.Storage.MemStore.View.{view}
use kv_store.Storage.Machine.{
  Reply, failed, number, reply_number, reply_swapped, reply_done, apply_cmd,
}
use kv_store.Storage.Machine.Refinement.{
  Live, write, spec, spec_op, spec_incr, spec_cas, spec_expire, apply_cmd-spec,
}
use kv_store.Storage.Fake.{
  FakeEngine, is_due, drop_due, fake_put, fake_delete, fake_clear, fake_incr_value, fake_incr,
  fake_cas_value, fake_cas, fake_expire_value, fake_expire, fake_op, fake_apply, set_item,
}
use kv_store.Storage.Fake.View.{
  deadline, seen, fake_view, IsTidy, view-drop_due, IsTidy-delete, IsTidy-put, IsTidy-drop,
  seen-drop_due,
}

-- The view of an engine that is tidy, and the reply, are those of an abstract result.
abbrev Agrees : ℤ → FakeEngine → Reply → Live × Reply → Type 0
Agrees now f r s = ((j : Bytes) → fake_view now f j ≡ s.0 j) × (r ≡ s.1) × IsTidy f

module _ (now : ℤ) (k : Bytes) (f : FakeEngine) (s : Live)
    (same : (j : Bytes) → fake_view now f j ≡ s j) (tidy : IsTidy f)
    (undue : is_due now (lookup k f.expires) ≡ false) where
  IsTidy-set : (v : Bytes) → IsTidy (set_item k v f)
  IsTidy-set v j h = ground (arith, lookup-insert k j v f.items, tidy j)

  set_seen :
      (j : Bytes) (v : Bytes)
      → deadline (lookup k f.expires) ≡ pos 0
      → fake_view now (set_item k v f) j ≡ write k (some (entry v)) s j
  unfolding fake_view
  set_seen j v z = elim (Bool-cases (bytes_eq k j)) [
    | inl e ↦
        let x : k ≡ j = ground (arith, bytes_eq_iff k j) in
        let u : is_due now (lookup j f.expires) ≡ false = rw (← x) undue in
        let z' : deadline (lookup j f.expires) ≡ pos 0 = rw (← x) z in
        rw (lookup-insert k j v f.items, e, u, z') refl
    | inr e ↦ rw (lookup-insert k j v f.items, e) (same j)
  ]

  fake_incr-Agrees :
      (o : Option Bytes)
      → lookup k f.items ≡ o
      → ((e : Entry) → seen now (lookup k f.expires) o ≡ some e → e.exp ≡ pos 0)
      → Agrees now
          (fake_incr_value k f o).0
          (reply_number (fake_incr_value k f o).1)
          (spec_incr k s (seen now (lookup k f.expires) o))
  unfolding fake_incr fake_incr_value fake_view
  fake_incr-Agrees none is zero_exp = (
    (λ j. ground (arith, same j, lookup-insert k j (b'1' ∷ []) f.items, bytes_eq_iff k j, tidy k)),
    refl,
    IsTidy-set (b'1' ∷ []),
  )
  fake_incr-Agrees (some v) is zero_exp =
      let e : Entry = record { value = v; exp = deadline (lookup k f.expires) } in
      let found : seen now (lookup k f.expires) (some v) ≡ some e = rw undue refl in
      let z : deadline (lookup k f.expires) ≡ pos 0 = zero_exp e found in
      let o = seen now (lookup k f.expires) (some v) in
      elim (Option-cases (parse_int v)) [
        | inl bad ↦
            let r : fake_incr_value k f (some v) ≡ (f, err Error.not_numeric) = ground arith in
            let q : spec_incr k s o ≡ (s, failed Error.not_numeric) = ground arith in
            rw (r, q) (same, refl, tidy)
        | inr (n, good) ↦ elim (Bool-cases (n ==ℤ pos max_int64)) [
          | inl top ↦
              let r : fake_incr_value k f (some v) ≡ (f, err Error.overflow) = ground arith in
              let q : spec_incr k s o ≡ (s, failed Error.overflow) = ground arith in
              rw (r, q) (same, refl, tidy)
          | inr below ↦
              let v' = format_int (suc_ℤ n) in
              let r : fake_incr_value k f (some v) ≡ (set_item k v' f, ok (suc_ℤ n)) =
                ground arith in
              let q : spec_incr k s o ≡ (write k (some (entry v')) s, number (suc_ℤ n)) =
                ground arith in
              rw (r, q) ((λ j. set_seen j v' z), refl, IsTidy-set v')
        ]
      ]

  fake_cas-Agrees :
      (old new : Bytes) (o : Option Bytes)
      → lookup k f.items ≡ o
      → Agrees now
          (fake_cas_value k old new f o).0
          (reply_swapped (fake_cas_value k old new f o).1)
          (spec_cas k old new s (seen now (lookup k f.expires) o))
  unfolding fake_cas fake_cas_value fake_view fake_put
  fake_cas-Agrees old new none is = (same, refl, tidy)
  fake_cas-Agrees old new (some v) is = elim (Bool-cases (bytes_eq v old)) [
    | inl e ↦
        rw (undue, e)
          (
            (λ j.
                ground (arith, same j, lookup-insert k j new f.items, lookup-erase k j f.expires)),
            refl,
            IsTidy-put k new f tidy,
          )
    | inr e ↦ rw (undue, e) (same, refl, tidy)
  ]

  fake_expire-Agrees :
      (t : ℤ) (o : Option Bytes)
      → t ≢ pos 0
      → lookup k f.items ≡ o
      → Agrees now
          (fake_expire_value k t f o).0
          (reply_done (fake_expire_value k t f o).1)
          (spec_expire now k t s (seen now (lookup k f.expires) o))
  unfolding fake_expire fake_expire_value fake_view entry_expired
  fake_expire-Agrees t none nz is = (same, refl, tidy)
  fake_expire-Agrees t (some v) nz is = rw undue (
    (λ j. ground (arith, same j, lookup-insert k j t f.expires, bytes_eq_iff k j)),
    refl,
    (λ j h. ground (arith, lookup-insert k j t f.expires, bytes_eq_iff k j, tidy j)),
  )

-- What the fake is not asked to do: a deadline of 0, which the store takes for none, and Incr on a key with a
-- deadline, which the fake keeps and the store removes.
abbrev pub Comparable : Op → Command → Live → Type 0
Comparable op_put c s = Unit
Comparable op_delete c s = Unit
Comparable op_clear c s = Unit
Comparable op_incr c s = (e : Entry) → s c.key ≡ some e → e.exp ≡ pos 0
Comparable op_cas c s = Unit
Comparable op_expire c s = c.expires_at ≢ pos 0
Comparable (op_other _) c s = Unit

fake_op-spec :
    (op : Op) (now : ℤ) (c : Command) (f : FakeEngine)
    → IsTidy f
    → Comparable op c (fake_view now f)
    → Agrees now (fake_op op now c f).0 (fake_op op now c f).1 (spec_op op now c (fake_view now f))
unfolding fake_apply
fake_op-spec op_put now c f t may = (
  (λ j.
      unfold fake_view fake_put in
      ground (arith, lookup-insert c.key j c.value f.items, lookup-erase c.key j f.expires)),
  refl,
  IsTidy-put c.key c.value f t,
)
fake_op-spec op_delete now c f t may = (
  (λ j.
      unfold fake_view fake_delete in
      ground (arith, lookup-erase c.key j f.items, lookup-erase c.key j f.expires)),
  refl,
  IsTidy-delete c.key f t,
)
fake_op-spec op_clear now c f t may =
    unfold fake_view fake_clear lookup in ((λ j. refl), refl, (λ k h. refl))
fake_op-spec op_incr now c f t may =
    let f' = drop_due now c.key f in
    let e = view-drop_due now c.key c.key f in
    rw (← e) (
      unfold fake_incr fake_view in
      fake_incr-Agrees now c.key f' (fake_view now f) (λ j. view-drop_due now c.key j f)
        (IsTidy-drop now c.key f t) (seen-drop_due now c.key f) (lookup c.key f'.items) refl
        (λ x h. may x (sym e ∙ h)))
fake_op-spec op_cas now c f t may =
    let f' = drop_due now c.key f in
    rw (← view-drop_due now c.key c.key f) (
      unfold fake_cas fake_view in
      fake_cas-Agrees now c.key f' (fake_view now f) (λ j. view-drop_due now c.key j f)
        (IsTidy-drop now c.key f t) (seen-drop_due now c.key f) c.old c.value
        (lookup c.key f'.items) refl)
fake_op-spec op_expire now c f t may =
    let f' = drop_due now c.key f in
    rw (← view-drop_due now c.key c.key f) (
      unfold fake_expire fake_view in
      fake_expire-Agrees now c.key f' (fake_view now f) (λ j. view-drop_due now c.key j f)
        (IsTidy-drop now c.key f t) (seen-drop_due now c.key f) c.expires_at (lookup c.key f'.items)
        may refl)
fake_op-spec (op_other _) now c f t may = ((λ j. refl), refl, t)

-- On views that are the same at the time of a command, the fake and the store of pkg/storage/memstore.go give the same
-- reply and have the same views after it, and the fake is left with no deadline for a key that is absent, as it was
-- before. The command sets no deadline of 0, and is no Incr of a key with a deadline.
pub fake_apply-apply_cmd :
    (now : ℤ) (c : Command) (f : FakeEngine) (m : MemStore)
    → IsTidy f
    → ((j : Bytes) → fake_view now f j ≡ view now m j)
    → Comparable c.op c (fake_view now f)
    → ((fake_apply now c f).1 ≡ (apply_cmd now c m).1)
      × ((j : Bytes) → fake_view now (fake_apply now c f).0 j ≡ view now (apply_cmd now c m).0 j)
      × IsTidy (fake_apply now c f).0
unfolding fake_apply spec
fake_apply-apply_cmd now c f m t same may =
    let a = fake_op-spec c.op now c f t may in
    let b = apply_cmd-spec now c m in
    let e : spec now c (fake_view now f) ≡ spec now c (view now m) =
      ap (spec now c) (fun_ext same) in
    (
      a.1 ∙ ap (λ (p : Live × Reply). p.1) e ∙ sym b.1,
      (λ j. a.0 j ∙ ap (λ (p : Live × Reply). p.0 j) e ∙ sym (b.0 j)),
      a.2,
    )
