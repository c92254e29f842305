-- ===== src/Storage/Fake/View.antt =====
-- What a client can see of the fake engine (pkg/storage/fake.go).
use kv_store.Common.{
  ◌≡◌, ℤ, pos, leb_ℤ, false, Option, none, some, Bytes, bytes_eq_iff, if◌then◌else◌, arith,
  Option-cases, Bool-cases, inl, inr,
}
use kv_store.Common.Dict.{lookup, lookup-insert, lookup-erase}
use kv_store.Storage.MemStore.{Entry}
use kv_store.Storage.Fake.{FakeEngine, is_due, expired_locked, drop_due, fake_put, fake_delete}

abbrev pub deadline : Option ℤ → ℤ
deadline none = pos 0
deadline (some t) = t

abbrev pub seen : ℤ → Option ℤ → Option Bytes → Option Entry
seen now t none = none
seen now t (some v) = if is_due now t then none else some (record { value = v; exp = deadline t })

-- What a client can see of the fake at a reading of the clock.
unfoldable pub fake_view : ℤ → FakeEngine → Bytes → Option Entry
fake_view now f k = seen now (lookup k f.expires) (lookup k f.items)

-- A key that is absent has no deadline.
abbrev pub IsTidy : FakeEngine → Type 0
IsTidy f = (k : Bytes) → lookup k f.items ≡ none → lookup k f.expires ≡ none

pub view-drop_due :
    (now : ℤ) (k j : Bytes) (f : FakeEngine)
    → fake_view now (drop_due now k f) j ≡ fake_view now f j
unfolding fake_view drop_due expired_locked fake_delete
view-drop_due now k j f = elim (Option-cases (lookup k f.expires)) [
  | inl e ↦ ground arith
  | inr (t, e) ↦ elim (Bool-cases (leb_ℤ t now)) [
    | inl due ↦
        ground (arith, bytes_eq_iff k j, lookup-erase k j f.items, lookup-erase k j f.expires)
    | inr not_due ↦ ground arith
  ]
]

pub IsTidy-delete : (k : Bytes) (f : FakeEngine) → IsTidy f → IsTidy (fake_delete k f)
unfolding fake_delete
IsTidy-delete k f t j h = ground (arith, lookup-erase k j f.items, lookup-erase k j f.expires, t j)

pub IsTidy-put : (k v : Bytes) (f : FakeEngine) → IsTidy f → IsTidy (fake_put k v f)
unfolding fake_put
IsTidy-put k v f t j h =
    ground (arith, lookup-insert k j v f.items, lookup-erase k j f.expires, t j)

pub IsTidy-drop : (now : ℤ) (k : Bytes) (f : FakeEngine) → IsTidy f → IsTidy (drop_due now k f)
unfolding drop_due
IsTidy-drop now k f t = elim (Bool-cases (expired_locked now k f)) [
  | inl e ↦ rw e (IsTidy-delete k f t)
  | inr e ↦ rw e t
]

-- Behind the lines that start Incr, CAS and Expire a key is present exactly when it is seen.
pub seen-drop_due :
    (now : ℤ) (k : Bytes) (f : FakeEngine)
    → is_due now (lookup k (drop_due now k f).expires) ≡ false
unfolding drop_due expired_locked fake_delete
seen-drop_due now k f = ground (arith, lookup-erase k k f.expires, bytes_eq_iff k k)
