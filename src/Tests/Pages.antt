-- ===== src/Tests/Pages.antt =====
-- Runs of Scan, of pattern matches and of the fake engine (pkg/storage).
use kv_store.Common.{
  ◌≡◌, ◌↔◌, pos, Bool, true, some, List, [], ◌∷◌, Bytes, bytes_eq, bytes_eq_iff, refl, arith, false,
}
use kv_store.Common.Dict.{lookup}
use kv_store.Storage.Engine.{KeyValue, Command, op_cas}
use kv_store.Storage.Glob.{match_glob}
use kv_store.Storage.Glob.Sound.{Matches}
use kv_store.Storage.Glob.Exact.{match_glob-decides}
use kv_store.Storage.MemStore.{MemStore, entry, entry_expired}
use kv_store.Storage.MemStore.View.{view}
use kv_store.Storage.MemStore.Scan.{scan}
use kv_store.Storage.MemStore.Scan.Sorted.{find, IsAscending}
use kv_store.Storage.MemStore.Scan.Page.{wanted, scan-order}
use kv_store.Storage.MemStore.Scan.Walk.{walk, walk-listing}
use kv_store.Storage.Machine.{apply_cmd}
use kv_store.Storage.Fake.{FakeEngine, fake_apply}
use kv_store.Storage.Fake.View.{fake_view, IsTidy}
use kv_store.Storage.Fake.Agreement.{fake_apply-apply_cmd}

abbrev k1 : Bytes
k1 = b'k' ∷ []

abbrev k2 : Bytes
k2 = b'k' ∷ b'2' ∷ []

-- One map in two orders; the deadline of the first key is 50.
abbrev store : MemStore
store = record {
  items = (k2, entry (b'x' ∷ [])) ∷ (k1, record { value = b'4' ∷ []; exp = pos 50 }) ∷ [];
  expired = 0;
}

abbrev other_order : MemStore
other_order = record {
  items = (k1, record { value = b'4' ∷ []; exp = pos 50 }) ∷ (k2, entry (b'x' ∷ [])) ∷ [];
  expired = 3;
}

abbrev pattern : Bytes
pattern = b'k' ∷ b'*' ∷ []

-- A page of one pair, then another, then an empty one.
walk-listing_example :
    (all : List KeyValue) × (walk 3 (pos 40) [] (pos 1) pattern store ≡ some all)
    × IsAscending all
    × ((k : Bytes) → find k all ≡ wanted (pos 40) [] pattern k (lookup k store.items))
unfolding lookup bytes_eq
walk-listing_example = walk-listing 3 (pos 40) 0 pattern store (refl, (refl, tt)) refl (omega arith)

differ : bytes_eq k1 k2 ≡ false
unfolding bytes_eq
differ = refl

agrees : (k : Bytes) → lookup k store.items ≡ lookup k other_order.items
unfolding lookup
agrees k = ground (arith, bytes_eq_iff k1 k, bytes_eq_iff k2 k, differ)

scan-order_example :
    scan (pos 40) k1 (pos 10) pattern store ≡ scan (pos 40) k1 (pos 10) pattern other_order
unfolding lookup bytes_eq
scan-order_example =
    scan-order (pos 40) k1 (pos 10) pattern store other_order (refl, (refl, tt)) (refl, (refl, tt))
      agrees

match_glob-decides_example :
    (b : Bool) × (match_glob pattern k2 ≡ some b) × ((b ≡ true) ↔ Matches pattern k2)
match_glob-decides_example =
    match_glob-decides b'k' (b'*' ∷ []) k2 (ground arith, (ground arith, tt))

-- The fake with the same entries.
abbrev fake : FakeEngine
fake = record {
  items = (k2, b'x' ∷ []) ∷ (k1, b'4' ∷ []) ∷ [];
  expires = (k1, pos 50) ∷ [];
  cleared = false;
}

fake-IsTidy : IsTidy fake
unfolding lookup
fake-IsTidy k h = ground arith

same_views : (k : Bytes) → fake_view (pos 40) fake k ≡ view (pos 40) store k
unfolding fake_view view lookup entry_expired
same_views k = ground (arith, bytes_eq_iff k1 k, bytes_eq_iff k2 k, differ)

abbrev swap : Command
swap = record { op = op_cas; key = k1; old = b'4' ∷ []; value = b'5' ∷ []; expires_at = pos 0 }

fake_apply-apply_cmd_example :
    ((fake_apply (pos 40) swap fake).1 ≡ (apply_cmd (pos 40) swap store).1)
    × ((j : Bytes)
        → fake_view (pos 40) (fake_apply (pos 40) swap fake).0 j
          ≡ view (pos 40) (apply_cmd (pos 40) swap store).0 j)
    × IsTidy (fake_apply (pos 40) swap fake).0
fake_apply-apply_cmd_example =
    fake_apply-apply_cmd (pos 40) swap fake store fake-IsTidy same_views tt
