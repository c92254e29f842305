-- ===== src/Storage/MemStore/Scan.antt =====
-- `Scan` of pkg/storage/memstore.go. The map's order of iteration is the order of the association list, and
-- `sort.Slice`, whose keys all differ, an insertion sort. A match that ran out of its fuel counts as none.
pub mod Sorted
pub mod Page
pub mod Behind
pub mod Walk
use kv_store.Common.{
  ℕ, zero, suc, ℤ, pos, negsuc, Bool, true, false, not, ◌&&◌, ◌||◌, Option, none, some, List, [],
  ◌∷◌, Bytes, bytes_lt, if◌then◌else◌, length, take, ◌==◌,
}
use kv_store.Common.Dict.{Dict}
use kv_store.Storage.Engine.{KeyValue, Result, ok, err, Error}
use kv_store.Storage.Glob.{match_glob}
use kv_store.Storage.MemStore.{MemStore, Entry, entry_expired}

abbrev pub pair : Bytes → Bytes → KeyValue
pair k v = record { key = k; value = v }

abbrev pub held : Option Bool → Bool
held none = false
held (some b) = b

-- `cursor != "" && k <= cursor` skips.
abbrev pub is_past : Bytes → Bytes → Bool
is_past [] k = true
is_past (c ∷ cursor) k = bytes_lt (c ∷ cursor) k

-- The tests of the loop on one entry.
unfoldable pub is_wanted : ℤ → Bytes → Bytes → Bytes → Entry → Bool
is_wanted now cursor pattern k e =
    not (entry_expired e now) && is_past cursor k && held (match_glob pattern k)

unfoldable pub collect : ℤ → Bytes → Bytes → Dict Entry → List KeyValue
collect now cursor pattern [] = []
collect now cursor pattern ((k, e) ∷ l) =
    let rest = collect now cursor pattern l in
    if is_wanted now cursor pattern k e then pair k e.value ∷ rest else rest

unfoldable pub insert_sorted : KeyValue → List KeyValue → List KeyValue
insert_sorted x [] = x ∷ []
insert_sorted x (y ∷ l) =
    let rest = insert_sorted x l in if bytes_lt x.key y.key then x ∷ y ∷ l else y ∷ rest

unfoldable pub sort_keys : List KeyValue → List KeyValue
sort_keys [] = []
sort_keys (x ∷ l) = insert_sorted x (sort_keys l)

-- `all[len(all)-1].Key`.
unfoldable pub last_key : List KeyValue → Bytes
last_key [] = []
last_key (x ∷ []) = x.key
last_key (x ∷ y ∷ l) = last_key (y ∷ l)

abbrev pub page_of : ℕ → List KeyValue → List KeyValue × Bytes
page_of count all =
    let page = take count all in (page, (if length page == count then last_key page else []))

unfoldable pub scan : ℤ → Bytes → ℤ → Bytes → MemStore → Result (List KeyValue × Bytes)
unfolding collect sort_keys insert_sorted is_wanted entry_expired
scan now cursor (pos zero) pattern m = err Error.other
scan now cursor (negsuc n) pattern m = err Error.other
scan now cursor (pos (suc n)) pattern m =
    ok (page_of (suc n) (sort_keys (collect now cursor pattern m.items)))
