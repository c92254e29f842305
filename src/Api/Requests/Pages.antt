-- ===== src/Api/Requests/Pages.antt =====
-- The pages that a scan request gets (pkg/api/handlers.go) of a store in memory.
use kv_store.Common.{
  ℕ, zero, suc, ◌≤◌, ◌≡◌, ◌⊎◌, inl, inr, refl, sym, ◌∙◌, ap, ℤ, pos, negsuc, Option, none, some,
  List, [], ◌∷◌, Bytes, length, ltb, arith, Bool-cases,
}
use kv_store.Common.Dict.{UniqueKeys}
use kv_store.Storage.Engine.{KeyValue}
use kv_store.Storage.Strconv.{parse_int}
use kv_store.Storage.MemStore.{MemStore}
use kv_store.Storage.MemStore.Scan.Page.{IsPage, scan-IsPage, next_cursor}
use kv_store.Api.{
  Engine, Server, Response, respond, problem, items, max_cursor_len, max_pattern_len,
}
use kv_store.Api.Handlers.{handle_scan, scan_from, count_of, counted, scan_response}
use kv_store.Api.Requests.{mem_engine}

-- The count that a query asks for: 100 when it is empty, and otherwise the number that it reads as.
abbrev pub Asks : Bytes → ℕ → Type 0
Asks [] n = n ≡ 100
Asks (c ∷ cs) n = parse_int (c ∷ cs) ≡ some (pos n)

-- A cursor of at most 4096 bytes, a count from 1 to 1000, and a pattern of at most 256 bytes.
abbrev pub IsInRange : (cursor count pattern : Bytes) → ℕ → Type 0
IsInRange cursor count pattern n =
    (length cursor ≤ 4096) × Asks count n × (1 ≤ n) × (n ≤ 1000) × (length pattern ≤ 256)

-- The right page for a count, and the cursor behind it.
abbrev pub IsPageResponse : ℕ → Bytes → ℕ → Bytes → MemStore → Response → Type 0
IsPageResponse now cursor n pattern m r =
    (page : List KeyValue) × (rest : List KeyValue) × IsPage (pos now) cursor n pattern m page rest
    × (r ≡ respond 200 (items page (next_cursor n page)))

counted-some :
    (S : Type 0) (engine : Engine S) (o : Option ℤ) (n : ℕ)
    → counted engine o ≡ some n
    → (o ≡ some (pos n)) × (1 ≤ n) × (n ≤ 1000)
counted-some S engine none n h = absurd (ground arith)
counted-some S engine (some (negsuc k)) n h = absurd (ground arith)
counted-some S engine (some (pos k)) n h = ground arith

counted-asked :
    (S : Type 0) (engine : Engine S) (n : ℕ)
    → 1 ≤ n
    → n ≤ 1000
    → counted engine (some (pos n)) ≡ some n
counted-asked S engine n low high = ground arith

count_of-asked :
    (S : Type 0) (engine : Engine S) (count : Bytes) (n : ℕ)
    → Asks count n
    → 1 ≤ n
    → n ≤ 1000
    → count_of engine count ≡ some n
count_of-asked S engine [] n a low high = ap some (sym a)
count_of-asked S engine (c ∷ cs) n a low high =
    ap (counted engine) a ∙ counted-asked S engine n low high

count_of-some :
    (S : Type 0) (engine : Engine S) (count : Bytes) (n : ℕ)
    → count_of engine count ≡ some n
    → Asks count n × (1 ≤ n) × (n ≤ 1000)
count_of-some S engine [] n h = ground arith
count_of-some S engine (c ∷ cs) n h = counted-some S engine (parse_int (c ∷ cs)) n h

-- The answer to a request: the page that it asks for, or a refusal of one that is out of range.
abbrev pub IsScanResponse : ℕ → (cursor count pattern : Bytes) → MemStore → Response → Type 0
IsScanResponse now cursor count pattern m r =
    ((n : ℕ) × IsInRange cursor count pattern n × IsPageResponse now cursor n pattern m r)
    ⊎ (((n : ℕ) → ¬ IsInRange cursor count pattern n) × (r ≡ respond 400 problem))

scan_from-cases :
    (now : ℕ) (cursor count pattern : Bytes) (s : Server MemStore) (o : Option ℕ)
    → UniqueKeys s.store.items
    → count_of (mem_engine (pos now)) count ≡ o
    → length cursor ≤ 4096
    → IsScanResponse now cursor count pattern s.store
        (scan_from (mem_engine (pos now)) cursor o pattern s).1
scan_from-cases now cursor count pattern s none u e near = inr (
  λ n r.
      let asked = count_of-asked MemStore (mem_engine (pos now)) count n r.1 r.2 r.3 in
      ground arith,
  refl,
)
scan_from-cases now cursor count pattern s (some zero) u e near =
    absurd (omega (arith, (count_of-some MemStore (mem_engine (pos now)) count 0 e).1))
scan_from-cases now cursor count pattern s (some (suc n)) u e near =
    let asked = count_of-some MemStore (mem_engine (pos now)) count (suc n) e in
    elim (Bool-cases (ltb max_pattern_len (length pattern))) [
      | inl long ↦ inr ((λ k r. ground (arith, r.4)), rw long refl)
      | inr short ↦
          let (page, rest, right, f) = scan-IsPage (pos now) cursor n pattern s.store u in
          inl (
            suc n,
            (near, asked.0, asked.1, asked.2, ground arith),
            (page, rest, right, rw short (ap scan_response f)),
          )
    ]

-- A scan request on a map without a key twice is answered with the status 200, the right page and the next cursor, for
-- the count that it asks for, from 1 to 1000, or 100 where it names none, if its cursor has at most 4096 bytes and its
-- pattern at most 256. Otherwise it is answered with the status 400.
pub handle_scan-IsScanResponse :
    (now : ℕ) (cursor count pattern : Bytes) (s : Server MemStore)
    → UniqueKeys s.store.items
    → IsScanResponse now cursor count pattern s.store
        (handle_scan (mem_engine (pos now)) cursor count pattern s).1
unfolding handle_scan
handle_scan-IsScanResponse now cursor count pattern s u =
    elim (Bool-cases (ltb max_cursor_len (length cursor))) [
      | inl long ↦ inr ((λ n r. ground (arith, r.0)), rw long refl)
      | inr near ↦ rw near (
          scan_from-cases now cursor count pattern s (count_of (mem_engine (pos now)) count) u refl
            (ground arith))
    ]
