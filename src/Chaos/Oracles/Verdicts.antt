-- ===== src/Chaos/Oracles/Verdicts.antt =====
-- What the oracles (pkg/chaos/oracles.go) find, and what they do not look at.
use kv_store.Common.{
  append_nil, Bool, ℕ, zero, suc, ◌+◌, ◌≤◌, ◌<◌, length, ◌≡◌, ◌↔◌, refl, ◌∙◌, sym, true, false,
  Option, none, some, List, [], ◌∷◌, Bytes, bytes_eq, bytes_eq_iff, get_elem?-some, ap, ◌-◌, arith,
  Bool-cases, inl, inr, ◌==◌, if◌then◌else◌,
}
use kv_store.Raft.Types.{Node, Entry, is_leader, entry_at, log_offset}
use kv_store.Chaos.Oracles.{
  diverges, clash, put_leader, check_leaders, election_safety, match_from, match_logs,
}

-- No leader of the term but this one.
abbrev pub NoOther : ℕ → Bytes → List (Bytes × Node) → Type 0
NoOther t id [] = Unit
NoOther t id ((other, n) ∷ rest) =
    (is_leader n.role ≡ true → n.term ≡ t → id ≡ other) × NoOther t id rest

abbrev pub OneLeaderEach : List (Bytes × Node) → Type 0
OneLeaderEach [] = Unit
OneLeaderEach ((id, n) ∷ rest) =
    (is_leader n.role ≡ true → NoOther n.term id rest) × OneLeaderEach rest

-- The leaders known already.
abbrev Known : (ℕ → Option Bytes) → List (Bytes × Node) → Type 0
Known leaders [] = Unit
Known leaders ((id, n) ∷ rest) =
    (is_leader n.role ≡ true → clash n.term (leaders n.term) id ≡ []) × Known leaders rest

clash-put_leader :
    (t : ℕ) (id : Bytes) (leaders : ℕ → Option Bytes) (u : ℕ) (other : Bytes)
    → clash t (leaders t) id ≡ []
    → (clash u (put_leader t id leaders u) other ≡ [])
      ↔ ((clash u (leaders u) other ≡ []) × (u ≡ t → id ≡ other))
clash-put_leader t id leaders u other h = elim (Bool-cases (t == u)) [
  | inl e ↦
      let same : t ≡ u = ground arith in
      let known : clash u (leaders u) id ≡ [] = rw (← same) h in
      rw e (elim (Bool-cases (bytes_eq id other)) [
        | inl i ↦
            let x : id ≡ other = (bytes_eq_iff id other).0 i in
            rw i ((λ _. ((rw (← x) known), (λ _. x))), (λ _. refl))
        | inr d ↦ rw d (
          (λ q. absurd (ground arith)),
          (λ q. let x = q.1 (sym same) in ground (arith, bytes_eq_iff id other)),
        )
      ])
  | inr d ↦ rw d ((λ q. (q, (λ x. absurd (ground arith)))), (λ q. q.0))
]

Known-put_leader :
    (t : ℕ) (id : Bytes) (leaders : ℕ → Option Bytes) (rest : List (Bytes × Node))
    → clash t (leaders t) id ≡ []
    → Known (put_leader t id leaders) rest ↔ (Known leaders rest × NoOther t id rest)
Known-put_leader t id leaders [] h = ground arith
Known-put_leader t id leaders ((other, n) ∷ rest) h =
    let e = clash-put_leader t id leaders n.term other h in
    let r = Known-put_leader t id leaders rest h in
    (
      (λ p. (((λ c. (e.0 (p.0 c)).0), (r.0 p.1).0), ((λ c. (e.0 (p.0 c)).1), (r.0 p.1).1))),
      (λ q. ((λ c. e.1 (q.0.0 c, q.1.0 c)), r.1 (q.0.1, q.1.1))),
    )

never {ℓ} : {A : Type ℓ} → false ≡ true → A
never h = absurd (ground arith)

check_leaders-nil :
    (leaders : ℕ → Option Bytes) (nodes : List (Bytes × Node))
    → (check_leaders leaders nodes ≡ []) ↔ (Known leaders nodes × OneLeaderEach nodes)
unfolding check_leaders
check_leaders-nil leaders [] = ground arith
check_leaders-nil leaders ((id, n) ∷ rest) = elim (Bool-cases (is_leader n.role)) [
  | inr skip ↦ rw skip (
      let r = check_leaders-nil leaders rest in
      ((λ h. let p = r.0 h in ((never, p.0), (never, p.1))), (λ p. r.1 (p.0.1, p.1.1))))
  | inl leads ↦ rw leads (
      let r = check_leaders-nil (put_leader n.term id leaders) rest in
      let first =
        append_nil (clash n.term (leaders n.term) id)
          (check_leaders (put_leader n.term id leaders) rest) in
      let known = Known-put_leader n.term id leaders rest in
      (
        (λ h.
            let e = first.0 h in
            let p = r.0 e.1 in let q = (known e.0).0 p.0 in (((λ _. e.0), q.0), ((λ _. q.1), p.1))),
        (λ p. let c = p.0.0 refl in first.1 (c, r.1 ((known c).1 (p.0.1, p.1.0 refl), p.1.1))),
      ))
]

Known-none : (nodes : List (Bytes × Node)) → Known (λ _. none) nodes
Known-none [] = ground arith
Known-none ((id, n) ∷ rest) = ((λ _. refl), Known-none rest)

-- The election oracle reports nothing exactly when no two nodes of different ids lead in the same term.
election_safety-OneLeaderEach :
    (nodes : List (Bytes × Node)) → (election_safety nodes ≡ []) ↔ OneLeaderEach nodes
unfolding election_safety
election_safety-OneLeaderEach nodes =
    let e = check_leaders-nil (λ _. none) nodes in
    ((λ h. (e.0 h).1), (λ p. e.1 (Known-none nodes, p)))

compacted_first : (n : Node) → 1 ≤ n.last_included_index → entry_at n 1 ≡ none
unfolding entry_at log_offset
compacted_first n h = ground arith

-- A node that has compacted its log matches every other: the comparison ends at index 1, which it no longer holds.
match_logs-compacted : (a b : Node) → 1 ≤ a.last_included_index → match_logs a b ≡ none
unfolding match_logs match_from
match_logs-compacted a b h = let e = compacted_first a h in ground arith

held-length :
    (n : Node) (i : ℕ) (x : Entry)
    → entry_at n i ≡ some x
    → (1 ≤ i) × (i ≤ n.last_included_index + length n.log)
unfolding entry_at log_offset
held-length n i x e = ground arith

-- A node that has compacted nothing holds every index up to one that it holds.
held_below :
    (n : Node) (i j : ℕ) (x : Entry)
    → n.last_included_index ≡ 0
    → entry_at n i ≡ some x
    → 1 ≤ j
    → j ≤ i
    → (y : Entry) × (entry_at n j ≡ some y)
unfolding entry_at log_offset
held_below n i j x h e l m =
    let within = held-length n i x e in
    let at = get_elem?-some n.log (j - n.last_included_index - 1) (ground arith) in
    (at.0, ground (arith, at.1))

match_from-both :
    (fuel index : ℕ) (a b : Node) (x y : Entry)
    → entry_at a index ≡ some x
    → entry_at b index ≡ some y
    → match_from (suc fuel) index a b
      ≡ (if diverges x y then some index else match_from fuel (index + 1) a b)
unfolding match_from
match_from-both fuel index a b x y ea eb = ground arith

never_found : (index : ℕ) → ¬ (some index ≡ none)
never_found index e = ground arith

match_from-further :
    (fuel index : ℕ) (a b : Node) (x y : Entry)
    → entry_at a index ≡ some x
    → entry_at b index ≡ some y
    → match_from (suc fuel) index a b ≡ none
    → (diverges x y ≡ false) × (match_from fuel (index + 1) a b ≡ none)
match_from-further fuel index a b x y ea eb h =
    let verdict = sym (match_from-both fuel index a b x y ea eb) ∙ h in
    let decided : (d : Bool)
        → diverges x y ≡ d
        → (if d then some index else match_from fuel (index + 1) a b) ≡ none =
      λ d e.
        ap (λ c. if c then some index else match_from fuel (index + 1) a b) (sym e) ∙ verdict in
    elim (Bool-cases (diverges x y)) [
      | inl d ↦ absurd (never_found index (decided true d))
      | inr d ↦ (d, decided false d)
    ]

match_from-none :
    (fuel index k : ℕ) (a b : Node) (x y : Entry)
    → a.last_included_index ≡ 0
    → b.last_included_index ≡ 0
    → 1 ≤ index
    → k < fuel
    → match_from fuel index a b ≡ none
    → entry_at a (index + k) ≡ some x
    → entry_at b (index + k) ≡ some y
    → diverges x y ≡ false
match_from-none zero index k a b x y ha hb l f h ea eb = absurd (omega arith)
match_from-none (suc fuel) index zero a b x y ha hb l f h ea eb =
    let same : index + 0 ≡ index = omega arith in
    (match_from-further fuel index a b x y (sym (ap (entry_at a) same) ∙ ea)
      (sym (ap (entry_at b) same) ∙ eb) h).0
match_from-none (suc fuel) index (suc k) a b x y ha hb l f h ea eb =
    let u = held_below a (index + suc k) index x ha ea l (omega arith) in
    let v = held_below b (index + suc k) index y hb eb l (omega arith) in
    let next = match_from-further fuel index a b u.0 v.0 u.1 v.1 h in
    let moved : index + suc k ≡ index + 1 + k = omega arith in
    match_from-none fuel (index + 1) k a b x y ha hb (omega arith) (omega arith) next.1
      (sym (ap (entry_at a) moved) ∙ ea) (sym (ap (entry_at b) moved) ∙ eb)

-- Where neither node has compacted its log, a comparison that finds nothing has looked at every index that both hold: two entries of the same index and term are the same command.
match_logs-agree :
    (a b : Node) (i : ℕ) (x y : Entry)
    → a.last_included_index ≡ 0
    → b.last_included_index ≡ 0
    → match_logs a b ≡ none
    → entry_at a i ≡ some x
    → entry_at b i ≡ some y
    → diverges x y ≡ false
unfolding match_logs
match_logs-agree a b i x y ha hb h ea eb =
    let within = held-length a i x ea in
    let split : 1 + (i - 1) ≡ i = omega (arith, within.0) in
    match_from-none (a.last_included_index + length a.log + 1) 1 (i - 1) a b x y ha hb (omega arith)
      (omega (arith, within.0, within.1)) h (ap (entry_at a) split ∙ ea)
      (ap (entry_at b) split ∙ eb)
