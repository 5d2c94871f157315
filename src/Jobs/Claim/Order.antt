-- ===== src/Jobs/Claim/Order.antt =====
-- The order in which runs are claimed.
use codegen_patterns.Base.{
  ◌≤◌, ◌<◌, String, Option, none, some, true, false, List, [], ◌∷◌, ◌≡◌, ◌⊎◌, ◌↔◌, eq_iff, refl,
  sym, arith, inl, inr, In, All, keep, keep-In, In-keep, Bool-cases, subst,
}
use codegen_patterns.Base.Dict.{Dict, set, values}
use codegen_patterns.Jobs.Types.{Instant, JobRun, pending, running}
use codegen_patterns.Jobs.State.{Orchestrator}
use codegen_patterns.Jobs.Claim.{
  is_candidate, claims_before, insert_sorted, sort_runs, claimed, claim_first, claim_next,
}

-- `w` has a higher priority than `s`, or the same one and is due no later.
abbrev pub Precedes : JobRun → JobRun → Type 0
Precedes w s = (s.priority < w.priority) ⊎ ((s.priority ≡ w.priority) × (w.run_at ≤ s.run_at))

not-before-Precedes : (w s : JobRun) → claims_before s w ≡ false → Precedes w s
unfolding claims_before
not-before-Precedes w s h = ground arith

before-Precedes : (w s : JobRun) → claims_before w s ≡ true → Precedes w s
unfolding claims_before
before-Precedes w s h = ground arith

Precedes-trans : (a b c : JobRun) → Precedes a b → Precedes b c → Precedes a c
Precedes-trans a b c h k = ground arith

-- The head precedes the rest.
abbrev HeadLeads : List JobRun → Type 0
HeadLeads [] = Unit
HeadLeads (w ∷ rest) = All (Precedes w) rest

All-trans :
    (a b : JobRun) (rest : List JobRun)
    → Precedes a b
    → All (Precedes b) rest
    → All (Precedes a) rest
All-trans a b [] h k = tt
All-trans a b (c ∷ rest) h k = (Precedes-trans a b c h k.0, All-trans a b rest h k.1)

All-insert_sorted :
    (w x : JobRun) (rest : List JobRun)
    → Precedes w x
    → All (Precedes w) rest
    → All (Precedes w) (insert_sorted x rest)
unfolding insert_sorted
All-insert_sorted w x [] h k = (h, tt)
All-insert_sorted w x (y ∷ ys) h k = elim (Bool-cases (claims_before y x)) [
  | inl t ↦ rw t (k.0, All-insert_sorted w x ys h k.1)
  | inr f ↦ rw f (h, k)
]

HeadLeads-insert_sorted :
    (x : JobRun) (rest : List JobRun) → HeadLeads rest → HeadLeads (insert_sorted x rest)
unfolding insert_sorted
HeadLeads-insert_sorted x [] h = tt
HeadLeads-insert_sorted x (y ∷ ys) h = elim (Bool-cases (claims_before y x)) [
  | inl t ↦ rw t (All-insert_sorted y x ys (before-Precedes y x t) h)
  | inr f ↦ let lead = not-before-Precedes x y f in rw f (lead, All-trans x y ys lead h)
]

HeadLeads-sort_runs : (rs : List JobRun) → HeadLeads (sort_runs rs)
unfolding sort_runs
HeadLeads-sort_runs [] = tt
HeadLeads-sort_runs (r ∷ rs) = HeadLeads-insert_sorted r (sort_runs rs) (HeadLeads-sort_runs rs)

insert_sorted-In : (a x : JobRun) (rs : List JobRun) → In a (insert_sorted x rs) → (a ≡ x) ⊎ In a rs
unfolding insert_sorted
insert_sorted-In a x [] (inl e) = inl e
insert_sorted-In a x [] (inr h) = absurd h
insert_sorted-In a x (y ∷ ys) h = elim (Bool-cases (claims_before y x)) [
  | inl t ↦ elim (rw t at h) [
    | inl e ↦ inr (inl e)
    | inr k ↦ elim (insert_sorted-In a x ys k) [ inl e ↦ inl e | inr m ↦ inr (inr m) ]
  ]
  | inr f ↦ rw f at h
]

In-insert_sorted : (a x : JobRun) (rs : List JobRun) → (a ≡ x) ⊎ In a rs → In a (insert_sorted x rs)
unfolding insert_sorted
In-insert_sorted a x [] h = h
In-insert_sorted a x (y ∷ ys) h = elim (Bool-cases (claims_before y x)) [
  | inr f ↦ rw f h
  | inl t ↦ rw t (elim h [
    | inl e ↦ inr (In-insert_sorted a x ys (inl e))
    | inr (inl e) ↦ inl e
    | inr (inr m) ↦ inr (In-insert_sorted a x ys (inr m))
  ])
]

sort_runs-In : (a : JobRun) (rs : List JobRun) → In a (sort_runs rs) → In a rs
unfolding sort_runs
sort_runs-In a [] h = h
sort_runs-In a (r ∷ rs) h = elim (insert_sorted-In a r (sort_runs rs) h) [
  | inl e ↦ inl e
  | inr k ↦ inr (sort_runs-In a rs k)
]

In-sort_runs : (a : JobRun) (rs : List JobRun) → In a rs → In a (sort_runs rs)
unfolding sort_runs
In-sort_runs a [] h = h
In-sort_runs a (r ∷ rs) (inl e) = In-insert_sorted a r (sort_runs rs) (inl e)
In-sort_runs a (r ∷ rs) (inr h) = In-insert_sorted a r (sort_runs rs) (inr (In-sort_runs a rs h))

-- A pending run of the pool whose time has come.
abbrev pub IsDue : String → Instant → Dict JobRun → JobRun → Type 0
IsDue pool now runs r =
    In r (values runs) × (r.status ≡ pending) × (r.pool ≡ pool) × (r.run_at ≤ now)

is_candidate_iff :
    (pool : String) (now : Instant) (r : JobRun)
    → (is_candidate pool now r ≡ true) ↔ ((r.status ≡ pending) × (r.pool ≡ pool) × (r.run_at ≤ now))
unfolding is_candidate
is_candidate_iff pool now r = ground (arith, eq_iff r.pool pool)

-- What a claim gives back, and the state that it leaves.
abbrev pub ClaimIs : String → Instant → Orchestrator → Orchestrator × Option JobRun → Type 0
ClaimIs pool now o (p, none) = (p ≡ o) × ((r : JobRun) → ¬ IsDue pool now o.runs r)
ClaimIs pool now o (p, some c) =
    (w : JobRun) × IsDue pool now o.runs w
    × (c ≡ record w {
      status = running;
      started_at = some now;
      claimed_at = some now;
      updated_at = now;
    })
    × (p ≡ record o { runs = set w.id c o.runs })
    × ((r : JobRun) → IsDue pool now o.runs r → (r ≡ w) ⊎ Precedes w r)

In-All : (w r : JobRun) (rest : List JobRun) → All (Precedes w) rest → In r rest → Precedes w r
In-All w r [] h i = absurd i
In-All w r (x ∷ rest) h (inl e) = subst (λ y. Precedes w y) (sym e) h.0
In-All w r (x ∷ rest) h (inr i) = In-All w r rest h.1 i

claim_first-ClaimIs :
    (pool : String) (now : Instant) (o : Orchestrator) (rs : List JobRun)
    → HeadLeads rs
    → ((r : JobRun) → In r rs → IsDue pool now o.runs r)
    → ((r : JobRun) → IsDue pool now o.runs r → In r rs)
    → ClaimIs pool now o (claim_first now o rs)
unfolding claim_first claimed
claim_first-ClaimIs pool now o [] lead sound complete = (refl, λ r c. complete r c)
claim_first-ClaimIs pool now o (w ∷ rest) lead sound complete = (
  w,
  sound w (inl refl),
  refl,
  refl,
  λ r c. elim (complete r c) [ inl e ↦ inl e | inr i ↦ inr (In-All w r rest lead i) ],
)

-- A claim takes a pending run of the pool that is due and marks it running, the other runs being
-- left alone; no other such run has a higher priority, or the same one and was due earlier. It
-- returns nothing, and changes nothing, exactly when the pool has no such run.
pub claim_next_lem :
    (pool : String) (now : Instant) (o : Orchestrator) → ClaimIs pool now o (claim_next pool now o)
unfolding claim_next
claim_next_lem pool now o =
    let test = is_candidate pool now in
    let due = keep test (values o.runs) in
    claim_first-ClaimIs pool now o (sort_runs due) (HeadLeads-sort_runs due)
      (λ r i.
        let (listed, passes) = keep-In test r (values o.runs) (sort_runs-In r due i) in
        let (status, in_pool, time) = (is_candidate_iff pool now r).0 passes in
        (listed, status, in_pool, time))
      (λ r c.
        In-sort_runs r due
          (In-keep test r (values o.runs) c.0 ((is_candidate_iff pool now r).1 (c.1, c.2, c.3))))
