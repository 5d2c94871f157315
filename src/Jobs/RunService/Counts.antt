-- ===== src/Jobs/RunService/Counts.antt =====
-- What `countByPoolAndStatus` of `MemoryJobRunService` counts.
use codegen_patterns.Base.{
  ℕ, suc, ◌+◌, String, Option, Bool, true, false, ◌&&◌, List, [], ◌∷◌, ◌=ₛ◌, ◌==◌, ◌≡◌, refl, sym,
  ap, ◌∙◌, arith, inl, inr, eq_iff, if◌then◌else◌, length, keep, Bool-cases,
}
use codegen_patterns.Base.Dict.{values}
use codegen_patterns.Jobs.Types.{RunStatus, JobRun, ok}
use codegen_patterns.Jobs.State.{Orchestrator}
use codegen_patterns.Jobs.RunService.{PoolStatusCount, same_status, status_number, tenant_predicate}
use codegen_patterns.Jobs.RunService.Queries.{count_run, count_runs, count_by_pool_and_status}

-- The count that a result names for a pool and a status.
abbrev pub count_of : String → RunStatus → List PoolStatusCount → ℕ
count_of pool status [] = 0
count_of pool status (c ∷ cs) =
    if c.pool =ₛ pool && same_status c.status status then c.count else count_of pool status cs

abbrev one_if : Bool → ℕ
one_if b = if b then 1 else 0

same_status-same : (a b s : RunStatus) → same_status a b ≡ true → same_status a s ≡ same_status b s
same_status-same a b s h =
    ap (λ n. n == status_number s) (equal (status_number a) (status_number b) h)
  where
    equal : (m n : ℕ) → (m == n) ≡ true → m ≡ n
    equal m n e = ground arith

-- A count of one more, where `a` says that the entry is the
-- entry.
count_step :
    (a : Bool) (n rest : ℕ) → (if a then suc n else rest) ≡ (if a then n else rest) + one_if a
count_step true n rest = omega arith
count_step false n rest = omega arith

one_more :
    (a b : Bool) (n x y : ℕ)
    → x ≡ y + one_if b
    → (a && b) ≡ false
    → (if a then n else x) ≡ (if a then n else y) + one_if b
one_more true true n x y e h = cc
one_more true false n x y e h = omega arith
one_more false b n x y e h = e

number_apart :
    (m n k : ℕ) (a b c : Bool)
    → (b ≡ true → c ≡ true → a ≡ true)
    → (a && m == n) ≡ false
    → ((b && m == k) && (c && n == k)) ≡ false
number_apart m n k a false c h e = refl
number_apart m n k a true false h e = elim (Bool-cases (m == k)) [
  | inl q ↦ rw q refl
  | inr q ↦ rw q refl
]
number_apart m n k a true true h e = ground (arith, h refl refl)

same_text : (u p q : String) → (u =ₛ p) ≡ true → (q =ₛ p) ≡ true → (u =ₛ q) ≡ true
same_text u p q h k = (eq_iff u q).1 ((eq_iff u p).0 h ∙ sym ((eq_iff q p).0 k))

apart :
    (u p q : String) (v s t : RunStatus)
    → (u =ₛ q && same_status v t) ≡ false
    → ((u =ₛ p && same_status v s) && (q =ₛ p && same_status t s)) ≡ false
apart u p q v s t h =
    number_apart (status_number v) (status_number t) (status_number s) (u =ₛ q) (u =ₛ p) (q =ₛ p)
      (same_text u p q) h

and-left : (a b : Bool) → (a && b) ≡ true → a ≡ true
and-left true b h = refl
and-left false b h = h

and-right : (a b : Bool) → (a && b) ≡ true → b ≡ true
and-right true b h = h
and-right false b h = cc

same_entry :
    (u p q : String) (v s t : RunStatus)
    → (u =ₛ q && same_status v t) ≡ true
    → (u =ₛ p && same_status v s) ≡ (q =ₛ p && same_status t s)
same_entry u p q v s t h =
    rw
      (
        (eq_iff u q).0 (and-left (u =ₛ q) (same_status v t) h),
        same_status-same v t s (and-right (u =ₛ q) (same_status v t) h),
      )
      refl

count_of-count_run :
    (p q : String) (s t : RunStatus) (cs : List PoolStatusCount)
    → count_of p s (count_run q t cs) ≡ count_of p s cs + one_if (q =ₛ p && same_status t s)
unfolding count_run
count_of-count_run p q s t [] = elim (Bool-cases (q =ₛ p && same_status t s)) [
  | inl e ↦ rw e (omega arith)
  | inr e ↦ rw e (omega arith)
]
count_of-count_run p q s t (c ∷ cs) = elim (Bool-cases (c.pool =ₛ q && same_status c.status t)) [
  | inl e ↦
      rw (e, same_entry c.pool p q c.status s t e)
        (count_step (q =ₛ p && same_status t s) c.count (count_of p s cs))
  | inr e ↦ rw e (
      one_more (c.pool =ₛ p && same_status c.status s) (q =ₛ p && same_status t s) c.count _ _
        (count_of-count_run p q s t cs) (apart c.pool p q c.status s t e))
]

abbrev pub is_counted : (JobRun → Bool) → String → RunStatus → JobRun → Bool
is_counted check pool status r = check r && r.pool =ₛ pool && same_status r.status status

count_of-count_runs :
    (check : JobRun → Bool) (p : String) (s : RunStatus) (rs : List JobRun)
    (cs : List PoolStatusCount)
    → count_of p s (count_runs check rs cs)
      ≡ count_of p s cs + length (keep (is_counted check p s) rs)
unfolding count_runs
count_of-count_runs check p s [] cs = omega arith
count_of-count_runs check p s (r ∷ rs) cs = elim (Bool-cases (check r)) [
  | inl e ↦
      rw
        (
          e,
          count_of-count_runs check p s rs (count_run r.pool r.status cs),
          count_of-count_run p r.pool s r.status cs,
        )
        (ground arith)
  | inr e ↦ rw (e, count_of-count_runs check p s rs cs) refl
]

-- `countByPoolAndStatus` that passes the tenant check names, for each pool and each status, the number
-- of stored runs of this pool and this status that the tenant check lets through (0 where it has no entry).
pub count_by_pool_and_status_lem :
    (tenant : Option (Option String)) (o : Orchestrator) (check : JobRun → Bool)
    → tenant_predicate o.multi_tenant "countByPoolAndStatus" tenant ≡ ok check
    → (cs : List PoolStatusCount) × (count_by_pool_and_status tenant o ≡ ok cs)
      × ((pool : String) (status : RunStatus)
          → count_of pool status cs ≡ length (keep (is_counted check pool status) (values o.runs)))
count_by_pool_and_status_lem tenant o check passed = (
  count_runs check (values o.runs) [],
  unfold count_by_pool_and_status in rw (passed, count_by_pool_and_status) refl,
  λ pool status. omega (arith, count_of-count_runs check pool status (values o.runs) []),
)
