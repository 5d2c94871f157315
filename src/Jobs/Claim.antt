-- ===== src/Jobs/Claim.antt =====
-- `claimNext` of `MemoryJobOrchestrator`: the due run of a pool with the highest priority, and
-- among those the one that has been due longest.
pub mod Order
use codegen_patterns.Base.{
  ℕ, String, Option, none, some, Bool, true, false, ◌&&◌, List, [], ◌∷◌, ◌=ₛ◌, ltb, leb, ◌==◌,
  if◌then◌else◌, keep,
}
use codegen_patterns.Base.Dict.{Dict, set, values}
use codegen_patterns.Jobs.Types.{Instant, JobRun, running, is_pending}
use codegen_patterns.Jobs.State.{Orchestrator}

unfoldable pub is_candidate : String → Instant → JobRun → Bool
is_candidate pool now r = is_pending r.status && r.pool =ₛ pool && leb r.run_at now

-- The comparison of the sort is negative: `a` stands before `b`.
unfoldable pub claims_before : JobRun → JobRun → Bool
claims_before a b =
    if a.priority == b.priority then ltb a.run_at b.run_at else ltb b.priority a.priority

-- `Array.sort` is stable: a run goes behind those that stand before it, and before its equals.
unfoldable pub insert_sorted : JobRun → List JobRun → List JobRun
unfolding claims_before
insert_sorted x [] = x ∷ []
insert_sorted x (y ∷ ys) = if claims_before y x then y ∷ insert_sorted x ys else x ∷ y ∷ ys

unfoldable pub sort_runs : List JobRun → List JobRun
unfolding insert_sorted
sort_runs [] = []
sort_runs (x ∷ xs) = insert_sorted x (sort_runs xs)

unfoldable pub claimed : Instant → JobRun → JobRun
claimed now r = record r {
  status = running;
  claimed_at = some now;
  started_at = some now;
  updated_at = now;
}

unfoldable pub claim_first : Instant → Orchestrator → List JobRun → Orchestrator × Option JobRun
unfolding claimed
claim_first now o [] = (o, none)
claim_first now o (winner ∷ others) =
    (record o { runs = set winner.id (claimed now winner) o.runs }, some (claimed now winner))

unfoldable pub claim_next : String → Instant → Orchestrator → Orchestrator × Option JobRun
unfolding claim_first sort_runs is_candidate
claim_next pool now o = claim_first now o (sort_runs (keep (is_candidate pool now) (values o.runs)))
