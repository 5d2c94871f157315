-- ===== src/Jobs/Examples/Runs.antt =====
-- Cancellation, counts and children at a small family of runs.
use mathlib.Core.List.{Perm}
use codegen_patterns.Base.{Bool, ◌&&◌}
use codegen_patterns.Jobs.Types.{is_pending}
use codegen_patterns.Jobs.RunService.{reschedule_for_scope}
use codegen_patterns.Jobs.RunService.Reschedule.{reschedule_for_scope_lem}
use codegen_patterns.Base.{◌≤◌, ◌↔◌}
use codegen_patterns.Jobs.RunService.{ListJobRunsQuery, JobRunPage, CursorText}
use codegen_patterns.Jobs.RunService.Queries.{list_job_runs, clamp_limit, keyset_in}
use codegen_patterns.Jobs.RunService.Listing.{IsListed, Matches, LiesBehind}
use codegen_patterns.Jobs.RunService.Pages.{IsPage, list_job_runs_lem}
use codegen_patterns.Base.{
  String, none, some, Bool, true, false, List, ◌≡◌, ◌⊎◌, refl, if◌then◌else◌, opt_eq, length, keep,
}
use codegen_patterns.Base.Dict.{get, values}
use codegen_patterns.Jobs.Types.{JobRun, JobError, RunStatus, is_terminal, ok, err}
use codegen_patterns.Jobs.State.{Orchestrator, cancel_locked}
use codegen_patterns.Jobs.Cascade.{status_of, cancel_status, is_reached}
use codegen_patterns.Jobs.Cascade.Reached.{cancel_locked_lem}
use codegen_patterns.Jobs.RunService.{PoolStatusCount, in_scope, tenant_predicate, cancel_for_scope}
use codegen_patterns.Jobs.RunService.Queries.{count_by_pool_and_status}
use codegen_patterns.Jobs.RunService.Scope.{cancel_for_scope_lem}
use codegen_patterns.Jobs.RunService.Counts.{count_of, is_counted, count_by_pool_and_status_lem}
use codegen_patterns.Jobs.Examples.{family, family-Keyed}

cancel_locked_lem_example :
    ((run : JobRun)
      → get "a" family.runs ≡ some run
      → is_terminal run.status ≡ false
      → (false ≡ false) ⊎ (opt_eq run.tenant_id none ≡ true)
      → (k : String) (r : JobRun) → get k family.runs ≡ some r
      → status_of k (cancel_locked "a" none none 200 family)
        ≡ some (if is_reached none run "a" r then cancel_status r.status else r.status))
    × (get "a" family.runs ≡ none → cancel_locked "a" none none 200 family ≡ family)
    × ((run : JobRun)
        → get "a" family.runs ≡ some run
        → (is_terminal run.status ≡ true) ⊎ ((false ≡ true) × (opt_eq run.tenant_id none ≡ false))
        → cancel_locked "a" none none 200 family ≡ family)
cancel_locked_lem_example = cancel_locked_lem "a" none none 200 family family-Keyed

cancel_for_scope_lem_example :
    ((check : JobRun → Bool)
      → tenant_predicate false "cancelForScope" none ≡ ok check
      → ((cancel_for_scope "account" "7" none 200 family).1 ≡ ok tt)
        × ((k : String) (r : JobRun)
            → get k family.runs ≡ some r
            → in_scope "account" "7" r ≡ true
            → check r ≡ true
            → (s : JobRun) × (get k (cancel_for_scope "account" "7" none 200 family).0.runs
                ≡ some s)
              × (is_terminal s.status ≡ true)))
    × ((e : JobError)
        → tenant_predicate false "cancelForScope" none ≡ err e
        → cancel_for_scope "account" "7" none 200 family ≡ (family, err e))
cancel_for_scope_lem_example = cancel_for_scope_lem "account" "7" none 200 family family-Keyed

count_by_pool_and_status_lem_example :
    (cs : List PoolStatusCount) × (count_by_pool_and_status none family ≡ ok cs)
    × ((pool : String) (status : RunStatus)
        → count_of pool status cs
          ≡ length (keep (is_counted (λ r. true) pool status) (values family.runs)))
unfolding tenant_predicate
count_by_pool_and_status_lem_example = count_by_pool_and_status_lem none family (λ r. true) refl

-- A cursor that is the id of its run.
abbrev id_text : CursorText
id_text = record { encode = λ k. k.id; decode = λ t. some (record { created_at = 100; id = t }) }

abbrev one_pending : ListJobRunsQuery
one_pending = record {
  pool_id = some "batch";
  root_run_id = none;
  status = none;
  since = none;
  cursor = none;
  limit = some 1;
  tenant_id = none;
}

list_job_runs_lem_example :
    (rows : List JobRun) × (page : JobRunPage) × (list_job_runs id_text one_pending family
      ≡ ok page)
    × IsPage id_text (clamp_limit (some 1)) rows page
    × (clamp_limit (some 1) ≤ 200)
    × IsListed rows
    × (test : JobRun → Bool) × Perm rows (keep test (values family.runs))
    × ((r : JobRun)
        → (test r ≡ true)
          ↔ ((true ≡ true) × Matches one_pending r × LiesBehind (keyset_in id_text none) r))
unfolding tenant_predicate
list_job_runs_lem_example = list_job_runs_lem id_text one_pending family (λ r. true) refl

reschedule_for_scope_lem_example :
    (p : Orchestrator) × (reschedule_for_scope "account" "7" 500 none 200 family ≡ ok p)
    × ((k : String) (r : JobRun)
        → get k family.runs ≡ some r
        → get k p.runs
          ≡ some (
              if in_scope "account" "7" r && is_pending r.status && true
              then record r { run_at = 500; updated_at = 200 }
              else r))
unfolding tenant_predicate
reschedule_for_scope_lem_example =
    reschedule_for_scope_lem "account" "7" 500 none 200 family (λ r. true) family-Keyed refl
