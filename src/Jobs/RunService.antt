-- ===== src/Jobs/RunService.antt =====
-- `MemoryJobRunService` (jobs/job-run-service.memory-backend.ts), with `clampLimit` and
-- `toJobRunSummary` of jobs/job-run-keyset-cursor.ts. A single status filter is a list of one; a
-- limit is a whole number. The text of a cursor is made of JSON, base64 and ISO dates, which are
-- parameters.
-- The cancellations of one `cancelForScope` follow each other with no step of another caller between.
pub mod Queries
pub mod Scope
pub mod Reschedule
pub mod Counts
pub mod Sorted
pub mod Listing
pub mod Pages
use Prim.Native.Nat.{Ordering}
use Prim.Native.String.{compare}
use codegen_patterns.Base.{
  ℕ, suc, String, Option, none, some, Bool, true, false, ◌&&◌, ◌||◌, not, List, [], ◌∷◌, map, ◌=ₛ◌,
  ◌==◌, ltb, leb, length, if◌then◌else◌, keep, exists, take, drop, or_else, opt_eq,
}
use codegen_patterns.Base.Dict.{Dict, get, set, values}
use codegen_patterns.Jobs.Types.{
  Instant, RunStatus, pending, running, waiting, completed, failed, timed_out, canceled,
  is_terminal, is_pending, JobRun, TriggerSource, CancelOptions, Result, ok, err, ◌>>=◌, map_ok,
  missing_tenant_id,
}
use codegen_patterns.Jobs.State.{Orchestrator, cancel_run}

pub data OrderBy : Type 0 where
  created_at_desc created_at_asc run_at_desc run_at_asc : OrderBy

-- `tenant_id` is `undefined`, or `null` or a text.
pub record ListForScopeOptions : Type 0 where
  pub status : Option (List RunStatus)
  pub job_type : Option String
  pub limit : Option ℕ
  pub offset : Option ℕ
  pub order_by : Option OrderBy
  pub tenant_id : Option (Option String)

pub record PoolStatusCount : Type 0 where
  pub pool : String
  pub status : RunStatus
  pub count : ℕ

pub record JobRunFailure : Type 0 where
  pub run_id : String
  pub job_type : String
  pub pool : String
  pub scope_entity_type : Option String
  pub scope_entity_id : Option String
  pub tenant_id : Option String
  pub attempts : ℕ
  pub error_message : Option String
  pub failed_at : Instant
  pub created_at : Instant

pub record ListJobRunsQuery : Type 0 where
  pub pool_id : Option String
  pub root_run_id : Option String
  pub status : Option RunStatus
  pub since : Option Instant
  pub cursor : Option String
  pub limit : Option ℕ
  pub tenant_id : Option (Option String)

pub record JobRunSummary : Type 0 where
  pub run_id : String
  pub root_run_id : String
  pub parent_run_id : Option String
  pub trigger_source : TriggerSource
  pub trigger_ref : Option String
  pub job_type : String
  pub pool : String
  pub status : RunStatus
  pub scope_entity_type : Option String
  pub scope_entity_id : Option String
  pub tenant_id : Option String
  pub attempts : ℕ
  pub error_message : Option String
  pub run_at : Instant
  pub started_at : Option Instant
  pub finished_at : Option Instant
  pub created_at : Instant

pub record JobRunPage : Type 0 where
  pub items : List JobRunSummary
  pub next_cursor : Option String

pub record JobRunKeyset : Type 0 where
  pub created_at : Instant
  pub id : String

-- The text of a keyset and back, where a malformed text is `none`.
pub record CursorText : Type 0 where
  pub encode : JobRunKeyset → String
  pub decode : String → Option JobRunKeyset

abbrev pub status_number : RunStatus → ℕ
status_number pending = 0
status_number running = 1
status_number waiting = 2
status_number completed = 3
status_number failed = 4
status_number timed_out = 5
status_number canceled = 6

-- `===` on statuses
abbrev pub same_status : RunStatus → RunStatus → Bool
same_status a b = status_number a == status_number b

-- A filter of a query that is absent, or an empty text, filters nothing.
abbrev pub text_filter : Option String → String → Bool
text_filter none x = true
text_filter (some t) x = t =ₛ "" || x =ₛ t

-- `tenantPredicate`
unfoldable pub tenant_predicate : Bool → String → Option (Option String) → Result (JobRun → Bool)
tenant_predicate false method tenant = ok (λ r. true)
tenant_predicate true method none = err (missing_tenant_id method)
tenant_predicate true method (some t) = ok (λ r. opt_eq r.tenant_id t)

abbrev pub in_scope : String → String → JobRun → Bool
in_scope type id r = opt_eq r.scope_entity_type (some type) && opt_eq r.scope_entity_id (some id)

abbrev pub status_filter : Option (List RunStatus) → RunStatus → Bool
status_filter none s = true
status_filter (some ss) s = exists (λ t. same_status s t) ss

-- The comparison of `compareBy` is negative: `a` stands before `b`.
unfoldable pub compare_by : OrderBy → JobRun → JobRun → Bool
compare_by created_at_desc a b = ltb b.created_at a.created_at
compare_by created_at_asc a b = ltb a.created_at b.created_at
compare_by run_at_desc a b = ltb b.run_at a.run_at
compare_by run_at_asc a b = ltb a.run_at b.run_at

-- `Array.sort`, which is stable.
unfoldable pub insert_by : (JobRun → JobRun → Bool) → JobRun → List JobRun → List JobRun
insert_by before x [] = x ∷ []
insert_by before x (y ∷ ys) = if before y x then y ∷ insert_by before x ys else x ∷ y ∷ ys

unfoldable pub sort_by : (JobRun → JobRun → Bool) → List JobRun → List JobRun
unfolding insert_by
sort_by before [] = []
sort_by before (x ∷ xs) = insert_by before x (sort_by before xs)

abbrev pub slice : Option ℕ → Option ℕ → List JobRun → List JobRun
slice offset none rows = drop (or_else offset 0) rows
slice offset (some n) rows = take n (drop (or_else offset 0) rows)

unfoldable pub list_for_scope :
    String → String → ListForScopeOptions → Orchestrator → Result (List JobRun)
unfolding tenant_predicate compare_by sort_by
list_for_scope type id opts o =
    map_ok
      (λ tenant_check. slice opts.offset opts.limit (
        sort_by (compare_by (or_else opts.order_by created_at_desc)) (
          keep
            (λ r.
              in_scope type id r
              && status_filter opts.status r.status
              && text_filter opts.job_type r.job_type
              && tenant_check r)
            (values o.runs))))
      (tenant_predicate o.multi_tenant "listForScope" opts.tenant_id)

-- The loop of `cancelForScope` over the ids that it found, one call of `cancel` each.
unfoldable pub cancel_ids :
    List String → CancelOptions → Instant → Orchestrator → Orchestrator × Result (Unit {0})
unfolding cancel_run
cancel_ids [] opts now o = (o, ok tt)
cancel_ids (id ∷ ids) opts now o = elim (cancel_run id opts now o).1 [
  | err e ↦ ((cancel_run id opts now o).0, err e)
  | ok u ↦ cancel_ids ids opts now (cancel_run id opts now o).0
]

unfoldable pub scope_targets : String → String → (JobRun → Bool) → Dict JobRun → List String
scope_targets type id tenant_check runs =
    map (λ r. r.id)
      (keep (λ r. in_scope type id r && not (is_terminal r.status) && tenant_check r) (values runs))

unfoldable pub cancel_for_scope :
    String
    → String
    → Option (Option String)
    → Instant
    → Orchestrator
    → Orchestrator × Result (Unit {0})
unfolding tenant_predicate cancel_ids scope_targets
cancel_for_scope type id tenant now o =
    elim (tenant_predicate o.multi_tenant "cancelForScope" tenant) [
      | err e ↦ (o, err e)
      | ok check ↦
          cancel_ids (scope_targets type id check o.runs)
            (record { cascade = some true; tenant_id = tenant }) now o
    ]

-- The loop of `rescheduleForScope`: a write keeps the place of its run in the map.
unfoldable pub reschedule_matching :
    (JobRun → Bool) → Instant → Instant → List JobRun → Dict JobRun → Dict JobRun
reschedule_matching matches new_run_at now [] runs = runs
reschedule_matching matches new_run_at now (r ∷ rs) runs =
    reschedule_matching matches new_run_at now rs (
      if matches r
      then set r.id (record r { run_at = new_run_at; updated_at = now }) runs
      else runs)

unfoldable pub reschedule_for_scope :
    String
    → String
    → Instant
    → Option (Option String)
    → Instant
    → Orchestrator
    → Result Orchestrator
unfolding tenant_predicate reschedule_matching
reschedule_for_scope type id new_run_at tenant now o =
    map_ok
      (λ check. record o {
        runs =
            reschedule_matching (λ r. in_scope type id r && is_pending r.status && check r)
              new_run_at now (values o.runs) o.runs;
      })
      (tenant_predicate o.multi_tenant "rescheduleForScope" tenant)
