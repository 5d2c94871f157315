-- ===== src/Jobs/RunService/Queries.antt =====
-- The reads over all pools of `MemoryJobRunService` (jobs/job-run-service.memory-backend.ts), and
-- `clampLimit` and `toJobRunSummary` of jobs/job-run-keyset-cursor.ts.
use Prim.Native.String.{compare}
use text.Mathlib.Text.{is_lt}
use codegen_patterns.Base.{
  ℕ, suc, String, Option, none, some, Bool, true, false, ◌&&◌, List, [], ◌∷◌, map, ◌=ₛ◌, ltb, leb,
  ◌==◌, length, if◌then◌else◌, keep, take, or_else,
}
use codegen_patterns.Base.Dict.{values}
use codegen_patterns.Jobs.Types.{Instant, RunStatus, failed, JobRun, JobRunError, Result, map_ok}
use codegen_patterns.Jobs.State.{Orchestrator}
use codegen_patterns.Jobs.RunService.{
  PoolStatusCount, JobRunFailure, ListJobRunsQuery, JobRunSummary, JobRunPage, JobRunKeyset,
  CursorText, same_status, text_filter, tenant_predicate, sort_by,
}

-- `map.get(key)` and `count += 1`, or a new entry at the end. The key of the source is the pool, a
-- null character and the status, so it is one entry for a pool and a status.
unfoldable pub count_run : String → RunStatus → List PoolStatusCount → List PoolStatusCount
count_run pool status [] = record { pool = pool; status = status; count = 1 } ∷ []
count_run pool status (c ∷ cs) =
    if c.pool =ₛ pool && same_status c.status status
    then record c { count = suc c.count } ∷ cs
    else c ∷ count_run pool status cs

unfoldable pub count_runs :
    (JobRun → Bool) → List JobRun → List PoolStatusCount → List PoolStatusCount
unfolding count_run
count_runs check [] cs = cs
count_runs check (r ∷ rs) cs =
    count_runs check rs (if check r then count_run r.pool r.status cs else cs)

unfoldable pub count_by_pool_and_status :
    Option (Option String) → Orchestrator → Result (List PoolStatusCount)
unfolding tenant_predicate count_runs
count_by_pool_and_status tenant o =
    map_ok (λ check. count_runs check (values o.runs) [])
      (tenant_predicate o.multi_tenant "countByPoolAndStatus" tenant)

abbrev pub failed_at : JobRun → Instant
failed_at r = or_else r.finished_at r.updated_at

abbrev pub error_message : Option JobRunError → Option String
error_message none = none
error_message (some e) = some e.message

unfoldable pub to_failure : JobRun → JobRunFailure
to_failure r = record {
  run_id = r.id;
  job_type = r.job_type;
  pool = r.pool;
  scope_entity_type = r.scope_entity_type;
  scope_entity_id = r.scope_entity_id;
  tenant_id = r.tenant_id;
  attempts = r.attempts;
  error_message = error_message r.error;
  failed_at = failed_at r;
  created_at = r.created_at;
}

unfoldable pub list_recent_failed :
    ℕ → Option (Option String) → Orchestrator → Result (List JobRunFailure)
unfolding tenant_predicate sort_by to_failure
list_recent_failed limit tenant o =
    map_ok
      (λ check. map to_failure (
        take limit (
          sort_by (λ a b. ltb (failed_at b) (failed_at a))
            (keep (λ r. same_status r.status failed && check r) (values o.runs)))))
      (tenant_predicate o.multi_tenant "listRecentFailed" tenant)

-- DEFAULT_LIST_LIMIT, MAX_LIST_LIMIT and `clampLimit`
unfoldable pub clamp_limit : Option ℕ → ℕ
clamp_limit none = 50
clamp_limit (some n) = if ltb n 1 then 1 else if ltb 200 n then 200 else n

unfoldable pub to_job_run_summary : JobRun → JobRunSummary
to_job_run_summary r = record {
  run_id = r.id;
  root_run_id = r.root_run_id;
  parent_run_id = r.parent_run_id;
  trigger_source = r.trigger_source;
  trigger_ref = r.trigger_ref;
  job_type = r.job_type;
  pool = r.pool;
  status = r.status;
  scope_entity_type = r.scope_entity_type;
  scope_entity_id = r.scope_entity_id;
  tenant_id = r.tenant_id;
  attempts = r.attempts;
  error_message = error_message r.error;
  run_at = r.run_at;
  started_at = r.started_at;
  finished_at = r.finished_at;
  created_at = r.created_at;
}

-- `a < b` on ids
abbrev pub text_less : String → String → Bool
text_less a b = is_lt (compare a b)

-- Newest first, then the larger id.
unfoldable pub listed_before : JobRun → JobRun → Bool
listed_before a b =
    if a.created_at == b.created_at then text_less b.id a.id else ltb b.created_at a.created_at

unfoldable pub is_match : ListJobRunsQuery → JobRun → Bool
is_match query r =
    text_filter query.pool_id r.pool
    && text_filter query.root_run_id r.root_run_id
    && elim query.status [ none ↦ true | some s ↦ same_status r.status s ]
    && elim query.since [ none ↦ true | some t ↦ leb t r.created_at ]

-- The seek behind a cursor.
unfoldable pub is_behind : JobRunKeyset → JobRun → Bool
is_behind keyset r =
    if ltb r.created_at keyset.created_at
    then true
    else if ltb keyset.created_at r.created_at
    then false
    else text_less r.id keyset.id

unfoldable pub seek : Option JobRunKeyset → List JobRun → List JobRun
unfolding is_behind
seek none rs = rs
seek (some keyset) rs = keep (is_behind keyset) rs

abbrev pub last_of : List JobRun → Option JobRun
last_of [] = none
last_of (r ∷ rs) = elim (last_of rs) [ none ↦ some r | some s ↦ some s ]

abbrev pub keyset_of : JobRun → JobRunKeyset
keyset_of r = record { created_at = r.created_at; id = r.id }

module _ (text : CursorText) where
  -- An absent and an empty cursor start from the beginning.
  abbrev pub keyset_in : Option String → Option JobRunKeyset
  keyset_in none = none
  keyset_in (some t) = if t =ₛ "" then none else text.decode t

  unfoldable pub next_cursor : Bool → Option JobRun → Option String
  next_cursor true (some last) = some (text.encode (keyset_of last))
  next_cursor _ _ = none

  abbrev pub has_more : ℕ → List JobRun → Bool
  has_more limit seeked = ltb limit (length seeked)

  abbrev pub page_rows : ℕ → List JobRun → List JobRun
  page_rows limit seeked = if has_more limit seeked then take limit seeked else seeked

  unfoldable pub page_of : ℕ → List JobRun → JobRunPage
  unfolding next_cursor to_job_run_summary
  page_of limit seeked = record {
    items = map to_job_run_summary (page_rows limit seeked);
    next_cursor = next_cursor (has_more limit seeked) (last_of (page_rows limit seeked));
  }

  unfoldable pub list_job_runs : ListJobRunsQuery → Orchestrator → Result JobRunPage
  unfolding tenant_predicate sort_by listed_before is_match seek page_of clamp_limit
  list_job_runs query o =
      map_ok
        (λ check. page_of (clamp_limit query.limit) (
          seek (keyset_in query.cursor)
            (sort_by listed_before (keep (λ r. check r && is_match query r) (values o.runs)))))
        (tenant_predicate o.multi_tenant "listJobRuns" query.tenant_id)
