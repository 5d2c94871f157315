-- ===== src/Jobs/State.antt =====
-- The state of `MemoryJobOrchestrator` (jobs/job-orchestrator.memory-backend.ts) with the shared
-- `MemoryJobStore` (jobs/memory-job-store.ts), handler registration, and cancellation.
-- Every operation takes the instant `now` at which it runs: its calls of `new Date()` and
-- `Date.now()` agree. The bodies under the mutex are functions of the whole state.
pub mod Released
use codegen_patterns.Base.{
  ℕ, String, Option, none, some, Bool, true, false, ◌&&◌, not, List, [], ◌∷◌, map, ◌=ₛ◌,
  if◌then◌else◌, keep, or_else, opt_eq,
}
use codegen_patterns.Base.Dict.{Dict, get, set, remove, values}
use codegen_patterns.Jobs.Types.{
  Instant, JobRun, JobDefinition, JobHandlerMeta, RetryPolicy, fixed, queue, last_checkpoint,
  ParentClosePolicy, terminate, cancel, abandon, canceled, is_terminal, is_pending, Result, ok, err,
  ◌>>=◌, missing_tenant_id, CancelOptions,
}
use codegen_patterns.Jobs.Steps.{Steps}
use codegen_patterns.Jobs.Keys.{key_selector_to_template}

-- `runs`, `steps` and `jobs` are the maps of the store.
pub record Orchestrator : Type 0 where
  pub runs : Dict JobRun
  pub steps : Steps
  pub jobs : Dict JobDefinition
  pub handlers : Dict JobHandlerMeta
  pub queue_blockers : Dict (List String)
  pub multi_tenant : Bool

-- QUEUED_RUN_AT, the largest JavaScript date.
abbrev pub queued_run_at : Instant
queued_run_at = 8640000000000000

-- `null` where multi-tenancy is off; `undefined` is refused where it is on.
unfoldable pub resolve_tenant_id : Bool → String → Option (Option String) → Result (Option String)
resolve_tenant_id false method tenant = ok none
resolve_tenant_id true method none = err (missing_tenant_id method)
resolve_tenant_id true method (some tenant) = ok tenant

abbrev pub default_retry : RetryPolicy
default_retry = record { attempts = 1; backoff = fixed; base_ms = 0; non_retryable_errors = [] }

unfoldable pub definition_of : String → JobHandlerMeta → Instant → JobDefinition
unfolding key_selector_to_template
definition_of type meta now = record {
  type = type;
  version = 1;
  pool = or_else meta.pool "batch";
  scope_entity_type = meta.scope_entity;
  retry_policy = or_else meta.retry default_retry;
  timeout_ms = meta.timeout_ms;
  concurrency_key_template =
      key_selector_to_template (elim meta.concurrency [ none ↦ none | some p ↦ some p.key ]);
  collision_mode = elim meta.concurrency [ none ↦ queue | some p ↦ p.collision_mode ];
  dedupe_key_template =
      key_selector_to_template (elim meta.dedupe [ none ↦ none | some p ↦ some p.key ]);
  dedupe_window_ms = elim meta.dedupe [ none ↦ none | some p ↦ some p.window_ms ];
  priority_default = 0;
  replay_from = or_else meta.replay_from last_checkpoint;
  created_at = now;
  updated_at = now;
}

unfoldable pub register_handler : String → JobHandlerMeta → Instant → Orchestrator → Orchestrator
unfolding definition_of
register_handler type meta now o = record o {
  jobs = set type (definition_of type meta now) o.jobs;
  handlers = set type meta o.handlers;
}

unfoldable pub upsert_job_rows :
    List (String × JobHandlerMeta) → Instant → Orchestrator → Orchestrator × List String
unfolding register_handler
upsert_job_rows [] now o = (o, [])
upsert_job_rows ((type, meta) ∷ entries) now o =
    upsert_job_rows entries now (register_handler type meta now o)

-- The body of the loop of `unblockQueuedDependents`.
unfoldable pub release : Instant → String → Dict JobRun → Dict JobRun
release now dep runs = elim (get dep runs) [
  | none ↦ runs
  | some r ↦
      if is_pending r.status
      then set dep (record r { run_at = now; updated_at = now }) runs
      else runs
]

unfoldable pub release_all : Instant → List String → Dict JobRun → Dict JobRun
unfolding release
release_all now [] runs = runs
release_all now (d ∷ ds) runs = release_all now ds (release now d runs)

unfoldable pub unblock_with : List String → String → Instant → Orchestrator → Orchestrator
unfolding release_all
unblock_with [] run_id now o = o
unblock_with (d ∷ ds) run_id now o = record o {
  runs = release_all now (d ∷ ds) o.runs;
  queue_blockers = remove run_id o.queue_blockers;
}

unfoldable pub unblock_queued_dependents : String → Instant → Orchestrator → Orchestrator
unfolding unblock_with
unblock_queued_dependents run_id now o =
    unblock_with (or_else (get run_id o.queue_blockers) []) run_id now o

-- `runs.set(run_id, next)` and then the release of the runs that `run_id` blocks: the common end of
-- every transition into a terminal status.
unfoldable pub finish_run : String → JobRun → Instant → Orchestrator → Orchestrator
unfolding unblock_queued_dependents
finish_run run_id next now o =
    unblock_queued_dependents run_id now (record o { runs = set run_id next o.runs })

unfoldable pub canceled_run : Instant → JobRun → JobRun
canceled_run at run = record run { status = canceled; finished_at = some at; updated_at = at }

unfoldable pub transition_to_canceled : String → Instant → Orchestrator → Orchestrator
unfolding finish_run canceled_run
transition_to_canceled run_id at o = elim (get run_id o.runs) [
  | none ↦ o
  | some run ↦ if is_terminal run.status then o else finish_run run_id (canceled_run at run) at o
]

unfoldable pub cancel_each : List String → Instant → Orchestrator → Orchestrator
unfolding transition_to_canceled
cancel_each [] at o = o
cancel_each (id ∷ ids) at o = cancel_each ids at (transition_to_canceled id at o)

abbrev pub is_terminate : ParentClosePolicy → Bool
is_terminate terminate = true
is_terminate _ = false

abbrev pub is_cancel : ParentClosePolicy → Bool
is_cancel cancel = true
is_cancel _ = false

-- The runs of the same root that are not terminal, the run itself left out.
unfoldable pub descendants : JobRun → String → Dict JobRun → List JobRun
descendants run run_id runs =
    keep
      (λ r. r.root_run_id =ₛ run.root_run_id && not (r.id =ₛ run_id) && not (is_terminal r.status))
      (values runs)

unfoldable pub cascade_targets : Option Bool → JobRun → String → Dict JobRun → List JobRun
unfolding descendants
cascade_targets (some false) run run_id runs = []
cascade_targets (some true) run run_id runs = descendants run run_id runs
cascade_targets none run run_id runs = descendants run run_id runs

abbrev pub ids_of : List JobRun → List String
ids_of rs = map (λ r. r.id) rs

unfoldable pub cancel_tree : Option Bool → JobRun → String → Instant → Orchestrator → Orchestrator
unfolding cancel_each cascade_targets transition_to_canceled
cancel_tree cascade run run_id now o =
    let targets = cascade_targets cascade run run_id o.runs in
    let terminated =
      cancel_each (ids_of (keep (λ d. is_terminate d.parent_close_policy) targets)) now o in
    let canceled =
      cancel_each (ids_of (keep (λ d. is_cancel d.parent_close_policy) targets)) now terminated in
    transition_to_canceled run_id now canceled

unfoldable pub cancel_locked :
    String → Option Bool → Option String → Instant → Orchestrator → Orchestrator
unfolding cancel_tree
cancel_locked run_id cascade tenant_for_gate now o = elim (get run_id o.runs) [
  | none ↦ o
  | some run ↦
      if o.multi_tenant && not (opt_eq run.tenant_id tenant_for_gate)
      then o
      else if is_terminal run.status
      then o
      else cancel_tree cascade run run_id now o
]

-- `cancel`
unfoldable pub cancel_run :
    String → CancelOptions → Instant → Orchestrator → Orchestrator × Result (Unit {0})
unfolding cancel_locked resolve_tenant_id
cancel_run run_id opts now o = elim (resolve_tenant_id o.multi_tenant "cancel" opts.tenant_id) [
  | err e ↦ (o, err e)
  | ok tenant ↦ (cancel_locked run_id opts.cascade tenant now o, ok tt)
]
