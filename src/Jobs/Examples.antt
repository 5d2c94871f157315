-- ===== src/Jobs/Examples.antt =====
-- Concrete states of the jobs subsystem, and the theorems about it at these states.
mod Runs
use codegen_patterns.Base.{
  ◌≤◌, ◌<◌, ◌^◌, ◌*◌, ◌-◌, min, String, Option, none, some, Bool, true, false, List, [], ◌∷◌, In,
  All, ◌≡◌, ◌⊎◌, ◌↔◌, ◌+◌, refl, inl, arith, if◌then◌else◌, opt_eq, length, keep, some-eq,
}
use codegen_patterns.Base.Dict.{get, set, values}
use codegen_patterns.Jobs.Types.{
  shown, JobRun, JobHandlerMeta, JobDefinition, template, JobError, StartOptions, RetryPolicy,
  RunStatus, pending, running, manual, terminate, exponential, queue, reject, last_checkpoint,
  is_terminal, is_step_completed, missing_tenant_id, job_collision, ok, err,
}
use codegen_patterns.Jobs.Retry.{
  Thrown, retry, fail, is_non_retryable, classify_error, compute_backoff, max_safe_integer,
}
use codegen_patterns.Jobs.Retry.Bounds.{
  IsOther, classify_error-retry_iff, compute_backoff-exponential,
}
use codegen_patterns.Jobs.Template.{evaluate_key_template}
use codegen_patterns.Jobs.Template.Fields.{
  fields_from, IsPresent, Blames, evaluate_key_template_lem,
}
use codegen_patterns.Jobs.Keys.{resolve_key}
use codegen_patterns.Jobs.Steps.{
  Steps, StepWork, returned, rows_of, find_step, threw, run_step, clear_incomplete_steps,
}
use codegen_patterns.Jobs.Steps.Memo.{run_step_memo, clear_incomplete_steps_lem}
use codegen_patterns.Jobs.State.{
  Orchestrator, register_handler, default_retry, resolve_tenant_id, cancel_locked, is_terminate,
}
use codegen_patterns.Jobs.Start.{start}
use codegen_patterns.Jobs.Start.Dedupe.{IsRecent, start_dedupe}
use codegen_patterns.Jobs.Start.Errors.{start_error_unchanged}
use codegen_patterns.Jobs.Claim.{claim_next}
use codegen_patterns.Jobs.Claim.Order.{ClaimIs, claim_next_lem}
use codegen_patterns.Jobs.Lifecycle.{mark_failed, cascade_failed, fail_current}
use codegen_patterns.Jobs.Spawn.{SpawnChildOptions, spawn_child}
use codegen_patterns.Jobs.Queue.{NoStarvation}
use codegen_patterns.Jobs.Change.Keyed.{Keyed, set-Keyed}
use codegen_patterns.Jobs.Change.Lineage.{Persists, IsRooted}
use codegen_patterns.Jobs.Reach.{
  empty, Reach, here, more, register, started, claim, Reach-NoStarvation, Reach-IsRooted,
  Reach-Persists,
}
use codegen_patterns.Jobs.Cascade.{status_of, cancel_status, is_reached}
use codegen_patterns.Jobs.Cascade.Reached.{cancel_locked_lem}
use codegen_patterns.Jobs.Cascade.Failure.{IsOver, mark_failed_lem}
use codegen_patterns.Jobs.Pools.{
  PoolDefinition, UserPoolShape, PoolConfig, loaded, framework_pools, load_pool_config,
}
use codegen_patterns.Jobs.Pools.Merged.{IsUserPool, load_pool_config_lem}
use codegen_patterns.Jobs.RunService.{PoolStatusCount, in_scope, tenant_predicate, cancel_for_scope}
use codegen_patterns.Jobs.RunService.Queries.{count_by_pool_and_status}
use codegen_patterns.Jobs.RunService.Scope.{cancel_for_scope_lem}
use codegen_patterns.Jobs.RunService.Counts.{count_of, is_counted, count_by_pool_and_status_lem}

abbrev pub run_named : String → Option String → RunStatus → JobRun
run_named id parent status = record {
  id = id;
  job_type = "sync";
  job_version = 1;
  parent_run_id = parent;
  root_run_id = "a";
  parent_close_policy = terminate;
  scope_entity_type = some "account";
  scope_entity_id = some "7";
  tenant_id = none;
  tags = [];
  pool = "batch";
  priority = 0;
  concurrency_key = some "k";
  dedupe_key = some "k";
  status = status;
  input = [];
  output = none;
  error = none;
  trigger_source = manual;
  trigger_ref = none;
  run_at = 100;
  started_at = none;
  finished_at = none;
  claimed_at = none;
  attempts = 0;
  created_at = 100;
  updated_at = 100;
}

abbrev sync_definition : JobDefinition
sync_definition = record {
  type = "sync";
  version = 1;
  pool = "batch";
  scope_entity_type = none;
  retry_policy = default_retry;
  timeout_ms = none;
  concurrency_key_template = some "k";
  collision_mode = reject;
  dedupe_key_template = some "k";
  dedupe_window_ms = some 50;
  priority_default = 0;
  replay_from = last_checkpoint;
  created_at = 1;
  updated_at = 1;
}

-- A running parent and its pending child.
abbrev pub family : Orchestrator
family = record {
  runs = ("a", run_named "a" none running) ∷ ("b", run_named "b" (some "a") pending) ∷ [];
  steps = [];
  jobs = ("sync", sync_definition) ∷ [];
  handlers = [];
  queue_blockers = [];
  multi_tenant = false;
}

abbrev pub no_options : StartOptions
no_options = record {
  scope = none;
  pool = none;
  run_at = none;
  priority = none;
  tags = none;
  trigger_source = none;
  trigger_ref = none;
  parent_close_policy = none;
  parent_run_id = none;
  tenant_id = none;
}

abbrev pub oops : Thrown
oops = record { name = some "Error"; code = none; message = "oops"; stack = none }

abbrev three_attempts : RetryPolicy
three_attempts = record {
  attempts = 3;
  backoff = exponential;
  base_ms = 100;
  non_retryable_errors = "TypeError" ∷ [];
}

nothing-Keyed : Keyed []
unfolding get
nothing-Keyed = record { unique = tt; own_id = λ k r e. cc }

pub family-Keyed : Keyed family.runs
unfolding set
family-Keyed =
    set-Keyed (("a", run_named "a" none running) ∷ []) "b" (run_named "b" (some "a") pending) refl
      (set-Keyed [] "a" (run_named "a" none running) refl nothing-Keyed)

abbrev sync_meta : JobHandlerMeta
sync_meta = record {
  pool = none;
  scope_entity = none;
  retry = none;
  concurrency = some (record { key = template "k"; collision_mode = queue });
  dedupe = none;
  timeout_ms = none;
  replay_from = none;
}

-- A handler is registered, and two runs with one key are started: the second waits for the first.
abbrev registered : Orchestrator
registered = register_handler "sync" sync_meta 100 (empty false)

abbrev first_started : Orchestrator
first_started = (start "a" 100 "sync" none no_options registered).0

abbrev both_started : Orchestrator
both_started = (start "b" 101 "sync" none no_options first_started).0

both_started-Reach : Reach (empty false) both_started
unfolding start get register_handler set evaluate_key_template
both_started-Reach =
    more
      (more (more here (register "sync" sync_meta 100))
        (started "a" 100 "sync" none no_options (omega arith) (λ e. omega (arith, e)) refl))
      (started "b" 101 "sync" none no_options (omega arith) (λ e. omega (arith, e)) refl)

Reach-NoStarvation_example : NoStarvation both_started
Reach-NoStarvation_example = Reach-NoStarvation both_started-Reach

Reach-IsRooted_example : Keyed both_started.runs × IsRooted both_started.runs
Reach-IsRooted_example = Reach-IsRooted both_started-Reach

Reach-Persists_example : Persists family.runs (claim_next "batch" 200 family).0.runs
Reach-Persists_example = Reach-Persists family-Keyed (more here (claim "batch" 200))

claim_next_lem_example : ClaimIs "batch" 200 family (claim_next "batch" 200 family)
claim_next_lem_example = claim_next_lem "batch" 200 family

mark_failed_lem_example :
    (mark_failed (run_named "a" none running) oops 1 200 family
      ≡ fail_current "a" oops 1 200 family)
    × IsOver "a" (fail_current "a" oops 1 200 family)
    × (IsOver "a" family → cascade_failed (run_named "a" none running) 201 family ≡ family)
    × ((tenant : Option String)
        → resolve_tenant_id false "cancel" (some (run_named "a" none running).tenant_id) ≡ ok tenant
        → cascade_failed (run_named "a" none running) 201 family ≡ (
            if is_terminate (run_named "a" none running).parent_close_policy
            then cancel_locked "a" (some true) tenant 201 family
            else family))
mark_failed_lem_example = mark_failed_lem (run_named "a" none running) oops 1 200 201 family family

start_error_unchanged_example : (start "c" 900 "sync" none no_options family).0 ≡ family
unfolding start get evaluate_key_template
start_error_unchanged_example =
    start_error_unchanged "c" 900 "sync" none no_options family
      (start "c" 900 "sync" none no_options family).0
      (job_collision "sync" "k" (run_named "a" none running)) (λ d found mode. cc (some-eq found))
      refl

classify_error-retry_iff_example :
    (classify_error oops none 0 ≡ fail)
    × ((classify_error oops (some three_attempts) 0 ≡ retry)
        ↔ (All (IsOther oops) ("TypeError" ∷ []) × (0 + 1 < 3)))
classify_error-retry_iff_example = classify_error-retry_iff oops three_attempts 0

compute_backoff-exponential_example :
    (compute_backoff three_attempts 2 ≡ min (100 * 2 ^ (2 - 1)) max_safe_integer)
    × (2 ≤ 3 → compute_backoff three_attempts 2 ≤ compute_backoff three_attempts 3)
compute_backoff-exponential_example =
    compute_backoff-exponential three_attempts 2 3 refl (omega arith)

evaluate_key_template_lem_example :
    (All (IsPresent (("id", shown "7") ∷ [])) (fields_from 0 "u-{{id}}")
      → (key : String) × (evaluate_key_template "u-{{id}}" (("id", shown "7") ∷ []) ≡ ok key))
    × ((e : JobError)
        → evaluate_key_template "u-{{id}}" (("id", shown "7") ∷ []) ≡ err e
        → Blames "u-{{id}}" (("id", shown "7") ∷ []) (fields_from 0 "u-{{id}}") e)
evaluate_key_template_lem_example = evaluate_key_template_lem "u-{{id}}" (("id", shown "7") ∷ [])

start_dedupe_example :
    (r : JobRun) × (start "c" 120 "sync" none no_options family ≡ (family, ok r))
    × In r (values family.runs)
    × IsRecent "sync" "k" 120 50 r
    × ((s' : JobRun)
        → In s' (values family.runs)
        → IsRecent "sync" "k" 120 50 s'
        → s'.created_at ≤ r.created_at)
unfolding get resolve_tenant_id resolve_key evaluate_key_template
start_dedupe_example =
    start_dedupe "c" 120 "sync" none no_options family sync_definition "k" "k" 50 none refl refl
      refl refl refl (run_named "a" none running) (inl refl)
      (refl, refl, (λ e. cc), (λ e. cc), omega arith)
