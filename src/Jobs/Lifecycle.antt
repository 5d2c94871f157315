-- ===== src/Jobs/Lifecycle.antt =====
-- The end of a run, its retry and its replay: `markCompleted`, `markFailed`, `rescheduleForRetry`,
-- `tick` and `replay` of `MemoryJobOrchestrator`. The handler that `tick` runs is a parameter: a
-- function of the whole state, since it may start and cancel runs.
use Prim.Native.String.{◌++◌ as text_append}
use codegen_patterns.Base.{
  ℕ, ◌+◌, String, Option, none, some, true, false, [], if◌then◌else◌, or_else,
}
use codegen_patterns.Base.Dict.{get, set}
use codegen_patterns.Jobs.Types.{
  Instant, Payload, JobRun, pending, completed, failed, ReplayFrom, scratch, is_terminal,
  is_running, Result, ok, err, RetryPolicy, job_not_replayable, job_type_not_found, run_not_found,
  run_not_running,
}
use codegen_patterns.Jobs.Retry.{
  Thrown, Decision, retry, classify_error, compute_backoff, serialise_error,
}
use codegen_patterns.Jobs.Steps.{Steps, clear_steps_for_run, clear_incomplete_steps}
use codegen_patterns.Jobs.State.{Orchestrator, finish_run, cancel_run, is_terminate}

-- The guard of the three transitions: the run is looked up again, and a terminal one is left alone.
unfoldable pub on_current :
    String → (JobRun → Orchestrator → Orchestrator) → Orchestrator → Orchestrator
on_current id change o = elim (get id o.runs) [
  | none ↦ o
  | some current ↦ if is_terminal current.status then o else change current o
]

unfoldable pub completed_run : Payload → ℕ → Instant → JobRun → JobRun
completed_run output attempts now current = record current {
  status = completed;
  output = some output;
  finished_at = some now;
  updated_at = now;
  attempts = attempts;
}

unfoldable pub mark_completed : String → Payload → ℕ → Instant → Orchestrator → Orchestrator
unfolding on_current finish_run completed_run
mark_completed id output attempts now =
    on_current id λ current. finish_run id (completed_run output attempts now current) now

unfoldable pub failed_run : Thrown → ℕ → Instant → JobRun → JobRun
unfolding serialise_error
failed_run e attempts now current = record current {
  status = failed;
  error = some (serialise_error e attempts false);
  finished_at = some now;
  updated_at = now;
  attempts = attempts;
}

unfoldable pub fail_current : String → Thrown → ℕ → Instant → Orchestrator → Orchestrator
unfolding on_current finish_run failed_run
fail_current id e attempts now =
    on_current id λ current. finish_run id (failed_run e attempts now current) now

-- The cascade of `markFailed`, a section of its own behind the transition: other sections may run
-- between the two. An exception of `cancel` is only logged.
unfoldable pub cascade_failed : JobRun → Instant → Orchestrator → Orchestrator
unfolding cancel_run
cascade_failed run now o =
    if is_terminate run.parent_close_policy
    then (cancel_run run.id (record { cascade = some true; tenant_id = some run.tenant_id }) now
        o).0
    else o

-- `markFailed` where no other section runs between its two.
unfoldable pub mark_failed : JobRun → Thrown → ℕ → Instant → Orchestrator → Orchestrator
unfolding fail_current cascade_failed
mark_failed run e attempts now o = cascade_failed run now (fail_current run.id e attempts now o)

unfoldable pub retried_run : Thrown → ℕ → ℕ → Instant → JobRun → JobRun
unfolding serialise_error
retried_run e attempts delay_ms now current = record current {
  status = pending;
  error = some (serialise_error e attempts true);
  run_at = now + delay_ms;
  started_at = none;
  claimed_at = none;
  attempts = attempts;
  updated_at = now;
}

unfoldable pub reschedule_for_retry :
    String → Thrown → ℕ → ℕ → Instant → Orchestrator → Orchestrator
unfolding on_current retried_run
reschedule_for_retry id e attempts delay_ms now =
    on_current id
      λ current o. record o { runs = set id (retried_run e attempts delay_ms now current) o.runs }

pub data HandlerOutcome : Type 0 where
  handled : Option Payload → HandlerOutcome
  failed_with : Thrown → HandlerOutcome

-- What `handler.run(ctx)` does: it may change the state, and it returns or throws.
abbrev pub Handler : Type 0
Handler = JobRun → Orchestrator → Orchestrator × HandlerOutcome

unfoldable pub retry_or_fail :
    Decision → Option RetryPolicy → JobRun → Thrown → ℕ → Instant → Orchestrator → Orchestrator
unfolding reschedule_for_retry mark_failed
retry_or_fail retry (some policy) run e next_attempts now =
    reschedule_for_retry run.id e next_attempts (compute_backoff policy next_attempts) now
retry_or_fail _ _ run e next_attempts now = mark_failed run e next_attempts now

unfoldable pub finish_tick :
    Option RetryPolicy → JobRun → Instant → Orchestrator × HandlerOutcome → Orchestrator
unfolding mark_completed retry_or_fail classify_error
finish_tick policy run now (o, handled output) =
    mark_completed run.id (or_else output []) (run.attempts + 1) now o
finish_tick policy run now (o, failed_with e) =
    retry_or_fail (classify_error e policy run.attempts) policy run e (run.attempts + 1) now o

unfoldable pub no_handler : String → Thrown
no_handler type = record {
  name = some "Error";
  code = none;
  message = text_append "No handler registered for jobType='" (text_append type "'");
  stack = none;
}

unfoldable pub run_handler : Handler → JobRun → Instant → Orchestrator → Orchestrator
unfolding finish_tick mark_failed no_handler
run_handler handler run now o = elim (get run.job_type o.handlers) [
  | none ↦ mark_failed run (no_handler run.job_type) (run.attempts + 1) now o
  | some meta ↦ finish_tick meta.retry run now (handler run o)
]

-- `tick`; `now` is the instant of the final transition. A tick in the midst of other sections is its
-- sections one by one, among them the two of `markFailed`.
unfoldable pub tick : Handler → String → Instant → Orchestrator → Orchestrator × Result (Unit {0})
unfolding run_handler
tick handler run_id now o = elim (get run_id o.runs) [
  | none ↦ (o, err (run_not_found run_id))
  | some run ↦
      if is_running run.status
      then (run_handler handler run now o, ok tt)
      else (o, err (run_not_running run_id run.status))
]

unfoldable pub clear_steps : ReplayFrom → String → Steps → Steps
unfolding clear_steps_for_run clear_incomplete_steps
clear_steps scratch run_id steps = clear_steps_for_run run_id steps
clear_steps _ run_id steps = clear_incomplete_steps run_id steps

unfoldable pub replayed : Instant → JobRun → JobRun
replayed now run = record run {
  status = pending;
  output = none;
  error = none;
  run_at = now;
  started_at = none;
  finished_at = none;
  claimed_at = none;
  attempts = 0;
  updated_at = now;
}

unfoldable pub replay : String → Instant → Orchestrator → Orchestrator × Result JobRun
unfolding clear_steps replayed
replay run_id now o = elim (get run_id o.runs) [
  | none ↦ (o, err (run_not_found run_id))
  | some run ↦
      if is_terminal run.status
      then elim (get run.job_type o.jobs) [
        | none ↦ (o, err (job_type_not_found run.job_type))
        | some d ↦ (
          record o {
            runs = set run_id (replayed now run) o.runs;
            steps = clear_steps d.replay_from run_id o.steps;
          },
          ok (replayed now run),
        )
      ]
      else (o, err (job_not_replayable run_id run.status))
]
