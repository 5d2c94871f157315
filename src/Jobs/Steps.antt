-- ===== src/Jobs/Steps.antt =====
-- `MemoryJobStepService` (jobs/job-step-service.memory-backend.ts) over the `steps` map of the
-- store, and `makeStepFn`, the `ctx.step` of jobs/job-orchestrator.memory-backend.ts.
pub mod Memo
mod Examples
use codegen_patterns.Base.{
  ℕ, suc, ◌+◌, max, String, Option, none, some, Bool, true, false, ◌&&◌, List, [], ◌∷◌, ◌++◌, ◌=ₛ◌,
  if◌then◌else◌, keep, find_first, or_else,
}
use codegen_patterns.Base.Dict.{Dict, get, set, remove}
use codegen_patterns.Jobs.Types.{
  Instant, Payload, JobStep, StepStatus, step_running, step_completed, step_failed, JobRunError,
  is_step_completed,
}
use codegen_patterns.Jobs.Retry.{Thrown, serialise_error}

abbrev pub Steps : Type 0
Steps = Dict (List JobStep)

pub record RecordStepInput : Type 0 where
  pub job_run_id : String
  pub step_id : String
  pub seq : Option ℕ
  pub input : Option Payload
  pub output : Option Payload
  pub error : Option JobRunError
  pub status : StepStatus
  pub started_at : Option Instant
  pub finished_at : Option Instant
  pub attempts : Option ℕ

-- `map.get(runId) ?? []`: a run with no rows reads as the empty list.
unfoldable pub rows_of : String → Steps → List JobStep
rows_of run_id steps = or_else (get run_id steps) []

unfoldable pub find_step : String → String → Steps → Option JobStep
unfolding rows_of
find_step run_id step_id steps =
    find_first (λ r. r.step_id =ₛ step_id && is_step_completed r.status) (rows_of run_id steps)

-- `next ?? prev` of two optional values.
abbrev pub keep_prev {ℓ} : {A : Type ℓ} → Option A → Option A → Option A
keep_prev none prev = prev
keep_prev (some a) prev = some a

unfoldable pub merge_step : RecordStepInput → JobStep → JobStep
merge_step i prev = record prev {
  status = i.status;
  input = keep_prev i.input prev.input;
  output = keep_prev i.output prev.output;
  error = keep_prev i.error prev.error;
  attempts = or_else i.attempts prev.attempts;
  started_at = keep_prev i.started_at prev.started_at;
  finished_at = keep_prev i.finished_at prev.finished_at;
}

-- `max(seq) + 1`, and 1 for no rows.
unfoldable pub max_seq : List JobStep → ℕ
max_seq [] = 0
max_seq (r ∷ rs) = max r.seq (max_seq rs)

unfoldable pub next_seq : List JobStep → ℕ
unfolding max_seq
next_seq rows = max_seq rows + 1

unfoldable pub new_step : String → RecordStepInput → List JobStep → JobStep
unfolding next_seq
new_step id i rows = record {
  id = id;
  job_run_id = i.job_run_id;
  step_id = i.step_id;
  seq = or_else i.seq (next_seq rows);
  status = i.status;
  input = i.input;
  output = i.output;
  error = i.error;
  attempts = or_else i.attempts 0;
  started_at = i.started_at;
  finished_at = i.finished_at;
}

-- The row with the input's step id is overwritten in place (`findIndex`), or a new one is pushed;
-- `fallback` is that new row.
unfoldable pub upsert_row : JobStep → RecordStepInput → List JobStep → List JobStep
unfolding merge_step
upsert_row fallback i [] = fallback ∷ []
upsert_row fallback i (r ∷ rs) =
    if r.step_id =ₛ i.step_id then merge_step i r ∷ rs else r ∷ upsert_row fallback i rs

-- `id` is the `randomUUID()` of a new row.
unfoldable pub record_step : String → RecordStepInput → Steps → Steps
unfolding upsert_row new_step rows_of
record_step id i steps =
    let rows = rows_of i.job_run_id steps in
    set i.job_run_id (upsert_row (new_step id i rows) i rows) steps

unfoldable pub clear_steps_for_run : String → Steps → Steps
clear_steps_for_run run_id steps = remove run_id steps

unfoldable pub put_kept : String → List JobStep → Steps → Steps
put_kept run_id [] steps = remove run_id steps
put_kept run_id (r ∷ rs) steps = set run_id (r ∷ rs) steps

unfoldable pub clear_incomplete_steps : String → Steps → Steps
unfolding put_kept
clear_incomplete_steps run_id steps = elim (get run_id steps) [
  | none ↦ steps
  | some rows ↦ put_kept run_id (keep (λ r. is_step_completed r.status) rows) steps
]

-- `ctx.step`. The work `fn` may use the steps of the run itself (nested calls), so it is a function
-- of the steps; `none` is an output of `undefined`, which is stored as `null`.
pub data Outcome : Type 0 where
  returned : Option Payload → Outcome
  threw : Thrown → Outcome

abbrev pub StepWork : Type 0
StepWork = Steps → Outcome × Steps

unfoldable pub step_input : String → String → ℕ → ℕ → StepStatus → RecordStepInput
step_input run_id step_id seq attempts status = record {
  job_run_id = run_id;
  step_id = step_id;
  seq = some seq;
  input = none;
  output = none;
  error = none;
  status = status;
  started_at = none;
  finished_at = none;
  attempts = some attempts;
}

-- The two branches of the `try`.
unfoldable pub finish_step :
    String → Instant → String → String → ℕ → ℕ → Outcome × Steps → Outcome × Steps
unfolding step_input record_step serialise_error
finish_step id now run_id step_id seq attempts (returned output, steps) =
    let i = record (step_input run_id step_id seq attempts step_completed) {
      output = output;
      finished_at = some now;
    } in
    (returned output, record_step id i steps)
finish_step id now run_id step_id seq attempts (threw e, steps) =
    let i = record (step_input run_id step_id seq attempts step_failed) {
      error = some (serialise_error e attempts false);
      finished_at = some now;
    } in
    (threw e, record_step id i steps)

-- `existing` of the code is a completed row or nothing, so the branch behind the memo finds none
-- and `(existing?.attempts ?? 0) + 1` is 1.
unfoldable pub run_step :
    String → Instant → Instant → String → String → StepWork → Steps → Outcome × Steps
unfolding find_step finish_step record_step step_input next_seq rows_of
run_step id started finished run_id step_id work steps = elim (find_step run_id step_id steps) [
  | some existing ↦ (returned existing.output, steps)
  | none ↦
      let seq = next_seq (rows_of run_id steps) in
      let attempts : ℕ = 0 + 1 in
      let i = record (step_input run_id step_id seq attempts step_running) {
        started_at = some started;
      } in
      finish_step id finished run_id step_id seq attempts (work (record_step id i steps))
]
