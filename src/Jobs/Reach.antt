-- ===== src/Jobs/Reach.antt =====
-- The states that the memory backend can reach. A step is one section under its mutex, so a run of
-- the program, with its handlers interleaved at will, is a sequence of such steps.
use codegen_patterns.Base.{ℕ, ◌+◌, ◌<◌, String, Option, none, Bool, [], ◌≡◌, ◌≢◌, or_else}
use codegen_patterns.Base.Dict.{get}
use codegen_patterns.Jobs.Types.{
  Instant, Payload, JobRun, JobHandlerMeta, StartOptions, CancelOptions,
}
use codegen_patterns.Jobs.Retry.{Thrown}
use codegen_patterns.Jobs.Steps.{Steps}
use codegen_patterns.Jobs.State.{Orchestrator, queued_run_at, register_handler, cancel_run}
use codegen_patterns.Jobs.Start.{start}
use codegen_patterns.Jobs.Claim.{claim_next}
use codegen_patterns.Jobs.Lifecycle.{
  mark_completed, fail_current, cascade_failed, reschedule_for_retry, replay,
}
use codegen_patterns.Jobs.Queue.{NoStarvation}
use codegen_patterns.Jobs.Change.{aside, Changes, unchanged, Changes-trans}
use codegen_patterns.Jobs.Change.Keyed.{Keyed, Changes-Keyed}
use codegen_patterns.Jobs.Change.Waiting.{Changes-NoStarvation}
use codegen_patterns.Jobs.Change.Lineage.{Persists, Changes-Persists, IsRooted, Changes-IsRooted}
use codegen_patterns.Jobs.Change.Operations.{one, cancel_run-Changes}
use codegen_patterns.Jobs.Change.Attempts.{
  mark_completed-Changes, fail_current-Changes, cascade_failed-Changes,
  reschedule_for_retry-Changes, claim_next-Changes, replay-Changes,
}
use codegen_patterns.Jobs.Change.Creation.{start-Changes}

abbrev pub empty : Bool → Orchestrator
empty multi_tenant = record {
  runs = [];
  steps = [];
  jobs = [];
  handlers = [];
  queue_blockers = [];
  multi_tenant = multi_tenant;
}

-- Clocks show a date before the last JavaScript date, and new ids are new.
pub data Step (o : Orchestrator) : Orchestrator → Type 0 where
  register :
      (type : String) (meta : JobHandlerMeta) (now : Instant)
      → Step o (register_handler type meta now o)
  started :
      (new_id : String) (now : Instant) (type : String) (input : Option Payload)
      (opts : StartOptions)
      → now < queued_run_at
      → or_else opts.run_at now ≢ queued_run_at
      → get new_id o.runs ≡ none
      → Step o (start new_id now type input opts o).0
  cancelled :
      (id : String) (opts : CancelOptions) (now : Instant)
      → now < queued_run_at
      → Step o (cancel_run id opts now o).0
  claim : (pool : String) (now : Instant) → Step o (claim_next pool now o).0
  complete :
      (id : String) (output : Payload) (attempts : ℕ) (now : Instant)
      → now < queued_run_at
      → Step o (mark_completed id output attempts now o)
  fail :
      (id : String) (e : Thrown) (attempts : ℕ) (now : Instant)
      → now < queued_run_at
      → Step o (fail_current id e attempts now o)
  cascade : (run : JobRun) (now : Instant) → now < queued_run_at → Step o (cascade_failed run now o)
  reschedule :
      (id : String) (e : Thrown) (attempts delay_ms : ℕ) (now : Instant)
      → now + delay_ms < queued_run_at
      → Step o (reschedule_for_retry id e attempts delay_ms now o)
  again : (id : String) (now : Instant) → now < queued_run_at → Step o (replay id now o).0
  record_steps : (steps : Steps) → Step o (record o { steps = steps })

pub data Reach (o : Orchestrator) : Orchestrator → Type 0 where
  here : Reach o o
  more : {p q : Orchestrator} → Reach o p → Step p q → Reach o q

pub Step-Changes : {o p : Orchestrator} → Keyed o.runs → Step o p → Changes o p
unfolding register_handler
Step-Changes {o} k (register type meta now) = one (
    aside o.steps (register_handler type meta now o).jobs
      (register_handler type meta now o).handlers)
Step-Changes {o} k (started new_id now type input opts early time fresh) =
    start-Changes new_id now type input opts o early time k fresh
Step-Changes {o} k (cancelled id opts now early) = cancel_run-Changes id opts now o early k
Step-Changes {o} k (claim pool now) = claim_next-Changes pool now o k
Step-Changes {o} k (complete id output attempts now early) =
    mark_completed-Changes id output attempts now o early k
Step-Changes {o} k (fail id e attempts now early) = fail_current-Changes id e attempts now o early k
Step-Changes {o} k (cascade run now early) = cascade_failed-Changes run now o early k
Step-Changes {o} k (reschedule id e attempts delay_ms now early) =
    reschedule_for_retry-Changes id e attempts delay_ms now o early k
Step-Changes {o} k (again id now early) = replay-Changes id now o early k
Step-Changes {o} k (record_steps steps) = one (aside steps o.jobs o.handlers)

Reach-Changes : {o p : Orchestrator} → Keyed o.runs → Reach o p → Changes o p
Reach-Changes k here = unchanged
Reach-Changes k (more r s) =
    let before = Reach-Changes k r in Changes-trans before (Step-Changes (Changes-Keyed before k) s)

empty-Keyed : (b : Bool) → Keyed (empty b).runs
unfolding get
empty-Keyed b = record { unique = tt; own_id = λ k r e. cc }

empty-NoStarvation : (b : Bool) → NoStarvation (empty b)
unfolding get
empty-NoStarvation b k r e stuck = cc

empty-IsRooted : (b : Bool) → IsRooted (empty b).runs
unfolding get
empty-IsRooted b k r e = cc

-- In every state that the backend reaches from its empty state, by steps whose clocks are before the
-- last JavaScript date, whose requested run times are not that date and whose new ids are new: each
-- pending run that waits behind a concurrency key (its time is the last date) is on the list of
-- dependents of a run that is stored and not terminal.
pub Reach-NoStarvation : {b : Bool} {o : Orchestrator} → Reach (empty b) o → NoStarvation o
Reach-NoStarvation {b} r =
    Changes-NoStarvation (Reach-Changes (empty-Keyed b) r) (empty-NoStarvation b)

-- In every state that the backend reaches from its empty state, the map of runs has no key twice and
-- holds each run under its own id; and each run has the root of its parent, which is stored, or is
-- its own root if it has no parent.
pub Reach-IsRooted :
    {b : Bool} {o : Orchestrator} → Reach (empty b) o → Keyed o.runs × IsRooted o.runs
Reach-IsRooted {b} r =
    let c = Reach-Changes (empty-Keyed b) r in
    (Changes-Keyed c (empty-Keyed b), Changes-IsRooted c (empty-IsRooted b))

-- From a state whose runs are stored under their own ids, no sequence of steps drops a run or changes
-- its id, its parent, its root or its tenant.
pub Reach-Persists : {o p : Orchestrator} → Keyed o.runs → Reach o p → Persists o.runs p.runs
Reach-Persists k r = Changes-Persists (Reach-Changes k r)
