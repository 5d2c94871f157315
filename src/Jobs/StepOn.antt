-- ===== src/Jobs/StepOn.antt =====
-- `ctx.step` (`makeStepFn` of jobs/job-orchestrator.memory-backend.ts) for a work that uses the whole
-- orchestrator, as one that starts a run does. `Jobs/Steps` has it for works over the steps alone.
use codegen_patterns.Base.{
  ℕ, ◌+◌, String, none, some, ◌≡◌, sym, ◌∙◌, ap, subst, Option-cases, inl, inr,
}
use codegen_patterns.Jobs.Types.{Instant, Payload, JobStep, step_running}
use codegen_patterns.Jobs.Steps.{
  next_seq, rows_of, find_step, record_step, step_input, finish_step, Outcome, returned,
}
use codegen_patterns.Jobs.Steps.Memo.{Memoised, finish_step-Memoised}
use codegen_patterns.Jobs.State.{Orchestrator}

abbrev pub RunWork : Type 0
RunWork = Orchestrator → Outcome × Orchestrator

unfoldable pub finish_step_on :
    String → Instant → String → String → ℕ → ℕ → Outcome × Orchestrator → Outcome × Orchestrator
unfolding finish_step
finish_step_on id now run_id step_id seq attempts (outcome, o) =
    let r = finish_step id now run_id step_id seq attempts (outcome, o.steps) in
    (r.0, record o { steps = r.1 })

unfoldable pub run_step_on :
    String → Instant → Instant → String → String → RunWork → Orchestrator → Outcome × Orchestrator
unfolding find_step finish_step_on record_step step_input next_seq rows_of
run_step_on id started finished run_id step_id work o = elim (find_step run_id step_id o.steps) [
  | some existing ↦ (returned existing.output, o)
  | none ↦
      let seq = next_seq (rows_of run_id o.steps) in
      let attempts : ℕ = 0 + 1 in
      let i = record (step_input run_id step_id seq attempts step_running) {
        started_at = some started;
      } in
      finish_step_on id finished run_id step_id seq attempts
        (work (record o { steps = record_step id i o.steps }))
]

module _ (id : String) (t u : Instant) (run_id step_id : String) where
  run_step_on-known :
      (work : RunWork) (o : Orchestrator) (r : JobStep)
      → find_step run_id step_id o.steps ≡ some r
      → run_step_on id t u run_id step_id work o ≡ (returned r.output, o)
  run_step_on-known work o r found = unfold run_step_on in rw (found, run_step_on)

  abbrev started_on : Orchestrator → Orchestrator
  started_on o = record o {
    steps =
        record_step id
          (record (step_input run_id step_id (next_seq (rows_of run_id o.steps)) 1 step_running) {
            started_at = some t;
          })
          o.steps;
  }

  run_step_on-fresh :
      (work : RunWork) (o : Orchestrator)
      → find_step run_id step_id o.steps ≡ none
      → run_step_on id t u run_id step_id work o
        ≡ finish_step_on id u run_id step_id
            (next_seq (rows_of run_id o.steps))
            1
            (work (started_on o))
  run_step_on-fresh work o fresh = unfold run_step_on in rw (fresh, run_step_on)

  finish_step_on-Memoised :
      (seq n : ℕ) (w : Outcome × Orchestrator) (o' : Orchestrator) (v : Payload)
      → finish_step_on id u run_id step_id seq n w ≡ (returned (some v), o')
      → Memoised run_id step_id v o'.steps
  unfolding finish_step_on
  finish_step_on-Memoised seq n w o' v h =
      finish_step-Memoised id u run_id step_id seq n w.0 w.1.steps o'.steps v
        (ap (λ p. (p.0, p.1.steps)) h)

  find_step-run_step_on :
      (work : RunWork) (o o' : Orchestrator) (v : Payload)
      → run_step_on id t u run_id step_id work o ≡ (returned (some v), o')
      → Memoised run_id step_id v o'.steps
  find_step-run_step_on work o o' v h = elim (Option-cases (find_step run_id step_id o.steps)) [
    | inr (r, found) ↦
        let e : (returned r.output, o) ≡ (returned (some v), o') =
          sym (run_step_on-known work o r found) ∙ h in
        let out : r.output ≡ some v = cc (ap (λ p. p.0) e) in
        subst (λ x. Memoised run_id step_id v x.steps) (ap (λ p. p.1) e) (r, found, out)
    | inl fresh ↦
        finish_step_on-Memoised (next_seq (rows_of run_id o.steps)) 1 (work (started_on o)) o' v
          (sym (run_step_on-fresh work o fresh) ∙ h)
  ]

-- When a step's work has returned an output, a later `ctx.step` with the same run and step id, in any
-- state with the same steps, returns that output and leaves the whole state as it is.
pub run_step_on_memo :
    (id id' : String) (t u t' u' : Instant) (run_id step_id : String) (work work' : RunWork)
    (o o' p : Orchestrator) (v : Payload)
    → run_step_on id t u run_id step_id work o ≡ (returned (some v), o')
    → p.steps ≡ o'.steps
    → run_step_on id' t' u' run_id step_id work' p ≡ (returned (some v), p)
run_step_on_memo id id' t u t' u' run_id step_id work work' o o' p v h same =
    let (r, found, out) = find_step-run_step_on id t u run_id step_id work o o' v h in
    rw
      (run_step_on-known id' t' u' run_id step_id work' p r
        (ap (find_step run_id step_id) same ∙ found))
      (rw out)
