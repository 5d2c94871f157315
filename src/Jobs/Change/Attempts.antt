-- ===== src/Jobs/Change/Attempts.antt =====
-- Claim, completion, failure, retry and replay are sequences of changes.
use codegen_patterns.Base.{
  ℕ, ◌+◌, ◌<◌, String, Option, none, some, true, false, ◌≡◌, refl, sym, ◌∙◌, ap, arith, inl, inr,
  subst, Bool-cases,
}
use codegen_patterns.Base.Dict.{get, set}
use codegen_patterns.Jobs.Types.{Instant, Payload, JobRun, JobDefinition, is_terminal}
use codegen_patterns.Jobs.State.{Orchestrator, queued_run_at, finish_run, is_terminate}
use codegen_patterns.Jobs.Claim.{claim_next}
use codegen_patterns.Jobs.Claim.Order.{ClaimIs, claim_next_lem}
use codegen_patterns.Jobs.Retry.{Thrown}
use codegen_patterns.Jobs.Lifecycle.{
  on_current, mark_completed, fail_current, cascade_failed, reschedule_for_retry, replay, replayed,
  completed_run, failed_run, retried_run, clear_steps,
}
use codegen_patterns.Jobs.Change.{advance, revive, Changes, unchanged}
use codegen_patterns.Jobs.Change.Keyed.{Keyed, value-found}
use codegen_patterns.Jobs.Change.Operations.{one, finish-Changes, cancel_run-Changes}

on_current-Changes :
    (id : String) (change : JobRun → Orchestrator → Orchestrator) (o : Orchestrator)
    → ((r : JobRun)
        → get id o.runs ≡ some r
        → is_terminal r.status ≡ false
        → Changes o (change r o))
    → Changes o (on_current id change o)
on_current-Changes id change o h = go (get id o.runs) refl
  where
    go : (r : Option JobRun) → get id o.runs ≡ r → Changes o (on_current id change o)
    go none e = unfold on_current in rw (e, on_current) unchanged
    go (some r) e = elim (Bool-cases (is_terminal r.status)) [
      | inl t ↦ unfold on_current in rw (e, on_current, t) unchanged
      | inr t ↦ unfold on_current in rw (e, on_current, t) (h r e t)
    ]

pub mark_completed-Changes :
    (id : String) (output : Payload) (attempts : ℕ) (now : Instant) (o : Orchestrator)
    → now < queued_run_at
    → Keyed o.runs
    → Changes o (mark_completed id output attempts now o)
mark_completed-Changes id output attempts now o early keyed =
    unfold mark_completed in
    on_current-Changes id (λ r. finish_run id (completed_run output attempts now r) now) o
      λ r found live.
        finish-Changes o id r (completed_run output attempts now r) now keyed found
          (record { id = refl; parent = refl; root = refl; tenant = refl }) live refl early

pub fail_current-Changes :
    (id : String) (e : Thrown) (attempts : ℕ) (now : Instant) (o : Orchestrator)
    → now < queued_run_at
    → Keyed o.runs
    → Changes o (fail_current id e attempts now o)
fail_current-Changes id e attempts now o early keyed =
    unfold fail_current in
    on_current-Changes id (λ r. finish_run id (failed_run e attempts now r) now) o
      λ r found live.
        finish-Changes o id r (failed_run e attempts now r) now keyed found
          (record { id = refl; parent = refl; root = refl; tenant = refl }) live refl early

pub cascade_failed-Changes :
    (run : JobRun) (now : Instant) (o : Orchestrator)
    → now < queued_run_at
    → Keyed o.runs
    → Changes o (cascade_failed run now o)
cascade_failed-Changes run now o early keyed =
    elim (Bool-cases (is_terminate run.parent_close_policy)) [
      | inl t ↦
          unfold cascade_failed in
          rw t (
            cancel_run-Changes run.id
              (record { cascade = some true; tenant_id = some run.tenant_id }) now o early keyed)
      | inr t ↦ unfold cascade_failed in rw t unchanged
    ]

pub reschedule_for_retry-Changes :
    (id : String) (e : Thrown) (attempts delay_ms : ℕ) (now : Instant) (o : Orchestrator)
    → now + delay_ms < queued_run_at
    → Keyed o.runs
    → Changes o (reschedule_for_retry id e attempts delay_ms now o)
reschedule_for_retry-Changes id e attempts delay_ms now o early keyed =
    unfold reschedule_for_retry in
    on_current-Changes id
      (λ r p. record p { runs = set id (retried_run e attempts delay_ms now r) p.runs }) o
      λ r found live.
        let own = keyed.own_id id r found in
        let next = retried_run e attempts delay_ms now r in
        subst (λ x. Changes o (record o { runs = set x next o.runs })) own
          (one (
            advance r next (subst (λ x. get x o.runs ≡ some r) (sym own) found)
              (record { id = refl; parent = refl; root = refl; tenant = refl }) live refl
              (λ stuck. omega (arith, stuck.1))))

pub claim_next-Changes :
    (pool : String) (now : Instant) (o : Orchestrator)
    → Keyed o.runs
    → Changes o (claim_next pool now o).0
claim_next-Changes pool now o keyed =
    go (claim_next pool now o).0 (claim_next pool now o).1 (claim_next_lem pool now o)
  where
    go : (p : Orchestrator) (c : Option JobRun) → ClaimIs pool now o (p, c) → Changes o p
    go p none (same, _) = subst (Changes o) (sym same) unchanged
    go p (some c) (w, (listed, status, _, _), e, same, _) = subst (Changes o) (sym same) (
        one (
          advance w c (value-found w o.runs keyed listed)
            (rw e (record { id = refl; parent = refl; root = refl; tenant = refl }))
            (rw status refl) (rw e refl) (λ stuck. cc (sym (ap (λ r. r.status) e) ∙ stuck.0))))

pub replay-Changes :
    (id : String) (now : Instant) (o : Orchestrator)
    → now < queued_run_at
    → Keyed o.runs
    → Changes o (replay id now o).0
replay-Changes id now o early keyed = go (get id o.runs) refl
  where
    revived :
        (r : JobRun) (d : JobDefinition)
        → get id o.runs ≡ some r
        → is_terminal r.status ≡ true
        → Changes o (record o {
          runs = set id (replayed now r) o.runs;
          steps = clear_steps d.replay_from id o.steps;
        })
    revived r d e t =
        let own = keyed.own_id id r e in
        let steps = clear_steps d.replay_from id o.steps in
        subst (λ x. Changes o (record o { runs = set x (replayed now r) o.runs; steps = steps }))
          own
          (unfold replayed in
            one (
              revive r (replayed now r) steps (subst (λ x. get x o.runs ≡ some r) (sym own) e)
                (record { id = refl; parent = refl; root = refl; tenant = refl }) t refl
                (λ stuck. omega (arith, stuck.1))))

    defined :
        (r : JobRun)
        → get id o.runs ≡ some r
        → is_terminal r.status ≡ true
        → (d : Option JobDefinition) → get r.job_type o.jobs ≡ d
        → Changes o (replay id now o).0
    defined r e t none f = unfold replay in rw (e, replay, t, f) unchanged
    defined r e t (some d) f = unfold replay in rw (e, replay, t, f) (revived r d e t)

    go : (r : Option JobRun) → get id o.runs ≡ r → Changes o (replay id now o).0
    go none e = unfold replay in rw (e, replay) unchanged
    go (some r) e = elim (Bool-cases (is_terminal r.status)) [
      | inl t ↦ defined r e t (get r.job_type o.jobs) refl
      | inr t ↦ unfold replay in rw (e, replay, t) unchanged
    ]
