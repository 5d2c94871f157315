-- ===== src/Jobs/Cascade/Failure.antt =====
-- What the failure of a run does to the other runs.
use codegen_patterns.Base.{
  ℕ, String, Option, none, some, Bool, true, false, ◌≡◌, ◌⊎◌, refl, ◌∙◌, ap, inl, inr, Bool-cases,
  Option-cases, contains, arith, if◌then◌else◌,
}
use codegen_patterns.Base.Dict.{get, get-set_self}
use codegen_patterns.Jobs.Types.{Instant, JobRun, is_terminal, ok}
use codegen_patterns.Jobs.Retry.{Thrown}
use codegen_patterns.Jobs.State.{
  Orchestrator, finish_run, cancel_run, cancel_locked, is_terminate, resolve_tenant_id,
}
use codegen_patterns.Jobs.State.Released.{touch, map_run, get-finish_run, dependents_of}
use codegen_patterns.Jobs.Lifecycle.{
  on_current, fail_current, failed_run, cascade_failed, mark_failed,
}
use codegen_patterns.Jobs.Cascade.Reached.{cancel_locked-absent, cancel_locked-refused}

-- A run is absent or terminal.
abbrev pub IsOver : String → Orchestrator → Type 0
IsOver id o =
    (get id o.runs ≡ none)
    ⊎ ((r : JobRun) × (get id o.runs ≡ some r) × (is_terminal r.status ≡ true))

cancel_locked-IsOver :
    (id : String) (tenant : Option String) (now : Instant) (o : Orchestrator)
    → IsOver id o
    → cancel_locked id (some true) tenant now o ≡ o
cancel_locked-IsOver id tenant now o (inl absent) =
    cancel_locked-absent id (some true) tenant now o absent
cancel_locked-IsOver id tenant now o (inr (r, found, t)) =
    cancel_locked-refused id (some true) tenant now o r found (inl t)

resolve_given :
    (b : Bool) (tenant : Option String)
    → (t : Option String) × (resolve_tenant_id b "cancel" (some tenant) ≡ ok t)
unfolding resolve_tenant_id
resolve_given true tenant = (tenant, refl)
resolve_given false tenant = (none, refl)

cancel_run-cancel_locked :
    (id : String) (tenant t : Option String) (now : Instant) (o : Orchestrator)
    → resolve_tenant_id o.multi_tenant "cancel" (some tenant) ≡ ok t
    → (cancel_run id (record { cascade = some true; tenant_id = some tenant }) now o).0
      ≡ cancel_locked id (some true) t now o
cancel_run-cancel_locked id tenant t now o e = unfold cancel_run in rw (e, cancel_run)

cancel_run-IsOver :
    (id : String) (tenant : Option String) (now : Instant) (o : Orchestrator)
    → IsOver id o
    → (cancel_run id (record { cascade = some true; tenant_id = some tenant }) now o).0 ≡ o
cancel_run-IsOver id tenant now o over =
    let (t, e) = resolve_given o.multi_tenant tenant in
    cancel_run-cancel_locked id tenant t now o e ∙ cancel_locked-IsOver id t now o over

module _ (id : String) (e : Thrown) (attempts : ℕ) (now : Instant) (o : Orchestrator) where
  fail_current-absent : get id o.runs ≡ none → fail_current id e attempts now o ≡ o
  fail_current-absent absent = unfold fail_current in rw (absent, on_current)

  fail_current-over :
      (r : JobRun)
      → get id o.runs ≡ some r
      → is_terminal r.status ≡ true
      → fail_current id e attempts now o ≡ o
  fail_current-over r found t = unfold fail_current in rw (found, on_current, t)

  fail_current-live :
      (r : JobRun)
      → get id o.runs ≡ some r
      → is_terminal r.status ≡ false
      → fail_current id e attempts now o ≡ finish_run id (failed_run e attempts now r) now o
  fail_current-live r found t = unfold fail_current in rw (found, on_current, t)

  failed-IsOver : (r : JobRun) → IsOver id (finish_run id (failed_run e attempts now r) now o)
  failed-IsOver r =
      let next = failed_run e attempts now r in
      let b = contains id (dependents_of id o) in
      inr (
        touch now b next,
        get-finish_run id id next now o ∙ ap (map_run (touch now b)) (get-set_self id next o.runs),
        unfold failed_run in ground arith,
      )

  fail_current-IsOver : IsOver id (fail_current id e attempts now o)
  fail_current-IsOver = elim (Option-cases (get id o.runs)) [
    | inl absent ↦ rw (fail_current-absent absent) (inl absent)
    | inr (r, found) ↦ elim (Bool-cases (is_terminal r.status)) [
      | inl t ↦ rw (fail_current-over r found t) (inr (r, found, t))
      | inr t ↦ rw (fail_current-live r found t) (failed-IsOver r)
    ]
  ]

-- The two sections of `markFailed`. With no other section between them, the cascade changes nothing:
-- its transition leaves the run terminal or absent, and in any state where the run is so, `cancel`
-- leaves it alone. A cascade that finds the run live again, since it was replayed in between, is the
-- cancellation of that run with its descendants if the run has the policy terminate.
pub mark_failed_lem :
    (run : JobRun) (e : Thrown) (attempts : ℕ) (now later : Instant) (o between : Orchestrator)
    → (mark_failed run e attempts now o ≡ fail_current run.id e attempts now o)
      × IsOver run.id (fail_current run.id e attempts now o)
      × (IsOver run.id between → cascade_failed run later between ≡ between)
      × ((tenant : Option String)
          → resolve_tenant_id between.multi_tenant "cancel" (some run.tenant_id) ≡ ok tenant
          → cascade_failed run later between ≡ (
              if is_terminate run.parent_close_policy
              then cancel_locked run.id (some true) tenant later between
              else between))
mark_failed_lem run e attempts now later o between =
    let over = fail_current-IsOver run.id e attempts now o in
    (
      unfold mark_failed in
          cascade_failed-IsOver run now (fail_current run.id e attempts now o) over,
      over,
      cascade_failed-IsOver run later between,
      λ tenant passes. elim (Bool-cases (is_terminate run.parent_close_policy)) [
        | inl t ↦
            unfold cascade_failed in
            rw t (cancel_run-cancel_locked run.id run.tenant_id tenant later between passes)
        | inr t ↦ unfold cascade_failed in rw t refl
      ],
    )
  where
    cascade_failed-IsOver :
        (run : JobRun) (now : Instant) (o : Orchestrator)
        → IsOver run.id o
        → cascade_failed run now o ≡ o
    cascade_failed-IsOver run now o over =
        elim (Bool-cases (is_terminate run.parent_close_policy)) [
          | inl t ↦
              unfold cascade_failed in rw t (cancel_run-IsOver run.id run.tenant_id now o over)
          | inr t ↦ unfold cascade_failed in rw t refl
        ]
