-- ===== src/Jobs/RunService/Scope.antt =====
-- The bulk operations of `MemoryJobRunService` on the runs of a scope: what `cancelForScope`
-- guarantees of each run.
use codegen_patterns.Base.{
  String, Option, none, some, Bool, true, false, ◌&&◌, not, List, [], ◌∷◌, map, ◌≡◌, ◌⊎◌, refl, sym,
  ◌∙◌, ap, arith, inl, inr, Bool-cases, Option-cases, text-cases, subst, eq_refl, contains, opt_eq,
  In, keep, In-keep, some-eq,
}
use codegen_patterns.Base.Dict.{get, set, values, get-values, get-set_self, get-set_ne}
use codegen_patterns.Jobs.Types.{
  Instant, JobRun, RunStatus, canceled, is_terminal, CancelOptions, JobError, Result, ok, err,
}
use codegen_patterns.Jobs.State.{
  Orchestrator, unblock_with, unblock_queued_dependents, finish_run, canceled_run, cancel_run,
  cancel_locked, resolve_tenant_id,
}
use codegen_patterns.Jobs.Change.Keyed.{Keyed}
use codegen_patterns.Jobs.State.Released.{touch, map_run, get-finish_run, dependents_of}
use codegen_patterns.Jobs.Change.Cancellation.{cancel_run_ind}
use codegen_patterns.Jobs.Cascade.{status_of, is_reached}
use codegen_patterns.Jobs.Cascade.Reached.{cancel_locked_lem}
use codegen_patterns.Jobs.RunService.{
  in_scope, tenant_predicate, cancel_ids, scope_targets, cancel_for_scope,
}

-- What a cancellation keeps: a stored run stays, with its tenant, and a terminal one stays terminal.
record Ends (o p : Orchestrator) : Type 0 where
  gate : p.multi_tenant ≡ o.multi_tenant
  run :
      (k : String) (r : JobRun)
      → get k o.runs ≡ some r
      → (s : JobRun) × (get k p.runs ≡ some s)
        × (s.tenant_id ≡ r.tenant_id)
        × (is_terminal r.status ≡ true → is_terminal s.status ≡ true)

Ends-refl : (o : Orchestrator) → Ends o o
Ends-refl o = record { gate = refl; run = λ k r e. (r, e, refl, λ h. h) }

Ends-trans : (o p q : Orchestrator) → Ends o p → Ends p q → Ends o q
Ends-trans o p q a b = record {
  gate = b.gate ∙ a.gate;
  run = λ k r e.
      let (s, f, t, over) = a.run k r e in
      let (s', f', t', over') = b.run k s f in (s', f', t' ∙ t, λ h. over' (over h));
}

touch-tenant : (now : Instant) (b : Bool) (r : JobRun) → (touch now b r).tenant_id ≡ r.tenant_id
touch-tenant now b r = ground arith

touch-status : (now : Instant) (b : Bool) (r : JobRun) → (touch now b r).status ≡ r.status
touch-status now b r = ground arith

unblock_with-gate :
    (ds : List String) (id : String) (now : Instant) (o : Orchestrator)
    → (unblock_with ds id now o).multi_tenant ≡ o.multi_tenant
unfolding unblock_with
unblock_with-gate [] id now o = refl
unblock_with-gate (d ∷ ds) id now o = refl

finish_run-gate :
    (id : String) (next : JobRun) (now : Instant) (o : Orchestrator)
    → (finish_run id next now o).multi_tenant ≡ o.multi_tenant
unfolding finish_run unblock_queued_dependents
finish_run-gate id next now o =
    unblock_with-gate (dependents_of id o) id now (record o { runs = set id next o.runs })

get-finished :
    (k id : String) (next y : JobRun) (now : Instant) (o : Orchestrator)
    → get k (set id next o.runs) ≡ some y
    → get k (finish_run id next now o).runs ≡ some (touch now (contains k (dependents_of id o)) y)
get-finished k id next y now o e =
    get-finish_run k id next now o ∙ ap (map_run (touch now (contains k (dependents_of id o)))) e

finish_run-Ends :
    (now : Instant) (o : Orchestrator) (id : String) (r : JobRun)
    → Keyed o.runs
    → get id o.runs ≡ some r
    → is_terminal r.status ≡ false
    → Ends o (finish_run id (canceled_run now r) now o)
unfolding canceled_run
finish_run-Ends now o id r keyed found live = record {
  gate = finish_run-gate id (canceled_run now r) now o;
  run = λ k x e.
      let next = canceled_run now r in
      let listed = contains k (dependents_of id o) in
      elim (text-cases id k) [
        | inl q ↦
            let same : r ≡ x = some-eq (sym found ∙ ap (λ j. get j o.runs) q ∙ e) in
            let now_there : get k (set id next o.runs) ≡ some next =
              subst (λ j. get j (set id next o.runs) ≡ some next) q (get-set_self id next o.runs) in
            (
              touch now listed next,
              get-finished k id next next now o now_there,
              touch-tenant now listed next ∙ ap (λ y. y.tenant_id) same,
              λ h. ap is_terminal (touch-status now listed next),
            )
        | inr (n, f) ↦ (
          touch now listed x,
          get-finished k id next x now o (get-set_ne k id next o.runs n ∙ e),
          touch-tenant now listed x,
          λ h. ap is_terminal (touch-status now listed x) ∙ h,
        )
      ];
}

cancel_run-Ends :
    (id : String) (opts : CancelOptions) (now : Instant) (o : Orchestrator)
    → Keyed o.runs
    → Ends o (cancel_run id opts now o).0 × Keyed (cancel_run id opts now o).0.runs
cancel_run-Ends id opts now o keyed =
    cancel_run_ind Ends Ends-refl Ends-trans now (finish_run-Ends now) id opts o keyed

-- The tenant gate of `cancel` lets a run through.
abbrev Passes : Bool → Option String → JobRun → Type 0
Passes multi_tenant t r = (multi_tenant ≡ false) ⊎ (opt_eq r.tenant_id t ≡ true)

Passes-later :
    (o q : Orchestrator) (t : Option String) (r s : JobRun)
    → q.multi_tenant ≡ o.multi_tenant
    → s.tenant_id ≡ r.tenant_id
    → Passes o.multi_tenant t r
    → Passes q.multi_tenant t s
Passes-later o q t r s gate tenant (inl h) = inl (gate ∙ h)
Passes-later o q t r s gate tenant (inr h) = inr (ap (λ x. opt_eq x t) tenant ∙ h)

status_in-some :
    (k : String) (o : Orchestrator) (s : RunStatus)
    → status_of k o ≡ some s
    → (r : JobRun) × (get k o.runs ≡ some r) × (r.status ≡ s)
status_in-some k o s h = elim (Option-cases (get k o.runs)) [
  | inl e ↦ cc (rw e at h)
  | inr (r, e) ↦ (r, e, some-eq (rw e at h))
]

module _ (opts : CancelOptions) (t : Option String) (now : Instant) where
  IsOver : String → Orchestrator → Type 0
  IsOver k o = (s : JobRun) × (get k o.runs ≡ some s) × (is_terminal s.status ≡ true)

  cancel_run-IsOver :
      (k : String) (r : JobRun) (o : Orchestrator)
      → Keyed o.runs
      → resolve_tenant_id o.multi_tenant "cancel" opts.tenant_id ≡ ok t
      → get k o.runs ≡ some r
      → Passes o.multi_tenant t r
      → IsOver k (cancel_run k opts now o).0
  unfolding IsOver
  cancel_run-IsOver k r o keyed gate found passes = elim (Bool-cases (is_terminal r.status)) [
    | inl over ↦
        let (s, there, _, stays) = (cancel_run-Ends k opts now o keyed).0.run k r found in
        (s, there, stays over)
    | inr live ↦
        let locked =
          (cancel_locked_lem k opts.cascade t now o keyed).0 r found live passes k r found in
        let reached : is_reached opts.cascade r k r ≡ true =
          rw (keyed.own_id k r found, eq_refl) refl in
        let (s, there, e) =
          status_in-some k (cancel_locked k opts.cascade t now o) canceled
            (locked ∙ rw (reached, live) refl) in
        (unfold cancel_run in rw (gate, cancel_run) (s, there, ap is_terminal e))
  ]

  IsOver-Ends : (k : String) (o p : Orchestrator) → Ends o p → IsOver k o → IsOver k p
  unfolding IsOver
  IsOver-Ends k o p h (s, there, over) =
      let (s', there', _, stays) = h.run k s there in (s', there', stays over)

  cancel_run-ok :
      (k : String) (o : Orchestrator)
      → resolve_tenant_id o.multi_tenant "cancel" opts.tenant_id ≡ ok t
      → (cancel_run k opts now o).1 ≡ ok tt
  cancel_run-ok k o gate = unfold cancel_run in rw (gate, cancel_run) refl

  cancel_ids-more :
      (id : String) (ids : List String) (o : Orchestrator)
      → resolve_tenant_id o.multi_tenant "cancel" opts.tenant_id ≡ ok t
      → cancel_ids (id ∷ ids) opts now o ≡ cancel_ids ids opts now (cancel_run id opts now o).0
  cancel_ids-more id ids o gate = unfold cancel_ids in rw (cancel_ids, cancel_run-ok id o gate) refl

  -- The state that a loop of cancellations leaves.
  After : List String → Orchestrator → Type 0
  After ids o =
      let p = (cancel_ids ids opts now o).0 in
      Ends o p
      × ((cancel_ids ids opts now o).1 ≡ ok tt)
      × ((k : String) (r : JobRun)
          → In k ids
          → get k o.runs ≡ some r
          → Passes o.multi_tenant t r
          → IsOver k p)

  cancel_ids_lem :
      (ids : List String) (o : Orchestrator)
      → Keyed o.runs
      → resolve_tenant_id o.multi_tenant "cancel" opts.tenant_id ≡ ok t
      → After ids o
  unfolding After
  cancel_ids_lem [] o keyed gate = unfold cancel_ids in (Ends-refl o, refl, λ k r i e h. absurd i)
  cancel_ids_lem (id ∷ ids) o keyed gate =
      let q = (cancel_run id opts now o).0 in
      let (first, keyed') = cancel_run-Ends id opts now o keyed in
      let gate' : resolve_tenant_id q.multi_tenant "cancel" opts.tenant_id ≡ ok t =
        rw first.gate gate in
      let (rest, fine, over) = cancel_ids_lem ids q keyed' gate' in
      rw (cancel_ids-more id ids o gate) (
        Ends-trans o q (cancel_ids ids opts now q).0 first rest,
        fine,
        λ k r i e h. elim i [
          | inl same ↦ IsOver-Ends k q (cancel_ids ids opts now q).0 rest (
              subst (λ j. IsOver k (cancel_run j opts now o).0) same
                (cancel_run-IsOver k r o keyed gate e h))
          | inr later ↦
              let (s, there, tenant, _) = first.run k r e in
              over k s later there (Passes-later o q t r s first.gate tenant h)
        ],
      )

In-ids : (r : JobRun) (rs : List JobRun) → In r rs → In r.id (map (λ x. x.id) rs)
In-ids r [] i = absurd i
In-ids r (x ∷ rs) (inl e) = inl (ap (λ y. y.id) e)
In-ids r (x ∷ rs) (inr i) = inr (In-ids r rs i)

scope_targets-In :
    (type id k : String) (check : JobRun → Bool) (o : Orchestrator) (r : JobRun)
    → Keyed o.runs
    → get k o.runs ≡ some r
    → in_scope type id r ≡ true
    → is_terminal r.status ≡ false
    → check r ≡ true
    → In k (scope_targets type id check o.runs)
unfolding scope_targets
scope_targets-In type id k check o r keyed found scoped live checked =
    subst (λ j. In j (scope_targets type id check o.runs)) (keyed.own_id k r found)
      (In-ids r
        (keep (λ x. in_scope type id x && not (is_terminal x.status) && check x) (values o.runs))
        (In-keep (λ x. in_scope type id x && not (is_terminal x.status) && check x) r
          (values o.runs) (get-values k r o.runs found) (rw (scoped, live, checked) refl)))

abbrev holds_at : JobRun → Result (JobRun → Bool) → Bool
holds_at r (ok check) = check r
holds_at r (err e) = false

-- The gate of the query is the gate of each `cancel`.
gate_of :
    (multi_tenant : Bool) (tenant : Option (Option String)) (check : JobRun → Bool)
    → tenant_predicate multi_tenant "cancelForScope" tenant ≡ ok check
    → (t : Option String) × (resolve_tenant_id multi_tenant "cancel" tenant ≡ ok t)
      × ((r : JobRun) → check r ≡ true → Passes multi_tenant t r)
unfolding tenant_predicate resolve_tenant_id
gate_of false tenant check h = (none, refl, λ r c. inl refl)
gate_of true none check h = cc
gate_of true (some t) check h = (t, refl, λ r c. inr (ap (holds_at r) h ∙ c))

cancel_for_scope-passed :
    (type id : String) (tenant : Option (Option String)) (now : Instant) (o : Orchestrator)
    (check : JobRun → Bool)
    → tenant_predicate o.multi_tenant "cancelForScope" tenant ≡ ok check
    → cancel_for_scope type id tenant now o
      ≡ cancel_ids
          (scope_targets type id check o.runs)
          (record { cascade = some true; tenant_id = tenant })
          now
          o
cancel_for_scope-passed type id tenant now o check passed =
    unfold cancel_for_scope in rw (passed, cancel_for_scope) refl

-- Where the runs are stored under their own ids: a `cancelForScope` that passes the tenant check
-- ends without an error, and each run that was stored with the scope and the tenant is stored
-- afterwards and terminal, whatever the cascades of the other cancellations did to it; without a
-- tenant where one is wanted the call throws and changes nothing.
pub cancel_for_scope_lem :
    (type id : String) (tenant : Option (Option String)) (now : Instant) (o : Orchestrator)
    → Keyed o.runs
    → ((check : JobRun → Bool)
        → tenant_predicate o.multi_tenant "cancelForScope" tenant ≡ ok check
        → ((cancel_for_scope type id tenant now o).1 ≡ ok tt)
          × ((k : String) (r : JobRun)
              → get k o.runs ≡ some r
              → in_scope type id r ≡ true
              → check r ≡ true
              → (s : JobRun) × (get k (cancel_for_scope type id tenant now o).0.runs ≡ some s)
                × (is_terminal s.status ≡ true)))
      × ((e : JobError)
          → tenant_predicate o.multi_tenant "cancelForScope" tenant ≡ err e
          → cancel_for_scope type id tenant now o ≡ (o, err e))
unfolding IsOver After
cancel_for_scope_lem type id tenant now o keyed = (
  λ check passed.
      let (t, gate, passes) = gate_of o.multi_tenant tenant check passed in
      let opts : CancelOptions = record { cascade = some true; tenant_id = tenant } in
      let (kept, fine, over) =
        cancel_ids_lem opts t now (scope_targets type id check o.runs) o keyed gate in
      rw (cancel_for_scope-passed type id tenant now o check passed) (
        fine,
        λ k r found scoped checked. elim (Bool-cases (is_terminal r.status)) [
          | inl ended ↦ let (s, there, _, stays) = kept.run k r found in (s, there, stays ended)
          | inr live ↦
              over k r (scope_targets-In type id k check o r keyed found scoped live checked) found
                (passes r checked)
        ],
      ),
  λ e refused. unfold cancel_for_scope in rw (refused, cancel_for_scope) refl,
)
