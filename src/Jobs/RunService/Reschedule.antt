-- ===== src/Jobs/RunService/Reschedule.antt =====
-- What `rescheduleForScope` of `MemoryJobRunService` (jobs/job-run-service.memory-backend.ts) does to
-- each run.
use codegen_patterns.Base.{
  String, Option, some, Bool, true, false, ◌&&◌, ◌||◌, List, [], ◌∷◌, ◌=ₛ◌, ◌≡◌, refl, sym, ◌∙◌, ap,
  inl, inr, if◌then◌else◌, exists, In, Bool-cases, text-cases, subst, eq_iff, some-eq,
}
use codegen_patterns.Base.Dict.{Dict, get, set, values, get-set_self, get-set_ne, get-values}
use codegen_patterns.Jobs.Types.{Instant, JobRun, is_pending, ok}
use codegen_patterns.Jobs.State.{Orchestrator}
use codegen_patterns.Jobs.Change.Keyed.{Keyed, value-found}
use codegen_patterns.Jobs.RunService.{
  in_scope, tenant_predicate, reschedule_matching, reschedule_for_scope,
}

or_true : (a : Bool) → (a || true) ≡ true
or_true true = refl
or_true false = refl

if-some : (b : Bool) (x y : JobRun) → (if b then some x else some y) ≡ some (if b then x else y)
if-some true x y = refl
if-some false x y = refl

module _ (matches : JobRun → Bool) (new_run_at now : Instant) where
  abbrev pub moved : JobRun → JobRun
  moved r = record r { run_at = new_run_at; updated_at = now }

  -- A run with the id that is moved.
  abbrev hits : String → List JobRun → Bool
  hits k rs = exists (λ s. s.id =ₛ k && matches s) rs

  abbrev OnlyRun : String → JobRun → List JobRun → Type 0
  OnlyRun k r rs = (s : JobRun) → In s rs → s.id ≡ k → s ≡ r

  either :
      (b : Bool) (x r : JobRun)
      → x ≡ r
      → (if b then some (moved r) else some (moved x)) ≡ some (moved r)
  either true x r e = refl
  either false x r e = ap (λ y. some (moved y)) e

  get-reschedule_matching :
      (k : String) (r : JobRun) (rs : List JobRun) (runs : Dict JobRun)
      → OnlyRun k r rs
      → get k (reschedule_matching matches new_run_at now rs runs)
        ≡ (if hits k rs then some (moved r) else get k runs)
  unfolding reschedule_matching
  get-reschedule_matching k r [] runs only = refl
  get-reschedule_matching k r (x ∷ rs) runs only =
      let rest : OnlyRun k r rs = λ s i e. only s (inr i) e in
      elim (text-cases x.id k) [
        | inl q ↦ elim (Bool-cases (matches x)) [
          | inl m ↦
              let same : x ≡ r = only x (inl refl) q in
              let there : get k (set x.id (moved x) runs) ≡ some (moved x) =
                subst (λ j. get j (set x.id (moved x) runs) ≡ some (moved x)) q
                  (get-set_self x.id (moved x) runs) in
              rw
                (
                  m,
                  (eq_iff x.id k).1 q,
                  get-reschedule_matching k r rs (set x.id (moved x) runs) rest,
                  there,
                )
                (either (hits k rs) x r same)
          | inr m ↦ rw (m, (eq_iff x.id k).1 q) (get-reschedule_matching k r rs runs rest)
        ]
        | inr (n, f) ↦ elim (Bool-cases (matches x)) [
          | inl m ↦
              rw
                (
                  m,
                  f,
                  get-reschedule_matching k r rs (set x.id (moved x) runs) rest,
                  get-set_ne k x.id (moved x) runs n,
                )
                refl
          | inr m ↦ rw (m, f) (get-reschedule_matching k r rs runs rest)
        ]
      ]

  hits-none :
      (k : String) (r : JobRun) (rs : List JobRun)
      → OnlyRun k r rs
      → matches r ≡ false
      → hits k rs ≡ false
  hits-none k r [] only m = refl
  hits-none k r (x ∷ rs) only m =
      let rest = hits-none k r rs (λ s i e. only s (inr i) e) m in
      elim (text-cases x.id k) [
        | inl q ↦ rw ((eq_iff x.id k).1 q, ap matches (only x (inl refl) q), m) rest
        | inr (n, f) ↦ rw f rest
      ]

  hits-some :
      (k : String) (r : JobRun) (rs : List JobRun)
      → In r rs
      → r.id ≡ k
      → matches r ≡ true
      → hits k rs ≡ true
  hits-some k r [] i own m = absurd i
  hits-some k r (x ∷ rs) (inl e) own m =
      rw ((eq_iff x.id k).1 (ap (λ y. y.id) (sym e) ∙ own), sym (ap matches e), m) refl
  hits-some k r (x ∷ rs) (inr i) own m =
      rw (hits-some k r rs i own m) (or_true (x.id =ₛ k && matches x))

  hits-matches :
      (k : String) (r : JobRun) (rs : List JobRun)
      → OnlyRun k r rs
      → In r rs
      → r.id ≡ k
      → hits k rs ≡ matches r
  hits-matches k r rs only i own = elim (Bool-cases (matches r)) [
    | inl m ↦ rw m (hits-some k r rs i own m)
    | inr m ↦ rw m (hits-none k r rs only m)
  ]

-- Where the runs are stored under their own ids, and the tenant check passes: `rescheduleForScope`
-- gives each stored run of the scope and the tenant that is pending the new time and leaves every
-- other run as it is.
pub reschedule_for_scope_lem :
    (type id : String) (new_run_at : Instant) (tenant : Option (Option String)) (now : Instant)
    (o : Orchestrator) (check : JobRun → Bool)
    → Keyed o.runs
    → tenant_predicate o.multi_tenant "rescheduleForScope" tenant ≡ ok check
    → (p : Orchestrator) × (reschedule_for_scope type id new_run_at tenant now o ≡ ok p)
      × ((k : String) (r : JobRun)
          → get k o.runs ≡ some r
          → get k p.runs
            ≡ some (
                if in_scope type id r && is_pending r.status && check r
                then record r { run_at = new_run_at; updated_at = now }
                else r))
reschedule_for_scope_lem type id new_run_at tenant now o check keyed passed =
    let matches : JobRun → Bool = λ r. in_scope type id r && is_pending r.status && check r in
    (
      record o { runs = reschedule_matching matches new_run_at now (values o.runs) o.runs },
      (unfold reschedule_for_scope in rw (passed, reschedule_for_scope) refl),
      λ k r found.
          let only : OnlyRun matches new_run_at now k r (values o.runs) = λ s i e.
            some-eq (sym (value-found s o.runs keyed i) ∙ ap (λ j. get j o.runs) e ∙ found) in
          get-reschedule_matching matches new_run_at now k r (values o.runs) o.runs only
          ∙ rw
              (
                hits-matches matches new_run_at now k r (values o.runs) only
                    (get-values k r o.runs found) (keyed.own_id k r found),
                found,
              )
              (if-some (matches r) _ _),
    )
