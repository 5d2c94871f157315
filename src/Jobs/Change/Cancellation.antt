-- ===== src/Jobs/Change/Cancellation.antt =====
-- Induction over a cancellation: a relation on states that holds of nothing done and of one canceled
-- run, and that composes, holds of the whole of it.
use codegen_patterns.Base.{
  String, Option, none, some, Bool, false, ◌&&◌, not, List, [], ◌∷◌, ◌≡◌, refl, opt_eq, Bool-cases,
  inl, inr, keep,
}
use codegen_patterns.Base.Dict.{get}
use codegen_patterns.Jobs.Types.{Instant, JobRun, is_terminal, Result, ok, err, CancelOptions}
use codegen_patterns.Jobs.State.{
  Orchestrator, finish_run, canceled_run, transition_to_canceled, cancel_each, cancel_tree,
  cancel_locked, cancel_run, cascade_targets, is_terminate, is_cancel, ids_of, resolve_tenant_id,
}
use codegen_patterns.Jobs.Change.Keyed.{Keyed, finish_run-Keyed}

module _ (R : Orchestrator → Orchestrator → Type 0) (R-refl : (o : Orchestrator) → R o o)
    (R-trans : (o p q : Orchestrator) → R o p → R p q → R o q) (now : Instant)
    (R-cancel : (o : Orchestrator) (id : String) (r : JobRun)
      → Keyed o.runs
      → get id o.runs ≡ some r
      → is_terminal r.status ≡ false
      → R o (finish_run id (canceled_run now r) now o)) where
  -- The relation, and runs that are still under their own ids.
  abbrev Keeps : Orchestrator → Orchestrator → Type 0
  Keeps o p = R o p × Keyed p.runs

  transition_to_canceled_ind :
      (id : String) (o : Orchestrator) → Keyed o.runs → Keeps o (transition_to_canceled id now o)
  transition_to_canceled_ind id o keyed = go (get id o.runs) refl
    where
      go : (r : Option JobRun) → get id o.runs ≡ r → Keeps o (transition_to_canceled id now o)
      go none e = unfold transition_to_canceled in rw (e, transition_to_canceled) (R-refl o, keyed)
      go (some r) e = elim (Bool-cases (is_terminal r.status)) [
        | inl t ↦
            unfold transition_to_canceled in rw (e, transition_to_canceled, t) (R-refl o, keyed)
        | inr t ↦
            unfold transition_to_canceled in
            rw (e, transition_to_canceled, t)
              (
                R-cancel o id r keyed e t,
                finish_run-Keyed id (canceled_run now r) now o (keyed.own_id id r e) keyed,
              )
      ]

  cancel_each_ind :
      (ids : List String) (o : Orchestrator) → Keyed o.runs → Keeps o (cancel_each ids now o)
  unfolding cancel_each
  cancel_each_ind [] o keyed = (R-refl o, keyed)
  cancel_each_ind (id ∷ ids) o keyed =
      let mid = transition_to_canceled id now o in
      let (first, k) = transition_to_canceled_ind id o keyed in
      let (rest, k') = cancel_each_ind ids mid k in
      (R-trans o mid (cancel_each ids now mid) first rest, k')

  cancel_tree_ind :
      (cascade : Option Bool) (run : JobRun) (id : String) (o : Orchestrator)
      → Keyed o.runs
      → Keeps o (cancel_tree cascade run id now o)
  unfolding cancel_tree
  cancel_tree_ind cascade run id o keyed =
      let targets = cascade_targets cascade run id o.runs in
      let xs = ids_of (keep (λ d. is_terminate d.parent_close_policy) targets) in
      let ys = ids_of (keep (λ d. is_cancel d.parent_close_policy) targets) in
      let p = cancel_each xs now o in
      let q = cancel_each ys now p in
      let (a, ka) = cancel_each_ind xs o keyed in
      let (b, kb) = cancel_each_ind ys p ka in
      let (c, kc) = transition_to_canceled_ind id q kb in
      let all = transition_to_canceled id now q in (R-trans o p all a (R-trans p q all b c), kc)

  pub cancel_locked_ind :
      (id : String) (cascade : Option Bool) (tenant : Option String) (o : Orchestrator)
      → Keyed o.runs
      → Keeps o (cancel_locked id cascade tenant now o)
  cancel_locked_ind id cascade tenant o keyed = go (get id o.runs) refl
    where
      go : (r : Option JobRun) → get id o.runs ≡ r → Keeps o (cancel_locked id cascade tenant now o)
      go none e = unfold cancel_locked in rw (e, cancel_locked) (R-refl o, keyed)
      go (some r) e = elim (Bool-cases (o.multi_tenant && not (opt_eq r.tenant_id tenant))) [
        | inl gate ↦ unfold cancel_locked in rw (e, cancel_locked, gate) (R-refl o, keyed)
        | inr gate ↦ elim (Bool-cases (is_terminal r.status)) [
          | inl t ↦ unfold cancel_locked in rw (e, cancel_locked, gate, t) (R-refl o, keyed)
          | inr t ↦
              unfold cancel_locked in
              rw (e, cancel_locked, gate, t) (cancel_tree_ind cascade r id o keyed)
        ]
      ]

  pub cancel_run_ind :
      (id : String) (opts : CancelOptions) (o : Orchestrator)
      → Keyed o.runs
      → Keeps o (cancel_run id opts now o).0
  cancel_run_ind id opts o keyed =
      go (resolve_tenant_id o.multi_tenant "cancel" opts.tenant_id) refl
    where
      go :
          (t : Result (Option String))
          → resolve_tenant_id o.multi_tenant "cancel" opts.tenant_id ≡ t
          → Keeps o (cancel_run id opts now o).0
      go (err x) e = unfold cancel_run in rw (e, cancel_run) (R-refl o, keyed)
      go (ok t) e =
          unfold cancel_run in rw (e, cancel_run) (cancel_locked_ind id opts.cascade t o keyed)
