-- ===== src/Jobs/Cascade/Reached.antt =====
-- The runs that `cancel` reaches.
use codegen_patterns.Base.{
  String, Option, none, some, Bool, true, false, ◌&&◌, ◌||◌, not, ◌≡◌, ◌⊎◌, ◌∙◌, ap, arith, opt_eq,
  if◌then◌else◌, ◌=ₛ◌, contains,
}
use codegen_patterns.Base.Dict.{get}
use codegen_patterns.Jobs.Types.{Instant, JobRun, is_terminal}
use codegen_patterns.Jobs.State.{
  Orchestrator, cancel_tree, cancel_locked, cascade_targets, descendants, is_terminate, is_cancel,
}
use codegen_patterns.Jobs.Change.Keyed.{Keyed}
use codegen_patterns.Jobs.Cascade.{
  status_of, status_in, cancel_status, cancel_if, picked, is_reached, contains-picked_of,
  picked-contains_of, status_of-cancel_tree,
}

module _ (run : JobRun) (id : String) (o : Orchestrator) (keyed : Keyed o.runs) (k : String)
    (r : JobRun) (found : get k o.runs ≡ some r) where
  reached_self :
      cancel_if ((false || false) || k =ₛ id) (some r.status)
      ≡ some (if is_reached (some false) run id r then cancel_status r.status else r.status)
  reached_self = ground (arith, keyed.own_id k r found)

  reached-descendants :
      cancel_if
        ((contains k (picked is_terminate (descendants run id o.runs))
            || contains k (picked is_cancel (descendants run id o.runs)))
          || k =ₛ id)
        (some r.status)
      ≡ some (if is_reached (some true) run id r then cancel_status r.status else r.status)
  reached-descendants = ground (
    arith,
    keyed.own_id k r found,
    contains-picked_of run id o.runs keyed is_terminate k r found,
    contains-picked_of run id o.runs keyed is_cancel k r found,
    picked-contains_of run id o.runs keyed is_terminate k r found,
    picked-contains_of run id o.runs keyed is_cancel k r found,
  )

  reached_by :
      (cascade : Option Bool)
      → cancel_if
          ((contains k (picked is_terminate (cascade_targets cascade run id o.runs))
              || contains k (picked is_cancel (cascade_targets cascade run id o.runs)))
            || k =ₛ id)
          (some r.status)
        ≡ some (if is_reached cascade run id r then cancel_status r.status else r.status)
  unfolding cascade_targets
  reached_by none = reached-descendants
  reached_by (some true) = reached-descendants
  reached_by (some false) = reached_self

gate_open :
    (multi_tenant : Bool) (run : JobRun) (tenant : Option String)
    → (multi_tenant ≡ false) ⊎ (opt_eq run.tenant_id tenant ≡ true)
    → multi_tenant && not (opt_eq run.tenant_id tenant) ≡ false
gate_open multi_tenant run tenant h = ground arith

module _ (id : String) (cascade : Option Bool) (tenant : Option String) (now : Instant)
    (o : Orchestrator) where
  pub cancel_locked-absent : get id o.runs ≡ none → cancel_locked id cascade tenant now o ≡ o
  cancel_locked-absent e = unfold cancel_locked in rw (e, cancel_locked)

  pub cancel_locked-refused :
      (run : JobRun)
      → get id o.runs ≡ some run
      → (is_terminal run.status ≡ true)
        ⊎ ((o.multi_tenant ≡ true) × (opt_eq run.tenant_id tenant ≡ false))
      → cancel_locked id cascade tenant now o ≡ o
  unfolding cancel_locked
  cancel_locked-refused run e h = rw (e, cancel_locked) (ground arith)

  cancel_locked-tree :
      (run : JobRun)
      → get id o.runs ≡ some run
      → is_terminal run.status ≡ false
      → (o.multi_tenant ≡ false) ⊎ (opt_eq run.tenant_id tenant ≡ true)
      → cancel_locked id cascade tenant now o ≡ cancel_tree cascade run id now o
  cancel_locked-tree run e live gate =
      unfold cancel_locked in rw (e, cancel_locked, gate_open o.multi_tenant run tenant gate, live)

-- Where the runs are stored under their own ids: `cancel` of a stored run that is not terminal and
-- passes the tenant gate cancels, of the runs that are not terminal, the run itself and, unless the
-- cascade is switched off, each run with the same root whose policy is not `abandon`; every other
-- run keeps its status. For an absent or terminal run, or one of another tenant, nothing changes.
pub cancel_locked_lem :
    (id : String) (cascade : Option Bool) (tenant : Option String) (now : Instant)
    (o : Orchestrator)
    → Keyed o.runs
    → ((run : JobRun)
        → get id o.runs ≡ some run
        → is_terminal run.status ≡ false
        → (o.multi_tenant ≡ false) ⊎ (opt_eq run.tenant_id tenant ≡ true)
        → (k : String) (r : JobRun) → get k o.runs ≡ some r
        → status_of k (cancel_locked id cascade tenant now o)
          ≡ some (if is_reached cascade run id r then cancel_status r.status else r.status))
      × (get id o.runs ≡ none → cancel_locked id cascade tenant now o ≡ o)
      × ((run : JobRun)
          → get id o.runs ≡ some run
          → (is_terminal run.status ≡ true)
            ⊎ ((o.multi_tenant ≡ true) × (opt_eq run.tenant_id tenant ≡ false))
          → cancel_locked id cascade tenant now o ≡ o)
cancel_locked_lem id cascade tenant now o keyed = (
  λ run found live gate k r there.
      ap (status_of k) (cancel_locked-tree id cascade tenant now o run found live gate)
      ∙ status_of-cancel_tree k cascade run id now o
      ∙ ap
          (λ x.
            cancel_if
              ((contains k (picked is_terminate (cascade_targets cascade run id o.runs))
                  || contains k (picked is_cancel (cascade_targets cascade run id o.runs)))
                || k =ₛ id)
              (status_in x))
          there
      ∙ reached_by run id o keyed k r there cascade,
  cancel_locked-absent id cascade tenant now o,
  cancel_locked-refused id cascade tenant now o,
)
