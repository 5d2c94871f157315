-- ===== src/Jobs/Change/Keyed.antt =====
-- The map of runs holds each run under its own id, and a change keeps every run's identity.
use codegen_patterns.Base.{
  String, Option, none, some, List, [], ◌∷◌, ◌≡◌, refl, sym, or_else, inl, inr, Bool-cases, In,
  subst,
}
use codegen_patterns.Base.Dict.{Dict, get, set, get-set_cases, values}
use codegen_patterns.Base.Dict.Unique.{IsMap, set-IsMap, values-get}
use codegen_patterns.Jobs.Types.{Instant, JobRun, is_pending}
use codegen_patterns.Jobs.State.{
  Orchestrator, release, release_all, unblock_with, unblock_queued_dependents, finish_run,
}
use codegen_patterns.Jobs.Start.{insert_run}
use codegen_patterns.Jobs.Change.{
  Change, advance, finish, revive, create, aside, Changes, unchanged, also,
}

pub record Keyed (runs : Dict JobRun) : Type 0 where
  pub unique : IsMap runs
  pub own_id : (k : String) (r : JobRun) → get k runs ≡ some r → r.id ≡ k

pub set-Keyed :
    (runs : Dict JobRun) (k : String) (next : JobRun)
    → next.id ≡ k
    → Keyed runs
    → Keyed (set k next runs)
set-Keyed runs k next own h = record {
  unique = set-IsMap k next runs h.unique;
  own_id = λ j r found. elim (get-set_cases j k next r runs found) [
    | inl (same, e) ↦ cc
    | inr (_, old) ↦ h.own_id j r old
  ];
}

release-Keyed :
    (now : Instant) (d : String) (runs : Dict JobRun) → Keyed runs → Keyed (release now d runs)
release-Keyed now d runs h = go (get d runs) refl
  where
    go : (r : Option JobRun) → get d runs ≡ r → Keyed (release now d runs)
    go none e = unfold release in rw (e, release) h
    go (some r) e = elim (Bool-cases (is_pending r.status)) [
      | inl p ↦
          unfold release in
          rw (e, release, p)
            (set-Keyed runs d (record r { run_at = now; updated_at = now }) (h.own_id d r e) h)
      | inr p ↦ unfold release in rw (e, release, p) h
    ]

pub release_all-Keyed :
    (now : Instant) (ds : List String) (runs : Dict JobRun)
    → Keyed runs
    → Keyed (release_all now ds runs)
unfolding release_all
release_all-Keyed now [] runs h = h
release_all-Keyed now (d ∷ ds) runs h =
    release_all-Keyed now ds (release now d runs) (release-Keyed now d runs h)

unblock_with-Keyed :
    (ds : List String) (id : String) (now : Instant) (o : Orchestrator)
    → Keyed o.runs
    → Keyed (unblock_with ds id now o).runs
unfolding unblock_with
unblock_with-Keyed [] id now o h = h
unblock_with-Keyed (d ∷ ds) id now o h = release_all-Keyed now (d ∷ ds) o.runs h

pub finish_run-Keyed :
    (id : String) (next : JobRun) (now : Instant) (o : Orchestrator)
    → next.id ≡ id
    → Keyed o.runs
    → Keyed (finish_run id next now o).runs
unfolding finish_run unblock_queued_dependents
finish_run-Keyed id next now o own h =
    unblock_with-Keyed (or_else (get id o.queue_blockers) []) id now
      (record o { runs = set id next o.runs }) (set-Keyed o.runs id next own h)

-- Every change keeps each run under its own id.
pub Change-Keyed : {o p : Orchestrator} → Change o p → Keyed o.runs → Keyed p.runs
unfolding insert_run
Change-Keyed {o} (advance cur next found same live stays free) h =
    set-Keyed o.runs cur.id next same.id h
Change-Keyed {o} (finish cur next now found same live over early) h =
    finish_run-Keyed cur.id next now o same.id h
Change-Keyed {o} (revive cur next steps found same over live free) h =
    set-Keyed o.runs cur.id next same.id h
Change-Keyed {o} (create row blocker fresh waits root live) h = set-Keyed o.runs row.id row refl h
Change-Keyed (aside steps jobs handlers) h = h

pub Changes-Keyed : {o p : Orchestrator} → Changes o p → Keyed o.runs → Keyed p.runs
Changes-Keyed unchanged h = h
Changes-Keyed (also k c) h = Change-Keyed c (Changes-Keyed k h)

-- A run that is listed among the values is found under its id.
pub value-found :
    (r : JobRun) (runs : Dict JobRun) → Keyed runs → In r (values runs) → get r.id runs ≡ some r
value-found r runs h i =
    let (k, found) = values-get r runs h.unique i in
    subst (λ x. get x runs ≡ some r) (sym (h.own_id k r found)) found
