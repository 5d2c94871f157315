-- ===== src/Jobs/Change/Operations.antt =====
-- Every operation of the orchestrator is a sequence of changes.
use codegen_patterns.Base.{
  ◌<◌, String, Option, none, some, Bool, true, false, ◌≡◌, ◌≢◌, refl, sym, ◌∙◌, ap, contains, subst,
}
use codegen_patterns.Base.Dict.{get, get-set_ne}
use codegen_patterns.Jobs.Types.{Instant, JobRun, is_terminal, CancelOptions}
use codegen_patterns.Jobs.State.{
  Orchestrator, queued_run_at, finish_run, canceled_run, cancel_locked, cancel_run,
}
use codegen_patterns.Jobs.State.Released.{touch, map_run, get-finish_run, dependents_of}
use codegen_patterns.Jobs.Change.Cancellation.{cancel_locked_ind, cancel_run_ind}
use codegen_patterns.Jobs.Change.{
  SameIdentity, Change, finish, Changes, unchanged, also, Changes-trans,
}
use codegen_patterns.Jobs.Change.Keyed.{Keyed}

pub one : {o p : Orchestrator} → Change o p → Changes o p
one c = also unchanged c

-- A transition of the run under `id` into a terminal status.
pub finish-Changes :
    (o : Orchestrator) (id : String) (cur next : JobRun) (now : Instant)
    → Keyed o.runs
    → get id o.runs ≡ some cur
    → SameIdentity cur next
    → is_terminal cur.status ≡ false
    → is_terminal next.status ≡ true
    → now < queued_run_at
    → Changes o (finish_run id next now o)
finish-Changes o id cur next now keyed found like live over early =
    let own = keyed.own_id id cur found in
    subst (λ x. Changes o (finish_run x next now o)) own
      (one (
        finish cur next now (subst (λ x. get x o.runs ≡ some cur) (sym own) found) like live over
          early))

cancel-Changes :
    (now : Instant)
    → now < queued_run_at
    → (o : Orchestrator) (id : String) (r : JobRun) → Keyed o.runs
    → get id o.runs ≡ some r
    → is_terminal r.status ≡ false
    → Changes o (finish_run id (canceled_run now r) now o)
unfolding canceled_run
cancel-Changes now early o id r keyed found live =
    finish-Changes o id r (canceled_run now r) now keyed found
      (record { id = refl; parent = refl; root = refl; tenant = refl }) live refl early

pub cancel_locked-Changes :
    (id : String) (cascade : Option Bool) (tenant : Option String) (now : Instant)
    (o : Orchestrator)
    → now < queued_run_at
    → Keyed o.runs
    → Changes o (cancel_locked id cascade tenant now o)
cancel_locked-Changes id cascade tenant now o early keyed =
    (cancel_locked_ind Changes (λ p. unchanged) (λ p q r. Changes-trans) now
      (cancel-Changes now early) id cascade tenant o keyed).0

pub cancel_run-Changes :
    (id : String) (opts : CancelOptions) (now : Instant) (o : Orchestrator)
    → now < queued_run_at
    → Keyed o.runs
    → Changes o (cancel_run id opts now o).0
cancel_run-Changes id opts now o early keyed =
    (cancel_run_ind Changes (λ p. unchanged) (λ p q r. Changes-trans) now (cancel-Changes now early)
      id opts o keyed).0

-- A cancellation adds no run.
abbrev AddsNone : Orchestrator → Orchestrator → Type 0
AddsNone o p = (k : String) → get k o.runs ≡ none → get k p.runs ≡ none

cancel-AddsNone :
    (now : Instant) (o : Orchestrator) (id : String) (r : JobRun)
    → Keyed o.runs
    → get id o.runs ≡ some r
    → is_terminal r.status ≡ false
    → AddsNone o (finish_run id (canceled_run now r) now o)
cancel-AddsNone now o id r keyed found live k absent =
    let other : id ≢ k = λ e. cc (subst (λ x. get x o.runs ≡ some r) e found) in
    get-finish_run k id (canceled_run now r) now o
    ∙ ap (map_run (touch now (contains k (dependents_of id o))))
        (get-set_ne k id (canceled_run now r) o.runs other ∙ absent)

pub cancel_locked-AddsNone :
    (id : String) (cascade : Option Bool) (tenant : Option String) (now : Instant)
    (o : Orchestrator)
    → Keyed o.runs
    → AddsNone o (cancel_locked id cascade tenant now o)
cancel_locked-AddsNone id cascade tenant now o keyed =
    (cancel_locked_ind AddsNone (λ p k h. h) (λ p q r f g k h. g k (f k h)) now
      (cancel-AddsNone now) id cascade tenant o keyed).0
