-- ===== src/Jobs/Change/Creation.antt =====
-- `start` is a sequence of changes, whichever way it ends.
use codegen_patterns.Base.{
  ◌<◌, String, Option, none, some, true, false, ◌&&◌, ◌≡◌, ◌≢◌, refl, arith, or_else, [],
  find_first-In, opt_eq,
}
use codegen_patterns.Base.Dict.{Dict, get, values}
use codegen_patterns.Jobs.Types.{
  Instant, Payload, JobRun, JobDefinition, StartOptions, CollisionMode, queue, reject, replace,
  is_terminal, is_in_flight, is_in_flight-not-terminal, Result, ok, err, dedupe_key,
  concurrency_key,
}
use codegen_patterns.Jobs.Keys.{resolve_key}
use codegen_patterns.Jobs.State.{Orchestrator, queued_run_at, resolve_tenant_id}
use codegen_patterns.Jobs.Start.{
  Action, and_then, find_in_flight, handle_collision, collide_with, concurrency_check, resolve_root,
  new_run, create_run, start_fresh, start, truthy_text, find_definition, find_duplicate,
}
use codegen_patterns.Jobs.Change.{BlockerIsLive, RootOf, create, Changes, unchanged, Changes-trans}
use codegen_patterns.Jobs.Change.Keyed.{Keyed, value-found}
use codegen_patterns.Jobs.Change.Operations.{one, cancel_locked-Changes, cancel_locked-AddsNone}

-- A read that fails ends an action with the state as it is.
read-Changes :
    {A B : Type 0} (o : Orchestrator) (r : Result A) (f : A → Action B)
    → ((a : A) → r ≡ ok a → Changes o (f a o).0)
    → Changes o (and_then (o, r) f).0
read-Changes o (ok a) f h = h a refl
read-Changes o (err e) f h = unchanged

-- The run that a new run waits for, if any, is there and is not terminal.
abbrev LiveBlocker : Dict JobRun → Option String → Type 0
LiveBlocker runs none = Unit {0}
LiveBlocker runs (some b) = (r : JobRun) × (get b runs ≡ some r) × (is_terminal r.status ≡ false)

resolve_root-RootOf :
    (new_id : String) (parent : Option String) (o : Orchestrator) (root : String)
    → resolve_root new_id parent o ≡ ok root
    → RootOf o.runs parent new_id root
unfolding resolve_root
resolve_root-RootOf new_id none o root h = ground arith
resolve_root-RootOf new_id (some p) o root h = ground arith

new_run-BlockerIsLive :
    (new_id : String) (now : Instant) (type : String) (d : JobDefinition) (input : Payload)
    (opts : StartOptions) (tenant key blocker : Option String) (root : String)
    (dedupe : Option String) (runs : Dict JobRun)
    → or_else opts.run_at now ≢ queued_run_at
    → LiveBlocker runs blocker
    → BlockerIsLive runs
        (new_run new_id now type d input opts tenant key blocker root dedupe)
        blocker
unfolding new_run
new_run-BlockerIsLive new_id now type d input opts tenant key none root dedupe runs time live =
    λ stuck. time stuck.1
new_run-BlockerIsLive new_id now type d input opts tenant key (some b) root dedupe runs time live =
    live

create_run-Changes :
    (new_id : String) (now : Instant) (type : String) (d : JobDefinition) (input : Payload)
    (opts : StartOptions) (tenant key : Option String) (blocker : Option String) (o : Orchestrator)
    → get new_id o.runs ≡ none
    → or_else opts.run_at now ≢ queued_run_at
    → LiveBlocker o.runs blocker
    → Changes o (create_run new_id now type d input opts tenant (key, blocker) o).0
unfolding create_run
create_run-Changes new_id now type d input opts tenant key blocker o fresh time live =
    read-Changes o (resolve_root new_id (truthy_text opts.parent_run_id) o) _ λ root e.
      read-Changes o (resolve_key o.handlers dedupe_key type d.dedupe_key_template input) _
        λ dedupe _.
          let row = new_run new_id now type d input opts tenant key blocker root dedupe in
          one (
            create row blocker fresh
              (new_run-BlockerIsLive new_id now type d input opts tenant key blocker root dedupe
                o.runs time live)
              (resolve_root-RootOf new_id (truthy_text opts.parent_run_id) o root e) refl)

-- What precedes the new row: a sequence of changes that adds no run, and a live blocker if any.
abbrev Prepared :
    String → Orchestrator → Orchestrator × Result (Option String × Option String) → Type 0
Prepared new_id o (p, err e) = Changes o p
Prepared new_id o (p, ok (key, blocker)) =
    Changes o p × (get new_id p.runs ≡ none) × LiveBlocker p.runs blocker

module _ (new_id : String) (now : Instant) (type : String) (d : JobDefinition) (key : Option String)
    (o : Orchestrator) (early : now < queued_run_at) (keyed : Keyed o.runs)
    (fresh : get new_id o.runs ≡ none) where
  found-incumbent :
      (r : JobRun)
      → find_in_flight key o.runs ≡ some r
      → (get r.id o.runs ≡ some r) × (is_terminal r.status ≡ false)
  unfolding find_in_flight
  found-incumbent r e =
      let (listed, test) =
        find_first-In (λ x. opt_eq x.concurrency_key key && is_in_flight x.status) (values o.runs) r
          e in
      (value-found r o.runs keyed listed, is_in_flight-not-terminal r.status (ground arith))

  collide-Prepared :
      (mode : CollisionMode) (r : JobRun)
      → get r.id o.runs ≡ some r
      → is_terminal r.status ≡ false
      → Prepared new_id o
          (and_then (handle_collision mode now type key r o) λ blocker p. (p, ok (key, blocker)))
  unfolding handle_collision
  collide-Prepared reject r found live = unchanged
  collide-Prepared queue r found live = (unchanged, fresh, (r, found, live))
  collide-Prepared replace r found live = (
    cancel_locked-Changes r.id (some true) r.tenant_id now o early keyed,
    cancel_locked-AddsNone r.id (some true) r.tenant_id now o keyed new_id fresh,
    tt,
  )

  collide_with-Prepared :
      (incumbent : Option JobRun)
      → find_in_flight key o.runs ≡ incumbent
      → Prepared new_id o (collide_with now type d key incumbent o)
  unfolding collide_with
  collide_with-Prepared none e = (unchanged, fresh, tt)
  collide_with-Prepared (some r) e =
      let (found, live) = found-incumbent r e in collide-Prepared d.collision_mode r found live

concurrency_check-Prepared :
    (new_id : String) (now : Instant) (type : String) (d : JobDefinition) (input : Payload)
    (template : Option String) (o : Orchestrator)
    → now < queued_run_at
    → Keyed o.runs
    → get new_id o.runs ≡ none
    → Prepared new_id o (concurrency_check now type d input template o)
unfolding concurrency_check
concurrency_check-Prepared new_id now type d input none o early keyed fresh = (unchanged, fresh, tt)
concurrency_check-Prepared new_id now type d input (some t) o early keyed fresh =
    go (resolve_key o.handlers concurrency_key type (some t) input)
  where
    go :
        (r : Result (Option String))
        → Prepared new_id o
            (and_then (o, r) λ key p. collide_with now type d key (find_in_flight key p.runs) p)
    go (err e) = unchanged
    go (ok key) =
        collide_with-Prepared new_id now type d key o early keyed fresh (find_in_flight key o.runs)
          refl

module _ (new_id : String) (now : Instant) (type : String) (d : JobDefinition) (input : Payload)
    (opts : StartOptions) (tenant : Option String) (o : Orchestrator) (early : now < queued_run_at)
    (time : or_else opts.run_at now ≢ queued_run_at) (keyed : Keyed o.runs)
    (fresh : get new_id o.runs ≡ none) where
  create-Prepared :
      (c : Orchestrator × Result (Option String × Option String))
      → Prepared new_id o c
      → Changes o (and_then c (create_run new_id now type d input opts tenant)).0
  create-Prepared (p, err e) h = h
  create-Prepared (p, ok (key, blocker)) (h, absent, live) =
      Changes-trans h
        (create_run-Changes new_id now type d input opts tenant key blocker p absent time live)

  start_fresh-Changes :
      (duplicate : Option JobRun)
      → Changes o (start_fresh new_id now type d input opts tenant duplicate o).0
  unfolding start_fresh
  start_fresh-Changes (some existing) = unchanged
  start_fresh-Changes none =
      let template = truthy_text d.concurrency_key_template in
      create-Prepared (concurrency_check now type d input template o)
        (concurrency_check-Prepared new_id now type d input template o early keyed fresh)

pub start-Changes :
    (new_id : String) (now : Instant) (type : String) (input : Option Payload) (opts : StartOptions)
    (o : Orchestrator)
    → now < queued_run_at
    → or_else opts.run_at now ≢ queued_run_at
    → Keyed o.runs
    → get new_id o.runs ≡ none
    → Changes o (start new_id now type input opts o).0
unfolding start
start-Changes new_id now type input opts o early time keyed fresh =
    read-Changes o (resolve_tenant_id o.multi_tenant "start" opts.tenant_id) _ λ tenant _.
      read-Changes o (find_definition type o) _ λ d _.
        read-Changes o (find_duplicate now type d (or_else input []) o) _ λ duplicate _.
          start_fresh-Changes new_id now type d (or_else input []) opts tenant o early time keyed
            fresh duplicate
