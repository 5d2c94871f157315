-- ===== src/Jobs/Start/Errors.antt =====
-- What a failed `start` leaves behind.
use codegen_patterns.Base.{
  String, Option, none, some, [], ◌≡◌, ◌≢◌, refl, sym, arith, or_else, subst,
}
use codegen_patterns.Base.Dict.{get}
use codegen_patterns.Jobs.Types.{
  Instant, Payload, JobRun, JobDefinition, StartOptions, CollisionMode, queue, reject, replace,
  Result, ok, err, concurrency_key, dedupe_key, JobError,
}
use codegen_patterns.Jobs.Keys.{resolve_key}
use codegen_patterns.Jobs.State.{Orchestrator, resolve_tenant_id}
use codegen_patterns.Jobs.Start.{
  Action, and_then, find_definition, find_duplicate, find_in_flight, handle_collision, collide_with,
  concurrency_check, resolve_root, create_run, start_fresh, start, truthy_text,
}

-- An exception leaves the state as it was.
abbrev Unchanged : {A : Type 0} → Orchestrator → Orchestrator × Result A → Type 0
Unchanged o (p, ok a) = Unit {0}
Unchanged o (p, err e) = p ≡ o

read-Unchanged :
    {A B : Type 0} (o : Orchestrator) (r : Result A) (f : A → Action B)
    → ((a : A) → r ≡ ok a → Unchanged o (f a o))
    → Unchanged o (and_then (o, r) f)
read-Unchanged o (ok a) f h = h a refl
read-Unchanged o (err e) f h = refl

-- What precedes the new row changes nothing, unless it replaces a run.
still-Unchanged :
    {A B : Type 0} (o : Orchestrator) (c : Orchestrator × Result A) (f : A → Action B)
    → c.0 ≡ o
    → ((a : A) → Unchanged o (f a o))
    → Unchanged o (and_then c f)
still-Unchanged o (p, err e) f same h = same
still-Unchanged o (p, ok a) f same h = subst (λ x. Unchanged o (f a x)) (sym same) (h a)

collide_with-still :
    (now : Instant) (type : String) (d : JobDefinition) (key : Option String)
    (incumbent : Option JobRun) (mode : CollisionMode) (o : Orchestrator)
    → d.collision_mode ≡ mode
    → mode ≢ replace
    → (collide_with now type d key incumbent o).0 ≡ o
unfolding collide_with handle_collision
collide_with-still now type d key none mode o e other = refl
collide_with-still now type d key (some r) reject o e other = rw (e, handle_collision)
collide_with-still now type d key (some r) queue o e other = rw (e, handle_collision)
collide_with-still now type d key (some r) replace o e other = absurd (other refl)

concurrency_check-still :
    (now : Instant) (type : String) (d : JobDefinition) (input : Payload) (template : Option String)
    (o : Orchestrator)
    → d.collision_mode ≢ replace
    → (concurrency_check now type d input template o).0 ≡ o
unfolding concurrency_check
concurrency_check-still now type d input none o other = refl
concurrency_check-still now type d input (some t) o other =
    go (resolve_key o.handlers concurrency_key type (some t) input)
  where
    go :
        (r : Result (Option String))
        → (and_then (o, r) λ key p. collide_with now type d key (find_in_flight key p.runs) p).0 ≡ o
    go (err e) = refl
    go (ok key) =
        collide_with-still now type d key (find_in_flight key o.runs) d.collision_mode o refl other

create_run-Unchanged :
    (new_id : String) (now : Instant) (type : String) (d : JobDefinition) (input : Payload)
    (opts : StartOptions) (tenant : Option String) (c : Option String × Option String)
    (o : Orchestrator)
    → Unchanged o (create_run new_id now type d input opts tenant c o)
unfolding create_run
create_run-Unchanged new_id now type d input opts tenant (key, blocker) o =
    read-Unchanged o (resolve_root new_id (truthy_text opts.parent_run_id) o) _ λ root _.
      read-Unchanged o (resolve_key o.handlers dedupe_key type d.dedupe_key_template input) _
        λ dedupe _. tt

start_fresh-Unchanged :
    (new_id : String) (now : Instant) (type : String) (d : JobDefinition) (input : Payload)
    (opts : StartOptions) (tenant : Option String) (duplicate : Option JobRun) (o : Orchestrator)
    → d.collision_mode ≢ replace
    → Unchanged o (start_fresh new_id now type d input opts tenant duplicate o)
unfolding start_fresh
start_fresh-Unchanged new_id now type d input opts tenant (some r) o other = tt
start_fresh-Unchanged new_id now type d input opts tenant none o other =
    let template = truthy_text d.concurrency_key_template in
    still-Unchanged o (concurrency_check now type d input template o)
      (create_run new_id now type d input opts tenant)
      (concurrency_check-still now type d input template o other)
      (λ c. create_run-Unchanged new_id now type d input opts tenant c o)

find_definition-eq :
    (type : String) (d : JobDefinition) (o : Orchestrator)
    → find_definition type o ≡ ok d
    → get type o.jobs ≡ some d
unfolding find_definition
find_definition-eq type d o h = ground arith

start-Unchanged :
    (new_id : String) (now : Instant) (type : String) (input : Option Payload) (opts : StartOptions)
    (o : Orchestrator)
    → ((d : JobDefinition) → get type o.jobs ≡ some d → d.collision_mode ≢ replace)
    → Unchanged o (start new_id now type input opts o)
unfolding start
start-Unchanged new_id now type input opts o other =
    read-Unchanged o (resolve_tenant_id o.multi_tenant "start" opts.tenant_id) _ λ tenant _.
      read-Unchanged o (find_definition type o) _ λ d e.
        read-Unchanged o (find_duplicate now type d (or_else input []) o) _ λ duplicate _.
          start_fresh-Unchanged new_id now type d (or_else input []) opts tenant duplicate o
            (other d (find_definition-eq type d o e))

-- Unless the definition of the type has the collision mode `replace`, a `start` that throws leaves
-- the state as it was.
pub start_error_unchanged :
    (new_id : String) (now : Instant) (type : String) (input : Option Payload) (opts : StartOptions)
    (o p : Orchestrator) (e : JobError)
    → ((d : JobDefinition) → get type o.jobs ≡ some d → d.collision_mode ≢ replace)
    → start new_id now type input opts o ≡ (p, err e)
    → p ≡ o
start_error_unchanged new_id now type input opts o p e other h =
    subst (Unchanged o) h (start-Unchanged new_id now type input opts o other)
