-- ===== src/Jobs/Start.antt =====
-- `start` of `MemoryJobOrchestrator`. An exception keeps the changes made before it, so an action
-- returns the state beside its result.
pub mod Dedupe
pub mod Errors
use codegen_patterns.Base.{
  ℕ, ◌+◌, String, Option, none, some, Bool, true, false, ◌&&◌, not, List, [], ◌∷◌, ◌++◌, ◌=ₛ◌, ltb,
  leb, ◌==◌, if◌then◌else◌, find_first, or_else, opt_eq,
}
use codegen_patterns.Base.Dict.{Dict, get, set, values}
use codegen_patterns.Jobs.Types.{
  Instant, Payload, JobRun, JobDefinition, StartOptions, CollisionMode, queue, reject, replace,
  terminate, manual, pending, is_dedupe_excluded, is_in_flight, Result, ok, err, map_ok, KeyKind,
  concurrency_key, dedupe_key, JobHandlerMeta, job_type_not_found, job_collision, parent_not_found,
}
use codegen_patterns.Jobs.Keys.{resolve_key}
use codegen_patterns.Jobs.State.{Orchestrator, queued_run_at, resolve_tenant_id, cancel_locked}

abbrev pub Action : Type 0 → Type 0
Action A = Orchestrator → Orchestrator × Result A

abbrev pub and_then :
    {A B : Type 0} → Orchestrator × Result A → (A → Action B) → Orchestrator × Result B
and_then (o, ok a) f = f a o
and_then (o, err e) f = (o, err e)

infixl 5 ◌>>=◌
abbrev pub ◌>>=◌ : {A B : Type 0} → Action A → (A → Action B) → Action B
◌>>=◌ m f o = and_then (m o) f

abbrev pub pure : {A : Type 0} → A → Action A
pure a o = (o, ok a)

-- A text or a number as the condition of an `if`: `null`, `''` and `0` are false.
abbrev pub truthy_text : Option String → Option String
truthy_text none = none
truthy_text (some t) = if t =ₛ "" then none else some t

abbrev pub truthy_number : Option ℕ → Option ℕ
truthy_number none = none
truthy_number (some n) = if n == 0 then none else some n

-- A step that only reads the state.
abbrev pub read : {A : Type 0} → (Orchestrator → Result A) → Action A
read f o = (o, f o)

unfoldable pub find_definition : String → Orchestrator → Result JobDefinition
find_definition type o = elim (get type o.jobs) [
  | none ↦ err (job_type_not_found type)
  | some d ↦ ok d
]

-- The test of the loop of `findDedupeCandidate`; the window starts at `now - window`.
unfoldable pub is_dedupe_candidate : String → Option String → Instant → ℕ → JobRun → Bool
is_dedupe_candidate type key now window r =
    r.job_type =ₛ type
    && opt_eq r.dedupe_key key
    && not (is_dedupe_excluded r.status)
    && ltb now (r.created_at + window)

-- The loop, with `best`: a later run replaces it only if it was created later.
unfoldable pub best_candidate : (JobRun → Bool) → Option JobRun → List JobRun → Option JobRun
best_candidate test best [] = best
best_candidate test none (r ∷ rs) = best_candidate test (if test r then some r else none) rs
best_candidate test (some b) (r ∷ rs) =
    best_candidate test (if test r && ltb b.created_at r.created_at then some r else some b) rs

unfoldable pub find_dedupe_candidate :
    String → Option String → Instant → ℕ → Dict JobRun → Option JobRun
unfolding best_candidate is_dedupe_candidate
find_dedupe_candidate type key now window runs =
    best_candidate (is_dedupe_candidate type key now window) none (values runs)

-- `null` never equals a key, so only runs with a key are found.
unfoldable pub find_in_flight : Option String → Dict JobRun → Option JobRun
find_in_flight key runs =
    find_first (λ r. opt_eq r.concurrency_key key && is_in_flight r.status) (values runs)

-- 1. Dedupe.
unfoldable pub dedupe_in_window :
    Instant
    → String
    → JobDefinition
    → Payload
    → Option String
    → Option ℕ
    → Orchestrator
    → Result (Option JobRun)
unfolding find_dedupe_candidate resolve_key
dedupe_in_window now type d input (some template) (some window) o =
    map_ok (λ key. find_dedupe_candidate type key now window o.runs)
      (resolve_key o.handlers dedupe_key type (some template) input)
dedupe_in_window now type d input _ _ o = ok none

unfoldable pub find_duplicate :
    Instant → String → JobDefinition → Payload → Orchestrator → Result (Option JobRun)
unfolding dedupe_in_window
find_duplicate now type d input o =
    dedupe_in_window now type d input (truthy_text d.dedupe_key_template)
      (truthy_number d.dedupe_window_ms) o

-- The `switch` on the collision mode: the run that blocks the new one, if it has to wait.
unfoldable pub handle_collision :
    CollisionMode → Instant → String → Option String → JobRun → Action (Option String)
unfolding cancel_locked
handle_collision reject now type key incumbent o =
    (o, err (job_collision type (or_else key "") incumbent))
handle_collision replace now type key incumbent o =
    (cancel_locked incumbent.id (some true) incumbent.tenant_id now o, ok none)
handle_collision queue now type key incumbent o = (o, ok (some incumbent.id))

unfoldable pub collide_with :
    Instant
    → String
    → JobDefinition
    → Option String
    → Option JobRun
    → Action (Option String × Option String)
unfolding handle_collision
collide_with now type d key none o = (o, ok (key, none))
collide_with now type d key (some incumbent) o =
    and_then (handle_collision d.collision_mode now type key incumbent o)
      λ blocker o'. (o', ok (key, blocker))

-- 2. Concurrency: the key, and the run that blocks the new one.
unfoldable pub concurrency_check :
    Instant
    → String
    → JobDefinition
    → Payload
    → Option String
    → Action (Option String × Option String)
unfolding collide_with find_in_flight resolve_key
concurrency_check now type d input none o = (o, ok (none, none))
concurrency_check now type d input (some template) o =
    and_then (o, resolve_key o.handlers concurrency_key type (some template) input)
      λ key o'. collide_with now type d key (find_in_flight key o'.runs) o'

-- 3. Lineage.
unfoldable pub resolve_root : String → Option String → Orchestrator → Result String
resolve_root new_id none o = ok new_id
resolve_root new_id (some parent_id) o = elim (get parent_id o.runs) [
  | none ↦ err (parent_not_found parent_id)
  | some parent ↦ ok parent.root_run_id
]

abbrev pub fst_of : Option (String × String) → Option String
fst_of none = none
fst_of (some p) = some p.0

abbrev pub snd_of : Option (String × String) → Option String
snd_of none = none
snd_of (some p) = some p.1

abbrev pub start_at : Option String → Option Instant → Instant → Instant
start_at (some blocker) run_at now = queued_run_at
start_at none run_at now = or_else run_at now

unfoldable pub new_run :
    String
    → Instant
    → String
    → JobDefinition
    → Payload
    → StartOptions
    → Option String
    → Option String
    → Option String
    → String
    → Option String
    → JobRun
new_run id now type d input opts tenant key blocker root dedupe = record {
  id = id;
  job_type = type;
  job_version = d.version;
  parent_run_id = opts.parent_run_id;
  root_run_id = root;
  parent_close_policy = or_else opts.parent_close_policy terminate;
  scope_entity_type = fst_of opts.scope;
  scope_entity_id = snd_of opts.scope;
  tenant_id = tenant;
  tags = or_else opts.tags [];
  pool = or_else opts.pool d.pool;
  priority = or_else opts.priority d.priority_default;
  concurrency_key = key;
  dedupe_key = dedupe;
  status = pending;
  input = input;
  output = none;
  error = none;
  trigger_source = or_else opts.trigger_source manual;
  trigger_ref = opts.trigger_ref;
  run_at = start_at blocker opts.run_at now;
  started_at = none;
  finished_at = none;
  claimed_at = none;
  attempts = 0;
  created_at = now;
  updated_at = now;
}

unfoldable pub add_blocked : Option String → String → Dict (List String) → Dict (List String)
add_blocked none id blockers = blockers
add_blocked (some b) id blockers = set b (or_else (get b blockers) [] ++ id ∷ []) blockers

unfoldable pub insert_run : JobRun → Option String → Action JobRun
unfolding add_blocked
insert_run row blocker o = (
  record o {
    runs = set row.id row o.runs;
    queue_blockers = add_blocked blocker row.id o.queue_blockers;
  },
  ok row,
)

-- 4. The dedupe key of the row, and the row.
unfoldable pub create_run :
    String
    → Instant
    → String
    → JobDefinition
    → Payload
    → StartOptions
    → Option String
    → Option String × Option String
    → Action JobRun
unfolding resolve_root resolve_key new_run insert_run
create_run new_id now type d input opts tenant (key, blocker) = do
  root ← read (resolve_root new_id (truthy_text opts.parent_run_id))
  dedupe ← read (λ o. resolve_key o.handlers dedupe_key type d.dedupe_key_template input)
  insert_run (new_run new_id now type d input opts tenant key blocker root dedupe) blocker

unfoldable pub start_fresh :
    String
    → Instant
    → String
    → JobDefinition
    → Payload
    → StartOptions
    → Option String
    → Option JobRun
    → Action JobRun
unfolding concurrency_check create_run
start_fresh new_id now type d input opts tenant (some existing) = pure existing
start_fresh new_id now type d input opts tenant none = do
  key_and_blocker ← concurrency_check now type d input (truthy_text d.concurrency_key_template)
  create_run new_id now type d input opts tenant key_and_blocker

-- `start`; `new_id` is its `randomUUID()`, and an absent input is the empty payload.
unfoldable pub start : String → Instant → String → Option Payload → StartOptions → Action JobRun
unfolding resolve_tenant_id find_definition find_duplicate start_fresh
start new_id now type input opts = do
  tenant ← read (λ o. resolve_tenant_id o.multi_tenant "start" opts.tenant_id)
  d ← read (find_definition type)
  duplicate ← read (find_duplicate now type d (or_else input []))
  start_fresh new_id now type d (or_else input []) opts tenant duplicate
