-- ===== src/Jobs/Change.antt =====
-- The changes that the operations of `MemoryJobOrchestrator` are made of, as a relation on states:
-- every operation under the mutex is a sequence of these (Change/Operations).
pub mod Keyed
pub mod Waiting
pub mod Lineage
pub mod Cancellation
pub mod Operations
pub mod Attempts
pub mod Creation
use codegen_patterns.Base.{
  ℕ, String, Option, none, some, Bool, true, false, List, In, ◌≡◌, ◌<◌, ◌⊎◌,
}
use codegen_patterns.Base.Dict.{Dict, get, set}
use codegen_patterns.Jobs.Types.{
  Instant, JobRun, JobDefinition, JobHandlerMeta, is_terminal, is_in_flight, ok,
}
use codegen_patterns.Jobs.Steps.{Steps}
use codegen_patterns.Jobs.State.{Orchestrator, queued_run_at, finish_run}
use codegen_patterns.Jobs.Start.{insert_run, truthy_text}
use codegen_patterns.Jobs.Queue.{IsStuck}

-- What no operation changes of a run.
pub record SameIdentity (cur next : JobRun) : Type 0 where
  pub id : next.id ≡ cur.id
  pub parent : next.parent_run_id ≡ cur.parent_run_id
  pub root : next.root_run_id ≡ cur.root_run_id
  pub tenant : next.tenant_id ≡ cur.tenant_id

-- The run that a new run waits for is in flight, and the new run waits only if there is one.
abbrev pub BlockerIsLive : Dict JobRun → JobRun → Option String → Type 0
BlockerIsLive runs row none = ¬ IsStuck row
BlockerIsLive runs row (some b) =
    (r : JobRun) × (get b runs ≡ some r) × (is_terminal r.status ≡ false)

-- A run without a parent is its own root; otherwise it has the root of its parent.
abbrev pub RootOf : Dict JobRun → Option String → String → String → Type 0
RootOf runs none id root = root ≡ id
RootOf runs (some p) id root = (r : JobRun) × (get p runs ≡ some r) × (r.root_run_id ≡ root)

pub data Change (o : Orchestrator) : Orchestrator → Type 0 where
  -- claim and retry: the run was not terminal and is not terminal
  advance :
      (cur next : JobRun)
      → get cur.id o.runs ≡ some cur
      → SameIdentity cur next
      → is_terminal cur.status ≡ false
      → is_terminal next.status ≡ false
      → ¬ IsStuck next
      → Change o (record o { runs = set cur.id next o.runs })
  -- completion, failure and cancellation, with the release of the dependents
  finish :
      (cur next : JobRun) (now : Instant)
      → get cur.id o.runs ≡ some cur
      → SameIdentity cur next
      → is_terminal cur.status ≡ false
      → is_terminal next.status ≡ true
      → now < queued_run_at
      → Change o (finish_run cur.id next now o)
  -- replay: a terminal run is pending again
  revive :
      (cur next : JobRun) (steps : Steps)
      → get cur.id o.runs ≡ some cur
      → SameIdentity cur next
      → is_terminal cur.status ≡ true
      → is_terminal next.status ≡ false
      → ¬ IsStuck next
      → Change o (record o { runs = set cur.id next o.runs; steps = steps })
  create :
      (row : JobRun) (blocker : Option String)
      → get row.id o.runs ≡ none
      → BlockerIsLive o.runs row blocker
      → RootOf o.runs (truthy_text row.parent_run_id) row.id row.root_run_id
      → is_terminal row.status ≡ false
      → Change o (insert_run row blocker o).0
  -- registration of handlers, and `ctx.step`
  aside :
      (steps : Steps) (jobs : Dict JobDefinition) (handlers : Dict JobHandlerMeta)
      → Change o (record o { steps = steps; jobs = jobs; handlers = handlers })

pub data Changes (o : Orchestrator) : Orchestrator → Type 0 where
  unchanged : Changes o o
  also : {p q : Orchestrator} → Changes o p → Change p q → Changes o q

pub Changes-trans : {o p q : Orchestrator} → Changes o p → Changes p q → Changes o q
Changes-trans h unchanged = h
Changes-trans h (also k c) = also (Changes-trans h k) c
