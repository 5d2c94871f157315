-- ===== src/Jobs/Spawn.antt =====
-- `makeSpawnFn` of `MemoryJobOrchestrator` (jobs/job-orchestrator.memory-backend.ts): the
-- `ctx.spawnChild` of a handler.
use codegen_patterns.Base.{ℕ, String, Option, none, some}
use codegen_patterns.Base.Dict.{Dict}
use codegen_patterns.Jobs.Types.{
  Instant, Payload, JobRun, ParentClosePolicy, parent, StartOptions, Result,
}
use codegen_patterns.Jobs.State.{Orchestrator}
use codegen_patterns.Jobs.Start.{start}

pub record SpawnChildOptions : Type 0 where
  pub close_policy : Option ParentClosePolicy
  pub run_at : Option Instant
  pub priority : Option ℕ
  pub tags : Option (Dict String)

unfoldable pub child_options : JobRun → SpawnChildOptions → StartOptions
child_options run opts = record {
  scope = none;
  pool = none;
  run_at = opts.run_at;
  priority = opts.priority;
  tags = opts.tags;
  trigger_source = some parent;
  trigger_ref = some run.id;
  parent_close_policy = opts.close_policy;
  parent_run_id = some run.id;
  tenant_id = none;
}

unfoldable pub spawn_child :
    String
    → Instant
    → JobRun
    → String
    → Option Payload
    → SpawnChildOptions
    → Orchestrator
    → Orchestrator × Result JobRun
unfolding start child_options
spawn_child new_id now run type input opts o =
    start new_id now type input (child_options run opts) o
