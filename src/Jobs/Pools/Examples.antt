-- ===== src/Jobs/Pools/Examples.antt =====
-- The pool configuration of a file that changes a pool and adds one.
use codegen_patterns.Base.{String, none, some, true, false, List, [], ◌∷◌, ◌≡◌, refl}
use codegen_patterns.Base.Dict.{get, set}
use codegen_patterns.Jobs.Types.{}
use codegen_patterns.Jobs.Retry.{}
use codegen_patterns.Jobs.Template.Fields.{}
use codegen_patterns.Jobs.Steps.{}
use codegen_patterns.Jobs.State.{}
use codegen_patterns.Jobs.Reach.{}
use codegen_patterns.Jobs.Pools.{
  PoolDefinition, UserPoolShape, PoolConfig, framework_pools, load_pool_config,
}
use codegen_patterns.Jobs.Pools.Merged.{IsUserPool, load_pool_config_lem}

-- A file that changes a pool of the framework and adds one.
abbrev user_pools : List (String × UserPoolShape)
user_pools =
    (
      "events_change",
      record { queue = some "mine"; concurrency = some 3; reserved = false; description = none },
    )
    ∷ (
      "emails",
      record {
        queue = some "jobs-emails";
        concurrency = some 2;
        reserved = false;
        description = none;
      },
    )
    ∷ []

abbrev merged_pools : PoolConfig
merged_pools =
    set "emails"
      (record { queue = "jobs-emails"; concurrency = 2; reserved = false; description = none })
      (set "events_change"
        (record {
          queue = "jobs-events-change";
          concurrency = 3;
          reserved = true;
          description = some "Change events drain (events subsystem outbox).";
        })
        framework_pools)

load_pool_config_lem_example :
    ((k : String) (p : PoolDefinition)
      → get k framework_pools ≡ some p
      → (q : PoolDefinition) × (get k merged_pools ≡ some q)
        × (q.queue ≡ p.queue)
        × (q.reserved ≡ p.reserved))
    × ((k : String) (q : PoolDefinition)
        → get k merged_pools ≡ some q
        → get k framework_pools ≡ none
        → IsUserPool q)
unfolding load_pool_config get set
load_pool_config_lem_example = load_pool_config_lem (some user_pools) merged_pools refl
