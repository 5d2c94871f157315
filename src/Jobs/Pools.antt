-- ===== src/Jobs/Pools.antt =====
-- The pool configuration (jobs/pool-config.loader.ts), from the file's content on: the YAML parser,
-- the file system and the cache by path are the caller's. A field of another type than wanted counts
-- as absent, and a concurrency is a natural number.
pub mod Merged
mod Examples
use codegen_patterns.Base.{
  ℕ, String, Option, none, some, Bool, true, false, List, [], ◌∷◌, map, ◌=ₛ◌, ◌==◌, if◌then◌else◌,
  keep, or_else, not,
}
use codegen_patterns.Base.Dict.{Dict, get, set}

pub record PoolDefinition : Type 0 where
  pub queue : String
  pub concurrency : ℕ
  pub reserved : Bool
  pub description : Option String

pub record UserPoolShape : Type 0 where
  pub queue : Option String
  pub concurrency : Option ℕ
  pub reserved : Bool
  pub description : Option String

abbrev pub PoolConfig : Type 0
PoolConfig = Dict PoolDefinition

-- The errors of `loadPoolConfig`, with the pool's name.
pub data PoolError : Type 0 where
  no_queue no_concurrency reserved_by_user : String → PoolError

pub data Loaded (A : Type 0) : Type 0 where
  loaded : A → Loaded A
  refused : PoolError → Loaded A

abbrev pub framework_pools : PoolConfig
framework_pools =
    (
      "events_inbound",
      record {
        queue = "jobs-events-inbound";
        concurrency = 20;
        reserved = true;
        description = some "Inbound events drain (events subsystem outbox).";
      },
    )
    ∷ (
      "events_change",
      record {
        queue = "jobs-events-change";
        concurrency = 30;
        reserved = true;
        description = some "Change events drain (events subsystem outbox).";
      },
    )
    ∷ (
      "events_outbound",
      record {
        queue = "jobs-events-outbound";
        concurrency = 10;
        reserved = true;
        description = some "Outbound events drain (events subsystem outbox).";
      },
    )
    ∷ (
      "interactive",
      record {
        queue = "jobs-interactive";
        concurrency = 20;
        reserved = false;
        description = some "User-facing latency-sensitive jobs.";
      },
    )
    ∷ (
      "batch",
      record {
        queue = "jobs-batch";
        concurrency = 5;
        reserved = false;
        description = some "Default pool for background jobs.";
      },
    )
    ∷ []

-- `userDef.description ?? existing.description`
abbrev pub or_existing : Option String → Option String → Option String
or_existing none d = d
or_existing (some t) d = some t

-- The user may change the concurrency and the description of a pool that there is.
unfoldable pub override_pool : PoolDefinition → UserPoolShape → PoolDefinition
override_pool existing user = record {
  queue = existing.queue;
  concurrency = or_else user.concurrency existing.concurrency;
  reserved = existing.reserved;
  description = or_existing user.description existing.description;
}

-- The checks of a pool of the user's own, in the order of the source.
unfoldable pub reserved_checked : String → String → ℕ → UserPoolShape → Loaded PoolDefinition
reserved_checked name queue concurrency user =
    if user.reserved
    then refused (reserved_by_user name)
    else loaded (record {
      queue = queue;
      concurrency = concurrency;
      reserved = false;
      description = user.description;
    })

unfoldable pub concurrency_checked :
    String → String → Option ℕ → UserPoolShape → Loaded PoolDefinition
unfolding reserved_checked
concurrency_checked name queue none user = refused (no_concurrency name)
concurrency_checked name queue (some n) user =
    if n == 0 then refused (no_concurrency name) else reserved_checked name queue n user

unfoldable pub queue_checked : String → Option String → UserPoolShape → Loaded PoolDefinition
unfolding concurrency_checked
queue_checked name none user = refused (no_queue name)
queue_checked name (some q) user =
    if q =ₛ "" then refused (no_queue name) else concurrency_checked name q user.concurrency user

unfoldable pub pool_for : String → UserPoolShape → Option PoolDefinition → Loaded PoolDefinition
unfolding queue_checked override_pool
pool_for name user (some existing) = loaded (override_pool existing user)
pool_for name user none = queue_checked name user.queue user

-- The loop over the pools of the user.
unfoldable pub merge_pools : List (String × UserPoolShape) → PoolConfig → Loaded PoolConfig
unfolding pool_for
merge_pools [] merged = loaded merged
merge_pools ((name, user) ∷ users) merged = elim (pool_for name user (get name merged)) [
  | refused e ↦ refused e
  | loaded p ↦ merge_pools users (set name p merged)
]

-- `loadPoolConfig`: `none` where there is no file.
unfoldable pub load_pool_config : Option (List (String × UserPoolShape)) → Loaded PoolConfig
unfolding merge_pools
load_pool_config none = loaded framework_pools
load_pool_config (some users) = merge_pools users framework_pools

unfoldable pub all_non_reserved_pool_names : PoolConfig → List String
all_non_reserved_pool_names config = map (λ p. p.0) (keep (λ p. not p.1.reserved) config)

unfoldable pub all_pool_names : PoolConfig → List String
all_pool_names config = map (λ p. p.0) config
