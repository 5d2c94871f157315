-- ===== src/Bridge/Drain.antt =====
-- `BridgeOutboxDrainHook` (bridge/bridge-outbox-drain-hook.ts): the fan-out of one drained event into
-- delivery rows and wrapper runs, inside the transaction of the drain. The statements of the
-- transaction are a parameter with the laws that the code relies on.
pub mod Rounds
pub mod Replay
pub mod Tables
use codegen_patterns.Base.{
  ℕ, zero, suc, ◌+◌, String, Option, none, some, Bool, true, false, List, [], ◌∷◌, ◌++◌, ◌=ₛ◌, ◌≡◌,
  if◌then◌else◌, length, contains,
}
use codegen_patterns.Base.Dict.{Dict, get}
use codegen_patterns.Jobs.Types.{Payload, shown}
use codegen_patterns.Events.Types.{DomainEvent, metadata_value}
use codegen_patterns.Bridge.Registry.{BridgeTriggerEntry, BridgeRegistry, lookup_triggers}

abbrev pub bridge_delivery_job_type : String
bridge_delivery_job_type = "@framework/bridge_delivery"

-- The columns of the wrapper run that the hook writes; a wrapper is `pending`, is its own root, and is
-- triggered by an event.
pub record WrapperRun : Type 0 where
  pub id : String
  pub job_type : String
  pub pool : String
  pub delivery_id : String
  pub trigger_ref : String
  pub tenant_id : Option String

pub record PendingDelivery : Type 0 where
  pub id : String
  pub event_id : String
  pub trigger_id : String
  pub wrapper_run_id : String
  pub tenant_id : Option String

-- The statements on `job_run` and `bridge_delivery`. `insert_delivery` is `INSERT … ON CONFLICT
-- (event_id, trigger_id) DO NOTHING RETURNING id`, and says whether a row came back. The column
-- `wrapper_run_id` is a foreign key into `job_run`: an insert of a new delivery is promised nothing
-- unless its wrapper run is there. `delivery_id` is the id of a stored delivery.
pub record DrainTx : Type 1 where
  pub Tables : Type 0
  pub has_delivery : Tables → String → String → Bool
  pub delivery_id : Tables → String → String → Option String
  pub has_run : Tables → String → Bool
  pub insert_run : WrapperRun → Tables → Tables
  pub delete_run : String → Tables → Tables
  pub insert_delivery : PendingDelivery → Tables → Tables × Bool
  -- a conflict leaves the tables alone
  pub conflict :
      (d : PendingDelivery) (s : Tables)
      → has_delivery s d.event_id d.trigger_id ≡ true
      → insert_delivery d s ≡ (s, false)
  pub inserted :
      (d : PendingDelivery) (s : Tables)
      → has_run s d.wrapper_run_id ≡ true
      → has_delivery s d.event_id d.trigger_id ≡ false
      → (insert_delivery d s).1 ≡ true
  pub own_delivery :
      (d : PendingDelivery) (s : Tables)
      → has_run s d.wrapper_run_id ≡ true
      → has_delivery (insert_delivery d s).0 d.event_id d.trigger_id ≡ true
  pub keeps_delivery :
      (d : PendingDelivery) (s : Tables) (e t : String)
      → has_run s d.wrapper_run_id ≡ true
      → has_delivery s e t ≡ true
      → has_delivery (insert_delivery d s).0 e t ≡ true
  pub keeps_id :
      (d : PendingDelivery) (s : Tables) (e t i : String)
      → has_run s d.wrapper_run_id ≡ true
      → delivery_id s e t ≡ some i
      → delivery_id (insert_delivery d s).0 e t ≡ some i
  pub id_of_insert_run :
      (r : WrapperRun) (s : Tables) (e t : String)
      → delivery_id (insert_run r s) e t ≡ delivery_id s e t
  pub delivery_of_insert_run :
      (r : WrapperRun) (s : Tables) (e t : String)
      → has_delivery (insert_run r s) e t ≡ has_delivery s e t
  pub run_of_insert_run : (r : WrapperRun) (s : Tables) → has_run (insert_run r s) r.id ≡ true
  pub other_run :
      (r : WrapperRun) (s : Tables) (id : String)
      → (r.id =ₛ id) ≡ false
      → has_run (insert_run r s) id ≡ has_run s id
  pub run_of_insert_delivery :
      (d : PendingDelivery) (s : Tables) (id : String)
      → has_run s d.wrapper_run_id ≡ true
      → has_run (insert_delivery d s).0 id ≡ has_run s id
  -- a run that was new and is deleted again leaves no trace
  pub delete_inserted :
      (r : WrapperRun) (s : Tables) → has_run s r.id ≡ false → delete_run r.id (insert_run r s) ≡ s

-- POOL_BY_DIRECTION
abbrev pub pool_by_direction : Dict String
pool_by_direction =
    ("inbound", "events_inbound")
    ∷ ("change", "events_change")
    ∷ ("outbound", "events_outbound")
    ∷ []

unfoldable pub wrapper_pool : Option String → Option String
wrapper_pool none = none
wrapper_pool (some direction) = get direction pool_by_direction

-- What the hook remembers for its warnings.
pub record HookState : Type 0 where
  pub warned_null_direction : Bool
  pub warned_audit_types : List String

pub record BridgeOutboxDrainResult : Type 0 where
  pub delivered : ℕ
  pub dedup_skips : ℕ
  pub trigger_count : ℕ
  pub audit_blocked : ℕ

abbrev pub counts : ℕ → ℕ → ℕ → ℕ → BridgeOutboxDrainResult
counts delivered dedup_skips trigger_count audit_blocked = record {
  delivered = delivered;
  dedup_skips = dedup_skips;
  trigger_count = trigger_count;
  audit_blocked = audit_blocked;
}

-- The ids of the delivery and of the wrapper run in each round of the loop.
abbrev pub NewIds : Type 0
NewIds = ℕ → String × String

module _ (tx : DrainTx) where
  open tx use {Tables, insert_run, delete_run, insert_delivery}

  -- The variables of the loop, with the pools that the wake-up channel is notified of.
  pub record LoopState : Type 0 where
    pub tables : Tables
    pub delivered : ℕ
    pub dedup_skips : ℕ
    pub wakes : List String

  unfoldable pub wrapper_run : DomainEvent → String → String × String → WrapperRun
  wrapper_run event pool ids = record {
    id = ids.1;
    job_type = bridge_delivery_job_type;
    pool = pool;
    delivery_id = ids.0;
    trigger_ref = event.id;
    tenant_id = metadata_value "tenantId" event;
  }

  unfoldable pub pending_delivery :
      DomainEvent → BridgeTriggerEntry → String × String → PendingDelivery
  pending_delivery event trigger ids = record {
    id = ids.0;
    event_id = event.id;
    trigger_id = trigger.trigger_id;
    wrapper_run_id = ids.1;
    tenant_id = metadata_value "tenantId" event;
  }

  -- The end of a round: an orphan run is deleted, or the pool is woken.
  unfoldable pub finish_round : Bool → String → String → Tables × Bool → LoopState → LoopState
  finish_round listen_notify pool wrapper_run_id (tables, false) s = record s {
    tables = delete_run wrapper_run_id tables;
    dedup_skips = suc s.dedup_skips;
  }
  finish_round listen_notify pool wrapper_run_id (tables, true) s = record s {
    tables = tables;
    delivered = suc s.delivered;
    wakes = if listen_notify then s.wakes ++ pool ∷ [] else s.wakes;
  }

  unfoldable pub fan_out_one :
      Bool → DomainEvent → String → String × String → BridgeTriggerEntry → LoopState → LoopState
  unfolding wrapper_run pending_delivery finish_round
  fan_out_one listen_notify event pool ids trigger s =
      finish_round listen_notify pool ids.1
        (insert_delivery (pending_delivery event trigger ids)
          (insert_run (wrapper_run event pool ids) s.tables))
        s

  unfoldable pub fan_out :
      Bool → DomainEvent → String → NewIds → ℕ → List BridgeTriggerEntry → LoopState → LoopState
  unfolding fan_out_one
  fan_out listen_notify event pool new_ids round [] s = s
  fan_out listen_notify event pool new_ids round (t ∷ ts) s =
      fan_out listen_notify event pool new_ids (suc round) ts
        (fan_out_one listen_notify event pool (new_ids round) t s)

  abbrev pub loop_start : Tables → LoopState
  loop_start tables = record { tables = tables; delivered = 0; dedup_skips = 0; wakes = [] }

  -- The tables, the hook's memory, the result, and the pools that are woken on commit.
  pub record Drained : Type 0 where
    pub tables : Tables
    pub hook : HookState
    pub result : BridgeOutboxDrainResult
    pub wakes : List String

  unfoldable pub without_fan_out : Tables → HookState → BridgeOutboxDrainResult → Drained
  without_fan_out tables hook result = record {
    tables = tables;
    hook = hook;
    result = result;
    wakes = [];
  }

  -- `warnAuditBlockedOnce`
  unfoldable pub warn_audit_blocked : DomainEvent → HookState → HookState
  warn_audit_blocked event hook =
      if contains event.type hook.warned_audit_types
      then hook
      else record hook { warned_audit_types = hook.warned_audit_types ++ event.type ∷ [] }

  unfoldable pub is_audit : DomainEvent → Bool
  is_audit event = elim (metadata_value "tier" event) [ none ↦ false | some tier ↦ tier =ₛ "audit" ]

  unfoldable pub drain_audit : DomainEvent → List BridgeTriggerEntry → HookState → Tables → Drained
  unfolding without_fan_out warn_audit_blocked
  drain_audit event [] hook tables = without_fan_out tables hook (counts 0 0 0 0)
  drain_audit event (t ∷ ts) hook tables =
      without_fan_out tables (warn_audit_blocked event hook) (counts 0 0 0 1)

  unfoldable pub drain_routed :
      Bool
      → DomainEvent
      → NewIds
      → List BridgeTriggerEntry
      → Option String
      → HookState
      → Tables
      → Drained
  unfolding without_fan_out fan_out
  drain_routed listen_notify event new_ids triggers none hook tables =
      without_fan_out tables (record hook { warned_null_direction = true })
        (counts 0 0 (length triggers) 0)
  drain_routed listen_notify event new_ids triggers (some pool) hook tables =
      let s = fan_out listen_notify event pool new_ids 0 triggers (loop_start tables) in
      record {
        tables = s.tables;
        hook = hook;
        result = counts s.delivered s.dedup_skips (length triggers) 0;
        wakes = s.wakes;
      }

  unfoldable pub drain_triggers :
      Bool → DomainEvent → NewIds → List BridgeTriggerEntry → HookState → Tables → Drained
  unfolding without_fan_out drain_routed wrapper_pool
  drain_triggers listen_notify event new_ids [] hook tables =
      without_fan_out tables hook (counts 0 0 0 0)
  drain_triggers listen_notify event new_ids (t ∷ ts) hook tables =
      drain_routed listen_notify event new_ids (t ∷ ts)
        (wrapper_pool (metadata_value "direction" event)) hook tables

  -- `processEvent`
  unfoldable pub process_event :
      BridgeRegistry → Bool → DomainEvent → NewIds → HookState → Tables → Drained
  unfolding is_audit drain_audit drain_triggers lookup_triggers
  process_event registry listen_notify event new_ids hook tables =
      if is_audit event
      then drain_audit event (lookup_triggers event.type registry) hook tables
      else drain_triggers listen_notify event new_ids (lookup_triggers event.type registry) hook
          tables
