-- ===== src/Bridge/Flow.antt =====
-- `EventFlowService` (bridge/event-flow.service.ts): an event is published and a job is started in one
-- transaction, with the deliveries of the triggers that the start serves. The database, the event bus,
-- the orchestrator and the repository are a parameter, with the laws that the service relies on.
pub mod Served
pub mod Memory
use codegen_patterns.Base.{
  ℕ, String, Option, none, some, Bool, true, false, List, [], ◌∷◌, ◌≡◌, if◌then◌else◌, or_else,
}
use codegen_patterns.Jobs.Types.{Instant, Payload, StartOptions, event}
use codegen_patterns.Bridge.Deliveries.{BridgeDeliveryInsert, delivered}
use codegen_patterns.Events.Types.{DomainEvent}
use codegen_patterns.Bridge.Registry.{
  BridgeTriggerEntry, BridgeRegistry, matching_triggers, passes_tenant,
}

-- An exception of the services, or a value.
pub data Outcome (E A : Type 0) : Type 0 where
  ok : A → Outcome E A
  err : E → Outcome E A

-- `start` gives the id of the run. `user_run` is the `user_run_id` of the delivery of an event and a
-- trigger, if there is one.
pub record FlowTx : Type 1 where
  pub State : Type 0
  pub Error : Type 0
  pub user_run : State → String → String → Option (Option String)
  pub is_published : State → String → Bool
  pub publish : DomainEvent → State → State × Outcome Error (Unit {0})
  pub start : String → Payload → StartOptions → State → State × Outcome Error String
  pub insert_delivery : BridgeDeliveryInsert → State → State × Outcome Error (Unit {0})
  pub transaction :
      {A : Type 0} → (State → State × Outcome Error A) → State → State × Outcome Error A
  -- The value and the state of a body that returns, and the exception of one that throws. Nothing is
  -- said of the state behind an exception: not every write of the services goes through the
  -- transaction.
  pub commit :
      {A : Type 0} (body : State → State × Outcome Error A) (s s' : State) (a : A)
      → body s ≡ (s', ok a)
      → transaction body s ≡ (s', ok a)
  pub rethrown :
      {A : Type 0} (body : State → State × Outcome Error A) (s s' : State) (e : Error)
      → body s ≡ (s', err e)
      → (transaction body s).1 ≡ err e
  pub published :
      (ev : DomainEvent) (s : State)
      → (publish ev s).1 ≡ ok tt
      → is_published (publish ev s).0 ev.id ≡ true
  pub publish_keeps :
      (ev : DomainEvent) (s : State) (e t : String) → user_run (publish ev s).0 e t ≡ user_run s e t
  pub start_keeps :
      (type : String) (input : Payload) (opts : StartOptions) (s : State) (e t : String)
      → user_run (start type input opts s).0 e t ≡ user_run s e t
  pub start_keeps_published :
      (type : String) (input : Payload) (opts : StartOptions) (s : State) (e : String)
      → is_published s e ≡ true
      → is_published (start type input opts s).0 e ≡ true
  -- an insert that returns has added its row and touched no other
  pub inserted :
      (row : BridgeDeliveryInsert) (s : State)
      → (insert_delivery row s).1 ≡ ok tt
      → user_run (insert_delivery row s).0 row.event_id row.trigger_id ≡ some row.user_run_id
  pub insert_keeps :
      (row : BridgeDeliveryInsert) (s : State) (e t : String) (x : Option String)
      → (insert_delivery row s).1 ≡ ok tt
      → user_run s e t ≡ some x
      → user_run (insert_delivery row s).0 e t ≡ some x
  pub insert_keeps_published :
      (row : BridgeDeliveryInsert) (s : State) (e : String)
      → is_published s e ≡ true
      → is_published (insert_delivery row s).0 e ≡ true

-- A tenant is `undefined`, `null` or a text.
pub record PublishAndStartOptions : Type 0 where
  pub parent_run_id : Option String
  pub tenant_id : Option (Option String)

pub data FlowResult (E : Type 0) : Type 0 where
  started : String → FlowResult E
  tenant_missing : FlowResult E
  threw : E → FlowResult E

module _ (tx : FlowTx) where
  open tx use {State, Error}

  -- `publish`
  unfoldable pub publish_event : DomainEvent → State → State × Outcome Error (Unit {0})
  publish_event ev s = tx.publish ev s

  unfoldable pub eager_options : DomainEvent → PublishAndStartOptions → Option String → StartOptions
  eager_options ev opts tenant_id = record {
    scope = none;
    pool = none;
    run_at = none;
    priority = none;
    tags = none;
    trigger_source = some event;
    trigger_ref = some ev.id;
    parent_close_policy = none;
    parent_run_id = opts.parent_run_id;
    tenant_id = some tenant_id;
  }

  unfoldable pub served_row :
      DomainEvent → String → Option String → Instant → BridgeTriggerEntry → BridgeDeliveryInsert
  served_row ev run_id tenant_id now trigger = record {
    id = none;
    event_id = ev.id;
    trigger_id = trigger.trigger_id;
    wrapper_run_id = none;
    user_run_id = some run_id;
    status = some delivered;
    skip_reason = none;
    error = none;
    tenant_id = tenant_id;
    attempted_at = some now;
    delivered_at = some now;
  }

  abbrev pub and_then :
      {A B : Type 0}
      → State × Outcome Error A
      → (A → State → State × Outcome Error B)
      → State × Outcome Error B
  and_then (s, ok a) f = f a s
  and_then (s, err e) f = (s, err e)

  -- The loop over the matching triggers, and then the value of the body.
  unfoldable pub insert_served :
      DomainEvent
      → String
      → Option String
      → Instant
      → List BridgeTriggerEntry
      → State
      → State × Outcome Error String
  unfolding served_row
  insert_served ev run_id tenant_id now [] s = (s, ok run_id)
  insert_served ev run_id tenant_id now (t ∷ ts) s =
      and_then (tx.insert_delivery (served_row ev run_id tenant_id now t) s)
        λ u s'. insert_served ev run_id tenant_id now ts s'

  unfoldable pub flow_body :
      DomainEvent
      → String
      → Payload
      → PublishAndStartOptions
      → Option String
      → Instant
      → List BridgeTriggerEntry
      → State
      → State × Outcome Error String
  unfolding eager_options insert_served
  flow_body ev job_type input opts tenant_id now triggers s = and_then (tx.publish ev s) λ u s₁.
      and_then (tx.start job_type input (eager_options ev opts tenant_id) s₁)
        λ run_id s₂. insert_served ev run_id tenant_id now triggers s₂

  unfoldable pub flow_result : State × Outcome Error String → State × FlowResult Error
  flow_result (s, ok run_id) = (s, started run_id)
  flow_result (s, err e) = (s, threw e)

  -- `publishAndStart`
  unfoldable pub publish_and_start :
      BridgeRegistry
      → Bool
      → DomainEvent
      → String
      → Payload
      → PublishAndStartOptions
      → Instant
      → State
      → State × FlowResult Error
  unfolding passes_tenant flow_body flow_result matching_triggers
  publish_and_start registry multi_tenant ev job_type input opts now s =
      if passes_tenant multi_tenant opts.tenant_id
      then flow_result (
          tx.transaction
            (flow_body ev job_type input opts (or_else opts.tenant_id none) now
              (matching_triggers ev.type job_type registry))
            s)
      else (s, tenant_missing)
