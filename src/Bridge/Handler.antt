-- ===== src/Bridge/Handler.antt =====
-- `BridgeDeliveryHandler` (bridge/bridge-delivery-handler.ts), over the in-memory ledger and the
-- in-memory orchestrator. The event bus is a parameter, a lookup of events by id.
pub mod Spawned
pub mod Ledger
use codegen_patterns.Base.{
  ℕ, String, Option, none, some, Bool, true, false, not, List, [], ◌∷◌, if◌then◌else◌,
}
use codegen_patterns.Base.Dict.{get}
use codegen_patterns.Jobs.Types.{
  Instant, Payload, FieldValue, shown, JobRun, StartOptions, event, Result, ok, err, JobError,
}
use codegen_patterns.Jobs.Retry.{Thrown}
use codegen_patterns.Jobs.Steps.{Outcome, returned, threw}
use codegen_patterns.Jobs.StepOn.{RunWork, run_step_on}
use codegen_patterns.Jobs.State.{Orchestrator}
use codegen_patterns.Jobs.Start.{start}
use codegen_patterns.Bridge.Deliveries.{
  Deliveries, Outcome as LedgerOutcome, ok as stored, err as refused, delivered as delivered_status,
  BridgeDeliveryRecord, BridgeError, find_delivery_by_id, transition, mark_delivered, mark_skipped,
}
use codegen_patterns.Events.Types.{DomainEvent}
use codegen_patterns.Bridge.Registry.{
  BridgeTriggerEntry, BridgeRegistry, find_registry_entry, passes_tenant,
}

abbrev pub spawn_user_run_step : String
spawn_user_run_step = "spawn_user_run"

-- The state that the handler works on.
pub record World : Type 0 where
  pub ledger : Deliveries
  pub orchestrator : Orchestrator

-- The two shapes of the output, and the exceptions by where they are thrown. A `runId` is `none` where
-- the memo of the step has no such field.
pub data HandlerResult : Type 0 where
  spawned : Option String → HandlerResult
  skipped : String → HandlerResult
  tenant_missing : HandlerResult
  not_spawned : Thrown → HandlerResult
  no_step_output : HandlerResult
  not_skipped : BridgeError → HandlerResult
  not_delivered : BridgeError → HandlerResult

-- The texts and instants that an attempt draws: the step row, the new run, and the clock at the start
-- of the step, at `start`, at the end of the step and at the transition of the ledger.
pub record Draws : Type 0 where
  pub step_row : String
  pub new_run : String
  pub step_started : Instant
  pub run_started : Instant
  pub step_finished : Instant
  pub ledger_at : Instant

-- `{ runId }` of a payload.
unfoldable pub run_id_field : Payload → Option String
run_id_field output = elim (get "runId" output) [ none ↦ none | some value ↦ text_of value ]
  where
    text_of : FieldValue → Option String
    text_of (shown t) = some t
    text_of _ = none

unfoldable pub user_run_options : JobRun → BridgeDeliveryRecord → StartOptions
user_run_options run delivery = record {
  scope = none;
  pool = none;
  run_at = none;
  priority = none;
  tags = none;
  trigger_source = some event;
  trigger_ref = some delivery.event_id;
  parent_close_policy = none;
  parent_run_id = some run.id;
  tenant_id = some delivery.tenant_id;
}

-- The environment: the handler's run, the events, the registry and the flag. `thrown_of` is how an
-- exception of `start` shows in the error column of a step.
pub record Setting : Type 0 where
  pub run : JobRun
  pub find_event : String → Option DomainEvent
  pub registry : BridgeRegistry
  pub multi_tenant : Bool
  pub thrown_of : JobError → Thrown

unfoldable pub step_outcome :
    (JobError → Thrown) → Orchestrator × Result JobRun → Outcome × Orchestrator
step_outcome thrown_of (o, ok run) = (returned (some (("runId", shown run.id) ∷ [])), o)
step_outcome thrown_of (o, err e) = (threw (thrown_of e), o)

module _ (draws : Draws) (setting : Setting) where
  -- The work of the step.
  unfoldable pub start_user_run : BridgeDeliveryRecord → BridgeTriggerEntry → DomainEvent → RunWork
  unfolding start user_run_options step_outcome
  start_user_run delivery entry ev o = step_outcome setting.thrown_of (
      start draws.new_run draws.run_started entry.job_type (some (entry.map ev))
        (user_run_options setting.run delivery) o)

  -- Step 6.
  unfoldable pub spawn_step :
      BridgeDeliveryRecord
      → BridgeTriggerEntry
      → DomainEvent
      → Orchestrator
      → Outcome × Orchestrator
  unfolding run_step_on start_user_run
  spawn_step delivery entry ev =
      run_step_on draws.step_row draws.step_started draws.step_finished setting.run.id
        spawn_user_run_step (start_user_run delivery entry ev)

  unfoldable pub marked :
      HandlerResult
      → (BridgeError → HandlerResult)
      → Orchestrator
      → Deliveries × LedgerOutcome (Unit {0})
      → World × HandlerResult
  marked result failed o (ds, stored u) = (record { ledger = ds; orchestrator = o }, result)
  marked result failed o (ds, refused e) = (record { ledger = ds; orchestrator = o }, failed e)

  unfoldable pub skip : String → String → World → World × HandlerResult
  unfolding marked mark_skipped
  skip id reason w =
      marked (skipped reason) not_skipped w.orchestrator (mark_skipped id reason w.ledger)

  -- Step 7; an undefined run id is stored as absent.
  unfoldable pub deliver : String → Option String → World → World × HandlerResult
  unfolding marked mark_delivered transition
  deliver id (some run_id) w =
      marked (spawned (some run_id)) not_delivered w.orchestrator
        (mark_delivered id run_id draws.ledger_at w.ledger)
  deliver id none w = marked (spawned none) not_delivered w.orchestrator (
      transition id
        (λ d. record d {
          status = delivered_status;
          user_run_id = none;
          delivered_at = some draws.ledger_at;
        })
        w.ledger)

  unfoldable pub after_step :
      BridgeDeliveryRecord → Deliveries → Outcome × Orchestrator → World × HandlerResult
  unfolding deliver run_id_field
  after_step delivery ds (returned (some output), o) =
      deliver delivery.id (run_id_field output) (record { ledger = ds; orchestrator = o })
  after_step delivery ds (returned none, o) =
      (record { ledger = ds; orchestrator = o }, no_step_output)
  after_step delivery ds (threw e, o) = (record { ledger = ds; orchestrator = o }, not_spawned e)

  -- The predicate of a trigger; an absent one holds.
  unfoldable pub applies : BridgeTriggerEntry → DomainEvent → Bool
  applies entry ev = elim entry.when [ none ↦ true | some test ↦ test ev ]

  unfoldable pub run_entry :
      BridgeDeliveryRecord → DomainEvent → Option BridgeTriggerEntry → World → World × HandlerResult
  unfolding skip after_step spawn_step applies
  run_entry delivery ev none w = skip delivery.id "trigger_unregistered" w
  run_entry delivery ev (some entry) w =
      if applies entry ev
      then after_step delivery w.ledger (spawn_step delivery entry ev w.orchestrator)
      else skip delivery.id "predicate_false" w

  unfoldable pub run_event :
      BridgeDeliveryRecord → Option DomainEvent → World → World × HandlerResult
  unfolding skip run_entry find_registry_entry
  run_event delivery none w = skip delivery.id "event_row_missing" w
  run_event delivery (some ev) w =
      run_entry delivery ev (find_registry_entry ev.type delivery.trigger_id setting.registry) w

  unfoldable pub run_found : Option BridgeDeliveryRecord → World → World × HandlerResult
  unfolding run_event passes_tenant
  run_found none w = (w, skipped "delivery_row_missing")
  run_found (some delivery) w =
      if passes_tenant setting.multi_tenant (some delivery.tenant_id)
      then run_event delivery (setting.find_event delivery.event_id) w
      else (w, tenant_missing)

  -- `run`
  unfoldable pub run_delivery : String → World → World × HandlerResult
  unfolding run_found find_delivery_by_id
  run_delivery delivery_id w = run_found (find_delivery_by_id delivery_id w.ledger) w
