-- ===== src/Bridge/Handler/Ledger.antt =====
-- The row that `BridgeDeliveryHandler` (bridge/bridge-delivery-handler.ts) leaves in the ledger.
use codegen_patterns.Base.{
  ℕ, String, Option, none, some, Bool, true, false, ◌≡◌, refl, ◌∙◌, ap, inl, inr, Bool-cases,
}
use codegen_patterns.Jobs.Steps.{Outcome, returned, threw}
use codegen_patterns.Jobs.State.{Orchestrator}
use codegen_patterns.Bridge.Deliveries.{
  Deliveries, BridgeDeliveryRecord, Outcome as LedgerOutcome, ok as stored, err as refused,
  delivered as delivered_status, skipped as skipped_status, find_delivery_by_id, transition,
  mark_delivered, mark_skipped,
}
use codegen_patterns.Bridge.Deliveries.ById.{find_delivery_by_id-id, transition-found}
use codegen_patterns.Events.Types.{DomainEvent}
use codegen_patterns.Bridge.Registry.{BridgeTriggerEntry, find_registry_entry, passes_tenant}
use codegen_patterns.Bridge.Handler.{
  World, HandlerResult, spawned, skipped, not_spawned, no_step_output, not_skipped, not_delivered,
  Draws, Setting, run_id_field, spawn_step, marked, skip, deliver, after_step, applies, run_entry,
  run_event, run_found, run_delivery,
}

abbrev pub skipped_row : String → BridgeDeliveryRecord → BridgeDeliveryRecord
skipped_row reason d = record d { status = skipped_status; skip_reason = some reason }

abbrev pub delivered_row : Option String → ℕ → BridgeDeliveryRecord → BridgeDeliveryRecord
delivered_row run_id now d = record d {
  status = delivered_status;
  user_run_id = run_id;
  delivered_at = some now;
}

-- The world and the result of an attempt from `w` agree on the row `d`.
abbrev pub Settled : Draws → BridgeDeliveryRecord → World → World × HandlerResult → Type 0
Settled draws d w (w', spawned r) =
    find_delivery_by_id d.id w'.ledger ≡ some (delivered_row r draws.ledger_at d)
Settled draws d w (w', skipped reason) =
    (find_delivery_by_id d.id w'.ledger ≡ some (skipped_row reason d))
    × (w'.orchestrator ≡ w.orchestrator)
Settled draws d w (w', not_spawned e) = w'.ledger ≡ w.ledger
Settled draws d w (w', no_step_output) = w'.ledger ≡ w.ledger
Settled draws d w (w', _) = ⊥

-- A stored delivery has a tenant or `null`, so it passes the gate.
passes_tenant-some : (t : Option String) (on : Bool) → passes_tenant on (some t) ≡ true
unfolding passes_tenant
passes_tenant-some t true = refl
passes_tenant-some t false = refl

module _ (draws : Draws) (setting : Setting) (d : BridgeDeliveryRecord) (w : World) where
  marked-skipped :
      (reason : String) (p : Deliveries × LedgerOutcome (Unit {0}))
      → p.1 ≡ stored tt
      → find_delivery_by_id d.id p.0 ≡ some (skipped_row reason d)
      → Settled draws d w (marked draws setting (skipped reason) not_skipped w.orchestrator p)
  unfolding marked
  marked-skipped reason (ds, stored u) e found = (found, refl)
  marked-skipped reason (ds, refused x) e found = cc

  marked-spawned :
      (r : Option String) (o : Orchestrator) (p : Deliveries × LedgerOutcome (Unit {0}))
      → p.1 ≡ stored tt
      → find_delivery_by_id d.id p.0 ≡ some (delivered_row r draws.ledger_at d)
      → Settled draws d w (marked draws setting (spawned r) not_delivered o p)
  unfolding marked
  marked-spawned r o (ds, stored u) e found = found
  marked-spawned r o (ds, refused x) e found = cc

  module _ (found : find_delivery_by_id d.id w.ledger ≡ some d) where
    skip-Settled : (reason : String) → Settled draws d w (skip draws setting d.id reason w)
    unfolding skip mark_skipped
    skip-Settled reason =
        let (stored_it, row) =
          transition-found d.id (skipped_row reason) (λ x. refl) w.ledger d found in
        marked-skipped reason (transition d.id (skipped_row reason) w.ledger) stored_it row

    deliver-Settled :
        (r : Option String) (o : Orchestrator)
        → Settled draws d w
            (deliver draws setting d.id r (record { ledger = w.ledger; orchestrator = o }))
    unfolding deliver mark_delivered
    deliver-Settled none o =
        let (stored_it, row) =
          transition-found d.id (delivered_row none draws.ledger_at) (λ x. refl) w.ledger d found in
        marked-spawned none o (transition d.id (delivered_row none draws.ledger_at) w.ledger)
          stored_it row
    deliver-Settled (some r) o =
        let (stored_it, row) =
          transition-found d.id (delivered_row (some r) draws.ledger_at) (λ x. refl) w.ledger d
            found in
        marked-spawned (some r) o
          (transition d.id (delivered_row (some r) draws.ledger_at) w.ledger) stored_it row

    after_step-Settled :
        (step : Outcome × Orchestrator)
        → Settled draws d w (after_step draws setting d w.ledger step)
    unfolding after_step
    after_step-Settled (returned none, o) = refl
    after_step-Settled (returned (some v), o) = deliver-Settled (run_id_field v) o
    after_step-Settled (threw e, o) = refl

    run_entry-Settled :
        (ev : DomainEvent) (entry : Option BridgeTriggerEntry)
        → Settled draws d w (run_entry draws setting d ev entry w)
    unfolding run_entry
    run_entry-Settled ev none = skip-Settled "trigger_unregistered"
    run_entry-Settled ev (some entry) = elim (Bool-cases (applies draws setting entry ev)) [
      | inl holds ↦
          rw holds (after_step-Settled (spawn_step draws setting d entry ev w.orchestrator))
      | inr fails ↦ rw fails (skip-Settled "predicate_false")
    ]

    run_event-Settled :
        (ev : Option DomainEvent) → Settled draws d w (run_event draws setting d ev w)
    unfolding run_event
    run_event-Settled none = skip-Settled "event_row_missing"
    run_event-Settled (some ev) =
        run_entry-Settled ev (find_registry_entry ev.type d.trigger_id setting.registry)

    run_found-Settled : Settled draws d w (run_found draws setting (some d) w)
    unfolding run_found
    run_found-Settled =
        rw (passes_tenant-some d.tenant_id setting.multi_tenant)
          (run_event-Settled (setting.find_event d.event_id))

-- An attempt for a stored delivery never fails on the tenant nor on the ledger, and its result is what
-- the row says afterwards: delivered with the run id that is returned, or skipped for the reason that
-- is returned with the orchestrator left alone; where the spawn threw or its step has no output, the
-- ledger is as it was.
pub run_delivery-Settled :
    (draws : Draws) (setting : Setting) (id : String) (w : World) (d : BridgeDeliveryRecord)
    → find_delivery_by_id id w.ledger ≡ some d
    → Settled draws d w (run_delivery draws setting id w)
unfolding run_delivery
run_delivery-Settled draws setting id w d h = rw h (
    run_found-Settled draws setting d w
      (ap (λ i. find_delivery_by_id i w.ledger) (find_delivery_by_id-id id w.ledger d h) ∙ h))
