-- ===== src/Bridge/Handler/Spawned.antt =====
-- The memoised spawn of `BridgeDeliveryHandler` (bridge/bridge-delivery-handler.ts) over the attempts
-- of one wrapper run.
use codegen_patterns.Base.{
  String, Option, none, some, Bool, true, false, ◌≡◌, ◌≢◌, ◌⊎◌, refl, sym, ◌∙◌, ap, subst, inl, inr,
  Bool-cases,
}
use codegen_patterns.Jobs.Types.{Payload}
use codegen_patterns.Jobs.Steps.{Outcome, returned, threw}
use codegen_patterns.Jobs.StepOn.{RunWork, run_step_on, run_step_on_memo}
use codegen_patterns.Jobs.State.{Orchestrator}
use codegen_patterns.Bridge.Deliveries.{
  Deliveries, BridgeDeliveryRecord, BridgeError, Outcome as LedgerOutcome, ok as stored,
  err as refused, find_delivery_by_id, mark_skipped,
}
use codegen_patterns.Events.Types.{DomainEvent}
use codegen_patterns.Bridge.Registry.{BridgeTriggerEntry, find_registry_entry, passes_tenant}
use codegen_patterns.Bridge.Handler.{
  World, HandlerResult, spawned, skipped, not_skipped, not_delivered, Draws, Setting, run_id_field,
  spawn_user_run_step, start_user_run, spawn_step, marked, skip, deliver, after_step, applies,
  run_entry, run_event, run_found, run_delivery,
}

-- The results of an attempt whose step has returned.
abbrev pub past_spawn : HandlerResult → Bool
past_spawn (spawned r) = true
past_spawn (not_delivered e) = true
past_spawn _ = false

module _ (draws : Draws) (setting : Setting) where
  marked-orchestrator :
      (result : HandlerResult) (failed : BridgeError → HandlerResult) (o : Orchestrator)
      (p : Deliveries × LedgerOutcome (Unit {0}))
      → (marked draws setting result failed o p).0.orchestrator ≡ o
  unfolding marked
  marked-orchestrator result failed o (ds, stored u) = refl
  marked-orchestrator result failed o (ds, refused e) = refl

  deliver-orchestrator :
      (id : String) (r : Option String) (w : World)
      → (deliver draws setting id r w).0.orchestrator ≡ w.orchestrator
  unfolding deliver
  deliver-orchestrator id none w = marked-orchestrator _ _ _ _
  deliver-orchestrator id (some r) w = marked-orchestrator _ _ _ _

  marked-result :
      (r s : Option String) (o : Orchestrator) (p : Deliveries × LedgerOutcome (Unit {0}))
      → (marked draws setting (spawned r) not_delivered o p).1 ≡ spawned s
      → s ≡ r
  unfolding marked
  marked-result r s o (ds, stored u) h = cc
  marked-result r s o (ds, refused e) h = cc

  deliver-result :
      (id : String) (r s : Option String) (w : World)
      → (deliver draws setting id r w).1 ≡ spawned s
      → s ≡ r
  unfolding deliver
  deliver-result id none s w h = marked-result none s _ _ h
  deliver-result id (some r) s w h = marked-result (some r) s _ _ h

  -- An attempt that does not reach the step.
  abbrev Early : World → World × HandlerResult → Type 0
  Early w p = (p.0.orchestrator ≡ w.orchestrator) × (past_spawn p.1 ≡ false)

  abbrev Reaches : World → World × HandlerResult → Type 0
  Reaches w p =
      (d : BridgeDeliveryRecord) × (entry : BridgeTriggerEntry) × (ev : DomainEvent) × (p
        ≡ after_step draws setting d w.ledger (spawn_step draws setting d entry ev w.orchestrator))

  marked-Early :
      (reason : String) (w : World) (p : Deliveries × LedgerOutcome (Unit {0}))
      → Early w (marked draws setting (skipped reason) not_skipped w.orchestrator p)
  unfolding marked
  marked-Early reason w (ds, stored u) = (refl, refl)
  marked-Early reason w (ds, refused e) = (refl, refl)

  skip-Early : (id reason : String) (w : World) → Early w (skip draws setting id reason w)
  unfolding skip
  skip-Early id reason w = marked-Early reason w (mark_skipped id reason w.ledger)

  run_entry_cases :
      (d : BridgeDeliveryRecord) (ev : DomainEvent) (entry : Option BridgeTriggerEntry) (w : World)
      → Early w (run_entry draws setting d ev entry w)
        ⊎ Reaches w (run_entry draws setting d ev entry w)
  unfolding run_entry
  run_entry_cases d ev none w = inl (skip-Early d.id "trigger_unregistered" w)
  run_entry_cases d ev (some entry) w = elim (Bool-cases (applies draws setting entry ev)) [
    | inl holds ↦ inr (d, entry, ev, rw holds refl)
    | inr fails ↦ inl (rw fails (skip-Early d.id "predicate_false" w))
  ]

  run_event_cases :
      (d : BridgeDeliveryRecord) (ev : Option DomainEvent) (w : World)
      → Early w (run_event draws setting d ev w) ⊎ Reaches w (run_event draws setting d ev w)
  unfolding run_event
  run_event_cases d none w = inl (skip-Early d.id "event_row_missing" w)
  run_event_cases d (some ev) w =
      run_entry_cases d ev (find_registry_entry ev.type d.trigger_id setting.registry) w

  run_found_cases :
      (d : Option BridgeDeliveryRecord) (w : World)
      → Early w (run_found draws setting d w) ⊎ Reaches w (run_found draws setting d w)
  unfolding run_found
  run_found_cases none w = inl (refl, refl)
  run_found_cases (some d) w =
      elim (Bool-cases (passes_tenant setting.multi_tenant (some d.tenant_id))) [
        | inl holds ↦ rw holds (run_event_cases d (setting.find_event d.event_id) w)
        | inr fails ↦ rw fails (inl (refl, refl))
      ]

  pub run_delivery_cases :
      (id : String) (w : World)
      → Early w (run_delivery draws setting id w) ⊎ Reaches w (run_delivery draws setting id w)
  unfolding run_delivery
  run_delivery_cases id w = run_found_cases (find_delivery_by_id id w.ledger) w

  -- What an attempt that got past the step has in its world, for a world `p` and a result.
  abbrev Passed : World × HandlerResult → Outcome × Orchestrator → Type 0
  Passed p step =
      (v : Payload) × (step ≡ (returned (some v), p.0.orchestrator))
      × ((r : Option String) → p.1 ≡ spawned r → r ≡ run_id_field v)

  after_step-Passed :
      (d : BridgeDeliveryRecord) (ds : Deliveries) (step : Outcome × Orchestrator)
      → past_spawn (after_step draws setting d ds step).1 ≡ true
      → Passed (after_step draws setting d ds step) step
  unfolding after_step
  after_step-Passed d ds (returned (some v), o) h =
      let w : World = record { ledger = ds; orchestrator = o } in
      (
        v,
        ap (λ x. (returned (some v), x)) (sym (deliver-orchestrator d.id (run_id_field v) w)),
        λ r q. deliver-result d.id (run_id_field v) r w q,
      )
  after_step-Passed d ds (returned none, o) h = cc
  after_step-Passed d ds (threw e, o) h = cc

  after_step-known :
      (d : BridgeDeliveryRecord) (ds : Deliveries) (step : Outcome × Orchestrator) (v : Payload)
      (o : Orchestrator)
      → step ≡ (returned (some v), o)
      → ((after_step draws setting d ds step).0.orchestrator ≡ o)
        × ((r : Option String)
            → (after_step draws setting d ds step).1 ≡ spawned r
            → r ≡ run_id_field v)
  unfolding after_step
  after_step-known d ds step v o e =
      let w : World = record { ledger = ds; orchestrator = o } in
      rw e (
        deliver-orchestrator d.id (run_id_field v) w,
        λ r q. deliver-result d.id (run_id_field v) r w q,
      )

early-not-spawned : (x : HandlerResult) (r : Option String) → past_spawn x ≡ false → x ≢ spawned r
early-not-spawned x r e q = cc (ap past_spawn q)

module _ (draws draws' : Draws) (setting setting' : Setting) where
  spawn_step-memo :
      (d d' : BridgeDeliveryRecord) (entry entry' : BridgeTriggerEntry) (ev ev' : DomainEvent)
      (o o' p : Orchestrator) (v : Payload)
      → setting'.run.id ≡ setting.run.id
      → spawn_step draws setting d entry ev o ≡ (returned (some v), o')
      → p.steps ≡ o'.steps
      → spawn_step draws' setting' d' entry' ev' p ≡ (returned (some v), p)
  unfolding spawn_step
  spawn_step-memo d d' entry entry' ev ev' o o' p v same h steps =
      let work' : RunWork = start_user_run draws' setting' d' entry' ev' in
      subst
        (λ run_id.
          run_step_on draws'.step_row draws'.step_started draws'.step_finished run_id
            spawn_user_run_step work' p
          ≡ (returned (some v), p))
        (sym same)
        (run_step_on_memo draws.step_row draws'.step_row draws.step_started draws.step_finished
          draws'.step_started draws'.step_finished setting.run.id spawn_user_run_step
          (start_user_run draws setting d entry ev) work' o o' p v h steps)

  -- Once an attempt of a wrapper run has got past its step, a later attempt of the same run changes
  -- nothing in the orchestrator, and reports the same user run if it reports one. This holds for every
  -- ledger, registry, event and instant of the later attempt, and also if other runs have moved on in
  -- between, as long as the steps are the same.
  pub run_delivery_once :
      (id id' : String) (w w' : World)
      → setting'.run.id ≡ setting.run.id
      → past_spawn (run_delivery draws setting id w).1 ≡ true
      → w'.orchestrator.steps ≡ (run_delivery draws setting id w).0.orchestrator.steps
      → ((run_delivery draws' setting' id' w').0.orchestrator ≡ w'.orchestrator)
        × ((r r' : Option String)
            → (run_delivery draws setting id w).1 ≡ spawned r
            → (run_delivery draws' setting' id' w').1 ≡ spawned r'
            → r' ≡ r)
  run_delivery_once id id' w w' same h steps = elim (run_delivery_cases draws setting id w) [
    | inl (_, early) ↦ cc
    | inr (d, entry, ev, e) ↦
        let step = spawn_step draws setting d entry ev w.orchestrator in
        let (v, first, of_first) =
          subst (λ p. Passed draws setting p step) (sym e)
            (after_step-Passed draws setting d w.ledger step
              (subst (λ p. past_spawn p.1 ≡ true) e h)) in
        elim (run_delivery_cases draws' setting' id' w') [
          | inl (kept, early) ↦ (kept, λ r r' q q'. absurd (early-not-spawned _ r' early q'))
          | inr (d', entry', ev', e') ↦
              let again =
                spawn_step-memo d d' entry entry' ev ev' w.orchestrator
                  (run_delivery draws setting id w).0.orchestrator w'.orchestrator v same first
                  steps in
              let (kept, of_again) =
                after_step-known draws' setting' d' w'.ledger
                  (spawn_step draws' setting' d' entry' ev' w'.orchestrator) v w'.orchestrator
                  again in
              rw e' (kept, λ r r' q q'. of_again r' q' ∙ sym (of_first r q))
        ]
  ]
