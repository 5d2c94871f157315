-- ===== src/Bridge/Flow/Memory.antt =====
-- The services of `EventFlowService` (bridge/event-flow.service.ts) in memory: the event bus, the
-- orchestrator and the ledger of the memory backends side by side, which share nothing. They take no
-- part in the transaction, so what they have written before an exception stays.
use codegen_patterns.Base.{
  String, Option, none, some, Bool, true, false, [], ◌∷◌, ◌++◌, ◌||◌, ◌=ₛ◌, ◌≡◌, refl, sym, ◌∙◌, ap,
  inl, inr, List, exists, Option-cases, Bool-cases, eq_refl, eq_iff,
}
use codegen_patterns.Base.Dict.{get, get-set, get-set_self}
use codegen_patterns.Jobs.Types.{
  Instant, Payload, StartOptions, JobRun, JobError, Result, ok as job_ok, err as job_err,
}
use codegen_patterns.Jobs.State.{Orchestrator}
use codegen_patterns.Jobs.Start.{start}
use codegen_patterns.Events.Types.{DomainEvent}
use codegen_patterns.Events.Bus.{
  Handlers, Bus, BusError, Outcome as BusOutcome, ok as bus_ok, err as bus_err, is_routed, publish,
}
use codegen_patterns.Events.Bus.Published.{publish_lem}
use codegen_patterns.Bridge.Deliveries.{
  Deliveries, BridgeDeliveryRecord, BridgeDeliveryInsert, BridgeError, Outcome as LedgerOutcome,
  ok as stored, err as refused, key, full_record, insert_delivery, find_delivery,
}
use codegen_patterns.Bridge.Deliveries.Unique.{insert_delivery-absent, insert_delivery-present}
use codegen_patterns.Bridge.Flow.{Outcome, ok, err, FlowTx}

abbrev pub run_of : Option BridgeDeliveryRecord → Option (Option String)
run_of none = none
run_of (some d) = some d.user_run_id

module _ (hs : Handlers) where
  pub data MemoryError : Type 0 where
    from_bus : BusError hs.Error → MemoryError
    from_jobs : JobError → MemoryError
    from_ledger : BridgeError → MemoryError

  pub record Store : Type 0 where
    pub deliveries : Deliveries
    pub bus : Bus hs
    pub jobs : Orchestrator

  abbrev pub user_run_in : Store → String → String → Option (Option String)
  user_run_in s e t = run_of (find_delivery e t s.deliveries)

  abbrev pub is_logged : List DomainEvent → String → Bool
  is_logged evs e = exists (λ x. x.id =ₛ e) evs

  abbrev pub bus_outcome : BusOutcome hs.Error (Unit {0}) → Outcome MemoryError (Unit {0})
  bus_outcome (bus_ok u) = ok tt
  bus_outcome (bus_err e) = err (from_bus e)

  abbrev pub job_outcome : Result JobRun → Outcome MemoryError String
  job_outcome (job_ok run) = ok run.id
  job_outcome (job_err e) = err (from_jobs e)

  abbrev pub ledger_outcome : LedgerOutcome (Unit {0}) → Outcome MemoryError (Unit {0})
  ledger_outcome (stored u) = ok tt
  ledger_outcome (refused e) = err (from_ledger e)

  abbrev pub publish_in : DomainEvent → Store → Store × Outcome MemoryError (Unit {0})
  publish_in ev s = let p = publish hs ev s.bus in (record s { bus = p.0 }, bus_outcome p.1)

  -- `new_id` and `now` are what a start draws.
  module _ (new_id : String) (now : Instant) where
    abbrev pub start_in :
        String → Payload → StartOptions → Store → Store × Outcome MemoryError String
    start_in type input opts s =
        let p = start new_id now type (some input) opts s.jobs in
        (record s { jobs = p.0 }, job_outcome p.1)

    abbrev pub insert_in : BridgeDeliveryInsert → Store → Store × Outcome MemoryError (Unit {0})
    insert_in row s =
        let p = insert_delivery new_id now row s.deliveries in
        (record s { deliveries = p.0 }, ledger_outcome p.1)

    pub insert_in-inserted :
        (row : BridgeDeliveryInsert) (s : Store)
        → (insert_in row s).1 ≡ ok tt
        → user_run_in (insert_in row s).0 row.event_id row.trigger_id ≡ some row.user_run_id
    unfolding find_delivery full_record
    insert_in-inserted row s h =
        elim (Option-cases (get (key row.event_id row.trigger_id) s.deliveries)) [
          | inl e ↦ rw (insert_delivery-absent new_id now row s.deliveries e, get-set_self) refl
          | inr (d, e) ↦ cc (rw (insert_delivery-present new_id now row s.deliveries d e) at h)
        ]

    pub insert_in-keeps :
        (row : BridgeDeliveryInsert) (s : Store) (e t : String) (x : Option String)
        → (insert_in row s).1 ≡ ok tt
        → user_run_in s e t ≡ some x
        → user_run_in (insert_in row s).0 e t ≡ some x
    unfolding find_delivery
    insert_in-keeps row s e t x h found =
        elim (Option-cases (get (key row.event_id row.trigger_id) s.deliveries)) [
          | inl free ↦
              rw (insert_delivery-absent new_id now row s.deliveries free, get-set)
                (elim (Bool-cases (key row.event_id row.trigger_id =ₛ key e t)) [
                  | inl q ↦ cc (
                    sym (ap (λ k. run_of (get k s.deliveries)) ((eq_iff _ _).0 q)) ∙ ap run_of free,
                    found,
                  )
                  | inr q ↦ rw q found
                ])
          | inr (d, taken) ↦ rw (insert_delivery-present new_id now row s.deliveries d taken) found
        ]

    logged_last :
        (ev : DomainEvent) (evs : List DomainEvent) → is_logged (evs ++ ev ∷ []) ev.id ≡ true
    logged_last ev [] = rw (eq_refl ev.id) refl
    logged_last ev (x ∷ evs) = rw (logged_last ev evs) (or_true (x.id =ₛ ev.id))
      where
        or_true : (b : Bool) → (b || true) ≡ true
        or_true true = refl
        or_true false = refl

    pub publish_in-published :
        (ev : DomainEvent) (s : Store)
        → (publish_in ev s).1 ≡ ok tt
        → is_logged (publish_in ev s).0.bus.published_events ev.id ≡ true
    publish_in-published ev s h = elim (Bool-cases (is_routed ev)) [
      | inl routed ↦
          ap (λ p. is_logged p.0.published_events ev.id) ((publish_lem hs ev s.bus).1 routed)
          ∙ logged_last ev s.bus.published_events
      | inr stops ↦ cc (sym h ∙ ap (λ p. bus_outcome p.1) ((publish_lem hs ev s.bus).0 stops))
    ]

    -- `transaction` calls its body.
    abbrev pub memory_flow : FlowTx
    memory_flow = record {
      State = Store;
      Error = MemoryError;
      user_run = user_run_in;
      is_published = λ s e. is_logged s.bus.published_events e;
      publish = publish_in;
      start = start_in;
      insert_delivery = insert_in;
      transaction = λ body s. body s;
      commit = λ body s s' a h. h;
      rethrown = λ body s s' e h. ap (λ p. p.1) h;
      published = publish_in-published;
      publish_keeps = λ ev s e t. refl;
      start_keeps = λ type input opts s e t. refl;
      start_keeps_published = λ type input opts s e h. h;
      inserted = insert_in-inserted;
      insert_keeps = insert_in-keeps;
      insert_keeps_published = λ row s e h. h;
    }
