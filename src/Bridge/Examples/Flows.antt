-- ===== src/Bridge/Examples/Flows.antt =====
-- The flow's theorems over the memory backends, with one job type and a bus without subscribers.
use codegen_patterns.Base.{
  ◌+◌, ◌≤◌, String, none, some, true, false, not, [], ◌=ₛ◌, ◌≡◌, refl, arith, inl, inr, length,
  keep, Option-cases,
}
use codegen_patterns.Base.Dict.{get, set}
use codegen_patterns.Jobs.Types.{JobHandlerMeta}
use codegen_patterns.Jobs.State.{Orchestrator, register_handler}
use codegen_patterns.Jobs.Start.{start}
use codegen_patterns.Events.Bus.{Handlers, publish}
use codegen_patterns.Events.Bus.Ticks.{new_bus}
use codegen_patterns.Bridge.Deliveries.{insert_delivery, find_delivery}
use codegen_patterns.Bridge.Registry.{lookup_triggers, matching_triggers, passes_tenant}
use codegen_patterns.Bridge.Drain.{is_audit, wrapper_pool, process_event}
use codegen_patterns.Bridge.Drain.Rounds.{AreNew}
use codegen_patterns.Bridge.Drain.Tables.{memory_tx}
use codegen_patterns.Bridge.Flow.{
  FlowTx, PublishAndStartOptions, eager_options, tenant_missing, threw, publish_and_start,
}
use codegen_patterns.Bridge.Flow.Memory.{MemoryError, Store, memory_flow}
use codegen_patterns.Bridge.Flow.Served.{
  Settled, Raises, publish_and_start-Settled, holds_run, process_event-publish_and_start,
}
use codegen_patterns.Bridge.Examples.Drains.{
  registry, closed, new_hook, ids_from, ids_from-distinct,
}

abbrev no_handlers : Handlers
no_handlers = record { Outside = Unit {0}; Error = String; run = λ h ev w. (w, none) }

abbrev sync_meta : JobHandlerMeta
sync_meta = record {
  pool = none;
  scope_entity = none;
  retry = none;
  concurrency = none;
  dedupe = none;
  timeout_ms = none;
  replay_from = none;
}

abbrev no_jobs : Orchestrator
no_jobs = record {
  runs = [];
  steps = [];
  jobs = [];
  handlers = [];
  queue_blockers = [];
  multi_tenant = true;
}

abbrev new_store : Store no_handlers
new_store = record {
  deliveries = [];
  bus = new_bus no_handlers none tt;
  jobs = register_handler "sync" sync_meta 80 no_jobs;
}

abbrev store_tx : FlowTx
store_tx = memory_flow no_handlers "u1" 90

abbrev of_tenant_t : PublishAndStartOptions
of_tenant_t = record { parent_run_id = none; tenant_id = some (some "t") }

publish_and_start-Settled_example :
    let p = publish_and_start store_tx registry true closed "sync" [] of_tenant_t 90 new_store in
    let eager = eager_options store_tx closed of_tenant_t (some "t") in
    Settled store_tx closed (matching_triggers "deal.closed" "sync" registry) new_store p
    × (passes_tenant true (some (some "t")) ≡ false → p ≡ (new_store, tenant_missing))
    × (passes_tenant true (some (some "t")) ≡ true
        → (e : MemoryError no_handlers) → Raises store_tx closed "sync" [] eager new_store e
        → p.1 ≡ threw e)
publish_and_start-Settled_example =
    publish_and_start-Settled store_tx registry true closed "sync" [] of_tenant_t 90 new_store

abbrev stored_by_flow : Store no_handlers
stored_by_flow =
    (publish_and_start store_tx registry true closed "sync" [] of_tenant_t 90 new_store).0

no_runs-AreNew : AreNew (memory_tx 100) (ids_from 0) 0 (stored_by_flow.deliveries, [])
unfolding get
no_runs-AreNew = record { unused = λ i le. refl; distinct = ids_from-distinct 0 }

same_deliveries :
    (e t : String)
    → (memory_tx 100).has_delivery (stored_by_flow.deliveries, []) e t
      ≡ holds_run (store_tx.user_run stored_by_flow e t)
same_deliveries e t = elim (Option-cases (find_delivery e t stored_by_flow.deliveries)) [
  | inl q ↦ rw q refl
  | inr (d, q) ↦ rw q refl
]

process_event-publish_and_start_example :
    let r =
      (process_event
        (memory_tx 100)
        registry
        true
        closed
        (ids_from 0)
        new_hook
        (stored_by_flow.deliveries, [])).result in
    let ts = lookup_triggers "deal.closed" registry in
    (r.delivered ≤ length (keep (λ t. not (t.job_type =ₛ "sync")) ts))
    × (r.delivered + r.dedup_skips ≡ length ts)
    × ((e t i : String)
        → (memory_tx 100).delivery_id (stored_by_flow.deliveries, []) e t ≡ some i
        → (memory_tx 100).delivery_id
            (process_event
              (memory_tx 100)
              registry
              true
              closed
              (ids_from 0)
              new_hook
              (stored_by_flow.deliveries, [])).tables
            e
            t
          ≡ some i)
unfolding start register_handler publish publish_and_start insert_delivery lookup_triggers is_audit
    wrapper_pool get set
process_event-publish_and_start_example =
    process_event-publish_and_start store_tx (memory_tx 100) registry true true closed "sync" []
      of_tenant_t 90 new_store stored_by_flow "u1" "events_inbound" (ids_from 0) new_hook
      (stored_by_flow.deliveries, []) refl same_deliveries refl (omega arith) refl no_runs-AreNew
