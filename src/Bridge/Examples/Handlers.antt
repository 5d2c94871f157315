-- ===== src/Bridge/Examples/Handlers.antt =====
-- The handler's theorems at a delivery whose trigger starts a job.
use codegen_patterns.Base.{
  String, Option, none, some, true, false, [], ◌∷◌, ◌=ₛ◌, ◌≡◌, refl, if◌then◌else◌,
}
use codegen_patterns.Base.Dict.{get, set}
use codegen_patterns.Jobs.Types.{shown, JobRun, JobHandlerMeta, running, terminate, event, JobError}
use codegen_patterns.Jobs.Retry.{Thrown}
use codegen_patterns.Jobs.Steps.{returned}
use codegen_patterns.Jobs.StepOn.{RunWork, run_step_on, run_step_on_memo}
use codegen_patterns.Jobs.State.{Orchestrator, register_handler}
use codegen_patterns.Jobs.Reach.{empty}
use codegen_patterns.Bridge.Deliveries.{
  pending, BridgeDeliveryInsert, insert_delivery, find_delivery_by_id,
}
use codegen_patterns.Events.Types.{DomainEvent}
use codegen_patterns.Bridge.Handler.{World, spawned, Draws, Setting, run_delivery}
use codegen_patterns.Bridge.Handler.Spawned.{run_delivery_once}
use codegen_patterns.Bridge.Handler.Ledger.{Settled, run_delivery-Settled}
use codegen_patterns.Bridge.Examples.Drains.{registry, closed}

abbrev plain_meta : JobHandlerMeta
plain_meta = record {
  pool = none;
  scope_entity = none;
  retry = none;
  concurrency = none;
  dedupe = none;
  timeout_ms = none;
  replay_from = none;
}

abbrev wrapper : JobRun
wrapper = record {
  id = "w1";
  job_type = "@framework/bridge_delivery";
  job_version = 1;
  parent_run_id = none;
  root_run_id = "w1";
  parent_close_policy = terminate;
  scope_entity_type = none;
  scope_entity_id = none;
  tenant_id = some "t";
  tags = [];
  pool = "events_inbound";
  priority = 0;
  concurrency_key = none;
  dedupe_key = none;
  status = running;
  input = ("deliveryId", shown "d1") ∷ [];
  output = none;
  error = none;
  trigger_source = event;
  trigger_ref = some "e1";
  run_at = 100;
  started_at = some 101;
  finished_at = none;
  claimed_at = some 101;
  attempts = 0;
  created_at = 100;
  updated_at = 101;
}

abbrev with_wrapper : Orchestrator
with_wrapper =
    let o = register_handler "sync" plain_meta 90 (empty false) in
    record o { runs = set "w1" wrapper o.runs }

abbrev waiting_row : BridgeDeliveryInsert
waiting_row = record {
  id = some "d1";
  event_id = "e1";
  trigger_id = "sync#0";
  wrapper_run_id = some "w1";
  user_run_id = none;
  status = none;
  skip_reason = none;
  error = none;
  tenant_id = some "t";
  attempted_at = none;
  delivered_at = none;
}

abbrev before_run : World
before_run = record {
  ledger = (insert_delivery "x" 100 waiting_row []).0;
  orchestrator = with_wrapper;
}

abbrev find_closed : String → Option DomainEvent
find_closed id = if id =ₛ "e1" then some closed else none

abbrev unnamed_error : JobError → Thrown
unnamed_error e = record { name = none; code = none; message = "start"; stack = none }

abbrev wired : Setting
wired = record {
  run = wrapper;
  find_event = find_closed;
  registry = registry;
  multi_tenant = true;
  thrown_of = unnamed_error;
}

-- The trigger is no longer registered.
abbrev unwired : Setting
unwired = record wired { registry = [] }

abbrev first_draws : Draws
first_draws = record {
  step_row = "s1";
  new_run = "u1";
  step_started = 110;
  run_started = 111;
  step_finished = 112;
  ledger_at = 113;
}

abbrev later_draws : Draws
later_draws = record first_draws { step_row = "s2"; new_run = "u2"; ledger_at = 213 }

abbrev after_run : World
after_run = (run_delivery first_draws wired "d1" before_run).0

first_run : (run_delivery first_draws wired "d1" before_run).1 ≡ spawned (some "u1")
unfolding run_delivery insert_delivery register_handler get set
first_run = refl

run_delivery-Settled_example :
    Settled first_draws
      (record {
        id = "d1";
        event_id = "e1";
        trigger_id = "sync#0";
        wrapper_run_id = some "w1";
        user_run_id = none;
        status = pending;
        skip_reason = none;
        error = none;
        tenant_id = some "t";
        attempted_at = 100;
        delivered_at = none;
      })
      before_run
      (run_delivery first_draws wired "d1" before_run)
unfolding find_delivery_by_id insert_delivery get set
run_delivery-Settled_example = run_delivery-Settled first_draws wired "d1" before_run _ refl

-- The second attempt finds the ledger as it was before the first, and no trigger in the registry.
run_delivery_once_example :
    ((run_delivery later_draws unwired "d1"
        (record after_run { ledger = before_run.ledger })).0.orchestrator
      ≡ after_run.orchestrator)
    × ((r r' : Option String)
        → (run_delivery first_draws wired "d1" before_run).1 ≡ spawned r
        → (run_delivery later_draws unwired "d1"
            (record after_run { ledger = before_run.ledger })).1
          ≡ spawned r'
        → r' ≡ r)
unfolding run_delivery insert_delivery register_handler get set
run_delivery_once_example =
    run_delivery_once first_draws later_draws wired unwired "d1" "d1" before_run
      (record after_run { ledger = before_run.ledger }) refl refl refl

abbrev seven : RunWork
seven s = (returned (some (("n", shown "7") ∷ [])), s)

abbrev step_done : Orchestrator
step_done = (run_step_on "s" 10 11 "w1" "fetch" seven with_wrapper).1

run_step_on_memo_example :
    run_step_on "t" 20 21 "w1" "fetch" (λ o. (returned none, empty true)) step_done
    ≡ (returned (some (("n", shown "7") ∷ [])), step_done)
unfolding run_step_on get register_handler set
run_step_on_memo_example =
    run_step_on_memo "s" "t" 10 11 20 21 "w1" "fetch" seven (λ o. (returned none, empty true))
      with_wrapper step_done step_done (("n", shown "7") ∷ []) refl refl
