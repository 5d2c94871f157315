-- ===== src/Bridge/Examples.antt =====
-- The ledger's theorems at a concrete delivery.
mod Drains
mod Handlers
mod Flows
use codegen_patterns.Base.{ℕ, ◌≤◌, String, none, some, ◌&&◌, [], ◌≡◌, ◌≢◌, length, keep}
use codegen_patterns.Base.Dict.{values}
use codegen_patterns.Bridge.Deliveries.{
  BridgeDeliveryStatus, BridgeDeliveryRecord, BridgeDeliveryInsert, Deliveries, StatusHistogram, ok,
  err, unique_constraint, window_not_positive, key, full_record, insert_delivery, find_delivery,
  mark_delivered, in_window, of_tenant, get_status_histogram,
}
use codegen_patterns.Bridge.Deliveries.Unique.{
  IsLedger, Moves, start, next, inserted, delivered_one, Moves-IsLedger, insert_delivery_lem,
}
use codegen_patterns.Bridge.Deliveries.Histogram.{at_status, has_status, get_status_histogram_lem}

abbrev row : BridgeDeliveryInsert
row = record {
  id = some "d1";
  event_id = "e1";
  trigger_id = "sync#0";
  wrapper_run_id = none;
  user_run_id = none;
  status = none;
  skip_reason = none;
  error = none;
  tenant_id = some "t";
  attempted_at = none;
  delivered_at = none;
}

abbrev one_delivered : Deliveries
one_delivered = (mark_delivered "d1" "r1" 110 (insert_delivery "x" 100 row []).0).0

one_delivered-Moves : Moves one_delivered
one_delivered-Moves = next (next start (inserted "x" 100 row)) (delivered_one "d1" "r1" 110)

Moves-IsLedger_example : IsLedger one_delivered
Moves-IsLedger_example = Moves-IsLedger one_delivered-Moves

insert_delivery_lem_example :
    (find_delivery "e1" "sync#0" [] ≡ none
      → ((insert_delivery "x" 100 row []).1 ≡ ok tt)
        × (find_delivery "e1" "sync#0" (insert_delivery "x" 100 row []).0
            ≡ some (full_record "x" 100 row))
        × ((id' : String) (later : ℕ) (again : BridgeDeliveryInsert)
            → again.event_id ≡ "e1"
            → again.trigger_id ≡ "sync#0"
            → insert_delivery id' later again (insert_delivery "x" 100 row []).0 ≡ (
              (insert_delivery "x" 100 row []).0,
              err (unique_constraint again.event_id again.trigger_id),
            ))
        × ((e t : String)
            → key "e1" "sync#0" ≢ key e t
            → find_delivery e t (insert_delivery "x" 100 row []).0 ≡ find_delivery e t []))
    × ((d : BridgeDeliveryRecord)
        → find_delivery "e1" "sync#0" [] ≡ some d
        → insert_delivery "x" 100 row [] ≡ ([], err (unique_constraint "e1" "sync#0")))
insert_delivery_lem_example = insert_delivery_lem "x" 100 row []

get_status_histogram_lem_example :
    (1 ≤ 24
      → (h : StatusHistogram) × (get_status_histogram 24 none 200 one_delivered ≡ ok h)
        × ((s : BridgeDeliveryStatus)
            → at_status s h
              ≡ length (
                  keep
                    (λ d. (in_window 24 200 d && of_tenant none d) && has_status d.status s)
                    (values one_delivered))))
    × (get_status_histogram 0 none 200 one_delivered ≡ err window_not_positive)
get_status_histogram_lem_example = get_status_histogram_lem 24 none 200 one_delivered
