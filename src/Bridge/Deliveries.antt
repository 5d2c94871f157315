-- ===== src/Bridge/Deliveries.antt =====
-- `MemoryBridgeDeliveryRepo` (bridge/bridge-delivery.memory-backend.ts) on the rows of
-- bridge/bridge-delivery.schema.ts. An error's JSON is its text; a new id and the instant are
-- arguments.
pub mod Unique
pub mod ById
pub mod Histogram
use codegen_patterns.Base.{
  ℕ, zero, suc, ◌+◌, ◌*◌, String, Option, none, some, Bool, true, false, ◌&&◌, ◌||◌, List, [], ◌∷◌,
  ◌=ₛ◌, ltb, if◌then◌else◌, find_first, keep, opt_eq, or_else,
}
use codegen_patterns.Base.Dict.{Dict, get, set, values}
use Prim.Native.String.{◌++◌}

pub data BridgeDeliveryStatus : Type 0 where
  pending delivered skipped failed : BridgeDeliveryStatus

pub record BridgeDeliveryRecord : Type 0 where
  pub id : String
  pub event_id : String
  pub trigger_id : String
  pub wrapper_run_id : Option String
  pub user_run_id : Option String
  pub status : BridgeDeliveryStatus
  pub skip_reason : Option String
  pub error : Option String
  pub tenant_id : Option String
  pub attempted_at : ℕ
  pub delivered_at : Option ℕ

-- The columns that have a default may be absent.
pub record BridgeDeliveryInsert : Type 0 where
  pub id : Option String
  pub event_id : String
  pub trigger_id : String
  pub wrapper_run_id : Option String
  pub user_run_id : Option String
  pub status : Option BridgeDeliveryStatus
  pub skip_reason : Option String
  pub error : Option String
  pub tenant_id : Option String
  pub attempted_at : Option ℕ
  pub delivered_at : Option ℕ

pub data BridgeError : Type 0 where
  unique_constraint : String → String → BridgeError
  no_delivery : String → BridgeError
  window_not_positive : BridgeError

pub data Outcome (A : Type 0) : Type 0 where
  ok : A → Outcome A
  err : BridgeError → Outcome A

abbrev pub Deliveries : Type 0
Deliveries = Dict BridgeDeliveryRecord

-- `key`
unfoldable pub key : String → String → String
key event_id trigger_id = event_id ++ "::" ++ trigger_id

unfoldable pub full_record : String → ℕ → BridgeDeliveryInsert → BridgeDeliveryRecord
full_record new_id now row = record {
  id = or_else row.id new_id;
  event_id = row.event_id;
  trigger_id = row.trigger_id;
  wrapper_run_id = row.wrapper_run_id;
  user_run_id = row.user_run_id;
  status = or_else row.status pending;
  skip_reason = row.skip_reason;
  error = row.error;
  tenant_id = row.tenant_id;
  attempted_at = or_else row.attempted_at now;
  delivered_at = row.delivered_at;
}

unfoldable pub insert_delivery :
    String → ℕ → BridgeDeliveryInsert → Deliveries → Deliveries × Outcome (Unit {0})
unfolding key full_record
insert_delivery new_id now row ds = elim (get (key row.event_id row.trigger_id) ds) [
  | none ↦ (set (key row.event_id row.trigger_id) (full_record new_id now row) ds, ok tt)
  | some d ↦ (ds, err (unique_constraint row.event_id row.trigger_id))
]

unfoldable pub find_delivery : String → String → Deliveries → Option BridgeDeliveryRecord
unfolding key
find_delivery event_id trigger_id ds = get (key event_id trigger_id) ds

unfoldable pub find_delivery_by_id : String → Deliveries → Option BridgeDeliveryRecord
find_delivery_by_id id ds = find_first (λ d. d.id =ₛ id) (values ds)

-- A transition writes the first record with the id in its place (`findById`).
unfoldable pub write_first :
    String → (BridgeDeliveryRecord → BridgeDeliveryRecord) → Deliveries → Deliveries
write_first id f [] = []
write_first id f ((k, d) ∷ ds) = if d.id =ₛ id then (k, f d) ∷ ds else (k, d) ∷ write_first id f ds

unfoldable pub transition :
    String
    → (BridgeDeliveryRecord → BridgeDeliveryRecord)
    → Deliveries
    → Deliveries × Outcome (Unit {0})
unfolding find_delivery_by_id write_first
transition id f ds = elim (find_delivery_by_id id ds) [
  | none ↦ (ds, err (no_delivery id))
  | some d ↦ (write_first id f ds, ok tt)
]

unfoldable pub mark_delivered : String → String → ℕ → Deliveries → Deliveries × Outcome (Unit {0})
unfolding transition
mark_delivered id user_run_id now ds =
    transition id
      (λ d. record d {
        status = delivered;
        user_run_id = some user_run_id;
        delivered_at = some now;
      })
      ds

unfoldable pub mark_skipped : String → String → Deliveries → Deliveries × Outcome (Unit {0})
unfolding transition
mark_skipped id reason ds =
    transition id (λ d. record d { status = skipped; skip_reason = some reason }) ds

unfoldable pub mark_failed : String → String → Deliveries → Deliveries × Outcome (Unit {0})
unfolding transition
mark_failed id error ds = transition id (λ d. record d { status = failed; error = some error }) ds

pub record StatusHistogram : Type 0 where
  pub pending : ℕ
  pub delivered : ℕ
  pub skipped : ℕ
  pub failed : ℕ

unfoldable pub count_status : BridgeDeliveryStatus → StatusHistogram → StatusHistogram
count_status pending h = record h { pending = suc h.pending }
count_status delivered h = record h { delivered = suc h.delivered }
count_status skipped h = record h { skipped = suc h.skipped }
count_status failed h = record h { failed = suc h.failed }

-- `undefined` reads the rows of all tenants.
unfoldable pub of_tenant : Option (Option String) → BridgeDeliveryRecord → Bool
of_tenant none d = true
of_tenant (some t) d = opt_eq d.tenant_id t

unfoldable pub in_window : ℕ → ℕ → BridgeDeliveryRecord → Bool
in_window window_hours now d =
    if ltb (d.attempted_at + window_hours * 3600000) now then false else true

unfoldable pub count_deliveries :
    (BridgeDeliveryRecord → Bool) → List BridgeDeliveryRecord → StatusHistogram → StatusHistogram
unfolding count_status
count_deliveries counts [] h = h
count_deliveries counts (d ∷ ds) h =
    count_deliveries counts ds (if counts d then count_status d.status h else h)

abbrev pub no_counts : StatusHistogram
no_counts = record { pending = 0; delivered = 0; skipped = 0; failed = 0 }

-- A window is a whole number of hours.
unfoldable pub get_status_histogram :
    ℕ → Option (Option String) → ℕ → Deliveries → Outcome StatusHistogram
unfolding count_deliveries in_window of_tenant
get_status_histogram zero tenant now ds = err window_not_positive
get_status_histogram (suc n) tenant now ds =
    ok (count_deliveries (λ d. in_window (suc n) now d && of_tenant tenant d) (values ds) no_counts)

unfoldable pub get_deliveries_for_event : String → Deliveries → List BridgeDeliveryRecord
get_deliveries_for_event event_id ds = keep (λ d. d.event_id =ₛ event_id) (values ds)
