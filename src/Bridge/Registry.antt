-- ===== src/Bridge/Registry.antt =====
-- The registry of triggers (bridge/bridge.protocol.ts), and `assertTenantId` (bridge/assert-tenant-id.ts).
-- The callbacks `map` and `when` are pure functions of the event.
use codegen_patterns.Base.{
  String, Option, none, Bool, true, false, List, [], ◌=ₛ◌, or_else, find_first, keep,
}
use codegen_patterns.Base.Dict.{Dict, get}
use codegen_patterns.Jobs.Types.{Payload}
use codegen_patterns.Events.Types.{DomainEvent}

pub record BridgeTriggerEntry : Type 0 where
  pub trigger_id : String
  pub job_type : String
  pub map : DomainEvent → Payload
  pub when : Option (DomainEvent → Bool)

abbrev pub BridgeRegistry : Type 0
BridgeRegistry = Dict (List BridgeTriggerEntry)

-- `registry[type] ?? []`
unfoldable pub lookup_triggers : String → BridgeRegistry → List BridgeTriggerEntry
lookup_triggers type registry = or_else (get type registry) []

unfoldable pub find_registry_entry : String → String → BridgeRegistry → Option BridgeTriggerEntry
unfolding lookup_triggers
find_registry_entry type trigger_id registry =
    find_first (λ t. t.trigger_id =ₛ trigger_id) (lookup_triggers type registry)

unfoldable pub matching_triggers : String → String → BridgeRegistry → List BridgeTriggerEntry
unfolding lookup_triggers
matching_triggers type job_type registry =
    keep (λ t. t.job_type =ₛ job_type) (lookup_triggers type registry)

-- Whether `assertTenantId` lets the call pass; `none` is `undefined`.
unfoldable pub passes_tenant : Bool → Option (Option String) → Bool
passes_tenant true none = false
passes_tenant _ _ = true
