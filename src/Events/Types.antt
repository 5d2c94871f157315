-- ===== src/Events/Types.antt =====
-- The events of events/event-bus.protocol.ts. A value of the metadata is a text or `null`; an instant
-- is in milliseconds.
use codegen_patterns.Base.{ℕ, String, Option, none, or_else}
use codegen_patterns.Base.Dict.{Dict, get}
use codegen_patterns.Jobs.Types.{Payload}

pub record DomainEvent : Type 0 where
  pub id : String
  pub type : String
  pub aggregate_id : String
  pub aggregate_type : String
  pub payload : Payload
  pub occurred_at : ℕ
  pub metadata : Dict (Option String)

-- `event.metadata?.[name] ?? null`
abbrev pub metadata_value : String → DomainEvent → Option String
metadata_value name event = or_else (get name event.metadata) none
