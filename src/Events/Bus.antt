-- ===== src/Events/Bus.antt =====
-- `MemoryEventBus` (events/event-bus.memory-backend.ts): publication, dispatch, subscription and
-- scheduled ticks. A handler is known by a name; what the handlers do is a parameter, on a world
-- outside the bus, so a handler that calls the bus again is left out, and so is `listEvents`.
pub mod Published
pub mod Ticks
use codegen_patterns.Base.{
  ℕ, zero, suc, String, Option, none, some, Bool, true, false, ◌&&◌, not, List, [], ◌∷◌, ◌++◌, ◌=ₛ◌,
  if◌then◌else◌, keep, contains, find_first, or_else, ltb, opt_eq,
}
use codegen_patterns.Base.Dict.{Dict, get, set}
use codegen_patterns.Events.Types.{DomainEvent, metadata_value}

pub data BusError (E : Type 0) : Type 0 where
  tier_routing : DomainEvent → BusError E
  handler_error : E → BusError E

pub data Outcome (E A : Type 0) : Type 0 where
  ok : A → Outcome E A
  err : BusError E → Outcome E A

-- The handlers: each changes the outside world and may throw.
pub record Handlers : Type 1 where
  pub Outside : Type 0
  pub Error : Type 0
  pub run : String → DomainEvent → Outside → Outside × Option Error

pub record ScheduledEventSpec : Type 0 where
  pub type : String
  pub slot_key : String
  pub slot_start : ℕ
  pub pool : String
  pub direction : String

-- `===` with `'audit'`, and the two tests for `null` or `undefined`.
unfoldable pub is_routed : DomainEvent → Bool
is_routed ev =
    if opt_eq (metadata_value "tier" ev) (some "audit")
    then opt_eq (metadata_value "pool" ev) none && opt_eq (metadata_value "direction" ev) none
    else true

-- No pools, and an empty list of pools, let every event pass.
unfoldable pub should_dispatch : Option (List String) → DomainEvent → Bool
should_dispatch none ev = true
should_dispatch (some []) ev = true
should_dispatch (some (p ∷ ps)) ev = elim (metadata_value "pool" ev) [
  | none ↦ false
  | some pool ↦ contains pool (p ∷ ps)
]

unfoldable pub tick_event : String → ScheduledEventSpec → DomainEvent
tick_event new_id spec = record {
  id = new_id;
  type = spec.type;
  aggregate_id = spec.type;
  aggregate_type = spec.type;
  payload = [];
  occurred_at = spec.slot_start;
  metadata =
      ("pool", some spec.pool)
      ∷ ("direction", some spec.direction)
      ∷ ("scheduleSlot", some spec.slot_key)
      ∷ ("triggerSource", some "schedule")
      ∷ [];
}

module _ (hs : Handlers) where
  open hs use {Outside, Error}

  -- `pools` is the option of the module.
  pub record Bus : Type 0 where
    pub published_events : List DomainEvent
    pub handlers : Dict (List String)
    pub materialised_slots : List String
    pub pools : Option (List String)
    pub outside : Outside

  abbrev pub first_error : Option Error → Option Error → Option Error
  first_error none e = e
  first_error (some e) _ = some e

  -- The loop of `dispatch`: an exception is kept, and the next handler runs.
  unfoldable pub run_handlers :
      DomainEvent → List String → Option Error → Outside → Outside × Option Error
  run_handlers ev [] first w = (w, first)
  run_handlers ev (h ∷ rest) first w =
      run_handlers ev rest (first_error first (hs.run h ev w).1) (hs.run h ev w).0

  unfoldable pub throw_first : Option Error → Outcome Error (Unit {0})
  throw_first none = ok tt
  throw_first (some e) = err (handler_error e)

  unfoldable pub dispatch_to :
      DomainEvent → Option (List String) → Bus → Bus × Outcome Error (Unit {0})
  unfolding run_handlers throw_first
  dispatch_to ev none b = (b, ok tt)
  dispatch_to ev (some names) b =
      let r = run_handlers ev names none b.outside in (record b { outside = r.0 }, throw_first r.1)

  -- `dispatch`
  unfoldable pub dispatch : DomainEvent → Bus → Bus × Outcome Error (Unit {0})
  unfolding dispatch_to
  dispatch ev b = dispatch_to ev (get ev.type b.handlers) b

  -- `publish`
  unfoldable pub publish : DomainEvent → Bus → Bus × Outcome Error (Unit {0})
  unfolding is_routed should_dispatch dispatch
  publish ev b =
      if is_routed ev
      then (let logged = record b { published_events = b.published_events ++ ev ∷ [] } in
          if should_dispatch b.pools ev then dispatch ev logged else (logged, ok tt))
      else (b, err (tier_routing ev))

  abbrev pub and_then :
      {A B : Type 0}
      → Bus × Outcome Error A
      → (A → Bus → Bus × Outcome Error B)
      → Bus × Outcome Error B
  and_then (b, ok a) f = f a b
  and_then (b, err e) f = (b, err e)

  unfoldable pub publish_many : List DomainEvent → Bus → Bus × Outcome Error (Unit {0})
  unfolding publish
  publish_many [] b = (b, ok tt)
  publish_many (ev ∷ evs) b = and_then (publish ev b) λ u. publish_many evs

  unfoldable pub find_by_id : String → Bus → Option DomainEvent
  find_by_id id b = find_first (λ e. e.id =ₛ id) b.published_events

  -- `materializeScheduledEvent`; the result is `created`.
  unfoldable pub materialize_scheduled_event :
      String → ScheduledEventSpec → Bus → Bus × Outcome Error Bool
  unfolding publish tick_event
  materialize_scheduled_event new_id spec b =
      if contains spec.slot_key b.materialised_slots
      then (b, ok false)
      else and_then
          (publish (tick_event new_id spec)
            (record b { materialised_slots = spec.slot_key ∷ b.materialised_slots }))
          λ u b'. (b', ok true)

  -- The largest instant of the ticks of a type.
  unfoldable pub latest_slot : String → Option ℕ → List DomainEvent → Option ℕ
  latest_slot type best [] = best
  latest_slot type best (e ∷ es) =
      latest_slot type
        (if e.type =ₛ type && opt_eq (metadata_value "triggerSource" e) (some "schedule")
          then elim best [
            | none ↦ some e.occurred_at
            | some t ↦ if ltb t e.occurred_at then some e.occurred_at else some t
          ]
          else best)
        es

  unfoldable pub last_scheduled_slot_ms : String → Bus → Option ℕ
  unfolding latest_slot
  last_scheduled_slot_ms type b = latest_slot type none b.published_events

  -- A `Set` of handlers keeps the order of insertion.
  unfoldable pub add_handler : String → List String → List String
  add_handler h hs' = if contains h hs' then hs' else hs' ++ h ∷ []

  unfoldable pub subscribe : String → String → Bus → Bus
  unfolding add_handler
  subscribe type h b = record b {
    handlers = set type (add_handler h (or_else (get type b.handlers) [])) b.handlers;
  }

  -- The function that `subscribe` returns.
  unfoldable pub unsubscribe : String → String → Bus → Bus
  unsubscribe type h b = record b {
    handlers = set type (keep (λ g. not (g =ₛ h)) (or_else (get type b.handlers) [])) b.handlers;
  }

  -- The marks of the slots stay.
  unfoldable pub clear : Bus → Bus
  clear b = record b { published_events = []; handlers = [] }

  unfoldable pub published_events_for_pool : String → Bus → List DomainEvent
  published_events_for_pool pool b =
      keep (λ e. opt_eq (metadata_value "pool" e) (some pool)) b.published_events

  unfoldable pub published_events_for_direction : String → Bus → List DomainEvent
  published_events_for_direction direction b =
      keep (λ e. opt_eq (metadata_value "direction" e) (some direction)) b.published_events
