-- ===== src/Events/Bus/Published.antt =====
-- `publish` of `MemoryEventBus` (events/event-bus.memory-backend.ts) against the run of all subscribers.
use codegen_patterns.Base.{
  String, Option, none, some, true, false, List, [], ◌∷◌, ◌++◌, ◌≡◌, refl, sym, ◌∙◌, ap, inl, inr,
  if◌then◌else◌, or_else, Bool-cases,
}
use codegen_patterns.Base.Dict.{get}
use codegen_patterns.Events.Types.{DomainEvent}
use codegen_patterns.Events.Bus.{
  tier_routing, err, Handlers, is_routed, should_dispatch, Bus, first_error, run_handlers,
  throw_first, dispatch_to, dispatch, publish,
}

module _ (hs : Handlers) where
  open hs use {Outside, Error}

  -- The world after all handlers have run, one after the other.
  abbrev pub after_all : DomainEvent → List String → Outside → Outside
  after_all ev [] w = w
  after_all ev (h ∷ rest) w = after_all ev rest (hs.run h ev w).0

  -- The first exception of the handlers, if there is one.
  abbrev pub first_thrown : DomainEvent → List String → Outside → Option Error
  first_thrown ev [] w = none
  first_thrown ev (h ∷ rest) w =
      first_error hs (hs.run h ev w).1 (first_thrown ev rest (hs.run h ev w).0)

  abbrev pub subscribers : DomainEvent → Bus hs → List String
  subscribers ev b = if should_dispatch b.pools ev then or_else (get ev.type b.handlers) [] else []

  first_error_assoc :
      (a b c : Option Error)
      → first_error hs (first_error hs a b) c ≡ first_error hs a (first_error hs b c)
  first_error_assoc none b c = refl
  first_error_assoc (some e) b c = refl

  first_error-none : (a : Option Error) → first_error hs a none ≡ a
  first_error-none none = refl
  first_error-none (some e) = refl

  run_handlers-eq :
      (ev : DomainEvent) (names : List String) (first : Option Error) (w : Outside)
      → run_handlers hs ev names first w
        ≡ (after_all ev names w, first_error hs first (first_thrown ev names w))
  unfolding run_handlers
  run_handlers-eq ev [] first w = ap (λ e. (w, e)) (sym (first_error-none first))
  run_handlers-eq ev (h ∷ rest) first w =
      let r = hs.run h ev w in
      run_handlers-eq ev rest (first_error hs first r.1) r.0
      ∙ ap (λ e. (after_all ev rest r.0, e))
          (first_error_assoc first r.1 (first_thrown ev rest r.0))

  dispatch_to-eq :
      (ev : DomainEvent) (names : Option (List String)) (b : Bus hs)
      → dispatch_to hs ev names b ≡ (
        record b { outside = after_all ev (or_else names []) b.outside },
        throw_first hs (first_thrown ev (or_else names []) b.outside),
      )
  unfolding dispatch_to throw_first
  dispatch_to-eq ev none b = refl
  dispatch_to-eq ev (some names) b = rw (run_handlers-eq ev names none b.outside) refl

  -- An event whose tier forbids its routing is refused and changes nothing. Every other event is
  -- recorded, even if the pools of the process leave it out or a handler throws; then each subscriber
  -- runs, in order and whether or not one before it threw, and the first exception is thrown.
  pub publish_lem :
      (ev : DomainEvent) (b : Bus hs)
      → (is_routed ev ≡ false → publish hs ev b ≡ (b, err (tier_routing ev)))
        × (is_routed ev ≡ true
            → publish hs ev b ≡ (
              record b {
                published_events = b.published_events ++ ev ∷ [];
                outside = after_all ev (subscribers ev b) b.outside;
              },
              throw_first hs (first_thrown ev (subscribers ev b) b.outside),
            ))
  unfolding publish dispatch throw_first
  publish_lem ev b = (
    λ refused. rw refused refl,
    λ routed. rw routed (elim (Bool-cases (should_dispatch b.pools ev)) [
      | inl e ↦ rw e (
          dispatch_to-eq ev (get ev.type b.handlers)
            (record b { published_events = b.published_events ++ ev ∷ [] }))
      | inr e ↦ rw e refl
    ]),
  )
