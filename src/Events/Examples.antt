-- ===== src/Events/Examples.antt =====
-- The bus's theorems with two handlers, of which the first throws.
use codegen_patterns.Base.{
  String, Option, none, some, true, false, List, [], ◌∷◌, ◌++◌, ◌≡◌, ◌=ₛ◌, refl, if◌then◌else◌,
}
use codegen_patterns.Events.Types.{DomainEvent}
use codegen_patterns.Events.Bus.{
  tier_routing, ok, err, Handlers, ScheduledEventSpec, is_routed, Bus, throw_first, publish,
  materialize_scheduled_event, subscribe,
}
use codegen_patterns.Events.Bus.Published.{after_all, first_thrown, subscribers, publish_lem}
use codegen_patterns.Events.Bus.Ticks.{
  IsOnce, materialised, subscribed, new_bus, Reach, here, more, Reach-IsOnce, materialize_again,
}

abbrev run_named : String → DomainEvent → List String → List String × Option String
run_named name ev seen = (name ∷ seen, if name =ₛ "broken" then some "boom" else none)

abbrev two_handlers : Handlers
two_handlers = record { Outside = List String; Error = String; run = run_named }

abbrev wired : Bus two_handlers
wired =
    subscribe two_handlers "cron" "audit"
      (subscribe two_handlers "cron" "broken" (new_bus two_handlers none []))

abbrev plain_event : DomainEvent
plain_event = record {
  id = "e1";
  type = "cron";
  aggregate_id = "a";
  aggregate_type = "a";
  payload = [];
  occurred_at = 5;
  metadata = [];
}

abbrev every_minute : ScheduledEventSpec
every_minute = record {
  type = "cron";
  slot_key = "cron:5";
  slot_start = 5;
  pool = "events_change";
  direction = "change";
}

publish_lem_example :
    (is_routed plain_event ≡ false
      → publish two_handlers plain_event wired ≡ (wired, err (tier_routing plain_event)))
    × (is_routed plain_event ≡ true
        → publish two_handlers plain_event wired ≡ (
          record wired {
            published_events = wired.published_events ++ plain_event ∷ [];
            outside =
                after_all two_handlers plain_event
                  (subscribers two_handlers plain_event wired)
                  wired.outside;
          },
          throw_first two_handlers (
              first_thrown two_handlers plain_event
                (subscribers two_handlers plain_event wired)
                wired.outside),
        ))
publish_lem_example = publish_lem two_handlers plain_event wired

materialize_again_example :
    let first = materialize_scheduled_event two_handlers "i1" every_minute wired in
    materialize_scheduled_event two_handlers "i2" every_minute first.0 ≡ (first.0, ok false)
materialize_again_example =
    materialize_again two_handlers "i1" "i2" every_minute every_minute wired refl

abbrev wired-Reach : Reach two_handlers none [] wired
wired-Reach = more (more here (subscribed "cron" "broken")) (subscribed "cron" "audit")

Reach-IsOnce_example :
    IsOnce two_handlers (materialize_scheduled_event two_handlers "i1" every_minute wired).0
Reach-IsOnce_example = Reach-IsOnce two_handlers (more wired-Reach (materialised "i1" every_minute))
