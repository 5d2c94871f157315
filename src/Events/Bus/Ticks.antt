-- ===== src/Events/Bus/Ticks.antt =====
-- Scheduled ticks of `MemoryEventBus` (events/event-bus.memory-backend.ts) over every sequence of its
-- operations.
use codegen_patterns.Base.{
  ℕ, ◌+◌, String, Option, some, Bool, true, false, ◌&&◌, List, [], ◌∷◌, ◌++◌, ◌=ₛ◌, ◌≡◌, refl,
  subst, ◌∙◌, ap, inl, inr, arith, if◌then◌else◌, length, keep, contains, opt_eq, Bool-cases,
  eq_iff, eq_refl,
}
use codegen_patterns.Base.Dict.{get}
use codegen_patterns.Events.Types.{DomainEvent, metadata_value}
use codegen_patterns.Events.Bus.{
  Outcome, ok, err, Handlers, ScheduledEventSpec, is_routed, Bus, publish, and_then, tick_event,
  materialize_scheduled_event, subscribe, unsubscribe,
}
use codegen_patterns.Events.Bus.Published.{publish_lem}

abbrev pub is_scheduled : DomainEvent → Bool
is_scheduled e = opt_eq (metadata_value "triggerSource" e) (some "schedule")

-- A tick of the slot with the key.
abbrev pub is_tick : String → DomainEvent → Bool
is_tick key e = is_scheduled e && opt_eq (metadata_value "scheduleSlot" e) (some key)

abbrev pub ticks : String → List DomainEvent → ℕ
ticks key es = length (keep (is_tick key) es)

ticks-append_last :
    (key : String) (es : List DomainEvent) (e : DomainEvent)
    → ticks key (es ++ e ∷ []) ≡ ticks key es + (if is_tick key e then 1 else 0)
ticks-append_last key [] e = elim (Bool-cases (is_tick key e)) [
  | inl q ↦ rw q (omega arith)
  | inr q ↦ rw q (omega arith)
]
ticks-append_last key (x ∷ es) e = elim (Bool-cases (is_tick key x)) [
  | inl q ↦ rw q (omega (arith, ticks-append_last key es e))
  | inr q ↦ rw q (ticks-append_last key es e)
]

is_tick-tick_event :
    (key id : String) (spec : ScheduledEventSpec)
    → is_tick key (tick_event id spec) ≡ (spec.slot_key =ₛ key)
unfolding tick_event get
is_tick-tick_event key id spec = refl

is_routed-tick_event :
    (id : String) (spec : ScheduledEventSpec) → is_routed (tick_event id spec) ≡ true
unfolding is_routed tick_event get
is_routed-tick_event id spec = refl

contains_head : (k : String) (ks : List String) → contains k (k ∷ ks) ≡ true
contains_head k ks = rw (eq_refl k) refl

text_eq_sym : (a b : String) → (a =ₛ b) ≡ (b =ₛ a)
text_eq_sym a b = ground (arith, eq_iff a b, eq_iff b a)

-- One more tick of a new slot, and its mark.
mark_one :
    (slot key : String) (slots : List String) (n : ℕ)
    → contains slot slots ≡ false
    → n ≡ (if contains key slots then 1 else 0)
    → n + (if slot =ₛ key then 1 else 0) ≡ (if contains key (slot ∷ slots) then 1 else 0)
mark_one slot key slots n new h = elim (Bool-cases (slot =ₛ key)) [
  | inl e ↦
      let none_yet : contains key slots ≡ false =
        subst (λ k. contains k slots ≡ false) ((eq_iff slot key).0 e) new in
      rw (text_eq_sym key slot, e) (omega (arith, h ∙ ap (λ c. if c then 1 else 0) none_yet))
  | inr e ↦ rw (text_eq_sym key slot, e) (omega (arith, h))
]

module _ (hs : Handlers) where
  publish-slots :
      (ev : DomainEvent) (b : Bus hs)
      → (publish hs ev b).0.materialised_slots ≡ b.materialised_slots
  publish-slots ev b = elim (Bool-cases (is_routed ev)) [
    | inl e ↦ rw ((publish_lem hs ev b).1 e) refl
    | inr e ↦ rw ((publish_lem hs ev b).0 e) refl
  ]

  -- The slots that are marked are those with a tick in the log, which is one.
  abbrev pub IsOnce : Bus hs → Type 0
  IsOnce b =
      (key : String)
      → ticks key b.published_events ≡ (if contains key b.materialised_slots then 1 else 0)

  publish-IsOnce :
      (ev : DomainEvent) (b : Bus hs)
      → is_scheduled ev ≡ false
      → IsOnce b
      → IsOnce (publish hs ev b).0
  publish-IsOnce ev b plain h key = elim (Bool-cases (is_routed ev)) [
    | inl e ↦
        rw ((publish_lem hs ev b).1 e)
          (ticks-append_last key b.published_events ev ∙ rw plain (omega (arith, h key)))
    | inr e ↦ rw ((publish_lem hs ev b).0 e) (h key)
  ]

  -- A tick is in the log, and its slot is marked, whether or not a handler throws.
  tick-IsOnce :
      (id : String) (spec : ScheduledEventSpec) (b : Bus hs)
      → contains spec.slot_key b.materialised_slots ≡ false
      → IsOnce b
      → IsOnce
          (publish hs
            (tick_event id spec)
            (record b { materialised_slots = spec.slot_key ∷ b.materialised_slots })).0
  tick-IsOnce id spec b new h key =
      let marked : Bus hs = record b {
        materialised_slots = spec.slot_key ∷ b.materialised_slots;
      } in
      rw ((publish_lem hs (tick_event id spec) marked).1 (is_routed-tick_event id spec)) (
        ticks-append_last key b.published_events (tick_event id spec)
        ∙ ap (λ c. ticks key b.published_events + (if c then 1 else 0))
            (is_tick-tick_event key id spec)
        ∙ mark_one spec.slot_key key b.materialised_slots (ticks key b.published_events) new
            (h key))

  and_then_state :
      {A B : Type 0} (p : Bus hs × Outcome hs.Error A) (x : B)
      → (and_then hs p λ u b'. (b', ok x)).0 ≡ p.0
  and_then_state (b, ok u) x = refl
  and_then_state (b, err e) x = refl

  materialize-new :
      (id : String) (spec : ScheduledEventSpec) (b : Bus hs)
      → contains spec.slot_key b.materialised_slots ≡ false
      → (materialize_scheduled_event hs id spec b).0
        ≡ (publish hs
            (tick_event id spec)
            (record b { materialised_slots = spec.slot_key ∷ b.materialised_slots })).0
  unfolding materialize_scheduled_event
  materialize-new id spec b new = rw new (and_then_state (publish hs (tick_event id spec) _) true)

  materialize-known :
      (id : String) (spec : ScheduledEventSpec) (b : Bus hs)
      → contains spec.slot_key b.materialised_slots ≡ true
      → materialize_scheduled_event hs id spec b ≡ (b, ok false)
  unfolding materialize_scheduled_event
  materialize-known id spec b known = rw known refl

  -- A second call for a slot creates nothing and leaves the bus as the first call left it, also if a
  -- handler threw in the first call.
  pub materialize_again :
      (id id' : String) (spec spec' : ScheduledEventSpec) (b : Bus hs)
      → spec'.slot_key ≡ spec.slot_key
      → let first = materialize_scheduled_event hs id spec b in
        materialize_scheduled_event hs id' spec' first.0 ≡ (first.0, ok false)
  materialize_again id id' spec spec' b same =
      elim (Bool-cases (contains spec.slot_key b.materialised_slots)) [
        | inl e ↦
            rw (materialize-known id spec b e)
              (materialize-known id' spec' b (ap (λ k. contains k b.materialised_slots) same ∙ e))
        | inr e ↦ materialize-known id' spec' (materialize_scheduled_event hs id spec b).0 (
            ap (λ x. contains spec'.slot_key x.materialised_slots) (materialize-new id spec b e)
            ∙ ap (contains spec'.slot_key) (publish-slots (tick_event id spec) _)
            ∙ ap (λ k. contains k (spec.slot_key ∷ b.materialised_slots)) same
            ∙ contains_head spec.slot_key b.materialised_slots)
      ]

  -- The operations that change the bus, but for `clear`, which forgets the log and keeps the marks; the
  -- events that are published are not ticks themselves.
  pub data Step (b : Bus hs) : Bus hs → Type 0 where
    published : (ev : DomainEvent) → is_scheduled ev ≡ false → Step b (publish hs ev b).0
    materialised :
        (id : String) (spec : ScheduledEventSpec)
        → Step b (materialize_scheduled_event hs id spec b).0
    subscribed : (type h : String) → Step b (subscribe hs type h b)
    unsubscribed : (type h : String) → Step b (unsubscribe hs type h b)

  abbrev pub new_bus : Option (List String) → hs.Outside → Bus hs
  new_bus pools w = record {
    published_events = [];
    handlers = [];
    materialised_slots = [];
    pools = pools;
    outside = w;
  }

  pub data Reach (pools : Option (List String)) (w : hs.Outside) : Bus hs → Type 0 where
    here : Reach pools w (new_bus pools w)
    more : {b c : Bus hs} → Reach pools w b → Step b c → Reach pools w c

  Step-IsOnce : {b c : Bus hs} → Step b c → IsOnce b → IsOnce c
  unfolding subscribe unsubscribe
  Step-IsOnce {b} (published ev plain) h = publish-IsOnce ev b plain h
  Step-IsOnce {b} (materialised id spec) h =
      elim (Bool-cases (contains spec.slot_key b.materialised_slots)) [
        | inl e ↦ rw (materialize-known id spec b e) h
        | inr e ↦ rw (materialize-new id spec b e) (tick-IsOnce id spec b e h)
      ]
  Step-IsOnce (subscribed type n) h = h
  Step-IsOnce (unsubscribed type n) h = h

  -- In every bus that is reached from a new one without `clear` and without an event that is published as
  -- a tick by hand, a slot has one tick in the log if it is marked as
  -- materialised, and none if it is not.
  pub Reach-IsOnce :
      {pools : Option (List String)} {w : hs.Outside} {b : Bus hs} → Reach pools w b → IsOnce b
  Reach-IsOnce here = λ key. refl
  Reach-IsOnce (more r step) = Step-IsOnce step (Reach-IsOnce r)
