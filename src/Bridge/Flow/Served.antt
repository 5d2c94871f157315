-- ===== src/Bridge/Flow/Served.antt =====
-- `publishAndStart` (bridge/event-flow.service.ts) on all its branches, and the drain of the event that
-- it published (bridge/bridge-outbox-drain-hook.ts).
use codegen_patterns.Base.{
  ◌+◌, ◌≤◌, String, Option, none, some, Bool, true, false, not, List, [], ◌∷◌, ◌=ₛ◌, ◌≡◌, ◌⊎◌, refl,
  sym, subst, ◌∙◌, ap, inl, inr, arith, or_else, length, keep, All, All-weaken, Bool-cases,
}
use codegen_patterns.Jobs.Types.{Instant, Payload, StartOptions}
use codegen_patterns.Events.Types.{DomainEvent, metadata_value}
use codegen_patterns.Bridge.Registry.{
  BridgeTriggerEntry, BridgeRegistry, lookup_triggers, matching_triggers, passes_tenant,
}
use codegen_patterns.Bridge.Drain.{
  DrainTx, HookState, NewIds, is_audit, wrapper_pool, process_event,
}
use codegen_patterns.Bridge.Drain.Rounds.{AreNew}
use codegen_patterns.Bridge.Drain.Replay.{process_event_lem}
use codegen_patterns.Bridge.Flow.{
  Outcome, ok, err, FlowTx, PublishAndStartOptions, FlowResult, started, tenant_missing, threw,
  eager_options, served_row, and_then, insert_served, flow_body, flow_result, publish_and_start,
}

module _ (tx : FlowTx) where
  open tx use {State, Error, user_run, is_published}

  abbrev pub Keeps : State → State → Type 0
  Keeps s s' =
      (e t : String) (x : Option String) → user_run s e t ≡ some x → user_run s' e t ≡ some x

  -- Each of the triggers has a delivery of the event for the run.
  abbrev pub AllServed : DomainEvent → String → List BridgeTriggerEntry → State → Type 0
  AllServed ev run_id ts s = All (λ t. user_run s ev.id t.trigger_id ≡ some (some run_id)) ts

  module _ (ev : DomainEvent) (run_id : String) (tenant_id : Option String) (now : Instant) where
    abbrev Inserted : State → List BridgeTriggerEntry → State × Outcome Error String → Type 0
    Inserted s ts (s', ok r) =
        (r ≡ run_id)
        × AllServed ev run_id ts s'
        × Keeps s s'
        × ((e : String) → is_published s e ≡ true → is_published s' e ≡ true)
    Inserted s ts (s', err e) = Unit

    Inserted-step :
        (t : BridgeTriggerEntry) (ts : List BridgeTriggerEntry) (s s₁ : State)
        (p : State × Outcome Error String)
        → user_run s₁ ev.id t.trigger_id ≡ some (some run_id)
        → Keeps s s₁
        → ((e : String) → is_published s e ≡ true → is_published s₁ e ≡ true)
        → Inserted s₁ ts p
        → Inserted s (t ∷ ts) p
    Inserted-step t ts s s₁ (s', err e) own keeps pub_keeps rest = tt
    Inserted-step t ts s s₁ (s', ok r) own keeps pub_keeps (same, served, later, pub_later) = (
      same,
      (later ev.id t.trigger_id (some run_id) own, served),
      λ e u x h. later e u x (keeps e u x h),
      λ e h. pub_later e (pub_keeps e h),
    )

    -- One round of the loop, whose rest keeps the invariant.
    insert_one-Inserted :
        (t : BridgeTriggerEntry) (ts : List BridgeTriggerEntry) (s : State)
        (p : State × Outcome Error (Unit {0}))
        → tx.insert_delivery (served_row tx ev run_id tenant_id now t) s ≡ p
        → ((s₁ : State) → Inserted s₁ ts (insert_served tx ev run_id tenant_id now ts s₁))
        → Inserted s (t ∷ ts) (and_then tx p λ u s'. insert_served tx ev run_id tenant_id now ts s')
    unfolding served_row
    insert_one-Inserted t ts s (s₁, err e) q rest = tt
    insert_one-Inserted t ts s (s₁, ok u) q rest =
        let row = served_row tx ev run_id tenant_id now t in
        let good : (tx.insert_delivery row s).1 ≡ ok tt = ap (λ p. p.1) q in
        let to_s₁ = ap (λ p. p.0) q in
        Inserted-step t ts s s₁ (insert_served tx ev run_id tenant_id now ts s₁)
          (subst (λ z. user_run z ev.id t.trigger_id ≡ some (some run_id)) to_s₁
            (tx.inserted row s good))
          (λ e v x h.
            subst (λ z. user_run z e v ≡ some x) to_s₁ (tx.insert_keeps row s e v x good h))
          (λ e h. subst (λ z. is_published z e ≡ true) to_s₁ (tx.insert_keeps_published row s e h))
          (rest s₁)

    insert_served-Inserted :
        (ts : List BridgeTriggerEntry) (s : State)
        → Inserted s ts (insert_served tx ev run_id tenant_id now ts s)
    unfolding insert_served
    insert_served-Inserted [] s = (refl, tt, λ e t x h. h, λ e h. h)
    insert_served-Inserted (t ∷ ts) s =
        insert_one-Inserted t ts s (tx.insert_delivery (served_row tx ev run_id tenant_id now t) s)
          refl (insert_served-Inserted ts)

  -- What the body has done if it returned.
  abbrev Done :
      DomainEvent → List BridgeTriggerEntry → State → State × Outcome Error String → Type 0
  Done ev ts s (s', ok r) = (is_published s' ev.id ≡ true) × AllServed ev r ts s' × Keeps s s'
  Done ev ts s (s', err e) = Unit

  Inserted-Done :
      (ev : DomainEvent) (r : String) (tenant : Option String) (now : Instant)
      (ts : List BridgeTriggerEntry) (s s₂ : State) (p : State × Outcome Error String)
      → is_published s₂ ev.id ≡ true
      → Keeps s s₂
      → Inserted ev r tenant now s₂ ts p
      → Done ev ts s p
  Inserted-Done ev r tenant now ts s s₂ (s', err e) shown keeps h = tt
  Inserted-Done ev r tenant now ts s s₂ (s', ok r') shown keeps (same, served, later, pub_later) = (
    pub_later ev.id shown,
    subst (λ x. AllServed ev x ts s') (sym same) served,
    λ e t x h. later e t x (keeps e t x h),
  )

  module _ (ev : DomainEvent) (job_type : String) (input : Payload) (opts : PublishAndStartOptions)
      (tenant : Option String) (now : Instant) (ts : List BridgeTriggerEntry) (s : State) where
    -- The rest of the body behind the start.
    started-Done :
        (s₁ : State) (p : State × Outcome Error String)
        → tx.start job_type input (eager_options tx ev opts tenant) s₁ ≡ p
        → is_published s₁ ev.id ≡ true
        → Keeps s s₁
        → Done ev ts s (and_then tx p λ r s₂. insert_served tx ev r tenant now ts s₂)
    started-Done s₁ (s₂, err e) q shown keeps = tt
    started-Done s₁ (s₂, ok r) q shown keeps =
        let o = eager_options tx ev opts tenant in
        Inserted-Done ev r tenant now ts s s₂ (insert_served tx ev r tenant now ts s₂)
          (subst (λ z. is_published z ev.id ≡ true) (ap (λ p. p.0) q)
            (tx.start_keeps_published job_type input o s₁ ev.id shown))
          (λ e t x h.
            subst (λ z. user_run z e t ≡ some x) (ap (λ p. p.0) q)
              (tx.start_keeps job_type input o s₁ e t ∙ keeps e t x h))
          (insert_served-Inserted ev r tenant now ts s₂)

    published-Done :
        (p : State × Outcome Error (Unit {0}))
        → tx.publish ev s ≡ p
        → Done ev ts s (
            and_then tx p λ u s₁.
              and_then tx
                (tx.start job_type input (eager_options tx ev opts tenant) s₁)
                λ r s₂. insert_served tx ev r tenant now ts s₂)
    published-Done (s₁, err e) q = tt
    published-Done (s₁, ok u) q =
        started-Done s₁ (tx.start job_type input (eager_options tx ev opts tenant) s₁) refl
          (subst (λ z. is_published z ev.id ≡ true) (ap (λ p. p.0) q)
            (tx.published ev s (ap (λ p. p.1) q)))
          (λ e t x h.
            subst (λ z. user_run z e t ≡ some x) (ap (λ p. p.0) q) (tx.publish_keeps ev s e t ∙ h))

    flow_body-Done : Done ev ts s (flow_body tx ev job_type input opts tenant now ts s)
    unfolding flow_body
    flow_body-Done = published-Done (tx.publish ev s) refl

  -- What `publishAndStart` has done when it returns a run, or stops at the tenant's gate.
  abbrev pub Settled :
      DomainEvent → List BridgeTriggerEntry → State → State × FlowResult Error → Type 0
  Settled ev ts s (s', started r) =
      (is_published s' ev.id ≡ true) × AllServed ev r ts s' × Keeps s s'
  Settled ev ts s (s', tenant_missing) = s' ≡ s
  Settled ev ts s (s', threw e) = Unit

  transaction-Settled :
      (ev : DomainEvent) (ts : List BridgeTriggerEntry)
      (body : State → State × Outcome Error String) (s : State) (p q : State × Outcome Error String)
      → body s ≡ p
      → tx.transaction body s ≡ q
      → Done ev ts s p
      → Settled ev ts s (flow_result tx q)
  unfolding flow_result
  transaction-Settled ev ts body s (s', ok r) q run ended done =
      subst (λ x. Settled ev ts s (flow_result tx x)) (sym (tx.commit body s s' r run) ∙ ended) done
  transaction-Settled ev ts body s (s', err e) (s₁, ok r) run ended done =
      cc (ap (λ x. x.1) (sym ended), tx.rethrown body s s' e run)
  transaction-Settled ev ts body s (s', err e) (s₁, err e') run ended done = tt

  -- The exception that the publication or the start throws.
  abbrev pub Raises : DomainEvent → String → Payload → StartOptions → State → Error → Type 0
  Raises ev job_type input o s e =
      ((tx.publish ev s).1 ≡ err e)
      ⊎ (((tx.publish ev s).1 ≡ ok tt)
          × ((tx.start job_type input o (tx.publish ev s).0).1 ≡ err e))

  and_then-err :
      {A B : Type 0} (p : State × Outcome Error A) (f : A → State → State × Outcome Error B)
      (e : Error)
      → p.1 ≡ err e
      → (and_then tx p f).1 ≡ err e
  and_then-err (s, ok a) f e h = cc h
  and_then-err (s, err x) f e h = ap err (same_error x e h)
    where
      same_error : {A : Type 0} (x e : Error) → Path (Outcome Error A) (err x) (err e) → x ≡ e
      same_error x e h = cc h

  and_then-ok :
      {A B : Type 0} (p : State × Outcome Error A) (f : A → State → State × Outcome Error B) (a : A)
      → p.1 ≡ ok a
      → and_then tx p f ≡ f a p.0
  and_then-ok (s, ok a) f b h = ap (λ x. f x s) (outcome_ok a b h)
    where
      outcome_ok : {A : Type 0} (a b : A) → Path (Outcome Error A) (ok a) (ok b) → a ≡ b
      outcome_ok a b h = cc h
  and_then-ok (s, err x) f b h = cc h

  flow_body-Raises :
      (ev : DomainEvent) (job_type : String) (input : Payload) (opts : PublishAndStartOptions)
      (tenant : Option String) (now : Instant) (ts : List BridgeTriggerEntry) (s : State)
      (e : Error)
      → Raises ev job_type input (eager_options tx ev opts tenant) s e
      → (flow_body tx ev job_type input opts tenant now ts s).1 ≡ err e
  unfolding flow_body
  flow_body-Raises ev job_type input opts tenant now ts s e (inl h) =
      and_then-err (tx.publish ev s) _ e h
  flow_body-Raises ev job_type input opts tenant now ts s e (inr (h, k)) =
      ap (λ x. x.1) (and_then-ok (tx.publish ev s) _ tt h)
      ∙ and_then-err (tx.start job_type input (eager_options tx ev opts tenant) (tx.publish ev s).0)
          _ e k

  transaction-threw :
      (body : State → State × Outcome Error String) (s : State) (p q : State × Outcome Error String)
      (e : Error)
      → body s ≡ p
      → tx.transaction body s ≡ q
      → p.1 ≡ err e
      → (flow_result tx q).1 ≡ threw e
  unfolding flow_result
  transaction-threw body s (s', ok r) q e run ended h = cc h
  transaction-threw body s (s', err x) (s₁, ok r) e run ended h =
      cc (ap (λ x. x.1) (sym ended), tx.rethrown body s s' x run)
  transaction-threw body s (s', err x) (s₁, err y) e run ended h =
      cc (ap (λ x. x.1) (sym ended), tx.rethrown body s s' x run, h)

  -- `publishAndStart` that returns a run has published the event, has a delivery for that run under
  -- each trigger of the event for the job type, and has kept the deliveries that were there. Without
  -- the tenant id that it needs it stops and the state is as it was; with it, an exception of the
  -- publication or of the start is thrown.
  pub publish_and_start-Settled :
      (registry : BridgeRegistry) (multi_tenant : Bool) (ev : DomainEvent) (job_type : String)
      (input : Payload) (opts : PublishAndStartOptions) (now : Instant) (s : State)
      → let p = publish_and_start tx registry multi_tenant ev job_type input opts now s in
        let eager = eager_options tx ev opts (or_else opts.tenant_id none) in
        Settled ev (matching_triggers ev.type job_type registry) s p
        × (passes_tenant multi_tenant opts.tenant_id ≡ false → p ≡ (s, tenant_missing))
        × (passes_tenant multi_tenant opts.tenant_id ≡ true
            → (e : Error) → Raises ev job_type input eager s e
            → p.1 ≡ threw e)
  unfolding publish_and_start
  publish_and_start-Settled registry multi_tenant ev job_type input opts now s =
      let ts = matching_triggers ev.type job_type registry in
      let tenant = or_else opts.tenant_id none in
      let body = flow_body tx ev job_type input opts tenant now ts in
      elim (Bool-cases (passes_tenant multi_tenant opts.tenant_id)) [
        | inl passes ↦ rw passes (
          transaction-Settled ev ts body s (body s) (tx.transaction body s) refl refl
              (flow_body-Done ev job_type input opts tenant now ts s),
          λ h. cc h,
          λ h e raises.
              transaction-threw body s (body s) (tx.transaction body s) e refl refl
                (flow_body-Raises ev job_type input opts tenant now ts s e raises),
        )
        | inr stops ↦ rw stops (refl, λ h. refl, λ h. cc h)
      ]

-- If what `m` keeps all passes `h`, what fails `h` is no more than what fails `m`.
keep-not-length :
    (h m : BridgeTriggerEntry → Bool) (ts : List BridgeTriggerEntry)
    → All (λ t. h t ≡ true) (keep m ts)
    → length (keep (λ t. not (h t)) ts) ≤ length (keep (λ t. not (m t)) ts)
keep-not-length h m [] all = omega arith
keep-not-length h m (t ∷ ts) all = elim (Bool-cases (m t)) [
  | inl e ↦
      let (own, rest) : (h t ≡ true) × All (λ t. h t ≡ true) (keep m ts) = (rw e at all) in
      rw (own, e) (keep-not-length h m ts rest)
  | inr e ↦ elim (Bool-cases (h t)) [
    | inl q ↦ rw (q, e) (omega (arith, keep-not-length h m ts (rw e at all)))
    | inr q ↦ rw (q, e) (omega (arith, keep-not-length h m ts (rw e at all)))
  ]
]

abbrev pub holds_run : Option (Option String) → Bool
holds_run none = false
holds_run (some r) = true

-- If `publishAndStart` has returned a run, the drain of the event, in tables with the same
-- deliveries and with ids that are new, delivers at most as many as there are triggers of other job
-- types and counts the rest of the triggers as skipped; each delivery that was there is still the
-- one under its event and trigger, by its id.
pub process_event-publish_and_start :
    (flow : FlowTx) (tx : DrainTx) (registry : BridgeRegistry) (multi_tenant listen : Bool)
    (ev : DomainEvent) (job_type : String) (input : Payload) (opts : PublishAndStartOptions)
    (now : Instant) (s s' : flow.State) (run_id pool : String) (new_ids : NewIds) (hook : HookState)
    (tables : tx.Tables)
    → publish_and_start flow registry multi_tenant ev job_type input opts now s
      ≡ (s', started run_id)
    → ((e t : String) → tx.has_delivery tables e t ≡ holds_run (flow.user_run s' e t))
    → is_audit tx ev ≡ false
    → 1 ≤ length (lookup_triggers ev.type registry)
    → wrapper_pool (metadata_value "direction" ev) ≡ some pool
    → AreNew tx new_ids 0 tables
    → let r = (process_event tx registry listen ev new_ids hook tables).result in
      let ts = lookup_triggers ev.type registry in
      (r.delivered ≤ length (keep (λ t. not (t.job_type =ₛ job_type)) ts))
      × (r.delivered + r.dedup_skips ≡ length ts)
      × ((e t i : String)
          → tx.delivery_id tables e t ≡ some i
          → tx.delivery_id (process_event tx registry listen ev new_ids hook tables).tables e t
            ≡ some i)
unfolding matching_triggers
process_event-publish_and_start flow tx registry multi_tenant listen ev job_type input opts now s s'
      run_id pool new_ids hook tables ran same audit pos routed fresh =
    let ts = lookup_triggers ev.type registry in
    let settled : Settled flow ev (matching_triggers ev.type job_type registry) s
        (s', started run_id) =
      subst (Settled flow ev (matching_triggers ev.type job_type registry) s) ran
        (publish_and_start-Settled flow registry multi_tenant ev job_type input opts now s).0 in
    let (count, sum, delivered, kept, ids, bound) =
      process_event_lem tx registry listen ev new_ids hook tables pool audit pos routed fresh in
    let served =
      All-weaken (λ t e. same ev.id t.trigger_id ∙ ap holds_run e)
        (keep (λ t. t.job_type =ₛ job_type) ts) settled.1 in
    let fewer =
      keep-not-length (λ t. tx.has_delivery tables ev.id t.trigger_id) (λ t. t.job_type =ₛ job_type)
        ts served in
    (omega (arith, bound, fewer), sum ∙ count, ids)
