-- ===== src/Bridge/Drain/Replay.antt =====
-- The fan-out of `BridgeOutboxDrainHook` (bridge/bridge-outbox-drain-hook.ts) over replays of the
-- outbox and over deliveries that were written before.
use codegen_patterns.Base.{
  ℕ, suc, ◌+◌, ◌≤◌, String, Option, none, some, Bool, true, false, not, List, [], ◌∷◌, ◌≡◌, refl,
  sym, subst, inl, inr, arith, length, keep, All, Bool-cases,
}
use codegen_patterns.Events.Types.{DomainEvent, metadata_value}
use codegen_patterns.Bridge.Registry.{BridgeTriggerEntry, BridgeRegistry, lookup_triggers}
use codegen_patterns.Bridge.Drain.{
  DrainTx, LoopState, Drained, HookState, NewIds, fan_out, loop_start, wrapper_pool, is_audit,
  drain_audit, drain_routed, drain_triggers, without_fan_out, process_event,
}
use codegen_patterns.Bridge.Drain.Rounds.{
  AreNew, has_trigger, fan_out_one-taken, AreNew-suc, fan_out-Fanned,
}

module _ (tx : DrainTx) where
  open tx use {Tables, has_delivery, delivery_id, has_run, insert_run, delete_run, insert_delivery}

  module _ (listen : Bool) (event : DomainEvent) (pool : String) where
    abbrev Idle : LoopState tx → LoopState tx → Type 0
    Idle s s' = (s'.tables ≡ s.tables) × (s'.delivered ≡ s.delivered) × (s'.wakes ≡ s.wakes)

    -- A loop over triggers that all have deliveries counts them and does nothing else.
    fan_out-Idle :
        (new_ids : NewIds) (n : ℕ) (ts : List BridgeTriggerEntry) (s : LoopState tx)
        → AreNew tx new_ids n s.tables
        → All (λ t. has_trigger tx s.tables event t ≡ true) ts
        → Idle s (fan_out tx listen event pool new_ids n ts s)
    unfolding fan_out
    fan_out-Idle new_ids n [] s fresh all = (refl, refl, refl)
    fan_out-Idle new_ids n (t ∷ ts) s fresh all =
        subst (λ m. Idle s (fan_out tx listen event pool new_ids (suc n) ts m))
          (sym (
            fan_out_one-taken tx listen event pool (new_ids n) t s all.0
              (fresh.unused n (omega arith))))
          (fan_out-Idle new_ids (suc n) ts (record s { dedup_skips = suc s.dedup_skips })
            (AreNew-suc tx listen event pool new_ids n s.tables fresh) all.1)

  -- A drain that changes nothing and delivers nothing.
  abbrev pub IsIdle : Tables → Drained tx → Type 0
  IsIdle tables d = (d.tables ≡ tables) × (d.result.delivered ≡ 0) × (d.wakes ≡ [])

  module _ (listen : Bool) (event : DomainEvent) (new_ids new_ids' : NewIds)
      (hook hook' : HookState) where
    drain_routed-IsIdle :
        (ts : List BridgeTriggerEntry) (pool : Option String) (tables : Tables)
        → AreNew tx new_ids 0 tables
        → AreNew tx new_ids' 0 (drain_routed tx listen event new_ids ts pool hook tables).tables
        → IsIdle (drain_routed tx listen event new_ids ts pool hook tables).tables (
            drain_routed tx listen event new_ids' ts pool hook'
              (drain_routed tx listen event new_ids ts pool hook tables).tables)
    unfolding drain_routed without_fan_out
    drain_routed-IsIdle ts none tables fresh again = (refl, refl, refl)
    drain_routed-IsIdle ts (some pool) tables fresh again =
        let first = fan_out-Fanned tx listen event pool new_ids 0 ts (loop_start tx tables) fresh in
        let m = (fan_out tx listen event pool new_ids 0 ts (loop_start tx tables)).tables in
        fan_out-Idle listen event pool new_ids' 0 ts (loop_start tx m) again first.all_delivered

    drain_triggers-IsIdle :
        (ts : List BridgeTriggerEntry) (tables : Tables)
        → AreNew tx new_ids 0 tables
        → AreNew tx new_ids' 0 (drain_triggers tx listen event new_ids ts hook tables).tables
        → IsIdle (drain_triggers tx listen event new_ids ts hook tables).tables (
            drain_triggers tx listen event new_ids' ts hook'
              (drain_triggers tx listen event new_ids ts hook tables).tables)
    unfolding drain_triggers without_fan_out
    drain_triggers-IsIdle [] tables fresh again = (refl, refl, refl)
    drain_triggers-IsIdle (t ∷ ts) tables fresh again =
        drain_routed-IsIdle (t ∷ ts) (wrapper_pool (metadata_value "direction" event)) tables fresh
          again

    drain_audit-IsIdle :
        (ts : List BridgeTriggerEntry) (tables : Tables)
        → IsIdle
            (drain_audit tx event ts hook tables).tables
            (drain_audit tx event ts hook' (drain_audit tx event ts hook tables).tables)
    unfolding drain_audit without_fan_out
    drain_audit-IsIdle [] tables = (refl, refl, refl)
    drain_audit-IsIdle (t ∷ ts) tables = (refl, refl, refl)

    -- If the ids that each run of the hook draws are new, a replay of an event leaves the tables as the
    -- first run left them, delivers nothing and wakes no pool.
    pub process_event_replay :
        (registry : BridgeRegistry) (tables : Tables)
        → AreNew tx new_ids 0 tables
        → AreNew tx new_ids' 0 (process_event tx registry listen event new_ids hook tables).tables
        → IsIdle (process_event tx registry listen event new_ids hook tables).tables (
            process_event tx registry listen event new_ids' hook'
              (process_event tx registry listen event new_ids hook tables).tables)
    unfolding process_event
    process_event_replay registry tables fresh again = elim (Bool-cases (is_audit tx event)) [
      | inl e ↦ rw e (drain_audit-IsIdle (lookup_triggers event.type registry) tables)
      | inr e ↦
          rw e (
            drain_triggers-IsIdle (lookup_triggers event.type registry) tables fresh
              (rw e at again))
    ]

  drain_routed-eq :
      (registry : BridgeRegistry) (listen : Bool) (event : DomainEvent) (new_ids : NewIds)
      (hook : HookState) (tables : Tables) (ts : List BridgeTriggerEntry) (pool : String)
      → is_audit tx event ≡ false
      → lookup_triggers event.type registry ≡ ts
      → 1 ≤ length ts
      → wrapper_pool (metadata_value "direction" event) ≡ some pool
      → process_event tx registry listen event new_ids hook tables
        ≡ drain_routed tx listen event new_ids ts (some pool) hook tables
  unfolding process_event
  drain_routed-eq registry listen event new_ids hook tables [] pool audit found pos routed =
      absurd (omega arith)
  drain_routed-eq registry listen event new_ids hook tables (t ∷ ts) pool audit found pos routed =
      unfold drain_triggers in rw (audit, found, drain_triggers, routed) refl

  -- A domain event with a known direction that has triggers: if the ids drawn are new, each trigger is
  -- counted as delivered or as skipped, each has a delivery afterwards, every earlier delivery is kept
  -- with its id, though an insert is promised nothing when the run that it refers to is not there,
  -- and there are at most as many new deliveries as triggers that had none.
  pub process_event_lem :
      (registry : BridgeRegistry) (listen : Bool) (event : DomainEvent) (new_ids : NewIds)
      (hook : HookState) (tables : Tables) (pool : String)
      → is_audit tx event ≡ false
      → 1 ≤ length (lookup_triggers event.type registry)
      → wrapper_pool (metadata_value "direction" event) ≡ some pool
      → AreNew tx new_ids 0 tables
      → let d = process_event tx registry listen event new_ids hook tables in
        let ts = lookup_triggers event.type registry in
        (d.result.trigger_count ≡ length ts)
        × (d.result.delivered + d.result.dedup_skips ≡ d.result.trigger_count)
        × All (λ t. has_trigger tx d.tables event t ≡ true) ts
        × ((e u : String) → has_delivery tables e u ≡ true → has_delivery d.tables e u ≡ true)
        × ((e u i : String) → delivery_id tables e u ≡ some i → delivery_id d.tables e u ≡ some i)
        × (d.result.delivered ≤ length (keep (λ t. not (has_trigger tx tables event t)) ts))
  process_event_lem registry listen event new_ids hook tables pool audit pos routed fresh =
      let ts = lookup_triggers event.type registry in
      let f = fan_out-Fanned tx listen event pool new_ids 0 ts (loop_start tx tables) fresh in
      rw (drain_routed-eq registry listen event new_ids hook tables ts pool audit refl pos routed) (
        unfold drain_routed in
        (
          refl,
          omega (arith, f.counted),
          f.all_delivered,
          f.keeps,
          f.keeps_id,
          omega (arith, f.bounded),
        ))
