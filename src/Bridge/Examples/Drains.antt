-- ===== src/Bridge/Examples/Drains.antt =====
-- The drain's theorems at a concrete event that two triggers wait for.
use codegen_patterns.Base.{
  ℕ, zero, suc, ◌+◌, ◌≤◌, ◌<◌, String, none, some, true, false, not, [], ◌∷◌, ◌=ₛ◌, ◌≡◌, refl, sym,
  ◌∙◌, ap, arith, inl, inr, length, keep, All, Bool-cases, eq_iff,
}
use codegen_patterns.Base.Dict.{get, set}
use codegen_patterns.Bridge.Deliveries.{insert_delivery, find_delivery}
use codegen_patterns.Events.Types.{DomainEvent}
use codegen_patterns.Bridge.Registry.{BridgeTriggerEntry, BridgeRegistry, lookup_triggers}
use codegen_patterns.Bridge.Drain.{
  DrainTx, HookState, NewIds, is_audit, wrapper_pool, process_event, fan_out,
}
use codegen_patterns.Bridge.Drain.Rounds.{AreNew, has_trigger}
use codegen_patterns.Bridge.Drain.Replay.{IsIdle, process_event_replay, process_event_lem}
use codegen_patterns.Bridge.Drain.Tables.{MemoryTables, memory_tx}
use text.Mathlib.TextPositions.{len-append}
use Prim.Native.String.{◌++◌, len}

-- Texts of growing length.
unfoldable pub tag : ℕ → String
tag zero = "w"
tag (suc n) = "x" ++ tag n

len-tag : (n : ℕ) → len (tag n) ≡ suc n
unfolding tag
len-tag zero = refl
len-tag (suc n) = len-append "x" (tag n) ∙ omega (arith, len-tag n)

tag-distinct : (i j : ℕ) → i < j → (tag i =ₛ tag j) ≡ false
tag-distinct i j lt = elim (Bool-cases (tag i =ₛ tag j)) [
  | inl e ↦
      let q : suc i ≡ suc j = sym (len-tag i) ∙ ap len ((eq_iff (tag i) (tag j)).0 e) ∙ len-tag j in
      absurd (omega (arith, q))
  | inr e ↦ e
]

abbrev pub ids_from : ℕ → NewIds
ids_from k i = (tag (k + i), tag (k + i))

pub ids_from-distinct : (k i j : ℕ) → i < j → ((ids_from k i).1 =ₛ (ids_from k j).1) ≡ false
ids_from-distinct k i j lt = tag-distinct (k + i) (k + j) (omega arith)

abbrev pub sync : BridgeTriggerEntry
sync = record { trigger_id = "sync#0"; job_type = "sync"; map = λ e. e.payload; when = none }

abbrev notify : BridgeTriggerEntry
notify = record { trigger_id = "notify#0"; job_type = "notify"; map = λ e. e.payload; when = none }

abbrev pub registry : BridgeRegistry
registry = ("deal.closed", sync ∷ notify ∷ []) ∷ []

abbrev pub closed : DomainEvent
closed = record {
  id = "e1";
  type = "deal.closed";
  aggregate_id = "d1";
  aggregate_type = "deal";
  payload = [];
  occurred_at = 80;
  metadata = ("direction", some "inbound") ∷ ("tenantId", some "t") ∷ [];
}

abbrev pub new_hook : HookState
new_hook = record { warned_null_direction = false; warned_audit_types = [] }

abbrev pub tx : DrainTx
tx = memory_tx 100

abbrev empty : MemoryTables
empty = ([], [])

empty-AreNew : AreNew tx (ids_from 0) 0 empty
unfolding get
empty-AreNew = record { unused = λ i le. refl; distinct = ids_from-distinct 0 }

process_event_lem_example :
    let d = process_event tx registry true closed (ids_from 0) new_hook empty in
    let ts = lookup_triggers "deal.closed" registry in
    (d.result.trigger_count ≡ length ts)
    × (d.result.delivered + d.result.dedup_skips ≡ d.result.trigger_count)
    × All (λ t. has_trigger tx d.tables closed t ≡ true) ts
    × ((e u : String) → tx.has_delivery empty e u ≡ true → tx.has_delivery d.tables e u ≡ true)
    × ((e u i : String) → tx.delivery_id empty e u ≡ some i → tx.delivery_id d.tables e u ≡ some i)
    × (d.result.delivered ≤ length (keep (λ t. not (has_trigger tx empty closed t)) ts))
unfolding is_audit wrapper_pool lookup_triggers get
process_event_lem_example =
    process_event_lem tx registry true closed (ids_from 0) new_hook empty "events_inbound" refl
      (omega arith) refl empty-AreNew

abbrev once : MemoryTables
once = (process_event tx registry true closed (ids_from 0) new_hook empty).tables

-- Two runs of the hook draw from different parts of the sequence.
once-AreNew : AreNew tx (ids_from 9) 0 once
unfolding process_event is_audit wrapper_pool lookup_triggers get set insert_delivery find_delivery
    fan_out tag
once-AreNew = record {
  unused =
      λ i le. rw (tag-distinct 0 (9 + i) (omega arith), tag-distinct 1 (9 + i) (omega arith)) refl;
  distinct = ids_from-distinct 9;
}

process_event_replay_example :
    IsIdle tx (process_event tx registry true closed (ids_from 0) new_hook empty).tables (
      process_event tx registry true closed
        (ids_from 9)
        new_hook
        (process_event tx registry true closed (ids_from 0) new_hook empty).tables)
process_event_replay_example =
    process_event_replay tx true closed (ids_from 0) (ids_from 9) new_hook new_hook registry empty
      empty-AreNew once-AreNew
