-- ===== src/Bridge/Drain/Rounds.antt =====
-- The loop of `BridgeOutboxDrainHook.processEvent` (bridge/bridge-outbox-drain-hook.ts) over the
-- triggers of an event: what it counts, writes and keeps.
use codegen_patterns.Base.{
  ℕ, suc, ◌+◌, ◌≤◌, ◌<◌, String, some, Bool, true, false, not, List, [], ◌∷◌, ◌=ₛ◌, ◌≡◌, refl, sym,
  subst, ◌∙◌, ap, inl, inr, arith, length, keep, All, Bool-cases,
}
use codegen_patterns.Events.Types.{DomainEvent}
use codegen_patterns.Bridge.Registry.{BridgeTriggerEntry}
use codegen_patterns.Bridge.Drain.{
  DrainTx, LoopState, NewIds, wrapper_run, pending_delivery, finish_round, fan_out_one, fan_out,
}

module _ (tx : DrainTx) where
  open tx use {Tables, has_delivery, delivery_id, has_run, insert_run, delete_run, insert_delivery}

  -- The ids of the runs from a round on are not in use, and each is drawn once.
  pub record AreNew (new_ids : NewIds) (round : ℕ) (tables : Tables) : Type 0 where
    pub unused : (i : ℕ) → round ≤ i → has_run tables (new_ids i).1 ≡ false
    pub distinct : (i j : ℕ) → i < j → ((new_ids i).1 =ₛ (new_ids j).1) ≡ false

  abbrev pub has_trigger : Tables → DomainEvent → BridgeTriggerEntry → Bool
  has_trigger tables event t = has_delivery tables event.id t.trigger_id

  module _ (listen : Bool) (event : DomainEvent) (pool : String) where
    pub fan_out_one-taken :
        (ids : String × String) (t : BridgeTriggerEntry) (s : LoopState tx)
        → has_trigger s.tables event t ≡ true
        → has_run s.tables ids.1 ≡ false
        → fan_out_one tx listen event pool ids t s ≡ record s { dedup_skips = suc s.dedup_skips }
    unfolding fan_out_one
    fan_out_one-taken ids t s taken unused =
        let run = wrapper_run tx event pool ids in
        let row = pending_delivery tx event t ids in
        ap (λ r. finish_round tx listen pool ids.1 r s)
          (tx.conflict row (insert_run run s.tables)
            (tx.delivery_of_insert_run run s.tables event.id t.trigger_id ∙ taken))
        ∙ ap (λ x. record s { tables = x; dedup_skips = suc s.dedup_skips })
            (tx.delete_inserted run s.tables unused)

    -- The tables after a round whose trigger had no delivery.
    abbrev delivered_tables : String × String → BridgeTriggerEntry → Tables → Tables
    delivered_tables ids t tables =
        (insert_delivery (pending_delivery tx event t ids)
          (insert_run (wrapper_run tx event pool ids) tables)).0

    finish_round-inserted :
        (ids : String × String) (r : Tables × Bool) (s : LoopState tx)
        → r.1 ≡ true
        → ((finish_round tx listen pool ids.1 r s).tables ≡ r.0)
          × ((finish_round tx listen pool ids.1 r s).delivered ≡ suc s.delivered)
          × ((finish_round tx listen pool ids.1 r s).dedup_skips ≡ s.dedup_skips)
    unfolding finish_round
    finish_round-inserted ids (tables, true) s e = (refl, refl, refl)
    finish_round-inserted ids (tables, false) s e = cc

    -- The foreign key holds in each round, since the wrapper run is inserted first.
    run_is_there :
        (ids : String × String) (t : BridgeTriggerEntry) (tables : Tables)
        → has_run
            (insert_run (wrapper_run tx event pool ids) tables)
            (pending_delivery tx event t ids).wrapper_run_id
          ≡ true
    unfolding wrapper_run pending_delivery
    run_is_there ids t tables = tx.run_of_insert_run (wrapper_run tx event pool ids) tables

    fan_out_one-free :
        (ids : String × String) (t : BridgeTriggerEntry) (s : LoopState tx)
        → has_trigger s.tables event t ≡ false
        → ((fan_out_one tx listen event pool ids t s).tables ≡ delivered_tables ids t s.tables)
          × ((fan_out_one tx listen event pool ids t s).delivered ≡ suc s.delivered)
          × ((fan_out_one tx listen event pool ids t s).dedup_skips ≡ s.dedup_skips)
    unfolding fan_out_one
    fan_out_one-free ids t s free =
        let run = wrapper_run tx event pool ids in
        let row = pending_delivery tx event t ids in
        finish_round-inserted ids (insert_delivery row (insert_run run s.tables)) s (
          tx.inserted row (insert_run run s.tables) (run_is_there ids t s.tables)
            (tx.delivery_of_insert_run run s.tables event.id t.trigger_id ∙ free))

    delivered_tables-keeps :
        (ids : String × String) (t : BridgeTriggerEntry) (tables : Tables) (e u : String)
        → has_delivery tables e u ≡ true
        → has_delivery (delivered_tables ids t tables) e u ≡ true
    delivered_tables-keeps ids t tables e u h =
        tx.keeps_delivery (pending_delivery tx event t ids)
          (insert_run (wrapper_run tx event pool ids) tables) e u (run_is_there ids t tables)
          (tx.delivery_of_insert_run (wrapper_run tx event pool ids) tables e u ∙ h)

    delivered_tables-keeps_id :
        (ids : String × String) (t : BridgeTriggerEntry) (tables : Tables) (e u i : String)
        → delivery_id tables e u ≡ some i
        → delivery_id (delivered_tables ids t tables) e u ≡ some i
    delivered_tables-keeps_id ids t tables e u i h =
        tx.keeps_id (pending_delivery tx event t ids)
          (insert_run (wrapper_run tx event pool ids) tables) e u i (run_is_there ids t tables)
          (tx.id_of_insert_run (wrapper_run tx event pool ids) tables e u ∙ h)

    delivered_tables-AreNew :
        (new_ids : NewIds) (n : ℕ) (t : BridgeTriggerEntry) (tables : Tables)
        → AreNew new_ids n tables
        → AreNew new_ids (suc n) (delivered_tables (new_ids n) t tables)
    unfolding wrapper_run
    delivered_tables-AreNew new_ids n t tables h = record {
      unused = λ i le.
          let run = wrapper_run tx event pool (new_ids n) in
          tx.run_of_insert_delivery (pending_delivery tx event t (new_ids n))
            (insert_run run tables) (new_ids i).1 (run_is_there (new_ids n) t tables)
          ∙ tx.other_run run tables (new_ids i).1 (h.distinct n i (omega arith))
          ∙ h.unused i (omega arith);
      distinct = h.distinct;
    }

    pub AreNew-suc :
        (new_ids : NewIds) (n : ℕ) (tables : Tables)
        → AreNew new_ids n tables
        → AreNew new_ids (suc n) tables
    AreNew-suc new_ids n tables h = record {
      unused = λ i le. h.unused i (omega arith);
      distinct = h.distinct;
    }

    -- The triggers that have no delivery for the event.
    abbrev pub open_triggers : Tables → List BridgeTriggerEntry → List BridgeTriggerEntry
    open_triggers tables ts = keep (λ t. not (has_trigger tables event t)) ts

    -- What a loop over `ts` from `s` to `s'` has done.
    pub record Fanned (s s' : LoopState tx) (ts : List BridgeTriggerEntry) : Type 0 where
      pub counted : s'.delivered + s'.dedup_skips ≡ s.delivered + s.dedup_skips + length ts
      pub all_delivered : All (λ t. has_trigger s'.tables event t ≡ true) ts
      pub keeps :
          (e u : String) → has_delivery s.tables e u ≡ true → has_delivery s'.tables e u ≡ true
      pub keeps_id :
          (e u i : String) → delivery_id s.tables e u ≡ some i → delivery_id s'.tables e u ≡ some i
      pub bounded : s'.delivered ≤ s.delivered + length (open_triggers s.tables ts)

    Fanned-taken :
        (ids : String × String) (t : BridgeTriggerEntry) (ts : List BridgeTriggerEntry)
        (s s' : LoopState tx)
        → has_trigger s.tables event t ≡ true
        → Fanned (record s { dedup_skips = suc s.dedup_skips }) s' ts
        → Fanned s s' (t ∷ ts)
    Fanned-taken ids t ts s s' taken h = record {
      counted = omega (arith, h.counted);
      all_delivered = (h.keeps event.id t.trigger_id taken, h.all_delivered);
      keeps = h.keeps;
      keeps_id = h.keeps_id;
      bounded = rw taken h.bounded;
    }

    length-keep-le :
        (p q : BridgeTriggerEntry → Bool) (ts : List BridgeTriggerEntry)
        → ((t : BridgeTriggerEntry) → p t ≡ true → q t ≡ true)
        → length (keep p ts) ≤ length (keep q ts)
    length-keep-le p q [] h = omega arith
    length-keep-le p q (t ∷ ts) h = ground (arith, h t, length-keep-le p q ts h)

    Fanned-free :
        (ids : String × String) (t : BridgeTriggerEntry) (ts : List BridgeTriggerEntry)
        (s m s' : LoopState tx)
        → has_trigger s.tables event t ≡ false
        → m.tables ≡ delivered_tables ids t s.tables
        → m.delivered ≡ suc s.delivered
        → m.dedup_skips ≡ s.dedup_skips
        → Fanned m s' ts
        → Fanned s s' (t ∷ ts)
    unfolding pending_delivery
    Fanned-free ids t ts s m s' free tables delivered skips h =
        let kept : (e u : String)
            → has_delivery s.tables e u ≡ true
            → has_delivery m.tables e u ≡ true =
          λ e u x.
            ap (λ y. has_delivery y e u) tables ∙ delivered_tables-keeps ids t s.tables e u x in
        let own : has_trigger m.tables event t ≡ true =
          ap (λ y. has_trigger y event t) tables
          ∙ tx.own_delivery (pending_delivery tx event t ids)
              (insert_run (wrapper_run tx event pool ids) s.tables) (run_is_there ids t s.tables) in
        let fewer : length (open_triggers m.tables ts) ≤ length (open_triggers s.tables ts) =
          length-keep-le _ _ ts (open_before kept) in
        record {
          counted = omega (arith, h.counted);
          all_delivered = (h.keeps event.id t.trigger_id own, h.all_delivered);
          keeps = λ e u x. h.keeps e u (kept e u x);
          keeps_id = λ e u i x. h.keeps_id e u i (
              ap (λ y. delivery_id y e u) tables
              ∙ delivered_tables-keeps_id ids t s.tables e u i x);
          bounded = rw free (omega (arith, h.bounded));
        }
      where
        open_before :
            ((e u : String) → has_delivery s.tables e u ≡ true → has_delivery m.tables e u ≡ true)
            → (x : BridgeTriggerEntry) → not (has_trigger m.tables event x) ≡ true
            → not (has_trigger s.tables event x) ≡ true
        open_before kept x n = elim (Bool-cases (has_trigger s.tables event x)) [
          | inl y ↦ cc (rw (kept event.id x.trigger_id y) at n)
          | inr y ↦ rw y refl
        ]

    pub fan_out-Fanned :
        (new_ids : NewIds) (n : ℕ) (ts : List BridgeTriggerEntry) (s : LoopState tx)
        → AreNew new_ids n s.tables
        → Fanned s (fan_out tx listen event pool new_ids n ts s) ts
    unfolding fan_out
    fan_out-Fanned new_ids n [] s fresh = record {
      counted = omega arith;
      all_delivered = tt;
      keeps = λ e u x. x;
      keeps_id = λ e u i x. x;
      bounded = omega arith;
    }
    fan_out-Fanned new_ids n (t ∷ ts) s fresh =
        let s' = fan_out tx listen event pool new_ids n (t ∷ ts) s in
        elim (Bool-cases (has_trigger s.tables event t)) [
          | inl taken ↦
              let one = fan_out_one-taken (new_ids n) t s taken (fresh.unused n (omega arith)) in
              Fanned-taken (new_ids n) t ts s s' taken (
                subst
                  (λ m.
                    Fanned (record s { dedup_skips = suc s.dedup_skips })
                      (fan_out tx listen event pool new_ids (suc n) ts m) ts)
                  (sym one)
                  (fan_out-Fanned new_ids (suc n) ts (record s { dedup_skips = suc s.dedup_skips })
                    (AreNew-suc new_ids n s.tables fresh)))
          | inr free ↦
              let m = fan_out_one tx listen event pool (new_ids n) t s in
              let (tables, delivered, skips) = fan_out_one-free (new_ids n) t s free in
              Fanned-free (new_ids n) t ts s m s' free tables delivered skips (
                fan_out-Fanned new_ids (suc n) ts m (
                  subst (AreNew new_ids (suc n)) (sym tables)
                    (delivered_tables-AreNew new_ids n t s.tables fresh)))
        ]
