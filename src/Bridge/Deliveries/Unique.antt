-- ===== src/Bridge/Deliveries/Unique.antt =====
-- The keys of the ledger of `MemoryBridgeDeliveryRepo` (bridge/bridge-delivery.memory-backend.ts), over
-- every sequence of its operations.
use codegen_patterns.Base.{
  ℕ, String, Option, none, some, [], ◌∷◌, ◌=ₛ◌, ◌≡◌, ◌≢◌, ◌⊎◌, refl, sym, ◌∙◌, ap, inl, inr,
  some-eq, Option-cases, Bool-cases,
}
use codegen_patterns.Base.Dict.{get, set, get-set_self, get-set_ne, get-set_cases}
use codegen_patterns.Base.Dict.Unique.{IsMap, set-IsMap}
use codegen_patterns.Bridge.Deliveries.{
  BridgeDeliveryRecord, BridgeDeliveryInsert, Deliveries, ok, err, unique_constraint, key,
  full_record, insert_delivery, find_delivery, find_delivery_by_id, write_first, transition,
  mark_delivered, mark_skipped, mark_failed,
}

pub insert_delivery-absent :
    (new_id : String) (now : ℕ) (row : BridgeDeliveryInsert) (ds : Deliveries)
    → get (key row.event_id row.trigger_id) ds ≡ none
    → insert_delivery new_id now row ds
      ≡ (set (key row.event_id row.trigger_id) (full_record new_id now row) ds, ok tt)
insert_delivery-absent new_id now row ds e = unfold insert_delivery in rw (e, insert_delivery) refl

pub insert_delivery-present :
    (new_id : String) (now : ℕ) (row : BridgeDeliveryInsert) (ds : Deliveries)
    (d : BridgeDeliveryRecord)
    → get (key row.event_id row.trigger_id) ds ≡ some d
    → insert_delivery new_id now row ds ≡ (ds, err (unique_constraint row.event_id row.trigger_id))
insert_delivery-present new_id now row ds d e =
    unfold insert_delivery in rw (e, insert_delivery) refl

-- The map has no key twice, and each record stands under the key of its event and its trigger.
pub record IsLedger (ds : Deliveries) : Type 0 where
  pub unique : IsMap ds
  pub own_key :
      (k : String) (d : BridgeDeliveryRecord) → get k ds ≡ some d → key d.event_id d.trigger_id ≡ k

full_record-key :
    (new_id : String) (now : ℕ) (row : BridgeDeliveryInsert) (d : BridgeDeliveryRecord) (k : String)
    → key row.event_id row.trigger_id ≡ k
    → full_record new_id now row ≡ d
    → key d.event_id d.trigger_id ≡ k
unfolding full_record
full_record-key new_id now row d k same q = sym (ap (λ x. key x.event_id x.trigger_id) q) ∙ same

insert_delivery-IsLedger :
    (new_id : String) (now : ℕ) (row : BridgeDeliveryInsert) (ds : Deliveries)
    → IsLedger ds
    → IsLedger (insert_delivery new_id now row ds).0
insert_delivery-IsLedger new_id now row ds h =
    elim (Option-cases (get (key row.event_id row.trigger_id) ds)) [
      | inl e ↦ rw (insert_delivery-absent new_id now row ds e) (record {
        unique =
            set-IsMap (key row.event_id row.trigger_id) (full_record new_id now row) ds h.unique;
        own_key = λ k d f.
            elim (get-set_cases k (key row.event_id row.trigger_id) (full_record new_id now row) d
              ds f) [
                | inl (same, q) ↦ full_record-key new_id now row d k same q
                | inr (_, old) ↦ h.own_key k d old
              ];
      })
      | inr (d, e) ↦ rw (insert_delivery-present new_id now row ds d e) h
    ]

-- What a transition may not change.
abbrev KeepsKey : (BridgeDeliveryRecord → BridgeDeliveryRecord) → Type 0
KeepsKey f =
    (d : BridgeDeliveryRecord) → ((f d).event_id ≡ d.event_id) × ((f d).trigger_id ≡ d.trigger_id)

module _ (id : String) (f : BridgeDeliveryRecord → BridgeDeliveryRecord) where
  get-write_first :
      (k : String) (ds : Deliveries)
      → (get k (write_first id f ds) ≡ get k ds)
        ⊎ ((d : BridgeDeliveryRecord) × (get k ds ≡ some d)
            × (get k (write_first id f ds) ≡ some (f d)))
  unfolding get write_first
  get-write_first k [] = inl refl
  get-write_first k ((j, d) ∷ ds) = elim (Bool-cases (d.id =ₛ id)) [
    | inl e ↦ elim (Bool-cases (j =ₛ k)) [
      | inl q ↦ rw (e, q) (inr (d, refl, refl))
      | inr q ↦ rw (e, q) (inl refl)
    ]
    | inr e ↦ elim (Bool-cases (j =ₛ k)) [
      | inl q ↦ rw (e, q) (inl refl)
      | inr q ↦ rw (e, q) (get-write_first k ds)
    ]
  ]

  write_first-absent :
      (k : String) (ds : Deliveries) → get k ds ≡ none → get k (write_first id f ds) ≡ none
  write_first-absent k ds e = elim (get-write_first k ds) [ inl q ↦ q ∙ e | inr (d, q, _) ↦ cc ]

  write_first-IsMap : (ds : Deliveries) → IsMap ds → IsMap (write_first id f ds)
  unfolding write_first
  write_first-IsMap [] h = h
  write_first-IsMap ((j, d) ∷ ds) h = elim (Bool-cases (d.id =ₛ id)) [
    | inl e ↦ rw e h
    | inr e ↦ rw e (write_first-absent j ds h.0, write_first-IsMap ds h.1)
  ]

  transition-IsLedger :
      KeepsKey f → (ds : Deliveries) → IsLedger ds → IsLedger (transition id f ds).0
  transition-IsLedger keeps ds h = go (find_delivery_by_id id ds) refl
    where
      go :
          (o : Option BridgeDeliveryRecord)
          → find_delivery_by_id id ds ≡ o
          → IsLedger (transition id f ds).0
      go none e = unfold transition in rw (e, transition) h
      go (some d) e =
          unfold transition in
          rw (e, transition)
            (record {
              unique = write_first-IsMap ds h.unique;
              own_key = λ k x found. elim (get-write_first k ds) [
                | inl q ↦ h.own_key k x (sym q ∙ found)
                | inr (y, old, new) ↦
                    let same : f y ≡ x = some-eq (sym new ∙ found) in
                    sym (ap (λ z. key z.event_id z.trigger_id) same)
                    ∙ ap (λ t. key t (f y).trigger_id) (keeps y).0
                    ∙ ap (λ t. key y.event_id t) (keeps y).1
                    ∙ h.own_key k y old
              ];
            })

-- The operations that write the ledger.
pub data Move (ds : Deliveries) : Deliveries → Type 0 where
  inserted :
      (new_id : String) (now : ℕ) (row : BridgeDeliveryInsert)
      → Move ds (insert_delivery new_id now row ds).0
  delivered_one :
      (id user_run_id : String) (now : ℕ) → Move ds (mark_delivered id user_run_id now ds).0
  skipped_one : (id reason : String) → Move ds (mark_skipped id reason ds).0
  failed_one : (id error : String) → Move ds (mark_failed id error ds).0

pub data Moves : Deliveries → Type 0 where
  start : Moves []
  next : {ds es : Deliveries} → Moves ds → Move ds es → Moves es

Move-IsLedger : {ds es : Deliveries} → Move ds es → IsLedger ds → IsLedger es
unfolding mark_delivered mark_skipped mark_failed
Move-IsLedger {ds} (inserted new_id now row) h = insert_delivery-IsLedger new_id now row ds h
Move-IsLedger {ds} (delivered_one id user_run_id now) h =
    transition-IsLedger id _ (λ d. (refl, refl)) ds h
Move-IsLedger {ds} (skipped_one id reason) h = transition-IsLedger id _ (λ d. (refl, refl)) ds h
Move-IsLedger {ds} (failed_one id error) h = transition-IsLedger id _ (λ d. (refl, refl)) ds h

-- In every ledger that the repository reaches from the empty one, no key is stored twice and each
-- record stands under the key of its own event and trigger.
pub Moves-IsLedger : {ds : Deliveries} → Moves ds → IsLedger ds
unfolding get
Moves-IsLedger start = record { unique = tt; own_key = λ k d e. cc }
Moves-IsLedger (next m step) = Move-IsLedger step (Moves-IsLedger m)

-- `insertDelivery` for an event and a trigger whose key is free stores the row with its defaults, and
-- a second insert for them throws and changes nothing; where the key is taken the insert itself throws
-- and changes nothing. What is found under other keys stays.
pub insert_delivery_lem :
    (new_id : String) (now : ℕ) (row : BridgeDeliveryInsert) (ds : Deliveries)
    → (find_delivery row.event_id row.trigger_id ds ≡ none
        → ((insert_delivery new_id now row ds).1 ≡ ok tt)
          × (find_delivery row.event_id row.trigger_id (insert_delivery new_id now row ds).0
              ≡ some (full_record new_id now row))
          × ((id' : String) (later : ℕ) (again : BridgeDeliveryInsert)
              → again.event_id ≡ row.event_id
              → again.trigger_id ≡ row.trigger_id
              → insert_delivery id' later again (insert_delivery new_id now row ds).0 ≡ (
                (insert_delivery new_id now row ds).0,
                err (unique_constraint again.event_id again.trigger_id),
              ))
          × ((e t : String)
              → key row.event_id row.trigger_id ≢ key e t
              → find_delivery e t (insert_delivery new_id now row ds).0 ≡ find_delivery e t ds))
      × ((d : BridgeDeliveryRecord)
          → find_delivery row.event_id row.trigger_id ds ≡ some d
          → insert_delivery new_id now row ds
            ≡ (ds, err (unique_constraint row.event_id row.trigger_id)))
unfolding find_delivery
insert_delivery_lem new_id now row ds =
    let k = key row.event_id row.trigger_id in
    let stored = full_record new_id now row in
    (
      λ free. rw (insert_delivery-absent new_id now row ds free) (
        refl,
        get-set_self k stored ds,
        λ id' later again e t. insert_delivery-present id' later again (set k stored ds) stored (
            ap (λ x. get (key x again.trigger_id) (set k stored ds)) e
            ∙ ap (λ x. get (key row.event_id x) (set k stored ds)) t
            ∙ get-set_self k stored ds),
        λ e t other. get-set_ne (key e t) k stored ds other,
      ),
      λ d taken. insert_delivery-present new_id now row ds d taken,
    )
