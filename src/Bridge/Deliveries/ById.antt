-- ===== src/Bridge/Deliveries/ById.antt =====
-- The lookup by primary key in `MemoryBridgeDeliveryRepo` (bridge/bridge-delivery.memory-backend.ts)
-- after a transition of the row.
use codegen_patterns.Base.{
  String, some, [], ◌∷◌, ◌=ₛ◌, ◌≡◌, refl, sym, ◌∙◌, ap, inl, inr, some-eq, Bool-cases, eq_iff,
}
use codegen_patterns.Bridge.Deliveries.{
  BridgeDeliveryRecord, Deliveries, ok, find_delivery_by_id, write_first, transition,
}

pub find_delivery_by_id-id :
    (id : String) (ds : Deliveries) (d : BridgeDeliveryRecord)
    → find_delivery_by_id id ds ≡ some d
    → d.id ≡ id
unfolding find_delivery_by_id
find_delivery_by_id-id id [] d h = cc
find_delivery_by_id-id id ((k, x) ∷ ds) d h = elim (Bool-cases (x.id =ₛ id)) [
  | inl e ↦ sym (ap (λ y. y.id) (some-eq (rw e at h))) ∙ (eq_iff x.id id).0 e
  | inr e ↦ find_delivery_by_id-id id ds d (rw e at h)
]

module _ (id : String) (f : BridgeDeliveryRecord → BridgeDeliveryRecord) where
  find-write_first :
      ((d : BridgeDeliveryRecord) → (f d).id ≡ d.id)
      → (ds : Deliveries) (d : BridgeDeliveryRecord) → find_delivery_by_id id ds ≡ some d
      → find_delivery_by_id id (write_first id f ds) ≡ some (f d)
  unfolding find_delivery_by_id write_first
  find-write_first keeps [] d h = cc
  find-write_first keeps ((k, x) ∷ ds) d h = elim (Bool-cases (x.id =ₛ id)) [
    | inl e ↦ rw (e, ap (λ i. i =ₛ id) (keeps x), e) (ap (λ y. some (f y)) (some-eq (rw e at h)))
    | inr e ↦ rw (e, e) (find-write_first keeps ds d (rw e at h))
  ]

  -- A transition of a row that is found writes that row.
  pub transition-found :
      ((d : BridgeDeliveryRecord) → (f d).id ≡ d.id)
      → (ds : Deliveries) (d : BridgeDeliveryRecord) → find_delivery_by_id id ds ≡ some d
      → ((transition id f ds).1 ≡ ok tt)
        × (find_delivery_by_id id (transition id f ds).0 ≡ some (f d))
  transition-found keeps ds d h =
      unfold transition in rw (h, transition) (refl, find-write_first keeps ds d h)
