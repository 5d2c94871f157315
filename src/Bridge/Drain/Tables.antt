-- ===== src/Bridge/Drain/Tables.antt =====
-- The statements of the drain's transaction over the in-memory ledger
-- (bridge/bridge-delivery.memory-backend.ts) and a map of wrapper runs. Its unique key stands for the
-- constraint on `(event_id, trigger_id)`; a delivery whose wrapper run is not there is not inserted.
use codegen_patterns.Base.{
  ℕ, String, Option, none, some, Bool, true, false, [], ◌∷◌, ◌=ₛ◌, ◌≡◌, refl, sym, ◌∙◌, ap, inl,
  inr, Bool-cases, Option-cases, eq_refl, eq_iff, if◌then◌else◌,
}
use codegen_patterns.Base.Dict.{Dict, get, set, remove, get-set, get-set_self}
use codegen_patterns.Bridge.Deliveries.{
  Deliveries, BridgeDeliveryRecord, BridgeDeliveryInsert, Outcome, ok, err, key, insert_delivery,
  find_delivery,
}
use codegen_patterns.Bridge.Deliveries.Unique.{insert_delivery-absent, insert_delivery-present}
use codegen_patterns.Bridge.Drain.{DrainTx, WrapperRun, PendingDelivery}

abbrev pub is_some {ℓ} : {A : Type ℓ} → Option A → Bool
is_some none = false
is_some (some a) = true

abbrev pub is_ok : {A : Type 0} → Outcome A → Bool
is_ok (ok a) = true
is_ok (err e) = false

pub remove-set :
    {V : Type 0} (k : String) (v : V) (m : Dict V) → get k m ≡ none → remove k (set k v m) ≡ m
unfolding get set remove
remove-set k v [] h = rw eq_refl refl
remove-set k v ((j, w) ∷ m) h = elim (Bool-cases (j =ₛ k)) [
  | inl e ↦ cc (rw e at h)
  | inr e ↦ rw (e, e) (ap (λ x. (j, w) ∷ x) (remove-set k v m (rw e at h)))
]

-- The row of a delivery that waits for its wrapper run.
abbrev pub delivery_insert : PendingDelivery → BridgeDeliveryInsert
delivery_insert d = record {
  id = some d.id;
  event_id = d.event_id;
  trigger_id = d.trigger_id;
  wrapper_run_id = some d.wrapper_run_id;
  user_run_id = none;
  status = none;
  skip_reason = none;
  error = none;
  tenant_id = d.tenant_id;
  attempted_at = none;
  delivered_at = none;
}

abbrev pub MemoryTables : Type 0
MemoryTables = Deliveries × Dict WrapperRun

abbrev pub has_delivery_in : MemoryTables → String → String → Bool
has_delivery_in s e t = is_some (find_delivery e t s.0)

abbrev pub has_run_in : MemoryTables → String → Bool
has_run_in s id = is_some (get id s.1)

abbrev pub insert_row_in : ℕ → PendingDelivery → MemoryTables → MemoryTables × Bool
insert_row_in now d s =
    let r = insert_delivery d.id now (delivery_insert d) s.0 in ((r.0, s.1), is_ok r.1)

abbrev pub insert_in : ℕ → PendingDelivery → MemoryTables → MemoryTables × Bool
insert_in now d s = if has_run_in s d.wrapper_run_id then insert_row_in now d s else (s, false)

abbrev pub id_of : Option BridgeDeliveryRecord → Option String
id_of none = none
id_of (some d) = some d.id

abbrev pub delivery_id_in : MemoryTables → String → String → Option String
delivery_id_in s e t = id_of (find_delivery e t s.0)

module _ (now : ℕ) (d : PendingDelivery) (s : MemoryTables) where
  pub conflict_in :
      has_delivery_in s d.event_id d.trigger_id ≡ true → insert_in now d s ≡ (s, false)
  unfolding find_delivery
  conflict_in h = elim (Bool-cases (has_run_in s d.wrapper_run_id)) [
    | inl there ↦ elim (Option-cases (get (key d.event_id d.trigger_id) s.0)) [
      | inl e ↦ cc (rw e at h)
      | inr (x, e) ↦ rw (there, insert_delivery-present d.id now (delivery_insert d) s.0 x e) refl
    ]
    | inr missing ↦ rw missing refl
  ]

  pub inserted_in :
      has_run_in s d.wrapper_run_id ≡ true
      → has_delivery_in s d.event_id d.trigger_id ≡ false
      → (insert_in now d s).1 ≡ true
  unfolding find_delivery
  inserted_in there h = elim (Option-cases (get (key d.event_id d.trigger_id) s.0)) [
    | inl e ↦ rw (there, insert_delivery-absent d.id now (delivery_insert d) s.0 e) refl
    | inr (x, e) ↦ cc (rw e at h)
  ]

  pub own_in :
      has_run_in s d.wrapper_run_id ≡ true
      → has_delivery_in (insert_in now d s).0 d.event_id d.trigger_id ≡ true
  unfolding find_delivery
  own_in there = elim (Option-cases (get (key d.event_id d.trigger_id) s.0)) [
    | inl e ↦
        rw (there, insert_delivery-absent d.id now (delivery_insert d) s.0 e, get-set_self) refl
    | inr (x, e) ↦ rw (there, insert_delivery-present d.id now (delivery_insert d) s.0 x e, e) refl
  ]

  pub keeps_in :
      (e t : String)
      → has_run_in s d.wrapper_run_id ≡ true
      → has_delivery_in s e t ≡ true
      → has_delivery_in (insert_in now d s).0 e t ≡ true
  unfolding find_delivery
  keeps_in e t there h = elim (Option-cases (get (key d.event_id d.trigger_id) s.0)) [
    | inl free ↦
        rw (there, insert_delivery-absent d.id now (delivery_insert d) s.0 free, get-set)
          (elim (Bool-cases (key d.event_id d.trigger_id =ₛ key e t)) [
            | inl q ↦ rw q refl
            | inr q ↦ rw q h
          ])
    | inr (x, taken) ↦
        rw (there, insert_delivery-present d.id now (delivery_insert d) s.0 x taken) h
  ]

  pub keeps_id_in :
      (e t i : String)
      → has_run_in s d.wrapper_run_id ≡ true
      → delivery_id_in s e t ≡ some i
      → delivery_id_in (insert_in now d s).0 e t ≡ some i
  unfolding find_delivery
  keeps_id_in e t i there h = elim (Option-cases (get (key d.event_id d.trigger_id) s.0)) [
    | inl free ↦
        rw (there, insert_delivery-absent d.id now (delivery_insert d) s.0 free, get-set)
          (elim (Bool-cases (key d.event_id d.trigger_id =ₛ key e t)) [
            | inl q ↦ cc (sym (ap (λ k. id_of (get k s.0)) ((eq_iff _ _).0 q)) ∙ ap id_of free, h)
            | inr q ↦ rw q h
          ])
    | inr (x, taken) ↦
        rw (there, insert_delivery-present d.id now (delivery_insert d) s.0 x taken) h
  ]

  pub run_of_insert_in :
      (id : String)
      → has_run_in s d.wrapper_run_id ≡ true
      → has_run_in (insert_in now d s).0 id ≡ has_run_in s id
  run_of_insert_in id there = rw there refl

pub delete_inserted_in :
    (r : WrapperRun) (s : MemoryTables)
    → has_run_in s r.id ≡ false
    → (s.0, remove r.id (set r.id r s.1)) ≡ s
delete_inserted_in r s h = elim (Option-cases (get r.id s.1)) [
  | inl e ↦ ap (λ x. (s.0, x)) (remove-set r.id r s.1 e)
  | inr (x, e) ↦ cc (rw e at h)
]

-- `has_run` after an insert.
module _ (r : WrapperRun) (s : MemoryTables) where
  pub run_of_insert : has_run_in (s.0, set r.id r s.1) r.id ≡ true
  run_of_insert = rw get-set_self refl

  pub other_run_in :
      (id : String) → (r.id =ₛ id) ≡ false → has_run_in (s.0, set r.id r s.1) id ≡ has_run_in s id
  other_run_in id q = rw (get-set id r.id r s.1, q) refl

abbrev pub memory_tx : ℕ → DrainTx
memory_tx now = record {
  Tables = MemoryTables;
  has_delivery = has_delivery_in;
  has_run = has_run_in;
  insert_run = λ r s. (s.0, set r.id r s.1);
  delete_run = λ id s. (s.0, remove id s.1);
  insert_delivery = insert_in now;
  conflict = conflict_in now;
  inserted = inserted_in now;
  own_delivery = own_in now;
  keeps_delivery = λ d s e t there h. keeps_in now d s e t there h;
  delivery_id = delivery_id_in;
  keeps_id = keeps_id_in now;
  id_of_insert_run = λ r s e t. refl;
  delivery_of_insert_run = λ r s e t. refl;
  run_of_insert_run = run_of_insert;
  other_run = other_run_in;
  run_of_insert_delivery = λ d s id there. run_of_insert_in now d s id there;
  delete_inserted = delete_inserted_in;
}
