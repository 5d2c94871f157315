-- ===== src/Integration/Execute/Items.antt =====
-- The audit rows that `ExecuteIntegrationUseCase` (integration/execute-integration.use-case.ts) writes:
-- one for each change.
use codegen_patterns.Base.{
  String, Option, none, some, true, false, List, [], ◌∷◌, ◌++◌, ◌≡◌, refl, inl, inr, Bool-cases,
}
use codegen_patterns.Base.Dict.{get, set, get-set_self}
use codegen_patterns.Integration.Recorder.{
  ItemOperation, deleted, noop, item_success, Attempt, done, thrown, record_item, push_item,
}
use codegen_patterns.Integration.Execute.{
  Ports, Change, ChangeNotification, ChangeOperation, change_created, change_updated,
  change_deleted, DiffResult, no_difference, fields, ExecuteIntegrationInput, Item, Runs, Live,
  Step, and_then, from_outside, log_item, publish_with, emit_change, success_item, after_delete,
  process_deletion, after_diff, process_upsert, process_change, written_action, failed_item,
}

module _ (ports : Ports) (run_id : String) where
  open ports use {Cursor, Canonical, Diff, Outside, is_valid}

  -- From the rows `xs` of the run in `r`, a step that returns has added one successful row for the
  -- external id, and one that throws has written nothing.
  abbrev pub Logged :
      String → Runs ports → List (Item ports) → Live ports × Attempt (Unit {0}) → Type 0
  Logged external_id r xs (s', done u) =
      (i : Item ports) × (i.status ≡ item_success)
      × (i.external_id ≡ external_id)
      × (get run_id s'.recorder.items ≡ some (xs ++ i ∷ []))
      × (s'.recorder.runs ≡ r.runs)
  Logged external_id r xs (s', thrown m) = s'.recorder ≡ r

  log_item-bucket :
      (i : Item ports) (s : Live ports) (xs : List (Item ports))
      → get i.integration_run_id s.recorder.items ≡ some xs
      → is_valid i.changed_fields ≡ true
      → log_item ports i s ≡ (
        record s {
          recorder = record s.recorder {
            items = set i.integration_run_id (xs ++ i ∷ []) s.recorder.items;
          };
        },
        done tt,
      )
  log_item-bucket i s xs found valid =
      unfold log_item record_item push_item in
      rw (log_item, record_item, valid, found, push_item) refl

  log_item-invalid :
      (i : Item ports) (s : Live ports)
      → is_valid i.changed_fields ≡ false
      → log_item ports i s ≡ (s, thrown "FieldDiffSchema.parse")
  log_item-invalid i s invalid =
      unfold log_item record_item in rw (log_item, record_item, invalid) refl

  module _ (input : ExecuteIntegrationInput) (change : Change Cursor Canonical) where
    success_item-Logged :
        (local_id : Option String) (operation : ItemOperation) (d : Diff) (s : Live ports)
        (xs : List (Item ports))
        → get run_id s.recorder.items ≡ some xs
        → Logged change.external_id s.recorder xs
            (log_item ports (success_item ports run_id input change local_id operation d) s)
    success_item-Logged local_id operation d s xs found =
        let i = success_item ports run_id input change local_id operation d in
        elim (Bool-cases (is_valid d)) [
          | inl valid ↦
              rw (log_item-bucket i s xs found valid)
                (i, refl, refl, get-set_self run_id (xs ++ i ∷ []) s.recorder.items, refl)
          | inr invalid ↦ rw (log_item-invalid i s invalid) refl
        ]

    -- A step outside, and then a step that logs.
    outside-Logged :
        {A : Type 0} (f : A → Step ports (Unit {0})) (s : Live ports) (xs : List (Item ports))
        (p : Outside × Attempt A)
        → ((a : A) (o : Outside)
            → Logged change.external_id s.recorder xs (f a (record s { outside = o })))
        → Logged change.external_id s.recorder xs (and_then ports (from_outside ports s p) f)
    outside-Logged f s xs (o, done a) h = h a o
    outside-Logged f s xs (o, thrown m) h = refl

    publish-Logged :
        (emit : Option (ChangeNotification Diff → Outside → Outside × Attempt (Unit {0})))
        (n : ChangeNotification Diff) (r : Runs ports) (xs : List (Item ports))
        (q : Live ports × Attempt (Unit {0}))
        → Logged change.external_id r xs q
        → Logged change.external_id r xs (and_then ports q λ u. publish_with ports emit n)
    unfolding publish_with
    publish-Logged none n r xs (s, done u) h = h
    publish-Logged (some emit) n r xs (s, done u) h = h
    publish-Logged emit n r xs (s, thrown m) h = h

    after_delete-Logged :
        (id : Option String) (s : Live ports) (xs : List (Item ports))
        → get run_id s.recorder.items ≡ some xs
        → Logged change.external_id s.recorder xs (after_delete ports run_id input change id s)
    unfolding after_delete emit_change
    after_delete-Logged none s xs found = success_item-Logged none noop ports.empty s xs found
    after_delete-Logged (some id) s xs found =
        publish-Logged ports.emit_change _ s.recorder xs
          (log_item ports (success_item ports run_id input change (some id) deleted ports.empty) s)
          (success_item-Logged (some id) deleted ports.empty s xs found)

    after_diff-Logged :
        (existing : Option Canonical) (d : DiffResult Diff) (s : Live ports)
        (xs : List (Item ports))
        → get run_id s.recorder.items ≡ some xs
        → Logged change.external_id s.recorder xs
            (after_diff ports run_id input change existing d s)
    unfolding after_diff emit_change
    after_diff-Logged existing no_difference s xs found =
        elim (Bool-cases ports.reprojects_on_noop) [
          | inl on ↦ rw on (
              outside-Logged _ s xs
                (ports.upsert_by_external_id input.user_id change.canonical input.provider
                  s.outside)
                (λ id o.
                  success_item-Logged (some id) noop ports.empty (record s { outside = o }) xs
                    found))
          | inr off ↦ rw off (success_item-Logged none noop ports.empty s xs found)
        ]
    after_diff-Logged existing (fields d) s xs found =
        outside-Logged _ s xs
          (ports.upsert_by_external_id input.user_id change.canonical input.provider s.outside)
          (λ id o.
            let s₁ : Live ports = record s { outside = o } in
            let action = written_action ports run_id input change existing in
            publish-Logged ports.emit_change _ s.recorder xs
              (log_item ports (success_item ports run_id input change (some id) action d) s₁)
              (success_item-Logged (some id) action d s₁ xs found))

    process_upsert-Logged :
        (s : Live ports) (xs : List (Item ports))
        → get run_id s.recorder.items ≡ some xs
        → Logged change.external_id s.recorder xs (process_upsert ports run_id input change s)
    unfolding process_upsert
    process_upsert-Logged s xs found =
        outside-Logged _ s xs (ports.find_by_external_id input.user_id change.external_id s.outside)
          (λ existing o.
            after_diff-Logged existing
              (ports.diff existing change.canonical change.provider_changed_fields)
              (record s { outside = o }) xs found)

    pub process_change-Logged :
        (operation : ChangeOperation) (s : Live ports) (xs : List (Item ports))
        → get run_id s.recorder.items ≡ some xs
        → Logged change.external_id s.recorder xs
            (process_change ports run_id input change operation s)
    unfolding process_change process_deletion
    process_change-Logged change_deleted s xs found =
        outside-Logged _ s xs
          (ports.soft_delete_by_external_id input.user_id change.external_id s.outside)
          (λ id o. after_delete-Logged id (record s { outside = o }) xs found)
    process_change-Logged change_created s xs found = process_upsert-Logged s xs found
    process_change-Logged change_updated s xs found = process_upsert-Logged s xs found

    -- The row of a failed change is always written.
    pub log_item-failed :
        (m : String) (s : Live ports) (xs : List (Item ports))
        → get run_id s.recorder.items ≡ some xs
        → log_item ports (failed_item ports run_id input change m) s ≡ (
          record s {
            recorder = record s.recorder {
              items =
                  set run_id (xs ++ failed_item ports run_id input change m ∷ []) s.recorder.items;
            };
          },
          done tt,
        )
    log_item-failed m s xs found =
        log_item-bucket (failed_item ports run_id input change m) s xs found ports.empty_valid
