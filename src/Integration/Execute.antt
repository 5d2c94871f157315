-- ===== src/Integration/Execute.antt =====
-- `ExecuteIntegrationUseCase` (integration/execute-integration.use-case.ts). The sink, the differ, the
-- emitter and the source are parameters; the recorder is the in-memory one, and the cursor store is
-- any that satisfies `CursorStore`. Logging is left out.
pub mod Loop
pub mod Items
pub mod Runs
pub mod Put
pub mod Completed
use codegen_patterns.Base.{
  ℕ, zero, suc, String, Option, none, some, Bool, true, false, ◌&&◌, List, [], ◌∷◌, ltb, ◌==◌,
  if◌then◌else◌,
}
use codegen_patterns.Integration.Recorder.{
  RunDirection, RunAction, RunStatus, success, no_changes, failed, ItemOperation, created, updated,
  deleted, noop, ItemStatus, item_success, item_failed, RunError, all_records_failed, source_failed,
  cursor_put_failed, Attempt, done, thrown, RecordItemInput, Recorder, start_run, record_item,
  complete_run,
}
use codegen_patterns.Integration.Cursors.{CursorStore}

pub data ChangeOperation : Type 0 where
  change_created change_updated change_deleted : ChangeOperation

-- The parts of a change that the use case reads.
pub record Change (Cursor Canonical : Type 0) : Type 0 where
  pub external_id : String
  pub operation : ChangeOperation
  pub canonical : Canonical
  pub cursor : Option Cursor
  pub provider_changed_fields : Option (List String)

pub data DiffResult (Diff : Type 0) : Type 0 where
  no_difference : DiffResult Diff
  fields : Diff → DiffResult Diff

pub record ChangeNotification (Diff : Type 0) : Type 0 where
  pub entity_id : String
  pub external_id : String
  pub provider : String
  pub action : ItemOperation
  pub changed_fields : Option Diff
  pub tenant_id : Option String

-- What the use case is given: the sink and the emitter change an outside world, and may throw. `empty`
-- is the diff `{}`, which the schema of a diff accepts.
pub record Ports : Type 1 where
  pub Cursor : Type 0
  pub Canonical : Type 0
  pub Diff : Type 0
  pub Outside : Type 0
  pub is_valid : Diff → Bool
  pub empty : Diff
  pub empty_valid : Path Bool (is_valid empty) true
  pub find_by_external_id : String → String → Outside → Outside × Attempt (Option Canonical)
  pub upsert_by_external_id : String → Canonical → String → Outside → Outside × Attempt String
  pub soft_delete_by_external_id : String → String → Outside → Outside × Attempt (Option String)
  pub reprojects_on_noop : Bool
  pub diff : Option Canonical → Canonical → Option (List String) → DiffResult Diff
  pub emit_change : Option (ChangeNotification Diff → Outside → Outside × Attempt (Unit {0}))
  pub cursors : CursorStore Cursor
  pub multi_tenant : Bool

pub record ExecuteIntegrationInput : Type 0 where
  pub subscription_id : String
  pub domain : String
  pub user_id : String
  pub provider : String
  pub direction : RunDirection
  pub action : RunAction
  pub tenant_id : Option String

module _ (ports : Ports) where
  open ports use {Cursor, Canonical, Diff, Outside, is_valid}

  abbrev pub Item : Type 0
  Item = RecordItemInput Cursor Diff is_valid

  abbrev pub Runs : Type 0
  Runs = Recorder Cursor Diff is_valid

  pub record Live : Type 0 where
    pub outside : Outside
    pub recorder : Runs

  abbrev pub Step : Type 0 → Type 0
  Step A = Live → Live × Attempt A

  abbrev pub and_then : {A B : Type 0} → Live × Attempt A → (A → Step B) → Live × Attempt B
  and_then (s, done a) f = f a s
  and_then (s, thrown m) f = (s, thrown m)

  abbrev pub from_outside : {A : Type 0} → Live → Outside × Attempt A → Live × Attempt A
  from_outside s (o, a) = (record s { outside = o }, a)

  abbrev pub from_recorder : {A : Type 0} → Live → Runs × Attempt A → Live × Attempt A
  from_recorder s (r, a) = (record s { recorder = r }, a)

  unfoldable pub log_item : Item → Step (Unit {0})
  unfolding record_item
  log_item i s = from_recorder s (record_item Cursor Diff is_valid i s.recorder)

  -- An exception of the emitter is only logged.
  unfoldable pub publish_with :
      Option (ChangeNotification Diff → Outside → Outside × Attempt (Unit {0}))
      → ChangeNotification Diff
      → Step (Unit {0})
  publish_with none n s = (s, done tt)
  publish_with (some emit) n s = (record s { outside = (emit n s.outside).0 }, done tt)

  -- The diff of a deletion is left out.
  unfoldable pub notification :
      ExecuteIntegrationInput
      → String
      → String
      → ItemOperation
      → Option Diff
      → ChangeNotification Diff
  notification input external_id entity_id action changed_fields = record {
    entity_id = entity_id;
    external_id = external_id;
    provider = input.provider;
    action = action;
    changed_fields = elim action [ deleted ↦ none | _ ↦ changed_fields ];
    tenant_id = input.tenant_id;
  }

  unfoldable pub emit_change :
      ExecuteIntegrationInput → String → String → ItemOperation → Option Diff → Step (Unit {0})
  unfolding publish_with notification
  emit_change input external_id entity_id action changed_fields =
      publish_with ports.emit_change
        (notification input external_id entity_id action changed_fields)

  abbrev pub success_item :
      String
      → ExecuteIntegrationInput
      → Change Cursor Canonical
      → Option String
      → ItemOperation
      → Diff
      → Item
  success_item run_id input change local_id operation diff = record {
    integration_run_id = run_id;
    entity_type = input.domain;
    external_id = change.external_id;
    local_id = local_id;
    operation = operation;
    status = item_success;
    changed_fields = diff;
    error = none;
    tenant_id = input.tenant_id;
  }

  module _ (run_id : String) (input : ExecuteIntegrationInput)
      (change : Change Cursor Canonical) where
    unfoldable pub after_delete : Option String → Step (Unit {0})
    unfolding log_item emit_change
    after_delete none s = log_item (success_item run_id input change none noop ports.empty) s
    after_delete (some id) s =
        and_then (log_item (success_item run_id input change (some id) deleted ports.empty) s)
          λ u. emit_change input change.external_id id deleted none

    unfoldable pub process_deletion : Step (Unit {0})
    unfolding after_delete
    process_deletion s =
        and_then
          (from_outside s
            (ports.soft_delete_by_external_id input.user_id change.external_id s.outside))
          after_delete

    abbrev pub upsert : Step String
    upsert s =
        from_outside s
          (ports.upsert_by_external_id input.user_id change.canonical input.provider s.outside)

    abbrev pub written_action : Option Canonical → ItemOperation
    written_action none = created
    written_action (some c) = updated

    unfoldable pub after_diff : Option Canonical → DiffResult Diff → Step (Unit {0})
    unfolding log_item emit_change
    after_diff existing no_difference s =
        if ports.reprojects_on_noop
        then (and_then (upsert s)
            λ id. log_item (success_item run_id input change (some id) noop ports.empty))
        else log_item (success_item run_id input change none noop ports.empty) s
    after_diff existing (fields d) s = and_then (upsert s) λ id s₁.
        and_then
          (log_item (success_item run_id input change (some id) (written_action existing) d) s₁)
          λ u. emit_change input change.external_id id (written_action existing) (some d)

    unfoldable pub process_upsert : Step (Unit {0})
    unfolding after_diff
    process_upsert s =
        and_then
          (from_outside s (ports.find_by_external_id input.user_id change.external_id s.outside))
          λ existing.
            after_diff existing
              (ports.diff existing change.canonical change.provider_changed_fields)

    -- `processChange`
    unfoldable pub process_change : ChangeOperation → Step (Unit {0})
    unfolding process_deletion process_upsert
    process_change change_deleted = process_deletion
    process_change _ = process_upsert

    abbrev pub failed_operation : ChangeOperation → ItemOperation
    failed_operation change_deleted = deleted
    failed_operation _ = updated

    abbrev pub failed_item : String → Item
    failed_item message =
        record (success_item run_id input change none (failed_operation change.operation)
          ports.empty) { status = item_failed; error = some message }
