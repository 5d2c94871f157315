-- ===== src/Integration/Execute/Loop.antt =====
-- The loop of `ExecuteIntegrationUseCase.execute` (integration/execute-integration.use-case.ts), the
-- status of the run, and what is written when it ends.
use codegen_patterns.Base.{
  ℕ, suc, String, Option, none, some, Bool, true, false, ◌&&◌, List, [], ◌∷◌, ltb, ◌==◌,
  if◌then◌else◌,
}
use codegen_patterns.Integration.Recorder.{
  RunStatus, success, no_changes, failed, RunError, all_records_failed, source_failed,
  cursor_put_failed, Attempt, done, thrown, start_run, complete_run,
}
use codegen_patterns.Integration.Execute.{
  Ports, Change, ExecuteIntegrationInput, Live, Runs, log_item, failed_item, process_change,
  from_recorder,
}

module _ (ports : Ports) where
  open ports use {Cursor, Canonical, Diff, Outside, is_valid}

  -- The counters of the loop, with the last cursor that was seen.
  pub record Tally : Type 0 where
    pub records_found : ℕ
    pub records_processed : ℕ
    pub records_failed : ℕ
    pub latest_cursor : Option Cursor
    pub cursor_advanced : Bool

  unfoldable pub found : Change Cursor Canonical → Tally → Tally
  found change t = record t {
    records_found = suc t.records_found;
    latest_cursor = change.cursor;
    cursor_advanced = true;
  }

  -- A state, the counters, and the exception that has ended the loop.
  abbrev pub Looped : Type 0
  Looped = Live ports × Tally × Option String

  module _ (run_id : String) (input : ExecuteIntegrationInput) where
    -- The `catch` around one change: an exception of the recorder leaves the loop.
    unfoldable pub note_failure : Tally → Live ports × Attempt (Unit {0}) → Looped
    note_failure t (s, done u) = (s, t, none)
    note_failure t (s, thrown m) = (s, t, some m)

    unfoldable pub after_change :
        Change Cursor Canonical → Tally → Live ports × Attempt (Unit {0}) → Looped
    unfolding note_failure log_item
    after_change change t (s, done u) =
        (s, record t { records_processed = suc t.records_processed }, none)
    after_change change t (s, thrown m) =
        note_failure (record t { records_failed = suc t.records_failed })
          (log_item ports (failed_item ports run_id input change m) s)

    unfoldable pub one_change : Change Cursor Canonical → Live ports → Tally → Looped
    unfolding after_change process_change found
    one_change change s t =
        after_change change (found change t)
          (process_change ports run_id input change change.operation s)

    -- The loop goes on unless an exception has left it.
    unfoldable pub go_on : (Live ports → Tally → Looped) → Looped → Looped
    go_on rest (s, t, none) = rest s t
    go_on rest (s, t, some m) = (s, t, some m)

    -- The loop over the changes that the source lists; `failure` is what the source throws after them.
    unfoldable pub each_change :
        Option String → List (Change Cursor Canonical) → Live ports → Tally → Looped
    unfolding one_change go_on
    each_change failure [] s t = (s, t, failure)
    each_change failure (c ∷ cs) s t = go_on (each_change failure cs) (one_change c s t)

  abbrev pub Verdict : Type 0
  Verdict = RunStatus × Option RunError

  unfoldable pub verdict : Tally → Option String → Verdict
  verdict t (some message) = (failed, some (source_failed message))
  verdict t none =
      if ltb 0 t.records_failed && t.records_processed == 0 && ltb 0 t.records_found
      then (failed, some (all_records_failed t.records_failed))
      else (if t.records_found == 0 then (no_changes, none) else (success, none))

  abbrev pub Store : Type 0
  Store = ports.cursors.Store

  -- A failed `put` is the error of the run, unless the run has one.
  unfoldable pub put_failed : String → Verdict → Verdict
  put_failed message (failed, e) = (failed, e)
  put_failed message (_, e) = (failed, some (cursor_put_failed message))

  unfoldable pub after_put : Verdict → Store × Attempt (Unit {0}) → Store × Verdict
  unfolding put_failed
  after_put v (store, done u) = (store, v)
  after_put v (store, thrown m) = (store, put_failed m v)

  unfoldable pub put_latest :
      ExecuteIntegrationInput → Bool → Option Cursor → Verdict → Store → Store × Verdict
  unfolding after_put
  put_latest input true (some c) v store =
      after_put v (ports.cursors.put_cursor input.subscription_id c input.tenant_id store)
  put_latest input _ _ v store = (store, v)

  pub record ExecuteIntegrationResult : Type 0 where
    pub run_id : String
    pub status : RunStatus
    pub records_found : ℕ
    pub records_processed : ℕ
    pub records_failed : ℕ
    pub cursor_before : Option Cursor
    pub cursor_after : Option Cursor
    pub duration_ms : ℕ
    pub error : Option RunError

  pub data Executed : Type 0 where
    finished : ExecuteIntegrationResult → Executed
    tenant_missing : Executed
    cursor_not_read : String → Executed
    run_not_completed : String → Executed

  pub record World : Type 0 where
    pub live : Live ports
    pub store : Store

  -- The new id of the run, and the instants of `startRun` and `completeRun`.
  pub record Clock : Type 0 where
    pub new_id : String
    pub started : ℕ
    pub completed : ℕ
    pub duration : ℕ

  abbrev pub start_tally : Option Cursor → Tally
  start_tally cursor = record {
    records_found = 0;
    records_processed = 0;
    records_failed = 0;
    latest_cursor = cursor;
    cursor_advanced = false;
  }

  abbrev pub cursor_after : Option Cursor → Tally → Option Cursor
  cursor_after before t = if t.cursor_advanced then t.latest_cursor else before

  -- What `IChangeSource.listChanges` yields for a cursor, and what it then throws.
  abbrev pub Source : Type 0
  Source = Option Cursor → List (Change Cursor Canonical) × Option String

  module _ (clock : Clock) (input : ExecuteIntegrationInput) where
    unfoldable pub result_of : Option Cursor → Tally → Verdict → ExecuteIntegrationResult
    result_of before t (status, error) = record {
      run_id = clock.new_id;
      status = status;
      records_found = t.records_found;
      records_processed = t.records_processed;
      records_failed = t.records_failed;
      cursor_before = before;
      cursor_after = cursor_after before t;
      duration_ms = clock.duration;
      error = error;
    }

    unfoldable pub report :
        ExecuteIntegrationResult → Store → Live ports × Attempt (Unit {0}) → World × Executed
    report r store (s, done u) = (record { live = s; store = store }, finished r)
    report r store (s, thrown m) = (record { live = s; store = store }, run_not_completed m)

    unfoldable pub complete : ExecuteIntegrationResult → Live ports → Store → World × Executed
    unfolding complete_run report
    complete r s store = report r store (
        from_recorder ports s (
          complete_run Cursor Diff is_valid clock.new_id clock.completed
            (record {
              status = r.status;
              records_found = r.records_found;
              records_processed = r.records_processed;
              cursor_after = r.cursor_after;
              duration_ms = r.duration_ms;
              error = r.error;
            })
            s.recorder))

    unfoldable pub finish : Option Cursor → Store → Looped → World × Executed
    unfolding verdict put_latest result_of complete
    finish before store (s, t, failure) =
        let p = put_latest input t.cursor_advanced t.latest_cursor (verdict t failure) store in
        complete (result_of before t p.1) s p.0

    unfoldable pub started_recorder : Option Cursor → Runs ports → Runs ports
    unfolding start_run
    started_recorder before r =
        start_run Cursor Diff is_valid clock.new_id clock.started
          (record {
            subscription_id = input.subscription_id;
            direction = input.direction;
            action = input.action;
            cursor_before = before;
            tenant_id = input.tenant_id;
          })
          r

    unfoldable pub run_from : Source → World → Attempt (Option Cursor) → World × Executed
    unfolding each_change finish started_recorder
    run_from source w (thrown m) = (w, cursor_not_read m)
    run_from source w (done before) = finish before w.store (
        each_change clock.new_id input (source before).1 (source before).0
          (record w.live { recorder = started_recorder before w.live.recorder })
          (start_tally before))

    unfoldable pub refuses_tenant : Bool → Option String → Bool
    refuses_tenant true none = true
    refuses_tenant _ _ = false

    -- `execute`
    unfoldable pub execute : Source → World → World × Executed
    unfolding run_from refuses_tenant
    execute source w =
        if refuses_tenant ports.multi_tenant input.tenant_id
        then (w, tenant_missing)
        else run_from source w
            (ports.cursors.get_cursor input.subscription_id input.tenant_id w.store)
