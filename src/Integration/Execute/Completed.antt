-- ===== src/Integration/Execute/Completed.antt =====
-- What `ExecuteIntegrationUseCase.execute` (integration/execute-integration.use-case.ts) returns and
-- leaves behind, on every listing of the source.
use codegen_patterns.Base.{
  ℕ, ◌+◌, ◌≤◌, String, Option, none, some, true, false, ◌&&◌, List, [], ◌∷◌, map, ◌≡◌, ◌≢◌, refl,
  sym, subst, ◌∙◌, ap, inl, inr, arith, length, ltb, ◌==◌, Bool-cases, if◌then◌else◌,
}
use codegen_patterns.Base.Dict.{get, set, get-set_self}
use codegen_patterns.Integration.Recorder.{
  RunStatus, running, success, no_changes, failed, source_failed, done, MemoryRunRecord,
  complete_run, CompleteRunInput, start_run, completed_run,
}
use codegen_patterns.Integration.Execute.{Ports, Change, ExecuteIntegrationInput, Item, Live, Runs}
use codegen_patterns.Integration.Execute.Loop.{
  Tally, each_change, Verdict, verdict, Store, put_latest, ExecuteIntegrationResult, finished,
  World, Clock, start_tally, Source, result_of, report, complete, finish, started_recorder,
  run_from, refuses_tenant, execute,
}
use codegen_patterns.Integration.Execute.Runs.{
  Ran, Ended, each_change-Ended, successes, is_some_change,
}
use codegen_patterns.Integration.Execute.Put.{put_latest-Put}

none_found : (n : ℕ) → (n == 0) ≡ true → n ≡ 0
none_found n h = ground arith

some_processed :
    (p f n : ℕ) → p + f ≡ n → (ltb 0 f && p == 0 && ltb 0 n) ≡ false → (n == 0) ≡ false → 1 ≤ p
some_processed p f n sum h z = ground arith

no_changes-listed : {A : Type 0} (xs : List A) → length xs ≡ 0 → xs ≡ []
no_changes-listed [] h = refl
no_changes-listed (x ∷ xs) h = absurd (omega (arith, h))

module _ (ports : Ports) (input : ExecuteIntegrationInput) where
  open ports use {Cursor, Canonical, is_valid}

  module _ (clock : Clock ports) where
    abbrev Row : Type 0
    Row = MemoryRunRecord Cursor ports.Diff is_valid

    -- A run over the listing `cs` that ends in `failure`, from the cursor `before`.
    pub record Reported (before : Option Cursor) (cs : List (Change Cursor Canonical))
        (failure : Option String) (w w' : World ports) (r : ExecuteIntegrationResult ports)
        : Type 0 where
      pub rows : List (Item ports)
      pub run : Row
      pub items : get clock.new_id w'.live.recorder.items ≡ some rows
      pub each_once : map (λ i. i.external_id) rows ≡ map (λ c. c.external_id) cs
      pub found_all : r.records_found ≡ length cs
      pub counted : r.records_processed + r.records_failed ≡ length cs
      pub processed : r.records_processed ≡ successes ports clock.new_id input rows
      pub run_row : get clock.new_id w'.live.recorder.runs ≡ some run
      pub run_ended : run.completed_at ≡ some clock.completed
      pub run_agrees :
          (run.status ≡ r.status)
          × (run.records_found ≡ r.records_found)
          × (run.records_processed ≡ r.records_processed)
          × (run.cursor_after ≡ r.cursor_after)
          × (run.error ≡ r.error)
      pub of_success : r.status ≡ success → (failure ≡ none) × (1 ≤ r.records_processed)
      pub of_no_changes :
          r.status ≡ no_changes → (failure ≡ none) × (cs ≡ []) × (w'.store ≡ w.store)
      pub not_running : r.status ≢ running
      pub of_failure : (m : String) → failure ≡ some m → r.error ≡ some (source_failed m)
      pub resumes :
          (c : Cursor)
          → is_some_change ports clock.new_id input cs ≡ true
          → r.cursor_after ≡ some c
          → r.status ≢ failed
          → ports.cursors.get_cursor input.subscription_id input.tenant_id w'.store ≡ done (some c)

    -- The verdict on a loop whose counters add up.
    record Judged (t : Tally ports) (failure : Option String) (v : Verdict ports) : Type 0 where
      pub of_success : v.0 ≡ success → (failure ≡ none) × (1 ≤ t.records_processed)
      pub of_no_changes : v.0 ≡ no_changes → (failure ≡ none) × (t.records_found ≡ 0)
      pub not_running : v.0 ≢ running
      pub of_failure :
          (m : String) → failure ≡ some m → (v.0 ≡ failed) × (v.1 ≡ some (source_failed m))

    verdict-Judged :
        (t : Tally ports) (failure : Option String)
        → t.records_processed + t.records_failed ≡ t.records_found
        → Judged t failure (verdict ports t failure)
    unfolding verdict
    verdict-Judged t (some m) sum = record {
      of_success = λ h. cc;
      of_no_changes = λ h. cc;
      not_running = λ h. cc;
      of_failure =
          λ n e. (refl, ap (λ o. elim o [ none ↦ none | some x ↦ some (source_failed x) ]) e);
    }
    verdict-Judged t none sum =
        elim (Bool-cases
          (ltb 0 t.records_failed && t.records_processed == 0 && ltb 0 t.records_found)) [
            | inl e ↦ rw e (record {
              of_success = λ h. cc;
              of_no_changes = λ h. cc;
              not_running = λ h. cc;
              of_failure = λ n q. cc;
            })
            | inr e ↦ elim (Bool-cases (t.records_found == 0)) [
              | inl z ↦
                  rw (e, z)
                    (record {
                      of_success = λ h. cc;
                      of_no_changes = λ h. (refl, none_found t.records_found z);
                      not_running = λ h. cc;
                      of_failure = λ n q. cc;
                    })
              | inr z ↦
                  rw (e, z)
                    (record {
                      of_success = λ h. (
                        refl,
                        some_processed t.records_processed t.records_failed t.records_found sum e z,
                      );
                      of_no_changes = λ h. cc;
                      not_running = λ h. cc;
                      of_failure = λ n q. cc;
                    })
            ]
          ]

    abbrev completion : ExecuteIntegrationResult ports → CompleteRunInput Cursor ports.Diff is_valid
    completion r = record {
      status = r.status;
      records_found = r.records_found;
      records_processed = r.records_processed;
      cursor_after = r.cursor_after;
      duration_ms = r.duration_ms;
      error = r.error;
    }

    abbrev closed_run : ExecuteIntegrationResult ports → Row → Row
    closed_run r run = completed_run Cursor ports.Diff is_valid clock.completed (completion r) run

    abbrev closed_runs : ExecuteIntegrationResult ports → Row → Runs ports → Runs ports
    closed_runs r run rs = record rs { runs = set clock.new_id (closed_run r run) rs.runs }

    complete_run-started :
        (r : ExecuteIntegrationResult ports) (rs : Runs ports) (run : Row)
        → get clock.new_id rs.runs ≡ some run
        → complete_run Cursor ports.Diff is_valid clock.new_id clock.completed (completion r) rs
          ≡ (closed_runs r run rs, done tt)
    complete_run-started r rs run found = unfold complete_run in rw (found, complete_run) refl

    -- A run that has a row is completed.
    complete-started :
        (r : ExecuteIntegrationResult ports) (s : Live ports) (store : Store ports) (run : Row)
        → get clock.new_id s.recorder.runs ≡ some run
        → complete ports clock input r s store ≡ (
          record { live = record s { recorder = closed_runs r run s.recorder }; store = store },
          finished r,
        )
    unfolding complete report
    complete-started r s store run found = rw (complete_run-started r s.recorder run found) refl

    -- The end of a run whose loop is known.
    finish-Reported :
        (before : Option Cursor) (cs : List (Change Cursor Canonical)) (failure : Option String)
        (w : World ports) (s s' : Live ports) (t : Tally ports) (run : Row)
        → Ran ports clock.new_id input cs s s' (start_tally ports before) t []
        → get clock.new_id s.recorder.runs ≡ some run
        → (r : ExecuteIntegrationResult ports) × ((finish ports clock input before w.store
              (s', t, failure)).1
            ≡ finished r)
          × Reported before cs failure w
              (finish ports clock input before w.store (s', t, failure)).0
              r
    unfolding result_of completed_run
    finish-Reported before cs failure w s s' t run ran found =
        let v = verdict ports t failure in
        let p = put_latest ports input t.cursor_advanced t.latest_cursor v w.store in
        let r = result_of ports clock input before t p.1 in
        let found' = ap (get clock.new_id) ran.same_runs ∙ found in
        let eq : finish ports clock input before w.store (s', t, failure) ≡ (
          record { live = record s' { recorder = closed_runs r run s'.recorder }; store = p.0 },
          finished r,
        ) =
          unfold finish in complete-started r s' p.0 run found' in
        let all : t.records_found ≡ length cs = omega (arith, ran.found_all) in
        let put = put_latest-Put ports input t.cursor_advanced t.latest_cursor v w.store in
        let judged = verdict-Judged t failure (ran.counted ∙ sym ran.found_all) in
        let kept : (x : RunStatus) → x ≢ failed → p.1.0 ≡ x → v.0 ≡ x =
          λ x other e. ap (λ y. y.0) (sym (put.keeps_verdict (λ q. other (sym e ∙ q)))) ∙ e in
        rw eq (
          r,
          refl,
          record {
            rows = ran.rows;
            run = closed_run r run;
            items = ran.logged;
            each_once = ran.each_once;
            found_all = all;
            counted = omega (arith, ran.counted);
            processed = omega (arith, ran.processed);
            run_row = get-set_self clock.new_id (closed_run r run) s'.recorder.runs;
            run_ended = refl;
            run_agrees = (refl, refl, refl, refl, refl);
            of_success = λ h. judged.of_success (kept success (λ q. cc) h);
            of_no_changes = λ h.
                let (whole, zero_found) = judged.of_no_changes (kept no_changes (λ q. cc) h) in
                let nothing = no_changes-listed cs (sym all ∙ zero_found) in
                (
                  whole,
                  nothing,
                  put.stays (ran.advanced ∙ ap (is_some_change ports clock.new_id input) nothing),
                );
            not_running = λ h. judged.not_running (kept running (λ q. cc) h);
            of_failure = λ m h.
                let (is_failed, error) = judged.of_failure m h in
                ap (λ y. y.1) (put.keeps_failed is_failed) ∙ error;
            resumes = λ c some_change after ok.
                let moved = ran.advanced ∙ some_change in
                put.stored c moved
                  (sym (ap (λ b. if b then t.latest_cursor else before) moved) ∙ after) ok;
          },
        )

    -- `execute` with a tenant that is not refused and a cursor that is read always finishes, whatever
    -- the source lists and throws: the run's row is completed and says what the result says, there is
    -- one audit row for each change in order, the changes that were processed are those with a
    -- successful row, and the others failed. The status is never `running`; `success` means that the
    -- source ended and that some change was processed, `no_changes` that it listed nothing and the
    -- store is untouched; an exception of the source is the error. If the run did not fail and there
    -- were changes, the next run resumes from the cursor that it reports.
    pub execute_lem :
        (source : Source ports) (w : World ports) (before : Option Cursor)
        → refuses_tenant ports clock input ports.multi_tenant input.tenant_id ≡ false
        → ports.cursors.get_cursor input.subscription_id input.tenant_id w.store ≡ done before
        → let p = execute ports clock input source w in
          (r : ExecuteIntegrationResult ports) × (p.1 ≡ finished r)
          × Reported before (source before).0 (source before).1 w p.0 r
    unfolding execute run_from started_recorder start_run
    execute_lem source w before passes read =
        let rs = started_recorder ports clock input before w.live.recorder in
        let s : Live ports = record w.live { recorder = rs } in
        let cs = (source before).0 in
        let failure = (source before).1 in
        let looped = each_change ports clock.new_id input failure cs s (start_tally ports before) in
        let (same, ran) : Ended ports clock.new_id input failure cs s (start_tally ports before) []
            looped =
          each_change-Ended ports clock.new_id input failure cs s (start_tally ports before) []
            (get-set_self clock.new_id [] w.live.recorder.items) in
        rw (passes, read)
          (subst
            (λ e.
              (r : ExecuteIntegrationResult ports) × ((finish ports clock input before w.store
                  (looped.0, looped.1, e)).1
                ≡ finished r)
              × Reported before cs failure w
                  (finish ports clock input before w.store (looped.0, looped.1, e)).0 r)
            (sym same)
            (finish-Reported before cs failure w s looped.0 looped.1 _ ran
              (get-set_self clock.new_id _ w.live.recorder.runs)))
