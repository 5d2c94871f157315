-- ===== src/Integration/Execute/Runs.antt =====
-- The loop and the end of `ExecuteIntegrationUseCase.execute`
-- (integration/execute-integration.use-case.ts): the counters, the rows and the cursor of a run.
use codegen_patterns.Base.{
  ℕ, ◌+◌, String, Option, none, some, Bool, true, false, ◌||◌, List, [], ◌∷◌, ◌++◌, map,
  append_assoc, append-nil, map-append, ◌≡◌, refl, sym, ◌∙◌, ap, inl, inr, arith, length, keep,
  Bool-cases,
}
use codegen_patterns.Base.Dict.{get, get-set_self}
use codegen_patterns.Integration.Recorder.{ItemStatus, item_success, Attempt, done, thrown}
use codegen_patterns.Integration.Execute.{
  Ports, Change, ExecuteIntegrationInput, Item, Live, process_change, failed_item,
}
use codegen_patterns.Integration.Execute.Loop.{
  Tally, found, Looped, note_failure, after_change, one_change, go_on, each_change,
}
use codegen_patterns.Integration.Execute.Items.{Logged, process_change-Logged, log_item-failed}

abbrev pub is_item_success : ItemStatus → Bool
is_item_success item_success = true
is_item_success _ = false

module _ (ports : Ports) (run_id : String) (input : ExecuteIntegrationInput) where
  open ports use {Cursor, Canonical}

  abbrev pub successes : List (Item ports) → ℕ
  successes xs = length (keep (λ i. is_item_success i.status) xs)

  -- The last cursor of the changes, or the one before them.
  abbrev pub last_cursor : Option Cursor → List (Change Cursor Canonical) → Option Cursor
  last_cursor c [] = c
  last_cursor c (x ∷ xs) = last_cursor x.cursor xs

  abbrev pub is_some_change : List (Change Cursor Canonical) → Bool
  is_some_change [] = false
  is_some_change (x ∷ xs) = true

  -- What the loop over `cs` has done to the counters `t` and the rows `xs` of the run.
  pub record Ran (cs : List (Change Cursor Canonical)) (s s' : Live ports) (t t' : Tally ports)
      (xs : List (Item ports)) : Type 0 where
    pub rows : List (Item ports)
    pub logged : get run_id s'.recorder.items ≡ some (xs ++ rows)
    pub each_once : map (λ i. i.external_id) rows ≡ map (λ c. c.external_id) cs
    pub found_all : t'.records_found ≡ t.records_found + length cs
    pub processed : t'.records_processed ≡ t.records_processed + successes rows
    pub counted :
        t'.records_processed + t'.records_failed
        ≡ t.records_processed + t.records_failed + length cs
    pub same_runs : s'.recorder.runs ≡ s.recorder.runs
    pub latest : t'.latest_cursor ≡ last_cursor t.latest_cursor cs
    pub advanced : t'.cursor_advanced ≡ (t.cursor_advanced || is_some_change cs)

  abbrev One :
      Change Cursor Canonical → Live ports → Tally ports → List (Item ports) → Looped ports → Type 0
  One c s t xs (s', t', none) = Ran (c ∷ []) s s' t t' xs
  One c s t xs (s', t', some m) = ⊥

  or_true : (b : Bool) → (b || true) ≡ true
  or_true true = refl
  or_true false = refl

  or_false : (b : Bool) → (b || false) ≡ b
  or_false true = refl
  or_false false = refl

  after_change-One :
      (c : Change Cursor Canonical) (s : Live ports) (t : Tally ports) (xs : List (Item ports))
      (p : Live ports × Attempt (Unit {0}))
      → get run_id s.recorder.items ≡ some xs
      → Logged ports run_id c.external_id s.recorder xs p
      → One c s t xs (after_change ports run_id input c (found ports c t) p)
  unfolding after_change found
  after_change-One c s t xs (s', done u) start (i, good, named, logged, same) = record {
    rows = i ∷ [];
    logged = logged;
    each_once = ap (λ n. n ∷ []) named;
    found_all = omega arith;
    processed = rw good (omega arith);
    counted = omega arith;
    same_runs = same;
    latest = refl;
    advanced = sym (or_true t.cursor_advanced);
  }
  after_change-One c s t xs (s', thrown m) start same =
      let i = failed_item ports run_id input c m in
      let start' : get run_id s'.recorder.items ≡ some xs =
        ap (λ r. get run_id r.items) same ∙ start in
      unfold note_failure in
      rw (log_item-failed ports run_id input c m s' xs start') (record {
        rows = i ∷ [];
        logged = get-set_self run_id (xs ++ i ∷ []) s'.recorder.items;
        each_once = refl;
        found_all = omega arith;
        processed = omega arith;
        counted = omega arith;
        same_runs = ap (λ r. r.runs) same;
        latest = refl;
        advanced = sym (or_true t.cursor_advanced);
      })

  one_change-One :
      (c : Change Cursor Canonical) (s : Live ports) (t : Tally ports) (xs : List (Item ports))
      → get run_id s.recorder.items ≡ some xs
      → One c s t xs (one_change ports run_id input c s t)
  unfolding one_change
  one_change-One c s t xs start =
      after_change-One c s t xs (process_change ports run_id input c c.operation s) start
        (process_change-Logged ports run_id input c c.operation s xs start)

  keep-append : (xs ys : List (Item ports)) → successes (xs ++ ys) ≡ successes xs + successes ys
  keep-append [] ys = omega arith
  keep-append (x ∷ xs) ys = elim (Bool-cases (is_item_success x.status)) [
    | inl e ↦ rw e (omega (arith, keep-append xs ys))
    | inr e ↦ rw e (keep-append xs ys)
  ]

  Ran-cons :
      (c : Change Cursor Canonical) (cs : List (Change Cursor Canonical)) (s s₁ s' : Live ports)
      (t t₁ t' : Tally ports) (xs : List (Item ports)) (one : Ran (c ∷ []) s s₁ t t₁ xs)
      → Ran cs s₁ s' t₁ t' (xs ++ one.rows)
      → Ran (c ∷ cs) s s' t t' xs
  Ran-cons c cs s s₁ s' t t₁ t' xs one rest = record {
    rows = one.rows ++ rest.rows;
    logged = rest.logged ∙ ap some (append_assoc xs one.rows rest.rows);
    each_once =
        map-append (λ i. i.external_id) one.rows rest.rows
        ∙ ap (λ l. l ++ map (λ i. i.external_id) rest.rows) one.each_once
        ∙ ap (λ l. c.external_id ∷ l) rest.each_once;
    found_all = omega (arith, one.found_all, rest.found_all);
    processed = omega (arith, one.processed, rest.processed, keep-append one.rows rest.rows);
    counted = omega (arith, one.counted, rest.counted);
    same_runs = rest.same_runs ∙ one.same_runs;
    latest = rest.latest ∙ ap (λ l. last_cursor l cs) one.latest;
    advanced =
        rest.advanced
        ∙ ap (λ b. b || is_some_change cs) (one.advanced ∙ or_true t.cursor_advanced)
        ∙ sym (or_true t.cursor_advanced);
  }

  -- The loop only ends at the end of the source's listing.
  abbrev pub Ended :
      Option String
      → List (Change Cursor Canonical)
      → Live ports
      → Tally ports
      → List (Item ports)
      → Looped ports
      → Type 0
  Ended failure cs s t xs (s', t', e) = (e ≡ failure) × Ran cs s s' t t' xs

  go_on-Ended :
      (failure : Option String) (c : Change Cursor Canonical) (cs : List (Change Cursor Canonical))
      (s : Live ports) (t : Tally ports) (xs : List (Item ports)) (p : Looped ports)
      → One c s t xs p
      → ((s₁ : Live ports) (t₁ : Tally ports) (ys : List (Item ports))
          → get run_id s₁.recorder.items ≡ some ys
          → Ended failure cs s₁ t₁ ys (each_change ports run_id input failure cs s₁ t₁))
      → Ended failure
          (c ∷ cs)
          s
          t
          xs
          (go_on ports run_id input (each_change ports run_id input failure cs) p)
  unfolding go_on
  go_on-Ended failure c cs s t xs (s₁, t₁, none) one rest =
      let (e, ran) = rest s₁ t₁ (xs ++ one.rows) one.logged in
      let r = each_change ports run_id input failure cs s₁ t₁ in
      (e, Ran-cons c cs s s₁ r.0 t t₁ r.1 xs one ran)
  go_on-Ended failure c cs s t xs (s₁, t₁, some m) one rest = absurd one

  pub each_change-Ended :
      (failure : Option String) (cs : List (Change Cursor Canonical)) (s : Live ports)
      (t : Tally ports) (xs : List (Item ports))
      → get run_id s.recorder.items ≡ some xs
      → Ended failure cs s t xs (each_change ports run_id input failure cs s t)
  unfolding each_change
  each_change-Ended failure [] s t xs start = (
    refl,
    record {
      rows = [];
      logged = start ∙ ap some (sym (append-nil xs));
      each_once = refl;
      found_all = omega arith;
      processed = omega arith;
      counted = omega arith;
      same_runs = refl;
      latest = refl;
      advanced = sym (or_false t.cursor_advanced);
    },
  )
  each_change-Ended failure (c ∷ cs) s t xs start =
      go_on-Ended failure c cs s t xs (one_change ports run_id input c s t)
        (one_change-One c s t xs start) (each_change-Ended failure cs)
