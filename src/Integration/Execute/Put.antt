-- ===== src/Integration/Execute/Put.antt =====
-- The `put` of the cursor at the end of `ExecuteIntegrationUseCase.execute`
-- (integration/execute-integration.use-case.ts).
use codegen_patterns.Base.{
  String, Option, none, some, Bool, true, false, ◌≡◌, ◌≢◌, refl, sym, ◌∙◌, ap,
}
use codegen_patterns.Integration.Recorder.{
  running, success, no_changes, failed, Attempt, done, thrown,
}
use codegen_patterns.Integration.Execute.{Ports, ExecuteIntegrationInput}
use codegen_patterns.Integration.Execute.Loop.{Verdict, Store, put_failed, after_put, put_latest}
use codegen_patterns.Integration.Execute.Runs.{}

module _ (ports : Ports) (input : ExecuteIntegrationInput) where
  open ports use {Cursor, Canonical, is_valid}

  -- What the `put` at the end makes of a verdict and of the store.
  pub record Put (advanced : Bool) (latest : Option Cursor) (v : Verdict ports)
      (store : Store ports) (p : Store ports × Verdict ports) : Type 0 where
    pub keeps_verdict : p.1.0 ≢ failed → p.1 ≡ v
    pub keeps_failed : v.0 ≡ failed → p.1 ≡ v
    pub stays : advanced ≡ false → p.0 ≡ store
    pub stored :
        (c : Cursor)
        → advanced ≡ true
        → latest ≡ some c
        → p.1.0 ≢ failed
        → ports.cursors.get_cursor input.subscription_id input.tenant_id p.0 ≡ done (some c)

  put_failed-failed : (m : String) (v : Verdict ports) → (put_failed ports m v).0 ≡ failed
  unfolding put_failed
  put_failed-failed m (failed, e) = refl
  put_failed-failed m (running, e) = refl
  put_failed-failed m (success, e) = refl
  put_failed-failed m (no_changes, e) = refl

  put_failed-keeps : (m : String) (v : Verdict ports) → v.0 ≡ failed → put_failed ports m v ≡ v
  unfolding put_failed
  put_failed-keeps m (failed, e) h = refl
  put_failed-keeps m (running, e) h = cc
  put_failed-keeps m (success, e) h = cc
  put_failed-keeps m (no_changes, e) h = cc

  after_put-Put :
      (c : Cursor) (v : Verdict ports) (store : Store ports) (p : Store ports × Attempt (Unit {0}))
      → ports.cursors.put_cursor input.subscription_id c input.tenant_id store ≡ p
      → Put true (some c) v store (after_put ports v p)
  unfolding after_put
  after_put-Put c v store (store', done u) e = record {
    keeps_verdict = λ h. refl;
    keeps_failed = λ h. refl;
    stays = λ h. cc;
    stored = λ c' h same ok.
        ap (λ s. ports.cursors.get_cursor input.subscription_id input.tenant_id s)
          (sym (ap (λ p. p.0) e))
        ∙ ports.cursors.get_put input.subscription_id c input.tenant_id store (ap (λ p. p.1) e)
        ∙ ap done same;
  }
  after_put-Put c v store (store', thrown m) e = record {
    keeps_verdict = λ h. absurd (h (put_failed-failed m v));
    keeps_failed = λ h. put_failed-keeps m v h;
    stays = λ h. cc;
    stored = λ c' h same ok. absurd (ok (put_failed-failed m v));
  }

  pub put_latest-Put :
      (advanced : Bool) (latest : Option Cursor) (v : Verdict ports) (store : Store ports)
      → Put advanced latest v store (put_latest ports input advanced latest v store)
  unfolding put_latest
  put_latest-Put true (some c) v store = after_put-Put c v store _ refl
  put_latest-Put true none v store = record {
    keeps_verdict = λ h. refl;
    keeps_failed = λ h. refl;
    stays = λ h. cc;
    stored = λ c h same ok. cc;
  }
  put_latest-Put false latest v store = record {
    keeps_verdict = λ h. refl;
    keeps_failed = λ h. refl;
    stays = λ h. refl;
    stored = λ c h same ok. cc;
  }
