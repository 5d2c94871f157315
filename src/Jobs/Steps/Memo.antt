-- ===== src/Jobs/Steps/Memo.antt =====
-- Memoisation: what `ctx.step` returned is returned again, and a replay keeps it.
use codegen_patterns.Base.{
  ℕ, String, none, some, Bool, true, ◌&&◌, List, [], ◌∷◌, ◌=ₛ◌, ◌≡◌, refl, sym, subst, ap, ◌∙◌,
  arith, keep, find_first, or_else, All, Bool-cases, Option-cases, inl, inr, eq_iff, eq_refl,
}
use codegen_patterns.Base.Dict.{get, get-set_self, get-remove}
use codegen_patterns.Jobs.Types.{
  Instant, Payload, JobStep, step_completed, step_running, is_step_completed,
}
use codegen_patterns.Jobs.Steps.{
  Steps, RecordStepInput, next_seq, rows_of, find_step, merge_step, new_step, upsert_row,
  record_step, put_kept, clear_incomplete_steps, Outcome, returned, threw, StepWork, step_input,
  finish_step, run_step,
}

abbrev is_memo : String → JobStep → Bool
is_memo step_id r = r.step_id =ₛ step_id && is_step_completed r.status

find-upsert_row :
    (fallback : JobStep) (i : RecordStepInput) (v : Payload) (rows : List JobStep)
    → fallback.step_id ≡ i.step_id
    → fallback.status ≡ step_completed
    → fallback.output ≡ some v
    → i.status ≡ step_completed
    → i.output ≡ some v
    → (r : JobStep) × (find_first (is_memo i.step_id) (upsert_row fallback i rows) ≡ some r)
      × (r.output ≡ some v)
unfolding upsert_row merge_step
find-upsert_row fallback i v [] fs fc fo ic io =
    (fallback, ground (arith, eq_iff fallback.step_id i.step_id), fo)
find-upsert_row fallback i v (r ∷ rs) fs fc fo ic io = elim (Bool-cases (r.step_id =ₛ i.step_id)) [
  | inl here ↦ (merge_step i r, rw (here, ic) (rw here), rw io)
  | inr later ↦
      let (s, found, out) = find-upsert_row fallback i v rs fs fc fo ic io in
      (s, rw later (rw later found), out)
]

find_step-record_step :
    (id : String) (i : RecordStepInput) (v : Payload) (steps : Steps)
    → i.status ≡ step_completed
    → i.output ≡ some v
    → (r : JobStep) × (find_step i.job_run_id i.step_id (record_step id i steps) ≡ some r)
      × (r.output ≡ some v)
unfolding find_step record_step rows_of new_step
find_step-record_step id i v steps c o =
    let rows = or_else (get i.job_run_id steps) [] in
    rw get-set_self (find-upsert_row (new_step id i rows) i v rows refl c o c o)

abbrev pub Memoised : String → String → Payload → Steps → Type 0
Memoised run_id step_id v s =
    (r : JobStep) × (find_step run_id step_id s ≡ some r) × (r.output ≡ some v)

pub finish_step-Memoised :
    (id : String) (u : Instant) (run_id step_id : String) (seq n : ℕ) (o : Outcome) (st s' : Steps)
    (v : Payload)
    → finish_step id u run_id step_id seq n (o, st) ≡ (returned (some v), s')
    → Memoised run_id step_id v s'
unfolding finish_step step_input
finish_step-Memoised id u run_id step_id seq n (returned none) st s' v h = cc (ap (λ p. p.0) h)
finish_step-Memoised id u run_id step_id seq n (threw e) st s' v h = cc (ap (λ p. p.0) h)
finish_step-Memoised id u run_id step_id seq n (returned (some w)) st s' v h =
    let i = record (step_input run_id step_id seq n step_completed) {
      output = some w;
      finished_at = some u;
    } in
    let e : some w ≡ some v = cc (ap (λ p. p.0) h) in
    subst (Memoised run_id step_id v) (ap (λ p. p.1) h) (find_step-record_step id i v st refl e)

module _ (id : String) (t u : Instant) (run_id step_id : String) (work : StepWork)
    (steps : Steps) where
  pub run_step-known :
      (r : JobStep)
      → find_step run_id step_id steps ≡ some r
      → run_step id t u run_id step_id work steps ≡ (returned r.output, steps)
  run_step-known r found = unfold run_step in rw (found, run_step)

  abbrev started : Steps
  started =
      record_step id
        (record (step_input run_id step_id (next_seq (rows_of run_id steps)) 1 step_running) {
          started_at = some t;
        })
        steps

  pub run_step-fresh :
      find_step run_id step_id steps ≡ none
      → run_step id t u run_id step_id work steps
        ≡ finish_step id u run_id step_id (next_seq (rows_of run_id steps)) 1 (work started)
  run_step-fresh fresh = unfold run_step in rw (fresh, run_step)

  -- A step whose work returned an output is completed with it.
  find_step-run_step :
      (s' : Steps) (v : Payload)
      → run_step id t u run_id step_id work steps ≡ (returned (some v), s')
      → Memoised run_id step_id v s'
  find_step-run_step s' v h = elim (Option-cases (find_step run_id step_id steps)) [
    | inr (r, found) ↦
        let e : (returned r.output, steps) ≡ (returned (some v), s') =
          sym (run_step-known r found) ∙ h in
        let out : r.output ≡ some v = cc (ap (λ p. p.0) e) in
        subst (Memoised run_id step_id v) (ap (λ p. p.1) e) (r, found, out)
    | inl fresh ↦
        finish_step-Memoised id u run_id step_id (next_seq (rows_of run_id steps)) 1
          (work started).0 (work started).1 s' v (sym (run_step-fresh fresh) ∙ h)
  ]

-- When the work of a step has returned an output, a later `ctx.step` with the same run and step id
-- returns that output and leaves the steps as they are, whatever work it is given: the work of a
-- completed step is never run again.
pub run_step_memo :
    (id id' : String) (t u t' u' : Instant) (run_id step_id : String) (work work' : StepWork)
    (steps s' : Steps) (v : Payload)
    → run_step id t u run_id step_id work steps ≡ (returned (some v), s')
    → run_step id' t' u' run_id step_id work' s' ≡ (returned (some v), s')
run_step_memo id id' t u t' u' run_id step_id work work' steps s' v h =
    let (r, found, out) = find_step-run_step id t u run_id step_id work steps s' v h in
    rw (run_step-known id' t' u' run_id step_id work' s' r found) (rw out)

find_first-keep :
    (step_id : String) (rows : List JobStep)
    → find_first (is_memo step_id) (keep (λ r. is_step_completed r.status) rows)
      ≡ find_first (is_memo step_id) rows
find_first-keep step_id [] = refl
find_first-keep step_id (r ∷ rs) = ground (arith, find_first-keep step_id rs)

All-keep :
    (rows : List JobStep)
    → All (λ r. is_step_completed r.status ≡ true) (keep (λ r. is_step_completed r.status) rows)
All-keep [] = tt
All-keep (r ∷ rs) = elim (Bool-cases (is_step_completed r.status)) [
  | inl c ↦ rw c (c, All-keep rs)
  | inr o ↦ rw o (All-keep rs)
]

rows_of-put_kept :
    (run_id : String) (rows : List JobStep) (steps : Steps)
    → rows_of run_id (put_kept run_id rows steps) ≡ rows
unfolding put_kept rows_of
rows_of-put_kept run_id [] steps = simp (get-remove, eq_refl)
rows_of-put_kept run_id (r ∷ rs) steps = rw get-set_self

rows_of-clear_incomplete_steps :
    (run_id : String) (steps : Steps)
    → rows_of run_id (clear_incomplete_steps run_id steps)
      ≡ keep (λ r. is_step_completed r.status) (rows_of run_id steps)
unfolding clear_incomplete_steps
rows_of-clear_incomplete_steps run_id steps = elim (Option-cases (get run_id steps)) [
  | inl e ↦ rw (e, clear_incomplete_steps) (unfold rows_of in rw (e, rows_of))
  | inr (rows, e) ↦
      rw (e, clear_incomplete_steps)
        (rows_of-put_kept run_id (keep (λ r. is_step_completed r.status) rows) steps
          ∙ unfold rows_of in rw (e, rows_of))
]

-- Clearing the incomplete steps of a run, as a replay does, leaves only completed rows, and loses
-- no memoised step of the run.
pub clear_incomplete_steps_lem :
    (run_id : String) (steps : Steps)
    → All
        (λ r. is_step_completed r.status ≡ true)
        (rows_of run_id (clear_incomplete_steps run_id steps))
      × ((step_id : String)
          → find_step run_id step_id (clear_incomplete_steps run_id steps)
            ≡ find_step run_id step_id steps)
clear_incomplete_steps_lem run_id steps =
    let e = rows_of-clear_incomplete_steps run_id steps in
    (
      rw e (All-keep (rows_of run_id steps)),
      λ step_id. unfold find_step in rw e (find_first-keep step_id (rows_of run_id steps)),
    )
