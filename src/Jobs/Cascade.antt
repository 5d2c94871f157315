-- ===== src/Jobs/Cascade.antt =====
-- Which runs a cancellation cancels, and what the failure of a run does to the other runs.
pub mod Reached
pub mod Failure
use codegen_patterns.Base.{
  String, Option, none, some, Bool, true, false, ◌&&◌, ◌||◌, not, List, [], ◌∷◌, ◌≡◌, ◌≢◌, ◌⊎◌,
  refl, sym, ◌∙◌, ap, arith, inl, inr, subst, Bool-cases, Option-cases, text-cases, opt_eq,
  if◌then◌else◌, keep, contains, ◌=ₛ◌, eq_iff, eq_refl, In, In-keep, keep-In, In-contains,
  contains-In, some-eq,
}
use codegen_patterns.Base.Dict.{
  Dict, get, set, values, get-set, get-set_self, get-set_ne, get-values,
}
use codegen_patterns.Jobs.Types.{
  Instant, JobRun, RunStatus, canceled, is_terminal, ParentClosePolicy, terminate, cancel, abandon,
}
use codegen_patterns.Jobs.State.{
  Orchestrator, finish_run, canceled_run, transition_to_canceled, cancel_each, cancel_tree,
  cancel_locked, cascade_targets, descendants, is_terminate, is_cancel, ids_of,
}
use codegen_patterns.Jobs.State.Released.{touch, map_run, get-finish_run, dependents_of}
use codegen_patterns.Jobs.Change.Keyed.{Keyed, value-found}

abbrev pub status_in : Option JobRun → Option RunStatus
status_in none = none
status_in (some r) = some r.status

abbrev pub status_of : String → Orchestrator → Option RunStatus
status_of k o = status_in (get k o.runs)

-- What a cancellation makes of a status.
abbrev pub cancel_status : RunStatus → RunStatus
cancel_status s = if is_terminal s then s else canceled

abbrev pub cancel_if : Bool → Option RunStatus → Option RunStatus
cancel_if b none = none
cancel_if b (some s) = some (if b then cancel_status s else s)

status_in-touch :
    (now : Instant) (b : Bool) (r : Option JobRun)
    → status_in (map_run (touch now b) r) ≡ status_in r
status_in-touch now b none = refl
status_in-touch now b (some r) = ground arith

cancel_if-false : (s : Option RunStatus) → cancel_if false s ≡ s
cancel_if-false none = refl
cancel_if-false (some s) = refl

cancel_if-cancel_if :
    (a b : Bool) (s : Option RunStatus) → cancel_if b (cancel_if a s) ≡ cancel_if (a || b) s
cancel_if-cancel_if a b none = refl
cancel_if-cancel_if a b (some s) = ground arith

module _ (id : String) (now : Instant) (o : Orchestrator) where
  transition-none : get id o.runs ≡ none → transition_to_canceled id now o ≡ o
  transition-none e = unfold transition_to_canceled in rw (e, transition_to_canceled)

  transition-over :
      (r : JobRun)
      → get id o.runs ≡ some r
      → is_terminal r.status ≡ true
      → transition_to_canceled id now o ≡ o
  transition-over r e t = unfold transition_to_canceled in rw (e, transition_to_canceled, t)

  transition-live :
      (r : JobRun)
      → get id o.runs ≡ some r
      → is_terminal r.status ≡ false
      → transition_to_canceled id now o ≡ finish_run id (canceled_run now r) now o
  transition-live r e t = unfold transition_to_canceled in rw (e, transition_to_canceled, t)

module _ (k id : String) (now : Instant) (o : Orchestrator) where
  status_of-idle :
      (r : Option JobRun)
      → get id o.runs ≡ r
      → cancel_if true (status_in r) ≡ status_in r
      → status_of k o ≡ cancel_if (k =ₛ id) (status_of k o)
  status_of-idle r e same_status = elim (text-cases k id) [
    | inl same ↦ rw (same, e, eq_refl) (sym same_status)
    | inr (_, test) ↦ rw test (sym (cancel_if-false (status_of k o)))
  ]

  status_of-written :
      (r : JobRun)
      → get id o.runs ≡ some r
      → is_terminal r.status ≡ false
      → status_in (get k (set id (canceled_run now r) o.runs)) ≡ cancel_if (k =ₛ id) (status_of k o)
  unfolding canceled_run
  status_of-written r e t = elim (text-cases k id) [
    | inl same ↦ rw (same, get-set_self, e, eq_refl, t)
    | inr (other, test) ↦
        rw (get-set_ne k id (canceled_run now r) o.runs (λ q. other (sym q)), test)
          (sym (cancel_if-false (status_of k o)))
  ]

  status_of-transition :
      status_of k (transition_to_canceled id now o) ≡ cancel_if (k =ₛ id) (status_of k o)
  status_of-transition = elim (Option-cases (get id o.runs)) [
    | inl e ↦ rw (transition-none id now o e) (status_of-idle none e refl)
    | inr (r, e) ↦ elim (Bool-cases (is_terminal r.status)) [
      | inl t ↦ rw (transition-over id now o r e t) (status_of-idle (some r) e (rw t))
      | inr t ↦ rw (transition-live id now o r e t) (
          ap status_in (get-finish_run k id (canceled_run now r) now o)
          ∙ status_in-touch now (contains k (dependents_of id o))
              (get k (set id (canceled_run now r) o.runs))
          ∙ status_of-written r e t)
    ]
  ]

status_of-cancel_each :
    (k : String) (ids : List String) (now : Instant) (o : Orchestrator)
    → status_of k (cancel_each ids now o) ≡ cancel_if (contains k ids) (status_of k o)
unfolding cancel_each
status_of-cancel_each k [] now o = sym (cancel_if-false (status_of k o))
status_of-cancel_each k (id ∷ ids) now o =
    status_of-cancel_each k ids now (transition_to_canceled id now o)
    ∙ ap (cancel_if (contains k ids)) (status_of-transition k id now o)
    ∙ cancel_if-cancel_if (k =ₛ id) (contains k ids) (status_of k o)

abbrev pub picked : (ParentClosePolicy → Bool) → List JobRun → List String
picked p rs = ids_of (keep (λ d. p d.parent_close_policy) rs)

pub status_of-cancel_tree :
    (k : String) (cascade : Option Bool) (run : JobRun) (id : String) (now : Instant)
    (o : Orchestrator)
    → status_of k (cancel_tree cascade run id now o)
      ≡ cancel_if
          ((contains k (picked is_terminate (cascade_targets cascade run id o.runs))
              || contains k (picked is_cancel (cascade_targets cascade run id o.runs)))
            || k =ₛ id)
          (status_of k o)
unfolding cancel_tree
status_of-cancel_tree k cascade run id now o =
    let targets = cascade_targets cascade run id o.runs in
    let xs = picked is_terminate targets in
    let ys = picked is_cancel targets in
    let p = cancel_each xs now o in
    let q = cancel_each ys now p in
    status_of-transition k id now q
    ∙ ap (cancel_if (k =ₛ id)) (
        status_of-cancel_each k ys now p
        ∙ ap (cancel_if (contains k ys)) (status_of-cancel_each k xs now o)
        ∙ cancel_if-cancel_if (contains k xs) (contains k ys) (status_of k o))
    ∙ cancel_if-cancel_if (contains k xs || contains k ys) (k =ₛ id) (status_of k o)

-- Whether the cancellation reaches a run: it is the run itself, or the cascade is on and the run
-- has the same root and is not abandoned.
abbrev pub is_cascading : Option Bool → Bool
is_cascading none = true
is_cascading (some b) = b

abbrev pub is_abandon : ParentClosePolicy → Bool
is_abandon abandon = true
is_abandon _ = false

abbrev pub is_reached : Option Bool → JobRun → String → JobRun → Bool
is_reached cascade run id r =
    r.id =ₛ id
    || (is_cascading cascade
        && r.root_run_id =ₛ run.root_run_id
        && not (is_abandon r.parent_close_policy))

contains-ids_of : (rs : List JobRun) (r : JobRun) → In r rs → contains r.id (ids_of rs) ≡ true
contains-ids_of [] r h = absurd h
contains-ids_of (s ∷ rs) r (inl e) = ground (arith, eq_iff r.id s.id)
contains-ids_of (s ∷ rs) r (inr h) = ground (arith, contains-ids_of rs r h)

ids_of-contains :
    (rs : List JobRun) (k : String)
    → contains k (ids_of rs) ≡ true
    → (r : JobRun) × In r rs × (r.id ≡ k)
ids_of-contains [] k h = cc
ids_of-contains (s ∷ rs) k h = elim (text-cases k s.id) [
  | inl e ↦ (s, inl refl, sym e)
  | inr (_, test) ↦ let (r, i, e) = ids_of-contains rs k (rw test at h) in (r, inr i, e)
]

-- Under the cascade, a list of targets has the id of a stored run exactly when the run has the same
-- root, is another run, is not terminal and has the list's policy.
module _ (run : JobRun) (id : String) (runs : Dict JobRun) (keyed : Keyed runs)
    (p : ParentClosePolicy → Bool) (k : String) (r : JobRun) (found : get k runs ≡ some r) where
  abbrev pub is_target : JobRun → Bool
  is_target d = d.root_run_id =ₛ run.root_run_id && not (d.id =ₛ id) && not (is_terminal d.status)

  pub contains-picked_of :
      is_target r ≡ true
      → p r.parent_close_policy ≡ true
      → contains k (picked p (descendants run id runs)) ≡ true
  unfolding descendants
  contains-picked_of t q =
      subst (λ x. contains x (picked p (descendants run id runs)) ≡ true) (keyed.own_id k r found)
        (contains-ids_of _ r (
          In-keep (λ d. p d.parent_close_policy) r (keep is_target (values runs))
            (In-keep is_target r (values runs) (get-values k r runs found) t) q))

  pub picked-contains_of :
      contains k (picked p (descendants run id runs)) ≡ true
      → (is_target r ≡ true) × (p r.parent_close_policy ≡ true)
  unfolding descendants
  picked-contains_of h =
      let (s, i, e) = ids_of-contains _ k h in
      let (j, q) = keep-In (λ d. p d.parent_close_policy) s (keep is_target (values runs)) i in
      let (l, t) = keep-In is_target s (values runs) j in
      let same : s ≡ r =
        some-eq (sym (value-found s runs keyed l) ∙ ap (λ x. get x runs) e ∙ found) in
      (subst (λ x. is_target x ≡ true) same t, subst (λ x. p x.parent_close_policy ≡ true) same q)
