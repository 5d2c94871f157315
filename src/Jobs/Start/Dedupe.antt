-- ===== src/Jobs/Start/Dedupe.antt =====
-- Deduplication: within the window a run of the same key is returned, and none is created.
use codegen_patterns.Base.{
  ℕ, ◌+◌, ◌≤◌, ◌<◌, String, Option, none, some, Bool, true, false, List, [], ◌∷◌, ◌≡◌, ◌≢◌, ◌⊎◌,
  refl, sym, ap, ◌∙◌, ◌↔◌, opt_eq-eq, arith, inl, inr, In, Bool-cases, or_else, eq_iff, subst, ltb,
}
use codegen_patterns.Base.Dict.{get, values}
use codegen_patterns.Jobs.Types.{
  Instant, Payload, JobRun, JobDefinition, failed, canceled, StartOptions, ok, dedupe_key,
}
use codegen_patterns.Jobs.Keys.{resolve_key}
use codegen_patterns.Jobs.State.{Orchestrator, resolve_tenant_id}
use codegen_patterns.Jobs.Start.{
  is_dedupe_candidate, best_candidate, find_dedupe_candidate, find_duplicate, and_then,
  find_definition, start_fresh, start, truthy_text, truthy_number,
}

-- Nothing that passes was created later than `r`.
abbrev IsLatest : (JobRun → Bool) → JobRun → List JobRun → Type 0
IsLatest test r rs = (s : JobRun) → In s rs → test s ≡ true → s.created_at ≤ r.created_at

-- With a first candidate, the loop ends with a latest one.
best_candidate-some :
    (test : JobRun → Bool) (b : JobRun) (rs : List JobRun)
    → (r : JobRun) × (best_candidate test (some b) rs ≡ some r)
      × ((r ≡ b) ⊎ (In r rs × (test r ≡ true)))
      × (b.created_at ≤ r.created_at)
      × IsLatest test r rs
unfolding best_candidate
best_candidate-some test b [] = (b, refl, inl refl, omega arith, λ s i. absurd i)
best_candidate-some test b (x ∷ rs) = elim (Bool-cases (test x)) [
  | inr f ↦
      let (r, e, from, le, latest) = best_candidate-some test b rs in
      (r, rw f e, later from, le, first r latest (λ t. cc))
  | inl t ↦ elim (Bool-cases (ltb b.created_at x.created_at)) [
    | inl newer ↦
        let (r, e, from, le, latest) = best_candidate-some test x rs in
        (r, rw (t, newer) e, switched t from, ground arith, first r latest (λ _. le))
    | inr older ↦
        let (r, e, from, le, latest) = best_candidate-some test b rs in
        (r, rw (t, older) e, later from, le, first r latest (λ _. ground arith))
  ]
]
  where
    later :
        {r : JobRun}
        → (r ≡ b) ⊎ (In r rs × (test r ≡ true))
        → (r ≡ b) ⊎ (In r (x ∷ rs) × (test r ≡ true))
    later (inl e) = inl e
    later (inr (i, t)) = inr (inr i, t)

    switched :
        {r : JobRun}
        → test x ≡ true
        → (r ≡ x) ⊎ (In r rs × (test r ≡ true))
        → (r ≡ b) ⊎ (In r (x ∷ rs) × (test r ≡ true))
    switched t (inl e) = inr (inl e, rw e t)
    switched t (inr (i, u)) = inr (inr i, u)

    first :
        (r : JobRun)
        → IsLatest test r rs
        → (test x ≡ true → x.created_at ≤ r.created_at)
        → IsLatest test r (x ∷ rs)
    first r latest h s (inl e) t = subst (λ y. y.created_at ≤ r.created_at) (sym e) (h (rw (← e) t))
    first r latest h s (inr i) t = latest s i t

best_candidate-found :
    (test : JobRun → Bool) (rs : List JobRun) (s : JobRun)
    → In s rs
    → test s ≡ true
    → (r : JobRun) × (best_candidate test none rs ≡ some r)
      × In r rs
      × (test r ≡ true)
      × IsLatest test r rs
unfolding best_candidate
best_candidate-found test [] s i t = absurd i
best_candidate-found test (x ∷ rs) s i t = elim (Bool-cases (test x)) [
  | inl u ↦
      let (r, e, from, le, latest) = best_candidate-some test x rs in
      (
        r,
        rw u e,
        listed from,
        passes u from,
        λ y j v. elim j [
          | inl q ↦ subst (λ z. z.created_at ≤ r.created_at) (sym q) le
          | inr k ↦ latest y k v
        ],
      )
  | inr f ↦
      let (r, e, j, v, latest) = best_candidate-found test rs s (behind f i) t in
      (
        r,
        rw f e,
        inr j,
        v,
        λ y k w. elim k [
          | inl q ↦ cc (sym f ∙ subst (λ z. test z ≡ true) q w)
          | inr l ↦ latest y l w
        ],
      )
]
  where
    listed : {r : JobRun} → (r ≡ x) ⊎ (In r rs × (test r ≡ true)) → In r (x ∷ rs)
    listed (inl e) = inl e
    listed (inr (j, v)) = inr j

    passes : {r : JobRun} → test x ≡ true → (r ≡ x) ⊎ (In r rs × (test r ≡ true)) → test r ≡ true
    passes u (inl e) = rw e u
    passes u (inr (j, v)) = v

    behind : test x ≡ false → In s (x ∷ rs) → In s rs
    behind f (inl e) = cc (sym f ∙ subst (λ z. test z ≡ true) e t)
    behind f (inr j) = j

-- A run of the same type and key, neither failed nor canceled, that was created in the window.
abbrev pub IsRecent : String → String → Instant → ℕ → JobRun → Type 0
IsRecent type key now window r =
    (r.job_type ≡ type)
    × (r.dedupe_key ≡ some key)
    × (r.status ≢ failed)
    × (r.status ≢ canceled)
    × (now < r.created_at + window)

is_dedupe_candidate_iff :
    (type key : String) (now : Instant) (window : ℕ) (r : JobRun)
    → (is_dedupe_candidate type (some key) now window r ≡ true) ↔ IsRecent type key now window r
unfolding is_dedupe_candidate
is_dedupe_candidate_iff type key now window r = (
  λ h. (
    ground (arith, eq_iff r.job_type type),
    opt_eq-eq r.dedupe_key (some key) (ground arith),
    λ e. ground arith,
    λ e. ground arith,
    ground arith,
  ),
  λ h. ground (arith, eq_iff r.job_type type, eq_iff key key),
)

module _ (new_id : String) (now : Instant) (type : String) (input : Option Payload)
    (opts : StartOptions) (o : Orchestrator) (d : JobDefinition) (template key : String)
    (window : ℕ) (tenant : Option String) where
  find_duplicate_lem :
      truthy_text d.dedupe_key_template ≡ some template
      → truthy_number d.dedupe_window_ms ≡ some window
      → resolve_key o.handlers dedupe_key type (some template) (or_else input []) ≡ ok (some key)
      → find_duplicate now type d (or_else input []) o
        ≡ ok (find_dedupe_candidate type (some key) now window o.runs)
  unfolding find_duplicate
  find_duplicate_lem t w k = rw (t, w, k)

  start_duplicate :
      {r : JobRun}
      → get type o.jobs ≡ some d
      → resolve_tenant_id o.multi_tenant "start" opts.tenant_id ≡ ok tenant
      → find_duplicate now type d (or_else input []) o ≡ ok (some r)
      → start new_id now type input opts o ≡ (o, ok r)
  unfolding start_fresh
  start_duplicate defined gate e =
      let named : find_definition type o ≡ ok d =
        unfold find_definition in rw (defined, find_definition) in
      unfold start in rw (gate, start) (rw (named, and_then) (rw (e, and_then)))

  -- If the definition of the type has a dedupe template and a window that are not empty or 0, the
  -- tenant gate passes, the key is computed, and a run of that type and key, neither failed nor
  -- canceled, was created in the window, then `start` changes nothing and returns the run of this
  -- kind that was created last.
  pub start_dedupe :
      get type o.jobs ≡ some d
      → resolve_tenant_id o.multi_tenant "start" opts.tenant_id ≡ ok tenant
      → truthy_text d.dedupe_key_template ≡ some template
      → truthy_number d.dedupe_window_ms ≡ some window
      → resolve_key o.handlers dedupe_key type (some template) (or_else input []) ≡ ok (some key)
      → (s : JobRun) → In s (values o.runs)
      → IsRecent type key now window s
      → (r : JobRun) × (start new_id now type input opts o ≡ (o, ok r))
        × In r (values o.runs)
        × IsRecent type key now window r
        × ((s' : JobRun)
            → In s' (values o.runs)
            → IsRecent type key now window s'
            → s'.created_at ≤ r.created_at)
  unfolding find_dedupe_candidate
  start_dedupe defined gate t w k s i recent =
      let test = is_dedupe_candidate type (some key) now window in
      let iff = is_dedupe_candidate_iff type key now window in
      let (r, e, j, v, latest) = best_candidate-found test (values o.runs) s i ((iff s).1 recent) in
      (
        r,
        start_duplicate defined gate (find_duplicate_lem t w k ∙ ap ok e),
        j,
        (iff r).0 v,
        λ y l u. latest y l ((iff y).1 u),
      )
