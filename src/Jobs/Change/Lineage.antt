-- ===== src/Jobs/Change/Lineage.antt =====
-- Runs are never dropped, keep their identity, and have the root of their parent.
use codegen_patterns.Base.{
  String, Option, none, some, Bool, ◌≡◌, ◌≢◌, ◌⊎◌, refl, sym, ◌∙◌, ap, arith, inl, inr, some-eq,
  text-cases, contains, subst,
}
use codegen_patterns.Base.Dict.{Dict, get, set, get-set_self, get-set_ne, get-set_cases}
use codegen_patterns.Jobs.Types.{Instant, JobRun}
use codegen_patterns.Jobs.State.{Orchestrator, finish_run}
use codegen_patterns.Jobs.State.Released.{
  touch, map_run, get-finish_run, map_run-some, dependents_of,
}
use codegen_patterns.Jobs.Start.{insert_run, truthy_text}
use codegen_patterns.Jobs.Change.{
  SameIdentity, RootOf, Change, advance, finish, revive, create, aside, Changes, unchanged, also,
}

-- Each run of `runs` is in `later`, with the same identity.
abbrev pub Persists : Dict JobRun → Dict JobRun → Type 0
Persists runs later =
    (k : String) (r : JobRun)
    → get k runs ≡ some r
    → (s : JobRun) × (get k later ≡ some s) × SameIdentity r s

-- A run of `later` was in `runs` with the same identity, or has its root from them.
abbrev pub Grows : Dict JobRun → Dict JobRun → Type 0
Grows runs later =
    (k : String) (s : JobRun)
    → get k later ≡ some s
    → ((r : JobRun) × (get k runs ≡ some r) × SameIdentity r s)
      ⊎ (RootOf runs (truthy_text s.parent_run_id) s.id s.root_run_id
          × ((r : JobRun) → get k runs ≢ some r))

abbrev same : (r : JobRun) → SameIdentity r r
same r = record { id = refl; parent = refl; root = refl; tenant = refl }

touch-SameIdentity :
    (now : Instant) (b : Bool) (r s : JobRun) → SameIdentity r s → SameIdentity r (touch now b s)
touch-SameIdentity now b r s h = ground arith

set-Persists :
    (runs : Dict JobRun) (cur next : JobRun)
    → get cur.id runs ≡ some cur
    → SameIdentity cur next
    → Persists runs (set cur.id next runs)
set-Persists runs cur next found h k r known = elim (text-cases cur.id k) [
  | inl e ↦
      let q : some cur ≡ some r = sym found ∙ (rw e known) in
      (next, rw e (get-set_self k next runs), subst (λ x. SameIdentity x next) (some-eq q) h)
  | inr (n, _) ↦ (r, get-set_ne k cur.id next runs n ∙ known, same r)
]

set-Grows :
    (runs : Dict JobRun) (cur next : JobRun)
    → get cur.id runs ≡ some cur
    → SameIdentity cur next
    → Grows runs (set cur.id next runs)
set-Grows runs cur next found h k s known = elim (get-set_cases k cur.id next s runs known) [
  | inl (e, q) ↦
      inl (cur, subst (λ x. get x runs ≡ some cur) e found, subst (λ x. SameIdentity cur x) q h)
  | inr (_, old) ↦ inl (s, old, same s)
]

module _ (o : Orchestrator) (cur next : JobRun) (now : Instant)
    (found : get cur.id o.runs ≡ some cur) (h : SameIdentity cur next) where
  finish_run-Persists : Persists o.runs (finish_run cur.id next now o).runs
  finish_run-Persists k r known =
      let (s, there, like) = set-Persists o.runs cur next found h k r known in
      let b = contains k (dependents_of cur.id o) in
      (
        touch now b s,
        get-finish_run k cur.id next now o ∙ ap (map_run (touch now b)) there,
        touch-SameIdentity now b r s like,
      )

  finish_run-Grows : Grows o.runs (finish_run cur.id next now o).runs
  finish_run-Grows k s known =
      let b = contains k (dependents_of cur.id o) in
      let (t, there, e) =
        map_run-some now b (get k (set cur.id next o.runs)) s
          (sym (get-finish_run k cur.id next now o) ∙ known) in
      elim (get-set_cases k cur.id next t o.runs there) [
        | inl (same_id, q) ↦ inl (
          cur,
          subst (λ x. get x o.runs ≡ some cur) same_id found,
          subst (λ x. SameIdentity cur x) e
              (touch-SameIdentity now b cur t (subst (λ x. SameIdentity cur x) q h)),
        )
        | inr (_, old) ↦
            inl (t, old, subst (λ x. SameIdentity t x) e (touch-SameIdentity now b t t (same t)))
      ]

module _ (o : Orchestrator) (row : JobRun) (fresh : get row.id o.runs ≡ none) where
  insert-Persists : Persists o.runs (set row.id row o.runs)
  insert-Persists k r known = elim (text-cases row.id k) [
    | inl e ↦ cc (subst (λ x. get x o.runs ≡ none) e fresh)
    | inr (n, _) ↦ (r, get-set_ne k row.id row o.runs n ∙ known, same r)
  ]

  insert-Grows :
      RootOf o.runs (truthy_text row.parent_run_id) row.id row.root_run_id
      → Grows o.runs (set row.id row o.runs)
  insert-Grows root k s known = elim (get-set_cases k row.id row s o.runs known) [
    | inl (e, q) ↦ inr (
      subst (λ x. RootOf o.runs (truthy_text x.parent_run_id) x.id x.root_run_id) q root,
      λ r known'. cc (subst (λ x. get x o.runs ≡ none) e fresh),
    )
    | inr (_, old) ↦ inl (s, old, same s)
  ]

pub Change-Persists : {o p : Orchestrator} → Change o p → Persists o.runs p.runs
unfolding insert_run
Change-Persists {o} (advance cur next found like live stays free) =
    set-Persists o.runs cur next found like
Change-Persists {o} (finish cur next now found like live over early) =
    finish_run-Persists o cur next now found like
Change-Persists {o} (revive cur next steps found like over live free) =
    set-Persists o.runs cur next found like
Change-Persists {o} (create row blocker fresh waits root live) = insert-Persists o row fresh
Change-Persists (aside steps jobs handlers) = λ k r known. (r, known, same r)

Change-Grows : {o p : Orchestrator} → Change o p → Grows o.runs p.runs
unfolding insert_run
Change-Grows {o} (advance cur next found like live stays free) =
    set-Grows o.runs cur next found like
Change-Grows {o} (finish cur next now found like live over early) =
    finish_run-Grows o cur next now found like
Change-Grows {o} (revive cur next steps found like over live free) =
    set-Grows o.runs cur next found like
Change-Grows {o} (create row blocker fresh waits root live) = insert-Grows o row fresh root
Change-Grows (aside steps jobs handlers) = λ k s known. inl (s, known, same s)

-- Every run has the root of its parent, which is there; one without a parent is its own root.
abbrev pub IsRooted : Dict JobRun → Type 0
IsRooted runs =
    (k : String) (r : JobRun)
    → get k runs ≡ some r
    → RootOf runs (truthy_text r.parent_run_id) r.id r.root_run_id

RootOf-Persists :
    (runs later : Dict JobRun) (parent : Option String) (id root : String)
    → Persists runs later
    → RootOf runs parent id root
    → RootOf later parent id root
RootOf-Persists runs later none id root keep h = h
RootOf-Persists runs later (some p) id root keep (r, found, e) =
    let (s, there, like) = keep p r found in (s, there, like.root ∙ e)

RootOf-same :
    (runs : Dict JobRun) (r s : JobRun)
    → SameIdentity r s
    → RootOf runs (truthy_text r.parent_run_id) r.id r.root_run_id
    → RootOf runs (truthy_text s.parent_run_id) s.id s.root_run_id
RootOf-same runs r s like h = rw (like.parent, like.id, like.root) h

pub Change-IsRooted : {o p : Orchestrator} → Change o p → IsRooted o.runs → IsRooted p.runs
Change-IsRooted {o} {p} c h k s known =
    RootOf-Persists o.runs p.runs (truthy_text s.parent_run_id) s.id s.root_run_id
      (Change-Persists c)
      (elim (Change-Grows c k s known) [
        | inl (r, old, like) ↦ RootOf-same o.runs r s like (h k r old)
        | inr (root, _) ↦ root
      ])

pub Changes-Persists : {o p : Orchestrator} → Changes o p → Persists o.runs p.runs
Changes-Persists unchanged = λ k r known. (r, known, same r)
Changes-Persists (also h c) = λ k r known.
    let (s, there, like) = Changes-Persists h k r known in
    let (t, then_there, like') = Change-Persists c k s there in
    (
      t,
      then_there,
      record {
        id = like'.id ∙ like.id;
        parent = like'.parent ∙ like.parent;
        root = like'.root ∙ like.root;
        tenant = like'.tenant ∙ like.tenant;
      },
    )

pub Changes-IsRooted : {o p : Orchestrator} → Changes o p → IsRooted o.runs → IsRooted p.runs
Changes-IsRooted unchanged h = h
Changes-IsRooted (also k c) h = Change-IsRooted c (Changes-IsRooted k h)
