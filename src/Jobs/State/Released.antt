-- ===== src/Jobs/State/Released.antt =====
-- What the release of queued dependents does to each run.
use codegen_patterns.Base.{
  String, Option, none, some, Bool, true, false, ◌&&◌, ◌||◌, List, [], ◌∷◌, ◌=ₛ◌, ◌≡◌, refl, sym,
  arith, if◌then◌else◌, contains, eq_iff, eq_refl, Option-cases, inl, inr, text-cases, or_else,
  some-eq,
}
use codegen_patterns.Base.Dict.{Dict, get, set, get-set_self, get-set_ne}
use codegen_patterns.Jobs.Types.{Instant, JobRun, is_pending}
use codegen_patterns.Jobs.State.{
  Orchestrator, release, release_all, unblock_with, unblock_queued_dependents, finish_run,
}

-- A dependent as the release leaves it.
abbrev pub touch : Instant → Bool → JobRun → JobRun
touch now listed r =
    if listed && is_pending r.status then record r { run_at = now; updated_at = now } else r

abbrev pub map_run : (JobRun → JobRun) → Option JobRun → Option JobRun
map_run f none = none
map_run f (some r) = some (f r)

map_run-id : (now : Instant) (o : Option JobRun) → map_run (touch now false) o ≡ o
map_run-id now none = refl
map_run-id now (some r) = refl

release-none :
    (d : String) (now : Instant) (runs : Dict JobRun)
    → get d runs ≡ none
    → release now d runs ≡ runs
release-none d now runs e = unfold release in rw (e, release)

release-some :
    (d : String) (now : Instant) (runs : Dict JobRun) (r : JobRun)
    → get d runs ≡ some r
    → release now d runs ≡ (
        if is_pending r.status
        then set d (record r { run_at = now; updated_at = now }) runs
        else runs)
release-some d now runs r e = unfold release in rw (e, release)

get-release_some :
    (k d : String) (now : Instant) (runs : Dict JobRun) (r : JobRun) (p : Bool)
    → get d runs ≡ some r
    → is_pending r.status ≡ p
    → get k (if p then set d (record r { run_at = now; updated_at = now }) runs else runs)
      ≡ map_run (touch now (k =ₛ d)) (get k runs)
get-release_some k d now runs r true e q = elim (text-cases k d) [
  | inl same ↦ rw (same, get-set_self, e, eq_refl, q)
  | inr (other, test) ↦
      rw
        (
          get-set_ne k d (record r { run_at = now; updated_at = now }) runs (λ p. other (sym p)),
          test,
        )
        (sym (map_run-id now (get k runs)))
]
get-release_some k d now runs r false e q = elim (text-cases k d) [
  | inl same ↦ rw (same, e, eq_refl, q)
  | inr (other, test) ↦ rw test (sym (map_run-id now (get k runs)))
]

get-release :
    (k d : String) (now : Instant) (runs : Dict JobRun)
    → get k (release now d runs) ≡ map_run (touch now (k =ₛ d)) (get k runs)
get-release k d now runs = elim (Option-cases (get d runs)) [
  | inl e ↦ rw (release-none d now runs e) (ground (arith, eq_iff k d, map_run-id now (get k runs)))
  | inr (r, e) ↦
      rw (release-some d now runs r e)
        (get-release_some k d now runs r (is_pending r.status) e refl)
]

touch_twice :
    (now : Instant) (a b : Bool) (o : Option JobRun)
    → map_run (touch now b) (map_run (touch now a) o) ≡ map_run (touch now (a || b)) o
touch_twice now a b none = refl
touch_twice now a b (some r) = ground arith

pub get-release_all :
    (k : String) (now : Instant) (ds : List String) (runs : Dict JobRun)
    → get k (release_all now ds runs) ≡ map_run (touch now (contains k ds)) (get k runs)
unfolding release_all
get-release_all k now [] runs = sym (map_run-id now (get k runs))
get-release_all k now (d ∷ ds) runs =
    rw (get-release_all k now ds, get-release k d now)
      (touch_twice now (k =ₛ d) (contains k ds) (get k runs))

get-unblock_with :
    (k : String) (ds : List String) (id : String) (now : Instant) (o : Orchestrator)
    → get k (unblock_with ds id now o).runs ≡ map_run (touch now (contains k ds)) (get k o.runs)
unfolding unblock_with
get-unblock_with k [] id now o = sym (map_run-id now (get k o.runs))
get-unblock_with k (d ∷ ds) id now o = get-release_all k now (d ∷ ds) o.runs

abbrev pub dependents_of : String → Orchestrator → List String
dependents_of id o = or_else (get id o.queue_blockers) []

-- What each id holds after a transition of `id` into a terminal status.
pub get-finish_run :
    (k id : String) (next : JobRun) (now : Instant) (o : Orchestrator)
    → get k (finish_run id next now o).runs
      ≡ map_run (touch now (contains k (dependents_of id o))) (get k (set id next o.runs))
unfolding finish_run unblock_queued_dependents
get-finish_run k id next now o =
    get-unblock_with k (dependents_of id o) id now (record o { runs = set id next o.runs })

pub map_run-some :
    (now : Instant) (listed : Bool) (o : Option JobRun) (r : JobRun)
    → map_run (touch now listed) o ≡ some r
    → (s : JobRun) × (o ≡ some s) × (touch now listed s ≡ r)
map_run-some now listed none r e = cc
map_run-some now listed (some s) r e = (s, refl, some-eq e)
