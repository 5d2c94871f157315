-- ===== src/Jobs/Queue.antt =====
-- No starvation: every run that waits behind a concurrency key has a live run that will release it.
use codegen_patterns.Base.{
  String, Option, none, some, Bool, true, false, List, [], ◌∷◌, ◌≡◌, ◌≢◌, ◌⊎◌, ◌<◌, refl, sym, ◌∙◌,
  arith, contains, In, In-contains, eq_iff, text-cases, inl, inr, or_else,
}
use codegen_patterns.Base.Dict.{
  get, set, remove, get-set_self, get-set_ne, get-set_cases, get-remove, Dict,
}
use codegen_patterns.Jobs.Types.{Instant, JobRun, pending, is_terminal}
use codegen_patterns.Jobs.State.{
  Orchestrator, queued_run_at, release_all, unblock_with, unblock_queued_dependents, finish_run,
}
use codegen_patterns.Jobs.State.Released.{touch, map_run, get-release_all}

-- A run that lost a `queue` collision and has not been released.
abbrev pub IsStuck : JobRun → Type 0
IsStuck r = (r.status ≡ pending) × (r.run_at ≡ queued_run_at)

-- Some run that is not terminal has `id` on its list of dependents.
pub record HasBlocker (runs : Dict JobRun) (blockers : Dict (List String)) (id : String)
    : Type 0 where
  pub blocker : String
  pub run : JobRun
  pub dependents : List String
  pub found : get blocker runs ≡ some run
  pub live : is_terminal run.status ≡ false
  pub listed : get blocker blockers ≡ some dependents
  pub waits : In id dependents

abbrev pub Covered : Dict JobRun → Dict (List String) → Type 0
Covered runs blockers =
    (id : String) (r : JobRun) → get id runs ≡ some r → IsStuck r → HasBlocker runs blockers id

abbrev pub NoStarvation : Orchestrator → Type 0
NoStarvation o = Covered o.runs o.queue_blockers

-- A blocker stays one when a run that is not terminal is written.
pub HasBlocker-set :
    (runs : Dict JobRun) (blockers : Dict (List String)) (id k : String) (next : JobRun)
    → is_terminal next.status ≡ false
    → HasBlocker runs blockers k
    → HasBlocker (set id next runs) blockers k
HasBlocker-set runs blockers id k next live h = elim (text-cases id h.blocker) [
  | inl same ↦ record {
    blocker = h.blocker;
    run = next;
    dependents = h.dependents;
    found = rw same (get-set_self h.blocker next runs);
    live = live;
    listed = h.listed;
    waits = h.waits;
  }
  | inr (other, _) ↦ record {
    blocker = h.blocker;
    run = h.run;
    dependents = h.dependents;
    found = get-set_ne h.blocker id next runs other ∙ h.found;
    live = h.live;
    listed = h.listed;
    waits = h.waits;
  }
]

-- A write of a run that is neither terminal nor stuck keeps every blocker.
pub Covered-set :
    (runs : Dict JobRun) (blockers : Dict (List String)) (id : String) (next : JobRun)
    → is_terminal next.status ≡ false
    → ¬ IsStuck next
    → Covered runs blockers
    → Covered (set id next runs) blockers
Covered-set runs blockers id next live free inv k r found stuck =
    elim (get-set_cases k id next r runs found) [
      | inl (_, e) ↦ absurd (free (rw e stuck))
      | inr (_, old) ↦ HasBlocker-set runs blockers id k next live (inv k r old stuck)
    ]

-- Runs as the release of `dependents` leaves them.
touch-stuck :
    (now : Instant) (listed : Bool) (o : Option JobRun) (r : JobRun)
    → now < queued_run_at
    → map_run (touch now listed) o ≡ some r
    → IsStuck r
    → (listed ≡ false) × (o ≡ some r)
touch-stuck now listed none r early e stuck = cc
touch-stuck now false (some s) r early e stuck = (refl, e)
touch-stuck now true (some s) r early e stuck = ground arith

map_run-some :
    (now : Instant) (listed : Bool) (o : Option JobRun) (r : JobRun)
    → o ≡ some r
    → map_run (touch now listed) o ≡ some (touch now listed r)
map_run-some now listed o r e = rw e

touch-live :
    (now : Instant) (listed : Bool) (r : JobRun)
    → is_terminal r.status ≡ false
    → is_terminal (touch now listed r).status ≡ false
touch-live now listed r h = ground arith

-- Every stuck run either is one of the given dependents or has a blocker other than `id`.
abbrev CoveredBut : String → List String → Dict JobRun → Dict (List String) → Type 0
CoveredBut id ds runs blockers =
    (k : String) (r : JobRun)
    → get k runs ≡ some r
    → IsStuck r
    → ((h : HasBlocker runs blockers k) × (id ≢ h.blocker)) ⊎ In k ds

-- Once its dependents are released, a run may leave the map of blockers.
Covered-release :
    (runs : Dict JobRun) (blockers : Dict (List String)) (id : String) (ds : List String)
    (now : Instant)
    → now < queued_run_at
    → CoveredBut id ds runs blockers
    → Covered (release_all now ds runs) (remove id blockers)
Covered-release runs blockers id ds now early inv k r found stuck =
    let (out, old) =
      touch-stuck now (contains k ds) (get k runs) r early
        (sym (get-release_all k now ds runs) ∙ found) stuck in
    elim (inv k r old stuck) [
      | inr listed ↦ cc (In-contains k ds listed)
      | inl (h, other) ↦ record {
        blocker = h.blocker;
        run = touch now (contains h.blocker ds) h.run;
        dependents = h.dependents;
        found =
            get-release_all h.blocker now ds runs
            ∙ map_run-some now (contains h.blocker ds) (get h.blocker runs) h.run h.found;
        live = touch-live now (contains h.blocker ds) h.run h.live;
        listed =
            ground (arith, get-remove h.blocker id blockers, eq_iff id h.blocker, h.listed, other);
        waits = h.waits;
      }
    ]

unblock_with-NoStarvation :
    (ds : List String) (id : String) (now : Instant) (o : Orchestrator)
    → now < queued_run_at
    → CoveredBut id ds o.runs o.queue_blockers
    → NoStarvation (unblock_with ds id now o)
unfolding unblock_with
unblock_with-NoStarvation [] id now o early inv = λ k r found stuck. elim (inv k r found stuck) [
  | inl (h, _) ↦ h
  | inr none_listed ↦ absurd none_listed
]
unblock_with-NoStarvation (d ∷ ds) id now o early inv =
    Covered-release o.runs o.queue_blockers id (d ∷ ds) now early inv

set-CoveredBut :
    (runs : Dict JobRun) (blockers : Dict (List String)) (id : String) (next : JobRun)
    → ¬ IsStuck next
    → Covered runs blockers
    → CoveredBut id (or_else (get id blockers) []) (set id next runs) blockers
set-CoveredBut runs blockers id next free inv k r found stuck =
    elim (get-set_cases k id next r runs found) [
      | inl (_, e) ↦ absurd (free (rw e stuck))
      | inr (_, old) ↦
          let h = inv k r old stuck in
          elim (text-cases id h.blocker) [
            | inl same ↦ inr (rw (same, h.listed) h.waits)
            | inr (other, _) ↦ inl (
              record {
                blocker = h.blocker;
                run = h.run;
                dependents = h.dependents;
                found = get-set_ne h.blocker id next runs other ∙ h.found;
                live = h.live;
                listed = h.listed;
                waits = h.waits;
              },
              other,
            )
          ]
    ]

-- A transition of `id` with the release of its dependents: nothing is left waiting for it.
pub finish_run-NoStarvation :
    (o : Orchestrator) (id : String) (next : JobRun) (now : Instant)
    → now < queued_run_at
    → ¬ IsStuck next
    → NoStarvation o
    → NoStarvation (finish_run id next now o)
unfolding finish_run unblock_queued_dependents
finish_run-NoStarvation o id next now early free inv =
    unblock_with-NoStarvation (or_else (get id o.queue_blockers) []) id now
      (record o { runs = set id next o.runs }) early
      (set-CoveredBut o.runs o.queue_blockers id next free inv)
