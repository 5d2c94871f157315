-- ===== src/Jobs/Change/Waiting.antt =====
-- Every change keeps a live blocker for each waiting run.
use codegen_patterns.Base.{
  String, Option, none, some, true, false, List, [], ◌∷◌, ◌++◌, ◌≡◌, ◌∙◌, arith, or_else, inl, inr,
  text-cases, In-append_left, In-append_last,
}
use codegen_patterns.Base.Dict.{Dict, get, set, get-set_self, get-set_ne, get-set_cases}
use codegen_patterns.Jobs.Types.{JobRun, is_terminal}
use codegen_patterns.Jobs.State.{Orchestrator}
use codegen_patterns.Jobs.Start.{insert_run, add_blocked}
use codegen_patterns.Jobs.Queue.{
  IsStuck, HasBlocker, Covered, NoStarvation, HasBlocker-set, Covered-set, finish_run-NoStarvation,
}
use codegen_patterns.Jobs.Change.{
  BlockerIsLive, Change, advance, finish, revive, create, aside, Changes, unchanged, also,
}

-- A list of dependents only grows when a run is added to it.
HasBlocker-add_blocked :
    (runs : Dict JobRun) (blockers : Dict (List String)) (b id k : String)
    → HasBlocker runs blockers k
    → HasBlocker runs (add_blocked (some b) id blockers) k
unfolding add_blocked
HasBlocker-add_blocked runs blockers b id k h = elim (text-cases b h.blocker) [
  | inl same ↦ record {
    blocker = h.blocker;
    run = h.run;
    dependents = h.dependents ++ id ∷ [];
    found = h.found;
    live = h.live;
    listed = rw (same, get-set_self, h.listed);
    waits = In-append_left k h.dependents (id ∷ []) h.waits;
  }
  | inr (other, _) ↦ record {
    blocker = h.blocker;
    run = h.run;
    dependents = h.dependents;
    found = h.found;
    live = h.live;
    listed =
        get-set_ne h.blocker b (or_else (get b blockers) [] ++ id ∷ []) blockers other ∙ h.listed;
    waits = h.waits;
  }
]

insert_run-Covered :
    (runs : Dict JobRun) (blockers : Dict (List String)) (row : JobRun) (blocker : Option String)
    → get row.id runs ≡ none
    → BlockerIsLive runs row blocker
    → is_terminal row.status ≡ false
    → Covered runs blockers
    → Covered (set row.id row runs) (add_blocked blocker row.id blockers)
insert_run-Covered runs blockers row none fresh waits live inv =
    unfold add_blocked in Covered-set runs blockers row.id row live waits inv
insert_run-Covered runs blockers row (some b) fresh (r, found, up) live inv = λ k s known stuck.
    elim (get-set_cases k row.id row s runs known) [
      | inr (_, old) ↦
          HasBlocker-set runs (add_blocked (some b) row.id blockers) row.id k row live
            (HasBlocker-add_blocked runs blockers b row.id k (inv k s old stuck))
      | inl (same, _) ↦ record {
        blocker = b;
        run = r;
        dependents = or_else (get b blockers) [] ++ row.id ∷ [];
        found = get-set_ne b row.id row runs (λ e. cc) ∙ found;
        live = up;
        listed =
            unfold add_blocked in
            get-set_self b (or_else (get b blockers) [] ++ row.id ∷ []) blockers;
        waits = rw (← same) (In-append_last row.id (or_else (get b blockers) []));
      }
    ]

terminal-not-IsStuck : (r : JobRun) → is_terminal r.status ≡ true → ¬ IsStuck r
terminal-not-IsStuck r over stuck = ground arith

pub Change-NoStarvation : {o p : Orchestrator} → Change o p → NoStarvation o → NoStarvation p
unfolding insert_run
Change-NoStarvation {o} (advance cur next found same live stays free) h =
    Covered-set o.runs o.queue_blockers cur.id next stays free h
Change-NoStarvation {o} (finish cur next now found same live over early) h =
    finish_run-NoStarvation o cur.id next now early (terminal-not-IsStuck next over) h
Change-NoStarvation {o} (revive cur next steps found same over live free) h =
    Covered-set o.runs o.queue_blockers cur.id next live free h
Change-NoStarvation {o} (create row blocker fresh waits root live) h =
    insert_run-Covered o.runs o.queue_blockers row blocker fresh waits live h
Change-NoStarvation (aside steps jobs handlers) h = h

pub Changes-NoStarvation : {o p : Orchestrator} → Changes o p → NoStarvation o → NoStarvation p
Changes-NoStarvation unchanged h = h
Changes-NoStarvation (also k c) h = Change-NoStarvation c (Changes-NoStarvation k h)
