-- ===== src/Jobs/Steps/Examples.antt =====
-- Steps of a run, done and failed, and the theorems about them.
use codegen_patterns.Base.{String, none, some, true, [], ◌∷◌, All, ◌≡◌, refl}
use codegen_patterns.Base.Dict.{get}
use codegen_patterns.Jobs.Types.{shown, is_step_completed}
use codegen_patterns.Jobs.Retry.{Thrown}
use codegen_patterns.Jobs.Template.Fields.{}
use codegen_patterns.Jobs.Steps.{
  Steps, StepWork, returned, rows_of, find_step, threw, run_step, clear_incomplete_steps,
}
use codegen_patterns.Jobs.Steps.Memo.{run_step_memo, clear_incomplete_steps_lem}
use codegen_patterns.Jobs.State.{}
use codegen_patterns.Jobs.Reach.{}

abbrev oops : Thrown
oops = record { name = some "Error"; code = none; message = "oops"; stack = none }

abbrev seven : StepWork
seven s = (returned (some (("n", shown "7") ∷ [])), s)

abbrev never : StepWork
never s = (threw oops, s)

-- The steps after a step whose work returned an output.
abbrev one_done : Steps
one_done = (run_step "s" 10 11 "a" "fetch" seven []).1

run_step_memo_example :
    run_step "t" 20 21 "a" "fetch" never one_done
    ≡ (returned (some (("n", shown "7") ∷ [])), one_done)
unfolding run_step get
run_step_memo_example =
    run_step_memo "s" "t" 10 11 20 21 "a" "fetch" seven never [] one_done (("n", shown "7") ∷ [])
      refl

-- A step that is done and one that failed.
abbrev done_and_failed : Steps
done_and_failed = (run_step "t" 20 21 "a" "send" never one_done).1

clear_incomplete_steps_lem_example :
    All
      (λ r. is_step_completed r.status ≡ true)
      (rows_of "a" (clear_incomplete_steps "a" done_and_failed))
    × ((step_id : String)
        → find_step "a" step_id (clear_incomplete_steps "a" done_and_failed)
          ≡ find_step "a" step_id done_and_failed)
clear_incomplete_steps_lem_example = clear_incomplete_steps_lem "a" done_and_failed
