-- ===== src/Jobs/Keys.antt =====
-- Key selectors: `keySelectorToTemplate` of jobs/job-handler.base.ts, and `resolveKey` of
-- jobs/job-orchestrator.memory-backend.ts, which reads the backend's own handler registry.
use codegen_patterns.Base.{String, Option, none, some, ◌=ₛ◌, if◌then◌else◌}
use codegen_patterns.Base.Dict.{Dict, get}
use codegen_patterns.Jobs.Types.{
  Payload, JobKeySelector, template, function, JobHandlerMeta, KeyKind, concurrency_key, dedupe_key,
  Result, ok, err, ◌>>=◌, key_function_unavailable,
}
use codegen_patterns.Jobs.Template.{evaluate_key_template}

abbrev pub fn_key_sentinel : String
fn_key_sentinel = "<fn>"

unfoldable pub key_selector_to_template : Option JobKeySelector → Option String
key_selector_to_template none = none
key_selector_to_template (some (template t)) = some t
key_selector_to_template (some (function f)) = some fn_key_sentinel

-- `meta?.[kind]?.key`
unfoldable pub meta_key : KeyKind → Option JobHandlerMeta → Option JobKeySelector
meta_key kind none = none
meta_key concurrency_key (some m) = elim m.concurrency [ none ↦ none | some p ↦ some p.key ]
meta_key dedupe_key (some m) = elim m.dedupe [ none ↦ none | some p ↦ some p.key ]

unfoldable pub call_key : String → KeyKind → Option JobKeySelector → Payload → Result String
call_key type kind (some (function f)) input = ok (f input)
call_key type kind _ input = err (key_function_unavailable type kind)

unfoldable pub resolve_key :
    Dict JobHandlerMeta → KeyKind → String → Option String → Payload → Result (Option String)
unfolding meta_key call_key
resolve_key registry kind type none input = ok none
resolve_key registry kind type (some t) input =
    (if t =ₛ fn_key_sentinel
      then call_key type kind (meta_key kind (get type registry)) input
      else evaluate_key_template t input)
    >>= λ key. ok (some key)
