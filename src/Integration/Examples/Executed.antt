-- ===== src/Integration/Examples/Executed.antt =====
-- A run over a source that lists three changes and then throws.
use codegen_patterns.Base.{
  ℕ, String, Option, none, some, true, false, List, [], ◌∷◌, ◌≡◌, ◌=ₛ◌, refl, if◌then◌else◌,
}
use codegen_patterns.Base.Dict.{Dict, get, set}
use codegen_patterns.Integration.Recorder.{inbound, poll, Attempt, done, thrown}
use codegen_patterns.Integration.Cursors.{memory_get, memory_cursor_store}
use codegen_patterns.Integration.Execute.{
  Ports, Change, change_created, change_deleted, DiffResult, no_difference, fields,
  ExecuteIntegrationInput,
}
use codegen_patterns.Integration.Execute.Loop.{
  ExecuteIntegrationResult, finished, World, Clock, Source, refuses_tenant, execute,
}
use codegen_patterns.Integration.Execute.Completed.{Reported, execute_lem}

abbrev text_diff : Option String → String → Option (List String) → DiffResult String
text_diff none incoming hint = fields incoming
text_diff (some old) incoming hint = if old =ₛ incoming then no_difference else fields incoming

-- A record "bad" is refused by the sink.
abbrev store_text : String → Dict String → Dict String × Attempt String
store_text text rows =
    if text =ₛ "bad" then (rows, thrown "refused") else (set text text rows, done text)

abbrev text_ports : Ports
text_ports = record {
  Cursor = ℕ;
  Canonical = String;
  Diff = String;
  Outside = Dict String;
  is_valid = λ d. true;
  empty = "";
  empty_valid = refl;
  find_by_external_id = λ user id rows. (rows, done (get id rows));
  upsert_by_external_id = λ user text provider rows. store_text text rows;
  soft_delete_by_external_id = λ user id rows. (rows, done (get id rows));
  reprojects_on_noop = false;
  diff = text_diff;
  emit_change = none;
  cursors = memory_cursor_store ℕ;
  multi_tenant = true;
}

abbrev subscription : ExecuteIntegrationInput
subscription = record {
  subscription_id = "s1";
  domain = "contact";
  user_id = "u";
  provider = "crm";
  direction = inbound;
  action = poll;
  tenant_id = some "t";
}

abbrev created_at : String → ℕ → Change ℕ String
created_at text cursor = record {
  external_id = text;
  operation = change_created;
  canonical = text;
  cursor = some cursor;
  provider_changed_fields = none;
}

abbrev three_changes : Source text_ports
three_changes cursor = (
  created_at "a" 7
      ∷ created_at "bad" 8
      ∷ record (created_at "z" 9) { operation = change_deleted }
      ∷ [],
  some "timeout",
)

abbrev no_rows : World text_ports
no_rows = record {
  live = record { outside = []; recorder = record { runs = []; items = [] } };
  store = ("s1", 5) ∷ [];
}

abbrev clock : Clock text_ports
clock = record { new_id = "r1"; started = 100; completed = 130; duration = 30 }

execute_lem_example :
    let p = execute text_ports clock subscription three_changes no_rows in
    (r : ExecuteIntegrationResult text_ports) × (p.1 ≡ finished r)
    × Reported text_ports subscription clock
        (some 5)
        (three_changes (some 5)).0
        (some "timeout")
        no_rows
        p.0
        r
unfolding refuses_tenant memory_get get
execute_lem_example =
    execute_lem text_ports subscription clock three_changes no_rows (some 5) refl refl
