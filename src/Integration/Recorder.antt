-- ===== src/Integration/Recorder.antt =====
-- `MemoryRunRecorder` (integration/integration-run-recorder.memory-backend.ts) on the inputs of
-- integration-run-recorder.protocol.ts. The types of cursors and of field diffs, and the check of a diff
-- by its zod schema, are parameters; the id of a run and the instants are arguments.
use codegen_patterns.Base.{
  ℕ, String, Option, none, some, Bool, List, [], ◌∷◌, ◌++◌, map, ◌=ₛ◌, leb, take, if◌then◌else◌,
  keep, or_else,
}
use codegen_patterns.Base.Dict.{Dict, get, set, values}

pub data RunDirection : Type 0 where
  inbound outbound : RunDirection

pub data RunAction : Type 0 where
  poll cdc webhook manual writeback : RunAction

pub data RunStatus : Type 0 where
  running success no_changes failed : RunStatus

pub data ItemOperation : Type 0 where
  created updated deleted noop : ItemOperation

pub data ItemStatus : Type 0 where
  item_success item_failed item_skipped : ItemStatus

-- The text in the error column of a run, by what it is made of.
pub data RunError : Type 0 where
  all_records_failed : ℕ → RunError
  source_failed : String → RunError
  cursor_put_failed : String → RunError

-- A step that can throw; an exception is its message.
pub data Attempt (A : Type 0) : Type 0 where
  done : A → Attempt A
  thrown : String → Attempt A

module _ (Cursor Diff : Type 0) (is_valid : Diff → Bool) where
  pub record MemoryRunRecord : Type 0 where
    pub id : String
    pub subscription_id : String
    pub direction : RunDirection
    pub action : RunAction
    pub status : RunStatus
    pub cursor_before : Option Cursor
    pub cursor_after : Option Cursor
    pub records_found : ℕ
    pub records_processed : ℕ
    pub duration_ms : Option ℕ
    pub error : Option RunError
    pub tenant_id : Option String
    pub started_at : ℕ
    pub completed_at : Option ℕ

  -- `tenant_id` and `local_id` may be `undefined` or `null`, which are both `none`; the
  -- optional `title`, which no caller sets, is left out.
  pub record RecordItemInput : Type 0 where
    pub integration_run_id : String
    pub entity_type : String
    pub external_id : String
    pub local_id : Option String
    pub operation : ItemOperation
    pub status : ItemStatus
    pub changed_fields : Diff
    pub error : Option String
    pub tenant_id : Option String

  pub record StartRunInput : Type 0 where
    pub subscription_id : String
    pub direction : RunDirection
    pub action : RunAction
    pub cursor_before : Option Cursor
    pub tenant_id : Option String

  pub record CompleteRunInput : Type 0 where
    pub status : RunStatus
    pub records_found : ℕ
    pub records_processed : ℕ
    pub cursor_after : Option Cursor
    pub duration_ms : ℕ
    pub error : Option RunError

  pub record Recorder : Type 0 where
    pub runs : Dict MemoryRunRecord
    pub items : Dict (List RecordItemInput)

  unfoldable pub new_run : String → ℕ → StartRunInput → MemoryRunRecord
  new_run id now i = record {
    id = id;
    subscription_id = i.subscription_id;
    direction = i.direction;
    action = i.action;
    status = running;
    cursor_before = i.cursor_before;
    cursor_after = none;
    records_found = 0;
    records_processed = 0;
    duration_ms = none;
    error = none;
    tenant_id = i.tenant_id;
    started_at = now;
    completed_at = none;
  }

  unfoldable pub start_run : String → ℕ → StartRunInput → Recorder → Recorder
  unfolding new_run
  start_run id now i r = record {
    runs = set id (new_run id now i) r.runs;
    items = set id [] r.items;
  }

  unfoldable pub push_item :
      RecordItemInput → Option (List RecordItemInput) → Recorder → Recorder × Attempt (Unit {0})
  push_item i none r = (r, thrown "MemoryRunRecorder.recordItem: no run started")
  push_item i (some bucket) r =
      (record r { items = set i.integration_run_id (bucket ++ i ∷ []) r.items }, done tt)

  unfoldable pub record_item : RecordItemInput → Recorder → Recorder × Attempt (Unit {0})
  unfolding push_item
  record_item i r =
      if is_valid i.changed_fields
      then push_item i (get i.integration_run_id r.items) r
      else (r, thrown "FieldDiffSchema.parse")

  unfoldable pub completed_run : ℕ → CompleteRunInput → MemoryRunRecord → MemoryRunRecord
  completed_run now i run = record run {
    status = i.status;
    records_found = i.records_found;
    records_processed = i.records_processed;
    cursor_after = i.cursor_after;
    duration_ms = some i.duration_ms;
    error = i.error;
    completed_at = some now;
  }

  unfoldable pub complete_run :
      String → ℕ → CompleteRunInput → Recorder → Recorder × Attempt (Unit {0})
  unfolding completed_run
  complete_run run_id now i r = elim (get run_id r.runs) [
    | none ↦ (r, thrown "MemoryRunRecorder.completeRun: no run started")
    | some run ↦ (record r { runs = set run_id (completed_run now i run) r.runs }, done tt)
  ]

  -- `sort` by `startedAt`, newest first; equal ones stay in order.
  unfoldable pub insert_newest : MemoryRunRecord → List MemoryRunRecord → List MemoryRunRecord
  insert_newest x [] = x ∷ []
  insert_newest x (y ∷ ys) =
      let rest = insert_newest x ys in
      if leb y.started_at x.started_at then x ∷ y ∷ ys else y ∷ rest

  unfoldable pub newest_first : List MemoryRunRecord → List MemoryRunRecord
  unfolding insert_newest
  newest_first [] = []
  newest_first (x ∷ xs) = insert_newest x (newest_first xs)

  pub record IntegrationRunSummary : Type 0 where
    pub id : String
    pub subscription_id : String
    pub connection_id : String
    pub status : RunStatus
    pub started_at : ℕ
    pub completed_at : Option ℕ
    pub records_processed : ℕ
    pub tenant_id : Option String

  -- `connections` has the connection ids that were seeded for the subscriptions.
  unfoldable pub summary_of : Dict String → MemoryRunRecord → IntegrationRunSummary
  summary_of connections r = record {
    id = r.id;
    subscription_id = r.subscription_id;
    connection_id = or_else (get r.subscription_id connections) "";
    status = r.status;
    started_at = r.started_at;
    completed_at = r.completed_at;
    records_processed = r.records_processed;
    tenant_id = r.tenant_id;
  }

  unfoldable pub get_runs_for_subscription : String → Recorder → List MemoryRunRecord
  unfolding newest_first
  get_runs_for_subscription id r =
      newest_first (keep (λ run. run.subscription_id =ₛ id) (values r.runs))

  unfoldable pub runs_to_list : Option String → Recorder → List MemoryRunRecord
  runs_to_list none r = values r.runs
  runs_to_list (some id) r = keep (λ run. run.subscription_id =ₛ id) (values r.runs)

  unfoldable pub list_recent :
      Dict String → ℕ → Option String → Recorder → List IntegrationRunSummary
  unfolding newest_first runs_to_list summary_of
  list_recent connections limit subscription_id r =
      map (summary_of connections) (take limit (newest_first (runs_to_list subscription_id r)))

  unfoldable pub get_items_for_run : String → Recorder → List RecordItemInput
  get_items_for_run run_id r = or_else (get run_id r.items) []
