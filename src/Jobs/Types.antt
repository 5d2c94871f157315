-- ===== src/Jobs/Types.antt =====
-- The rows, policies and options of the jobs subsystem: job-orchestration.schema.ts,
-- job-handler.base.ts, job-orchestrator.protocol.ts, job-step-service.protocol.ts, jobs-errors.ts.
use codegen_patterns.Base.{ℕ, String, Option, List, Bool, true, false, ◌≡◌, refl}
use codegen_patterns.Base.Dict.{Dict}

-- Milliseconds since the epoch (`Date.getTime()`).
abbrev pub Instant : Type 0
Instant = ℕ

-- A field of a JSON payload: `null` or `undefined`, or a value by its text under `String(value)`.
pub data FieldValue : Type 0 where
  missing : FieldValue
  shown : String → FieldValue

abbrev pub Payload : Type 0
Payload = Dict FieldValue

pub data RunStatus : Type 0 where
  pending running waiting completed failed timed_out canceled : RunStatus

pub data StepStatus : Type 0 where
  step_pending step_running step_completed step_failed step_skipped : StepStatus

pub data CollisionMode : Type 0 where
  queue reject replace : CollisionMode

pub data ReplayFrom : Type 0 where
  scratch last_step last_checkpoint : ReplayFrom

pub data ParentClosePolicy : Type 0 where
  terminate cancel abandon : ParentClosePolicy

pub data TriggerSource : Type 0 where
  manual schedule event parent : TriggerSource

pub data Backoff : Type 0 where
  fixed exponential : Backoff

pub record RetryPolicy : Type 0 where
  pub attempts : ℕ
  pub backoff : Backoff
  pub base_ms : ℕ
  pub non_retryable_errors : List String

pub record JobRunError : Type 0 where
  pub message : String
  pub stack : Option String
  pub retryable : Bool
  pub attempt : ℕ

-- A key is a `{{field}}` template or a live function of the payload.
pub data JobKeySelector : Type 0 where
  template : String → JobKeySelector
  function : (Payload → String) → JobKeySelector

pub record ConcurrencyPolicy : Type 0 where
  pub key : JobKeySelector
  pub collision_mode : CollisionMode

pub record DedupePolicy : Type 0 where
  pub key : JobKeySelector
  pub window_ms : ℕ

pub record JobHandlerMeta : Type 0 where
  pub pool : Option String
  pub scope_entity : Option String
  pub retry : Option RetryPolicy
  pub concurrency : Option ConcurrencyPolicy
  pub dedupe : Option DedupePolicy
  pub timeout_ms : Option ℕ
  pub replay_from : Option ReplayFrom

pub record JobDefinition : Type 0 where
  pub type : String
  pub version : ℕ
  pub pool : String
  pub scope_entity_type : Option String
  pub retry_policy : RetryPolicy
  pub timeout_ms : Option ℕ
  pub concurrency_key_template : Option String
  pub collision_mode : CollisionMode
  pub dedupe_key_template : Option String
  pub dedupe_window_ms : Option ℕ
  pub priority_default : ℕ
  pub replay_from : ReplayFrom
  pub created_at : Instant
  pub updated_at : Instant

pub record JobRun : Type 0 where
  pub id : String
  pub job_type : String
  pub job_version : ℕ
  pub parent_run_id : Option String
  pub root_run_id : String
  pub parent_close_policy : ParentClosePolicy
  pub scope_entity_type : Option String
  pub scope_entity_id : Option String
  pub tenant_id : Option String
  pub tags : Dict String
  pub pool : String
  pub priority : ℕ
  pub concurrency_key : Option String
  pub dedupe_key : Option String
  pub status : RunStatus
  pub input : Payload
  pub output : Option Payload
  pub error : Option JobRunError
  pub trigger_source : TriggerSource
  pub trigger_ref : Option String
  pub run_at : Instant
  pub started_at : Option Instant
  pub finished_at : Option Instant
  pub claimed_at : Option Instant
  pub attempts : ℕ
  pub created_at : Instant
  pub updated_at : Instant

pub record JobStep : Type 0 where
  pub id : String
  pub job_run_id : String
  pub step_id : String
  pub seq : ℕ
  pub status : StepStatus
  pub input : Option Payload
  pub output : Option Payload
  pub error : Option JobRunError
  pub attempts : ℕ
  pub started_at : Option Instant
  pub finished_at : Option Instant

-- `tenant_id` is `undefined`, or `null` or a text.
pub record StartOptions : Type 0 where
  pub scope : Option (String × String)
  pub pool : Option String
  pub run_at : Option Instant
  pub priority : Option ℕ
  pub tags : Option (Dict String)
  pub trigger_source : Option TriggerSource
  pub trigger_ref : Option String
  pub parent_close_policy : Option ParentClosePolicy
  pub parent_run_id : Option String
  pub tenant_id : Option (Option String)

pub record CancelOptions : Type 0 where
  pub cascade : Option Bool
  pub tenant_id : Option (Option String)

pub data KeyKind : Type 0 where
  concurrency_key dedupe_key : KeyKind

-- The exceptions that the memory backend throws.
pub data JobError : Type 0 where
  job_type_not_found : String → JobError
  job_collision : String → String → JobRun → JobError
  job_not_replayable : String → RunStatus → JobError
  template_field_missing : String → String → JobError
  missing_tenant_id : String → JobError
  key_function_unavailable : String → KeyKind → JobError
  parent_not_found : String → JobError
  run_not_found : String → JobError
  run_not_running : String → RunStatus → JobError

pub data Result {ℓ} (A : Type ℓ) : Type ℓ where
  ok : A → Result A
  err : JobError → Result A

infixl 5 ◌>>=◌
abbrev pub ◌>>=◌ {ℓ κ} : {A : Type ℓ} {B : Type κ} → Result A → (A → Result B) → Result B
ok a >>= f = f a
err e >>= f = err e

abbrev pub map_ok {ℓ κ} : {A : Type ℓ} {B : Type κ} → (A → B) → Result A → Result B
map_ok f (ok a) = ok (f a)
map_ok f (err e) = err e

-- TERMINAL_STATUSES, DEDUPE_EXCLUDED_STATUSES, IN_FLIGHT_STATUSES as tests.
abbrev pub is_terminal : RunStatus → Bool
is_terminal completed = true
is_terminal failed = true
is_terminal timed_out = true
is_terminal canceled = true
is_terminal _ = false

abbrev pub is_dedupe_excluded : RunStatus → Bool
is_dedupe_excluded canceled = true
is_dedupe_excluded failed = true
is_dedupe_excluded _ = false

abbrev pub is_in_flight : RunStatus → Bool
is_in_flight pending = true
is_in_flight running = true
is_in_flight _ = false

abbrev pub is_pending : RunStatus → Bool
is_pending pending = true
is_pending _ = false

abbrev pub is_running : RunStatus → Bool
is_running running = true
is_running _ = false

abbrev pub is_step_completed : StepStatus → Bool
is_step_completed step_completed = true
is_step_completed _ = false

pub is_pending-eq : (s : RunStatus) → is_pending s ≡ true → s ≡ pending
is_pending-eq pending h = refl
is_pending-eq _ h = cc

pub is_in_flight-not-terminal : (s : RunStatus) → is_in_flight s ≡ true → is_terminal s ≡ false
is_in_flight-not-terminal pending h = refl
is_in_flight-not-terminal running h = refl
is_in_flight-not-terminal _ h = cc
