-- ===== src/Jobs/Retry.antt =====
-- `classifyError`, `computeBackoff` and `serialiseError` of jobs/job-orchestrator.memory-backend.ts
-- (the same text stands in jobs/job-worker.ts).
pub mod Bounds
use codegen_patterns.Base.{
  ℕ, ◌+◌, ◌-◌, ◌*◌, ◌^◌, String, Option, none, some, Bool, true, false, ◌||◌, ◌≡◌, leb, ◌=ₛ◌,
  if◌then◌else◌, exists,
}
use codegen_patterns.Jobs.Types.{RetryPolicy, Backoff, fixed, exponential, JobRunError}

pub data Decision : Type 0 where
  retry fail : Decision

-- What the code reads of a thrown value.
pub record Thrown : Type 0 where
  pub name : Option String
  pub code : Option String
  pub message : String
  pub stack : Option String

abbrev pub names_error : Option String → String → Bool
names_error none n = false
names_error (some m) n = n =ₛ m

unfoldable pub is_non_retryable : Thrown → RetryPolicy → Bool
is_non_retryable e policy =
    exists (λ n. names_error e.name n || names_error e.code n) policy.non_retryable_errors

unfoldable pub classify_error : Thrown → Option RetryPolicy → ℕ → Decision
classify_error e none current_attempts = fail
classify_error e (some policy) current_attempts =
    if is_non_retryable e policy
    then fail
    else if leb policy.attempts (current_attempts + 1)
    then fail
    else retry

abbrev pub max_safe_integer : ℕ
max_safe_integer = 9007199254740991

-- Delays are exact: a power of two times a safe integer below 2 ^ 53 is a double, and what is
-- larger is capped.
unfoldable pub backoff_delay : Backoff → ℕ → ℕ → ℕ
backoff_delay fixed base attempts = base
backoff_delay exponential base attempts =
    let exponent = attempts - 1 in
    let raw = base * 2 ^ exponent in
    if leb 53 exponent
    then max_safe_integer
    else if leb max_safe_integer raw
    then max_safe_integer
    else raw

unfoldable pub compute_backoff : RetryPolicy → ℕ → ℕ
unfolding backoff_delay
compute_backoff policy attempts = backoff_delay policy.backoff policy.base_ms attempts

unfoldable pub serialise_error : Thrown → ℕ → Bool → JobRunError
serialise_error e attempt retryable = record {
  message = e.message;
  stack = e.stack;
  retryable = retryable;
  attempt = attempt;
}
