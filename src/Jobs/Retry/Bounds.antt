-- ===== src/Jobs/Retry/Bounds.antt =====
-- What the retry policy promises: a bounded number of attempts and a bounded, growing delay.
use native.Mathlib.Nat.{pow-le-pow_right, mul-le-mul_left}
use codegen_patterns.Base.{
  ℕ, ◌+◌, ◌-◌, ◌*◌, ◌^◌, ◌≤◌, ◌<◌, min, none, some, false, ◌≡◌, leb, arith, Bool-cases, leb→le, inl,
  inr, ◌↔◌, sym, ◌∙◌, ap, true, ◌||◌, String, refl, Option, List, [], ◌∷◌, All, exists, eq_iff,
  some-eq,
}
use codegen_patterns.Jobs.Types.{RetryPolicy, exponential}
use codegen_patterns.Jobs.Retry.{
  Thrown, retry, fail, names_error, is_non_retryable, classify_error, max_safe_integer,
  backoff_delay, compute_backoff,
}

names_error_iff : (o : Option String) (x : String) → (names_error o x ≡ true) ↔ (o ≡ some x)
names_error_iff none x = ((λ h. cc h), λ h. cc h)
names_error_iff (some m) x =
    ((λ h. ap some (sym ((eq_iff x m).0 h))), λ h. (eq_iff x m).1 (sym (some-eq h)))

-- Neither the name nor the code of the error.
abbrev pub IsOther : Thrown → String → Type 0
IsOther e x = (¬ (e.name ≡ some x)) × (¬ (e.code ≡ some x))

names-IsOther :
    (e : Thrown) (x : String)
    → ((names_error e.name x || names_error e.code x) ≡ false) ↔ IsOther e x
names-IsOther e x = ground (arith, names_error_iff e.name x, names_error_iff e.code x)

exists-IsOther :
    (e : Thrown) (xs : List String)
    → (exists (λ x. names_error e.name x || names_error e.code x) xs ≡ false) ↔ All (IsOther e) xs
exists-IsOther e [] = ((λ h. tt), λ h. refl)
exists-IsOther e (x ∷ xs) = elim (Bool-cases (names_error e.name x || names_error e.code x)) [
  | inl t ↦ rw t ((λ h. cc h), λ h. cc (sym t ∙ (names-IsOther e x).1 h.0))
  | inr f ↦ rw f (
    (λ h. ((names-IsOther e x).0 f, (exists-IsOther e xs).0 h)),
    λ h. (exists-IsOther e xs).1 h.1,
  )
]

-- A failed attempt is retried exactly when the handler has a policy, neither the name nor the code of
-- the error is on its list of errors that are not retried, and the attempt just made was not the last
-- one that the policy allows.
pub classify_error-retry_iff :
    (e : Thrown) (policy : RetryPolicy) (n : ℕ)
    → (classify_error e none n ≡ fail)
      × ((classify_error e (some policy) n ≡ retry)
          ↔ (All (IsOther e) policy.non_retryable_errors × (n + 1 < policy.attempts)))
unfolding classify_error is_non_retryable
classify_error-retry_iff e policy n =
    let listed = exists-IsOther e policy.non_retryable_errors in ground (arith, listed)

large_exponent : (base k : ℕ) → 0 < base → 53 ≤ k → max_safe_integer < base * 2 ^ k
large_exponent base k pos h =
    let big : 2 ^ 53 ≤ 2 ^ k = pow-le-pow_right (omega arith) h in grind arith

backoff_delay-exponential :
    (base n : ℕ)
    → 0 < base
    → backoff_delay exponential base n ≡ min (base * 2 ^ (n - 1)) max_safe_integer
unfolding backoff_delay
backoff_delay-exponential base n pos = elim (Bool-cases (leb 53 (n - 1))) [
  | inl far ↦ rw far (omega (arith, large_exponent base (n - 1) pos (leb→le 53 (n - 1) far)))
  | inr near ↦ rw near (ground arith)
]

backoff_delay_mono :
    (base n m : ℕ)
    → 0 < base
    → n ≤ m
    → backoff_delay exponential base n ≤ backoff_delay exponential base m
backoff_delay_mono base n m pos le =
    let powers : 2 ^ (n - 1) ≤ 2 ^ (m - 1) = pow-le-pow_right (omega arith) (omega arith) in
    let scaled : base * 2 ^ (n - 1) ≤ base * 2 ^ (m - 1) = mul-le-mul_left base powers in
    omega (arith, backoff_delay-exponential base n pos, backoff_delay-exponential base m pos)

-- The delay of an exponential policy with a positive base is the base doubled once for each attempt
-- after the first, capped at `Number.MAX_SAFE_INTEGER`; so it never falls from one attempt to a
-- later one.
pub compute_backoff-exponential :
    (policy : RetryPolicy) (n m : ℕ)
    → policy.backoff ≡ exponential
    → 0 < policy.base_ms
    → (compute_backoff policy n ≡ min (policy.base_ms * 2 ^ (n - 1)) max_safe_integer)
      × (n ≤ m → compute_backoff policy n ≤ compute_backoff policy m)
unfolding compute_backoff
compute_backoff-exponential policy n m mode pos =
    rw mode
      (backoff_delay-exponential policy.base_ms n pos, backoff_delay_mono policy.base_ms n m pos)
