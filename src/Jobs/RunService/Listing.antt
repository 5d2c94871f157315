-- ===== src/Jobs/RunService/Listing.antt =====
-- The order and the filters of `listJobRuns` (jobs/job-run-service.memory-backend.ts) in terms that do
-- not use the tests of the code.
use codegen_patterns.Base.{
  ℕ, ◌≤◌, ◌<◌, String, Option, none, some, Bool, true, false, ◌&&◌, List, [], ◌∷◌, ◌≡◌, ◌⊎◌, ◌↔◌,
  ◌==◌, refl, sym, subst, ◌∙◌, ap, arith, All, All-weaken, leb, eq_iff, if◌then◌else◌,
}
use codegen_patterns.Base.Texts.{not-less_trans, less_asym}
use codegen_patterns.Jobs.Types.{
  Instant, JobRun, RunStatus, pending, running, waiting, completed, failed, timed_out, canceled,
}
use codegen_patterns.Jobs.RunService.{
  ListJobRunsQuery, JobRunKeyset, text_filter, same_status, status_number,
}
use codegen_patterns.Jobs.RunService.Queries.{text_less, listed_before, is_match, is_behind}
use codegen_patterns.Jobs.RunService.Sorted.{IsSorted}

-- `a` may stand before `b` in the listing: it is newer, or as new with an id that is no smaller.
abbrev pub MayPrecede : JobRun → JobRun → Type 0
MayPrecede a b =
    (b.created_at < a.created_at) ⊎ ((a.created_at ≡ b.created_at) × (text_less a.id b.id ≡ false))

MayPrecede-iff : (a b : JobRun) → (listed_before b a ≡ false) ↔ MayPrecede a b
unfolding listed_before
MayPrecede-iff a b = ground arith

MayPrecede-trans : (a b c : JobRun) → MayPrecede a b → MayPrecede b c → MayPrecede a c
MayPrecede-trans a b c h k = ground (arith, not-less_trans a.id b.id c.id)

pub listed_before_trans :
    (a b c : JobRun)
    → listed_before b a ≡ false
    → listed_before c b ≡ false
    → listed_before c a ≡ false
listed_before_trans a b c h k =
    (MayPrecede-iff a c).1
      (MayPrecede-trans a b c ((MayPrecede-iff a b).0 h) ((MayPrecede-iff b c).0 k))

pub listed_before_asym : (a b : JobRun) → listed_before a b ≡ true → listed_before b a ≡ false
unfolding listed_before
listed_before_asym a b h = ground (arith, less_asym b.id a.id)

-- Newest first, and of runs that are as new the one with the larger id.
abbrev pub IsListed : List JobRun → Type 0
IsListed [] = Unit
IsListed (r ∷ rs) = All (MayPrecede r) rs × IsListed rs

pub IsSorted-IsListed : (rs : List JobRun) → IsSorted listed_before rs → IsListed rs
IsSorted-IsListed [] h = tt
IsSorted-IsListed (r ∷ rs) h =
    (All-weaken (λ x. (MayPrecede-iff r x).0) rs h.0, IsSorted-IsListed rs h.1)

-- What a query asks of a run, in words: an absent filter and an empty text ask nothing.
abbrev pub AsksText : Option String → String → Type 0
AsksText none x = Unit
AsksText (some t) x = (t ≡ "") ⊎ (x ≡ t)

abbrev pub AsksStatus : Option RunStatus → RunStatus → Type 0
AsksStatus none x = Unit
AsksStatus (some s) x = x ≡ s

abbrev pub AsksSince : Option Instant → Instant → Type 0
AsksSince none x = Unit
AsksSince (some t) x = t ≤ x

abbrev pub Matches : ListJobRunsQuery → JobRun → Type 0
Matches query r =
    AsksText query.pool_id r.pool
    × AsksText query.root_run_id r.root_run_id
    × AsksStatus query.status r.status
    × AsksSince query.since r.created_at

-- Older than the run that the cursor names, or as old with a smaller id.
abbrev pub LiesBehind : Option JobRunKeyset → JobRun → Type 0
LiesBehind none r = Unit
LiesBehind (some k) r =
    (r.created_at < k.created_at) ⊎ ((r.created_at ≡ k.created_at) × (text_less r.id k.id ≡ true))

text_filter_iff : (o : Option String) (x : String) → (text_filter o x ≡ true) ↔ AsksText o x
text_filter_iff none x = ((λ h. tt), λ h. refl)
text_filter_iff (some t) x = ground (arith, eq_iff t "", eq_iff x t)

status_at : ℕ → RunStatus
status_at n =
    if n == 0
    then pending
    else if n == 1
    then running
    else if n == 2
    then waiting
    else if n == 3
    then completed
    else if n == 4
    then failed
    else if n == 5
    then timed_out
    else canceled

status_at-number : (s : RunStatus) → status_at (status_number s) ≡ s
unfolding status_at
status_at-number pending = refl
status_at-number running = refl
status_at-number waiting = refl
status_at-number completed = refl
status_at-number failed = refl
status_at-number timed_out = refl
status_at-number canceled = refl

same_status_iff : (a b : RunStatus) → (same_status a b ≡ true) ↔ (a ≡ b)
same_status_iff a b = (
  (λ h.
      sym (status_at-number a)
      ∙ ap status_at (eq_of_test (status_number a) (status_number b) h)
      ∙ status_at-number b),
  λ h. subst (λ x. same_status a x ≡ true) h (test_refl (status_number a)),
)
  where
    eq_of_test : (m n : ℕ) → (m == n) ≡ true → m ≡ n
    eq_of_test m n h = ground arith

    test_refl : (n : ℕ) → (n == n) ≡ true
    test_refl n = ground arith

status_test_iff :
    (o : Option RunStatus) (x : RunStatus)
    → (elim o [ none ↦ true | some s ↦ same_status x s ] ≡ true) ↔ AsksStatus o x
status_test_iff none x = ((λ h. tt), λ h. refl)
status_test_iff (some s) x = same_status_iff x s

since_test_iff :
    (o : Option Instant) (x : Instant)
    → (elim o [ none ↦ true | some t ↦ leb t x ] ≡ true) ↔ AsksSince o x
since_test_iff none x = ((λ h. tt), λ h. refl)
since_test_iff (some t) x = ground arith

and_iff : (a b : Bool) → ((a && b) ≡ true) ↔ ((a ≡ true) × (b ≡ true))
and_iff a b = ground arith

pub and_both :
    {A B : Type 0} (a b : Bool) → ((a ≡ true) ↔ A) → ((b ≡ true) ↔ B) → ((a && b) ≡ true) ↔ (A × B)
and_both a b f g = (
  (λ h. let (p, q) = (and_iff a b).0 h in (f.0 p, g.0 q)),
  λ h. (and_iff a b).1 (f.1 h.0, g.1 h.1),
)

pub is_match_iff :
    (query : ListJobRunsQuery) (r : JobRun) → (is_match query r ≡ true) ↔ Matches query r
unfolding is_match
is_match_iff query r =
    let all =
      and_both _ _
        (and_both _ _
          (and_both _ _ (text_filter_iff query.pool_id r.pool)
            (text_filter_iff query.root_run_id r.root_run_id))
          (status_test_iff query.status r.status))
        (since_test_iff query.since r.created_at) in
    ((λ h. let (((p, q), s), t) = all.0 h in (p, q, s, t)), λ (p, q, s, t). all.1 (((p, q), s), t))

-- The rows behind the cursor, if there is one.
abbrev pub passes_cursor : Option JobRunKeyset → JobRun → Bool
passes_cursor none r = true
passes_cursor (some k) r = is_behind k r

pub passes_cursor_iff :
    (k : Option JobRunKeyset) (r : JobRun) → (passes_cursor k r ≡ true) ↔ LiesBehind k r
unfolding is_behind
passes_cursor_iff none r = ((λ h. tt), λ h. refl)
passes_cursor_iff (some k) r = ground arith
