-- ===== src/Jobs/RunService/Pages.antt =====
-- The pages of `listJobRuns` of `MemoryJobRunService` (jobs/job-run-service.memory-backend.ts).
use codegen_patterns.Base.{
  ℕ, zero, suc, ◌≤◌, ◌<◌, Option, none, some, Bool, true, ◌&&◌, List, [], ◌∷◌, map, ◌≡◌, ◌↔◌, refl,
  sym, subst, ap, arith, inl, inr, length, take, keep, Bool-cases, ltb,
}
use codegen_patterns.Base.Dict.{values}
use mathlib.Core.List.{Perm}
use codegen_patterns.Jobs.Types.{JobRun, ok}
use codegen_patterns.Jobs.State.{Orchestrator}
use codegen_patterns.Jobs.RunService.{
  ListJobRunsQuery, JobRunKeyset, JobRunPage, CursorText, sort_by, tenant_predicate,
}
use codegen_patterns.Jobs.RunService.Queries.{
  clamp_limit, to_job_run_summary, listed_before, is_match, seek, last_of, keyset_of, keyset_in,
  next_cursor, page_of, list_job_runs,
}
use codegen_patterns.Jobs.RunService.Sorted.{
  IsSorted, IsSorted-sort_by, IsSorted-keep, keep-sort_by, keep-keep,
}
use codegen_patterns.Jobs.RunService.Listing.{
  IsListed, IsSorted-IsListed, listed_before_trans, listed_before_asym, Matches, LiesBehind,
  passes_cursor, and_both, is_match_iff, passes_cursor_iff,
}

clamp_limit-bounds : (n : Option ℕ) → (1 ≤ clamp_limit n) × (clamp_limit n ≤ 200)
unfolding clamp_limit
clamp_limit-bounds none = (omega arith, omega arith)
clamp_limit-bounds (some n) = (ground arith, ground arith)

length-map : (rs : List JobRun) → length (map to_job_run_summary rs) ≡ length rs
length-map [] = refl
length-map (r ∷ rs) = ap suc (length-map rs)

length-take : (n : ℕ) (rs : List JobRun) → n ≤ length rs → length (take n rs) ≡ n
length-take zero rs h = refl
length-take (suc n) [] h = absurd (omega arith)
length-take (suc n) (r ∷ rs) h = ap suc (length-take n rs (omega arith))

keep_all : (rs : List JobRun) → keep (λ r. true) rs ≡ rs
keep_all [] = refl
keep_all (r ∷ rs) = ap (λ xs. r ∷ xs) (keep_all rs)

seek-keep : (k : Option JobRunKeyset) (rs : List JobRun) → seek k rs ≡ keep (passes_cursor k) rs
unfolding seek
seek-keep none rs = sym (keep_all rs)
seek-keep (some k) rs = refl

last_of-some : (rs : List JobRun) → 1 ≤ length rs → (r : JobRun) × (last_of rs ≡ some r)
last_of-some [] h = absurd (omega arith)
last_of-some (r ∷ []) h = (r, refl)
last_of-some (r ∷ s ∷ rs) h =
    let (x, e) = last_of-some (s ∷ rs) (omega arith) in
    (x, ap (λ o. elim o [ none ↦ some r | some y ↦ some y ]) e)

take-all : (n : ℕ) (rs : List JobRun) → length rs ≤ n → take n rs ≡ rs
take-all zero [] h = refl
take-all zero (r ∷ rs) h = absurd (omega arith)
take-all (suc n) [] h = refl
take-all (suc n) (r ∷ rs) h = ap (λ xs. r ∷ xs) (take-all n rs (omega arith))

module _ (text : CursorText) where
  -- A page of the rows: its items, and a cursor just if there are more rows, which then names the last
  -- row of the page.
  abbrev pub IsPage : ℕ → List JobRun → JobRunPage → Type 0
  IsPage limit rows page =
      (page.items ≡ map to_job_run_summary (take limit rows))
      × (length page.items ≤ limit)
      × ((length rows ≤ limit) → page.next_cursor ≡ none)
      × (limit < length rows
          → (r : JobRun) × (last_of (take limit rows) ≡ some r)
            × (page.next_cursor ≡ some (text.encode (keyset_of r))))

  page_of-IsPage :
      (limit : ℕ) (rows : List JobRun) → 1 ≤ limit → IsPage limit rows (page_of text limit rows)
  unfolding page_of next_cursor
  page_of-IsPage limit rows pos = elim (Bool-cases (ltb limit (length rows))) [
    | inl e ↦
        let more : limit < length rows = ground arith in
        let size : length (take limit rows) ≡ limit = length-take limit rows (omega arith) in
        let (r, last) = last_of-some (take limit rows) (omega arith) in
        rw e (
          refl,
          omega (arith, length-map (take limit rows)),
          (λ h. absurd (omega arith)),
          λ h. (r, last, ap (next_cursor text true) last),
        )
    | inr e ↦
        let fits : length rows ≤ limit = ground arith in
        rw e (
          ap (map to_job_run_summary) (sym (take-all limit rows fits)),
          omega (arith, length-map rows),
          (λ h. refl),
          λ h. absurd (omega arith),
        )
  ]

  -- `listJobRuns` that passes the tenant check gives the first rows of a listing, at most as many as
  -- the limit and never more than 200. The listing is in order, newest first and then by the larger
  -- id; it holds just the stored runs that pass the tenant check, match each filter of the query and
  -- lie behind its cursor, each as often as it is stored. There is a next cursor just if the listing
  -- has more rows, and it names the last row of the page.
  pub list_job_runs_lem :
      (query : ListJobRunsQuery) (o : Orchestrator) (check : JobRun → Bool)
      → tenant_predicate o.multi_tenant "listJobRuns" query.tenant_id ≡ ok check
      → (rows : List JobRun) × (page : JobRunPage) × (list_job_runs text query o ≡ ok page)
        × IsPage (clamp_limit query.limit) rows page
        × (clamp_limit query.limit ≤ 200)
        × IsListed rows
        × (test : JobRun → Bool) × Perm rows (keep test (values o.runs))
        × ((r : JobRun)
            → (test r ≡ true)
              ↔ ((check r ≡ true) × Matches query r × LiesBehind (keyset_in text query.cursor) r))
  list_job_runs_lem query o check passed =
      let wanted : JobRun → Bool = λ r. check r && is_match query r in
      let sorted = sort_by listed_before (keep wanted (values o.runs)) in
      let k = keyset_in text query.cursor in
      let limit = clamp_limit query.limit in
      (
        seek k sorted,
        page_of text limit (seek k sorted),
        (unfold list_job_runs in rw (passed, list_job_runs) refl),
        page_of-IsPage limit (seek k sorted) (clamp_limit-bounds query.limit).0,
        (clamp_limit-bounds query.limit).1,
        IsSorted-IsListed (seek k sorted) (
            subst (IsSorted listed_before) (sym (seek-keep k sorted)) (
              IsSorted-keep listed_before (passes_cursor k) sorted (
                IsSorted-sort_by listed_before listed_before_asym listed_before_trans
                  (keep wanted (values o.runs))))),
        (λ r. (check r && is_match query r) && passes_cursor k r),
        subst (λ xs. Perm xs (keep (λ r. wanted r && passes_cursor k r) (values o.runs)))
            (sym (seek-keep k sorted))
            (subst (Perm (keep (passes_cursor k) sorted))
              (keep-keep (passes_cursor k) wanted (values o.runs))
              (keep-sort_by listed_before (passes_cursor k) (keep wanted (values o.runs)))),
        λ r.
            let both =
              and_both (wanted r) (passes_cursor k r)
                (and_both (check r) (is_match query r) ((λ h. h), λ h. h) (is_match_iff query r))
                (passes_cursor_iff k r) in
            ((λ h. let ((c, m), b) = both.0 h in (c, m, b)), λ (c, m, b). both.1 ((c, m), b)),
      )
