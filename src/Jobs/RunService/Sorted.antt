-- ===== src/Jobs/RunService/Sorted.antt =====
-- `rows.sort` of jobs/job-run-service.memory-backend.ts as the insertion sort of the model: what it
-- gives is in order and has the same rows, each as often as before.
use codegen_patterns.Base.{
  Bool, true, false, ◌&&◌, List, [], ◌∷◌, ◌≡◌, refl, ap, inl, inr, keep, All, All-weaken,
  Bool-cases,
}
use mathlib.Core.List.{Perm}
use mathlib.Core.List.Perm
use codegen_patterns.Jobs.Types.{JobRun}
use codegen_patterns.Jobs.RunService.{insert_by, sort_by}

module _ (before : JobRun → JobRun → Bool) where
  -- No row of the list stands before `w`.
  abbrev pub Leads : JobRun → List JobRun → Type 0
  Leads w rs = All (λ r. before r w ≡ false) rs

  abbrev pub IsSorted : List JobRun → Type 0
  IsSorted [] = Unit
  IsSorted (r ∷ rs) = Leads r rs × IsSorted rs

  Leads-insert_by :
      (w x : JobRun) (rs : List JobRun)
      → before x w ≡ false
      → Leads w rs
      → Leads w (insert_by before x rs)
  unfolding insert_by
  Leads-insert_by w x [] h k = (h, tt)
  Leads-insert_by w x (y ∷ ys) h k = elim (Bool-cases (before y x)) [
    | inl t ↦ rw t (k.0, Leads-insert_by w x ys h k.1)
    | inr f ↦ rw f (h, k)
  ]

  module _ (asym : (a b : JobRun) → before a b ≡ true → before b a ≡ false)
      (trans : (a b c : JobRun)
        → before b a ≡ false
        → before c b ≡ false
        → before c a ≡ false) where
    IsSorted-insert_by :
        (x : JobRun) (rs : List JobRun) → IsSorted rs → IsSorted (insert_by before x rs)
    unfolding insert_by
    IsSorted-insert_by x [] h = (tt, tt)
    IsSorted-insert_by x (y ∷ ys) h = elim (Bool-cases (before y x)) [
      | inl t ↦ rw t (Leads-insert_by y x ys (asym y x t) h.0, IsSorted-insert_by x ys h.1)
      | inr f ↦ rw f ((f, All-weaken (λ z k. trans x y z f k) ys h.0), h)
    ]

    pub IsSorted-sort_by : (rs : List JobRun) → IsSorted (sort_by before rs)
    unfolding sort_by
    IsSorted-sort_by [] = tt
    IsSorted-sort_by (r ∷ rs) = IsSorted-insert_by r (sort_by before rs) (IsSorted-sort_by rs)

  Leads-keep :
      (p : JobRun → Bool) (w : JobRun) (rs : List JobRun) → Leads w rs → Leads w (keep p rs)
  Leads-keep p w [] h = tt
  Leads-keep p w (r ∷ rs) h = elim (Bool-cases (p r)) [
    | inl t ↦ rw t (h.0, Leads-keep p w rs h.1)
    | inr f ↦ rw f (Leads-keep p w rs h.1)
  ]

  pub IsSorted-keep : (p : JobRun → Bool) (rs : List JobRun) → IsSorted rs → IsSorted (keep p rs)
  IsSorted-keep p [] h = tt
  IsSorted-keep p (r ∷ rs) h = elim (Bool-cases (p r)) [
    | inl t ↦ rw t (Leads-keep p r rs h.0, IsSorted-keep p rs h.1)
    | inr f ↦ rw f (IsSorted-keep p rs h.1)
  ]

  insert_by-Perm : (x : JobRun) (rs : List JobRun) → Perm (insert_by before x rs) (x ∷ rs)
  unfolding insert_by
  insert_by-Perm x [] = Perm.rfl
  insert_by-Perm x (y ∷ ys) = elim (Bool-cases (before y x)) [
    | inl t ↦ rw t (Perm.trans (Perm.cons y (insert_by-Perm x ys)) (Perm.swap x y ys))
    | inr f ↦ rw f Perm.rfl
  ]

  keep-insert_by :
      (p : JobRun → Bool) (x : JobRun) (rs : List JobRun)
      → Perm (keep p (insert_by before x rs)) (keep p (x ∷ rs))
  unfolding insert_by
  keep-insert_by p x [] = Perm.rfl
  keep-insert_by p x (y ∷ ys) = elim (Bool-cases (before y x)) [
    | inr f ↦ rw f Perm.rfl
    | inl t ↦ rw t (elim (Bool-cases (p y)) [
      | inr n ↦ rw n (keep-insert_by p x ys)
      | inl k ↦ elim (Bool-cases (p x)) [
        | inl j ↦
            let rest : Perm (keep p (insert_by before x ys)) (x ∷ keep p ys) =
              (rw j at (keep-insert_by p x ys)) in
            rw (k, j) (Perm.trans (Perm.cons y rest) (Perm.swap x y (keep p ys)))
        | inr j ↦
            let rest : Perm (keep p (insert_by before x ys)) (keep p ys) =
              (rw j at (keep-insert_by p x ys)) in
            rw (k, j) (Perm.cons y rest)
      ]
    ])
  ]

  pub keep-sort_by :
      (p : JobRun → Bool) (rs : List JobRun) → Perm (keep p (sort_by before rs)) (keep p rs)
  unfolding sort_by
  keep-sort_by p [] = Perm.rfl
  keep-sort_by p (r ∷ rs) =
      Perm.trans (keep-insert_by p r (sort_by before rs)) (elim (Bool-cases (p r)) [
        | inl t ↦ rw t (Perm.cons r (keep-sort_by p rs))
        | inr f ↦ rw f (keep-sort_by p rs)
      ])

pub keep-keep :
    (p q : JobRun → Bool) (rs : List JobRun) → keep p (keep q rs) ≡ keep (λ r. q r && p r) rs
keep-keep p q [] = refl
keep-keep p q (r ∷ rs) = elim (Bool-cases (q r)) [
  | inr f ↦ rw f (keep-keep p q rs)
  | inl t ↦ elim (Bool-cases (p r)) [
    | inl u ↦ rw (t, u) (ap (λ xs. r ∷ xs) (keep-keep p q rs))
    | inr u ↦ rw (t, u) (keep-keep p q rs)
  ]
]
