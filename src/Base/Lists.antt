-- ===== src/Base/Lists.antt =====
-- Lists measured by native numbers, with Boolean tests, and predicates on lists by recursion.
use Prim.Native.Nat.{ℕ, zero, suc, ◌+◌}
use Prim.Native.String.{String}
use mathlib.Core.Path.{◌≡◌, refl, sym}
use mathlib.Core.Logic.{◌⊎◌, inl, inr}
use mathlib.Core.Bool.{Bool, true, false, ◌||◌}
use mathlib.Core.Option.{Option, none, some}
use mathlib.Core.List.{List, [], ◌∷◌, ◌++◌}
use native.Mathlib.Omega.{arith}
use text.Mathlib.TextEquality.{eq_iff}
use codegen_patterns.Base.Tests.{if◌then◌else◌, ◌=ₛ◌, Bool-cases, some-eq}

module _ {ℓ} {A : Type ℓ} where
  abbrev pub length : List A → ℕ
  length [] = 0
  length (x ∷ xs) = suc (length xs)

  abbrev pub keep : (A → Bool) → List A → List A
  keep p [] = []
  keep p (x ∷ xs) = if p x then x ∷ keep p xs else keep p xs

  abbrev pub exists : (A → Bool) → List A → Bool
  exists p [] = false
  exists p (x ∷ xs) = p x || exists p xs

  abbrev pub take : ℕ → List A → List A
  take zero xs = []
  take (suc n) [] = []
  take (suc n) (x ∷ xs) = x ∷ take n xs

  abbrev pub drop : ℕ → List A → List A
  drop zero xs = xs
  drop (suc n) [] = []
  drop (suc n) (x ∷ xs) = drop n xs

  abbrev pub find_first : (A → Bool) → List A → Option A
  find_first p [] = none
  find_first p (x ∷ xs) = if p x then some x else find_first p xs

  abbrev pub All {κ} : (A → Type κ) → List A → Type κ
  All P [] = Unit
  All P (x ∷ xs) = P x × All P xs

  pub All-weaken {κ μ} :
      {P : A → Type κ} {Q : A → Type μ}
      → ((x : A) → P x → Q x)
      → (xs : List A) → All P xs
      → All Q xs
  All-weaken f [] h = tt
  All-weaken f (x ∷ xs) (p, ps) = (f x p, All-weaken f xs ps)

  pub All-append {κ} : (P : A → Type κ) (xs ys : List A) → All P xs → All P ys → All P (xs ++ ys)
  All-append P [] ys h k = k
  All-append P (x ∷ xs) ys (p, h) k = (p, All-append P xs ys h k)

  pub length-append : (xs ys : List A) → length (xs ++ ys) ≡ length xs + length ys
  length-append [] ys = omega arith
  length-append (x ∷ xs) ys = omega (arith, length-append xs ys)

module _ {A : Type 0} where
  -- Membership by recursion, which tactics take apart.
  abbrev pub In : A → List A → Type 0
  In a [] = ⊥
  In a (x ∷ xs) = (a ≡ x) ⊎ In a xs

  pub In-append_left : (a : A) (xs ys : List A) → In a xs → In a (xs ++ ys)
  In-append_left a [] ys h = absurd h
  In-append_left a (x ∷ xs) ys (inl e) = inl e
  In-append_left a (x ∷ xs) ys (inr h) = inr (In-append_left a xs ys h)

  pub In-append_last : (a : A) (xs : List A) → In a (xs ++ a ∷ [])
  In-append_last a [] = inl refl
  In-append_last a (x ∷ xs) = inr (In-append_last a xs)

  pub In-keep : (p : A → Bool) (a : A) (xs : List A) → In a xs → p a ≡ true → In a (keep p xs)
  In-keep p a [] h e = absurd h
  In-keep p a (x ∷ xs) (inl q) e = rw (← q, e) (inl refl)
  In-keep p a (x ∷ xs) (inr h) e = elim (Bool-cases (p x)) [
    | inl t ↦ rw t (inr (In-keep p a xs h e))
    | inr f ↦ rw f (In-keep p a xs h e)
  ]

  pub keep-In : (p : A → Bool) (a : A) (xs : List A) → In a (keep p xs) → In a xs × (p a ≡ true)
  keep-In p a [] h = absurd h
  keep-In p a (x ∷ xs) h = elim (Bool-cases (p x)) [
    | inl t ↦ elim (rw t at h) [
      | inl q ↦ (inl q, rw q t)
      | inr r ↦ (inr (keep-In p a xs r).0, (keep-In p a xs r).1)
    ]
    | inr f ↦ let r = keep-In p a xs (rw f at h) in (inr r.0, r.1)
  ]

module _ {A : Type 0} where
  pub find_first-In :
      (p : A → Bool) (xs : List A) (a : A) → find_first p xs ≡ some a → In a xs × (p a ≡ true)
  find_first-In p [] a h = cc
  find_first-In p (x ∷ xs) a h = elim (Bool-cases (p x)) [
    | inl t ↦ let e : x ≡ a = some-eq (rw t at h) in (inl (sym e), rw (← e) t)
    | inr f ↦ let r = find_first-In p xs a (rw f at h) in (inr r.0, r.1)
  ]

-- `list.includes(text)`.
abbrev pub contains : String → List String → Bool
contains k xs = exists (λ x. k =ₛ x) xs

pub In-contains : (k : String) (xs : List String) → In k xs → contains k xs ≡ true
In-contains k [] h = absurd h
In-contains k (x ∷ xs) (inl e) = ground (arith, eq_iff k x)
In-contains k (x ∷ xs) (inr h) = ground (arith, In-contains k xs h)

pub contains-In : (k : String) (xs : List String) → contains k xs ≡ true → In k xs
contains-In k [] h = cc
contains-In k (x ∷ xs) h = elim (Bool-cases (k =ₛ x)) [
  | inl e ↦ inl ((eq_iff k x).0 e)
  | inr e ↦ inr (contains-In k xs (rw e at h))
]
