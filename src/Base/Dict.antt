-- ===== src/Base/Dict.antt =====
-- A JavaScript `Map` with string keys: an association list in insertion order.
pub mod Unique
use codegen_patterns.Base.Tests.{if◌then◌else◌, ◌=ₛ◌, Bool-cases, text-cases, some-eq}
use codegen_patterns.Base.Lists.{In}
use Prim.Native.String.{String}
use mathlib.Core.Path.{◌≡◌, refl, sym, ◌∙◌}
use mathlib.Core.Logic.{◌⊎◌, inl, inr, ◌≢◌}
use mathlib.Core.Bool.{Bool, true, false}
use mathlib.Core.Option.{Option, none, some}
use mathlib.Core.List.{List, [], ◌∷◌, ◌++◌, map}
use native.Mathlib.Omega.{arith}
use text.Mathlib.TextEquality.{eq_iff}
use text.Mathlib.TextPositions.{eq_refl}

abbrev pub Dict {ℓ} : Type ℓ → Type ℓ
Dict V = List (String × V)

module _ {ℓ} {V : Type ℓ} where
  -- `map.get(k)`
  unfoldable pub get : String → Dict V → Option V
  get k [] = none
  get k ((j, v) ∷ m) = if j =ₛ k then some v else get k m

  -- `map.set(k, v)`: an existing key keeps its place, a new one goes to the end.
  unfoldable pub set : String → V → Dict V → Dict V
  set k v [] = (k, v) ∷ []
  set k v ((j, w) ∷ m) = if j =ₛ k then (j, v) ∷ m else (j, w) ∷ set k v m

  -- `map.delete(k)`
  unfoldable pub remove : String → Dict V → Dict V
  remove k [] = []
  remove k ((j, w) ∷ m) = if j =ₛ k then remove k m else (j, w) ∷ remove k m

  -- `map.values()`
  abbrev pub values : Dict V → List V
  values m = map (λ p. p.1) m

  pub get-set :
      (j k : String) (v : V) (m : Dict V) → get j (set k v m) ≡ (if k =ₛ j then some v else get j m)
  unfolding get set
  get-set j k v [] = refl
  get-set j k v ((i, w) ∷ m) = ground (arith, eq_iff k j, eq_iff i k, eq_iff i j, get-set j k v m)

  pub get-set_self : (k : String) (v : V) (m : Dict V) → get k (set k v m) ≡ some v
  get-set_self k v m = simp (get-set, eq_refl)

  pub get-set_ne : (j k : String) (v : V) (m : Dict V) → k ≢ j → get j (set k v m) ≡ get j m
  get-set_ne j k v m h = ground (arith, get-set j k v m, eq_iff k j)

  pub get-remove :
      (j k : String) (m : Dict V) → get j (remove k m) ≡ (if k =ₛ j then none else get j m)
  unfolding get remove
  get-remove j k [] = elim (Bool-cases (k =ₛ j)) [ inl e ↦ rw e | inr e ↦ rw e ]
  get-remove j k ((i, w) ∷ m) = ground (arith, eq_iff k j, eq_iff i k, eq_iff i j, get-remove j k m)

  -- What a written map holds under a key is the new value, or what it held before.
  pub get-set_cases :
      (k j : String) (v w : V) (m : Dict V)
      → get k (set j v m) ≡ some w
      → ((j ≡ k) × (v ≡ w)) ⊎ ((j ≢ k) × (get k m ≡ some w))
  get-set_cases k j v w m h = elim (text-cases j k) [
    | inl e ↦ inl (e, some-eq (sym (get-set_self k v m) ∙ (rw e at h)))
    | inr (n, t) ↦ inr (n, sym (get-set_ne k j v m n) ∙ h)
  ]

module _ {V : Type 0} where
  -- What a key holds is among the values.
  pub get-values : (k : String) (v : V) (m : Dict V) → get k m ≡ some v → In v (values m)
  unfolding get
  get-values k v [] h = cc
  get-values k v ((i, w) ∷ m) h = elim (Bool-cases (i =ₛ k)) [
    | inl e ↦ inl (ground arith)
    | inr e ↦ inr (get-values k v m (rw e at h))
  ]
