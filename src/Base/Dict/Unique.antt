-- ===== src/Base/Dict/Unique.antt =====
-- Dictionaries that hold no key twice, as every JavaScript `Map` does.
use Prim.Native.String.{String}
use mathlib.Core.Path.{◌≡◌, refl}
use mathlib.Core.Logic.{inl, inr}
use mathlib.Core.Option.{none, some}
use mathlib.Core.List.{[], ◌∷◌}
use native.Mathlib.Omega.{arith}
use text.Mathlib.TextEquality.{eq_iff}
use codegen_patterns.Base.Tests.{◌=ₛ◌, Bool-cases}
use codegen_patterns.Base.Lists.{In}
use codegen_patterns.Base.Dict.{Dict, get, set, values, get-set}

module _ {V : Type 0} where
  abbrev pub IsMap : Dict V → Type 0
  IsMap [] = Unit
  IsMap ((k, v) ∷ m) = (get k m ≡ none) × IsMap m

  pub set-IsMap : (k : String) (v : V) (m : Dict V) → IsMap m → IsMap (set k v m)
  unfolding set get
  set-IsMap k v [] h = (refl, tt)
  set-IsMap k v ((j, w) ∷ m) h = elim (Bool-cases (j =ₛ k)) [
    | inl e ↦ rw e h
    | inr e ↦ rw e (ground (arith, get-set j k v m, eq_iff k j, eq_iff j k), set-IsMap k v m h.1)
  ]

  -- Each value is what some key holds.
  pub values-get :
      (v : V) (m : Dict V) → IsMap m → In v (values m) → (k : String) × (get k m ≡ some v)
  unfolding get
  values-get v [] h i = absurd i
  values-get v ((j, w) ∷ m) h (inl e) = (j, ground (arith, eq_iff j j))
  values-get v ((j, w) ∷ m) h (inr i) =
      let (k, found) = values-get v m h.1 i in (k, ground (arith, eq_iff j k, h.0))
