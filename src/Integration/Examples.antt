-- ===== src/Integration/Examples.antt =====
-- The differ's theorems at concrete records, with whole numbers as the engine's.
mod Executed
use codegen_patterns.Base.{
  ℕ, none, some, ◌&&◌, not, [], ◌∷◌, ◌≡◌, refl, if◌then◌else◌, ◌==◌, ◌=ₛ◌, contains, inl, inr,
  Bool-cases,
}
use codegen_patterns.Base.Dict.{get}
use codegen_patterns.Integration.Values.{JsNumber, num, str}
use codegen_patterns.Integration.Values.Reflexive.{IsPlain}
use codegen_patterns.Integration.Differ.{
  DeepEqualDifferOptions, CanonicalRecord, noop, ignore_set, diff,
}
use codegen_patterns.Integration.Differ.Spec.{
  compared, same_at, change_at, changes, diff_existing_lem, IsPlainRecord, diff_self,
}

abbrev whole : JsNumber
whole = record { Num = ℕ; num_eq = λ a b. a == b; parse = λ s. none }

abbrev no_options : DeepEqualDifferOptions
no_options = record { ignore = []; unignore = [] }

abbrev stored : CanonicalRecord whole
stored = ("name", str "Ada") ∷ ("age", num 36) ∷ []

abbrev incoming : CanonicalRecord whole
incoming = ("name", str "Ada") ∷ ("age", num 37) ∷ ("id", num 1) ∷ []

diff_existing_lem_example :
    get "age" (changes whole (diff whole no_options (some stored) incoming none)) ≡ (
      if (not (contains "age" (ignore_set no_options))
          && contains "age" (compared whole [] incoming))
        && not (same_at whole "age" stored incoming)
      then some (change_at whole "age" stored incoming)
      else none)
diff_existing_lem_example = diff_existing_lem whole no_options stored incoming none "age"

stored-IsPlainRecord : IsPlainRecord whole stored
unfolding IsPlainRecord IsPlain get
stored-IsPlainRecord k = elim (Bool-cases ("name" =ₛ k)) [
  | inl e ↦ rw e tt
  | inr e ↦ rw e (elim (Bool-cases ("age" =ₛ k)) [ inl f ↦ rw f refl | inr f ↦ rw f tt ])
]

diff_self_example : diff whole no_options (some stored) stored none ≡ noop
diff_self_example = diff_self whole no_options stored none stored-IsPlainRecord
