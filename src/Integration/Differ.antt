-- ===== src/Integration/Differ.antt =====
-- `DeepEqualDiffer` (integration/deep-equal.differ.ts). A record is its own enumerable fields in
-- order, each key once.
pub mod Spec
use codegen_patterns.Base.{
  ℕ, String, Option, none, some, Bool, true, false, ◌&&◌, not, List, [], ◌∷◌, ◌++◌, map, ◌=ₛ◌,
  if◌then◌else◌, contains, or_else,
}
use codegen_patterns.Base.Dict.{Dict, get, set}
use codegen_patterns.Integration.Values.{JsNumber, Value, undefined, null, is_equal}

-- DEFAULT_IGNORE_FIELDS
abbrev pub default_ignore_fields : List String
default_ignore_fields =
    "id" ∷ "createdAt" ∷ "updatedAt" ∷ "deletedAt" ∷ "type" ∷ "lastModifiedAt" ∷ "fields"
    ∷ "external_id" ∷ "externalId" ∷ "provider" ∷ "provider_metadata" ∷ "providerMetadata" ∷ []

pub record DeepEqualDifferOptions : Type 0 where
  pub ignore : List String
  pub unignore : List String

-- `set.add(key)` and `set.delete(key)`
unfoldable pub add_key : String → List String → List String
add_key k ks = if contains k ks then ks else ks ++ k ∷ []

unfoldable pub delete_key : String → List String → List String
delete_key k [] = []
delete_key k (j ∷ js) = if k =ₛ j then delete_key k js else j ∷ delete_key k js

unfoldable pub add_keys : List String → List String → List String
unfolding add_key
add_keys [] ks = ks
add_keys (k ∷ more) ks = add_keys more (add_key k ks)

unfoldable pub delete_keys : List String → List String → List String
unfolding delete_key
delete_keys [] ks = ks
delete_keys (k ∷ more) ks = delete_keys more (delete_key k ks)

-- The constructor: the defaults and `ignore`, and then less `unignore`.
unfoldable pub ignore_set : DeepEqualDifferOptions → List String
unfolding add_keys delete_keys
ignore_set opts = delete_keys opts.unignore (add_keys opts.ignore default_ignore_fields)

module _ (js : JsNumber) where
  open js use {Num}

  abbrev pub CanonicalRecord : Type 0
  CanonicalRecord = Dict (Value Num)

  pub record FieldChange : Type 0 where
    pub from : Value Num
    pub to : Value Num

  pub data DiffResult : Type 0 where
    noop : DiffResult
    fields : Dict FieldChange → DiffResult

  -- `record[key]` and `value ?? null`
  abbrev pub value_at : String → CanonicalRecord → Value Num
  value_at k r = or_else (get k r) undefined

  abbrev pub or_null : Value Num → Value Num
  or_null undefined = null
  or_null v = v

  abbrev pub is_nullish : Value Num → Bool
  is_nullish undefined = true
  is_nullish null = true
  is_nullish _ = false

  abbrev pub keys : CanonicalRecord → List String
  keys r = map (λ p. p.0) r

  -- `Object.keys(out).length === 0 ? 'noop' : out`
  unfoldable pub result_of : Dict FieldChange → DiffResult
  result_of [] = noop
  result_of (c ∷ cs) = fields (c ∷ cs)

  -- The loop for a record that does not exist yet.
  unfoldable pub created_fields :
      List String → CanonicalRecord → Dict FieldChange → Dict FieldChange
  created_fields ignored [] out = out
  created_fields ignored ((k, v) ∷ r) out = created_fields ignored r (
      if contains k ignored
      then out
      else if is_nullish v
      then out
      else set k (record { from = null; to = v }) out)

  -- The loops that collect the fields to compare.
  unfoldable pub add_candidates : List String → List String → List String → List String
  unfolding add_key
  add_candidates ignored [] cs = cs
  add_candidates ignored (k ∷ ks) cs =
      add_candidates ignored ks (if contains k ignored then cs else add_key k cs)

  unfoldable pub add_existing :
      List String → CanonicalRecord → List String → List String → List String
  unfolding add_key
  add_existing ignored incoming [] cs = cs
  add_existing ignored incoming (k ∷ ks) cs = add_existing ignored incoming ks (
      if contains k ignored
      then cs
      else if not (contains k (keys incoming))
      then cs
      else add_key k cs)

  -- No hint and an empty hint compare the fields of the records.
  unfoldable pub candidates :
      List String → CanonicalRecord → CanonicalRecord → List String → List String
  unfolding add_candidates add_existing
  candidates ignored existing incoming [] =
      add_existing ignored incoming (keys existing) (add_candidates ignored (keys incoming) [])
  candidates ignored existing incoming (k ∷ ks) = add_candidates ignored (k ∷ ks) []

  unfoldable pub changed_fields :
      CanonicalRecord → CanonicalRecord → List String → Dict FieldChange → Dict FieldChange
  changed_fields existing incoming [] out = out
  changed_fields existing incoming (k ∷ ks) out = changed_fields existing incoming ks (
      if is_equal js (value_at k existing) (value_at k incoming)
      then out
      else set k
          (record { from = or_null (value_at k existing); to = or_null (value_at k incoming) }) out)

  -- `diff`
  unfoldable pub diff :
      DeepEqualDifferOptions
      → Option CanonicalRecord
      → CanonicalRecord
      → Option (List String)
      → DiffResult
  unfolding ignore_set created_fields candidates changed_fields result_of
  diff opts none incoming hint = result_of (created_fields (ignore_set opts) incoming [])
  diff opts (some existing) incoming hint = result_of (
      changed_fields existing incoming
        (candidates (ignore_set opts) existing incoming (or_else hint [])) [])
