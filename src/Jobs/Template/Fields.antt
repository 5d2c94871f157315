-- ===== src/Jobs/Template/Fields.antt =====
-- Which fields a key template reads, and when its evaluation fails.
use Prim.Native.Char.{Char}
use Prim.Native.String.{◌++◌ as text_append}
use codegen_patterns.Base.{
  ℕ, zero, suc, ◌-◌, String, Option, none, some, List, [], ◌∷◌, ◌≡◌, refl, All, In, inl, inr, ◌⊎◌,
}
use codegen_patterns.Base.Dict.{get}
use codegen_patterns.Jobs.Types.{
  Payload, FieldValue, missing, shown, Result, ok, err, ◌>>=◌, JobError, template_field_missing,
}
use codegen_patterns.Jobs.Template.{
  match_placeholder, field_text, replace_match, eval_from, evaluate_key_template,
}

fields_of_match : (ℕ → List String) → Option (String × ℕ) → List String
fields_of_match rest none = rest 0
fields_of_match rest (some (field, n)) = field ∷ rest (n - 1)

-- The fields that the placeholders of a text name, from left to right.
unfoldable pub fields_from : ℕ → String → List String
unfolding fields_of_match match_placeholder
fields_from skip String.[] = []
fields_from (suc n) (String.◌∷◌ c s) = fields_from n s
fields_from zero (String.◌∷◌ c s) =
    fields_of_match (λ k. fields_from k s) (match_placeholder (String.◌∷◌ c s))

-- The payload has a value for the field, other than `null` and `undefined`.
abbrev pub IsPresent : Payload → String → Type 0
IsPresent input field = (t : String) × (get field input ≡ some (shown t))

-- The payload has none.
abbrev pub IsAbsent : Payload → String → Type 0
IsAbsent input field = (get field input ≡ none) ⊎ (get field input ≡ some missing)

abbrev Total : Result String → Type 0
Total r = (key : String) × (r ≡ ok key)

map-Total : (r : Result String) (f : String → String) → Total r → Total (r >>= λ x. ok (f x))
map-Total (ok x) f h = (f x, refl)
map-Total (err e) f h = cc (h.1)

field_text_lem :
    (whole field t : String) (input : Payload)
    → get field input ≡ some (shown t)
    → field_text whole field input ≡ ok t
unfolding field_text
field_text_lem whole field t input h = rw (h, field_text)

replace_match-Total :
    (whole : String) (c : Char) (input : Payload) (rest : ℕ → Result String)
    (fields : ℕ → List String) (m : Option (String × ℕ))
    → ((k : ℕ) → All (IsPresent input) (fields k) → Total (rest k))
    → All (IsPresent input) (fields_of_match fields m)
    → Total (replace_match whole c input rest m)
unfolding replace_match fields_of_match
replace_match-Total whole c input rest fields none ih h =
    map-Total (rest 0) (λ r. String.◌∷◌ c r) (ih 0 h)
replace_match-Total whole c input rest fields (some (field, n)) ih h =
    let t = h.0.0 in
    rw (field_text_lem whole field t input h.0.1)
      (map-Total (rest (n - 1)) (λ r. text_append t r) (ih (n - 1) h.1))

eval_from-Total :
    (whole : String) (skip : ℕ) (s : String) (input : Payload)
    → All (IsPresent input) (fields_from skip s)
    → Total (eval_from whole skip s input)
unfolding eval_from fields_from
eval_from-Total whole skip String.[] input h = (String.[], refl)
eval_from-Total whole (suc n) (String.◌∷◌ c s) input h = eval_from-Total whole n s input h
eval_from-Total whole zero (String.◌∷◌ c s) input h =
    replace_match-Total whole c input (λ k. eval_from whole k s input) (λ k. fields_from k s)
      (match_placeholder (String.◌∷◌ c s)) (λ k. eval_from-Total whole k s input) h

-- A blamed field is one of the listed fields, and the payload has no value for it.
abbrev pub Blames : String → Payload → List String → JobError → Type 0
Blames whole input fields e =
    (field : String) × (e ≡ template_field_missing whole field)
    × In field fields
    × IsAbsent input field

Blames-cons :
    (whole f : String) (input : Payload) (fs : List String) (e : JobError)
    → Blames whole input fs e
    → Blames whole input (f ∷ fs) e
Blames-cons whole f input fs e (g, p, q, r) = (g, p, inr q, r)

map_err :
    (r : Result String) (f : String → String) {e : JobError}
    → (r >>= λ x. ok (f x)) ≡ err e
    → r ≡ err e
map_err (ok x) f h = cc
map_err (err e) f h = cc

field_text_cases :
    (whole field : String) (input : Payload)
    → IsPresent input field
      ⊎ (IsAbsent input field
          × (field_text whole field input ≡ err (template_field_missing whole field)))
unfolding field_text
field_text_cases whole field input = go (get field input) refl
  where
    go :
        (v : Option FieldValue)
        → get field input ≡ v
        → IsPresent input field
          ⊎ (IsAbsent input field
              × (field_text whole field input ≡ err (template_field_missing whole field)))
    go none p = inr (inl p, rw (p, field_text))
    go (some missing) p = inr (inr p, rw (p, field_text))
    go (some (shown t)) p = inl (t, p)

replace_match-Blames :
    (whole : String) (c : Char) (input : Payload) (rest : ℕ → Result String)
    (fields : ℕ → List String) (m : Option (String × ℕ)) {e : JobError}
    → ((k : ℕ) → rest k ≡ err e → Blames whole input (fields k) e)
    → replace_match whole c input rest m ≡ err e
    → Blames whole input (fields_of_match fields m) e
unfolding replace_match fields_of_match
replace_match-Blames whole c input rest fields none ih h =
    ih 0 (map_err (rest 0) (λ r. String.◌∷◌ c r) h)
replace_match-Blames whole c input rest fields (some (field, n)) {e} ih h =
    elim (field_text_cases whole field input) [
      | inl (t, p) ↦ Blames-cons whole field input (fields (n - 1)) e (
          ih (n - 1) (
            map_err (rest (n - 1)) (λ r. text_append t r)
              (rw (field_text_lem whole field t input p) at h)))
      | inr (absent, q) ↦ let r = (rw q at h) in (field, cc, inl refl, absent)
    ]

eval_from-Blames :
    (whole : String) (skip : ℕ) (s : String) (input : Payload) {e : JobError}
    → eval_from whole skip s input ≡ err e
    → Blames whole input (fields_from skip s) e
unfolding eval_from fields_from
eval_from-Blames whole skip String.[] input h = cc
eval_from-Blames whole (suc n) (String.◌∷◌ c s) input h = eval_from-Blames whole n s input h
eval_from-Blames whole zero (String.◌∷◌ c s) input h =
    replace_match-Blames whole c input (λ k. eval_from whole k s input) (λ k. fields_from k s)
      (match_placeholder (String.◌∷◌ c s)) (λ k. eval_from-Blames whole k s input) h

-- If the payload has a value for each field that the template names, the evaluation returns a key;
-- and if the evaluation throws, the error names a field of the template for which the payload has
-- `null`, `undefined` or nothing.
pub evaluate_key_template_lem :
    (t : String) (input : Payload)
    → (All (IsPresent input) (fields_from 0 t)
        → (key : String) × (evaluate_key_template t input ≡ ok key))
      × ((e : JobError)
          → evaluate_key_template t input ≡ err e
          → Blames t input (fields_from 0 t) e)
unfolding evaluate_key_template
evaluate_key_template_lem t input = (eval_from-Total t 0 t input, λ e. eval_from-Blames t 0 t input)
