-- ===== src/Jobs/Template.antt =====
-- `evaluateKeyTemplate` of jobs/job-orchestrator.memory-backend.ts: the `{{field}}` templates of
-- concurrency and dedupe keys. `skip` counts the characters of a matched field that are left.
pub mod Fields
use Prim.Native.Char.{Char, code}
use Prim.Native.String.{◌++◌ as text_append}
use codegen_patterns.Base.{
  ℕ, zero, suc, ◌+◌, ◌-◌, String, Option, none, some, Bool, true, false, ◌&&◌, ◌||◌, leb, ◌==◌,
  if◌then◌else◌,
}
use codegen_patterns.Base.Dict.{get}
use codegen_patterns.Jobs.Types.{
  Payload, FieldValue, missing, shown, Result, ok, err, ◌>>=◌, template_field_missing,
}

-- `\s` of a JavaScript regular expression.
unfoldable pub is_space : ℕ → Bool
is_space c =
    (leb 9 c && leb c 13)
    || c == 32
    || c == 160
    || c == 0x1680
    || (leb 0x2000 c && leb c 0x200a)
    || c == 0x2028
    || c == 0x2029
    || c == 0x202f
    || c == 0x205f
    || c == 0x3000
    || c == 0xfeff

-- `[a-zA-Z0-9_]`
unfoldable pub is_word : ℕ → Bool
is_word c =
    (leb b'a' c && leb c b'z')
    || (leb b'A' c && leb c b'Z')
    || (leb b'0' c && leb c b'9')
    || c == b'_'

-- The tail `\s*\}\}` of the pattern: how many characters it takes.
unfoldable pub match_close : String → Option ℕ
unfolding is_space
match_close String.[] = none
match_close (String.◌∷◌ c String.[]) = none
match_close (String.◌∷◌ c (String.◌∷◌ d s)) =
    let rest = match_close (String.◌∷◌ d s) in
    if is_space (code c)
    then elim rest [ none ↦ none | some n ↦ some (suc n) ]
    else if code c == b'}' && code d == b'}'
    then some 2
    else none

-- `[a-zA-Z0-9_]+` and the tail, behind at least one such character.
unfoldable pub match_word : String → Option (String × ℕ)
unfolding is_word match_close
match_word String.[] = none
match_word (String.◌∷◌ c s) =
    let longer = match_word s in
    let closed = match_close s in
    if is_word (code c)
    then elim longer [
      | some (w, n) ↦ some (String.◌∷◌ c w, suc n)
      | none ↦ elim closed [ none ↦ none | some n ↦ some (String.◌∷◌ c String.[], suc n) ]
    ]
    else none

-- `\s*` before the field.
unfoldable pub match_field : String → Option (String × ℕ)
unfolding is_space match_word
match_field String.[] = none
match_field (String.◌∷◌ c s) =
    let later = match_field s in
    let here = match_word (String.◌∷◌ c s) in
    if is_space (code c) then elim later [ none ↦ none | some (w, n) ↦ some (w, suc n) ] else here

-- The whole pattern at the start of a text: the field, and how many characters it takes.
unfoldable pub match_placeholder : String → Option (String × ℕ)
unfolding match_field
match_placeholder String.[] = none
match_placeholder (String.◌∷◌ c String.[]) = none
match_placeholder (String.◌∷◌ c (String.◌∷◌ d s)) =
    let field = match_field s in
    if code c == b'{' && code d == b'{'
    then elim field [ none ↦ none | some (w, n) ↦ some (w, suc (suc n)) ]
    else none

-- The callback of `replace`.
unfoldable pub field_text : String → String → Payload → Result String
field_text whole field input = elim (get field input) [
  | none ↦ err (template_field_missing whole field)
  | some missing ↦ err (template_field_missing whole field)
  | some (shown t) ↦ ok t
]

-- What follows a match, or the lack of one, at a position; `rest k` evaluates what is left after
-- `k` more characters.
unfoldable pub replace_match :
    String → Char → Payload → (ℕ → Result String) → Option (String × ℕ) → Result String
unfolding field_text
replace_match whole c input rest none = rest 0 >>= λ r. ok (String.◌∷◌ c r)
replace_match whole c input rest (some (field, n)) =
    field_text whole field input >>= λ v. rest (n - 1) >>= λ r. ok (text_append v r)

unfoldable pub eval_from : String → ℕ → String → Payload → Result String
unfolding match_placeholder replace_match
eval_from whole skip String.[] input = ok String.[]
eval_from whole (suc n) (String.◌∷◌ c s) input = eval_from whole n s input
eval_from whole zero (String.◌∷◌ c s) input =
    replace_match whole c input (λ k. eval_from whole k s input)
      (match_placeholder (String.◌∷◌ c s))

unfoldable pub evaluate_key_template : String → Payload → Result String
unfolding eval_from
evaluate_key_template t input = eval_from t 0 t input
