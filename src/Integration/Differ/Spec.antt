-- ===== src/Integration/Differ/Spec.antt =====
-- What `DeepEqualDiffer.diff` (integration/deep-equal.differ.ts) reports, key by key.
use codegen_patterns.Base.{
  String, Option, none, some, Bool, true, false, ◌≡◌, refl, sym, ◌∙◌, arith, inl, inr, eq_refl,
  ◌&&◌, ◌||◌, not, List, [], ◌∷◌, ◌++◌, ◌=ₛ◌, if◌then◌else◌, contains, or_else, Bool-cases,
  text-cases,
}
use codegen_patterns.Base.Dict.{Dict, get, set, get-set_self, get-set_ne}
use codegen_patterns.Integration.Values.{JsNumber, is_equal}
use codegen_patterns.Integration.Values.Reflexive.{IsPlain, is_equal_refl}
use codegen_patterns.Integration.Differ.{
  DeepEqualDifferOptions, CanonicalRecord, FieldChange, DiffResult, noop, fields, add_key,
  add_candidates, add_existing, candidates, changed_fields, keys, value_at, or_null, result_of,
  ignore_set, diff,
}

contains-append_last :
    (j k : String) (ks : List String) → contains j (ks ++ k ∷ []) ≡ ((j =ₛ k) || contains j ks)
contains-append_last j k [] = refl
contains-append_last j k (i ∷ ks) = ground (arith, contains-append_last j k ks)

contains-add_key :
    (j k : String) (ks : List String) → contains j (add_key k ks) ≡ ((j =ₛ k) || contains j ks)
unfolding add_key
contains-add_key j k ks = elim (Bool-cases (contains k ks)) [
  | inl e ↦ elim (text-cases j k) [
    | inl q ↦ rw e (rw q (rw eq_refl e))
    | inr (n, f) ↦ rw e (rw f refl)
  ]
  | inr e ↦ rw e (contains-append_last j k ks)
]

or_true : (a : Bool) → (a || true) ≡ true
or_true true = refl
or_true false = refl

get-set_unless :
    {C : Type 0} (same : String → Bool) (c : String → C) (j k : String) (a : Bool) (out : Dict C)
    → (if a && not (same j) then some (c j) else get j (if same k then out else set k (c k) out))
      ≡ (if ((j =ₛ k) || a) && not (same j) then some (c j) else get j out)
get-set_unless same c j k true out = elim (text-cases j k) [
  | inl q ↦
      rw q
        (elim (Bool-cases (same k)) [ inl e ↦ rw (e, eq_refl) refl | inr e ↦ rw (e, eq_refl) refl ])
  | inr (n, f) ↦ rw f (elim (Bool-cases (same k)) [
    | inl e ↦ rw e refl
    | inr e ↦ rw (e, get-set_ne j k (c k) out (λ p. n (sym p))) refl
  ])
]
get-set_unless same c j k false out = elim (text-cases j k) [
  | inl q ↦ rw q (elim (Bool-cases (same k)) [
    | inl e ↦ rw (e, eq_refl) refl
    | inr e ↦ rw (e, eq_refl) (get-set_self k (c k) out)
  ])
  | inr (n, f) ↦ rw f (elim (Bool-cases (same k)) [
    | inl e ↦ rw e refl
    | inr e ↦ rw (e, get-set_ne j k (c k) out (λ p. n (sym p))) refl
  ])
]

module _ (js : JsNumber) where
  open js use {Num}

  contains-add_candidates :
      (j : String) (ignored ks cs : List String)
      → contains j (add_candidates js ignored ks cs)
        ≡ ((not (contains j ignored) && contains j ks) || contains j cs)
  unfolding add_candidates
  contains-add_candidates j ignored [] cs = ground arith
  contains-add_candidates j ignored (k ∷ ks) cs = elim (text-cases j k) [
    | inl q ↦ rw q (elim (Bool-cases (contains k ignored)) [
      | inl e ↦ rw (e, contains-add_candidates k ignored ks cs, e) refl
      | inr e ↦
          rw
            (
              e,
              eq_refl,
              contains-add_candidates k ignored ks (add_key k cs),
              contains-add_key k k cs,
              e,
              eq_refl,
            )
            (or_true _)
    ])
    | inr (n, f) ↦ rw f (elim (Bool-cases (contains k ignored)) [
      | inl e ↦ rw e (contains-add_candidates j ignored ks cs)
      | inr e ↦
          rw (e, contains-add_candidates j ignored ks (add_key k cs), contains-add_key j k cs, f)
            refl
    ])
  ]

  contains-add_existing :
      (j : String) (ignored : List String) (incoming : CanonicalRecord js) (ks cs : List String)
      → contains j (add_existing js ignored incoming ks cs) ≡ (
          (not (contains j ignored) && contains j (keys js incoming) && contains j ks)
          || contains j cs)
  unfolding add_existing
  contains-add_existing j ignored incoming [] cs = ground arith
  contains-add_existing j ignored incoming (k ∷ ks) cs =
      let ih = contains-add_existing j ignored incoming ks in
      elim (text-cases j k) [
        | inl q ↦ rw q (elim (Bool-cases (contains k ignored)) [
          | inl e ↦ rw (e, contains-add_existing k ignored incoming ks cs, e) refl
          | inr e ↦ elim (Bool-cases (contains k (keys js incoming))) [
            | inl t ↦
                rw
                  (
                    e,
                    t,
                    eq_refl,
                    contains-add_existing k ignored incoming ks (add_key k cs),
                    contains-add_key k k cs,
                    e,
                    t,
                    eq_refl,
                  )
                  (or_true _)
            | inr t ↦ rw (e, t, contains-add_existing k ignored incoming ks cs, e, t) refl
          ]
        ])
        | inr (n, f) ↦ rw f (elim (Bool-cases (contains k ignored)) [
          | inl e ↦ rw e (ih cs)
          | inr e ↦ elim (Bool-cases (contains k (keys js incoming))) [
            | inl t ↦ rw (e, t, ih (add_key k cs), contains-add_key j k cs, f) refl
            | inr t ↦ rw (e, t) (ih cs)
          ]
        ])
      ]

  -- The fields that a call compares, before the ignored ones are left out.
  abbrev pub compared : List String → CanonicalRecord js → List String
  compared [] incoming = keys js incoming
  compared (k ∷ ks) incoming = k ∷ ks

  bool_absorb : (a b c : Bool) → ((a && b && c) || ((a && b) || false)) ≡ (a && b)
  bool_absorb true true true = refl
  bool_absorb true true false = refl
  bool_absorb true false c = refl
  bool_absorb false b c = refl

  or_false : (a : Bool) → (a || false) ≡ a
  or_false true = refl
  or_false false = refl

  -- The loop over the existing record adds no field.
  contains-candidates :
      (j : String) (ignored : List String) (existing incoming : CanonicalRecord js)
      (hint : List String)
      → contains j (candidates js ignored existing incoming hint)
        ≡ (not (contains j ignored) && contains j (compared hint incoming))
  unfolding candidates
  contains-candidates j ignored existing incoming [] =
      rw
        (
          contains-add_existing j ignored incoming (keys js existing)
              (add_candidates js ignored (keys js incoming) []),
          contains-add_candidates j ignored (keys js incoming) [],
        )
        (bool_absorb (not (contains j ignored)) (contains j (keys js incoming))
          (contains j (keys js existing)))
  contains-candidates j ignored existing incoming (k ∷ ks) =
      rw (contains-add_candidates j ignored (k ∷ ks) []) (or_false _)

  -- The change of a field that differs.
  abbrev pub change_at : String → CanonicalRecord js → CanonicalRecord js → FieldChange js
  change_at k existing incoming = record {
    from = or_null js (value_at js k existing);
    to = or_null js (value_at js k incoming);
  }

  abbrev pub same_at : String → CanonicalRecord js → CanonicalRecord js → Bool
  same_at k existing incoming = is_equal js (value_at js k existing) (value_at js k incoming)

  get-changed_fields :
      (j : String) (existing incoming : CanonicalRecord js) (ks : List String)
      (out : Dict (FieldChange js))
      → get j (changed_fields js existing incoming ks out) ≡ (
          if contains j ks && not (same_at j existing incoming)
          then some (change_at j existing incoming)
          else get j out)
  unfolding changed_fields
  get-changed_fields j existing incoming [] out = refl
  get-changed_fields j existing incoming (k ∷ ks) out =
      get-changed_fields j existing incoming ks _
      ∙ get-set_unless (λ i. same_at i existing incoming) (λ i. change_at i existing incoming) j k
          (contains j ks) out

  -- The changes that a result names.
  abbrev pub changes : DiffResult js → Dict (FieldChange js)
  changes noop = []
  changes (fields d) = d

  changes-result_of : (d : Dict (FieldChange js)) → changes (result_of js d) ≡ d
  unfolding result_of
  changes-result_of [] = refl
  changes-result_of (c ∷ d) = refl

  -- For an existing record a key is reported just if it is not ignored, is among the compared
  -- fields (the hint, or the keys of the incoming record without one), and its two values differ;
  -- it is reported with these values, `undefined` as `null`.
  pub diff_existing_lem :
      (opts : DeepEqualDifferOptions) (existing incoming : CanonicalRecord js)
      (hint : Option (List String)) (k : String)
      → get k (changes (diff js opts (some existing) incoming hint)) ≡ (
          if (not (contains k (ignore_set opts))
              && contains k (compared (or_else hint []) incoming))
            && not (same_at k existing incoming)
          then some (change_at k existing incoming)
          else none)
  unfolding diff get
  diff_existing_lem opts existing incoming hint k =
      rw
        (
          changes-result_of (
              changed_fields js existing incoming
                (candidates js (ignore_set opts) existing incoming (or_else hint [])) []),
          get-changed_fields k existing incoming
              (candidates js (ignore_set opts) existing incoming (or_else hint [])) [],
          contains-candidates k (ignore_set opts) existing incoming (or_else hint []),
        )
        refl

  -- What each key holds is a value that equals itself.
  unfoldable pub IsPlainRecord : CanonicalRecord js → Type 0
  unfolding IsPlain
  IsPlainRecord r = (k : String) → IsPlain js (value_at js k r)

  changed_fields_self :
      (r : CanonicalRecord js) (ks : List String)
      → IsPlainRecord r
      → changed_fields js r r ks [] ≡ []
  unfolding changed_fields IsPlainRecord
  changed_fields_self r [] h = refl
  changed_fields_self r (k ∷ ks) h =
      rw (is_equal_refl js (value_at js k r) (h k)) (changed_fields_self r ks h)

  -- The difference of a record to itself is `noop`, for any options and hint, where the values of the
  -- record hold no `NaN` and no object of theirs has a key twice.
  pub diff_self :
      (opts : DeepEqualDifferOptions) (r : CanonicalRecord js) (hint : Option (List String))
      → IsPlainRecord r
      → diff js opts (some r) r hint ≡ noop
  unfolding diff result_of
  diff_self opts r hint h =
      rw (changed_fields_self r (candidates js (ignore_set opts) r r (or_else hint [])) h) refl
