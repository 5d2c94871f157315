-- ===== src/Integration/Values/Reflexive.antt =====
-- `isEqual` (integration/deep-equal.differ.ts) of a value and itself.
use codegen_patterns.Base.{
  String, none, some, true, false, ◌≡◌, refl, subst, arith, inl, inr, eq_refl, text-cases,
}
use codegen_patterns.Integration.Values.{
  JsNumber, Value, Items, Fields, undefined, null, bool, num, str, date, arr, obj, nil, cons, end,
  field, get_field, is_equal, equal_items, equal_fields,
}

module _ (js : JsNumber) where
  open js use {Num, num_eq, parse}

  -- A value as JSON gives it: each number equals itself (so none is `NaN`), and no object has a key
  -- twice.
  unfoldable mutual
    pub IsPlain : Value Num → Type 0
    IsPlain (num n) = num_eq n n ≡ true
    IsPlain (arr xs) = ArePlain xs
    IsPlain (obj fs) = HasPlain fs
    IsPlain _ = Unit {0}

    pub ArePlain : Items Num → Type 0
    ArePlain nil = Unit {0}
    ArePlain (cons x xs) = IsPlain x × ArePlain xs

    pub HasPlain : Fields Num → Type 0
    HasPlain end = Unit {0}
    HasPlain (field k v fs) = (get_field k fs ≡ none) × IsPlain v × HasPlain fs

  abbrev IsSub : Fields Num → Fields Num → Type 0
  IsSub fs gs = (k : String) (v : Value Num) → get_field k fs ≡ some v → get_field k gs ≡ some v

  IsSub-rest :
      (k : String) (v : Value Num) (fs gs : Fields Num)
      → get_field k fs ≡ none
      → IsSub (field k v fs) gs
      → IsSub fs gs
  unfolding get_field
  IsSub-rest k v fs gs absent h j w found = h j w (elim (text-cases k j) [
    | inl e ↦ cc (subst (λ x. get_field x fs ≡ none) e absent)
    | inr (_, test) ↦ rw test found
  ])

  get_field-head :
      (k : String) (v : Value Num) (fs : Fields Num) → get_field k (field k v fs) ≡ some v
  unfolding get_field
  get_field-head k v fs = rw eq_refl

  mutual
    unfolding is_equal IsPlain

    pub is_equal_refl : (v : Value Num) → IsPlain v → is_equal js v v ≡ true
    is_equal_refl undefined h = refl
    is_equal_refl null h = refl
    is_equal_refl (bool true) h = refl
    is_equal_refl (bool false) h = refl
    is_equal_refl (num n) h = rw h
    is_equal_refl (str s) h = rw eq_refl
    is_equal_refl (date s) h = rw eq_refl
    is_equal_refl (arr xs) h = equal_items_refl xs h
    is_equal_refl (obj fs) h = ground (arith, equal_fields_refl fs fs h (λ k v e. e))

    equal_items_refl : (xs : Items Num) → ArePlain xs → equal_items js xs xs ≡ true
    equal_items_refl nil h = refl
    equal_items_refl (cons x xs) h = rw (is_equal_refl x h.0) (equal_items_refl xs h.1)

    equal_fields_refl :
        (fs gs : Fields Num) → HasPlain fs → IsSub fs gs → equal_fields js fs gs ≡ true
    equal_fields_refl end gs h sub = refl
    equal_fields_refl (field k v fs) gs h sub =
        rw (sub k v (get_field-head k v fs))
          (rw (is_equal_refl v h.1) (equal_fields_refl fs gs h.2 (IsSub-rest k v fs gs h.0 sub)))
