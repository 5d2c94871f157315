-- ===== src/Integration/Values.antt =====
-- The values of canonical records, and `isEqual` of integration/deep-equal.differ.ts. Numbers are
-- those of the JavaScript engine, a parameter: `===` on them and `Number(text)`. Records come from
-- two sides that share no object, so `===` on two objects is false.
pub mod Reflexive
use codegen_patterns.Base.{
  ℕ, suc, String, Option, none, some, Bool, true, false, ◌&&◌, ◌||◌, not, ◌=ₛ◌, ◌==◌, if◌then◌else◌,
}

-- `parse` is `Number(text)` where the text is not blank and the number is finite.
pub record JsNumber : Type 1 where
  pub Num : Type 0
  pub num_eq : Num → Num → Bool
  pub parse : String → Option Num

-- `date` holds the text of `toISOString()`.
mutual
  pub data Value (N : Type 0) : Type 0 where
    undefined : Value N
    null : Value N
    bool : Bool → Value N
    num : N → Value N
    str : String → Value N
    date : String → Value N
    arr : Items N → Value N
    obj : Fields N → Value N

  pub data Items (N : Type 0) : Type 0 where
    nil : Items N
    cons : Value N → Items N → Items N

  pub data Fields (N : Type 0) : Type 0 where
    end : Fields N
    field : String → Value N → Fields N → Fields N

-- `obj[key]`, where `none` says that the object has no such key.
unfoldable pub get_field : {N : Type 0} → String → Fields N → Option (Value N)
get_field k end = none
get_field k (field j v fs) = if j =ₛ k then some v else get_field k fs

unfoldable pub count_fields : {N : Type 0} → Fields N → ℕ
count_fields end = 0
count_fields (field k v fs) = suc (count_fields fs)

-- `normalize`: a date is its text.
unfoldable pub normalize : {N : Type 0} → Value N → Value N
normalize (date iso) = str iso
normalize v = v

module _ (js : JsNumber) where
  open js use {Num, num_eq, parse}

  -- `a === b`
  unfoldable pub strict_equal : Value Num → Value Num → Bool
  strict_equal undefined undefined = true
  strict_equal null null = true
  strict_equal (bool true) (bool b) = b
  strict_equal (bool false) (bool b) = not b
  strict_equal (num a) (num b) = num_eq a b
  strict_equal (str a) (str b) = a =ₛ b
  strict_equal _ _ = false

  unfoldable pub parses_to : Option Num → Num → Bool
  parses_to none n = false
  parses_to (some m) n = num_eq m n

  -- `maybeNumericEqual`: a numeric text on the left, a number on the right.
  unfoldable pub maybe_numeric_equal : Value Num → Value Num → Bool
  unfolding parses_to
  maybe_numeric_equal (str s) (num n) = parses_to (parse s) n
  maybe_numeric_equal _ _ = false

  -- `isEqual` where one side is no object.
  unfoldable pub scalar_equal : Value Num → Value Num → Bool
  unfolding strict_equal normalize maybe_numeric_equal
  scalar_equal a b =
      strict_equal a b
      || strict_equal (normalize a) (normalize b)
      || maybe_numeric_equal (normalize a) (normalize b)
      || maybe_numeric_equal (normalize b) (normalize a)

  -- `isEqual`, with `deepEqualObject` for two arrays and for two plain objects. The keys of an
  -- array are its indices, so two arrays are compared place by place.
  unfoldable mutual
    unfolding scalar_equal get_field count_fields

    pub is_equal : Value Num → Value Num → Bool
    is_equal (arr xs) b = elim b [ arr ys ↦ equal_items xs ys | _ ↦ false ]
    is_equal (obj fs) b = elim b [
      | obj gs ↦ count_fields fs == count_fields gs && equal_fields fs gs
      | _ ↦ false
    ]
    is_equal undefined b = scalar_equal undefined b
    is_equal null b = scalar_equal null b
    is_equal (bool x) b = scalar_equal (bool x) b
    is_equal (num n) b = scalar_equal (num n) b
    is_equal (str s) b = scalar_equal (str s) b
    is_equal (date iso) b = scalar_equal (date iso) b

    pub equal_items : Items Num → Items Num → Bool
    equal_items nil nil = true
    equal_items nil (cons y ys) = false
    equal_items (cons x xs) nil = false
    equal_items (cons x xs) (cons y ys) = is_equal x y && equal_items xs ys

    pub equal_fields : Fields Num → Fields Num → Bool
    equal_fields end gs = true
    equal_fields (field k v fs) gs =
        elim (get_field k gs) [ none ↦ false | some w ↦ is_equal v w ] && equal_fields fs gs
