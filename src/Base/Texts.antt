-- ===== src/Base/Texts.antt =====
-- The order of texts by their characters, which `<` is on ids.
use Prim.Native.Nat.{ℕ, zero, suc, Ordering, compare as compare_nat}
use Prim.Native.Nat.compare as compare_laws
use Prim.Native.Char.{code}
use Prim.Native.String.{String, [], ◌∷◌, then, compare}
use Prim.Native.String.compare as text_laws
use mathlib.Core.Path.{◌≡◌, refl, sym, ap, ◌∙◌}
use mathlib.Core.Bool.{true, false}
use text.Mathlib.Text.{is_lt}
use text.Mathlib.TextEquality.{codes_equal}

nat_gt_trans :
    (m n k : ℕ)
    → compare_nat m n ≡ Ordering.gt
    → compare_nat n k ≡ Ordering.gt
    → compare_nat m k ≡ Ordering.gt
nat_gt_trans zero zero k h q = cc
nat_gt_trans zero (suc n) k h q = cc (sym (compare_laws.zero-suc n) ∙ h)
nat_gt_trans (suc m) zero zero h q = cc
nat_gt_trans (suc m) zero (suc k) h q = cc (sym (compare_laws.zero-suc k) ∙ q)
nat_gt_trans (suc m) (suc n) zero h q = compare_laws.suc-zero m
nat_gt_trans (suc m) (suc n) (suc k) h q =
    compare_laws.suc-suc m k
    ∙ nat_gt_trans m n k (sym (compare_laws.suc-suc m n) ∙ h) (sym (compare_laws.suc-suc n k) ∙ q)

nat_lt_gt : (m n : ℕ) → compare_nat m n ≡ Ordering.lt → compare_nat n m ≡ Ordering.gt
nat_lt_gt zero zero h = cc
nat_lt_gt zero (suc n) h = compare_laws.suc-zero n
nat_lt_gt (suc m) zero h = cc (sym (compare_laws.suc-zero m) ∙ h)
nat_lt_gt (suc m) (suc n) h =
    compare_laws.suc-suc n m ∙ nat_lt_gt m n (sym (compare_laws.suc-suc m n) ∙ h)

nat_same : (m : ℕ) → compare_nat m m ≡ Ordering.eq
nat_same zero = compare_laws.zero-zero
nat_same (suc m) = compare_laws.suc-suc m m ∙ nat_same m

-- The first comparison decides, and the rest if it is equal.
then_trans :
    (o₁ o₂ o₃ r₁ r₂ r₃ : Ordering)
    → (o₁ ≡ Ordering.eq → o₃ ≡ o₂)
    → (o₂ ≡ Ordering.eq → o₃ ≡ o₁)
    → (o₁ ≡ Ordering.gt → o₂ ≡ Ordering.gt → o₃ ≡ Ordering.gt)
    → (is_lt r₁ ≡ false → is_lt r₂ ≡ false → is_lt r₃ ≡ false)
    → is_lt (then o₁ r₁) ≡ false
    → is_lt (then o₂ r₂) ≡ false
    → is_lt (then o₃ r₃) ≡ false
then_trans Ordering.lt o₂ o₃ r₁ r₂ r₃ a b c rest h q = cc h
then_trans Ordering.eq Ordering.lt o₃ r₁ r₂ r₃ a b c rest h q = cc q
then_trans Ordering.eq Ordering.eq o₃ r₁ r₂ r₃ a b c rest h q =
    ap (λ o. is_lt (then o r₃)) (a refl) ∙ rest h q
then_trans Ordering.eq Ordering.gt o₃ r₁ r₂ r₃ a b c rest h q = ap (λ o. is_lt (then o r₃)) (a refl)
then_trans Ordering.gt Ordering.lt o₃ r₁ r₂ r₃ a b c rest h q = cc q
then_trans Ordering.gt Ordering.eq o₃ r₁ r₂ r₃ a b c rest h q = ap (λ o. is_lt (then o r₃)) (b refl)
then_trans Ordering.gt Ordering.gt o₃ r₁ r₂ r₃ a b c rest h q =
    ap (λ o. is_lt (then o r₃)) (c refl refl)

pub not-less_trans :
    (a b c : String)
    → is_lt (compare a b) ≡ false
    → is_lt (compare b c) ≡ false
    → is_lt (compare a c) ≡ false
not-less_trans [] [] c h q = q
not-less_trans [] (y ∷ b) c h q = cc (ap is_lt (sym (text_laws.nil-cons y b)) ∙ h)
not-less_trans (x ∷ a) b [] h q = ap is_lt (text_laws.cons-nil x a)
not-less_trans (x ∷ a) [] (z ∷ c) h q = cc (ap is_lt (sym (text_laws.nil-cons z c)) ∙ q)
not-less_trans (x ∷ a) (y ∷ b) (z ∷ c) h q =
    ap is_lt (text_laws.cons-cons x z a c)
    ∙ then_trans (compare_nat (code x) (code y)) (compare_nat (code y) (code z))
        (compare_nat (code x) (code z)) (compare a b) (compare b c) (compare a c)
        (λ e. ap (λ w. compare_nat (code w) (code z)) (codes_equal x y e))
        (λ e. ap (λ w. compare_nat (code x) (code w)) (sym (codes_equal y z e)))
        (nat_gt_trans (code x) (code y) (code z)) (not-less_trans a b c)
        (ap is_lt (sym (text_laws.cons-cons x y a b)) ∙ h)
        (ap is_lt (sym (text_laws.cons-cons y z b c)) ∙ q)

then_asym :
    (o p r s : Ordering)
    → (o ≡ Ordering.lt → p ≡ Ordering.gt)
    → (o ≡ Ordering.eq → p ≡ Ordering.eq)
    → (is_lt r ≡ true → is_lt s ≡ false)
    → is_lt (then o r) ≡ true
    → is_lt (then p s) ≡ false
then_asym Ordering.lt p r s a b rest h = ap (λ o. is_lt (then o s)) (a refl)
then_asym Ordering.eq p r s a b rest h = ap (λ o. is_lt (then o s)) (b refl) ∙ rest h
then_asym Ordering.gt p r s a b rest h = cc h

pub less_asym : (a b : String) → is_lt (compare a b) ≡ true → is_lt (compare b a) ≡ false
less_asym [] [] h = cc
less_asym [] (y ∷ b) h = ap is_lt (text_laws.cons-nil y b)
less_asym (x ∷ a) [] h = cc (ap is_lt (sym (text_laws.cons-nil x a)) ∙ h)
less_asym (x ∷ a) (y ∷ b) h =
    ap is_lt (text_laws.cons-cons y x b a)
    ∙ then_asym (compare_nat (code x) (code y)) (compare_nat (code y) (code x)) (compare a b)
        (compare b a) (nat_lt_gt (code x) (code y))
        (λ e. ap (λ w. compare_nat (code y) (code w)) (codes_equal x y e) ∙ nat_same (code y))
        (less_asym a b) (ap is_lt (sym (text_laws.cons-cons x y a b)) ∙ h)
