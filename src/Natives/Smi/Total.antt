-- ===== src/Natives/Smi/Total.antt =====
-- The natives of small integers answer whenever the receiver is one and the count of a shift is one by
-- is_count; those that make a Smi by FromWord, if the Smis are in range.
use dartino_sdk.Base.{
  ℕ, ◌^◌, ◌<◌, ◌≡◌, refl, sym, subst, Bool, true, false, not, ◌||◌, Option, arith, leb,
  if◌then◌else◌,
}
use Prim.Native.Nat.{bit_and, bit_or, bit_xor}
use dartino_sdk.Int.{ℤ, pos, negsuc, abs, ◌*ℤ◌, to_word, of_word, wrap, shift_right, eqb_ℤ}
use dartino_sdk.Natives.{Object, Failure, Result, is_valid, as_smi, need_smi}
use dartino_sdk.Natives.Ranges.{ValidObject, shift_right_le}
use dartino_sdk.Natives.Smi.Sums.{smi_negate_lem}
use dartino_sdk.Natives.Smi.Products.{modulo_lem, remainder_valid}
use dartino_sdk.Natives.Smi.Bitwise.{bit_and_valid, bit_or_valid, bit_xor_valid}
use dartino_sdk.Natives.Smi.{
  smi_to_mint, smi_negate, smi_add, smi_sub, smi_mul, smi_mod, smi_trunc_div, smi_bit_not,
  smi_bit_and, smi_bit_or, smi_bit_xor, smi_bit_shr, smi_bit_shl, smi_equal, smi_less,
  smi_less_equal, smi_greater, smi_greater_equal, trunc_div, modulo, bit_not, from_word,
}
use dartino_sdk.Natives.Total.{
  Answers, is_smi, is_count, as_smi-Answers, need_smi-Answers, need_smi_count,
}

choose-Answers :
    (b : Bool) (u v : Option Result)
    → (b ≡ true → Answers u)
    → (b ≡ false → Answers v)
    → Answers (if b then u else v)
choose-Answers true u v h k = h refl
choose-Answers false u v h k = k refl

from_word-Answers : (v : ℤ) → is_valid v ≡ true → Answers (from_word v)
from_word-Answers v h = (Result.value (Object.smi v), rw h refl)

as_valid-Answers :
    (x : Object) (f : ℤ → Option Result)
    → is_smi x ≡ true
    → ValidObject x
    → ((v : ℤ) → is_valid v ≡ true → Answers (f v))
    → Answers (as_smi x f)
as_valid-Answers (Object.smi v) f h valid k = k v valid
as_valid-Answers _ f h valid k = absurd (ground arith)

need_valid-Answers :
    (y : Object) (f : ℤ → Option Result)
    → ValidObject y
    → ((v : ℤ) → is_valid v ≡ true → Answers (f v))
    → Answers (need_smi y f)
need_valid-Answers (Object.smi v) f valid k = k v valid
need_valid-Answers _ f valid k = (Result.failure Failure.wrong_argument_type, refl)

nonzero : (y : ℤ) → eqb_ℤ y (pos 0) ≡ false → 0 < abs y
nonzero (pos n) h = ground arith
nonzero (negsuc n) h = ground arith

modulo_valid : (x y : ℤ) → is_valid y ≡ true → 0 < abs y → is_valid (modulo x y) ≡ true
modulo_valid x y h k =
    let (r, e, small, q, whole) = modulo_lem x y k in
    subst (λ m. is_valid m ≡ true) (sym e) (remainder_valid y r h small)

bit_not_valid : (v : ℤ) → is_valid v ≡ true → is_valid (bit_not v) ≡ true
bit_not_valid (pos n) h = h
bit_not_valid (negsuc n) h = h

shift_right_valid : (v : ℤ) (k : ℕ) → is_valid v ≡ true → is_valid (shift_right v k) ≡ true
shift_right_valid (pos n) k h = ground (arith, h, shift_right_le n k)
shift_right_valid (negsuc n) k h = ground (arith, h, shift_right_le n k)

negated : (a : Bool) → not a ≡ false → a ≡ true
negated true h = refl
negated false h = absurd (ground arith)

kept : (a b : Bool) → (not a || b) ≡ false → a ≡ true
kept true b h = refl
kept false b h = absurd (ground arith)

pub smi_to_mint-Answers :
    (room : Bool) (x : Object) → is_smi x ≡ true → Answers (smi_to_mint room x)
unfolding smi_to_mint
smi_to_mint-Answers room x h = as_smi-Answers x _ h λ v. (_, refl)

pub smi_negate-Answers : (x : Object) → is_smi x ≡ true → ValidObject x → Answers (smi_negate x)
unfolding smi_negate
smi_negate-Answers x h valid = as_valid-Answers x _ h valid λ v k. (_, smi_negate_lem v k)

pub smi_add-Answers : (x y : Object) → is_smi x ≡ true → Answers (smi_add x y)
unfolding smi_add
smi_add-Answers x y h = as_smi-Answers x _ h λ v. need_smi-Answers y _ λ w. (_, refl)

pub smi_sub-Answers : (x y : Object) → is_smi x ≡ true → Answers (smi_sub x y)
unfolding smi_sub
smi_sub-Answers x y h = as_smi-Answers x _ h λ v. need_smi-Answers y _ λ w. (_, refl)

pub smi_mul-Answers : (x y : Object) → is_smi x ≡ true → Answers (smi_mul x y)
unfolding smi_mul
smi_mul-Answers x y h = as_smi-Answers x _ h λ v. need_smi-Answers y _ λ w. (_, refl)

pub smi_mod-Answers :
    (x y : Object) → is_smi x ≡ true → ValidObject x → ValidObject y → Answers (smi_mod x y)
unfolding smi_mod
smi_mod-Answers x y h valid valid' = as_valid-Answers x _ h valid λ v k.
    need_valid-Answers y _ valid' λ w k'.
      choose-Answers (eqb_ℤ w (pos 0)) _ _ (λ e. (_, refl))
        (λ e. from_word-Answers (modulo v w) (modulo_valid v w k' (nonzero w e)))

pub smi_trunc_div-Answers : (x y : Object) → is_smi x ≡ true → Answers (smi_trunc_div x y)
unfolding smi_trunc_div
smi_trunc_div-Answers x y h = as_smi-Answers x _ h λ v. need_smi-Answers y _ λ w.
    choose-Answers (eqb_ℤ w (pos 0)) _ _ (λ e. (_, refl))
      (λ e.
        choose-Answers (not (is_valid (trunc_div v w))) _ _ (λ e. (_, refl))
          (λ e. from_word-Answers (trunc_div v w) (negated (is_valid (trunc_div v w)) e)))

pub smi_bit_not-Answers : (x : Object) → is_smi x ≡ true → ValidObject x → Answers (smi_bit_not x)
unfolding smi_bit_not
smi_bit_not-Answers x h valid =
    as_valid-Answers x _ h valid λ v k. from_word-Answers (bit_not v) (bit_not_valid v k)

pub smi_bit_and-Answers :
    (x y : Object) → is_smi x ≡ true → ValidObject x → ValidObject y → Answers (smi_bit_and x y)
unfolding smi_bit_and
smi_bit_and-Answers x y h valid valid' = as_valid-Answers x _ h valid λ v k.
    need_valid-Answers y _ valid'
      λ w k'. from_word-Answers (of_word (bit_and (to_word v) (to_word w))) (bit_and_valid v w k k')

pub smi_bit_or-Answers :
    (x y : Object) → is_smi x ≡ true → ValidObject x → ValidObject y → Answers (smi_bit_or x y)
unfolding smi_bit_or
smi_bit_or-Answers x y h valid valid' = as_valid-Answers x _ h valid λ v k.
    need_valid-Answers y _ valid'
      λ w k'. from_word-Answers (of_word (bit_or (to_word v) (to_word w))) (bit_or_valid v w k k')

pub smi_bit_xor-Answers :
    (x y : Object) → is_smi x ≡ true → ValidObject x → ValidObject y → Answers (smi_bit_xor x y)
unfolding smi_bit_xor
smi_bit_xor-Answers x y h valid valid' = as_valid-Answers x _ h valid λ v k.
    need_valid-Answers y _ valid'
      λ w k'. from_word-Answers (of_word (bit_xor (to_word v) (to_word w))) (bit_xor_valid v w k k')

pub smi_bit_shr-Answers :
    (x y : Object) → is_smi x ≡ true → ValidObject x → is_count y ≡ true → Answers (smi_bit_shr x y)
unfolding smi_bit_shr
smi_bit_shr-Answers x y h valid c = as_valid-Answers x _ h valid λ v k. need_smi_count y _ c λ n.
    from_word-Answers (shift_right v (if leb 64 n then 63 else n))
      (shift_right_valid v (if leb 64 n then 63 else n) k)

pub smi_bit_shl-Answers :
    (x y : Object) → is_smi x ≡ true → is_count y ≡ true → Answers (smi_bit_shl x y)
unfolding smi_bit_shl
smi_bit_shl-Answers x y h c = as_smi-Answers x _ h λ v. need_smi_count y _ c λ n.
    let result = wrap (v *ℤ pos (2 ^ n)) in
    choose-Answers (leb 64 n) _ _ (λ e. (_, refl))
      (λ e.
        choose-Answers (not (is_valid result) || not (eqb_ℤ (shift_right result n) v)) _ _
          (λ e. (_, refl)) (λ e. from_word-Answers result (kept (is_valid result) _ e)))

pub smi_equal-Answers : (x y : Object) → is_smi x ≡ true → Answers (smi_equal x y)
unfolding smi_equal
smi_equal-Answers x y h = as_smi-Answers x _ h λ v. need_smi-Answers y _ λ w. (_, refl)

pub smi_less-Answers : (x y : Object) → is_smi x ≡ true → Answers (smi_less x y)
unfolding smi_less
smi_less-Answers x y h = as_smi-Answers x _ h λ v. need_smi-Answers y _ λ w. (_, refl)

pub smi_less_equal-Answers : (x y : Object) → is_smi x ≡ true → Answers (smi_less_equal x y)
unfolding smi_less_equal
smi_less_equal-Answers x y h = as_smi-Answers x _ h λ v. need_smi-Answers y _ λ w. (_, refl)

pub smi_greater-Answers : (x y : Object) → is_smi x ≡ true → Answers (smi_greater x y)
unfolding smi_greater
smi_greater-Answers x y h = as_smi-Answers x _ h λ v. need_smi-Answers y _ λ w. (_, refl)

pub smi_greater_equal-Answers : (x y : Object) → is_smi x ≡ true → Answers (smi_greater_equal x y)
unfolding smi_greater_equal
smi_greater_equal-Answers x y h = as_smi-Answers x _ h λ v. need_smi-Answers y _ λ w. (_, refl)
