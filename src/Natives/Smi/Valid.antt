-- ===== src/Natives/Smi/Valid.antt =====
-- The natives of small integers.
use dartino_sdk.Base.{
  ◌^◌, ◌≡◌, sym, subst, Bool, true, not, ◌||◌, Option, arith, leb, if◌then◌else◌, inl, inr,
}
use Prim.Native.Nat.{bit_and, bit_or, bit_xor}
use dartino_sdk.Int.{
  to_word, of_word, ℤ, ◌+ℤ◌, ◌-ℤ◌, InWord, pos, negsuc, ◌*ℤ◌, wrap, shift_right, eqb_ℤ,
}
use dartino_sdk.Natives.{Object, Failure, Result, is_valid}
use dartino_sdk.Natives.Smi.{
  smi_to_mint, smi_negate, smi_add, smi_sub, smi_mul, smi_mod, smi_trunc_div, smi_bit_not,
  smi_bit_and, smi_bit_or, smi_bit_xor, smi_bit_shr, smi_bit_shl, smi_equal, smi_less,
  smi_less_equal, smi_greater, smi_greater_equal, trunc_div, modulo, bit_not, from_word,
}
use dartino_sdk.Natives.Smi.Sums.{ExactOr, smi_add_lem, smi_sub_lem, smi_negate_lem}
use dartino_sdk.Natives.Smi.Products.{smi_mul_lem}
use dartino_sdk.Natives.Ranges.{
  ValidObject, ValidResult, as_smi-Valid, need_smi-Valid, either-Valid, choose-Valid, to_bool-Valid,
  new_integer-Valid,
}

exact-Valid : (f : Failure) (v : ℤ) (r : Option Result) → ExactOr f v r → ValidResult r
exact-Valid f v r e =
    subst ValidResult (sym e) (
      either-Valid (is_valid v) (Result.value (Object.smi v)) (Result.failure f) (λ h. h) (λ h. tt))

word_of_smi : (v : ℤ) → is_valid v ≡ true → InWord v
word_of_smi (pos n) h = ground arith
word_of_smi (negsuc n) h = ground arith

from_word-Valid : (v : ℤ) → ValidResult (from_word v)
from_word-Valid v = choose-Valid (is_valid v) _ _ (λ e. e) (λ e. tt)

pub smi_to_mint-Valid :
    (room : Bool) (x : Object) → ValidObject x → ValidResult (smi_to_mint room x)
unfolding smi_to_mint
smi_to_mint-Valid room x h = as_smi-Valid x _ h λ v k. new_integer-Valid room v (word_of_smi v k)

pub smi_negate-Valid : (x : Object) → ValidObject x → ValidResult (smi_negate x)
unfolding smi_negate
smi_negate-Valid x h =
    as_smi-Valid x _ h
      λ v k. exact-Valid Failure.index_out_of_bounds (pos 0 -ℤ v) _ (smi_negate_lem v k)

pub smi_add-Valid : (x y : Object) → ValidObject x → ValidObject y → ValidResult (smi_add x y)
unfolding smi_add
smi_add-Valid x y h h' = as_smi-Valid x _ h λ v k.
    need_smi-Valid y _ h'
      λ w k'. exact-Valid Failure.wrong_argument_type (v +ℤ w) _ (smi_add_lem v w k k')

pub smi_sub-Valid : (x y : Object) → ValidObject x → ValidObject y → ValidResult (smi_sub x y)
unfolding smi_sub
smi_sub-Valid x y h h' = as_smi-Valid x _ h λ v k.
    need_smi-Valid y _ h'
      λ w k'. exact-Valid Failure.wrong_argument_type (v -ℤ w) _ (smi_sub_lem v w k k')

pub smi_mul-Valid : (x y : Object) → ValidObject x → ValidObject y → ValidResult (smi_mul x y)
unfolding smi_mul
smi_mul-Valid x y h h' = as_smi-Valid x _ h λ v k. need_smi-Valid y _ h' λ w k'.
    elim (smi_mul_lem v w k k') [
      | inl (valid, e) ↦ subst ValidResult (sym e) valid
      | inr (large, e) ↦ subst ValidResult (sym e) tt
    ]

pub smi_mod-Valid : (x y : Object) → ValidObject x → ValidObject y → ValidResult (smi_mod x y)
unfolding smi_mod
smi_mod-Valid x y h h' = as_smi-Valid x _ h λ v k.
    need_smi-Valid y _ h'
      λ w k'. choose-Valid (eqb_ℤ w (pos 0)) _ _ (λ e. tt) (λ e. from_word-Valid (modulo v w))

pub smi_trunc_div-Valid :
    (x y : Object) → ValidObject x → ValidObject y → ValidResult (smi_trunc_div x y)
unfolding smi_trunc_div
smi_trunc_div-Valid x y h h' = as_smi-Valid x _ h λ v k. need_smi-Valid y _ h' λ w k'.
    choose-Valid (eqb_ℤ w (pos 0)) _ _ (λ e. tt)
      (λ e.
        choose-Valid (not (is_valid (trunc_div v w))) _ _ (λ e. tt)
          (λ e. from_word-Valid (trunc_div v w)))

pub smi_bit_not-Valid : (x : Object) → ValidObject x → ValidResult (smi_bit_not x)
unfolding smi_bit_not
smi_bit_not-Valid x h = as_smi-Valid x _ h λ v k. from_word-Valid (bit_not v)

pub smi_bit_and-Valid :
    (x y : Object) → ValidObject x → ValidObject y → ValidResult (smi_bit_and x y)
unfolding smi_bit_and
smi_bit_and-Valid x y h h' =
    as_smi-Valid x _ h λ v k.
      need_smi-Valid y _ h' λ w k'. from_word-Valid (of_word (bit_and (to_word v) (to_word w)))

pub smi_bit_or-Valid : (x y : Object) → ValidObject x → ValidObject y → ValidResult (smi_bit_or x y)
unfolding smi_bit_or
smi_bit_or-Valid x y h h' =
    as_smi-Valid x _ h λ v k.
      need_smi-Valid y _ h' λ w k'. from_word-Valid (of_word (bit_or (to_word v) (to_word w)))

pub smi_bit_xor-Valid :
    (x y : Object) → ValidObject x → ValidObject y → ValidResult (smi_bit_xor x y)
unfolding smi_bit_xor
smi_bit_xor-Valid x y h h' =
    as_smi-Valid x _ h λ v k.
      need_smi-Valid y _ h' λ w k'. from_word-Valid (of_word (bit_xor (to_word v) (to_word w)))

shr_body : (v w : ℤ) → is_valid v ≡ true → ValidResult (smi_bit_shr (Object.smi v) (Object.smi w))
unfolding smi_bit_shr
shr_body v (pos n) h = from_word-Valid (shift_right v (if leb 64 n then 63 else n))
shr_body v (negsuc n) h = tt

shl_body : (v w : ℤ) → ValidResult (smi_bit_shl (Object.smi v) (Object.smi w))
unfolding smi_bit_shl
shl_body v (pos n) =
    let result = wrap (v *ℤ pos (2 ^ n)) in
    choose-Valid (leb 64 n) _ _ (λ e. tt)
      (λ e.
        choose-Valid (not (is_valid result) || not (eqb_ℤ (shift_right result n) v)) _ _ (λ e. tt)
          (λ e. from_word-Valid result))
shl_body v (negsuc n) = tt

pub smi_bit_shr-Valid :
    (x y : Object) → ValidObject x → ValidObject y → ValidResult (smi_bit_shr x y)
unfolding smi_bit_shr
smi_bit_shr-Valid x y h h' = as_smi-Valid x _ h λ v k. need_smi-Valid y _ h' λ w k'. shr_body v w k

pub smi_bit_shl-Valid :
    (x y : Object) → ValidObject x → ValidObject y → ValidResult (smi_bit_shl x y)
unfolding smi_bit_shl
smi_bit_shl-Valid x y h h' = as_smi-Valid x _ h λ v k. need_smi-Valid y _ h' λ w k'. shl_body v w

pub smi_equal-Valid : (x y : Object) → ValidObject x → ValidObject y → ValidResult (smi_equal x y)
unfolding smi_equal
smi_equal-Valid x y h h' = as_smi-Valid x _ h λ v k. need_smi-Valid y _ h' λ w k'. to_bool-Valid _

pub smi_less-Valid : (x y : Object) → ValidObject x → ValidObject y → ValidResult (smi_less x y)
unfolding smi_less
smi_less-Valid x y h h' = as_smi-Valid x _ h λ v k. need_smi-Valid y _ h' λ w k'. to_bool-Valid _

pub smi_less_equal-Valid :
    (x y : Object) → ValidObject x → ValidObject y → ValidResult (smi_less_equal x y)
unfolding smi_less_equal
smi_less_equal-Valid x y h h' =
    as_smi-Valid x _ h λ v k. need_smi-Valid y _ h' λ w k'. to_bool-Valid _

pub smi_greater-Valid :
    (x y : Object) → ValidObject x → ValidObject y → ValidResult (smi_greater x y)
unfolding smi_greater
smi_greater-Valid x y h h' = as_smi-Valid x _ h λ v k. need_smi-Valid y _ h' λ w k'. to_bool-Valid _

pub smi_greater_equal-Valid :
    (x y : Object) → ValidObject x → ValidObject y → ValidResult (smi_greater_equal x y)
unfolding smi_greater_equal
smi_greater_equal-Valid x y h h' =
    as_smi-Valid x _ h λ v k. need_smi-Valid y _ h' λ w k'. to_bool-Valid _
