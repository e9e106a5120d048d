-- ===== src/Natives/Mint/Total.antt =====
-- The natives of large integers answer whenever the receiver is one and the count of a shift is one by is_count.
use dartino_sdk.Natives.Bits.{bit_length}
use dartino_sdk.Natives.Bits.Highest.{bit_length_bound}
use dartino_sdk.Base.{◌+◌, ◌^◌, false, none, some, leb, if◌then◌else◌, arith, Bool, ◌≡◌, refl, true}
use dartino_sdk.Natives.{Object, Result}
use dartino_sdk.Natives.Mint.{
  mint_negate, mint_add, mint_sub, mint_mul, mint_mod, mint_trunc_div, mint_bit_not, mint_bit_and,
  mint_bit_or, mint_bit_xor, mint_bit_shr, mint_bit_shl, mint_equal, mint_less, mint_less_equal,
  mint_greater, mint_greater_equal,
}
use dartino_sdk.Natives.Total.{
  Answers, is_large_integer, is_count, as_large_integer-Answers, need_large_integer-Answers,
  need_large_integer_count,
}

defined-Answers : (b : Bool) (r : Result) → b ≡ false → Answers (if b then none else some r)
defined-Answers b r e = (r, rw e refl)

pub mint_negate-Answers :
    (room : Bool) (x : Object) → is_large_integer x ≡ true → Answers (mint_negate room x)
unfolding mint_negate
mint_negate-Answers room x h = as_large_integer-Answers x _ h λ v. (_, refl)

pub mint_add-Answers :
    (room : Bool) (x y : Object) → is_large_integer x ≡ true → Answers (mint_add room x y)
unfolding mint_add
mint_add-Answers room x y h =
    as_large_integer-Answers x _ h λ v. need_large_integer-Answers y _ λ w. (_, refl)

pub mint_sub-Answers :
    (room : Bool) (x y : Object) → is_large_integer x ≡ true → Answers (mint_sub room x y)
unfolding mint_sub
mint_sub-Answers room x y h =
    as_large_integer-Answers x _ h λ v. need_large_integer-Answers y _ λ w. (_, refl)

pub mint_mul-Answers :
    (room : Bool) (x y : Object) → is_large_integer x ≡ true → Answers (mint_mul room x y)
unfolding mint_mul
mint_mul-Answers room x y h =
    as_large_integer-Answers x _ h λ v. need_large_integer-Answers y _ λ w. (_, refl)

pub mint_mod-Answers :
    (room : Bool) (x y : Object) → is_large_integer x ≡ true → Answers (mint_mod room x y)
unfolding mint_mod
mint_mod-Answers room x y h =
    as_large_integer-Answers x _ h λ v. need_large_integer-Answers y _ λ w. (_, refl)

pub mint_trunc_div-Answers :
    (room : Bool) (x y : Object) → is_large_integer x ≡ true → Answers (mint_trunc_div room x y)
unfolding mint_trunc_div
mint_trunc_div-Answers room x y h =
    as_large_integer-Answers x _ h λ v. need_large_integer-Answers y _ λ w. (_, refl)

pub mint_bit_not-Answers :
    (room : Bool) (x : Object) → is_large_integer x ≡ true → Answers (mint_bit_not room x)
unfolding mint_bit_not
mint_bit_not-Answers room x h = as_large_integer-Answers x _ h λ v. (_, refl)

pub mint_bit_and-Answers :
    (room : Bool) (x y : Object) → is_large_integer x ≡ true → Answers (mint_bit_and room x y)
unfolding mint_bit_and
mint_bit_and-Answers room x y h =
    as_large_integer-Answers x _ h λ v. need_large_integer-Answers y _ λ w. (_, refl)

pub mint_bit_or-Answers :
    (room : Bool) (x y : Object) → is_large_integer x ≡ true → Answers (mint_bit_or room x y)
unfolding mint_bit_or
mint_bit_or-Answers room x y h =
    as_large_integer-Answers x _ h λ v. need_large_integer-Answers y _ λ w. (_, refl)

pub mint_bit_xor-Answers :
    (room : Bool) (x y : Object) → is_large_integer x ≡ true → Answers (mint_bit_xor room x y)
unfolding mint_bit_xor
mint_bit_xor-Answers room x y h =
    as_large_integer-Answers x _ h λ v. need_large_integer-Answers y _ λ w. (_, refl)

pub mint_bit_shr-Answers :
    (room : Bool) (x y : Object)
    → is_large_integer x ≡ true
    → is_count y ≡ true
    → Answers (mint_bit_shr room x y)
unfolding mint_bit_shr
mint_bit_shr-Answers room x y h c =
    as_large_integer-Answers x _ h λ v. need_large_integer_count y _ c λ n small. (_, refl)

pub mint_bit_shl-Answers :
    (room : Bool) (x y : Object)
    → is_large_integer x ≡ true
    → is_count y ≡ true
    → Answers (mint_bit_shl room x y)
unfolding mint_bit_shl
mint_bit_shl-Answers room x y h c = as_large_integer-Answers x _ h λ v.
    need_large_integer_count y _ c λ n small.
      let fits : leb (2 ^ 63) (bit_length v + n) ≡ false =
        ground (arith, small, bit_length_bound v) in
      defined-Answers (leb (2 ^ 63) (bit_length v + n)) _ fits

pub mint_equal-Answers : (x y : Object) → is_large_integer x ≡ true → Answers (mint_equal x y)
unfolding mint_equal
mint_equal-Answers x y h =
    as_large_integer-Answers x _ h λ v. need_large_integer-Answers y _ λ w. (_, refl)

pub mint_less-Answers : (x y : Object) → is_large_integer x ≡ true → Answers (mint_less x y)
unfolding mint_less
mint_less-Answers x y h =
    as_large_integer-Answers x _ h λ v. need_large_integer-Answers y _ λ w. (_, refl)

pub mint_less_equal-Answers :
    (x y : Object) → is_large_integer x ≡ true → Answers (mint_less_equal x y)
unfolding mint_less_equal
mint_less_equal-Answers x y h =
    as_large_integer-Answers x _ h λ v. need_large_integer-Answers y _ λ w. (_, refl)

pub mint_greater-Answers : (x y : Object) → is_large_integer x ≡ true → Answers (mint_greater x y)
unfolding mint_greater
mint_greater-Answers x y h =
    as_large_integer-Answers x _ h λ v. need_large_integer-Answers y _ λ w. (_, refl)

pub mint_greater_equal-Answers :
    (x y : Object) → is_large_integer x ≡ true → Answers (mint_greater_equal x y)
unfolding mint_greater_equal
mint_greater_equal-Answers x y h =
    as_large_integer-Answers x _ h λ v. need_large_integer-Answers y _ λ w. (_, refl)
