-- ===== src/Natives/Table/Calls.antt =====
-- A call by the table, on valid objects.
use dartino_sdk.Base.{Bool, Option, List, [], ◌∷◌}
use dartino_sdk.Natives.{Object, Result}
use dartino_sdk.Natives.Names.{ArithmeticNative}
use dartino_sdk.Natives.Ranges.{ValidObject, ValidResult, AllValid}
use dartino_sdk.Natives.Doubles.{Floats}
use dartino_sdk.Natives.Table.{call, unary, binary}
use dartino_sdk.Natives.Smi.Valid.{
  smi_to_mint-Valid, smi_negate-Valid, smi_add-Valid, smi_sub-Valid, smi_mul-Valid, smi_mod-Valid,
  smi_trunc_div-Valid, smi_bit_not-Valid, smi_bit_and-Valid, smi_bit_or-Valid, smi_bit_xor-Valid,
  smi_bit_shr-Valid, smi_bit_shl-Valid, smi_equal-Valid, smi_less-Valid, smi_less_equal-Valid,
  smi_greater-Valid, smi_greater_equal-Valid,
}
use dartino_sdk.Natives.Mint.Valid.{
  mint_negate-Valid, mint_add-Valid, mint_sub-Valid, mint_mul-Valid, mint_mod-Valid,
  mint_trunc_div-Valid, mint_bit_not-Valid, mint_bit_and-Valid, mint_bit_or-Valid,
  mint_bit_xor-Valid, mint_bit_shr-Valid, mint_bit_shl-Valid, mint_equal-Valid, mint_less-Valid,
  mint_less_equal-Valid, mint_greater-Valid, mint_greater_equal-Valid,
}
use dartino_sdk.Natives.Doubles.Valid.{
  smi_to_double-Valid, smi_div-Valid, mint_to_double-Valid, mint_div-Valid, double_negate-Valid,
  double_add-Valid, double_sub-Valid, double_mul-Valid, double_mod-Valid, double_div-Valid,
  double_trunc_div-Valid, double_equal-Valid, double_less-Valid, double_less_equal-Valid,
  double_greater-Valid, double_greater_equal-Valid,
}
use dartino_sdk.Natives.Doubles.Rounded.{
  double_is_nan-Valid, double_is_negative-Valid, double_ceil-Valid, double_ceil_to_double-Valid,
  double_round-Valid, double_round_to_double-Valid, double_floor-Valid,
  double_floor_to_double-Valid, double_truncate-Valid, double_truncate_to_double-Valid,
  double_remainder-Valid, double_to_int-Valid, double_sin-Valid, double_cos-Valid, double_tan-Valid,
  double_acos-Valid, double_asin-Valid, double_atan-Valid, double_sqrt-Valid, double_exp-Valid,
  double_log-Valid, double_atan2-Valid, double_pow-Valid,
}

unary-Valid :
    (f : Object → Option Result) (arguments : List Object)
    → AllValid arguments
    → ((x : Object) → ValidObject x → ValidResult (f x))
    → ValidResult (unary f arguments)
unary-Valid f [] h k = tt
unary-Valid f (x ∷ xs) h k = k x h.0

binary-Valid :
    (f : Object → Object → Option Result) (arguments : List Object)
    → AllValid arguments
    → ((x y : Object) → ValidObject x → ValidObject y → ValidResult (f x y))
    → ValidResult (binary f arguments)
binary-Valid f [] h k = tt
binary-Valid f (x ∷ []) h k = tt
binary-Valid f (x ∷ y ∷ xs) h k = k x y h.0 h.1.0

-- A call of any of the natives of numbers by the table, on arguments whose Smis lie in the
-- range of Smis and whose large integers are words, answers with such an object, if it answers
-- with an object: no native hands a value out of range to Smi::FromWord.
pub call-Valid :
    (floats : Floats) (room : Bool) (native : ArithmeticNative) (arguments : List Object)
    → AllValid arguments
    → ValidResult (call floats room native arguments)
unfolding call
call-Valid floats room ArithmeticNative.smi_to_double xs h =
    unary-Valid _ xs h (λ x h. smi_to_double-Valid floats room x)
call-Valid floats room ArithmeticNative.smi_to_mint xs h =
    unary-Valid _ xs h (smi_to_mint-Valid room)
call-Valid floats room ArithmeticNative.smi_negate xs h = unary-Valid _ xs h smi_negate-Valid
call-Valid floats room ArithmeticNative.smi_add xs h = binary-Valid _ xs h smi_add-Valid
call-Valid floats room ArithmeticNative.smi_sub xs h = binary-Valid _ xs h smi_sub-Valid
call-Valid floats room ArithmeticNative.smi_mul xs h = binary-Valid _ xs h smi_mul-Valid
call-Valid floats room ArithmeticNative.smi_mod xs h = binary-Valid _ xs h smi_mod-Valid
call-Valid floats room ArithmeticNative.smi_div xs h =
    binary-Valid _ xs h (λ x y h h'. smi_div-Valid floats room x y)
call-Valid floats room ArithmeticNative.smi_trunc_div xs h = binary-Valid _ xs h smi_trunc_div-Valid
call-Valid floats room ArithmeticNative.smi_bit_not xs h = unary-Valid _ xs h smi_bit_not-Valid
call-Valid floats room ArithmeticNative.smi_bit_and xs h = binary-Valid _ xs h smi_bit_and-Valid
call-Valid floats room ArithmeticNative.smi_bit_or xs h = binary-Valid _ xs h smi_bit_or-Valid
call-Valid floats room ArithmeticNative.smi_bit_xor xs h = binary-Valid _ xs h smi_bit_xor-Valid
call-Valid floats room ArithmeticNative.smi_bit_shr xs h = binary-Valid _ xs h smi_bit_shr-Valid
call-Valid floats room ArithmeticNative.smi_bit_shl xs h = binary-Valid _ xs h smi_bit_shl-Valid
call-Valid floats room ArithmeticNative.smi_equal xs h = binary-Valid _ xs h smi_equal-Valid
call-Valid floats room ArithmeticNative.smi_less xs h = binary-Valid _ xs h smi_less-Valid
call-Valid floats room ArithmeticNative.smi_less_equal xs h =
    binary-Valid _ xs h smi_less_equal-Valid
call-Valid floats room ArithmeticNative.smi_greater xs h = binary-Valid _ xs h smi_greater-Valid
call-Valid floats room ArithmeticNative.smi_greater_equal xs h =
    binary-Valid _ xs h smi_greater_equal-Valid
call-Valid floats room ArithmeticNative.mint_to_double xs h =
    unary-Valid _ xs h (λ x h. mint_to_double-Valid floats room x)
call-Valid floats room ArithmeticNative.mint_negate xs h =
    unary-Valid _ xs h (mint_negate-Valid room)
call-Valid floats room ArithmeticNative.mint_add xs h = binary-Valid _ xs h (mint_add-Valid room)
call-Valid floats room ArithmeticNative.mint_sub xs h = binary-Valid _ xs h (mint_sub-Valid room)
call-Valid floats room ArithmeticNative.mint_mul xs h = binary-Valid _ xs h (mint_mul-Valid room)
call-Valid floats room ArithmeticNative.mint_mod xs h = binary-Valid _ xs h (mint_mod-Valid room)
call-Valid floats room ArithmeticNative.mint_div xs h =
    binary-Valid _ xs h (λ x y h h'. mint_div-Valid floats room x y)
call-Valid floats room ArithmeticNative.mint_trunc_div xs h =
    binary-Valid _ xs h (mint_trunc_div-Valid room)
call-Valid floats room ArithmeticNative.mint_bit_not xs h =
    unary-Valid _ xs h (mint_bit_not-Valid room)
call-Valid floats room ArithmeticNative.mint_bit_and xs h =
    binary-Valid _ xs h (mint_bit_and-Valid room)
call-Valid floats room ArithmeticNative.mint_bit_or xs h =
    binary-Valid _ xs h (mint_bit_or-Valid room)
call-Valid floats room ArithmeticNative.mint_bit_xor xs h =
    binary-Valid _ xs h (mint_bit_xor-Valid room)
call-Valid floats room ArithmeticNative.mint_bit_shr xs h =
    binary-Valid _ xs h (mint_bit_shr-Valid room)
call-Valid floats room ArithmeticNative.mint_bit_shl xs h =
    binary-Valid _ xs h (mint_bit_shl-Valid room)
call-Valid floats room ArithmeticNative.mint_equal xs h = binary-Valid _ xs h mint_equal-Valid
call-Valid floats room ArithmeticNative.mint_less xs h = binary-Valid _ xs h mint_less-Valid
call-Valid floats room ArithmeticNative.mint_less_equal xs h =
    binary-Valid _ xs h mint_less_equal-Valid
call-Valid floats room ArithmeticNative.mint_greater xs h = binary-Valid _ xs h mint_greater-Valid
call-Valid floats room ArithmeticNative.mint_greater_equal xs h =
    binary-Valid _ xs h mint_greater_equal-Valid
call-Valid floats room ArithmeticNative.double_negate xs h =
    unary-Valid _ xs h (λ x h. double_negate-Valid floats room x)
call-Valid floats room ArithmeticNative.double_add xs h =
    binary-Valid _ xs h (λ x y h h'. double_add-Valid floats room x y)
call-Valid floats room ArithmeticNative.double_sub xs h =
    binary-Valid _ xs h (λ x y h h'. double_sub-Valid floats room x y)
call-Valid floats room ArithmeticNative.double_mul xs h =
    binary-Valid _ xs h (λ x y h h'. double_mul-Valid floats room x y)
call-Valid floats room ArithmeticNative.double_mod xs h =
    binary-Valid _ xs h (λ x y h h'. double_mod-Valid floats room x y)
call-Valid floats room ArithmeticNative.double_div xs h =
    binary-Valid _ xs h (λ x y h h'. double_div-Valid floats room x y)
call-Valid floats room ArithmeticNative.double_trunc_div xs h =
    binary-Valid _ xs h (λ x y h h'. double_trunc_div-Valid floats room x y)
call-Valid floats room ArithmeticNative.double_equal xs h =
    binary-Valid _ xs h (λ x y h h'. double_equal-Valid floats x y)
call-Valid floats room ArithmeticNative.double_less xs h =
    binary-Valid _ xs h (λ x y h h'. double_less-Valid floats x y)
call-Valid floats room ArithmeticNative.double_less_equal xs h =
    binary-Valid _ xs h (λ x y h h'. double_less_equal-Valid floats x y)
call-Valid floats room ArithmeticNative.double_greater xs h =
    binary-Valid _ xs h (λ x y h h'. double_greater-Valid floats x y)
call-Valid floats room ArithmeticNative.double_greater_equal xs h =
    binary-Valid _ xs h (λ x y h h'. double_greater_equal-Valid floats x y)
call-Valid floats room ArithmeticNative.double_is_nan xs h =
    unary-Valid _ xs h (λ x h. double_is_nan-Valid floats x)
call-Valid floats room ArithmeticNative.double_is_negative xs h =
    unary-Valid _ xs h (λ x h. double_is_negative-Valid floats x)
call-Valid floats room ArithmeticNative.double_ceil xs h =
    unary-Valid _ xs h (λ x h. double_ceil-Valid floats room x)
call-Valid floats room ArithmeticNative.double_ceil_to_double xs h =
    unary-Valid _ xs h (λ x h. double_ceil_to_double-Valid floats room x)
call-Valid floats room ArithmeticNative.double_round xs h =
    unary-Valid _ xs h (λ x h. double_round-Valid floats room x)
call-Valid floats room ArithmeticNative.double_round_to_double xs h =
    unary-Valid _ xs h (λ x h. double_round_to_double-Valid floats room x)
call-Valid floats room ArithmeticNative.double_floor xs h =
    unary-Valid _ xs h (λ x h. double_floor-Valid floats room x)
call-Valid floats room ArithmeticNative.double_floor_to_double xs h =
    unary-Valid _ xs h (λ x h. double_floor_to_double-Valid floats room x)
call-Valid floats room ArithmeticNative.double_truncate xs h =
    unary-Valid _ xs h (λ x h. double_truncate-Valid floats room x)
call-Valid floats room ArithmeticNative.double_truncate_to_double xs h =
    unary-Valid _ xs h (λ x h. double_truncate_to_double-Valid floats room x)
call-Valid floats room ArithmeticNative.double_remainder xs h =
    binary-Valid _ xs h (λ x y h h'. double_remainder-Valid floats room x y)
call-Valid floats room ArithmeticNative.double_to_int xs h =
    unary-Valid _ xs h (λ x h. double_to_int-Valid floats room x)
call-Valid floats room ArithmeticNative.double_sin xs h =
    unary-Valid _ xs h (λ x h. double_sin-Valid floats room x)
call-Valid floats room ArithmeticNative.double_cos xs h =
    unary-Valid _ xs h (λ x h. double_cos-Valid floats room x)
call-Valid floats room ArithmeticNative.double_tan xs h =
    unary-Valid _ xs h (λ x h. double_tan-Valid floats room x)
call-Valid floats room ArithmeticNative.double_acos xs h =
    unary-Valid _ xs h (λ x h. double_acos-Valid floats room x)
call-Valid floats room ArithmeticNative.double_asin xs h =
    unary-Valid _ xs h (λ x h. double_asin-Valid floats room x)
call-Valid floats room ArithmeticNative.double_atan xs h =
    unary-Valid _ xs h (λ x h. double_atan-Valid floats room x)
call-Valid floats room ArithmeticNative.double_sqrt xs h =
    unary-Valid _ xs h (λ x h. double_sqrt-Valid floats room x)
call-Valid floats room ArithmeticNative.double_exp xs h =
    unary-Valid _ xs h (λ x h. double_exp-Valid floats room x)
call-Valid floats room ArithmeticNative.double_log xs h =
    unary-Valid _ xs h (λ x h. double_log-Valid floats room x)
call-Valid floats room ArithmeticNative.double_atan2 xs h =
    binary-Valid _ xs h (λ x y h h'. double_atan2-Valid floats room x y)
call-Valid floats room ArithmeticNative.double_pow xs h =
    binary-Valid _ xs h (λ x y h h'. double_pow-Valid floats room x y)
