-- ===== src/Natives/Table.antt =====
-- src/shared/natives.h: the table of the natives of numbers, and a call by it as in src/vm/interpreter.cc.
pub mod Calls
pub mod Total
use dartino_sdk.Base.{Bool, Option, none, List, [], ◌∷◌}
use dartino_sdk.Natives.{Object, Result}
use dartino_sdk.Natives.Smi.{
  smi_to_mint, smi_negate, smi_add, smi_sub, smi_mul, smi_mod, smi_trunc_div, smi_bit_not,
  smi_bit_and, smi_bit_or, smi_bit_xor, smi_bit_shr, smi_bit_shl, smi_equal, smi_less,
  smi_less_equal, smi_greater, smi_greater_equal,
}
use dartino_sdk.Natives.Mint.{
  mint_negate, mint_add, mint_sub, mint_mul, mint_mod, mint_trunc_div, mint_bit_not, mint_bit_and,
  mint_bit_or, mint_bit_xor, mint_bit_shr, mint_bit_shl, mint_equal, mint_less, mint_less_equal,
  mint_greater, mint_greater_equal,
}
use dartino_sdk.Natives.Doubles.{
  Floats, smi_to_double, smi_div, mint_to_double, mint_div, double_negate, double_add, double_sub,
  double_mul, double_mod, double_div, double_trunc_div, double_equal, double_less,
  double_less_equal, double_greater, double_greater_equal, double_is_nan, double_is_negative,
  double_ceil, double_ceil_to_double, double_round, double_round_to_double, double_floor,
  double_floor_to_double, double_truncate, double_truncate_to_double, double_remainder,
  double_to_int, double_sin, double_cos, double_tan, double_acos, double_asin, double_atan,
  double_sqrt, double_exp, double_log, double_atan2, double_pow,
}
use dartino_sdk.Natives.Names.{ArithmeticNative}

-- The first argument is the receiver; more than a native reads are left alone.
abbrev pub unary : (Object → Option Result) → List Object → Option Result
unary f (x ∷ _) = f x
unary f [] = none

abbrev pub binary : (Object → Object → Option Result) → List Object → Option Result
binary f (x ∷ y ∷ _) = f x y
binary f _ = none

pub call : Floats → Bool → ArithmeticNative → List Object → Option Result
call floats room ArithmeticNative.smi_to_double = unary (smi_to_double floats room)
call floats room ArithmeticNative.smi_to_mint = unary (smi_to_mint room)
call floats room ArithmeticNative.smi_negate = unary smi_negate
call floats room ArithmeticNative.smi_add = binary smi_add
call floats room ArithmeticNative.smi_sub = binary smi_sub
call floats room ArithmeticNative.smi_mul = binary smi_mul
call floats room ArithmeticNative.smi_mod = binary smi_mod
call floats room ArithmeticNative.smi_div = binary (smi_div floats room)
call floats room ArithmeticNative.smi_trunc_div = binary smi_trunc_div
call floats room ArithmeticNative.smi_bit_not = unary smi_bit_not
call floats room ArithmeticNative.smi_bit_and = binary smi_bit_and
call floats room ArithmeticNative.smi_bit_or = binary smi_bit_or
call floats room ArithmeticNative.smi_bit_xor = binary smi_bit_xor
call floats room ArithmeticNative.smi_bit_shr = binary smi_bit_shr
call floats room ArithmeticNative.smi_bit_shl = binary smi_bit_shl
call floats room ArithmeticNative.smi_equal = binary smi_equal
call floats room ArithmeticNative.smi_less = binary smi_less
call floats room ArithmeticNative.smi_less_equal = binary smi_less_equal
call floats room ArithmeticNative.smi_greater = binary smi_greater
call floats room ArithmeticNative.smi_greater_equal = binary smi_greater_equal
call floats room ArithmeticNative.mint_to_double = unary (mint_to_double floats room)
call floats room ArithmeticNative.mint_negate = unary (mint_negate room)
call floats room ArithmeticNative.mint_add = binary (mint_add room)
call floats room ArithmeticNative.mint_sub = binary (mint_sub room)
call floats room ArithmeticNative.mint_mul = binary (mint_mul room)
call floats room ArithmeticNative.mint_mod = binary (mint_mod room)
call floats room ArithmeticNative.mint_div = binary (mint_div floats room)
call floats room ArithmeticNative.mint_trunc_div = binary (mint_trunc_div room)
call floats room ArithmeticNative.mint_bit_not = unary (mint_bit_not room)
call floats room ArithmeticNative.mint_bit_and = binary (mint_bit_and room)
call floats room ArithmeticNative.mint_bit_or = binary (mint_bit_or room)
call floats room ArithmeticNative.mint_bit_xor = binary (mint_bit_xor room)
call floats room ArithmeticNative.mint_bit_shr = binary (mint_bit_shr room)
call floats room ArithmeticNative.mint_bit_shl = binary (mint_bit_shl room)
call floats room ArithmeticNative.mint_equal = binary mint_equal
call floats room ArithmeticNative.mint_less = binary mint_less
call floats room ArithmeticNative.mint_less_equal = binary mint_less_equal
call floats room ArithmeticNative.mint_greater = binary mint_greater
call floats room ArithmeticNative.mint_greater_equal = binary mint_greater_equal
call floats room ArithmeticNative.double_negate = unary (double_negate floats room)
call floats room ArithmeticNative.double_add = binary (double_add floats room)
call floats room ArithmeticNative.double_sub = binary (double_sub floats room)
call floats room ArithmeticNative.double_mul = binary (double_mul floats room)
call floats room ArithmeticNative.double_mod = binary (double_mod floats room)
call floats room ArithmeticNative.double_div = binary (double_div floats room)
call floats room ArithmeticNative.double_trunc_div = binary (double_trunc_div floats room)
call floats room ArithmeticNative.double_equal = binary (double_equal floats)
call floats room ArithmeticNative.double_less = binary (double_less floats)
call floats room ArithmeticNative.double_less_equal = binary (double_less_equal floats)
call floats room ArithmeticNative.double_greater = binary (double_greater floats)
call floats room ArithmeticNative.double_greater_equal = binary (double_greater_equal floats)
call floats room ArithmeticNative.double_is_nan = unary (double_is_nan floats)
call floats room ArithmeticNative.double_is_negative = unary (double_is_negative floats)
call floats room ArithmeticNative.double_ceil = unary (double_ceil floats room)
call floats room ArithmeticNative.double_ceil_to_double = unary (double_ceil_to_double floats room)
call floats room ArithmeticNative.double_round = unary (double_round floats room)
call floats room ArithmeticNative.double_round_to_double =
    unary (double_round_to_double floats room)
call floats room ArithmeticNative.double_floor = unary (double_floor floats room)
call floats room ArithmeticNative.double_floor_to_double =
    unary (double_floor_to_double floats room)
call floats room ArithmeticNative.double_truncate = unary (double_truncate floats room)
call floats room ArithmeticNative.double_truncate_to_double =
    unary (double_truncate_to_double floats room)
call floats room ArithmeticNative.double_remainder = binary (double_remainder floats room)
call floats room ArithmeticNative.double_to_int = unary (double_to_int floats room)
call floats room ArithmeticNative.double_sin = unary (double_sin floats room)
call floats room ArithmeticNative.double_cos = unary (double_cos floats room)
call floats room ArithmeticNative.double_tan = unary (double_tan floats room)
call floats room ArithmeticNative.double_acos = unary (double_acos floats room)
call floats room ArithmeticNative.double_asin = unary (double_asin floats room)
call floats room ArithmeticNative.double_atan = unary (double_atan floats room)
call floats room ArithmeticNative.double_sqrt = unary (double_sqrt floats room)
call floats room ArithmeticNative.double_exp = unary (double_exp floats room)
call floats room ArithmeticNative.double_log = unary (double_log floats room)
call floats room ArithmeticNative.double_atan2 = binary (double_atan2 floats room)
call floats room ArithmeticNative.double_pow = binary (double_pow floats room)
