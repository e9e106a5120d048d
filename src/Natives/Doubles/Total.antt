-- ===== src/Natives/Doubles/Total.antt =====
-- The natives that make doubles of integers, and those of doubles, answer on a receiver of their class,
-- but for those that cast a double to an integer.
use dartino_sdk.Base.{ℕ, ◌≡◌, refl, true, Bool, Option, arith}
use dartino_sdk.Natives.{Object, Result, Failure}
use dartino_sdk.Natives.Doubles.{
  Floats, as_double, need_double, double_math_native, smi_to_double, smi_div, mint_to_double,
  mint_div, double_negate, double_add, double_sub, double_mul, double_mod, double_div, double_equal,
  double_less, double_less_equal, double_greater, double_greater_equal, double_is_nan,
  double_is_negative, double_ceil_to_double, double_round_to_double, double_floor_to_double,
  double_truncate_to_double, double_remainder, double_sin, double_cos, double_tan, double_acos,
  double_asin, double_atan, double_sqrt, double_exp, double_log, double_atan2, double_pow,
}
use dartino_sdk.Natives.Total.{
  Answers, is_smi, is_large_integer, is_double, as_smi-Answers, need_smi-Answers,
  as_large_integer-Answers, need_large_integer-Answers,
}

as_double-Answers :
    (x : Object) (f : ℕ → Option Result)
    → is_double x ≡ true
    → ((v : ℕ) → Answers (f v))
    → Answers (as_double x f)
as_double-Answers (Object.double v) f h k = k v
as_double-Answers _ f h k = absurd (ground arith)

need_double-Answers :
    (y : Object) (f : ℕ → Option Result) → ((v : ℕ) → Answers (f v)) → Answers (need_double y f)
need_double-Answers (Object.double v) f k = k v
need_double-Answers _ f k = (Result.failure Failure.wrong_argument_type, refl)

module _ (floats : Floats) where
  math-Answers :
      (method : ℕ → ℕ) (room : Bool) (x : Object)
      → Answers (double_math_native floats method room x)
  math-Answers method room x = need_double-Answers x _ λ d. (_, refl)

  pub smi_to_double-Answers :
      (room : Bool) (x : Object) → is_smi x ≡ true → Answers (smi_to_double floats room x)
  unfolding smi_to_double
  smi_to_double-Answers room x h = as_smi-Answers x _ h λ x. (_, refl)

  pub smi_div-Answers :
      (room : Bool) (x y : Object) → is_smi x ≡ true → Answers (smi_div floats room x y)
  unfolding smi_div
  smi_div-Answers room x y h = as_smi-Answers x _ h λ x. need_smi-Answers y _ λ y. (_, refl)

  pub mint_to_double-Answers :
      (room : Bool) (x : Object)
      → is_large_integer x ≡ true
      → Answers (mint_to_double floats room x)
  unfolding mint_to_double
  mint_to_double-Answers room x h = as_large_integer-Answers x _ h λ x. (_, refl)

  pub mint_div-Answers :
      (room : Bool) (x y : Object) → is_large_integer x ≡ true → Answers (mint_div floats room x y)
  unfolding mint_div
  mint_div-Answers room x y h =
      as_large_integer-Answers x _ h λ x. need_large_integer-Answers y _ λ y. (_, refl)

  pub double_negate-Answers :
      (room : Bool) (x : Object) → is_double x ≡ true → Answers (double_negate floats room x)
  unfolding double_negate
  double_negate-Answers room x h = as_double-Answers x _ h λ x. (_, refl)

  pub double_add-Answers :
      (room : Bool) (x y : Object) → is_double x ≡ true → Answers (double_add floats room x y)
  unfolding double_add
  double_add-Answers room x y h =
      as_double-Answers x _ h λ x. need_double-Answers y _ λ y. (_, refl)

  pub double_sub-Answers :
      (room : Bool) (x y : Object) → is_double x ≡ true → Answers (double_sub floats room x y)
  unfolding double_sub
  double_sub-Answers room x y h =
      as_double-Answers x _ h λ x. need_double-Answers y _ λ y. (_, refl)

  pub double_mul-Answers :
      (room : Bool) (x y : Object) → is_double x ≡ true → Answers (double_mul floats room x y)
  unfolding double_mul
  double_mul-Answers room x y h =
      as_double-Answers x _ h λ x. need_double-Answers y _ λ y. (_, refl)

  pub double_mod-Answers :
      (room : Bool) (x y : Object) → is_double x ≡ true → Answers (double_mod floats room x y)
  unfolding double_mod
  double_mod-Answers room x y h =
      as_double-Answers x _ h λ x. need_double-Answers y _ λ y. (_, refl)

  pub double_div-Answers :
      (room : Bool) (x y : Object) → is_double x ≡ true → Answers (double_div floats room x y)
  unfolding double_div
  double_div-Answers room x y h =
      as_double-Answers x _ h λ x. need_double-Answers y _ λ y. (_, refl)

  pub double_equal-Answers : (x y : Object) → is_double x ≡ true → Answers (double_equal floats x y)
  unfolding double_equal
  double_equal-Answers x y h = as_double-Answers x _ h λ x. need_double-Answers y _ λ y. (_, refl)

  pub double_less-Answers : (x y : Object) → is_double x ≡ true → Answers (double_less floats x y)
  unfolding double_less
  double_less-Answers x y h = as_double-Answers x _ h λ x. need_double-Answers y _ λ y. (_, refl)

  pub double_less_equal-Answers :
      (x y : Object) → is_double x ≡ true → Answers (double_less_equal floats x y)
  unfolding double_less_equal
  double_less_equal-Answers x y h =
      as_double-Answers x _ h λ x. need_double-Answers y _ λ y. (_, refl)

  pub double_greater-Answers :
      (x y : Object) → is_double x ≡ true → Answers (double_greater floats x y)
  unfolding double_greater
  double_greater-Answers x y h = as_double-Answers x _ h λ x. need_double-Answers y _ λ y. (_, refl)

  pub double_greater_equal-Answers :
      (x y : Object) → is_double x ≡ true → Answers (double_greater_equal floats x y)
  unfolding double_greater_equal
  double_greater_equal-Answers x y h =
      as_double-Answers x _ h λ x. need_double-Answers y _ λ y. (_, refl)

  pub double_is_nan-Answers : (x : Object) → is_double x ≡ true → Answers (double_is_nan floats x)
  unfolding double_is_nan
  double_is_nan-Answers x h = as_double-Answers x _ h λ d. (_, refl)

  pub double_is_negative-Answers :
      (x : Object) → is_double x ≡ true → Answers (double_is_negative floats x)
  unfolding double_is_negative
  double_is_negative-Answers x h = as_double-Answers x _ h λ d. (_, refl)

  pub double_ceil_to_double-Answers :
      (room : Bool) (x : Object)
      → is_double x ≡ true
      → Answers (double_ceil_to_double floats room x)
  unfolding double_ceil_to_double
  double_ceil_to_double-Answers room x h = as_double-Answers x _ h λ x. (_, refl)

  pub double_round_to_double-Answers :
      (room : Bool) (x : Object)
      → is_double x ≡ true
      → Answers (double_round_to_double floats room x)
  unfolding double_round_to_double
  double_round_to_double-Answers room x h = as_double-Answers x _ h λ x. (_, refl)

  pub double_floor_to_double-Answers :
      (room : Bool) (x : Object)
      → is_double x ≡ true
      → Answers (double_floor_to_double floats room x)
  unfolding double_floor_to_double
  double_floor_to_double-Answers room x h = as_double-Answers x _ h λ x. (_, refl)

  pub double_truncate_to_double-Answers :
      (room : Bool) (x : Object)
      → is_double x ≡ true
      → Answers (double_truncate_to_double floats room x)
  unfolding double_truncate_to_double
  double_truncate_to_double-Answers room x h = as_double-Answers x _ h λ x. (_, refl)

  pub double_remainder-Answers :
      (room : Bool) (x y : Object) → is_double x ≡ true → Answers (double_remainder floats room x y)
  unfolding double_remainder
  double_remainder-Answers room x y h =
      need_double-Answers y _ λ y. as_double-Answers x _ h λ x. (_, refl)

  pub double_sin-Answers : (room : Bool) (x : Object) → Answers (double_sin floats room x)
  unfolding double_sin
  double_sin-Answers room x = math-Answers floats.sin room x

  pub double_cos-Answers : (room : Bool) (x : Object) → Answers (double_cos floats room x)
  unfolding double_cos
  double_cos-Answers room x = math-Answers floats.cos room x

  pub double_tan-Answers : (room : Bool) (x : Object) → Answers (double_tan floats room x)
  unfolding double_tan
  double_tan-Answers room x = math-Answers floats.tan room x

  pub double_acos-Answers : (room : Bool) (x : Object) → Answers (double_acos floats room x)
  unfolding double_acos
  double_acos-Answers room x = math-Answers floats.acos room x

  pub double_asin-Answers : (room : Bool) (x : Object) → Answers (double_asin floats room x)
  unfolding double_asin
  double_asin-Answers room x = math-Answers floats.asin room x

  pub double_atan-Answers : (room : Bool) (x : Object) → Answers (double_atan floats room x)
  unfolding double_atan
  double_atan-Answers room x = math-Answers floats.atan room x

  pub double_sqrt-Answers : (room : Bool) (x : Object) → Answers (double_sqrt floats room x)
  unfolding double_sqrt
  double_sqrt-Answers room x = math-Answers floats.sqrt room x

  pub double_exp-Answers : (room : Bool) (x : Object) → Answers (double_exp floats room x)
  unfolding double_exp
  double_exp-Answers room x = math-Answers floats.exp room x

  pub double_log-Answers : (room : Bool) (x : Object) → Answers (double_log floats room x)
  unfolding double_log
  double_log-Answers room x = math-Answers floats.log room x

  pub double_atan2-Answers : (room : Bool) (x y : Object) → Answers (double_atan2 floats room x y)
  unfolding double_atan2
  double_atan2-Answers room x y =
      need_double-Answers x _ λ x. need_double-Answers y _ λ y. (_, refl)

  pub double_pow-Answers : (room : Bool) (x y : Object) → Answers (double_pow floats room x y)
  unfolding double_pow
  double_pow-Answers room x y = need_double-Answers x _ λ x. need_double-Answers y _ λ y. (_, refl)
