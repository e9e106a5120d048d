-- ===== src/Natives/Doubles.antt =====
-- src/vm/natives.cc: the natives of doubles, and those of integers that answer with a double. The
-- arithmetic of doubles is the machine's and the C library's, and a parameter.
pub mod Answers
pub mod Valid
pub mod Rounded
pub mod Total
use dartino_sdk.Base.{ℕ, ◌≡◌, Bool, ◌&&◌, ◌||◌, not, Option, none, some, List, if◌then◌else◌}
use dartino_sdk.Int.{ℤ, InWord}
use dartino_sdk.Natives.{
  Object, Failure, Result, as_smi, need_smi, as_large_integer, need_large_integer, to_bool,
  new_integer, to_integer,
}

-- The operations on bit patterns; `to_int64` is `none` where the cast to int64 is undefined.
pub record Floats : Type 0 where
  pub of_int64 : ℤ → ℕ
  pub to_int64 : ℕ → Option ℤ
  pub negate : ℕ → ℕ
  pub ceil : ℕ → ℕ
  pub round : ℕ → ℕ
  pub floor : ℕ → ℕ
  pub trunc : ℕ → ℕ
  pub sin : ℕ → ℕ
  pub cos : ℕ → ℕ
  pub tan : ℕ → ℕ
  pub acos : ℕ → ℕ
  pub asin : ℕ → ℕ
  pub atan : ℕ → ℕ
  pub sqrt : ℕ → ℕ
  pub exp : ℕ → ℕ
  pub log : ℕ → ℕ
  pub add : ℕ → ℕ → ℕ
  pub sub : ℕ → ℕ → ℕ
  pub mul : ℕ → ℕ → ℕ
  pub div : ℕ → ℕ → ℕ
  pub fmod : ℕ → ℕ → ℕ
  pub atan2 : ℕ → ℕ → ℕ
  pub pow : ℕ → ℕ → ℕ
  pub eq : ℕ → ℕ → Bool
  pub lt : ℕ → ℕ → Bool
  pub le : ℕ → ℕ → Bool
  pub isnan : ℕ → Bool
  pub isinf : ℕ → Bool
  pub signbit : ℕ → Bool
  pub zero_double : ℕ
  pub to_int64_word : (d : ℕ) (z : ℤ) → to_int64 d ≡ some z → InWord z

abbrev pub new_double : Bool → ℕ → Result
new_double room d =
    if room then Result.value (Object.double d) else Result.failure Failure.retry_after_gc

abbrev pub as_double : Object → (ℕ → Option Result) → Option Result
as_double (Object.double x) f = f x
as_double _ f = none

abbrev pub need_double : Object → (ℕ → Option Result) → Option Result
need_double (Object.double y) f = f y
need_double _ f = some (Result.failure Failure.wrong_argument_type)

module _ (floats : Floats) where
  -- `static_cast<int64>(d)`, handed on.
  abbrev pub cast_int64 : ℕ → (ℤ → Result) → Option Result
  cast_int64 d f = elim (floats.to_int64 d) [ none ↦ none | some z ↦ some (f z) ]

  -- `isnan(value) || isinf(value)`.
  abbrev pub not_finite : ℕ → Bool
  not_finite d = floats.isnan d || floats.isinf d

  pub smi_to_double : Bool → Object → Option Result
  smi_to_double room x = as_smi x λ x. some (new_double room (floats.of_int64 x))

  pub smi_div : Bool → Object → Object → Option Result
  smi_div room x y = as_smi x λ x.
      need_smi y λ y. some (new_double room (floats.div (floats.of_int64 x) (floats.of_int64 y)))

  pub mint_to_double : Bool → Object → Option Result
  mint_to_double room x = as_large_integer x λ x. some (new_double room (floats.of_int64 x))

  pub mint_div : Bool → Object → Object → Option Result
  mint_div room x y = as_large_integer x λ x.
      need_large_integer y
        λ y. some (new_double room (floats.div (floats.of_int64 x) (floats.of_int64 y)))

  pub double_negate : Bool → Object → Option Result
  double_negate room x = as_double x λ x. some (new_double room (floats.negate x))

  pub double_add : Bool → Object → Object → Option Result
  double_add room x y = as_double x λ x. need_double y λ y. some (new_double room (floats.add x y))

  pub double_sub : Bool → Object → Object → Option Result
  double_sub room x y = as_double x λ x. need_double y λ y. some (new_double room (floats.sub x y))

  pub double_mul : Bool → Object → Object → Option Result
  double_mul room x y = as_double x λ x. need_double y λ y. some (new_double room (floats.mul x y))

  pub double_mod : Bool → Object → Object → Option Result
  double_mod room x y = as_double x λ x. need_double y λ y. some (new_double room (floats.fmod x y))

  pub double_div : Bool → Object → Object → Option Result
  double_div room x y = as_double x λ x. need_double y λ y. some (new_double room (floats.div x y))

  pub double_trunc_div : Bool → Object → Object → Option Result
  double_trunc_div room x y = as_double x λ x. need_double y λ y.
      if floats.eq y floats.zero_double
      then some (Result.failure Failure.index_out_of_bounds)
      else cast_int64 (floats.div x y) (new_integer room)

  pub double_equal : Object → Object → Option Result
  double_equal x y = as_double x λ x. need_double y λ y. some (to_bool (floats.eq x y))

  pub double_less : Object → Object → Option Result
  double_less x y = as_double x λ x. need_double y λ y. some (to_bool (floats.lt x y))

  pub double_less_equal : Object → Object → Option Result
  double_less_equal x y = as_double x λ x. need_double y λ y. some (to_bool (floats.le x y))

  pub double_greater : Object → Object → Option Result
  double_greater x y = as_double x λ x. need_double y λ y. some (to_bool (floats.lt y x))

  pub double_greater_equal : Object → Object → Option Result
  double_greater_equal x y = as_double x λ x. need_double y λ y. some (to_bool (floats.le y x))

  pub double_is_nan : Object → Option Result
  double_is_nan x = as_double x λ d. some (to_bool (floats.isnan d))

  pub double_is_negative : Object → Option Result
  double_is_negative x = as_double x λ d. some (to_bool (floats.signbit d && not (floats.isnan d)))

  pub double_ceil : Bool → Object → Option Result
  double_ceil room x = as_double x λ value.
      if not_finite value
      then some (Result.failure Failure.index_out_of_bounds)
      else cast_int64 (floats.ceil value) (to_integer room)

  pub double_ceil_to_double : Bool → Object → Option Result
  double_ceil_to_double room x = as_double x λ x. some (new_double room (floats.ceil x))

  pub double_round : Bool → Object → Option Result
  double_round room x = as_double x λ value.
      if not_finite value
      then some (Result.failure Failure.index_out_of_bounds)
      else cast_int64 (floats.round value) (to_integer room)

  pub double_round_to_double : Bool → Object → Option Result
  double_round_to_double room x = as_double x λ x. some (new_double room (floats.round x))

  pub double_floor : Bool → Object → Option Result
  double_floor room x = as_double x λ value.
      if not_finite value
      then some (Result.failure Failure.index_out_of_bounds)
      else cast_int64 (floats.floor value) (to_integer room)

  pub double_floor_to_double : Bool → Object → Option Result
  double_floor_to_double room x = as_double x λ x. some (new_double room (floats.floor x))

  pub double_truncate : Bool → Object → Option Result
  double_truncate room x = as_double x λ value.
      if not_finite value
      then some (Result.failure Failure.index_out_of_bounds)
      else cast_int64 (floats.trunc value) (to_integer room)

  pub double_truncate_to_double : Bool → Object → Option Result
  double_truncate_to_double room x = as_double x λ x. some (new_double room (floats.trunc x))

  -- The class of `y` is looked at before that of `x`.
  pub double_remainder : Bool → Object → Object → Option Result
  double_remainder room x y =
      need_double y λ y. as_double x λ x. some (new_double room (floats.fmod x y))

  pub double_to_int : Bool → Object → Option Result
  double_to_int room x = as_double x λ d.
      if floats.isinf d || floats.isnan d
      then some (Result.failure Failure.index_out_of_bounds)
      else cast_int64 (floats.trunc d) (to_integer room)

  -- DOUBLE_MATH_NATIVE.
  abbrev pub double_math_native : (ℕ → ℕ) → Bool → Object → Option Result
  double_math_native method room x = need_double x λ d. some (new_double room (method d))

  pub double_sin : Bool → Object → Option Result
  double_sin room x = double_math_native floats.sin room x

  pub double_cos : Bool → Object → Option Result
  double_cos room x = double_math_native floats.cos room x

  pub double_tan : Bool → Object → Option Result
  double_tan room x = double_math_native floats.tan room x

  pub double_acos : Bool → Object → Option Result
  double_acos room x = double_math_native floats.acos room x

  pub double_asin : Bool → Object → Option Result
  double_asin room x = double_math_native floats.asin room x

  pub double_atan : Bool → Object → Option Result
  double_atan room x = double_math_native floats.atan room x

  pub double_sqrt : Bool → Object → Option Result
  double_sqrt room x = double_math_native floats.sqrt room x

  pub double_exp : Bool → Object → Option Result
  double_exp room x = double_math_native floats.exp room x

  pub double_log : Bool → Object → Option Result
  double_log room x = double_math_native floats.log room x

  pub double_atan2 : Bool → Object → Object → Option Result
  double_atan2 room x y =
      need_double x λ x. need_double y λ y. some (new_double room (floats.atan2 x y))

  pub double_pow : Bool → Object → Object → Option Result
  double_pow room x y =
      need_double x λ x. need_double y λ y. some (new_double room (floats.pow x y))
