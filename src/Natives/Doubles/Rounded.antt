-- ===== src/Natives/Doubles/Rounded.antt =====
-- The ranges of what the roundings, the tests and the functions of doubles answer.
use dartino_sdk.Base.{Bool, not, ◌||◌, ◌&&◌}
use dartino_sdk.Natives.{Object, Failure, to_integer}
use dartino_sdk.Natives.Ranges.{ValidResult, to_bool-Valid, to_integer-Valid}
use dartino_sdk.Natives.Doubles.{
  Floats, not_finite, double_is_nan, double_is_negative, double_ceil, double_ceil_to_double,
  double_round, double_round_to_double, double_floor, double_floor_to_double, double_truncate,
  double_truncate_to_double, double_remainder, double_to_int, double_sin, double_cos, double_tan,
  double_acos, double_asin, double_atan, double_sqrt, double_exp, double_log, double_atan2,
  double_pow,
}
use dartino_sdk.Natives.Doubles.Answers.{
  new_double-Valid, as_double-Valid, need_double-Valid, tested-Valid, cast_int64-Valid, math-Valid,
}

module _ (floats : Floats) where
  pub double_is_nan-Valid : (x : Object) → ValidResult (double_is_nan floats x)
  unfolding double_is_nan
  double_is_nan-Valid x = as_double-Valid x _ λ d. to_bool-Valid (floats.isnan d)

  pub double_is_negative-Valid : (x : Object) → ValidResult (double_is_negative floats x)
  unfolding double_is_negative
  double_is_negative-Valid x =
      as_double-Valid x _ λ d. to_bool-Valid (floats.signbit d && not (floats.isnan d))

  pub double_ceil-Valid : (room : Bool) (x : Object) → ValidResult (double_ceil floats room x)
  unfolding double_ceil
  double_ceil-Valid room x = as_double-Valid x _ λ value.
      tested-Valid (not_finite floats value) Failure.index_out_of_bounds _
        (cast_int64-Valid floats (floats.ceil value) (to_integer room) (to_integer-Valid room))

  pub double_ceil_to_double-Valid :
      (room : Bool) (x : Object) → ValidResult (double_ceil_to_double floats room x)
  unfolding double_ceil_to_double
  double_ceil_to_double-Valid room x =
      as_double-Valid x _ λ x. new_double-Valid room (floats.ceil x)

  pub double_round-Valid : (room : Bool) (x : Object) → ValidResult (double_round floats room x)
  unfolding double_round
  double_round-Valid room x = as_double-Valid x _ λ value.
      tested-Valid (not_finite floats value) Failure.index_out_of_bounds _
        (cast_int64-Valid floats (floats.round value) (to_integer room) (to_integer-Valid room))

  pub double_round_to_double-Valid :
      (room : Bool) (x : Object) → ValidResult (double_round_to_double floats room x)
  unfolding double_round_to_double
  double_round_to_double-Valid room x =
      as_double-Valid x _ λ x. new_double-Valid room (floats.round x)

  pub double_floor-Valid : (room : Bool) (x : Object) → ValidResult (double_floor floats room x)
  unfolding double_floor
  double_floor-Valid room x = as_double-Valid x _ λ value.
      tested-Valid (not_finite floats value) Failure.index_out_of_bounds _
        (cast_int64-Valid floats (floats.floor value) (to_integer room) (to_integer-Valid room))

  pub double_floor_to_double-Valid :
      (room : Bool) (x : Object) → ValidResult (double_floor_to_double floats room x)
  unfolding double_floor_to_double
  double_floor_to_double-Valid room x =
      as_double-Valid x _ λ x. new_double-Valid room (floats.floor x)

  pub double_truncate-Valid :
      (room : Bool) (x : Object) → ValidResult (double_truncate floats room x)
  unfolding double_truncate
  double_truncate-Valid room x = as_double-Valid x _ λ value.
      tested-Valid (not_finite floats value) Failure.index_out_of_bounds _
        (cast_int64-Valid floats (floats.trunc value) (to_integer room) (to_integer-Valid room))

  pub double_truncate_to_double-Valid :
      (room : Bool) (x : Object) → ValidResult (double_truncate_to_double floats room x)
  unfolding double_truncate_to_double
  double_truncate_to_double-Valid room x =
      as_double-Valid x _ λ x. new_double-Valid room (floats.trunc x)

  pub double_remainder-Valid :
      (room : Bool) (x y : Object) → ValidResult (double_remainder floats room x y)
  unfolding double_remainder
  double_remainder-Valid room x y =
      need_double-Valid y _ λ y. as_double-Valid x _ λ x. new_double-Valid room (floats.fmod x y)

  pub double_to_int-Valid : (room : Bool) (x : Object) → ValidResult (double_to_int floats room x)
  unfolding double_to_int
  double_to_int-Valid room x = as_double-Valid x _ λ d.
      tested-Valid (floats.isinf d || floats.isnan d) Failure.index_out_of_bounds _
        (cast_int64-Valid floats (floats.trunc d) (to_integer room) (to_integer-Valid room))

  pub double_sin-Valid : (room : Bool) (x : Object) → ValidResult (double_sin floats room x)
  unfolding double_sin
  double_sin-Valid room x = math-Valid floats floats.sin room x

  pub double_cos-Valid : (room : Bool) (x : Object) → ValidResult (double_cos floats room x)
  unfolding double_cos
  double_cos-Valid room x = math-Valid floats floats.cos room x

  pub double_tan-Valid : (room : Bool) (x : Object) → ValidResult (double_tan floats room x)
  unfolding double_tan
  double_tan-Valid room x = math-Valid floats floats.tan room x

  pub double_acos-Valid : (room : Bool) (x : Object) → ValidResult (double_acos floats room x)
  unfolding double_acos
  double_acos-Valid room x = math-Valid floats floats.acos room x

  pub double_asin-Valid : (room : Bool) (x : Object) → ValidResult (double_asin floats room x)
  unfolding double_asin
  double_asin-Valid room x = math-Valid floats floats.asin room x

  pub double_atan-Valid : (room : Bool) (x : Object) → ValidResult (double_atan floats room x)
  unfolding double_atan
  double_atan-Valid room x = math-Valid floats floats.atan room x

  pub double_sqrt-Valid : (room : Bool) (x : Object) → ValidResult (double_sqrt floats room x)
  unfolding double_sqrt
  double_sqrt-Valid room x = math-Valid floats floats.sqrt room x

  pub double_exp-Valid : (room : Bool) (x : Object) → ValidResult (double_exp floats room x)
  unfolding double_exp
  double_exp-Valid room x = math-Valid floats floats.exp room x

  pub double_log-Valid : (room : Bool) (x : Object) → ValidResult (double_log floats room x)
  unfolding double_log
  double_log-Valid room x = math-Valid floats floats.log room x

  pub double_atan2-Valid : (room : Bool) (x y : Object) → ValidResult (double_atan2 floats room x y)
  unfolding double_atan2
  double_atan2-Valid room x y =
      need_double-Valid x _ λ x. need_double-Valid y _ λ y. new_double-Valid room (floats.atan2 x y)

  pub double_pow-Valid : (room : Bool) (x y : Object) → ValidResult (double_pow floats room x y)
  unfolding double_pow
  double_pow-Valid room x y =
      need_double-Valid x _ λ x. need_double-Valid y _ λ y. new_double-Valid room (floats.pow x y)
