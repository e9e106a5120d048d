-- ===== src/Natives/Doubles/Valid.antt =====
-- The ranges of what the arithmetic and the comparisons of doubles answer.
use dartino_sdk.Base.{Bool}
use dartino_sdk.Natives.{Object, Failure, new_integer}
use dartino_sdk.Natives.Ranges.{ValidResult, to_bool-Valid, new_integer-Valid}
use dartino_sdk.Natives.Doubles.{
  Floats, smi_to_double, smi_div, mint_to_double, mint_div, double_negate, double_add, double_sub,
  double_mul, double_mod, double_div, double_trunc_div, double_equal, double_less,
  double_less_equal, double_greater, double_greater_equal,
}
use dartino_sdk.Natives.Doubles.Answers.{
  new_double-Valid, as_double-Valid, need_double-Valid, as_smi-double, need_smi-double,
  as_large_integer-double, need_large_integer-double, tested-Valid, cast_int64-Valid,
}

module _ (floats : Floats) where
  pub smi_to_double-Valid : (room : Bool) (x : Object) → ValidResult (smi_to_double floats room x)
  unfolding smi_to_double
  smi_to_double-Valid room x = as_smi-double x _ λ x. new_double-Valid room (floats.of_int64 x)

  pub smi_div-Valid : (room : Bool) (x y : Object) → ValidResult (smi_div floats room x y)
  unfolding smi_div
  smi_div-Valid room x y = as_smi-double x _ λ x.
      need_smi-double y _
        λ y. new_double-Valid room (floats.div (floats.of_int64 x) (floats.of_int64 y))

  pub mint_to_double-Valid : (room : Bool) (x : Object) → ValidResult (mint_to_double floats room x)
  unfolding mint_to_double
  mint_to_double-Valid room x =
      as_large_integer-double x _ λ x. new_double-Valid room (floats.of_int64 x)

  pub mint_div-Valid : (room : Bool) (x y : Object) → ValidResult (mint_div floats room x y)
  unfolding mint_div
  mint_div-Valid room x y = as_large_integer-double x _ λ x.
      need_large_integer-double y _
        λ y. new_double-Valid room (floats.div (floats.of_int64 x) (floats.of_int64 y))

  pub double_negate-Valid : (room : Bool) (x : Object) → ValidResult (double_negate floats room x)
  unfolding double_negate
  double_negate-Valid room x = as_double-Valid x _ λ x. new_double-Valid room (floats.negate x)

  pub double_add-Valid : (room : Bool) (x y : Object) → ValidResult (double_add floats room x y)
  unfolding double_add
  double_add-Valid room x y =
      as_double-Valid x _ λ x. need_double-Valid y _ λ y. new_double-Valid room (floats.add x y)

  pub double_sub-Valid : (room : Bool) (x y : Object) → ValidResult (double_sub floats room x y)
  unfolding double_sub
  double_sub-Valid room x y =
      as_double-Valid x _ λ x. need_double-Valid y _ λ y. new_double-Valid room (floats.sub x y)

  pub double_mul-Valid : (room : Bool) (x y : Object) → ValidResult (double_mul floats room x y)
  unfolding double_mul
  double_mul-Valid room x y =
      as_double-Valid x _ λ x. need_double-Valid y _ λ y. new_double-Valid room (floats.mul x y)

  pub double_mod-Valid : (room : Bool) (x y : Object) → ValidResult (double_mod floats room x y)
  unfolding double_mod
  double_mod-Valid room x y =
      as_double-Valid x _ λ x. need_double-Valid y _ λ y. new_double-Valid room (floats.fmod x y)

  pub double_div-Valid : (room : Bool) (x y : Object) → ValidResult (double_div floats room x y)
  unfolding double_div
  double_div-Valid room x y =
      as_double-Valid x _ λ x. need_double-Valid y _ λ y. new_double-Valid room (floats.div x y)

  pub double_trunc_div-Valid :
      (room : Bool) (x y : Object) → ValidResult (double_trunc_div floats room x y)
  unfolding double_trunc_div
  double_trunc_div-Valid room x y = as_double-Valid x _ λ x. need_double-Valid y _ λ y.
      tested-Valid (floats.eq y floats.zero_double) Failure.index_out_of_bounds _
        (cast_int64-Valid floats (floats.div x y) (new_integer room) (new_integer-Valid room))

  pub double_equal-Valid : (x y : Object) → ValidResult (double_equal floats x y)
  unfolding double_equal
  double_equal-Valid x y =
      as_double-Valid x _ λ x. need_double-Valid y _ λ y. to_bool-Valid (floats.eq x y)

  pub double_less-Valid : (x y : Object) → ValidResult (double_less floats x y)
  unfolding double_less
  double_less-Valid x y =
      as_double-Valid x _ λ x. need_double-Valid y _ λ y. to_bool-Valid (floats.lt x y)

  pub double_less_equal-Valid : (x y : Object) → ValidResult (double_less_equal floats x y)
  unfolding double_less_equal
  double_less_equal-Valid x y =
      as_double-Valid x _ λ x. need_double-Valid y _ λ y. to_bool-Valid (floats.le x y)

  pub double_greater-Valid : (x y : Object) → ValidResult (double_greater floats x y)
  unfolding double_greater
  double_greater-Valid x y =
      as_double-Valid x _ λ x. need_double-Valid y _ λ y. to_bool-Valid (floats.lt y x)

  pub double_greater_equal-Valid : (x y : Object) → ValidResult (double_greater_equal floats x y)
  unfolding double_greater_equal
  double_greater_equal-Valid x y =
      as_double-Valid x _ λ x. need_double-Valid y _ λ y. to_bool-Valid (floats.le y x)
