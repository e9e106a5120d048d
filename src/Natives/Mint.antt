-- ===== src/Natives/Mint.antt =====
-- src/vm/natives.cc: the natives of large integers, which hold any word.
pub mod Sums
pub mod Products
pub mod Words
pub mod Valid
pub mod Total
use dartino_sdk.Base.{
  ℕ, ◌+◌, ◌-◌, ◌*◌, ◌/◌, ◌%◌, ◌^◌, Bool, true, false, not, ◌&&◌, ◌||◌, Option, none, some, ltb, leb,
  ◌==◌, if◌then◌else◌,
}
use Prim.Native.Nat.{bit_and, bit_or, bit_xor}
use dartino_sdk.Int.{
  differ, ℤ, pos, negsuc, is_negative, ◌+ℤ◌, ◌-ℤ◌, ◌*ℤ◌, to_word, of_word, wrap, shift_right, ltb_ℤ,
  leb_ℤ, eqb_ℤ,
}
use dartino_sdk.Natives.{
  Object, Failure, Result, as_large_integer, need_large_integer, to_bool, new_integer, to_integer,
}
use dartino_sdk.Natives.Bits.{bit_length, signed_64_bit_mul_might_overflow}
use dartino_sdk.Natives.Smi.{trunc_div, modulo, bit_not}

-- INT64_MIN.
abbrev pub int64_min : ℤ
int64_min = negsuc (2 ^ 63 - 1)

pub mint_negate : Bool → Object → Option Result
mint_negate room x = as_large_integer x λ x. some (
    if eqb_ℤ x int64_min
    then Result.failure Failure.index_out_of_bounds
    else new_integer room (pos 0 -ℤ x))

pub mint_add : Bool → Object → Object → Option Result
mint_add room x y = as_large_integer x λ x. need_large_integer y λ y.
    let result = wrap (x +ℤ y) in
    some (
      if differ (is_negative x) (is_negative y) || not (differ (is_negative result) (is_negative x))
      then to_integer room result
      else Result.failure Failure.index_out_of_bounds)

pub mint_sub : Bool → Object → Object → Option Result
mint_sub room x y = as_large_integer x λ x. need_large_integer y λ y.
    let result = wrap (x -ℤ y) in
    some (
      if not (differ (is_negative x) (is_negative y))
        || not (differ (is_negative result) (is_negative x))
      then to_integer room result
      else Result.failure Failure.index_out_of_bounds)

pub mint_mul : Bool → Object → Object → Option Result
mint_mul room x y = as_large_integer x λ x. need_large_integer y λ y. some (
    if signed_64_bit_mul_might_overflow x y
    then Result.failure Failure.index_out_of_bounds
    else to_integer room (wrap (x *ℤ y)))

pub mint_mod : Bool → Object → Object → Option Result
mint_mod room x y = as_large_integer x λ x. need_large_integer y λ y. some (
    if eqb_ℤ y (pos 0)
    then Result.failure Failure.illegal_state
    else if not (eqb_ℤ x int64_min) || not (eqb_ℤ y (negsuc 0))
    then to_integer room (modulo x y)
    else Result.failure Failure.index_out_of_bounds)

pub mint_trunc_div : Bool → Object → Object → Option Result
mint_trunc_div room x y = as_large_integer x λ x. need_large_integer y λ y. some (
    if eqb_ℤ y (pos 0)
    then Result.failure Failure.illegal_state
    else if not (eqb_ℤ x int64_min) || not (eqb_ℤ y (negsuc 0))
    then to_integer room (trunc_div x y)
    else Result.failure Failure.index_out_of_bounds)

pub mint_bit_not : Bool → Object → Option Result
mint_bit_not room x = as_large_integer x λ x. some (new_integer room (bit_not x))

pub mint_bit_and : Bool → Object → Object → Option Result
mint_bit_and room x y = as_large_integer x λ x.
    need_large_integer y λ y. some (to_integer room (of_word (bit_and (to_word x) (to_word y))))

pub mint_bit_or : Bool → Object → Object → Option Result
mint_bit_or room x y =
    as_large_integer x λ x.
      need_large_integer y λ y. some (to_integer room (of_word (bit_or (to_word x) (to_word y))))

pub mint_bit_xor : Bool → Object → Object → Option Result
mint_bit_xor room x y = as_large_integer x λ x.
    need_large_integer y λ y. some (to_integer room (of_word (bit_xor (to_word x) (to_word y))))

pub mint_bit_shr : Bool → Object → Object → Option Result
mint_bit_shr room x y = as_large_integer x λ x. need_large_integer y λ y. elim y [
  | pos n ↦ some (
      to_integer room
        (if leb 64 n then (if is_negative x then negsuc 0 else pos 0) else shift_right x n))
  | negsuc n ↦ none
]

-- A negative count passes the test, and so does one whose sum with the bit length wraps to a negative one.
pub mint_bit_shl : Bool → Object → Object → Option Result
mint_bit_shl room x y = as_large_integer x λ x. need_large_integer y λ y. elim y [
  | pos n ↦
      if leb (2 ^ 63) (bit_length x + n)
      then none
      else some (
          if leb 64 (bit_length x + n)
          then Result.failure Failure.index_out_of_bounds
          else to_integer room (wrap (x *ℤ pos (2 ^ n))))
  | negsuc n ↦ none
]

pub mint_equal : Object → Object → Option Result
mint_equal x y = as_large_integer x λ x. need_large_integer y λ y. some (to_bool (eqb_ℤ x y))

pub mint_less : Object → Object → Option Result
mint_less x y = as_large_integer x λ x. need_large_integer y λ y. some (to_bool (ltb_ℤ x y))

pub mint_less_equal : Object → Object → Option Result
mint_less_equal x y = as_large_integer x λ x. need_large_integer y λ y. some (to_bool (leb_ℤ x y))

pub mint_greater : Object → Object → Option Result
mint_greater x y = as_large_integer x λ x. need_large_integer y λ y. some (to_bool (ltb_ℤ y x))

pub mint_greater_equal : Object → Object → Option Result
mint_greater_equal x y =
    as_large_integer x λ x. need_large_integer y λ y. some (to_bool (leb_ℤ y x))
