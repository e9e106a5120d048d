-- ===== src/Natives/Smi.antt =====
-- src/vm/natives.cc: the natives of small integers.
pub mod Sums
pub mod Products
pub mod Shifts
pub mod Bitwise
pub mod Valid
pub mod Total
use dartino_sdk.Base.{
  ℕ, ◌+◌, ◌-◌, ◌*◌, ◌/◌, ◌%◌, ◌^◌, Bool, true, false, not, ◌&&◌, ◌||◌, Option, none, some, ltb, leb,
  ◌==◌, if◌then◌else◌,
}
use Prim.Native.Nat.{bit_and, bit_or, bit_xor}
use dartino_sdk.Int.{
  differ, ℤ, pos, negsuc, is_negative, abs, signed, ◌+ℤ◌, ◌-ℤ◌, ◌*ℤ◌, to_word, of_word, wrap,
  shift_right, ltb_ℤ, leb_ℤ, eqb_ℤ,
}
use dartino_sdk.Natives.{Object, Failure, Result, is_valid, as_smi, need_smi, to_bool, new_integer}
use dartino_sdk.Natives.Bits.{signed_add_overflow, signed_sub_overflow, signed_mul_overflow}

-- The word of a Smi, `value << 1`, and the Smi of a word.
abbrev pub tagged : ℤ → ℤ
tagged v = v *ℤ pos 2

abbrev pub from_tagged : ℤ → Result
from_tagged w = Result.value (Object.smi (shift_right w 1))

-- Smi::FromWord, with its ASSERT.
abbrev pub from_word : ℤ → Option Result
from_word v = if is_valid v then some (Result.value (Object.smi v)) else none

-- C++ division and remainder, for `y` other than 0: the quotient rounds towards 0.
abbrev pub trunc_div : ℤ → ℤ → ℤ
trunc_div x y = signed (differ (is_negative x) (is_negative y)) (abs x / abs y)

abbrev pub trunc_mod : ℤ → ℤ → ℤ
trunc_mod x y = signed (is_negative x) (abs x % abs y)

-- `result = x % y; if (result < 0) result += (y > 0) ? y : -y;`.
pub modulo : ℤ → ℤ → ℤ
modulo x y = let r = trunc_mod x y in if is_negative r then r +ℤ pos (abs y) else r

pub smi_to_mint : Bool → Object → Option Result
smi_to_mint room x = as_smi x λ x. some (new_integer room x)

pub smi_negate : Object → Option Result
smi_negate x = as_smi x λ x.
    if eqb_ℤ x (negsuc (2 ^ 62 - 1))
    then some (Result.failure Failure.index_out_of_bounds)
    else from_word (pos 0 -ℤ x)

pub smi_add : Object → Object → Option Result
smi_add x y = as_smi x λ x. need_smi y λ y.
    let (overflow, result) = signed_add_overflow (tagged x) (tagged y) in
    some (if overflow then Result.failure Failure.wrong_argument_type else from_tagged result)

pub smi_sub : Object → Object → Option Result
smi_sub x y = as_smi x λ x. need_smi y λ y.
    let (overflow, result) = signed_sub_overflow (tagged x) (tagged y) in
    some (if overflow then Result.failure Failure.wrong_argument_type else from_tagged result)

-- Only `x` is tagged.
pub smi_mul : Object → Object → Option Result
smi_mul x y = as_smi x λ x. need_smi y λ y.
    let (overflow, result) = signed_mul_overflow (tagged x) y in
    some (if overflow then Result.failure Failure.wrong_argument_type else from_tagged result)

pub smi_mod : Object → Object → Option Result
smi_mod x y = as_smi x λ x. need_smi y λ y.
    if eqb_ℤ y (pos 0)
    then some (Result.failure Failure.index_out_of_bounds)
    else from_word (modulo x y)

pub smi_trunc_div : Object → Object → Option Result
smi_trunc_div x y = as_smi x λ x. need_smi y λ y.
    if eqb_ℤ y (pos 0)
    then some (Result.failure Failure.index_out_of_bounds)
    else if not (is_valid (trunc_div x y))
    then some (Result.failure Failure.wrong_argument_type)
    else from_word (trunc_div x y)

-- `~v` is -v - 1.
abbrev pub bit_not : ℤ → ℤ
bit_not (pos n) = negsuc n
bit_not (negsuc n) = pos n

pub smi_bit_not : Object → Option Result
smi_bit_not x = as_smi x λ x. from_word (bit_not x)

pub smi_bit_and : Object → Object → Option Result
smi_bit_and x y =
    as_smi x λ x. need_smi y λ y. from_word (of_word (bit_and (to_word x) (to_word y)))

pub smi_bit_or : Object → Object → Option Result
smi_bit_or x y = as_smi x λ x. need_smi y λ y. from_word (of_word (bit_or (to_word x) (to_word y)))

pub smi_bit_xor : Object → Object → Option Result
smi_bit_xor x y =
    as_smi x λ x. need_smi y λ y. from_word (of_word (bit_xor (to_word x) (to_word y)))

pub smi_bit_shr : Object → Object → Option Result
smi_bit_shr x y = as_smi x λ x.
    need_smi y λ y. elim y [
      | pos n ↦ from_word (shift_right x (if leb 64 n then 63 else n))
      | negsuc n ↦ none
    ]

pub smi_bit_shl : Object → Object → Option Result
smi_bit_shl x y = as_smi x λ x. need_smi y λ y. elim y [
  | pos n ↦
      let result = wrap (x *ℤ pos (2 ^ n)) in
      if leb 64 n
      then some (Result.failure Failure.wrong_argument_type)
      else if not (is_valid result) || not (eqb_ℤ (shift_right result n) x)
      then some (Result.failure Failure.wrong_argument_type)
      else from_word result
  | negsuc n ↦ none
]

-- Two Smis are one object just if their values are one.
pub smi_equal : Object → Object → Option Result
smi_equal x y = as_smi x λ x. need_smi y λ y. some (to_bool (eqb_ℤ x y))

pub smi_less : Object → Object → Option Result
smi_less x y = as_smi x λ x. need_smi y λ y. some (to_bool (ltb_ℤ x y))

pub smi_less_equal : Object → Object → Option Result
smi_less_equal x y = as_smi x λ x. need_smi y λ y. some (to_bool (leb_ℤ x y))

pub smi_greater : Object → Object → Option Result
smi_greater x y = as_smi x λ x. need_smi y λ y. some (to_bool (ltb_ℤ y x))

pub smi_greater_equal : Object → Object → Option Result
smi_greater_equal x y = as_smi x λ x. need_smi y λ y. some (to_bool (leb_ℤ y x))
