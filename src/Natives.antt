-- ===== src/Natives.antt =====
-- src/vm/natives.cc, with the arithmetic of src/shared/utils.h: the values that natives take and
-- return, on a machine with words of 64 bits. A heap object stands for its contents; a double is its
-- bit pattern. `none` is the ASSERT of a cast that fails, or a shift by a negative count, which C++
-- leaves undefined. Signed overflow wraps.
pub mod Bits
pub mod Smi
pub mod Mint
pub mod Doubles
pub mod Strings
pub mod Lists
pub mod Names
pub mod Ranges
pub mod Total
pub mod Table
mod Tests
use dartino_sdk.Base.{
  ℕ, ◌+◌, ◌-◌, ◌*◌, ◌/◌, ◌%◌, ◌^◌, ◌≡◌, Bool, true, false, not, ◌&&◌, ◌||◌, Option, none, some,
  List, ltb, leb, ◌==◌, if◌then◌else◌,
}
use dartino_sdk.Int.{ℤ, pos, negsuc}

pub data Object : Type 0 where
  smi : ℤ → Object
  large_integer : ℤ → Object
  double : ℕ → Object
  one_byte_string : List ℕ → Object
  two_byte_string : List ℕ → Object
  true_object false_object null_object : Object

pub data Failure : Type 0 where
  retry_after_gc wrong_argument_type index_out_of_bounds illegal_state : Failure

pub data Result : Type 0 where
  value : Object → Result
  failure : Failure → Result

-- Smi::kMinValue and kMaxValue are -2^62 and 2^62 - 1.
abbrev pub is_valid : ℤ → Bool
is_valid (pos n) = ltb n (2 ^ 62)
is_valid (negsuc n) = ltb n (2 ^ 62)

-- `room` tells whether the allocation finds memory.
abbrev pub new_integer : Bool → ℤ → Result
new_integer room v =
    if room then Result.value (Object.large_integer v) else Result.failure Failure.retry_after_gc

abbrev pub to_integer : Bool → ℤ → Result
to_integer room v = if is_valid v then Result.value (Object.smi v) else new_integer room v

abbrev pub to_bool : Bool → Result
to_bool b = Result.value (if b then Object.true_object else Object.false_object)

-- `Smi::cast(arguments[0])` and LargeInteger::cast.
abbrev pub as_smi {ℓ} : {A : Type ℓ} → Object → (ℤ → Option A) → Option A
as_smi (Object.smi x) f = f x
as_smi _ f = none

abbrev pub as_large_integer {ℓ} : {A : Type ℓ} → Object → (ℤ → Option A) → Option A
as_large_integer (Object.large_integer x) f = f x
as_large_integer _ f = none

-- `if (!y->IsSmi()) return Failure::wrong_argument_type();` and the cast behind it.
abbrev pub need_smi : Object → (ℤ → Option Result) → Option Result
need_smi (Object.smi y) f = f y
need_smi _ f = some (Result.failure Failure.wrong_argument_type)

abbrev pub need_large_integer : Object → (ℤ → Option Result) → Option Result
need_large_integer (Object.large_integer y) f = f y
need_large_integer _ f = some (Result.failure Failure.wrong_argument_type)
