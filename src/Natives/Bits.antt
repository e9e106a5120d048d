-- ===== src/Natives/Bits.antt =====
-- The overflow tests and bit lengths of src/shared/utils.h.
pub mod Highest
pub mod Products
pub mod Digits
use dartino_sdk.Base.{
  ℕ, suc, ◌+◌, ◌-◌, ◌*◌, ◌/◌, ◌%◌, ◌^◌, ◌≤◌, ◌<◌, ◌≡◌, refl, sym, ap, ◌∙◌, Bool, true, false, not,
  ◌&&◌, ◌||◌, arith, ltb, leb, ◌==◌, if◌then◌else◌,
}
use dartino_sdk.Int.{
  differ, ℤ, pos, negsuc, is_negative, abs, pos_part, neg_part, sub_ℕ, ◌+ℤ◌, ◌-ℤ◌, ◌*ℤ◌, to_word,
  of_word, wrap, in_word, InWord,
}

-- `bit` is bit 63 of `(res ^ lhs) & (res ^ rhs)`.
pub signed_add_overflow : ℤ → ℤ → Bool × ℤ
signed_add_overflow lhs rhs =
    let res = of_word ((to_word lhs + to_word rhs) % 2 ^ 64) in
    (differ (is_negative res) (is_negative lhs) && differ (is_negative res) (is_negative rhs), res)

-- `bit` is bit 63 of `(res ^ lhs) & (res ^ ~rhs)`.
pub signed_sub_overflow : ℤ → ℤ → Bool × ℤ
signed_sub_overflow lhs rhs =
    let res = of_word ((to_word lhs + 2 ^ 64 - to_word rhs) % 2 ^ 64) in
    (
      differ (is_negative res) (is_negative lhs)
          && differ (is_negative res) (not (is_negative rhs)),
      res,
    )

-- `if ((t = x >> k) != 0) { x = t; r += k; }`.
abbrev pub highest_step : ℕ → ℕ × ℕ → ℕ × ℕ
highest_step k (x, r) = if x / 2 ^ k == 0 then (x, r) else (x / 2 ^ k, r + k)

-- The absolute value of the least word is 2^63, which the uint64 holds.
pub highest_bit : ℤ → ℕ
highest_bit v =
    let (x, r) =
      highest_step 2
        (highest_step 4 (highest_step 8 (highest_step 16 (highest_step 32 (abs v, 0))))) in
    if ltb 1 x then r + 1 else r

-- `value ^= value >> 63` flips the bits of a negative value.
pub bit_length : ℤ → ℕ
bit_length (pos n) = if n == 0 then 0 else highest_bit (pos n) + 1
bit_length (negsuc n) = if n == 0 then 0 else highest_bit (pos n) + 1

pub signed_64_bit_mul_might_overflow : ℤ → ℤ → Bool
signed_64_bit_mul_might_overflow lhs rhs = leb 62 (highest_bit lhs + highest_bit rhs)

-- The value is meant when the answer is false.
unfoldable pub signed_mul_overflow : ℤ → ℤ → Bool × ℤ
signed_mul_overflow lhs rhs = (signed_64_bit_mul_might_overflow lhs rhs, wrap (lhs *ℤ rhs))

pub add_overflow_lem :
    (x y : ℤ)
    → InWord x
    → InWord y
    → signed_add_overflow x y ≡ (not (in_word (x +ℤ y)), wrap (x +ℤ y))
unfolding signed_add_overflow ◌+ℤ◌
add_overflow_lem (pos x) (pos y) h k = ground arith
add_overflow_lem (pos x) (negsuc y) h k = ground arith
add_overflow_lem (negsuc x) (pos y) h k = ground arith
add_overflow_lem (negsuc x) (negsuc y) h k = ground arith

pub sub_overflow_lem :
    (x y : ℤ)
    → InWord x
    → InWord y
    → signed_sub_overflow x y ≡ (not (in_word (x -ℤ y)), wrap (x -ℤ y))
unfolding signed_sub_overflow ◌-ℤ◌
sub_overflow_lem (pos x) (pos y) h k = ground arith
sub_overflow_lem (pos x) (negsuc y) h k = ground arith
sub_overflow_lem (negsuc x) (pos y) h k = ground arith
sub_overflow_lem (negsuc x) (negsuc y) h k = ground arith
