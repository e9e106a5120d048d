-- ===== src/Natives/Bits/Digits.antt =====
-- The binary operations of the native numbers, digit by digit.
use dartino_sdk.Base.{
  ℕ, zero, suc, ◌+◌, ◌*◌, ◌/◌, ◌%◌, ◌^◌, ◌≤◌, ◌<◌, ◌≡◌, refl, sym, ap, ap₂, ◌∙◌, arith, min, max,
}
use Prim.Native.Nat.{
  digits, differ, bit_and, bit_or, bit_xor, bit_and-bitwise, bit_or-bitwise, bit_xor-bitwise,
}
use native.Mathlib.Nat.{div-div-eq-div-mul}

div-pow_suc : (n k : ℕ) → n / 2 ^ suc k ≡ n / 2 / 2 ^ k
div-pow_suc n k =
    ap (λ d. n / d) {x = 2 ^ suc k} {y = 2 * 2 ^ k} (omega arith)
    ∙ sym (div-div-eq-div-mul n 2 (2 ^ k))

one : (n : ℕ) → n / 2 ^ 0 ≡ n
one n = omega arith

module _ (z : ℕ → ℕ) (f : ℕ → ℕ → ℕ) where
  -- More digits to go change nothing.
  digits_enough : (m n a b : ℕ) → a ≤ m → a ≤ n → digits z f m a b ≡ digits z f n a b
  digits_enough zero zero zero b h k = refl
  digits_enough zero (suc n) zero b h k = refl
  digits_enough (suc m) zero zero b h k = refl
  digits_enough (suc m) (suc n) zero b h k = refl
  digits_enough (suc m) (suc n) (suc a) b h k =
      ap (λ d. d * 2 + f (suc a % 2) (b % 2))
        (digits_enough m n (suc a / 2) (b / 2) (omega arith) (omega arith))
  digits_enough zero n (suc a) b h k = absurd (omega arith)
  digits_enough (suc m) zero (suc a) b h k = absurd (omega arith)

  module _ (small : (a b : ℕ) → f (a % 2) (b % 2) < 2) (half : (b : ℕ) → z b / 2 ≡ z (b / 2)) where
    digits_half : (a b : ℕ) → digits z f a a b / 2 ≡ digits z f (a / 2) (a / 2) (b / 2)
    digits_half zero b = half b
    digits_half (suc a) b =
        let enough = digits_enough a (suc a / 2) (suc a / 2) (b / 2) (omega arith) (omega arith) in
        let digit = small (suc a) b in omega (arith, enough, digit)

    -- The digits from `k` on.
    digits_above :
        (k a b : ℕ) → digits z f a a b / 2 ^ k ≡ digits z f (a / 2 ^ k) (a / 2 ^ k) (b / 2 ^ k)
    digits_above zero a b =
        one (digits z f a a b) ∙ sym (ap₂ (λ a b. digits z f a a b) (one a) (one b))
    digits_above (suc k) a b =
        div-pow_suc (digits z f a a b) k
        ∙ ap (λ n. n / 2 ^ k) (digits_half a b)
        ∙ digits_above k (a / 2) (b / 2)
        ∙ sym (ap₂ (λ a b. digits z f a a b) (div-pow_suc a k) (div-pow_suc b k))

and_small : (a b : ℕ) → min (a % 2) (b % 2) < 2
and_small a b = omega arith

or_small : (a b : ℕ) → max (a % 2) (b % 2) < 2
or_small a b = omega arith

xor_digits : (a b : ℕ) → a < 2 → b < 2 → differ a b < 2
xor_digits zero zero h k = ground arith
xor_digits zero (suc b) h k = k
xor_digits (suc a) zero h k = h
xor_digits (suc zero) (suc zero) h k = ground arith
xor_digits (suc (suc a)) (suc b) h k = absurd (omega arith)
xor_digits (suc zero) (suc (suc b)) h k = absurd (omega arith)

pub bit_and_above : (k a b : ℕ) → bit_and a b / 2 ^ k ≡ bit_and (a / 2 ^ k) (b / 2 ^ k)
bit_and_above k a b =
    ap (λ n. n / 2 ^ k) (bit_and-bitwise a b)
    ∙ digits_above (λ b. 0) min and_small (λ b. refl) k a b
    ∙ sym (bit_and-bitwise (a / 2 ^ k) (b / 2 ^ k))

pub bit_or_above : (k a b : ℕ) → bit_or a b / 2 ^ k ≡ bit_or (a / 2 ^ k) (b / 2 ^ k)
bit_or_above k a b =
    ap (λ n. n / 2 ^ k) (bit_or-bitwise a b)
    ∙ digits_above (λ b. b) max or_small (λ b. refl) k a b
    ∙ sym (bit_or-bitwise (a / 2 ^ k) (b / 2 ^ k))

pub bit_xor_above : (k a b : ℕ) → bit_xor a b / 2 ^ k ≡ bit_xor (a / 2 ^ k) (b / 2 ^ k)
bit_xor_above k a b =
    ap (λ n. n / 2 ^ k) (bit_xor-bitwise a b)
    ∙ digits_above (λ b. b) differ (λ a b. xor_digits (a % 2) (b % 2) (omega arith) (omega arith))
        (λ b. refl) k a b
    ∙ sym (bit_xor-bitwise (a / 2 ^ k) (b / 2 ^ k))
