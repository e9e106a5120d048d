-- ===== src/Natives/Mint/Words.antt =====
-- The operations on words that stay words.
use dartino_sdk.Base.{
  ℕ, zero, suc, ◌*◌, ◌/◌, ◌^◌, ◌≤◌, ◌<◌, ◌≡◌, sym, subst, true, false, not, ◌||◌, arith, leb, ◌==◌,
  if◌then◌else◌, Bool-cases, inl, inr,
}
use native.Mathlib.Nat.{div-add-mod, div-le_self, mul-le-mul_right}
use dartino_sdk.Int.{ℤ, pos, negsuc, abs, signed, is_negative, ◌-ℤ◌, shift_right, eqb_ℤ, InWord}
use dartino_sdk.Natives.Mint.{int64_min}
use dartino_sdk.Natives.Smi.{trunc_div, modulo, bit_not}
use dartino_sdk.Natives.Smi.Products.{modulo_lem}
use dartino_sdk.Natives.Ranges.{shift_right_le}

pub nonzero : (y : ℤ) → eqb_ℤ y (pos 0) ≡ false → 0 < abs y
nonzero (pos n) h = ground arith
nonzero (negsuc n) h = ground arith

pub modulo-InWord : (x y : ℤ) → InWord y → 0 < abs y → InWord (modulo x y)
modulo-InWord x y h k =
    let (r, e, small, q, whole) = modulo_lem x y k in subst InWord (sym e) (below y r h small)
  where
    below : (y : ℤ) (r : ℕ) → InWord y → r < abs y → InWord (pos r)
    below (pos n) r h small = omega (arith, h, small)
    below (negsuc n) r h small = omega (arith, h, small)

-- A quotient by an absolute value of at least 2 is at most half.
halved : (m n : ℕ) → 2 ≤ n → 2 * (m / n) ≤ m
halved m n h = omega (arith, div-add-mod m n, mul-le-mul_right (m / n) h)

negative-InWord : (n : ℕ) → n ≤ 2 ^ 63 → InWord (signed true n)
negative-InWord zero h = ground arith
negative-InWord (suc n) h = ground arith

pub trunc_div-InWord :
    (x y : ℤ)
    → InWord x
    → (not (eqb_ℤ x int64_min) || not (eqb_ℤ y (negsuc 0))) ≡ true
    → InWord (trunc_div x y)
trunc_div-InWord (pos a) (pos b) h e = omega (arith, h, div-le_self a b)
trunc_div-InWord (pos a) (negsuc b) h e =
    negative-InWord _ (omega (arith, h, div-le_self a (suc b)))
trunc_div-InWord (negsuc a) (pos b) h e =
    negative-InWord _ (omega (arith, h, div-le_self (suc a) b))
trunc_div-InWord (negsuc a) (negsuc b) h e = elim (Bool-cases (b == 0)) [
  | inl d ↦ ground (arith, d, e, h, div-le_self (suc a) (suc b))
  | inr d ↦ omega (arith, h, halved (suc a) (suc b) (ground arith))
]

pub bit_not-InWord : (v : ℤ) → InWord v → InWord (bit_not v)
bit_not-InWord (pos n) h = h
bit_not-InWord (negsuc n) h = h

pub negated-InWord : (v : ℤ) → InWord v → eqb_ℤ v int64_min ≡ false → InWord (pos 0 -ℤ v)
unfolding ◌-ℤ◌
negated-InWord (pos n) h e = ground arith
negated-InWord (negsuc n) h e = ground arith

shift_right-InWord : (v : ℤ) (k : ℕ) → InWord v → InWord (shift_right v k)
shift_right-InWord (pos n) k h = omega (arith, h, shift_right_le n k)
shift_right-InWord (negsuc n) k h = omega (arith, h, shift_right_le n k)

-- Shifts by 64 or more leave the sign.
pub shifted-InWord :
    (v : ℤ) (n : ℕ)
    → InWord v
    → InWord (if leb 64 n then (if is_negative v then negsuc 0 else pos 0) else shift_right v n)
shifted-InWord v n h = elim (Bool-cases (leb 64 n)) [
  | inl e ↦ rw e (sign v)
  | inr e ↦ rw e (shift_right-InWord v n h)
]
  where
    sign : (v : ℤ) → InWord (if is_negative v then negsuc 0 else pos 0)
    sign (pos n) = ground arith
    sign (negsuc n) = ground arith
