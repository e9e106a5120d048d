-- ===== src/Natives/Bits/Products.antt =====
-- When a product of two words is refused, and that the others do not overflow.
use dartino_sdk.Base.{
  ℕ, ◌+◌, ◌-◌, ◌*◌, ◌^◌, ◌≤◌, ◌<◌, ◌≡◌, ap, ◌∙◌, true, false, arith, max, ltb, ltb→lt, leb→le,
  Bool-cases, inl, inr,
}
use dartino_sdk.Int.{ℤ, abs, pos, negsuc, ◌*ℤ◌, InWord}
use native.Mathlib.Nat.{mul-le-mul_left}
use dartino_sdk.Natives.Bits.{highest_bit, signed_64_bit_mul_might_overflow}
use dartino_sdk.Natives.Bits.Highest.{highest_bit_bounds, highest_bit-zero, pow-plus, pow_pos}

pub pow_mono : (m n : ℕ) → m ≤ n → 2 ^ m ≤ 2 ^ n
pow_mono m n h =
    let e = ap (λ k. 2 ^ k) {x = n} {y = m + (n - m)} (omega (arith, h)) ∙ pow-plus m (n - m) in
    let p = mul-le-mul_left (2 ^ m) (pow_pos (n - m)) in omega (arith, e, p)

mul_lt : (a b c d : ℕ) → a < c → b < d → a * b < c * d
mul_lt a b c d h k = grind arith

mul_le : (a b c d : ℕ) → a ≤ c → b ≤ d → a * b ≤ c * d
mul_le a b c d h k = grind arith

-- Of 0, too, where the answer is 0.
bit_range :
    (v : ℤ)
    → abs v < 2 ^ 64
    → (2 ^ highest_bit v ≤ max 1 (abs v)) × (abs v < 2 ^ (highest_bit v + 1))
bit_range v h = elim (Bool-cases (ltb 0 (abs v))) [
  | inl e ↦
      let (low, high) = highest_bit_bounds v (ltb→lt 0 (abs v) e) h in (omega (arith, low), high)
  | inr e ↦
      let none_there : abs v ≡ 0 = ground arith in
      rw (highest_bit-zero v none_there, none_there) (omega arith)
]

abs-word : (v : ℤ) → InWord v → abs v < 2 ^ 64
abs-word (pos n) h = omega (arith, h)
abs-word (negsuc n) h = omega (arith, h)

module _ (x y : ℤ) (h : InWord x) (k : InWord y) where
  pub allowed : signed_64_bit_mul_might_overflow x y ≡ false → abs x * abs y < 2 ^ 63
  unfolding signed_64_bit_mul_might_overflow
  allowed e =
      let i = highest_bit x in
      let j = highest_bit y in
      let few : i + j ≤ 61 = ground arith in
      let product = mul_lt _ _ _ _ (bit_range x (abs-word x h)).1 (bit_range y (abs-word y k)).1 in
      let bound = pow_mono (i + 1 + (j + 1)) 63 (omega (arith, few)) in
      omega (arith, product, bound, pow-plus (i + 1) (j + 1))

  pub refused : signed_64_bit_mul_might_overflow x y ≡ true → 2 ^ 62 ≤ max 1 (abs x) * max 1 (abs y)
  unfolding signed_64_bit_mul_might_overflow
  refused e =
      let i = highest_bit x in
      let j = highest_bit y in
      let many : 62 ≤ i + j = leb→le 62 (i + j) e in
      let product = mul_le _ _ _ _ (bit_range x (abs-word x h)).0 (bit_range y (abs-word y k)).0 in
      let bound = pow_mono 62 (i + j) many in omega (arith, product, bound, pow-plus i j)

pub abs-mul : (x y : ℤ) → abs (x *ℤ y) ≡ abs x * abs y
unfolding ◌*ℤ◌
abs-mul (pos a) (pos b) = ground arith
abs-mul (pos a) (negsuc b) = ground arith
abs-mul (negsuc a) (pos b) = ground arith
abs-mul (negsuc a) (negsuc b) = ground arith
