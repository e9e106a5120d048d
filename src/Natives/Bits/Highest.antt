-- ===== src/Natives/Bits/Highest.antt =====
-- Where the highest bit stands.
use dartino_sdk.Base.{
  ℕ, zero, suc, ◌+◌, ◌*◌, ◌/◌, ◌^◌, ◌≤◌, ◌<◌, ◌≡◌, refl, sym, ap, ◌∙◌, arith, ltb, if◌then◌else◌,
}
use dartino_sdk.Int.{ℤ, pos, negsuc, abs}
use native.Mathlib.Nat.{pow-suc, div-div-eq-div-mul, div-mul-le_self, lt-div-mul-add}
use dartino_sdk.Natives.Bits.{highest_step, highest_bit, bit_length}

pub pow-plus : (r k : ℕ) → 2 ^ (r + k) ≡ 2 ^ r * 2 ^ k
pow-plus r zero = ap (λ n. 2 ^ n) {y = r} (omega arith) ∙ omega arith
pow-plus r (suc k) =
    ap (λ n. 2 ^ n) {y = suc (r + k)} (omega arith)
    ∙ grind (arith, pow-suc 2 (r + k), pow-suc 2 k, pow-plus r k)

-- `x` is `n` shifted right by `r`, has a bit, and `w` bits at most.
abbrev IsShifted : ℕ → ℕ → ℕ × ℕ → Type 0
IsShifted n w (x, r) = (x ≡ n / 2 ^ r) × (0 < x) × (x < 2 ^ w)

further : (n r k : ℕ) → n / 2 ^ r / 2 ^ k ≡ n / 2 ^ (r + k)
further n r k = div-div-eq-div-mul n (2 ^ r) (2 ^ k) ∙ ap (λ d. n / d) (sym (pow-plus r k))

module _ (n x r : ℕ) where
  step_32 : IsShifted n 64 (x, r) → IsShifted n 32 (highest_step 32 (x, r))
  step_32 h = let f = further n r 32 in ground arith

  step_16 : IsShifted n 32 (x, r) → IsShifted n 16 (highest_step 16 (x, r))
  step_16 h = let f = further n r 16 in ground arith

  step_8 : IsShifted n 16 (x, r) → IsShifted n 8 (highest_step 8 (x, r))
  step_8 h = let f = further n r 8 in ground arith

  step_4 : IsShifted n 8 (x, r) → IsShifted n 4 (highest_step 4 (x, r))
  step_4 h = let f = further n r 4 in ground arith

  step_2 : IsShifted n 4 (x, r) → IsShifted n 2 (highest_step 2 (x, r))
  step_2 h = let f = further n r 2 in ground arith

pub pow_pos : (n : ℕ) → 0 < 2 ^ n
pow_pos zero = omega arith
pow_pos (suc n) = omega (arith, pow-suc 2 n, pow_pos n)

last_step : (n x r : ℕ) → IsShifted n 2 (x, r) → n / 2 ^ (if ltb 1 x then r + 1 else r) ≡ 1
last_step n x r h = let f = further n r 1 in ground arith

all_steps :
    (n : ℕ)
    → 0 < n
    → n < 2 ^ 64
    → IsShifted n 2 (
        highest_step 2 (highest_step 4 (highest_step 8 (highest_step 16 (highest_step 32 (n, 0))))))
all_steps n h k =
    step_2 n _ _ (step_4 n _ _ (step_8 n _ _ (step_16 n _ _ (step_32 n n 0 (omega arith, h, k)))))

highest_bit-shift : (v : ℤ) → 0 < abs v → abs v < 2 ^ 64 → abs v / 2 ^ highest_bit v ≡ 1
unfolding highest_bit
highest_bit-shift v h k =
    let (x, r) =
      highest_step 2
        (highest_step 4 (highest_step 8 (highest_step 16 (highest_step 32 (abs v, 0))))) in
    last_step (abs v) x r (all_steps (abs v) h k)

pub highest_bit_bounds :
    (v : ℤ)
    → 0 < abs v
    → abs v < 2 ^ 64
    → (2 ^ highest_bit v ≤ abs v) × (abs v < 2 ^ (highest_bit v + 1))
highest_bit_bounds v h k =
    let e = highest_bit-shift v h k in
    let below = div-mul-le_self (abs v) (2 ^ highest_bit v) in
    let above = lt-div-mul-add {a = abs v} (pow_pos (highest_bit v)) in
    let double = pow-plus (highest_bit v) 1 in
    let product = ap (λ q. q * 2 ^ highest_bit v) e in
    (omega (arith, below, product), omega (arith, above, product, double))

pub highest_bit-zero : (v : ℤ) → abs v ≡ 0 → highest_bit v ≡ 0
unfolding highest_bit
highest_bit-zero v e = rw e refl

step_bound : (k : ℕ) (p : ℕ × ℕ) → (highest_step k p).1 ≤ p.1 + k
step_bound k (x, r) = ground arith

last_bound : (p : ℕ × ℕ) → (if ltb 1 p.0 then p.1 + 1 else p.1) ≤ p.1 + 1
last_bound p = ground arith

highest_bit_bound : (v : ℤ) → highest_bit v ≤ 63
unfolding highest_bit
highest_bit_bound v =
    let a = highest_step 32 (abs v, 0) in
    let b = highest_step 16 a in
    let c = highest_step 8 b in
    let d = highest_step 4 c in
    omega (
      arith,
      step_bound 32 (abs v, 0),
      step_bound 16 a,
      step_bound 8 b,
      step_bound 4 c,
      step_bound 2 d,
      last_bound (highest_step 2 d),
    )

pub bit_length_bound : (v : ℤ) → bit_length v ≤ 64
unfolding bit_length
bit_length_bound (pos n) = ground (arith, highest_bit_bound (pos n))
bit_length_bound (negsuc n) = ground (arith, highest_bit_bound (pos n))
