-- ===== src/Natives/Smi/Shifts.antt =====
-- SmiBitShr and SmiBitShl.
use dartino_sdk.Base.{
  ℕ, suc, ◌+◌, ◌-◌, ◌*◌, ◌/◌, ◌%◌, ◌^◌, ◌≤◌, ◌<◌, ◌≡◌, refl, ap, ◌∙◌, Bool, true, false, not, ◌&&◌,
  ◌||◌, some, arith, ltb, leb, if◌then◌else◌, Bool-cases, inl, inr,
}
use native.Mathlib.Nat.{div-add-mod, zero-add, mul-div_left, add-mul-div_right, div-eq_of_lt}
use dartino_sdk.Int.{ℤ, pos, negsuc, ◌*ℤ◌, wrap, shift_right, eqb_ℤ}
use dartino_sdk.Natives.{Object, Failure, Result, is_valid}
use dartino_sdk.Natives.Bits.Products.{pow_mono}
use dartino_sdk.Natives.Bits.Highest.{pow_pos}
use dartino_sdk.Natives.Smi.{smi_bit_shl, from_word}

abbrev shift_by : ℤ → ℕ → ℤ
shift_by (pos n) p = pos (n / p)
shift_by (negsuc n) p = negsuc (n / p)

-- Whether SmiBitShl gives up on a product by `p`, after the test of the count.
abbrev lost : ℤ → ℕ → ℤ → Bool
lost x p product = not (is_valid (wrap product)) || not (eqb_ℤ (shift_by (wrap product) p) x)

shift_by-shift_right : (x : ℤ) (n : ℕ) → shift_right x n ≡ shift_by x (2 ^ n)
shift_by-shift_right (pos a) n = refl
shift_by-shift_right (negsuc a) n = refl

module _ (a p : ℕ) (h : 0 < p) where
  pos_product : pos a *ℤ pos p ≡ pos (a * p)
  unfolding ◌*ℤ◌
  pos_product = ground arith

  negsuc_product : negsuc a *ℤ pos p ≡ negsuc (suc a * p - 1)
  unfolding ◌*ℤ◌
  negsuc_product = ground (arith, h)

  exact : a * p / p ≡ a
  exact = mul-div_left a h

  below : (suc a * p - 1) / p ≡ a
  below =
      ap (λ n. n / p) {y = p - 1 + a * p} (omega (arith, h))
      ∙ add-mul-div_right (p - 1) a h
      ∙ ap (λ q. q + a) (div-eq_of_lt {n = p - 1} {m = p} (omega (arith, h)))
      ∙ zero-add a

  lost-pos : lost (pos a) p (pos (a * p)) ≡ not (is_valid (pos (a * p)))
  lost-pos =
      let w = a * p % 2 ^ 64 in
      let d = div-add-mod w p in
      let back : w / p ≡ a → a * p ≤ w = λ e. omega (arith, d, ap (λ q. p * q) e) in
      ground (arith, exact, back)

  lost-negsuc :
      p ≤ 2 ^ 63
      → lost (negsuc a) p (negsuc (suc a * p - 1)) ≡ not (is_valid (negsuc (suc a * p - 1)))
  lost-negsuc k =
      let w = (suc a * p - 1) % 2 ^ 64 in
      let d = div-add-mod w p in
      let back : w / p ≡ a → a * p ≤ w = λ e. omega (arith, d, ap (λ q. p * q) e) in
      ground (arith, h, below, back)

lost_lem :
    (x : ℤ) (n : ℕ) → n < 64 → lost x (2 ^ n) (x *ℤ pos (2 ^ n)) ≡ not (is_valid (x *ℤ pos (2 ^ n)))
lost_lem (pos a) n h = rw (pos_product a (2 ^ n) (pow_pos n)) (lost-pos a (2 ^ n) (pow_pos n))
lost_lem (negsuc a) n h =
    rw (negsuc_product a (2 ^ n) (pow_pos n))
      (lost-negsuc a (2 ^ n) (pow_pos n) (pow_mono n 63 (omega (arith, h))))

valid-wrap : (v : ℤ) → is_valid v ≡ true → wrap v ≡ v
valid-wrap (pos n) h = ground arith
valid-wrap (negsuc n) h = ground arith

chosen :
    (v : ℤ)
    → (if not (is_valid v)
        then some (Result.failure Failure.wrong_argument_type)
        else from_word (wrap v))
      ≡ some (
          if is_valid v
          then Result.value (Object.smi v)
          else Result.failure Failure.wrong_argument_type)
chosen v = elim (Bool-cases (is_valid v)) [
  | inl e ↦ rw (e, valid-wrap v e, e) refl
  | inr e ↦ rw e refl
]

-- SmiBitShl of a Smi in range by a count of 0 or more gives the exact product with the power of
-- 2 if the count is below 64 and the product is a Smi; in every other case it refuses.
pub smi_bit_shl_lem :
    (x : ℤ) (n : ℕ)
    → smi_bit_shl (Object.smi x) (Object.smi (pos n))
      ≡ some (
          if ltb n 64 && is_valid (x *ℤ pos (2 ^ n))
          then Result.value (Object.smi (x *ℤ pos (2 ^ n)))
          else Result.failure Failure.wrong_argument_type)
unfolding smi_bit_shl
smi_bit_shl_lem x n = elim (Bool-cases (ltb n 64)) [
  | inl e ↦
      let v = x *ℤ pos (2 ^ n) in
      let few : leb 64 n ≡ false = ground arith in
      let test =
        ap (λ s. not (is_valid (wrap v)) || not (eqb_ℤ s x)) (shift_by-shift_right (wrap v) n)
        ∙ lost_lem x n (ground arith) in
      rw (few, e, test) (chosen v)
  | inr e ↦ let many : leb 64 n ≡ true = ground arith in rw (many, e) refl
]
