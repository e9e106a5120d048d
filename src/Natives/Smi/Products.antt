-- ===== src/Natives/Smi/Products.antt =====
-- SmiMul, SmiMod and SmiTruncDiv.
use dartino_sdk.Base.{
  ℕ, suc, ◌+◌, ◌-◌, ◌*◌, ◌/◌, ◌%◌, ◌^◌, ◌≤◌, ◌<◌, ◌≡◌, ◌⊎◌, refl, subst, sym, ap, ap₂, ◌∙◌, Bool,
  true, false, not, some, arith, max, ◌==◌, if◌then◌else◌, Bool-cases, inl, inr,
}
use native.Mathlib.Nat.{div-add-mod, mod-lt}
use dartino_sdk.Int.Products.{mul-signed, signed-abs, abs-signed}
use dartino_sdk.Int.{
  differ, ℤ, pos, negsuc, abs, signed, is_negative, ◌+ℤ◌, ◌-ℤ◌, ◌*ℤ◌, wrap, shift_right, InWord,
  eqb_ℤ,
}
use dartino_sdk.Natives.{Object, Failure, Result, is_valid}
use dartino_sdk.Natives.Bits.{signed_64_bit_mul_might_overflow, signed_mul_overflow}
use dartino_sdk.Natives.Bits.Products.{allowed, refused, abs-mul}
use dartino_sdk.Natives.Smi.{smi_mul, smi_mod, smi_trunc_div, tagged, trunc_div, modulo}
use dartino_sdk.Natives.Smi.Sums.{ExactOr, tagged-InWord, untagged}

tagged-signed : (s : Bool) (n : ℕ) → tagged (signed s n) ≡ signed s (n * 2)
tagged-signed true n = mul-signed true false n 2
tagged-signed false n = mul-signed false false n 2

tagged_product : (x y : ℤ) → tagged x *ℤ y ≡ tagged (x *ℤ y)
tagged_product x y =
    let s = is_negative x in
    let t = is_negative y in
    ap₂ ◌*ℤ◌ (sym (ap tagged (signed-abs x)) ∙ tagged-signed s (abs x)) (sym (signed-abs y))
    ∙ mul-signed s t (abs x * 2) (abs y)
    ∙ ap (signed (differ s t)) {y = abs x * abs y * 2} (grind arith)
    ∙ sym (
        ap tagged (sym (ap₂ ◌*ℤ◌ (signed-abs x) (signed-abs y)) ∙ mul-signed s t (abs x) (abs y))
        ∙ tagged-signed (differ s t) (abs x * abs y))

abs-tagged : (x : ℤ) → abs (tagged x) ≡ 2 * abs x
unfolding ◌*ℤ◌
abs-tagged (pos a) = ground arith
abs-tagged (negsuc a) = ground arith

small_valid : (v : ℤ) → abs v < 2 ^ 62 → is_valid v ≡ true
small_valid (pos n) h = ground arith
small_valid (negsuc n) h = ground arith

smi-InWord : (y : ℤ) → is_valid y ≡ true → InWord y
smi-InWord (pos n) h = ground arith
smi-InWord (negsuc n) h = ground arith

-- SmiMul of two Smis in range gives the exact product, which is a Smi then, or it refuses with
-- wrong_argument_type, and then the product of twice the first absolute value and the second,
-- each taken as 1 where it is 0, is at least 2^62.
pub smi_mul_lem :
    (x y : ℤ)
    → is_valid x ≡ true
    → is_valid y ≡ true
    → ((is_valid (x *ℤ y) ≡ true)
        × (smi_mul (Object.smi x) (Object.smi y) ≡ some (Result.value (Object.smi (x *ℤ y)))))
      ⊎ ((2 ^ 62 ≤ max 1 (2 * abs x) * max 1 (abs y))
          × (smi_mul (Object.smi x) (Object.smi y)
              ≡ some (Result.failure Failure.wrong_argument_type)))
unfolding smi_mul signed_mul_overflow
smi_mul_lem x y h k = elim (Bool-cases (signed_64_bit_mul_might_overflow (tagged x) y)) [
  | inl e ↦ inr (
    subst (λ n. 2 ^ 62 ≤ max 1 n * max 1 (abs y)) (abs-tagged x)
        (refused (tagged x) y (tagged-InWord x h) (smi-InWord y k) e),
    rw e refl,
  )
  | inr e ↦
      let small = allowed (tagged x) y (tagged-InWord x h) (smi-InWord y k) e in
      let valid : is_valid (x *ℤ y) ≡ true = small_valid (x *ℤ y) (
        omega (
          arith,
          small,
          abs-mul x y,
          abs-mul (tagged x) y,
          abs-tagged (x *ℤ y),
          ap abs (tagged_product x y),
        )) in
      inl (
        valid,
        rw e (
            ap (λ v. some (Result.value (Object.smi (shift_right (wrap v) 1)))) (tagged_product x y)
            ∙ ap (λ v. some (Result.value (Object.smi v))) (untagged (x *ℤ y) valid)),
      )
]

modulo-pos : (a : ℕ) (y : ℤ) → modulo (pos a) y ≡ pos (a % abs y)
unfolding modulo
modulo-pos a y = refl

-- The remainder of a negative number, by the remainder of its absolute value.
modulo-negsuc :
    (a : ℕ) (y : ℤ)
    → 0 < abs y
    → modulo (negsuc a) y ≡ (if suc a % abs y == 0 then pos 0 else pos (abs y - suc a % abs y))
unfolding modulo ◌+ℤ◌
modulo-negsuc a y h = let small : suc a % abs y < abs y = mod-lt (suc a) h in ground arith

-- A product by the sign of its left factor.
signed_product :
    (y : ℤ) (s : Bool) (n : ℕ) → y *ℤ signed s n ≡ signed (differ (is_negative y) s) (abs y * n)
signed_product y s n =
    ap (λ z. z *ℤ signed s n) (sym (signed-abs y)) ∙ mul-signed (is_negative y) s (abs y) n

same : (s : Bool) → differ s s ≡ false
same true = refl
same false = refl

opposite : (s : Bool) → differ s (not s) ≡ true
opposite true = refl
opposite false = refl

-- The Euclidean remainder.
pub modulo_lem :
    (x y : ℤ)
    → 0 < abs y
    → (r : ℕ) × (modulo x y ≡ pos r) × (r < abs y) × (q : ℤ) × (y *ℤ q +ℤ pos r ≡ x)
unfolding ◌+ℤ◌
modulo_lem (pos a) y h =
    let e = div-add-mod a (abs y) in
    (
      a % abs y,
      modulo-pos a y,
      mod-lt a h,
      signed (is_negative y) (a / abs y),
      rw (signed_product y (is_negative y) (a / abs y), same (is_negative y)) (ground (arith, e)),
    )
modulo_lem (negsuc a) y h = elim (Bool-cases (suc a % abs y == 0)) [
  | inl e ↦
      let d = div-add-mod (suc a) (abs y) in
      (
        0,
        modulo-negsuc a y h ∙ ap (λ b. if b then pos 0 else pos (abs y - suc a % abs y)) e,
        h,
        signed (not (is_negative y)) (suc a / abs y),
        rw (signed_product y (not (is_negative y)) (suc a / abs y), opposite (is_negative y))
            (ground (arith, d)),
      )
  | inr e ↦
      let d = div-add-mod (suc a) (abs y) in
      let small = mod-lt (suc a) h in
      (
        abs y - suc a % abs y,
        modulo-negsuc a y h ∙ ap (λ b. if b then pos 0 else pos (abs y - suc a % abs y)) e,
        ground arith,
        signed (not (is_negative y)) (suc a / abs y + 1),
        rw (signed_product y (not (is_negative y)) (suc a / abs y + 1), opposite (is_negative y))
            (ground (arith, d)),
      )
]

pub not_zero : (y : ℤ) → 0 < abs y → eqb_ℤ y (pos 0) ≡ false
not_zero (pos n) h = ground arith
not_zero (negsuc n) h = ground arith

-- A remainder is below the range's end.
pub remainder_valid : (y : ℤ) (r : ℕ) → is_valid y ≡ true → r < abs y → is_valid (pos r) ≡ true
remainder_valid (pos n) r h small = ground arith
remainder_valid (negsuc n) r h small = ground arith

pub smi_mod_lem :
    (x y : ℤ)
    → is_valid y ≡ true
    → 0 < abs y
    → (r : ℕ) × (smi_mod (Object.smi x) (Object.smi y) ≡ some (Result.value (Object.smi (pos r))))
      × (r < abs y)
      × (q : ℤ) × (y *ℤ q +ℤ pos r ≡ x)
unfolding smi_mod
smi_mod_lem x y valid h =
    let (r, e, small, q, whole) = modulo_lem x y h in
    (r, rw (not_zero y h, e, remainder_valid y r valid small) refl, small, q, whole)

signed_difference : (s : Bool) (m n : ℕ) → n ≤ m → abs (signed s m -ℤ signed s n) ≡ m - n
unfolding ◌-ℤ◌
signed_difference true m n h = ground arith
signed_difference false m n h = ground arith

cancelled : (s t : Bool) → differ t (differ s t) ≡ s
cancelled true true = refl
cancelled true false = refl
cancelled false true = refl
cancelled false false = refl

-- The quotient rounds towards 0.
pub trunc_div_lem :
    (x y : ℤ)
    → 0 < abs y
    → (abs (y *ℤ trunc_div x y) ≤ abs x) × (abs (x -ℤ y *ℤ trunc_div x y) < abs y)
trunc_div_lem x y h =
    let n = abs y * (abs x / abs y) in
    let d = div-add-mod (abs x) (abs y) in
    let small = mod-lt (abs x) h in
    let product : y *ℤ trunc_div x y ≡ signed (is_negative x) n =
      signed_product y (differ (is_negative x) (is_negative y)) (abs x / abs y)
      ∙ ap (λ s. signed s n) (cancelled (is_negative x) (is_negative y)) in
    let less : n ≤ abs x = omega (arith, d) in
    let size = ap abs product ∙ abs-signed (is_negative x) n in
    let rest =
      ap₂ (λ a b. abs (a -ℤ b)) (sym (signed-abs x)) product
      ∙ signed_difference (is_negative x) (abs x) n less in
    (omega (arith, size, less), omega (arith, rest, d, small))

pub smi_trunc_div_lem :
    (x y : ℤ)
    → 0 < abs y
    → (q : ℤ) × ExactOr Failure.wrong_argument_type q (smi_trunc_div (Object.smi x) (Object.smi y))
      × (abs (y *ℤ q) ≤ abs x)
      × (abs (x -ℤ y *ℤ q) < abs y)
unfolding smi_trunc_div
smi_trunc_div_lem x y h =
    let (size, rest) = trunc_div_lem x y h in
    (
      trunc_div x y,
      elim (Bool-cases (is_valid (trunc_div x y))) [
        | inl e ↦ rw (not_zero y h, e) refl
        | inr e ↦ rw (not_zero y h, e) refl
      ],
      size,
      rest,
    )

-- For a divisor in range other than 0, SmiMod gives the remainder from 0 up to the absolute
-- value of the divisor, by which dividend and a multiple of the divisor differ; SmiTruncDiv
-- gives the quotient rounded towards 0, or refuses if that is no Smi.
pub smi_division_lem :
    (x y : ℤ)
    → is_valid y ≡ true
    → 0 < abs y
    → ((r : ℕ) × (smi_mod (Object.smi x) (Object.smi y) ≡ some (Result.value (Object.smi (pos r))))
        × (r < abs y)
        × (q : ℤ) × (y *ℤ q +ℤ pos r ≡ x))
      × ((q : ℤ) × ExactOr Failure.wrong_argument_type q
            (smi_trunc_div (Object.smi x) (Object.smi y))
          × (abs (y *ℤ q) ≤ abs x)
          × (abs (x -ℤ y *ℤ q) < abs y))
smi_division_lem x y valid h = (smi_mod_lem x y valid h, smi_trunc_div_lem x y h)
