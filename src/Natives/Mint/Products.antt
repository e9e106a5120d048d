-- ===== src/Natives/Mint/Products.antt =====
-- MintMul, MintMod and MintTruncDiv.
use dartino_sdk.Base.{
  ℕ, ◌*◌, ◌^◌, ◌≤◌, ◌<◌, ◌≡◌, ◌⊎◌, refl, ap, ◌∙◌, Bool, true, false, not, ◌&&◌, ◌||◌, Option, some,
  arith, max, if◌then◌else◌, Bool-cases, inl, inr,
}
use dartino_sdk.Int.{ℤ, pos, negsuc, abs, ◌+ℤ◌, ◌-ℤ◌, ◌*ℤ◌, in_word, InWord, eqb_ℤ}
use dartino_sdk.Natives.{Object, Failure, Result, to_integer}
use dartino_sdk.Natives.Bits.{signed_64_bit_mul_might_overflow}
use dartino_sdk.Natives.Bits.Products.{allowed, refused, abs-mul}
use dartino_sdk.Natives.Smi.{trunc_div}
use dartino_sdk.Natives.Smi.Products.{modulo_lem, trunc_div_lem, not_zero}
use dartino_sdk.Natives.Mint.{mint_mul, mint_mod, mint_trunc_div, int64_min}
use dartino_sdk.Natives.Mint.Sums.{wrap_self}

small_word : (v : ℤ) → abs v < 2 ^ 63 → in_word v ≡ true
small_word (pos n) h = ground arith
small_word (negsuc n) h = ground arith

pub in_word-InWord : (v : ℤ) → in_word v ≡ true → InWord v
in_word-InWord (pos n) h = ground arith
in_word-InWord (negsuc n) h = ground arith

pub mint_mul_lem :
    (room : Bool) (x y : ℤ)
    → InWord x
    → InWord y
    → (InWord (x *ℤ y)
        × (mint_mul room (Object.large_integer x) (Object.large_integer y)
            ≡ some (to_integer room (x *ℤ y))))
      ⊎ ((2 ^ 62 ≤ max 1 (abs x) * max 1 (abs y))
          × (mint_mul room (Object.large_integer x) (Object.large_integer y)
              ≡ some (Result.failure Failure.index_out_of_bounds)))
unfolding mint_mul
mint_mul_lem room x y h k = elim (Bool-cases (signed_64_bit_mul_might_overflow x y)) [
  | inl e ↦ inr (refused x y h k e, rw e refl)
  | inr e ↦
      let small = small_word (x *ℤ y) (omega (arith, allowed x y h k e, abs-mul x y)) in
      inl (in_word-InWord (x *ℤ y) small, rw (e, wrap_self (x *ℤ y) small) refl)
]

both : (a b : Bool) (u v : Result) → (if not a || not b then u else v) ≡ (if a && b then v else u)
both true true u v = refl
both true false u v = refl
both false b u v = refl

-- The answer to a division whose result is `v`: none where the quotient leaves the words.
abbrev pub DivisionOr : Bool → ℤ → ℤ → ℤ → Option Result → Type 0
DivisionOr room x y v r =
    r
    ≡ some (
        if eqb_ℤ x int64_min && eqb_ℤ y (negsuc 0)
        then Result.failure Failure.index_out_of_bounds
        else to_integer room v)

pub mint_mod_lem :
    (room : Bool) (x y : ℤ)
    → 0 < abs y
    → (r : ℕ) × DivisionOr room x y
        (pos r)
        (mint_mod room (Object.large_integer x) (Object.large_integer y))
      × (r < abs y)
      × (q : ℤ) × (y *ℤ q +ℤ pos r ≡ x)
unfolding mint_mod
mint_mod_lem room x y h =
    let (r, e, small, q, whole) = modulo_lem x y h in
    (
      r,
      rw (not_zero y h) (
          ap some (both (eqb_ℤ x int64_min) (eqb_ℤ y (negsuc 0)) _ _)
          ∙ ap
              (λ v. some (
                if eqb_ℤ x int64_min && eqb_ℤ y (negsuc 0)
                then Result.failure Failure.index_out_of_bounds
                else to_integer room v))
              e),
      small,
      q,
      whole,
    )

pub mint_trunc_div_lem :
    (room : Bool) (x y : ℤ)
    → 0 < abs y
    → (q : ℤ) × DivisionOr room x y q
        (mint_trunc_div room (Object.large_integer x) (Object.large_integer y))
      × (abs (y *ℤ q) ≤ abs x)
      × (abs (x -ℤ y *ℤ q) < abs y)
unfolding mint_trunc_div
mint_trunc_div_lem room x y h =
    let (size, rest) = trunc_div_lem x y h in
    (
      trunc_div x y,
      rw (not_zero y h) (ap some (both (eqb_ℤ x int64_min) (eqb_ℤ y (negsuc 0)) _ _)),
      size,
      rest,
    )
