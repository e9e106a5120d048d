-- ===== src/Wire/Words.antt =====
-- Words as bytes in little endian.
use dartino_sdk.Base.{
  ℕ, zero, suc, ◌+◌, ◌*◌, ◌%◌, ◌/◌, ◌^◌, ◌<◌, ◌≡◌, refl, ap, ap₂, ◌∙◌, arith, length, List, [], ◌∷◌,
}
use native.Mathlib.Nat.{pow-suc}
use dartino_sdk.Wire.{le_bytes, of_le}

pub length-le_bytes : (n w : ℕ) → length (le_bytes n w) ≡ n
unfolding le_bytes
length-le_bytes zero w = refl
length-le_bytes (suc n) w = ap suc (length-le_bytes n (w / 256))

pub of_le-le_bytes : (n w : ℕ) → w < 256 ^ n → of_le (le_bytes n w) ≡ w
unfolding le_bytes of_le
of_le-le_bytes zero w h = omega arith
of_le-le_bytes (suc n) w h =
    omega (arith, of_le-le_bytes n (w / 256) (omega (arith, pow-suc 256 n, h)))

abbrev pub AreBytes : List ℕ → Type 0
AreBytes [] = Unit
AreBytes (x ∷ xs) = (x < 256) × AreBytes xs

pub le_bytes-of_le : (xs : List ℕ) → AreBytes xs → le_bytes (length xs) (of_le xs) ≡ xs
unfolding le_bytes of_le
le_bytes-of_le [] h = refl
le_bytes-of_le (x ∷ xs) h =
    let low : (x + 256 * of_le xs) % 256 ≡ x = omega (arith, h.0) in
    let high : (x + 256 * of_le xs) / 256 ≡ of_le xs = omega (arith, h.0) in
    ap₂ ◌∷◌ low (ap (le_bytes (length xs)) high ∙ le_bytes-of_le xs h.1)
