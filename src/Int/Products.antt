-- ===== src/Int/Products.antt =====
-- Products by signs.
use dartino_sdk.Base.{ℕ, zero, suc, ◌*◌, ◌≡◌, refl, Bool, true, false, arith}
use dartino_sdk.Int.{ℤ, pos, negsuc, abs, signed, is_negative, ◌*ℤ◌, differ}

pub mul-signed : (s t : Bool) (m n : ℕ) → signed s m *ℤ signed t n ≡ signed (differ s t) (m * n)
unfolding ◌*ℤ◌
mul-signed true true zero n = ground arith
mul-signed true true (suc m) zero = ground arith
mul-signed true true (suc m) (suc n) = ground arith
mul-signed true false zero n = ground arith
mul-signed true false (suc m) zero = ground arith
mul-signed true false (suc m) (suc n) = ground arith
mul-signed false true zero n = ground arith
mul-signed false true (suc m) zero = ground arith
mul-signed false true (suc m) (suc n) = ground arith
mul-signed false false m n = ground arith

-- An integer by its sign and absolute value.
pub signed-abs : (x : ℤ) → signed (is_negative x) (abs x) ≡ x
signed-abs (pos n) = refl
signed-abs (negsuc n) = ground arith

pub abs-signed : (s : Bool) (n : ℕ) → abs (signed s n) ≡ n
abs-signed true zero = refl
abs-signed true (suc n) = ground arith
abs-signed false n = refl
