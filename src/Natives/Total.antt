-- ===== src/Natives/Total.antt =====
-- When a native answers at all: no cast fails, and nothing is undefined.
use dartino_sdk.Base.{
  ◌-◌, ◌^◌, ◌<◌, ltb, ltb→lt, ℕ, ◌≡◌, refl, Bool, true, false, Option, some, arith,
}
use dartino_sdk.Int.{ℤ, pos, negsuc}
use dartino_sdk.Natives.{
  Object, Failure, Result, as_smi, need_smi, as_large_integer, need_large_integer,
}

-- The classes of the receivers.
abbrev pub is_smi : Object → Bool
is_smi (Object.smi v) = true
is_smi _ = false

abbrev pub is_large_integer : Object → Bool
is_large_integer (Object.large_integer v) = true
is_large_integer _ = false

abbrev pub is_double : Object → Bool
is_double (Object.double d) = true
is_double _ = false

-- No integer below 0, and none so large that its sum with a number of bits is no word.
abbrev pub is_count : Object → Bool
is_count (Object.smi (negsuc n)) = false
is_count (Object.large_integer (negsuc n)) = false
is_count (Object.large_integer (pos n)) = ltb n (2 ^ 63 - 64)
is_count _ = true

abbrev pub Answers : Option Result → Type 0
Answers o = (r : Result) × (o ≡ some r)

pub as_smi-Answers :
    (x : Object) (f : ℤ → Option Result)
    → is_smi x ≡ true
    → ((v : ℤ) → Answers (f v))
    → Answers (as_smi x f)
as_smi-Answers (Object.smi v) f h k = k v
as_smi-Answers _ f h k = absurd (ground arith)

pub as_large_integer-Answers :
    (x : Object) (f : ℤ → Option Result)
    → is_large_integer x ≡ true
    → ((v : ℤ) → Answers (f v))
    → Answers (as_large_integer x f)
as_large_integer-Answers (Object.large_integer v) f h k = k v
as_large_integer-Answers _ f h k = absurd (ground arith)

pub need_smi-Answers :
    (y : Object) (f : ℤ → Option Result) → ((v : ℤ) → Answers (f v)) → Answers (need_smi y f)
need_smi-Answers (Object.smi v) f k = k v
need_smi-Answers _ f k = (Result.failure Failure.wrong_argument_type, refl)

pub need_large_integer-Answers :
    (y : Object) (f : ℤ → Option Result)
    → ((v : ℤ) → Answers (f v))
    → Answers (need_large_integer y f)
need_large_integer-Answers (Object.large_integer v) f k = k v
need_large_integer-Answers _ f k = (Result.failure Failure.wrong_argument_type, refl)

pub need_smi_count :
    (y : Object) (f : ℤ → Option Result)
    → is_count y ≡ true
    → ((n : ℕ) → Answers (f (pos n)))
    → Answers (need_smi y f)
need_smi_count (Object.smi (pos n)) f h k = k n
need_smi_count (Object.smi (negsuc n)) f h k = absurd (ground arith)
need_smi_count _ f h k = (Result.failure Failure.wrong_argument_type, refl)

pub need_large_integer_count :
    (y : Object) (f : ℤ → Option Result)
    → is_count y ≡ true
    → ((n : ℕ) → n < 2 ^ 63 - 64 → Answers (f (pos n)))
    → Answers (need_large_integer y f)
need_large_integer_count (Object.large_integer (pos n)) f h k = k n (ltb→lt n (2 ^ 63 - 64) h)
need_large_integer_count (Object.large_integer (negsuc n)) f h k = absurd (ground arith)
need_large_integer_count _ f h k = (Result.failure Failure.wrong_argument_type, refl)
