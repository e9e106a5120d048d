-- ===== src/Natives/Doubles/Answers.antt =====
-- The answers that the natives of doubles are made of.
use dartino_sdk.Base.{ℕ, ◌≡◌, refl, Bool, true, false, Option, none, some, if◌then◌else◌}
use dartino_sdk.Int.{ℤ, InWord}
use dartino_sdk.Natives.{
  Object, Failure, Result, as_smi, need_smi, as_large_integer, need_large_integer,
}
use dartino_sdk.Natives.Ranges.{ValidResult}
use dartino_sdk.Natives.Doubles.{
  Floats, new_double, as_double, need_double, cast_int64, double_math_native,
}

pub new_double-Valid : (room : Bool) (d : ℕ) → ValidResult (some (new_double room d))
new_double-Valid true d = tt
new_double-Valid false d = tt

pub as_double-Valid :
    (x : Object) (f : ℕ → Option Result)
    → ((d : ℕ) → ValidResult (f d))
    → ValidResult (as_double x f)
as_double-Valid (Object.double d) f k = k d
as_double-Valid _ f k = tt

pub need_double-Valid :
    (x : Object) (f : ℕ → Option Result)
    → ((d : ℕ) → ValidResult (f d))
    → ValidResult (need_double x f)
need_double-Valid (Object.double d) f k = k d
need_double-Valid _ f k = tt

pub as_smi-double :
    (x : Object) (f : ℤ → Option Result) → ((v : ℤ) → ValidResult (f v)) → ValidResult (as_smi x f)
as_smi-double (Object.smi v) f k = k v
as_smi-double _ f k = tt

pub need_smi-double :
    (x : Object) (f : ℤ → Option Result)
    → ((v : ℤ) → ValidResult (f v))
    → ValidResult (need_smi x f)
need_smi-double (Object.smi v) f k = k v
need_smi-double _ f k = tt

pub as_large_integer-double :
    (x : Object) (f : ℤ → Option Result)
    → ((v : ℤ) → ValidResult (f v))
    → ValidResult (as_large_integer x f)
as_large_integer-double (Object.large_integer v) f k = k v
as_large_integer-double _ f k = tt

pub need_large_integer-double :
    (x : Object) (f : ℤ → Option Result)
    → ((v : ℤ) → ValidResult (f v))
    → ValidResult (need_large_integer x f)
need_large_integer-double (Object.large_integer v) f k = k v
need_large_integer-double _ f k = tt

-- A failure where the test holds.
pub tested-Valid :
    (b : Bool) (f : Failure) (r : Option Result)
    → ValidResult r
    → ValidResult (if b then some (Result.failure f) else r)
tested-Valid true f r h = tt
tested-Valid false f r h = h

module _ (floats : Floats) where
  pub cast_int64-Valid :
      (d : ℕ) (f : ℤ → Result)
      → ((z : ℤ) → InWord z → ValidResult (some (f z)))
      → ValidResult (cast_int64 floats d f)
  cast_int64-Valid d f k = cases (floats.to_int64 d) refl
    where
      cases :
          (o : Option ℤ)
          → floats.to_int64 d ≡ o
          → ValidResult (elim o [ none ↦ none | some z ↦ some (f z) ])
      cases none e = tt
      cases (some z) e = k z (floats.to_int64_word d z e)

  pub math-Valid :
      (method : ℕ → ℕ) (room : Bool) (x : Object)
      → ValidResult (double_math_native floats method room x)
  math-Valid method room x = need_double-Valid x _ λ d. new_double-Valid room (method d)
