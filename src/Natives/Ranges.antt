-- ===== src/Natives/Ranges.antt =====
-- What the natives of numbers answer, in the ranges of their representations.
use dartino_sdk.Base.{
  ℕ, ◌/◌, ◌^◌, ◌≤◌, ◌≡◌, refl, Bool, true, false, Option, some, List, [], ◌∷◌, arith, ltb,
  if◌then◌else◌, Bool-cases, inl, inr,
}
use native.Mathlib.Nat.{div-le_self}
use dartino_sdk.Int.{ℤ, InWord, of_word}
use dartino_sdk.Natives.{
  Object, Result, is_valid, as_smi, need_smi, new_integer, to_integer, to_bool,
}

-- A Smi is in its range, and a large integer is a word.
abbrev pub ValidObject : Object → Type 0
ValidObject (Object.smi v) = is_valid v ≡ true
ValidObject (Object.large_integer v) = InWord v
ValidObject _ = Unit

abbrev pub ValidResult : Option Result → Type 0
ValidResult (some (Result.value o)) = ValidObject o
ValidResult _ = Unit

abbrev pub AllValid : List Object → Type 0
AllValid [] = Unit
AllValid (x ∷ xs) = ValidObject x × AllValid xs

pub new_integer-Valid : (room : Bool) (v : ℤ) → InWord v → ValidResult (some (new_integer room v))
new_integer-Valid true v h = h
new_integer-Valid false v h = tt

pub to_integer-Valid : (room : Bool) (v : ℤ) → InWord v → ValidResult (some (to_integer room v))
to_integer-Valid room v h = elim (Bool-cases (is_valid v)) [
  | inl e ↦ rw e e
  | inr e ↦ rw e (new_integer-Valid room v h)
]

pub to_bool-Valid : (b : Bool) → ValidResult (some (to_bool b))
to_bool-Valid true = tt
to_bool-Valid false = tt

pub as_smi-Valid :
    (x : Object) (f : ℤ → Option Result)
    → ValidObject x
    → ((v : ℤ) → is_valid v ≡ true → ValidResult (f v))
    → ValidResult (as_smi x f)
as_smi-Valid (Object.smi v) f h k = k v h
as_smi-Valid (Object.large_integer v) f h k = tt
as_smi-Valid (Object.double v) f h k = tt
as_smi-Valid _ f h k = tt

pub need_smi-Valid :
    (x : Object) (f : ℤ → Option Result)
    → ValidObject x
    → ((v : ℤ) → is_valid v ≡ true → ValidResult (f v))
    → ValidResult (need_smi x f)
need_smi-Valid (Object.smi v) f h k = k v h
need_smi-Valid _ f h k = tt

pub either-Valid :
    (b : Bool) (u v : Result)
    → (b ≡ true → ValidResult (some u))
    → (b ≡ false → ValidResult (some v))
    → ValidResult (some (if b then u else v))
either-Valid true u v h k = h refl
either-Valid false u v h k = k refl

pub choose-Valid :
    (b : Bool) (u v : Option Result)
    → (b ≡ true → ValidResult u)
    → (b ≡ false → ValidResult v)
    → ValidResult (if b then u else v)
choose-Valid true u v h k = h refl
choose-Valid false u v h k = k refl

-- A result that is wrapped to a word, or cut to one.
pub of_word-InWord : (w : ℕ) → InWord (of_word w)
of_word-InWord w = elim (Bool-cases (ltb w (2 ^ 63))) [
  | inl e ↦ rw e (ground arith)
  | inr e ↦ rw e (ground arith)
]

pub shift_right_le : (n k : ℕ) → n / 2 ^ k ≤ n
shift_right_le n k = div-le_self n (2 ^ k)
