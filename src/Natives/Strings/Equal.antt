-- ===== src/Natives/Strings/Equal.antt =====
-- The natives that compare two strings.
use dartino_sdk.Base.{
  ℕ, ◌≡◌, refl, sym, subst, ap₂, Bool, true, false, Option, some, List, [], ◌∷◌, length, arith,
  ◌==◌, if◌then◌else◌, ◌↔◌,
}
use dartino_sdk.Natives.{Object, Result, to_bool}
use dartino_sdk.Natives.Strings.{units_equal, equals, one_byte_string_equal, two_byte_string_equal}
use dartino_sdk.Natives.Strings.Concat.{contents, IsString}

cons_equal :
    (x y : ℕ) (rest : Bool) → (if x == y then rest else false) ≡ true → (x ≡ y) × (rest ≡ true)
cons_equal x y rest e = ground arith

units_equal_lem : (xs ys : List ℕ) → length xs ≡ length ys → units_equal xs ys ≡ true → xs ≡ ys
unfolding units_equal
units_equal_lem [] [] h e = refl
units_equal_lem [] (y ∷ ys) h e = absurd (omega (arith, h))
units_equal_lem (x ∷ xs) [] h e = absurd (omega (arith, h))
units_equal_lem (x ∷ xs) (y ∷ ys) h e =
    let (same, rest) = cons_equal x y (units_equal xs ys) e in
    ap₂ ◌∷◌ same (units_equal_lem xs ys (omega (arith, h)) rest)

units_equal_self : (xs : List ℕ) → units_equal xs xs ≡ true
unfolding units_equal
units_equal_self [] = refl
units_equal_self (x ∷ xs) = rw (units_equal_self xs) (ground arith)

guarded :
    (m n : ℕ) (loop : Bool) → (if m == n then loop else false) ≡ true → (m ≡ n) × (loop ≡ true)
guarded m n loop e = ground arith

equals_iff : (xs ys : List ℕ) → (equals xs ys ≡ true) ↔ (xs ≡ ys)
unfolding equals
equals_iff xs ys = (
  λ e.
      let (size, loop) = guarded (length xs) (length ys) (units_equal xs ys) e in
      units_equal_lem xs ys size loop,
  λ e. subst (λ ys. equals xs ys ≡ true) e (rw (units_equal_self xs) (ground arith)),
)

-- The answer of a comparison: whether the code units are the same.
abbrev pub Compares : Option Result → List ℕ → List ℕ → Type 0
Compares r xs ys = (b : Bool) × (r ≡ some (to_bool b)) × ((b ≡ true) ↔ (xs ≡ ys))

-- OneByteStringEqual and TwoByteStringEqual with any string answer true just if the code units
-- are the same, whatever the widths of the two strings.
pub string_equal_lem :
    (xs : List ℕ) (y : Object)
    → IsString y
    → Compares (one_byte_string_equal (Object.one_byte_string xs) y) xs (contents y)
      × Compares (two_byte_string_equal (Object.two_byte_string xs) y) xs (contents y)
unfolding one_byte_string_equal two_byte_string_equal
string_equal_lem xs _ (IsString.one_byte ys) =
    let (to, from) = equals_iff ys xs in
    (
      (equals xs ys, refl, equals_iff xs ys),
      (equals ys xs, refl, (λ e. sym (to e), λ e. from (sym e))),
    )
string_equal_lem xs _ (IsString.two_byte ys) =
    ((equals xs ys, refl, equals_iff xs ys), (equals xs ys, refl, equals_iff xs ys))
