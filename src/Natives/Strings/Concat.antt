-- ===== src/Natives/Strings/Concat.antt =====
-- The natives that join two strings.
use dartino_sdk.Base.{
  ℕ, ◌+◌, ◌^◌, ◌<◌, ◌≡◌, refl, sym, ap, ◌∙◌, true, Option, some, List, [], ◌∷◌, ◌++◌, length, arith,
  ltb, ◌==◌, if◌then◌else◌, append-nil, Bool-cases, inl, inr,
}
use dartino_sdk.Int.{ℤ, pos}
use dartino_sdk.Natives.{Object, Result}
use dartino_sdk.Natives.Strings.{
  fill_from, fill_from_one_byte, one_byte_string_add, two_byte_string_add, new_string, and_then,
  one_byte_units, two_byte_units,
}
use dartino_sdk.Natives.Strings.Fill.{fill_both, fill_from_one_byte_lem}

-- The code units of a string.
abbrev pub contents : Object → List ℕ
contents (Object.one_byte_string xs) = xs
contents (Object.two_byte_string xs) = xs
contents _ = []

pub data IsString : Object → Type 0 where
  one_byte : (xs : List ℕ) → IsString (Object.one_byte_string xs)
  two_byte : (xs : List ℕ) → IsString (Object.two_byte_string xs)

-- A result that is a string with the given code units.
abbrev pub Gives : Option Result → List ℕ → Type 0
Gives r units = (s : Object) × (r ≡ some (Result.value s)) × IsString s × (contents s ≡ units)

empty : (xs : List ℕ) → (length xs == 0) ≡ true → xs ≡ []
empty [] h = refl
empty (x ∷ xs) h = absurd (ground arith)

module _ (memory : ℕ → List ℕ) (sized : (n : ℕ) → length (memory n) ≡ n) where
  module _ (first second : List ℕ → List ℕ → ℤ → Option (List ℕ))
      (as_first : (t x : List ℕ) (n : ℤ) → first t x n ≡ fill_from t x n)
      (as_second : (t x : List ℕ) (n : ℤ) → second t x n ≡ fill_from t x n) (f : List ℕ → Object)
      (units : ℕ) where
    filled :
        (xs ys : List ℕ)
        → length xs + length ys < units
        → (new_string units true memory (length xs + length ys) λ r.
            and_then
              (first r xs (pos 0))
              λ r. and_then (second r ys (pos (length xs))) λ r. some (Result.value (f r)))
          ≡ some (Result.value (f (xs ++ ys)))
    filled xs ys h =
        let n = length xs + length ys in
        let (r, e, e') = fill_both (memory n) xs ys (sized n) in
        let small : ltb n units ≡ true = ground (arith, h) in
        rw (small, as_first (memory n) xs (pos 0), e, as_second r ys (pos (length xs)), e') refl

  plain : (t x : List ℕ) (n : ℤ) → fill_from t x n ≡ fill_from t x n
  plain t x n = refl

  -- The answer to an addition that tests both lengths for 0 first.
  module _ (x y : Object) (xs ys : List ℕ) (f : List ℕ → Object) (r : Option Result)
      (made : r ≡ some (Result.value (f (xs ++ ys)))) (string_x : IsString x)
      (string_y : IsString y) (units_x : contents x ≡ xs) (units_y : contents y ≡ ys)
      (string : (units : List ℕ) → IsString (f units) × (contents (f units) ≡ units)) where
    tested :
        Gives
          (if length xs == 0
            then some (Result.value y)
            else if length ys == 0
            then some (Result.value x)
            else r)
          (xs ++ ys)
    tested = elim (Bool-cases (length xs == 0)) [
      | inl e ↦ (y, rw e refl, string_y, units_y ∙ ap (λ xs. xs ++ ys) (sym (empty xs e)))
      | inr e ↦ elim (Bool-cases (length ys == 0)) [
        | inl e' ↦ (
          x,
          rw (e, e') refl,
          string_x,
          units_x ∙ sym (append-nil xs) ∙ ap (λ ys. xs ++ ys) (sym (empty ys e')),
        )
        | inr e' ↦ (f (xs ++ ys), rw (e, e') made, (string (xs ++ ys)).0, (string (xs ++ ys)).1)
      ]
    ]

  pub one_byte_string_add_lem :
      (xs : List ℕ) (y : Object)
      → IsString y
      → length xs + length (contents y) < 2 ^ 30
      → Gives (one_byte_string_add true memory (Object.one_byte_string xs) y) (xs ++ contents y)
  unfolding one_byte_string_add
  one_byte_string_add_lem xs _ (IsString.one_byte ys) h =
      let fits : length xs + length ys < one_byte_units = omega (arith, h) in
      tested (Object.one_byte_string xs) (Object.one_byte_string ys) xs ys Object.one_byte_string _
        (filled fill_from fill_from plain plain Object.one_byte_string one_byte_units xs ys fits)
        (IsString.one_byte xs) (IsString.one_byte ys) refl refl
        (λ units. (IsString.one_byte units, refl))
  one_byte_string_add_lem xs _ (IsString.two_byte ys) h =
      let fits : length xs + length ys < two_byte_units = omega (arith, h) in
      tested (Object.one_byte_string xs) (Object.two_byte_string ys) xs ys Object.two_byte_string _
        (filled fill_from_one_byte fill_from fill_from_one_byte_lem plain Object.two_byte_string
          two_byte_units xs ys fits)
        (IsString.one_byte xs) (IsString.two_byte ys) refl refl
        (λ units. (IsString.two_byte units, refl))

  pub two_byte_string_add_lem :
      (xs : List ℕ) (y : Object)
      → IsString y
      → length xs + length (contents y) < 2 ^ 30
      → Gives (two_byte_string_add true memory (Object.two_byte_string xs) y) (xs ++ contents y)
  unfolding two_byte_string_add
  two_byte_string_add_lem xs _ (IsString.one_byte ys) h =
      let fits : length xs + length ys < two_byte_units = omega (arith, h) in
      tested (Object.two_byte_string xs) (Object.one_byte_string ys) xs ys Object.two_byte_string _
        (filled fill_from fill_from_one_byte plain fill_from_one_byte_lem Object.two_byte_string
          two_byte_units xs ys fits)
        (IsString.two_byte xs) (IsString.one_byte ys) refl refl
        (λ units. (IsString.two_byte units, refl))
  two_byte_string_add_lem xs _ (IsString.two_byte ys) h =
      let fits : length xs + length ys < two_byte_units = omega (arith, h) in
      tested (Object.two_byte_string xs) (Object.two_byte_string ys) xs ys Object.two_byte_string _
        (filled fill_from fill_from plain plain Object.two_byte_string two_byte_units xs ys fits)
        (IsString.two_byte xs) (IsString.two_byte ys) refl refl
        (λ units. (IsString.two_byte units, refl))
