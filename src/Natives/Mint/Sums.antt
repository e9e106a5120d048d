-- ===== src/Natives/Mint/Sums.antt =====
-- MintAdd, MintSub and MintNegate are exact or refuse.
use dartino_sdk.Base.{
  ◌≡◌, refl, Bool, true, not, ◌||◌, Option, some, arith, if◌then◌else◌, Bool-cases, inl, inr,
}
use dartino_sdk.Int.{differ, ℤ, pos, negsuc, ◌+ℤ◌, ◌-ℤ◌, in_word, wrap, InWord, is_negative}
use dartino_sdk.Natives.{Object, Failure, Result, to_integer}
use dartino_sdk.Natives.Mint.{mint_add, mint_sub}

-- An exact result if it is a word, and otherwise the failure.
abbrev pub WordOr : Bool → Failure → ℤ → Option Result → Type 0
WordOr room f v r = r ≡ some (if in_word v then to_integer room v else Result.failure f)

abbrev sum_test : ℤ → ℤ → ℤ → Bool
sum_test x y result =
    differ (is_negative x) (is_negative y) || not (differ (is_negative result) (is_negative x))

abbrev difference_test : ℤ → ℤ → ℤ → Bool
difference_test x y result =
    not (differ (is_negative x) (is_negative y))
    || not (differ (is_negative result) (is_negative x))

-- A word wraps to itself.
pub wrap_self : (v : ℤ) → in_word v ≡ true → wrap v ≡ v
wrap_self (pos n) h = ground arith
wrap_self (negsuc n) h = ground arith

sum_test_lem : (x y : ℤ) → InWord x → InWord y → sum_test x y (wrap (x +ℤ y)) ≡ in_word (x +ℤ y)
unfolding ◌+ℤ◌
sum_test_lem (pos x) (pos y) h k = ground arith
sum_test_lem (pos x) (negsuc y) h k = ground arith
sum_test_lem (negsuc x) (pos y) h k = ground arith
sum_test_lem (negsuc x) (negsuc y) h k = ground arith

difference_test_lem :
    (x y : ℤ) → InWord x → InWord y → difference_test x y (wrap (x -ℤ y)) ≡ in_word (x -ℤ y)
unfolding ◌-ℤ◌
difference_test_lem (pos x) (pos y) h k = ground arith
difference_test_lem (pos x) (negsuc y) h k = ground arith
difference_test_lem (negsuc x) (pos y) h k = ground arith
difference_test_lem (negsuc x) (negsuc y) h k = ground arith

-- Where the test is that of the range, a wrapped result is exact.
tested-WordOr :
    (room : Bool) (f : Failure) (v : ℤ) (test : Bool)
    → test ≡ in_word v
    → WordOr room f v (some (if test then to_integer room (wrap v) else Result.failure f))
tested-WordOr room f v test e = elim (Bool-cases (in_word v)) [
  | inl yes_word ↦ rw (e, yes_word, wrap_self v yes_word) refl
  | inr no_word ↦ rw (e, no_word) refl
]

pub mint_add_lem :
    (room : Bool) (x y : ℤ)
    → InWord x
    → InWord y
    → WordOr room Failure.index_out_of_bounds
        (x +ℤ y)
        (mint_add room (Object.large_integer x) (Object.large_integer y))
unfolding mint_add
mint_add_lem room x y h k = tested-WordOr room _ (x +ℤ y) _ (sum_test_lem x y h k)

pub mint_sub_lem :
    (room : Bool) (x y : ℤ)
    → InWord x
    → InWord y
    → WordOr room Failure.index_out_of_bounds
        (x -ℤ y)
        (mint_sub room (Object.large_integer x) (Object.large_integer y))
unfolding mint_sub
mint_sub_lem room x y h k = tested-WordOr room _ (x -ℤ y) _ (difference_test_lem x y h k)

-- MintAdd and MintSub of two words give the exact result, as a Smi where it is one, if the
-- result is a word, and index_out_of_bounds if it is not.
pub mint_sums_lem :
    (room : Bool) (x y : ℤ)
    → InWord x
    → InWord y
    → WordOr room Failure.index_out_of_bounds
        (x +ℤ y)
        (mint_add room (Object.large_integer x) (Object.large_integer y))
      × WordOr room Failure.index_out_of_bounds
          (x -ℤ y)
          (mint_sub room (Object.large_integer x) (Object.large_integer y))
mint_sums_lem room x y h k = (mint_add_lem room x y h k, mint_sub_lem room x y h k)
