-- ===== src/Natives/Tests.antt =====
-- The natives at concrete inputs.
use dartino_sdk.Base.{
  ℕ, ◌+◌, ◌-◌, ◌*◌, ◌^◌, ◌≤◌, ◌<◌, ◌≡◌, ◌⊎◌, refl, subst, ap, Bool, true, false, none, some, List,
  [], ◌∷◌, replicate, length-replicate, arith, max, ltb, ◌==◌, if◌then◌else◌, ◌&&◌,
}
use dartino_sdk.Int.{ℤ, pos, negsuc, abs, ◌+ℤ◌, ◌-ℤ◌, ◌*ℤ◌, InWord}
use dartino_sdk.Natives.{Object, Failure, Result, is_valid}
use dartino_sdk.Natives.Names.{ArithmeticNative}
use dartino_sdk.Natives.Ranges.{ValidResult}
use dartino_sdk.Natives.Smi.{
  smi_add, smi_sub, smi_negate, smi_mul, smi_mod, smi_trunc_div, smi_bit_shl,
}
use dartino_sdk.Natives.Smi.Sums.{ExactOr, smi_sums_lem}
use dartino_sdk.Natives.Smi.Products.{smi_mul_lem, smi_division_lem}
use dartino_sdk.Natives.Smi.Shifts.{smi_bit_shl_lem}
use dartino_sdk.Natives.Mint.{mint_add, mint_sub}
use dartino_sdk.Natives.Mint.Sums.{WordOr, mint_sums_lem}
use dartino_sdk.Natives.Doubles.{Floats}
use dartino_sdk.Natives.Table.{call}
use dartino_sdk.Natives.Table.Total.{suits, call_lem}
use dartino_sdk.Natives.Lists.{list_index_get, list_index_set, list_index_lem}
use dartino_sdk.Natives.Strings.{
  one_byte_string_equal, two_byte_string_equal, one_byte_string_add, one_byte_string_substring,
  two_byte_string_add, two_byte_string_substring,
}
use dartino_sdk.Natives.Strings.Concat.{IsString, Gives}
use dartino_sdk.Natives.Strings.Parts.{string_parts_lem}
use dartino_sdk.Natives.Strings.Equal.{Compares, string_equal_lem}

abbrev largest : ℤ
largest = pos (2 ^ 62 - 1)

smi_sums_lem_example :
    ExactOr Failure.wrong_argument_type
      (largest +ℤ pos 1)
      (smi_add (Object.smi largest) (Object.smi (pos 1)))
    × ExactOr Failure.wrong_argument_type
        (largest -ℤ pos 1)
        (smi_sub (Object.smi largest) (Object.smi (pos 1)))
    × ExactOr Failure.index_out_of_bounds (pos 0 -ℤ largest) (smi_negate (Object.smi largest))
smi_sums_lem_example = smi_sums_lem largest (pos 1) refl refl

smi_mul_lem_example :
    ((is_valid (pos 6 *ℤ negsuc 6) ≡ true)
      × (smi_mul (Object.smi (pos 6)) (Object.smi (negsuc 6))
          ≡ some (Result.value (Object.smi (pos 6 *ℤ negsuc 6)))))
    ⊎ ((2 ^ 62 ≤ max 1 (2 * abs (pos 6)) * max 1 (abs (negsuc 6)))
        × (smi_mul (Object.smi (pos 6)) (Object.smi (negsuc 6))
            ≡ some (Result.failure Failure.wrong_argument_type)))
smi_mul_lem_example = smi_mul_lem (pos 6) (negsuc 6) refl refl

smi_division_lem_example :
    ((r : ℕ) × (smi_mod (Object.smi (negsuc 6)) (Object.smi (pos 3))
        ≡ some (Result.value (Object.smi (pos r))))
      × (r < 3)
      × (q : ℤ) × (pos 3 *ℤ q +ℤ pos r ≡ negsuc 6))
    × ((q : ℤ) × ExactOr Failure.wrong_argument_type q
          (smi_trunc_div (Object.smi (negsuc 6)) (Object.smi (pos 3)))
        × (abs (pos 3 *ℤ q) ≤ 7)
        × (abs (negsuc 6 -ℤ pos 3 *ℤ q) < 3))
smi_division_lem_example = smi_division_lem (negsuc 6) (pos 3) refl (omega arith)

smi_bit_shl_lem_example :
    smi_bit_shl (Object.smi (negsuc 2)) (Object.smi (pos 60))
    ≡ some (
        if ltb 60 64 && is_valid (negsuc 2 *ℤ pos (2 ^ 60))
        then Result.value (Object.smi (negsuc 2 *ℤ pos (2 ^ 60)))
        else Result.failure Failure.wrong_argument_type)
smi_bit_shl_lem_example = smi_bit_shl_lem (negsuc 2) 60

mint_sums_lem_example :
    WordOr true Failure.index_out_of_bounds
      (pos (2 ^ 63 - 1) +ℤ pos 1)
      (mint_add true (Object.large_integer (pos (2 ^ 63 - 1))) (Object.large_integer (pos 1)))
    × WordOr true Failure.index_out_of_bounds
        (pos (2 ^ 63 - 1) -ℤ pos 1)
        (mint_sub true (Object.large_integer (pos (2 ^ 63 - 1))) (Object.large_integer (pos 1)))
mint_sums_lem_example = mint_sums_lem true (pos (2 ^ 63 - 1)) (pos 1) (omega arith) (omega arith)

from_small :
    (d : ℕ) (b : Bool) (z : ℤ)
    → b ≡ ltb d 1000
    → (if b then some (pos d) else none) ≡ some z
    → InWord z
from_small d true z h e =
    subst InWord (ap (λ o. elim o [ none ↦ pos 0 | some z ↦ z ]) e) (ground (arith, h))
from_small d false z h e = absurd (cc e)

small_word : (d : ℕ) (z : ℤ) → (if ltb d 1000 then some (pos d) else none) ≡ some z → InWord z
small_word d z e = from_small d (ltb d 1000) z refl e

-- Doubles that hold the numbers below 1000 alone, for the calls of integers.
abbrev small_floats : Floats
small_floats = record {
  of_int64 = λ v. abs v;
  to_int64 = λ d. if ltb d 1000 then some (pos d) else none;
  negate = λ d. d;
  ceil = λ d. d;
  round = λ d. d;
  floor = λ d. d;
  trunc = λ d. d;
  sin = λ d. d;
  cos = λ d. d;
  tan = λ d. d;
  acos = λ d. d;
  asin = λ d. d;
  atan = λ d. d;
  sqrt = λ d. d;
  exp = λ d. d;
  log = λ d. d;
  add = λ d e. d + e;
  sub = λ d e. d - e;
  mul = λ d e. d * e;
  div = λ d e. d;
  fmod = λ d e. d;
  atan2 = λ d e. d;
  pow = λ d e. d;
  eq = λ d e. d == e;
  lt = λ d e. ltb d e;
  le = λ d e. ltb d (e + 1);
  isnan = λ d. false;
  isinf = λ d. false;
  signbit = λ d. false;
  zero_double = 0;
  to_int64_word = small_word;
}

call_lem_example :
    (r : Result) × (call small_floats true ArithmeticNative.mint_add
        (Object.large_integer (pos (2 ^ 62)) ∷ Object.large_integer (pos 5) ∷ [])
      ≡ some r)
    × ValidResult (some r)
unfolding suits
call_lem_example =
    call_lem small_floats true ArithmeticNative.mint_add
      (Object.large_integer (pos (2 ^ 62)) ∷ Object.large_integer (pos 5) ∷ [])
      (omega arith, (omega arith, tt)) refl

abbrev three : List Object
three = Object.null_object ∷ Object.smi (pos 7) ∷ Object.true_object ∷ []

list_index_lem_example :
    ((array : List Object) × (stored : Bool) × (list_index_set three
          (Object.smi (pos 1))
          (Object.smi (pos 9))
        ≡ some (array, stored, Result.value (Object.smi (pos 9))))
      × (list_index_get array (Object.smi (pos 2)) ≡ (
          if 2 == 1
          then some (Result.value (Object.smi (pos 9)))
          else list_index_get three (Object.smi (pos 2)))))
    × (list_index_get three (Object.smi (pos (2 + 2 ^ 32)))
        ≡ list_index_get three (Object.smi (pos 2)))
list_index_lem_example =
    list_index_lem three 1 2 (Object.smi (pos 9)) (omega arith) (omega arith) (omega arith)

abbrev zeros : ℕ → List ℕ
zeros n = replicate n 0

abbrev word : List ℕ
word = 100 ∷ 97 ∷ 114 ∷ 116 ∷ []

string_parts_lem_example :
    ((a : Object) × (b : Object) × (one_byte_string_substring true zeros
          (Object.one_byte_string word)
          (Object.smi (pos 0))
          (Object.smi (pos 3))
        ≡ some (Result.value a))
      × (one_byte_string_substring true zeros
            (Object.one_byte_string word)
            (Object.smi (pos 3))
            (Object.smi (pos 4))
          ≡ some (Result.value b))
      × Gives (one_byte_string_add true zeros a b) word)
    × ((a : Object) × (b : Object) × (two_byte_string_substring true zeros
            (Object.two_byte_string word)
            (Object.smi (pos 0))
            (Object.smi (pos 3))
          ≡ some (Result.value a))
        × (two_byte_string_substring true zeros
              (Object.two_byte_string word)
              (Object.smi (pos 3))
              (Object.smi (pos 4))
            ≡ some (Result.value b))
        × Gives (two_byte_string_add true zeros a b) word)
string_parts_lem_example =
    string_parts_lem zeros (λ n. length-replicate n 0) word (omega arith) 3 (omega arith)

string_equal_lem_example :
    Compares
      (one_byte_string_equal (Object.one_byte_string word) (Object.two_byte_string word))
      word
      word
    × Compares
        (two_byte_string_equal (Object.two_byte_string word) (Object.two_byte_string word))
        word
        word
string_equal_lem_example =
    string_equal_lem word (Object.two_byte_string word) (IsString.two_byte word)
