-- ===== src/Natives/Strings.antt =====
-- src/vm/natives.cc, with src/vm/object.cc: the natives of strings, which stand for their code units.
-- The memory of a new string that is not cleared is a parameter. `none` stands for an access outside
-- of a string, too, and for an int that overflows.
pub mod Fill
pub mod Concat
pub mod Parts
pub mod Equal
use dartino_sdk.Base.{
  ℕ, zero, suc, ◌+◌, ◌-◌, ◌%◌, ◌^◌, Bool, true, false, ◌||◌, Option, none, some, List, [], ◌∷◌,
  ◌++◌, length, get_elem?, set, take, drop, replicate, ltb, leb, ◌==◌, if◌then◌else◌,
}
use dartino_sdk.Int.{ℤ, pos, negsuc, to_int32}
use dartino_sdk.Natives.{Object, Failure, Result, as_smi, need_smi, to_bool, to_integer}

abbrev pub as_one_byte_string : Object → (List ℕ → Option Result) → Option Result
as_one_byte_string (Object.one_byte_string xs) f = f xs
as_one_byte_string _ f = none

abbrev pub as_two_byte_string : Object → (List ℕ → Option Result) → Option Result
as_two_byte_string (Object.two_byte_string xs) f = f xs
as_two_byte_string _ f = none

abbrev pub and_then {ℓ ℓ'} : {A : Type ℓ} {B : Type ℓ'} → Option A → (A → Option B) → Option B
and_then none f = none
and_then (some a) f = f a

pub string_length : Object → Option Result
string_length (Object.one_byte_string xs) = some (Result.value (Object.smi (pos (length xs))))
string_length (Object.two_byte_string xs) = some (Result.value (Object.smi (pos (length xs))))
string_length _ = none

-- FillFrom by memcpy, behind its ASSERT.
pub fill_from : List ℕ → List ℕ → ℤ → Option (List ℕ)
fill_from target xs (pos n) =
    if leb (n + length xs) (length target)
    then some (take n target ++ (xs ++ drop (n + length xs) target))
    else none
fill_from target xs (negsuc n) = none

-- The loop of TwoByteString::FillFrom(OneByteString*, int).
pub fill_units : List ℕ → List ℕ → ℕ → List ℕ
fill_units target [] n = target
fill_units target (u ∷ us) n = fill_units (set target n u) us (n + 1)

pub fill_from_one_byte : List ℕ → List ℕ → ℤ → Option (List ℕ)
fill_from_one_byte target xs (pos n) =
    if leb (n + length xs) (length target) then some (fill_units target xs n) else none
fill_from_one_byte target xs (negsuc n) = none

-- The loops of Equals, which stop at the first difference. Where both are one object, the answer is the same.
pub units_equal : List ℕ → List ℕ → Bool
units_equal [] ys = true
units_equal (x ∷ xs) [] = false
units_equal (x ∷ xs) (y ∷ ys) = let rest = units_equal xs ys in if x == y then rest else false

pub equals : List ℕ → List ℕ → Bool
equals xs ys = let loop = units_equal xs ys in if length xs == length ys then loop else false

-- The code units that an `int` counts the bytes of: an offset of a two-byte string is doubled. Where the
-- int overflows, the model stops.
abbrev pub one_byte_units : ℕ
one_byte_units = 2 ^ 31

abbrev pub two_byte_units : ℕ
two_byte_units = 2 ^ 30

-- `int length = xlen + ylen`, a new string of that length, and `raw_result->IsFailure()`.
abbrev pub new_string : ℕ → Bool → (ℕ → List ℕ) → ℕ → (List ℕ → Option Result) → Option Result
new_string units room memory n f =
    if ltb n units
    then (if room then f (memory n) else some (Result.failure Failure.retry_after_gc))
    else none

-- NewOneByteString and NewTwoByteString clear the string; no length is below 0.
abbrev pub new_cleared : Bool → (List ℕ → Object) → ℤ → Option Result
new_cleared room string (pos n) =
    some (
      if room then Result.value (string (replicate n 0)) else Result.failure Failure.retry_after_gc)
new_cleared room string (negsuc n) = none

-- `word index`, behind the tests of its bounds.
abbrev pub code_unit_at : ℕ → Bool → List ℕ → ℤ → Option Result
code_unit_at units room xs (pos n) = elim (get_elem? xs n) [
  | none ↦ some (Result.failure Failure.index_out_of_bounds)
  | some u ↦ if ltb n units then some (to_integer room (pos u)) else none
]
code_unit_at units room xs (negsuc n) = some (Result.failure Failure.index_out_of_bounds)

-- A write at an `int` index, with no test of the upper bound.
abbrev pub set_unit : ℕ → List ℕ → ℤ → ℕ → Option (List ℕ)
set_unit units xs (pos n) u =
    if ltb n (length xs) then (if ltb n units then some (set xs n u) else none) else none
set_unit units xs (negsuc n) u = none

-- Both set_code_unit_at natives, by the width that the unit is cut to. The string that they leave stands first.
abbrev pub set_code_unit : ℕ → ℕ → List ℕ → Object → Object → Option (List ℕ × Result)
set_code_unit units width xs (Object.smi (pos index)) (Object.smi (pos value)) =
    if ltb 65535 value
    then some (xs, Result.failure Failure.wrong_argument_type)
    else (and_then (set_unit units xs (to_int32 (pos index)) (value % 2 ^ width))
        λ xs. some (xs, Result.value Object.null_object))
set_code_unit units width xs (Object.smi (negsuc index)) z =
    some (xs, Result.failure Failure.index_out_of_bounds)
set_code_unit units width xs (Object.smi (pos index)) _ =
    some (xs, Result.failure Failure.wrong_argument_type)
set_code_unit units width xs _ z = some (xs, Result.failure Failure.wrong_argument_type)

-- `memcpy(result, x + start, n)`.
abbrev pub copy_units : List ℕ → List ℕ → ℕ → ℕ → List ℕ
copy_units result xs start n = take n (drop start xs) ++ drop n result

-- The tests of both substring natives, and the copy.
abbrev pub substring_of :
    ℕ → Bool → (ℕ → List ℕ) → (List ℕ → Object) → List ℕ → ℤ → ℤ → Option Result
substring_of units room memory string xs (pos start) (pos end) =
    if ltb end start || ltb (length xs) end
    then some (Result.failure Failure.index_out_of_bounds)
    else if start == 0
    then (if end == length xs then some (Result.value (string xs)) else copied)
    else copied
  where
    copied : Option Result
    copied =
        if ltb start units
        then (new_string units room memory (end - start)
            λ r. some (Result.value (string (copy_units r xs start (end - start)))))
        else none
substring_of units room memory string xs _ _ = some (Result.failure Failure.index_out_of_bounds)

module _ (room : Bool) (memory : ℕ → List ℕ) where
  pub one_byte_string_add : Object → Object → Option Result
  one_byte_string_add x other = as_one_byte_string x λ xs. elim other [
    | Object.one_byte_string ys ↦
        if length xs == 0
        then some (Result.value (Object.one_byte_string ys))
        else if length ys == 0
        then some (Result.value x)
        else (new_string one_byte_units room memory (length xs + length ys) λ r.
            and_then (fill_from r xs (pos 0)) λ r.
              and_then (fill_from r ys (pos (length xs)))
                λ r. some (Result.value (Object.one_byte_string r)))
    | Object.two_byte_string ys ↦
        if length xs == 0
        then some (Result.value (Object.two_byte_string ys))
        else if length ys == 0
        then some (Result.value x)
        else (new_string two_byte_units room memory (length xs + length ys) λ r.
            and_then (fill_from_one_byte r xs (pos 0)) λ r.
              and_then (fill_from r ys (pos (length xs)))
                λ r. some (Result.value (Object.two_byte_string r)))
    | _ ↦ some (Result.failure Failure.wrong_argument_type)
  ]

  pub two_byte_string_add : Object → Object → Option Result
  two_byte_string_add x other = as_two_byte_string x λ xs. elim other [
    | Object.one_byte_string ys ↦
        if length xs == 0
        then some (Result.value (Object.one_byte_string ys))
        else if length ys == 0
        then some (Result.value x)
        else (new_string two_byte_units room memory (length xs + length ys) λ r.
            and_then (fill_from r xs (pos 0)) λ r.
              and_then (fill_from_one_byte r ys (pos (length xs)))
                λ r. some (Result.value (Object.two_byte_string r)))
    | Object.two_byte_string ys ↦
        if length xs == 0
        then some (Result.value (Object.two_byte_string ys))
        else if length ys == 0
        then some (Result.value x)
        else (new_string two_byte_units room memory (length xs + length ys) λ r.
            and_then (fill_from r xs (pos 0)) λ r.
              and_then (fill_from r ys (pos (length xs)))
                λ r. some (Result.value (Object.two_byte_string r)))
    | _ ↦ some (Result.failure Failure.wrong_argument_type)
  ]

  pub one_byte_string_substring : Object → Object → Object → Option Result
  one_byte_string_substring x y z = as_one_byte_string x λ xs. need_smi y λ start.
      need_smi z λ end. substring_of one_byte_units room memory Object.one_byte_string xs start end

  pub two_byte_string_substring : Object → Object → Object → Option Result
  two_byte_string_substring x y z = as_two_byte_string x λ xs. need_smi y λ start.
      need_smi z λ end. substring_of two_byte_units room memory Object.two_byte_string xs start end

pub one_byte_string_code_unit_at : Bool → Object → Object → Option Result
one_byte_string_code_unit_at room x y =
    as_one_byte_string x λ xs. need_smi y λ index. code_unit_at one_byte_units room xs index

pub one_byte_string_create : Bool → Object → Option Result
one_byte_string_create room z = need_smi z λ length. elim length [
  | pos n ↦ new_cleared room Object.one_byte_string (to_int32 (pos n))
  | negsuc n ↦ some (Result.failure Failure.index_out_of_bounds)
]

pub one_byte_string_equal : Object → Object → Option Result
one_byte_string_equal x y = as_one_byte_string x λ xs. elim y [
  | Object.one_byte_string ys ↦ some (to_bool (equals xs ys))
  | Object.two_byte_string ys ↦ some (to_bool (equals xs ys))
  | _ ↦ some (Result.value Object.false_object)
]

pub one_byte_string_set_code_unit_at : List ℕ → Object → Object → Option (List ℕ × Result)
one_byte_string_set_code_unit_at xs y z = set_code_unit one_byte_units 8 xs y z

pub two_byte_string_code_unit_at : Bool → Object → Object → Option Result
two_byte_string_code_unit_at room x y =
    as_two_byte_string x λ xs. need_smi y λ index. code_unit_at two_byte_units room xs index

pub two_byte_string_create : Bool → Object → Option Result
two_byte_string_create room z = need_smi z λ length. elim length [
  | pos n ↦ new_cleared room Object.two_byte_string (to_int32 (pos n))
  | negsuc n ↦ some (Result.failure Failure.index_out_of_bounds)
]

pub two_byte_string_equal : Object → Object → Option Result
two_byte_string_equal x y = as_two_byte_string x λ xs. elim y [
  | Object.one_byte_string ys ↦ some (to_bool (equals ys xs))
  | Object.two_byte_string ys ↦ some (to_bool (equals xs ys))
  | _ ↦ some (Result.value Object.false_object)
]

pub two_byte_string_set_code_unit_at : List ℕ → Object → Object → Option (List ℕ × Result)
two_byte_string_set_code_unit_at xs y z = set_code_unit two_byte_units 16 xs y z

pub one_byte_string_set_content : List ℕ → Object → Object → Option (List ℕ × Result)
one_byte_string_set_content xs y other = as_smi y λ offset. elim other [
  | Object.one_byte_string ys ↦
      and_then (fill_from xs ys (to_int32 offset)) λ r. some (r, Result.value Object.null_object)
  | _ ↦ some (xs, Result.failure Failure.wrong_argument_type)
]

pub two_byte_string_set_content : List ℕ → Object → Object → Option (List ℕ × Result)
two_byte_string_set_content xs y other = as_smi y λ offset. elim other [
  | Object.one_byte_string ys ↦
      and_then (fill_from_one_byte xs ys (to_int32 offset))
        λ r. some (r, Result.value Object.null_object)
  | Object.two_byte_string ys ↦
      and_then (fill_from xs ys (to_int32 offset)) λ r. some (r, Result.value Object.null_object)
  | _ ↦ some (xs, Result.failure Failure.wrong_argument_type)
]
