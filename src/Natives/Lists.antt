-- ===== src/Natives/Lists.antt =====
-- src/vm/natives.cc: the natives of lists, on the array that the list's first field refers to. An
-- array stands for its elements, and a failure for itself.
use dartino_sdk.Base.{
  ℕ, ◌<◌, ◌^◌, ◌+◌, ◌≡◌, ◌⊎◌, inl, inr, refl, sym, ap, ◌∙◌, Bool, true, false, Option, none, some,
  List, length, get_elem?, set, replicate, arith, ltb, ◌==◌, ◌≤◌, suc, zero, [], ◌∷◌, if◌then◌else◌,
}
use dartino_sdk.Int.{ℤ, pos, negsuc, to_int32}
use dartino_sdk.Natives.{Object, Failure, Result, need_smi}

-- The array of a new list, or the failure.
pub list_new : Bool → Object → Option (List Object ⊎ Failure)
list_new room (Object.smi x) = elim (to_int32 x) [
  | pos n ↦ some (if room then inl (replicate n Object.null_object) else inr Failure.retry_after_gc)
  | negsuc n ↦ some (inr Failure.index_out_of_bounds)
]
list_new room _ = some (inr Failure.wrong_argument_type)

pub list_length : List Object → Result
list_length array = Result.value (Object.smi (pos (length array)))

-- An element in range, or the failure.
abbrev pub element {ℓ} : {A : Type ℓ} → List A → ℤ → (A → Object) → Result
element array (pos n) f = elim (get_elem? array n) [
  | none ↦ Result.failure Failure.index_out_of_bounds
  | some a ↦ Result.value (f a)
]
element array (negsuc n) f = Result.failure Failure.index_out_of_bounds

-- Array::get and Array::set behind the tests of the bounds: `index * kPointerSize` is an int, which
-- overflows from index 2^28 on, where the model stops.
abbrev pub is_reached : ℕ → Bool
is_reached n = ltb n (2 ^ 28)

abbrev pub array_get : List Object → ℤ → Option Result
array_get array (pos n) = elim (get_elem? array n) [
  | none ↦ some (Result.failure Failure.index_out_of_bounds)
  | some a ↦ if is_reached n then some (Result.value a) else none
]
array_get array (negsuc n) = some (Result.failure Failure.index_out_of_bounds)

-- `int index = Smi::cast(x)->value()` keeps 32 bits.
pub list_index_get : List Object → Object → Option Result
list_index_get array x = need_smi x λ x. array_get array (to_int32 x)

pub byte_list_index_get : List ℕ → Object → Option Result
byte_list_index_get array x =
    need_smi x λ x. some (element array (to_int32 x) (λ a. Object.smi (pos a)))

-- IsHeapObject.
abbrev pub is_heap_object : Object → Bool
is_heap_object (Object.smi x) = false
is_heap_object _ = true

-- The elements, and whether RecordStore put the array into the remembered set.
abbrev pub set_element : List Object → Object → ℤ → Option (List Object × Bool × Result)
set_element array value (pos n) =
    if ltb n (length array)
    then (if is_reached n
        then some (set array n value, is_heap_object value, Result.value value)
        else none)
    else some (array, false, Result.failure Failure.index_out_of_bounds)
set_element array value (negsuc n) = some (array, false, Result.failure Failure.index_out_of_bounds)

pub list_index_set : List Object → Object → Object → Option (List Object × Bool × Result)
list_index_set array (Object.smi x) value = set_element array value (to_int32 x)
list_index_set array _ value = some (array, false, Result.failure Failure.wrong_argument_type)

-- The 32 lowest bits alone count.
low_bits : (n : ℕ) → to_int32 (pos (n + 2 ^ 32)) ≡ to_int32 (pos n)
low_bits n = ground arith

in_int : (n : ℕ) → n < 2 ^ 31 → to_int32 (pos n) ≡ pos n
in_int n h = ground arith

get_elem?-set :
    {A : Type 0} (xs : List A) (n m : ℕ) (v : A)
    → n < length xs
    → get_elem? (set xs n v) m ≡ (if m == n then some v else get_elem? xs m)
get_elem?-set [] n m v h = absurd (omega arith)
get_elem?-set (x ∷ xs) zero zero v h = refl
get_elem?-set (x ∷ xs) zero (suc m) v h = ground arith
get_elem?-set (x ∷ xs) (suc n) zero v h = ground arith
get_elem?-set (x ∷ xs) (suc n) (suc m) v h =
    get_elem?-set xs n m v (omega (arith, h)) ∙ ground arith

found : ℕ → Option Object → Option Result
found m none = some (Result.failure Failure.index_out_of_bounds)
found m (some a) = if is_reached m then some (Result.value a) else none

array_get-found : (xs : List Object) (m : ℕ) → array_get xs (pos m) ≡ found m (get_elem? xs m)
unfolding found
array_get-found xs m = go (get_elem? xs m)
  where
    go :
        (e : Option Object)
        → (elim e [
          | none ↦ some (Result.failure Failure.index_out_of_bounds)
          | some a ↦ if is_reached m then some (Result.value a) else none
        ])
          ≡ found m e
    go none = refl
    go (some a) = refl

found_if :
    (m : ℕ) (b : Bool) (v : Object) (e : Option Object)
    → (b ≡ true → is_reached m ≡ true)
    → found m (if b then some v else e) ≡ (if b then some (Result.value v) else found m e)
unfolding found
found_if m true v e near = rw (near refl) refl
found_if m false v e near = refl

array_get-set :
    (array : List Object) (n m : ℕ) (v : Object)
    → n < length array
    → n < 2 ^ 28
    → array_get (set array n v) (pos m)
      ≡ (if m == n then some (Result.value v) else array_get array (pos m))
array_get-set array n m v h low =
    array_get-found (set array n v) m
    ∙ ap (found m) (get_elem?-set array n m v h)
    ∙ found_if m (m == n) v (get_elem? array m) (λ e. ground (arith, low, e))
    ∙ ap (λ r. if m == n then some (Result.value v) else r) (sym (array_get-found array m))

-- ListIndexSet at an index inside a list of at most 2^28 elements answers with the value, and
-- ListIndexGet at an index below 2^31 then gives that value there and the same as before
-- elsewhere. ListIndexGet at an index that is 2^32 larger gives the same: the index is cut to
-- 32 bits.
pub list_index_lem :
    (array : List Object) (n m : ℕ) (v : Object)
    → n < length array
    → length array ≤ 2 ^ 28
    → m < 2 ^ 31
    → ((array' : List Object) × (stored : Bool) × (list_index_set array (Object.smi (pos n)) v
          ≡ some (array', stored, Result.value v))
        × (list_index_get array' (Object.smi (pos m)) ≡ (
            if m == n then some (Result.value v) else list_index_get array (Object.smi (pos m)))))
      × (list_index_get array (Object.smi (pos (m + 2 ^ 32)))
          ≡ list_index_get array (Object.smi (pos m)))
unfolding list_index_get list_index_set
list_index_lem array n m v h short small =
    let fits = in_int n (omega (arith, h, short)) in
    let inside : ltb n (length array) ≡ true = ground (arith, h) in
    let near : is_reached n ≡ true = ground (arith, h, short) in
    (
      (
        set array n v,
        is_heap_object v,
        ap (set_element array v) fits ∙ rw (inside, near) refl,
        ap (array_get (set array n v)) (in_int m small)
            ∙ array_get-set array n m v h (omega (arith, h, short))
            ∙ ap (λ r. if m == n then some (Result.value v) else r)
                (ap (array_get array) (sym (in_int m small))),
      ),
      ap (array_get array) (low_bits m),
    )
