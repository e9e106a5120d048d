-- ===== src/Natives/Strings/Parts.antt =====
-- The natives that take a part of a string.
use dartino_sdk.Base.{
  ℕ, ◌+◌, ◌-◌, ◌^◌, ◌≤◌, ◌<◌, ◌≡◌, sym, ap, ◌∙◌, true, false, ◌||◌, some, List, ◌++◌, length, take,
  drop, arith, ltb, ◌==◌, append-nil, Bool-cases, inl, inr, length-append, length-drop, take-drop,
  take_all, drop_all,
}
use dartino_sdk.Int.{pos}
use dartino_sdk.Natives.{Object, Result}
use dartino_sdk.Natives.Strings.{
  one_byte_string_add, one_byte_string_substring, two_byte_string_add, two_byte_string_substring,
  substring_of, new_string, copy_units, one_byte_units, two_byte_units,
}
use dartino_sdk.Natives.Strings.Concat.{
  Gives, IsString, one_byte_string_add_lem, two_byte_string_add_lem,
}

-- The code units from `start` up to `end`.
abbrev pub part : List ℕ → ℕ → ℕ → List ℕ
part xs start end = take (end - start) (drop start xs)

module _ (memory : ℕ → List ℕ) (sized : (n : ℕ) → length (memory n) ≡ n) (xs : List ℕ)
    (short : length xs < 2 ^ 30) where
  module _ (units : ℕ) (room : 2 ^ 30 ≤ units) (string : List ℕ → Object) (start end : ℕ)
      (ordered : start ≤ end) (within : end ≤ length xs) where
    copy : copy_units (memory (end - start)) xs start (end - start) ≡ part xs start end
    copy =
        ap (λ d. part xs start end ++ d)
          (drop_all (end - start) (memory (end - start)) (omega (arith, sized (end - start))))
        ∙ append-nil (part xs start end)

    copied :
        (new_string units true memory
          (end - start)
          λ r. some (Result.value (string (copy_units r xs start (end - start)))))
        ≡ some (Result.value (string (part xs start end)))
    copied =
        let small : ltb (end - start) units ≡ true = ground (arith, short, within, room) in
        rw small (ap (λ u. some (Result.value (string u))) copy)

    whole : (start == 0) ≡ true → (end == length xs) ≡ true → part xs start end ≡ xs
    whole e e' =
        ap (λ s. take (end - s) (drop s xs)) {x = start} {y = 0} (ground arith)
        ∙ take_all (end - 0) xs (ground arith)

    pub substring_of_lem :
        substring_of units true memory string xs (pos start) (pos end)
        ≡ some (Result.value (string (part xs start end)))
    substring_of_lem =
        let near : ltb start units ≡ true = ground (arith, short, ordered, within, room) in
        let ok : (ltb end start || ltb (length xs) end) ≡ false = ground (arith, ordered, within) in
        elim (Bool-cases (start == 0)) [
          | inl e ↦ elim (Bool-cases (end == length xs)) [
            | inl e' ↦ rw (ok, e, e') (ap (λ u. some (Result.value (string u))) (sym (whole e e')))
            | inr e' ↦ rw (ok, e, e', near) copied
          ]
          | inr e ↦ rw (ok, e, near) copied
        ]

  module _ (k : ℕ) (within : k ≤ length xs) where
    both_parts : part xs 0 k ++ part xs k (length xs) ≡ xs
    both_parts =
        ap (λ t. t ++ part xs k (length xs)) (ap (λ n. take n xs) {x = k - 0} {y = k} (omega arith))
        ∙ ap (λ t. take k xs ++ t)
            (take_all (length xs - k) (drop k xs) (omega (arith, length-drop k xs)))
        ∙ take-drop k xs

    parts_fit : length (part xs 0 k) + length (part xs k (length xs)) < 2 ^ 30
    parts_fit =
        omega
          (arith, short, length-append (part xs 0 k) (part xs k (length xs)), ap length both_parts)

    one_byte_string_parts :
        (a : Object) × (b : Object) × (one_byte_string_substring true memory
            (Object.one_byte_string xs)
            (Object.smi (pos 0))
            (Object.smi (pos k))
          ≡ some (Result.value a))
        × (one_byte_string_substring true memory
              (Object.one_byte_string xs)
              (Object.smi (pos k))
              (Object.smi (pos (length xs)))
            ≡ some (Result.value b))
        × Gives (one_byte_string_add true memory a b) xs
    unfolding one_byte_string_substring
    one_byte_string_parts =
        let (s, e, string, units) =
          one_byte_string_add_lem memory sized (part xs 0 k)
            (Object.one_byte_string (part xs k (length xs))) (IsString.one_byte _) parts_fit in
        (
          Object.one_byte_string (part xs 0 k),
          Object.one_byte_string (part xs k (length xs)),
          substring_of_lem one_byte_units (omega arith) Object.one_byte_string 0 k (omega arith)
              within,
          substring_of_lem one_byte_units (omega arith) Object.one_byte_string k (length xs) within
              (omega arith),
          (s, e, string, units ∙ both_parts),
        )

    two_byte_string_parts :
        (a : Object) × (b : Object) × (two_byte_string_substring true memory
            (Object.two_byte_string xs)
            (Object.smi (pos 0))
            (Object.smi (pos k))
          ≡ some (Result.value a))
        × (two_byte_string_substring true memory
              (Object.two_byte_string xs)
              (Object.smi (pos k))
              (Object.smi (pos (length xs)))
            ≡ some (Result.value b))
        × Gives (two_byte_string_add true memory a b) xs
    unfolding two_byte_string_substring
    two_byte_string_parts =
        let (s, e, string, units) =
          two_byte_string_add_lem memory sized (part xs 0 k)
            (Object.two_byte_string (part xs k (length xs))) (IsString.two_byte _) parts_fit in
        (
          Object.two_byte_string (part xs 0 k),
          Object.two_byte_string (part xs k (length xs)),
          substring_of_lem two_byte_units (omega arith) Object.two_byte_string 0 k (omega arith)
              within,
          substring_of_lem two_byte_units (omega arith) Object.two_byte_string k (length xs) within
              (omega arith),
          (s, e, string, units ∙ both_parts),
        )

    -- For a string of less than 2^30 code units and a place in it, and memory for a new string
    -- that has the length asked for, the two substrings before and behind the place exist, and
    -- their sum has the code units of the string; for one-byte and for two-byte strings.
    pub string_parts_lem :
        ((a : Object) × (b : Object) × (one_byte_string_substring true memory
              (Object.one_byte_string xs)
              (Object.smi (pos 0))
              (Object.smi (pos k))
            ≡ some (Result.value a))
          × (one_byte_string_substring true memory
                (Object.one_byte_string xs)
                (Object.smi (pos k))
                (Object.smi (pos (length xs)))
              ≡ some (Result.value b))
          × Gives (one_byte_string_add true memory a b) xs)
        × ((a : Object) × (b : Object) × (two_byte_string_substring true memory
                (Object.two_byte_string xs)
                (Object.smi (pos 0))
                (Object.smi (pos k))
              ≡ some (Result.value a))
            × (two_byte_string_substring true memory
                  (Object.two_byte_string xs)
                  (Object.smi (pos k))
                  (Object.smi (pos (length xs)))
                ≡ some (Result.value b))
            × Gives (two_byte_string_add true memory a b) xs)
    string_parts_lem = (one_byte_string_parts, two_byte_string_parts)
