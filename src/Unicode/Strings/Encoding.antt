-- ===== src/Unicode/Strings/Encoding.antt =====
-- Utf8::Encode and Utf8::Length of a string of code points, and the way there and back.
use dartino_sdk.Base.{
  ℕ, zero, suc, ◌+◌, ◌-◌, ◌/◌, ◌%◌, ◌≤◌, ◌<◌, ◌≡◌, ◌⊎◌, inl, inr, refl, sym, ap, ap₂, ◌∙◌,
  Bool-cases, true, false, some, List, [], ◌∷◌, ◌++◌, arith, length, ltb, leb, if◌then◌else◌,
  length-append,
}
use dartino_sdk.Unicode.{
  max_code_point, length8, encode8, decode16, is_lead_surrogate, is_trail_surrogate,
}
use dartino_sdk.Unicode.Strings.{
  Utf8Type, code_unit_count, decode_to_utf16, encode_string, length_string, encode_next,
  length_next, next_code_point, put, join, plus,
}
use dartino_sdk.Unicode.Strings.Bytes.{
  Encoded, AllEncoded, AllCodes, units, all_units, encode_all, encode_all-AllEncoded, restricted,
}
use dartino_sdk.Unicode.Strings.Count.{code_unit_count_lem}
use dartino_sdk.Unicode.Strings.Decoding.{decode_to_utf16_lem}

-- No code point is a surrogate.
pub data NoSurrogates : List ℕ → Type 0 where
  nil : NoSurrogates []
  cons :
      (ch : ℕ) (cs : List ℕ)
      → (ch < 55296) ⊎ (57343 < ch)
      → NoSurrogates cs
      → NoSurrogates (ch ∷ cs)

encoded-Encoded :
    (ch : ℕ) (bytes : List ℕ)
    → Encoded ch bytes
    → (length8 ch ≡ some (length bytes)) × (encode8 ch ≡ some bytes)
unfolding length8 encode8
encoded-Encoded _ _ (Encoded.one ch h) =
    let a : leb ch 127 ≡ true = ground (arith, h) in (rw a refl, rw a refl)
encoded-Encoded _ _ (Encoded.two ch h k) =
    let a : leb ch 127 ≡ false = ground (arith, h) in
    let b : leb ch 2047 ≡ true = ground (arith, k) in (rw (a, b) refl, rw (a, b) refl)
encoded-Encoded _ _ (Encoded.three ch h k) =
    let a : leb ch 127 ≡ false = ground (arith, h) in
    let b : leb ch 2047 ≡ false = ground (arith, h) in
    let c : leb ch 65535 ≡ true = ground (arith, k) in (rw (a, b, c) refl, rw (a, b, c) refl)
encoded-Encoded _ _ (Encoded.four ch h k) =
    let a : leb ch 127 ≡ false = ground (arith, h) in
    let b : leb ch 2047 ≡ false = ground (arith, h) in
    let c : leb ch 65535 ≡ false = ground (arith, h) in
    let d : leb ch max_code_point ≡ true = ground (arith, k) in
    (rw (a, b, c, d) refl, rw (a, b, c, d) refl)

module _ (ch : ℕ) (scalar : (ch < 55296) ⊎ (57343 < ch)) (h : ch ≤ max_code_point) where
  next_single : (rest : List ℕ) → ch ≤ 65535 → next_code_point (ch ∷ rest) ≡ some (ch, rest)
  unfolding next_code_point
  next_single [] k = refl
  next_single (v ∷ us) k =
      let no_lead : is_lead_surrogate ch ≡ false = elim scalar [
        | inl s ↦ ground (arith, s)
        | inr s ↦ ground (arith, s)
      ] in
      rw no_lead refl

  next_pair :
      (rest : List ℕ)
      → 65535 < ch
      → next_code_point ((55232 + ch / 1024) ∷ (56320 + ch % 1024) ∷ rest) ≡ some (ch, rest)
  unfolding next_code_point decode16
  next_pair rest k =
      let lead : is_lead_surrogate (55232 + ch / 1024) ≡ true = ground (arith, k, h) in
      let trail : is_trail_surrogate (56320 + ch % 1024) ≡ true = ground arith in
      rw (lead, trail) (ap (λ c. some (c, rest)) {y = ch} (omega (arith, k, h)))

  next-units : (rest : List ℕ) → next_code_point (units ch ++ rest) ≡ some (ch, rest)
  next-units rest = elim (Bool-cases (ltb 65535 ch)) [
    | inl e ↦
        ap
          (λ b.
            next_code_point
              ((if b then (55232 + ch / 1024) ∷ (56320 + ch % 1024) ∷ [] else ch ∷ []) ++ rest))
          e
        ∙ next_pair rest (ground arith)
    | inr e ↦
        ap
          (λ b.
            next_code_point
              ((if b then (55232 + ch / 1024) ∷ (56320 + ch % 1024) ∷ [] else ch ∷ []) ++ rest))
          e
        ∙ next_single rest (ground arith)
  ]

length-units : (ch : ℕ) → 0 < length (units ch)
length-units ch = elim (Bool-cases (ltb 65535 ch)) [
  | inl e ↦ rw e (omega arith)
  | inr e ↦ rw e (omega arith)
]

encode_string_lem :
    (cs bytes : List ℕ) (fuel : ℕ)
    → AllCodes cs
    → NoSurrogates cs
    → AllEncoded cs bytes
    → length (all_units cs) < fuel
    → (encode_string fuel (all_units cs) (length bytes) ≡ some bytes)
      × (length_string fuel (all_units cs) ≡ some (length bytes))
unfolding encode_string length_string next_code_point
encode_string_lem _ _ zero a s e k = absurd (omega arith)
encode_string_lem _ _ (suc fuel) AllCodes.nil NoSurrogates.nil AllEncoded.nil k = (refl, refl)
encode_string_lem _ _ (suc fuel) (AllCodes.cons ch cs h a) (NoSurrogates.cons _ _ scalar s)
      (AllEncoded.cons _ bytes _ more first rest) k =
    let total = length-append bytes more in
    let next = next-units ch scalar h (all_units cs) in
    let (size, encoded) = encoded-Encoded ch bytes first in
    let (string, sum) =
      encode_string_lem cs more fuel a s rest
        (omega (arith, k, length-append (units ch) (all_units cs), length-units ch)) in
    let fits : leb (length bytes) (length (bytes ++ more)) ≡ true = ground (arith, total) in
    (
      ap (λ o. encode_next o (length (bytes ++ more)) λ rest len. encode_string fuel rest len) next
          ∙ ap₂
              (λ l e. put l e (length (bytes ++ more)) λ len. encode_string fuel (all_units cs) len)
              size encoded
          ∙ ap
              (λ b.
                if b
                then join (some bytes)
                    (encode_string fuel (all_units cs) (length (bytes ++ more) - length bytes))
                else some [])
              fits
          ∙ ap (λ n. join (some bytes) (encode_string fuel (all_units cs) n)) {y = length more}
              (omega (arith, total))
          ∙ ap (join (some bytes)) string,
      ap (λ o. length_next o λ rest. length_string fuel rest) next
          ∙ ap₂ plus size sum
          ∙ ap some (sym total),
    )

-- For code points up to U+10FFFF, no surrogates among them, Utf8::Encode of each gives bytes of
-- which CodeUnitCount finds the number of UTF-16 code units and the most restricted form.
-- DecodeToUTF16 turns the bytes into the code units, and for these Utf8::Encode of the string
-- gives the bytes back and Utf8::Length their number.
pub utf8_utf16_lem :
    (cs : List ℕ)
    → AllCodes cs
    → NoSurrogates cs
    → (bytes : List ℕ) × (encode_all cs ≡ some bytes)
      × (code_unit_count bytes ≡ (length (all_units cs), restricted Utf8Type.latin1 cs))
      × (decode_to_utf16 (suc (length bytes)) bytes (length (all_units cs))
          ≡ some (true, all_units cs))
      × (encode_string (suc (length (all_units cs))) (all_units cs) (length bytes) ≡ some bytes)
      × (length_string (suc (length (all_units cs))) (all_units cs) ≡ some (length bytes))
utf8_utf16_lem cs h s =
    let (bytes, e, encoded) = encode_all-AllEncoded cs h in
    let (string, size) =
      encode_string_lem cs bytes (suc (length (all_units cs))) h s encoded (omega arith) in
    (
      bytes,
      e,
      code_unit_count_lem cs bytes encoded,
      decode_to_utf16_lem cs bytes (suc (length bytes)) encoded (omega arith),
      string,
      size,
    )
