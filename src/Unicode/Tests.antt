-- ===== src/Unicode/Tests.antt =====
-- The code point U+20AC in UTF-8, and U+1F600 in UTF-16.
use dartino_sdk.Base.{ℕ, ◌≡◌, inl, inr, suc, refl, true, some, List, [], ◌∷◌, ◌++◌, arith, length}
use dartino_sdk.Unicode.{length8, encode8, decode8, trail, finish}
use dartino_sdk.Unicode.Utf8.{decode8-encode8}
use dartino_sdk.Unicode.Shortest.{encode8-decode8}
use dartino_sdk.Unicode.Strings.{
  Utf8Type, code_unit_count, decode_to_utf16, encode_string, length_string,
}
use dartino_sdk.Unicode.Strings.Bytes.{AllCodes, all_units, encode_all, restricted}
use dartino_sdk.Unicode.Strings.Encoding.{NoSurrogates, utf8_utf16_lem}
use dartino_sdk.Unicode.Strings.InBounds.{InBounds, decode_to_utf16-InBounds}

decode8-encode8_example :
    (bytes : List ℕ) × (encode8 8364 ≡ some bytes)
    × (length8 8364 ≡ some (length bytes))
    × (decode8 (bytes ++ 65 ∷ []) ≡ some (some 8364, length bytes))
decode8-encode8_example = decode8-encode8 8364 (65 ∷ []) (omega arith)

encode8-decode8_example : encode8 8364 ≡ some (226 ∷ 130 ∷ 172 ∷ [])
unfolding decode8 trail finish
encode8-decode8_example =
    encode8-decode8 (226 ∷ 130 ∷ 172 ∷ 65 ∷ []) 8364 3
      (omega arith, (omega arith, (omega arith, (omega arith, tt)))) refl

abbrev code_points : List ℕ
code_points = 68 ∷ 233 ∷ 8364 ∷ 128512 ∷ []

utf8_utf16_lem_example :
    (bytes : List ℕ) × (encode_all code_points ≡ some bytes)
    × (code_unit_count bytes ≡ (5, restricted Utf8Type.latin1 code_points))
    × (decode_to_utf16 (suc (length bytes)) bytes 5 ≡ some (true, all_units code_points))
    × (encode_string 6 (all_units code_points) (length bytes) ≡ some bytes)
    × (length_string 6 (all_units code_points) ≡ some (length bytes))
utf8_utf16_lem_example =
    utf8_utf16_lem code_points
      (AllCodes.cons 68 _ (omega arith) (
        AllCodes.cons 233 _ (omega arith)
          (AllCodes.cons 8364 _ (omega arith) (AllCodes.cons 128512 _ (omega arith) AllCodes.nil))))
      (NoSurrogates.cons 68 _ (inl (omega arith)) (
        NoSurrogates.cons 233 _ (inl (omega arith)) (
          NoSurrogates.cons 8364 _ (inl (omega arith))
            (NoSurrogates.cons 128512 _ (inr (omega arith)) NoSurrogates.nil))))

-- The last code point is cut off.
decode_to_utf16-InBounds_example :
    InBounds 4 (68 ∷ 240 ∷ 159 ∷ []) (code_unit_count (68 ∷ 240 ∷ 159 ∷ [])).0
decode_to_utf16-InBounds_example =
    decode_to_utf16-InBounds (68 ∷ 240 ∷ 159 ∷ []) (omega arith, (omega arith, (omega arith, tt)))
