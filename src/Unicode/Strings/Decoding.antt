-- ===== src/Unicode/Strings/Decoding.antt =====
-- Utf8::DecodeToUTF16 on the bytes of code points.
use dartino_sdk.Base.{
  ℕ, zero, suc, ◌+◌, ◌/◌, ◌%◌, ◌≤◌, ◌<◌, ◌≡◌, refl, subst, sym, ap, ap₂, ◌∙◌, true, false, none,
  some, List, [], ◌∷◌, ◌++◌, arith, length, drop, ltb, if◌then◌else◌, length-append, drop-append,
}
use dartino_sdk.Unicode.{decode8, encode16}
use dartino_sdk.Unicode.Utf8.{one, two, three, four}
use dartino_sdk.Unicode.Strings.{
  decode_to_utf16, store, store_pair, written, is_supplementary_sequence_start,
}
use dartino_sdk.Unicode.Strings.Bytes.{Encoded, AllEncoded, units, all_units}

units-one : (ch : ℕ) → ch ≤ 65535 → units ch ≡ ch ∷ []
units-one ch h = let small : ltb 65535 ch ≡ false = ground (arith, h) in rw small refl

units-two : (ch : ℕ) → 65535 < ch → units ch ≡ (55232 + ch / 1024) ∷ (56320 + ch % 1024) ∷ []
units-two ch h = let big : ltb 65535 ch ≡ true = ground (arith, h) in rw big refl

-- A code point, whose first byte is `u`.
module _ (fuel room ch : ℕ) (u : ℕ) (us more : List ℕ)
    (decoded : decode8 (u ∷ us ++ more) ≡ some (some ch, suc (length us))) where
  step_one :
      is_supplementary_sequence_start u ≡ false
      → ch ≤ 65535
      → decode_to_utf16 (suc fuel) (u ∷ us ++ more) (suc room)
        ≡ written (ch ∷ []) (decode_to_utf16 fuel more room)
  unfolding decode_to_utf16
  step_one e h =
      ap₂ (λ d s. store d s room λ n room. decode_to_utf16 fuel (drop n (u ∷ us ++ more)) room)
        decoded e
      ∙ ap₂ (λ c rest. written (c ∷ []) (decode_to_utf16 fuel rest room)) {y = ch}
          (omega (arith, h)) (drop-append us more)

  step_two :
      is_supplementary_sequence_start u ≡ true
      → 65535 < ch
      → decode_to_utf16 (suc fuel) (u ∷ us ++ more) (suc (suc room))
        ≡ written ((55232 + ch / 1024) ∷ (56320 + ch % 1024) ∷ []) (decode_to_utf16 fuel more room)
  unfolding decode_to_utf16 encode16
  step_two e h =
      let big : ltb 65535 ch ≡ true = ground (arith, h) in
      ap₂
        (λ d s. store d s (suc room) λ n room. decode_to_utf16 fuel (drop n (u ∷ us ++ more)) room)
        decoded e
      ∙ ap
          (λ b.
            store_pair (if b then some (55232 + ch / 1024, 56320 + ch % 1024) else none) (suc room)
              λ room. decode_to_utf16 fuel (drop (length us) (us ++ more)) room)
          big
      ∙ ap
          (λ rest.
            written ((55232 + ch / 1024) ∷ (56320 + ch % 1024) ∷ [])
              (decode_to_utf16 fuel rest room))
          (drop-append us more)

  single :
      is_supplementary_sequence_start u ≡ false
      → ch ≤ 65535
      → decode_to_utf16 (suc fuel) (u ∷ us ++ more) (length (units ch) + room)
        ≡ written (units ch) (decode_to_utf16 fuel more room)
  single e h =
      subst
        (λ w.
          decode_to_utf16 (suc fuel) (u ∷ us ++ more) (length w + room)
          ≡ written w (decode_to_utf16 fuel more room))
        (sym (units-one ch h))
        (ap (decode_to_utf16 (suc fuel) (u ∷ us ++ more)) {y = suc room} (omega arith)
          ∙ step_one e h)

  double :
      is_supplementary_sequence_start u ≡ true
      → 65535 < ch
      → decode_to_utf16 (suc fuel) (u ∷ us ++ more) (length (units ch) + room)
        ≡ written (units ch) (decode_to_utf16 fuel more room)
  double e h =
      subst
        (λ w.
          decode_to_utf16 (suc fuel) (u ∷ us ++ more) (length w + room)
          ≡ written w (decode_to_utf16 fuel more room))
        (sym (units-two ch h))
        (ap (decode_to_utf16 (suc fuel) (u ∷ us ++ more)) {y = suc (suc room)} (omega arith)
          ∙ step_two e h)

pub decode_first :
    (fuel room ch : ℕ) (bytes more : List ℕ)
    → Encoded ch bytes
    → decode_to_utf16 (suc fuel) (bytes ++ more) (length (units ch) + room)
      ≡ written (units ch) (decode_to_utf16 fuel more room)
decode_first fuel room _ _ more (Encoded.one ch h) =
    single fuel room ch ch [] more (one ch more h) (ground arith) (omega (arith, h))
decode_first fuel room _ _ more (Encoded.two ch h k) =
    single fuel room ch (192 + ch / 64) ((128 + ch % 64) ∷ []) more (two ch more h k) (ground arith)
      (omega (arith, k))
decode_first fuel room _ _ more (Encoded.three ch h k) =
    single fuel room ch (224 + ch / 4096) ((128 + ch / 64 % 64) ∷ (128 + ch % 64) ∷ []) more
      (three ch more h k) (ground arith) k
decode_first fuel room _ _ more (Encoded.four ch h k) =
    double fuel room ch (240 + ch / 262144)
      ((128 + ch / 4096 % 64) ∷ (128 + ch / 64 % 64) ∷ (128 + ch % 64) ∷ []) more (four ch more h k)
      (ground arith) h

pub not_empty : (ch : ℕ) (bytes : List ℕ) → Encoded ch bytes → 0 < length bytes
not_empty _ _ (Encoded.one ch h) = omega arith
not_empty _ _ (Encoded.two ch h k) = omega arith
not_empty _ _ (Encoded.three ch h k) = omega arith
not_empty _ _ (Encoded.four ch h k) = omega arith

pub decode_to_utf16_lem :
    (cs bytes : List ℕ) (fuel : ℕ)
    → AllEncoded cs bytes
    → length bytes < fuel
    → decode_to_utf16 fuel bytes (length (all_units cs)) ≡ some (true, all_units cs)
unfolding decode_to_utf16
decode_to_utf16_lem _ _ zero h k = absurd (omega arith)
decode_to_utf16_lem _ _ (suc fuel) AllEncoded.nil k = refl
decode_to_utf16_lem _ _ (suc fuel) (AllEncoded.cons ch bytes cs more first rest) k =
    ap (decode_to_utf16 (suc fuel) (bytes ++ more)) (length-append (units ch) (all_units cs))
    ∙ decode_first fuel (length (all_units cs)) ch bytes more first
    ∙ ap (written (units ch)) (
        decode_to_utf16_lem cs more fuel rest
          (omega (arith, k, length-append bytes more, not_empty ch bytes first)))
