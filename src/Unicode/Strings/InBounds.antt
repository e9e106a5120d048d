-- ===== src/Unicode/Strings/InBounds.antt =====
-- Utf8::DecodeToUTF16 of any bytes stays inside of a destination of the size that CodeUnitCount gives.
use dartino_sdk.Base.{
  ℕ, zero, suc, ◌+◌, ◌-◌, ◌≤◌, ◌<◌, ◌≡◌, refl, subst, sym, ap, ◌∙◌, Bool, true, false, Bool-cases,
  inl, inr, Option, none, some, List, [], ◌∷◌, ◌++◌, arith, length, take, drop, leb, if◌then◌else◌,
  length-append, take-drop,
}
use dartino_sdk.Unicode.{max_code_point, decode8, encode8}
use dartino_sdk.Unicode.Shortest.{AllBytes, encode8-decode8}
use dartino_sdk.Unicode.Strings.{
  Utf8Type, count_step, count_loop, code_unit_count, decode_to_utf16, store, written,
  is_supplementary_sequence_start,
}
use dartino_sdk.Unicode.Strings.Bytes.{Encoded, units, raise, encode8-Encoded}
use dartino_sdk.Unicode.Strings.Count.{count-Encoded}
use dartino_sdk.Unicode.Strings.Decoding.{decode_first, not_empty}

count_step_grows : (u : ℕ) (s : ℕ × Utf8Type) → s.0 ≤ (count_step u s).0
count_step_grows u s = ground arith

count_grows : (us : List ℕ) (s : ℕ × Utf8Type) → s.0 ≤ (count_loop us s).0
unfolding count_loop
count_grows [] s = omega arith
count_grows (u ∷ us) s = omega (arith, count_step_grows u s, count_grows us (count_step u s))

in_range : (ch : ℕ) (bytes : List ℕ) → encode8 ch ≡ some bytes → ch ≤ max_code_point
unfolding encode8
in_range ch bytes e = elim (Bool-cases (leb ch max_code_point)) [
  | inl d ↦ ground arith
  | inr d ↦
      let a : leb ch 127 ≡ false = ground arith in
      let b : leb ch 2047 ≡ false = ground arith in
      let c : leb ch 65535 ≡ false = ground arith in
      let failed : encode8 ch ≡ none = rw (a, b, c, d) refl in absurd (cc (failed, e))
]

-- The bytes that Utf8::Decode accepts are those of its code point.
accepted-Encoded :
    (us : List ℕ) (ch n : ℕ) → AllBytes us → decode8 us ≡ some (some ch, n) → Encoded ch (take n us)
accepted-Encoded us ch n b e =
    let encoded = encode8-decode8 us ch n b e in
    let (bytes, e', it) = encode8-Encoded ch (in_range ch (take n us) encoded) in
    subst (Encoded ch) (cc (encoded, e')) it

drop-AllBytes : (n : ℕ) (us : List ℕ) → AllBytes us → AllBytes (drop n us)
drop-AllBytes zero us b = b
drop-AllBytes (suc n) [] b = b
drop-AllBytes (suc n) (u ∷ us) b = drop-AllBytes n us b.1

some_result :
    (b : Bool) (p q : Option ℕ × ℕ) → (r : Option ℕ × ℕ) × ((if b then some p else some q) ≡ some r)
some_result true p q = (p, refl)
some_result false p q = (q, refl)

decode8-some : (u : ℕ) (us : List ℕ) → (r : Option ℕ × ℕ) × (decode8 (u ∷ us) ≡ some r)
unfolding decode8
decode8-some u us = some_result (leb 128 u) _ _

-- The result, without a write behind the destination.
abbrev pub InBounds : ℕ → List ℕ → ℕ → Type 0
InBounds fuel us room = (r : Bool × List ℕ) × (decode_to_utf16 fuel us room ≡ some r)

-- A round of an accepted code point, where the rounds behind it are in bounds.
accepted_round :
    (fuel room n ch : ℕ) (t : Utf8Type) (bytes more : List ℕ)
    → Encoded ch bytes
    → (count_loop (bytes ++ more) (n, t)).0 ≤ n + room
    → ((left : ℕ)
        → (count_loop more (n + length (units ch), raise t ch)).0 ≤ n + length (units ch) + left
        → InBounds fuel more left)
    → InBounds (suc fuel) (bytes ++ more) room
accepted_round fuel room n ch t bytes more first h go_on =
    let s : ℕ × Utf8Type = (n + length (units ch), raise t ch) in
    let counted = ap (λ s. s.0) (count-Encoded ch bytes more n t first) in
    let grows = count_grows more s in
    let left = room - length (units ch) in
    let whole : room ≡ length (units ch) + left = omega (arith, h, counted, grows) in
    let ((done, us), e) = go_on left (omega (arith, h, counted, grows)) in
    (
      (done, units ch ++ us),
      ap (decode_to_utf16 (suc fuel) (bytes ++ more)) whole
          ∙ decode_first fuel left ch bytes more first
          ∙ ap (written (units ch)) e,
    )

module _ (fuel room n u : ℕ) (t : Utf8Type) (us : List ℕ) (b : AllBytes (u ∷ us))
    (h : (count_loop (u ∷ us) (n, t)).0 ≤ n + suc room)
    (go_on : (more : List ℕ) (left m : ℕ) (t' : Utf8Type)
      → AllBytes more
      → length more ≤ length us
      → (count_loop more (m, t')).0 ≤ m + left
      → InBounds fuel more left) where
  round_by_result :
      (o : Option ℕ × ℕ) → decode8 (u ∷ us) ≡ some o → InBounds (suc fuel) (u ∷ us) (suc room)
  unfolding decode_to_utf16
  round_by_result (none, m) e = (
    (false, []),
    ap
        (λ d.
          store d (is_supplementary_sequence_start u) room
            λ m room. decode_to_utf16 fuel (drop m (u ∷ us)) room)
        e,
  )
  round_by_result (some ch, m) e =
      let bytes = take m (u ∷ us) in
      let more = drop m (u ∷ us) in
      let whole = take-drop m (u ∷ us) in
      let first = accepted-Encoded (u ∷ us) ch m b e in
      let shorter : length more ≤ length us =
        omega (arith, not_empty ch bytes first, length-append bytes more, ap length whole) in
      subst (λ l. InBounds (suc fuel) l (suc room)) whole
        (accepted_round fuel (suc room) n ch t bytes more first
          (subst (λ l. (count_loop l (n, t)).0 ≤ n + suc room) (sym whole) h)
          (λ left k.
            go_on more left (n + length (units ch)) (raise t ch) (drop-AllBytes m (u ∷ us) b)
              shorter k))

in_bounds :
    (fuel : ℕ) (us : List ℕ) (room n : ℕ) (t : Utf8Type)
    → AllBytes us
    → length us < fuel
    → (count_loop us (n, t)).0 ≤ n + room
    → InBounds fuel us room
unfolding decode_to_utf16
in_bounds zero us room n t b k h = absurd (omega arith)
in_bounds (suc fuel) [] room n t b k h = ((true, []), refl)
in_bounds (suc fuel) (u ∷ us) zero n t b k h = ((false, []), refl)
in_bounds (suc fuel) (u ∷ us) (suc room) n t b k h =
    let (o, e) = decode8-some u us in
    round_by_result fuel room n u t us b h
      (λ more left m t' b' shorter h'.
        in_bounds fuel more left m t' b' (omega (arith, shorter, k)) h')
      o e

-- Whatever the bytes are, DecodeToUTF16 into a destination of the size that CodeUnitCount gives
-- comes to an end, writes nothing behind the destination and fails no ASSERT.
pub decode_to_utf16-InBounds :
    (us : List ℕ) → AllBytes us → InBounds (suc (length us)) us (code_unit_count us).0
unfolding code_unit_count
decode_to_utf16-InBounds us b =
    in_bounds (suc (length us)) us (code_unit_count us).0 0 Utf8Type.latin1 b (omega arith)
      (omega arith)
