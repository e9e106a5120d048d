-- ===== src/Unicode/Strings/Count.antt =====
-- Utf8::CodeUnitCount on the bytes of code points.
use dartino_sdk.Base.{
  ℕ, ◌+◌, ◌/◌, ◌%◌, ◌≤◌, ◌<◌, ◌≡◌, refl, ap, ◌∙◌, true, false, Bool-cases, inl, inr, List, ◌++◌,
  arith, length, ltb, length-append,
}
use dartino_sdk.Unicode.{is_trail_byte}
use dartino_sdk.Unicode.Strings.{
  Utf8Type, count_step, count_loop, code_unit_count, is_latin1_sequence_start,
  is_supplementary_sequence_start,
}
use dartino_sdk.Unicode.Strings.Bytes.{Encoded, AllEncoded, units, all_units, raise, restricted}

step_trail : (m : ℕ) (s : ℕ × Utf8Type) → count_step (128 + m % 64) s ≡ s
step_trail m (n, t) = let e : is_trail_byte (128 + m % 64) ≡ true = ground arith in rw e refl

-- What the first byte of a code point does to the count.
abbrev Leads : ℕ → ℕ → Type 0
Leads u ch = (n : ℕ) (t : Utf8Type) → count_step u (n, t) ≡ (n + length (units ch), raise t ch)

lead_one : (ch : ℕ) → ch ≤ 127 → Leads ch ch
lead_one ch h n t =
    let a : is_trail_byte ch ≡ false = ground arith in
    let b : is_latin1_sequence_start ch ≡ true = ground arith in
    let c : ltb 65535 ch ≡ false = ground arith in
    let d : ltb 255 ch ≡ false = ground arith in rw (a, b, c, d) refl

lead_two : (ch : ℕ) → 127 < ch → ch ≤ 2047 → Leads (192 + ch / 64) ch
lead_two ch h k n t =
    let u = 192 + ch / 64 in
    let a : is_trail_byte u ≡ false = ground arith in
    let c : ltb 65535 ch ≡ false = ground arith in
    let e : is_supplementary_sequence_start u ≡ false = ground arith in
    elim (Bool-cases (ltb 255 ch)) [
      | inl d ↦ let b : is_latin1_sequence_start u ≡ false = ground arith in rw (a, b, c, d, e) refl
      | inr d ↦ let b : is_latin1_sequence_start u ≡ true = ground arith in rw (a, b, c, d) refl
    ]

lead_three : (ch : ℕ) → 2047 < ch → ch ≤ 65535 → Leads (224 + ch / 4096) ch
lead_three ch h k n t =
    let u = 224 + ch / 4096 in
    let a : is_trail_byte u ≡ false = ground arith in
    let b : is_latin1_sequence_start u ≡ false = ground arith in
    let c : ltb 65535 ch ≡ false = ground arith in
    let d : ltb 255 ch ≡ true = ground arith in
    let e : is_supplementary_sequence_start u ≡ false = ground arith in rw (a, b, c, d, e) refl

lead_four : (ch : ℕ) → 65535 < ch → ch ≤ 1114111 → Leads (240 + ch / 262144) ch
lead_four ch h k n t =
    let u = 240 + ch / 262144 in
    let a : is_trail_byte u ≡ false = ground arith in
    let b : is_latin1_sequence_start u ≡ false = ground arith in
    let c : ltb 65535 ch ≡ true = ground arith in
    let e : is_supplementary_sequence_start u ≡ true = ground arith in rw (a, b, c, e) refl

pub count-Encoded :
    (ch : ℕ) (bytes more : List ℕ) (n : ℕ) (t : Utf8Type)
    → Encoded ch bytes
    → count_loop (bytes ++ more) (n, t) ≡ count_loop more (n + length (units ch), raise t ch)
unfolding count_loop
count-Encoded _ _ more n t (Encoded.one ch h) = ap (count_loop more) (lead_one ch h n t)
count-Encoded _ _ more n t (Encoded.two ch h k) =
    ap (count_loop more) (step_trail ch _ ∙ lead_two ch h k n t)
count-Encoded _ _ more n t (Encoded.three ch h k) =
    ap (count_loop more) (step_trail ch _ ∙ step_trail (ch / 64) _ ∙ lead_three ch h k n t)
count-Encoded _ _ more n t (Encoded.four ch h k) =
    ap (count_loop more)
      (step_trail ch _ ∙ step_trail (ch / 64) _ ∙ step_trail (ch / 4096) _ ∙ lead_four ch h k n t)

count-AllEncoded :
    (cs bytes : List ℕ) (n : ℕ) (t : Utf8Type)
    → AllEncoded cs bytes
    → count_loop bytes (n, t) ≡ (n + length (all_units cs), restricted t cs)
unfolding count_loop
count-AllEncoded _ _ n t AllEncoded.nil = ap (λ m. (m, t)) (omega arith)
count-AllEncoded _ _ n t (AllEncoded.cons ch bytes cs more first rest) =
    count-Encoded ch bytes more n t first
    ∙ count-AllEncoded cs more (n + length (units ch)) (raise t ch) rest
    ∙ ap (λ m. (m, restricted (raise t ch) cs))
        (omega (arith, length-append (units ch) (all_units cs)))

pub code_unit_count_lem :
    (cs bytes : List ℕ)
    → AllEncoded cs bytes
    → code_unit_count bytes ≡ (length (all_units cs), restricted Utf8Type.latin1 cs)
unfolding code_unit_count
code_unit_count_lem cs bytes h =
    count-AllEncoded cs bytes 0 Utf8Type.latin1 h
    ∙ ap (λ m. (m, restricted Utf8Type.latin1 cs)) (omega arith)
