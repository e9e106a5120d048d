-- ===== src/Unicode/Utf8.antt =====
-- What Utf8::Encode writes, Utf8::Decode reads.
use dartino_sdk.Base.{
  ℕ, ◌+◌, ◌/◌, ◌%◌, ◌≤◌, ◌<◌, ◌≡◌, refl, Bool-cases, inl, inr, true, some, List, [], ◌∷◌, ◌++◌,
  arith, length, leb, le→leb,
}
use dartino_sdk.Unicode.{max_code_point, trail_bytes, length8, encode8, trail, finish, decode8}

pub one : (ch : ℕ) (rest : List ℕ) → ch ≤ 127 → decode8 (ch ∷ rest) ≡ some (some ch, 1)
unfolding decode8
one ch rest h = ground arith

pub two :
    (ch : ℕ) (rest : List ℕ)
    → 127 < ch
    → ch ≤ 2047
    → decode8 ((192 + ch / 64) ∷ (128 + ch % 64) ∷ rest) ≡ some (some ch, 2)
unfolding decode8 trail finish
two ch rest h k =
    let lead : leb 128 (192 + ch / 64) ≡ true = ground arith in
    let n : trail_bytes (192 + ch / 64) ≡ 2 = ground arith in rw (lead, n) (ground arith)

pub three :
    (ch : ℕ) (rest : List ℕ)
    → 2047 < ch
    → ch ≤ 65535
    → decode8 ((224 + ch / 4096) ∷ (128 + ch / 64 % 64) ∷ (128 + ch % 64) ∷ rest)
      ≡ some (some ch, 3)
unfolding decode8 trail finish
three ch rest h k =
    let lead : leb 128 (224 + ch / 4096) ≡ true = ground arith in
    let n : trail_bytes (224 + ch / 4096) ≡ 3 = ground arith in rw (lead, n) (ground arith)

pub four :
    (ch : ℕ) (rest : List ℕ)
    → 65535 < ch
    → ch ≤ 1114111
    → decode8 (
        (240 + ch / 262144)
        ∷ (128 + ch / 4096 % 64)
        ∷ (128 + ch / 64 % 64)
        ∷ (128 + ch % 64)
        ∷ rest)
      ≡ some (some ch, 4)
unfolding decode8 trail finish
four ch rest h k =
    let lead : leb 128 (240 + ch / 262144) ≡ true = ground arith in
    let n : trail_bytes (240 + ch / 262144) ≡ 4 = ground arith in rw (lead, n) (ground arith)

-- For every code point up to U+10FFFF, Utf8::Encode writes as many bytes as Utf8::Length says,
-- and Utf8::Decode gives the code point back from them and reads just those, whatever follows.
pub decode8-encode8 :
    (ch : ℕ) (rest : List ℕ)
    → ch ≤ max_code_point
    → (bytes : List ℕ) × (encode8 ch ≡ some bytes)
      × (length8 ch ≡ some (length bytes))
      × (decode8 (bytes ++ rest) ≡ some (some ch, length bytes))
unfolding encode8 length8
decode8-encode8 ch rest h = elim (Bool-cases (leb ch 127)) [
  | inl a ↦ (ch ∷ [], rw a refl, rw a refl, one ch rest (ground arith))
  | inr a ↦ elim (Bool-cases (leb ch 2047)) [
    | inl b ↦ (
      (192 + ch / 64) ∷ (128 + ch % 64) ∷ [],
      rw (a, b) refl,
      rw (a, b) refl,
      two ch rest (ground arith) (ground arith),
    )
    | inr b ↦ elim (Bool-cases (leb ch 65535)) [
      | inl c ↦ (
        (224 + ch / 4096) ∷ (128 + ch / 64 % 64) ∷ (128 + ch % 64) ∷ [],
        rw (a, b, c) refl,
        rw (a, b, c) refl,
        three ch rest (ground arith) (ground arith),
      )
      | inr c ↦
          let d = le→leb ch max_code_point h in
          (
            (240 + ch / 262144)
                ∷ (128 + ch / 4096 % 64)
                ∷ (128 + ch / 64 % 64)
                ∷ (128 + ch % 64)
                ∷ [],
            rw (a, b, c, d) refl,
            rw (a, b, c, d) refl,
            four ch rest (ground arith) h,
          )
    ]
  ]
]
