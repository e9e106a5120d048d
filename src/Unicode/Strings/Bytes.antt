-- ===== src/Unicode/Strings/Bytes.antt =====
-- Code points, their bytes and their units.
use dartino_sdk.Base.{
  ℕ, ◌+◌, ◌/◌, ◌%◌, ◌≤◌, ◌<◌, ◌≡◌, refl, ap₂, Bool-cases, inl, inr, Option, some, List, [], ◌∷◌,
  ◌++◌, arith, ltb, leb, le→leb, if◌then◌else◌,
}
use dartino_sdk.Unicode.{max_code_point, encode8}
use dartino_sdk.Unicode.Strings.{Utf8Type, at_least_bmp, join}

-- The bytes of a code point, by its range.
pub data Encoded : ℕ → List ℕ → Type 0 where
  one : (ch : ℕ) → ch ≤ 127 → Encoded ch (ch ∷ [])
  two : (ch : ℕ) → 127 < ch → ch ≤ 2047 → Encoded ch ((192 + ch / 64) ∷ (128 + ch % 64) ∷ [])
  three :
      (ch : ℕ)
      → 2047 < ch
      → ch ≤ 65535
      → Encoded ch ((224 + ch / 4096) ∷ (128 + ch / 64 % 64) ∷ (128 + ch % 64) ∷ [])
  four :
      (ch : ℕ)
      → 65535 < ch
      → ch ≤ 1114111
      → Encoded ch (
          (240 + ch / 262144)
          ∷ (128 + ch / 4096 % 64)
          ∷ (128 + ch / 64 % 64)
          ∷ (128 + ch % 64)
          ∷ [])

pub encode8-Encoded :
    (ch : ℕ) → ch ≤ max_code_point → (bytes : List ℕ) × (encode8 ch ≡ some bytes) × Encoded ch bytes
unfolding encode8
encode8-Encoded ch h = elim (Bool-cases (leb ch 127)) [
  | inl a ↦ (_, rw a refl, Encoded.one ch (ground arith))
  | inr a ↦ elim (Bool-cases (leb ch 2047)) [
    | inl b ↦ (_, rw (a, b) refl, Encoded.two ch (ground arith) (ground arith))
    | inr b ↦ elim (Bool-cases (leb ch 65535)) [
      | inl c ↦ (_, rw (a, b, c) refl, Encoded.three ch (ground arith) (ground arith))
      | inr c ↦ (_, rw (a, b, c, le→leb ch max_code_point h) refl, Encoded.four ch (ground arith) h)
    ]
  ]
]

-- The units of a code point, and of several.
abbrev pub units : ℕ → List ℕ
units ch = if ltb 65535 ch then (55232 + ch / 1024) ∷ (56320 + ch % 1024) ∷ [] else ch ∷ []

abbrev pub all_units : List ℕ → List ℕ
all_units [] = []
all_units (ch ∷ cs) = units ch ++ all_units cs

-- The bytes that Utf8::Encode writes for each, one behind the other.
pub encode_all : List ℕ → Option (List ℕ)
encode_all [] = some []
encode_all (ch ∷ cs) = join (encode8 ch) (encode_all cs)

pub data AllCodes : List ℕ → Type 0 where
  nil : AllCodes []
  cons : (ch : ℕ) (cs : List ℕ) → ch ≤ max_code_point → AllCodes cs → AllCodes (ch ∷ cs)

pub data AllEncoded : List ℕ → List ℕ → Type 0 where
  nil : AllEncoded [] []
  cons :
      (ch : ℕ) (bytes : List ℕ) (cs more : List ℕ)
      → Encoded ch bytes
      → AllEncoded cs more
      → AllEncoded (ch ∷ cs) (bytes ++ more)

pub encode_all-AllEncoded :
    (cs : List ℕ)
    → AllCodes cs
    → (bytes : List ℕ) × (encode_all cs ≡ some bytes) × AllEncoded cs bytes
unfolding encode_all
encode_all-AllEncoded _ AllCodes.nil = ([], refl, AllEncoded.nil)
encode_all-AllEncoded _ (AllCodes.cons ch cs h k) =
    let (bytes, e, first) = encode8-Encoded ch h in
    let (more, e', rest) = encode_all-AllEncoded cs k in
    (bytes ++ more, ap₂ join e e', AllEncoded.cons ch bytes cs more first rest)

-- The most restricted form that holds a code point as well.
abbrev pub raise : Utf8Type → ℕ → Utf8Type
raise t ch =
    if ltb 65535 ch then Utf8Type.supplementary else if ltb 255 ch then at_least_bmp t else t

abbrev pub restricted : Utf8Type → List ℕ → Utf8Type
restricted t [] = t
restricted t (ch ∷ cs) = restricted (raise t ch) cs
