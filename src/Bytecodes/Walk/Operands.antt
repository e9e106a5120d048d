-- ===== src/Bytecodes/Walk/Operands.antt =====
-- The operands that Bytecode::Print reads, by the format of the instruction.
use native.Mathlib.Decide.{dec_lt}
use dartino_sdk.Base.{
  ℕ, zero, suc, ◌+◌, ◌≤◌, ◌<◌, ◌≡◌, refl, sym, ap, ap₂, ◌∙◌, false, none, some, List, [], ◌∷◌, ◌++◌,
  arith, get_elem?, length, take, drop, leb, le→leb, Option-cases, inl, inr,
}
use dartino_sdk.Memory.{load, seg, seg_split, seg_zero, length-seg}
use dartino_sdk.Wire.{le_bytes, of_le}
use dartino_sdk.Wire.Words.{AreBytes, le_bytes-of_le}
use dartino_sdk.Bytecodes.{Format}
use dartino_sdk.Bytecodes.Walk.{read_int32, operands}

-- How many bytes of operands Print reads for a format.
unfoldable pub operand_bytes : Format → ℕ
operand_bytes Format.nothing = 0
operand_bytes Format.byte = 1
operand_bytes Format.int = 4
operand_bytes Format.byte_byte = 2
operand_bytes Format.int_byte = 5
operand_bytes Format.byte_int = 5
operand_bytes Format.int_int = 8

-- The bytes of an instruction behind the opcode, by its operands.
pub encoded : Format → List ℕ → List ℕ
encoded Format.byte (x ∷ []) = x ∷ []
encoded Format.int (x ∷ []) = le_bytes 4 x
encoded Format.byte_byte (x ∷ y ∷ []) = x ∷ y ∷ []
encoded Format.int_byte (x ∷ y ∷ []) = le_bytes 4 x ++ (y ∷ [])
encoded Format.byte_int (x ∷ y ∷ []) = x ∷ le_bytes 4 y
encoded Format.int_int (x ∷ y ∷ []) = le_bytes 4 x ++ le_bytes 4 y
encoded _ _ = []

AreBytes-drop : (n : ℕ) (xs : List ℕ) → AreBytes xs → AreBytes (drop n xs)
AreBytes-drop zero xs h = h
AreBytes-drop (suc n) [] h = tt
AreBytes-drop (suc n) (x ∷ xs) h = AreBytes-drop n xs h.1

AreBytes-take : (n : ℕ) (xs : List ℕ) → AreBytes xs → AreBytes (take n xs)
AreBytes-take zero xs h = tt
AreBytes-take (suc n) [] h = tt
AreBytes-take (suc n) (x ∷ xs) h = (h.0, AreBytes-take n xs h.1)

seg_one : (xs : List ℕ) (i x : ℕ) → get_elem? xs i ≡ some x → seg xs i 1 ≡ x ∷ []
unfolding seg
seg_one [] i x e = absurd (cc)
seg_one (y ∷ xs) zero x e = let same : y ≡ x = cc in ap (λ z. z ∷ []) same
seg_one (y ∷ xs) (suc i) x e = seg_one xs i x e

byte_in : (xs : List ℕ) (i : ℕ) → i < length xs → (x : ℕ) × (get_elem? xs i ≡ some x)
byte_in [] i h = absurd (omega arith)
byte_in (x ∷ xs) zero h = (x, refl)
byte_in (x ∷ xs) (suc i) h = byte_in xs i (omega (arith, h))

byte_out : (xs : List ℕ) (i : ℕ) → length xs ≤ i → get_elem? xs i ≡ none
byte_out [] i h = refl
byte_out (x ∷ xs) zero h = absurd (omega arith)
byte_out (x ∷ xs) (suc i) h = byte_out xs i (omega (arith, h))

-- The word from `i` on.
abbrev word_at : List ℕ → ℕ → ℕ
word_at xs i = of_le (seg xs i 4)

int_in : (xs : List ℕ) (i : ℕ) → i + 4 ≤ length xs → read_int32 xs i ≡ some (word_at xs i)
unfolding read_int32 load
int_in xs i h = rw (le→leb (i + 4) (length xs) h) refl

int_out : (xs : List ℕ) (i : ℕ) → length xs < i + 4 → read_int32 xs i ≡ none
unfolding read_int32 load
int_out xs i h = let far : leb (i + 4) (length xs) ≡ false = ground arith in rw far refl

module _ (xs : List ℕ) (bcp : ℕ) where
  module _ (bytes : AreBytes xs) where
    word_bytes : (i : ℕ) → i + 4 ≤ length xs → le_bytes 4 (word_at xs i) ≡ seg xs i 4
    unfolding seg
    word_bytes i h =
        ap (λ n. le_bytes n (word_at xs i)) (sym (length-seg xs i 4 h))
        ∙ le_bytes-of_le (seg xs i 4) (AreBytes-take 4 (drop i xs) (AreBytes-drop i xs bytes))

    pieces :
        (n m : ℕ) (first second : List ℕ)
        → first ≡ seg xs (bcp + 1) n
        → second ≡ seg xs (bcp + 1 + n) m
        → first ++ second ≡ seg xs (bcp + 1) (n + m)
    pieces n m first second e e' = ap₂ ◌++◌ e e' ∙ sym (seg_split xs (bcp + 1) n m)

    byte_piece : (i j x : ℕ) → get_elem? xs i ≡ some x → i ≡ j → x ∷ [] ≡ seg xs j 1
    byte_piece i j x e same = sym (seg_one xs i x e) ∙ ap (λ k. seg xs k 1) same

    int_piece : (i j : ℕ) → i + 4 ≤ length xs → i ≡ j → le_bytes 4 (word_at xs i) ≡ seg xs j 4
    int_piece i j h same = word_bytes i h ∙ ap (λ k. seg xs k 4) same

    pub operands_in :
        (f : Format)
        → bcp + (1 + operand_bytes f) ≤ length xs
        → (values : List ℕ) × (operands f xs bcp ≡ some values)
          × (encoded f values ≡ seg xs (bcp + 1) (operand_bytes f))
    unfolding operands operand_bytes encoded
    operands_in Format.nothing h = ([], refl, sym (seg_zero xs (bcp + 1)))
    operands_in Format.byte h =
        let (x, e) = byte_in xs (bcp + 1) (omega (arith, h)) in
        (x ∷ [], rw e refl, byte_piece (bcp + 1) (bcp + 1) x e refl)
    operands_in Format.int h =
        let room : bcp + 1 + 4 ≤ length xs = omega (arith, h) in
        (
          word_at xs (bcp + 1) ∷ [],
          rw (int_in xs (bcp + 1) room) refl,
          int_piece (bcp + 1) (bcp + 1) room refl,
        )
    operands_in Format.byte_byte h =
        let (x, e) = byte_in xs (bcp + 1) (omega (arith, h)) in
        let (y, e') = byte_in xs (bcp + 2) (omega (arith, h)) in
        (
          x ∷ y ∷ [],
          rw (e, e') refl,
          pieces 1 1 (x ∷ []) (y ∷ []) (byte_piece (bcp + 1) (bcp + 1) x e refl)
              (byte_piece (bcp + 2) (bcp + 1 + 1) y e' (omega arith)),
        )
    operands_in Format.int_byte h =
        let room : bcp + 1 + 4 ≤ length xs = omega (arith, h) in
        let (y, e) = byte_in xs (bcp + 5) (omega (arith, h)) in
        (
          word_at xs (bcp + 1) ∷ y ∷ [],
          rw (int_in xs (bcp + 1) room, e) refl,
          pieces 4 1 (le_bytes 4 (word_at xs (bcp + 1))) (y ∷ [])
              (int_piece (bcp + 1) (bcp + 1) room refl)
              (byte_piece (bcp + 5) (bcp + 1 + 4) y e (omega arith)),
        )
    operands_in Format.byte_int h =
        let (x, e) = byte_in xs (bcp + 1) (omega (arith, h)) in
        let room : bcp + 2 + 4 ≤ length xs = omega (arith, h) in
        (
          x ∷ word_at xs (bcp + 2) ∷ [],
          rw (e, int_in xs (bcp + 2) room) refl,
          pieces 1 4 (x ∷ []) (le_bytes 4 (word_at xs (bcp + 2)))
              (byte_piece (bcp + 1) (bcp + 1) x e refl)
              (int_piece (bcp + 2) (bcp + 1 + 1) room (omega arith)),
        )
    operands_in Format.int_int h =
        let room : bcp + 1 + 4 ≤ length xs = omega (arith, h) in
        let room' : bcp + 5 + 4 ≤ length xs = omega (arith, h) in
        (
          word_at xs (bcp + 1) ∷ word_at xs (bcp + 5) ∷ [],
          rw (int_in xs (bcp + 1) room, int_in xs (bcp + 5) room') refl,
          pieces 4 4 (le_bytes 4 (word_at xs (bcp + 1))) (le_bytes 4 (word_at xs (bcp + 5)))
              (int_piece (bcp + 1) (bcp + 1) room refl)
              (int_piece (bcp + 5) (bcp + 1 + 4) room' (omega arith)),
        )

  module _ (inside : bcp < length xs) where
    pub operands_out :
        (f : Format) → length xs < bcp + (1 + operand_bytes f) → operands f xs bcp ≡ none
    unfolding operands operand_bytes
    operands_out Format.nothing h = absurd (omega (arith, h, inside))
    operands_out Format.byte h = rw (byte_out xs (bcp + 1) (omega (arith, h))) refl
    operands_out Format.int h = rw (int_out xs (bcp + 1) (omega (arith, h))) refl
    operands_out Format.byte_byte h = elim (Option-cases (get_elem? xs (bcp + 1))) [
      | inl e ↦ rw e refl
      | inr (x, e) ↦ rw (e, byte_out xs (bcp + 2) (omega (arith, h))) refl
    ]
    operands_out Format.int_byte h = elim (Option-cases (read_int32 xs (bcp + 1))) [
      | inl e ↦ rw e refl
      | inr (x, e) ↦ rw (e, byte_out xs (bcp + 5) (omega (arith, h))) refl
    ]
    operands_out Format.byte_int h = elim (Option-cases (get_elem? xs (bcp + 1))) [
      | inl e ↦ rw e refl
      | inr (x, e) ↦ rw (e, int_out xs (bcp + 2) (omega (arith, h))) refl
    ]
    operands_out Format.int_int h = elim (Option-cases (read_int32 xs (bcp + 1))) [
      | inl e ↦ rw e refl
      | inr (x, e) ↦ rw (e, int_out xs (bcp + 5) (omega (arith, h))) refl
    ]

pub byte-inside : (xs : List ℕ) (i x : ℕ) → get_elem? xs i ≡ some x → i < length xs
byte-inside xs i x e = elim (dec_lt i (length xs)) [
  | yes h ↦ h
  | no h ↦ let out = byte_out xs i (omega (arith, h)) in absurd (cc)
]
