-- ===== src/Wire/RoundTrip.antt =====
-- Everything that is written can be read back.
use dartino_sdk.Base.{
  ℕ, ◌+◌, ◌^◌, ◌<◌, ◌≡◌, refl, sym, ap, subst, ◌∙◌, Bool, Option, some, List, [], ◌∷◌, ◌++◌, arith,
  length, map, length-append, append_assoc, append-nil, if◌then◌else◌,
}
use dartino_sdk.Memory.{◌>>=◌}
use dartino_sdk.Wire.{
  Buffer, empty, set_buffer, write_int, write_int64, write_boolean, write_bytes, read_int,
  read_int64, read_boolean, read_bytes, le_bytes,
}
use dartino_sdk.Wire.Words.{length-le_bytes}
use dartino_sdk.Wire.Writing.{
  IsValid, written, length-written, written-empty, Appends, offset-Appends, write_int-Appends,
  write_int64-Appends, write_boolean-Appends, write_bytes-Appends,
}
use dartino_sdk.Wire.Reading.{
  Stands, Reads, read_int-Reads, read_int64-Reads, read_boolean-Reads, read_bytes-Reads,
}

-- A value in a command, and what the other side must know to read it.
pub data Field : Type 0 where
  int : ℕ → Field
  int64 : ℕ → Field
  boolean : Bool → Field
  bytes : List ℕ → Field

pub data Kind : Type 0 where
  int int64 boolean bytes : Kind

abbrev pub kind : Field → Kind
kind (Field.int w) = Kind.int
kind (Field.int64 w) = Kind.int64
kind (Field.boolean x) = Kind.boolean
kind (Field.bytes bs) = Kind.bytes

-- The value has a pattern of its width; a length is a positive int.
abbrev pub Fits : Field → Type 0
Fits (Field.int w) = w < 2 ^ 32
Fits (Field.int64 w) = w < 2 ^ 64
Fits (Field.boolean x) = Unit
Fits (Field.bytes bs) = length bs < 2 ^ 31

abbrev pub AllFit : List Field → Type 0
AllFit [] = Unit
AllFit (f ∷ fs) = Fits f × AllFit fs

pub write_field : Buffer → Field → Option Buffer
write_field b (Field.int w) = write_int b w
write_field b (Field.int64 w) = write_int64 b w
write_field b (Field.boolean x) = write_boolean b x
write_field b (Field.bytes bs) = write_bytes b bs

pub write_all : Buffer → List Field → Option Buffer
write_all b [] = some b
write_all b (f ∷ fs) = write_field b f >>= λ b'. write_all b' fs

pub read_field : Kind → Buffer → Option (Field × Buffer)
read_field Kind.int b = read_int b >>= λ (w, b'). some (Field.int w, b')
read_field Kind.int64 b = read_int64 b >>= λ (w, b'). some (Field.int64 w, b')
read_field Kind.boolean b = read_boolean b >>= λ (x, b'). some (Field.boolean x, b')
read_field Kind.bytes b = read_bytes b >>= λ (bs, b'). some (Field.bytes bs, b')

pub read_all : List Kind → Buffer → Option (List Field × Buffer)
read_all [] b = some ([], b)
read_all (k ∷ ks) b =
    read_field k b >>= λ (f, b'). read_all ks b' >>= λ (fs, b''). some (f ∷ fs, b'')

unfoldable pub encode : Field → List ℕ
encode (Field.int w) = le_bytes 4 w
encode (Field.int64 w) = le_bytes 8 w
encode (Field.boolean x) = (if x then 1 else 0) ∷ []
encode (Field.bytes bs) = le_bytes 4 (length bs) ++ bs

unfoldable pub encode_all : List Field → List ℕ
encode_all [] = []
encode_all (f ∷ fs) = encode f ++ encode_all fs

write_field-Appends :
    (b : Buffer) (f : Field)
    → IsValid b
    → b.offset + length (encode f) + 63 < 2 ^ 31
    → Appends b (encode f) (write_field b f)
unfolding write_field encode
write_field-Appends b (Field.int w) v small =
    write_int-Appends b w v (omega (arith, small, length-le_bytes 4 w))
write_field-Appends b (Field.int64 w) v small =
    write_int64-Appends b w v (omega (arith, small, length-le_bytes 8 w))
write_field-Appends b (Field.boolean x) v small = write_boolean-Appends b x v (omega (arith, small))
write_field-Appends b (Field.bytes bs) v small =
    write_bytes-Appends b bs v (
      omega
        (arith, small, length-le_bytes 4 (length bs), length-append (le_bytes 4 (length bs)) bs))

write_all-Appends :
    (b : Buffer) (fs : List Field)
    → IsValid b
    → b.offset + length (encode_all fs) + 63 < 2 ^ 31
    → Appends b (encode_all fs) (write_all b fs)
unfolding write_all encode_all
write_all-Appends b [] v small = (b, refl, v, sym (append-nil (written b)))
write_all-Appends b (f ∷ fs) v small =
    let long = length-append (encode f) (encode_all fs) in
    let (b', run, u, w) = write_field-Appends b f v (omega (arith, small, long)) in
    let (b'', run', u', w') =
      write_all-Appends b' fs u (omega (arith, small, long, offset-Appends b b' _ v u w)) in
    (
      b'',
      rw run run',
      u',
      w' ∙ ap (λ xs. xs ++ encode_all fs) w ∙ append_assoc (written b) (encode f) (encode_all fs),
    )

read_field-Reads :
    (b : Buffer) (seen rest : List ℕ) (f : Field)
    → Fits f
    → Stands b seen (encode f ++ rest)
    → Reads (seen ++ encode f) f rest (read_field (kind f) b)
unfolding read_field encode
read_field-Reads b seen rest (Field.int w) h s =
    let (b', run, t) = read_int-Reads b seen rest w h s in (b', rw run refl, t)
read_field-Reads b seen rest (Field.int64 w) h s =
    let (b', run, t) = read_int64-Reads b seen rest w h s in (b', rw run refl, t)
read_field-Reads b seen rest (Field.boolean x) h s =
    let (b', run, t) = read_boolean-Reads b seen rest x s in (b', rw run refl, t)
read_field-Reads b seen rest (Field.bytes bs) h s =
    let (b', run, t) = read_bytes-Reads b seen rest bs h s in (b', rw run refl, t)

read_all-Reads :
    (b : Buffer) (seen : List ℕ) (fs : List Field)
    → AllFit fs
    → Stands b seen (encode_all fs)
    → Reads (seen ++ encode_all fs) fs [] (read_all (map kind fs) b)
unfolding read_all encode_all
read_all-Reads b seen [] h s = (b, refl, subst (λ xs. Stands b xs []) (sym (append-nil seen)) s)
read_all-Reads b seen (f ∷ fs) h s =
    let (b', run, t) = read_field-Reads b seen (encode_all fs) f h.0 s in
    let (b'', run', t') = read_all-Reads b' (seen ++ encode f) fs h.1 t in
    (
      b'',
      rw (run, run') refl,
      subst (λ xs. Stands b'' xs []) (append_assoc seen (encode f) (encode_all fs)) t',
    )

read_out : (r : Buffer) (seen : List ℕ) → Stands r seen [] → r.offset ≡ r.limit
read_out r seen s = s.reached ∙ sym (s.sized ∙ ap length (s.split ∙ append-nil seen))

pub write_all-written :
    (fs : List Field)
    → length (encode_all fs) + 63 < 2 ^ 31
    → (b : Buffer) × (write_all empty fs ≡ some b) × IsValid b × (written b ≡ encode_all fs)
unfolding empty
write_all-written fs small =
    let (b, run, v, w) =
      write_all-Appends empty fs (omega arith, refl, omega arith) (omega (arith, small)) in
    (b, run, v, w ∙ ap (λ xs. xs ++ encode_all fs) written-empty)

-- A buffer with the bytes is read to its end and gives the fields.
abbrev pub ReadsAll : List Field → Buffer → Type 0
ReadsAll fs b = (r : Buffer) × (read_all (map kind fs) b ≡ some (fs, r)) × (r.offset ≡ r.limit)

pub set_buffer-ReadsAll :
    (fs : List Field) (b : Buffer)
    → AllFit fs
    → IsValid b
    → written b ≡ encode_all fs
    → ReadsAll fs (set_buffer (written b) b.offset)
unfolding set_buffer
set_buffer-ReadsAll fs b h v w =
    let (r, run, t) =
      read_all-Reads (set_buffer (written b) b.offset) [] fs h
        record { split = w; reached = refl; sized = sym (length-written b v) } in
    (r, run, read_out r (encode_all fs) t)

pub read_none : (b : Buffer) → read_all [] b ≡ some ([], b)
unfolding read_all
read_none b = refl

-- Every field takes a byte.
pub encode_all-nil : (fs : List Field) → length (encode_all fs) ≡ 0 → fs ≡ []
unfolding encode_all encode le_bytes
encode_all-nil [] h = refl
encode_all-nil (Field.int w ∷ fs) h = absurd (omega arith)
encode_all-nil (Field.int64 w ∷ fs) h = absurd (omega arith)
encode_all-nil (Field.boolean x ∷ fs) h = absurd (omega arith)
encode_all-nil (Field.bytes bs ∷ fs) h = absurd (omega arith)
