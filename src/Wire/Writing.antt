-- ===== src/Wire/Writing.antt =====
-- What each write adds to the bytes written so far; no write leaves the buffer.
use dartino_sdk.Base.{
  ℕ, ◌+◌, ◌≤◌, ◌≡◌, refl, ap, ap₂, ◌∙◌, Bool, Option, some, List, [], ◌∷◌, ◌++◌, arith, length,
  replicate, max, leb, leb→le, le→leb, Bool-cases, inl, inr, true, ◌^◌, ◌<◌, if◌then◌else◌,
  length-append, length-replicate, append_assoc,
}
use dartino_sdk.Memory.{
  ◌>>=◌, memcpy, seg, blit, length-blit, length-seg, seg-append, seg_split, seg-blit_self,
  seg-blit_before,
}
use dartino_sdk.Wire.{
  Buffer, empty, grow, is_int, ensure_capacity, put, write_int, write_int64, write_boolean,
  write_bytes, write_string, le_bytes,
}
use dartino_sdk.Wire.Words.{length-le_bytes}

-- Less than 64 cells are not written yet.
abbrev pub IsValid : Buffer → Type 0
IsValid b = (b.offset ≤ b.limit) × (length b.cells ≡ b.limit) × (b.limit ≤ b.offset + 63)

-- The bytes written so far.
unfoldable pub written : Buffer → List ℕ
written b = seg b.cells 0 b.offset

pub length-written : (b : Buffer) → IsValid b → length (written b) ≡ b.offset
unfolding written
length-written b v = length-seg b.cells 0 b.offset (omega (arith, v))

pub written-empty : written empty ≡ []
unfolding written seg empty
written-empty = refl

-- A write succeeds and appends the bytes.
abbrev pub Appends : Buffer → List ℕ → Option Buffer → Type 0
Appends b bytes r = (b' : Buffer) × (r ≡ some b') × IsValid b' × (written b' ≡ written b ++ bytes)

put-Appends :
    (b : Buffer) (bytes : List ℕ)
    → length b.cells ≡ b.limit
    → b.offset + length bytes ≤ b.limit
    → b.limit ≤ b.offset + length bytes + 63
    → Appends b bytes (put b bytes)
unfolding put memcpy written
put-Appends b bytes sized room near =
    let cells = blit b.cells b.offset bytes in
    (
      record b { cells = cells; offset = b.offset + length bytes },
      rw (le→leb (b.offset + length bytes) (length b.cells) (omega arith)) refl,
      (room, length-blit b.cells b.offset bytes ∙ sized, near),
      seg_split cells 0 b.offset (length bytes)
          ∙ ap₂ ◌++◌ (seg-blit_before b.cells 0 b.offset b.offset bytes (omega arith)) (
              ap (λ i. seg cells i (length bytes)) {y = b.offset} (omega arith)
              ∙ seg-blit_self b.cells b.offset bytes (omega arith)),
    )

-- With room in an int for the bytes and 63 more, EnsureCapacity makes room for the bytes, and for at
-- most 63 more.
ensure_lem :
    (b : Buffer) (n : ℕ)
    → IsValid b
    → b.offset + n + 63 < 2 ^ 31
    → (g : Buffer) × (ensure_capacity b n ≡ some g)
      × (g.offset ≡ b.offset)
      × (b.offset + n ≤ g.limit)
      × (g.limit ≤ b.offset + n + 63)
      × (length g.cells ≡ g.limit)
      × (written g ≡ written b)
unfolding ensure_capacity grow written
ensure_lem b n v small =
    let k : ℕ = max n 64 in
    let fits : is_int (b.offset + n) ≡ true = ground arith in
    elim (Bool-cases (leb (b.offset + n) b.limit)) [
      | inl e ↦
          let le = leb→le (b.offset + n) b.limit e in
          (b, rw (fits, e) refl, refl, le, omega (arith, v), v.1, refl)
      | inr e ↦
          let lt : b.limit < b.offset + n = ground arith in
          let room : is_int (b.limit + k) ≡ true = ground (arith, v) in
          (
            record b { cells = b.cells ++ replicate k 0; limit = b.limit + k },
            rw (fits, e, room) refl,
            refl,
            omega (arith, v),
            omega (arith, v),
            omega (arith, v, length-append b.cells (replicate k 0), length-replicate {A = ℕ} k 0),
            seg-append b.cells (replicate k 0) b.offset (omega (arith, v)),
          )
    ]

ensure-Appends :
    (b : Buffer) (n : ℕ) (bytes : List ℕ)
    → IsValid b
    → length bytes ≡ n
    → b.offset + n + 63 < 2 ^ 31
    → Appends b bytes (ensure_capacity b n >>= λ g. put g bytes)
ensure-Appends b n bytes v e small =
    let (g, grown, at, room, near, sized, same) = ensure_lem b n v small in
    let (b', run, u, w) =
      put-Appends g bytes sized (omega (arith, e, at, room)) (omega (arith, e, at, near)) in
    (b', rw grown run, u, w ∙ ap (λ xs. xs ++ bytes) same)

pub offset-Appends :
    (b b' : Buffer) (bytes : List ℕ)
    → IsValid b
    → IsValid b'
    → written b' ≡ written b ++ bytes
    → b'.offset ≡ b.offset + length bytes
offset-Appends b b' bytes v u w =
    omega
      (arith, length-written b v, length-written b' u, ap length w, length-append (written b) bytes)

pub write_int-Appends :
    (b : Buffer) (w : ℕ)
    → IsValid b
    → b.offset + 67 < 2 ^ 31
    → Appends b (le_bytes 4 w) (write_int b w)
unfolding write_int
write_int-Appends b w v small =
    ensure-Appends b 4 (le_bytes 4 w) v (length-le_bytes 4 w) (omega (arith, small))

pub write_int64-Appends :
    (b : Buffer) (w : ℕ)
    → IsValid b
    → b.offset + 71 < 2 ^ 31
    → Appends b (le_bytes 8 w) (write_int64 b w)
unfolding write_int64
write_int64-Appends b w v small =
    ensure-Appends b 8 (le_bytes 8 w) v (length-le_bytes 8 w) (omega (arith, small))

pub write_boolean-Appends :
    (b : Buffer) (x : Bool)
    → IsValid b
    → b.offset + 64 < 2 ^ 31
    → Appends b ((if x then 1 else 0) ∷ []) (write_boolean b x)
unfolding write_boolean
write_boolean-Appends b x v small = ensure-Appends b 1 _ v refl (omega (arith, small))

pub write_string-Appends :
    (b : Buffer) (s : List ℕ)
    → IsValid b
    → b.offset + length s + 63 < 2 ^ 31
    → Appends b s (write_string b s)
unfolding write_string
write_string-Appends b s v small = ensure-Appends b (length s) s v refl small

pub write_bytes-Appends :
    (b : Buffer) (bytes : List ℕ)
    → IsValid b
    → b.offset + 4 + length bytes + 63 < 2 ^ 31
    → Appends b (le_bytes 4 (length bytes) ++ bytes) (write_bytes b bytes)
unfolding write_bytes
write_bytes-Appends b bytes v small =
    let (b', run, u, w) = write_int-Appends b (length bytes) v (omega (arith, small)) in
    let at = offset-Appends b b' _ v u w in
    let four = length-le_bytes 4 (length bytes) in
    let (b'', run', u', w') =
      ensure-Appends b' (length bytes) bytes u refl (omega (arith, small, at, four)) in
    (
      b'',
      rw run run',
      u',
      w' ∙ ap (λ xs. xs ++ bytes) w ∙ append_assoc (written b) (le_bytes 4 (length bytes)) bytes,
    )
