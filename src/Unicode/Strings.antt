-- ===== src/Unicode/Strings.antt =====
-- src/vm/unicode.cc: the loops over a string. A position in an array is what is left of it.
pub mod Bytes
pub mod Count
pub mod Decoding
pub mod Encoding
pub mod InBounds
use dartino_sdk.Base.{
  ℕ, zero, suc, ◌+◌, ◌-◌, ◌%◌, ◌^◌, Bool, true, false, not, ◌&&◌, Option, none, some, List, [], ◌∷◌,
  ◌++◌, drop, ltb, leb, if◌then◌else◌,
}
use dartino_sdk.Unicode.{
  is_trail_byte, is_lead_surrogate, is_trail_surrogate, length8, encode8, decode8, encode16,
  decode16,
}

pub data Utf8Type : Type 0 where
  latin1 bmp supplementary : Utf8Type

abbrev pub is_latin1_sequence_start : ℕ → Bool
is_latin1_sequence_start code_unit = leb code_unit 195

abbrev pub is_supplementary_sequence_start : ℕ → Bool
is_supplementary_sequence_start code_unit = leb 240 code_unit

-- `else if (char_type == kLatin1) char_type = kBMP`.
abbrev pub at_least_bmp : Utf8Type → Utf8Type
at_least_bmp Utf8Type.latin1 = Utf8Type.bmp
at_least_bmp t = t

-- A round of the loop of Utf8::CodeUnitCount: `len` and `char_type`.
abbrev pub count_step : ℕ → ℕ × Utf8Type → ℕ × Utf8Type
count_step code_unit (len, t) =
    if is_trail_byte code_unit
    then (len, t)
    else if is_latin1_sequence_start code_unit
    then (len + 1, t)
    else if is_supplementary_sequence_start code_unit
    then (len + 2, Utf8Type.supplementary)
    else (len + 1, at_least_bmp t)

pub count_loop : List ℕ → ℕ × Utf8Type → ℕ × Utf8Type
count_loop [] s = s
count_loop (u ∷ us) s = count_loop us (count_step u s)

pub code_unit_count : List ℕ → ℕ × Utf8Type
code_unit_count us = count_loop us (0, Utf8Type.latin1)

-- CodePointIterator::Next: the code point, and what is left behind it.
pub next_code_point : List ℕ → Option (ℕ × List ℕ)
next_code_point [] = none
next_code_point (u ∷ []) = some (u, [])
next_code_point (u ∷ v ∷ us) =
    if is_lead_surrogate u && is_trail_surrogate v
    then some (decode16 u v, us)
    else some (u, v ∷ us)

abbrev pub join : Option (List ℕ) → Option (List ℕ) → Option (List ℕ)
join (some bytes) (some more) = some (bytes ++ more)
join _ _ = none

-- A round of Utf8::Encode of a string: it ends where the bytes of a code point do not fit, and otherwise
-- goes on with what is left of `len`.
abbrev pub put : Option ℕ → Option (List ℕ) → ℕ → (ℕ → Option (List ℕ)) → Option (List ℕ)
put none bytes len go_on = none
put (some num_bytes) bytes len go_on =
    if leb num_bytes len then join bytes (go_on (len - num_bytes)) else some []

abbrev pub encode_next : Option (ℕ × List ℕ) → ℕ → (List ℕ → ℕ → Option (List ℕ)) → Option (List ℕ)
encode_next none len go_on = some []
encode_next (some (ch, rest)) len go_on = put (length8 ch) (encode8 ch) len (go_on rest)

-- The bytes that are written: none where an ASSERT fails or the fuel ends.
pub encode_string : ℕ → List ℕ → ℕ → Option (List ℕ)
encode_string zero units len = none
encode_string (suc fuel) units len =
    encode_next (next_code_point units) len λ rest len. encode_string fuel rest len

abbrev pub plus : Option ℕ → Option ℕ → Option ℕ
plus (some n) (some m) = some (n + m)
plus _ _ = none

abbrev pub length_next : Option (ℕ × List ℕ) → (List ℕ → Option ℕ) → Option ℕ
length_next none go_on = some 0
length_next (some (ch, rest)) go_on = plus (length8 ch) (go_on rest)

-- Utf8::Length of a string.
pub length_string : ℕ → List ℕ → Option ℕ
length_string zero units = none
length_string (suc fuel) units = length_next (next_code_point units) λ rest. length_string fuel rest

abbrev pub written : List ℕ → Option (Bool × List ℕ) → Option (Bool × List ℕ)
written units none = none
written units (some (done, more)) = some (done, units ++ more)

-- A surrogate pair, the second unit of which may not fit.
abbrev pub store_pair : Option (ℕ × ℕ) → ℕ → (ℕ → Option (Bool × List ℕ)) → Option (Bool × List ℕ)
store_pair none room go_on = none
store_pair (some (lead, trail)) zero go_on = none
store_pair (some (lead, trail)) (suc room) go_on = written (lead ∷ trail ∷ []) (go_on room)

-- A round of Utf8::DecodeToUTF16, behind Decode and with a first unit that fits: `room` more do.
abbrev pub store :
    Option (Option ℕ × ℕ) → Bool → ℕ → (ℕ → ℕ → Option (Bool × List ℕ)) → Option (Bool × List ℕ)
store none is_supplementary room go_on = none
store (some (none, num_bytes)) is_supplementary room go_on = some (false, [])
store (some (some ch, num_bytes)) false room go_on =
    written (ch % 2 ^ 16 ∷ []) (go_on num_bytes room)
store (some (some ch, num_bytes)) true room go_on = store_pair (encode16 ch) room (go_on num_bytes)

-- The result, and the units written. `room` of them fit into `dst`; a unit behind it is `none`.
pub decode_to_utf16 : ℕ → List ℕ → ℕ → Option (Bool × List ℕ)
decode_to_utf16 zero us room = none
decode_to_utf16 (suc fuel) [] room = some (true, [])
decode_to_utf16 (suc fuel) (u ∷ us) zero = some (false, [])
decode_to_utf16 (suc fuel) (u ∷ us) (suc room) =
    store (decode8 (u ∷ us)) (is_supplementary_sequence_start u) room
      λ num_bytes room. decode_to_utf16 fuel (drop num_bytes (u ∷ us)) room
