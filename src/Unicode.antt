-- ===== src/Unicode.antt =====
-- src/vm/unicode.h and unicode.cc: one code point in UTF-8 and in UTF-16. A code point is not negative
-- here; -1 in `dst` is `none`. An `or` of bits that are not set is a sum, and `0x80 | (x & kMask)` in a
-- byte is 128 and the low six bits of `x`.
pub mod Utf8
pub mod Shortest
pub mod Utf16
pub mod Strings
mod Tests
use dartino_sdk.Base.{
  ℕ, zero, suc, ◌+◌, ◌-◌, ◌*◌, ◌/◌, ◌%◌, ◌^◌, Bool, true, false, not, ◌&&◌, ◌||◌, Option, none,
  some, List, [], ◌∷◌, ltb, leb, ◌==◌, if◌then◌else◌,
}

abbrev pub max_code_point : ℕ
max_code_point = 1114111

abbrev pub is_out_of_range : ℕ → Bool
is_out_of_range code_point = ltb max_code_point code_point

-- `(code_unit & 0xC0) == 0x80`.
abbrev pub is_trail_byte : ℕ → Bool
is_trail_byte code_unit = code_unit / 64 % 4 == 2

-- kTrailBytes, a table of 256 entries, by its runs.
abbrev pub trail_bytes : ℕ → ℕ
trail_bytes ch =
    if ltb ch 128
    then 1
    else if ltb ch 192
    then 0
    else if ltb ch 224
    then 2
    else if ltb ch 240
    then 3
    else if ltb ch 248
    then 4
    else if ltb ch 252
    then 5
    else if ltb ch 254
    then 6
    else 0

-- kMagicBits and kOverlongMinimum, of seven entries each.
abbrev pub magic_bits : ℕ → ℕ
magic_bits n =
    if n == 2
    then 12416
    else if n == 3
    then 925824
    else if n == 4
    then 63447168
    else if n == 5
    then 4194836608
    else if n == 6
    then 2181570688
    else 0

abbrev pub overlong_minimum : ℕ → ℕ
overlong_minimum n =
    if n == 2
    then 128
    else if n == 3
    then 2048
    else if n == 4
    then 65536
    else if leb 5 n
    then 4294967295
    else 0

pub length8 : ℕ → Option ℕ
length8 ch =
    if leb ch 127
    then some 1
    else if leb ch 2047
    then some 2
    else if leb ch 65535
    then some 3
    else if leb ch max_code_point
    then some 4
    else none

pub encode8 : ℕ → Option (List ℕ)
encode8 ch =
    if leb ch 127
    then some (ch ∷ [])
    else if leb ch 2047
    then some ((192 + ch / 64) ∷ (128 + ch % 64) ∷ [])
    else if leb ch 65535
    then some ((224 + ch / 4096) ∷ (128 + ch / 64 % 64) ∷ (128 + ch % 64) ∷ [])
    else if leb ch max_code_point
    then some
        ((240 + ch / 262144) ∷ (128 + ch / 4096 % 64) ∷ (128 + ch / 64 % 64) ∷ (128 + ch % 64) ∷ [])
    else none

-- Decode's loop, with `left` trail bytes to go: `ch` and `is_malformed`, or none at the array's end.
pub trail : ℕ → List ℕ → ℕ → Bool → Option (ℕ × Bool)
trail zero us ch is_malformed = some (ch, is_malformed)
trail (suc left) [] ch is_malformed = none
trail (suc left) (u ∷ us) ch is_malformed =
    trail left us ((ch * 64 % 2 ^ 32 + u) % 2 ^ 32) (is_malformed || not (is_trail_byte u))

-- The tests behind the loop, which ends with `i` at 1 or at `n`: `dst` and the result.
pub finish : ℕ → ℕ → Option (ℕ × Bool) → Option ℕ × ℕ
finish n i none = (none, 0)
finish n i (some (sum, is_malformed)) =
    let ch = (sum + 2 ^ 32 - magic_bits n) % 2 ^ 32 in
    if ((not is_malformed && (i == n)) && not (is_out_of_range ch))
      && not (ltb ch (overlong_minimum i))
    then (some ch, i)
    else (none, 0)

-- Utf8::Decode; an empty array has no first byte.
pub decode8 : List ℕ → Option (Option ℕ × ℕ)
decode8 [] = none
decode8 (ch ∷ us) =
    if leb 128 ch
    then some (
        finish (trail_bytes ch) (1 + (trail_bytes ch - 1)) (trail (trail_bytes ch - 1) us ch false))
    else some (some ch, 1)

abbrev pub is_lead_surrogate : ℕ → Bool
is_lead_surrogate ch = ch / 1024 == 54

abbrev pub is_trail_surrogate : ℕ → Bool
is_trail_surrogate ch = ch / 1024 == 55

-- Utf16::Encode, with its ASSERT; kLeadSurrogateOffset is 0xD800 - (0x10000 >> 10).
pub encode16 : ℕ → Option (ℕ × ℕ)
encode16 codepoint =
    if ltb 65535 codepoint then some (55232 + codepoint / 1024, 56320 + codepoint % 1024) else none

pub decode16 : ℕ → ℕ → ℕ
decode16 lead trail = 65536 + lead % 1024 * 1024 + trail % 1024
