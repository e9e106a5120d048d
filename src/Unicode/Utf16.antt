-- ===== src/Unicode/Utf16.antt =====
-- A code point above 0xFFFF as a pair of surrogates.
use dartino_sdk.Base.{ℕ, ◌+◌, ◌/◌, ◌%◌, ◌≤◌, ◌<◌, ◌≡◌, refl, true, some, arith, lt→ltb}
use dartino_sdk.Unicode.{max_code_point, is_lead_surrogate, is_trail_surrogate, encode16, decode16}

-- For every code point above U+FFFF and up to U+10FFFF, Utf16::Encode writes a lead and a trail
-- surrogate, and Utf16::Decode gives the code point back.
pub decode16-encode16 :
    (ch : ℕ)
    → 65535 < ch
    → ch ≤ max_code_point
    → (lead trail : ℕ) × (encode16 ch ≡ some (lead, trail))
      × (is_lead_surrogate lead ≡ true)
      × (is_trail_surrogate trail ≡ true)
      × (decode16 lead trail ≡ ch)
unfolding encode16 decode16
decode16-encode16 ch low high = (
  55232 + ch / 1024,
  56320 + ch % 1024,
  rw (lt→ltb 65535 ch low) refl,
  ground arith,
  ground arith,
  omega arith,
)
