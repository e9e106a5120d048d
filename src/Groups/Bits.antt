-- ===== src/Groups/Bits.antt =====
-- Setting and clearing one of the five bits of a mask.
use dartino_sdk.Base.{ℕ, zero, suc, ◌-◌, ◌<◌, ◌≡◌, not, ◌&&◌, ◌||◌, ◌==◌, arith}
use dartino_sdk.Groups.{has_bit, set_bit, clear_bit}

-- The bits by name.
pub data Bit : ℕ → Type 0 where
  bit0 : Bit 0
  bit1 : Bit 1
  bit2 : Bit 2
  bit3 : Bit 3
  bit4 : Bit 4

has_bit-set_bit_at :
    (m b c : ℕ) → Bit b → Bit c → has_bit (set_bit m b) c ≡ ((c == b) || has_bit m c)
has_bit-set_bit_at m _ _ Bit.bit0 Bit.bit0 = ground arith
has_bit-set_bit_at m _ _ Bit.bit0 Bit.bit1 = ground arith
has_bit-set_bit_at m _ _ Bit.bit0 Bit.bit2 = ground arith
has_bit-set_bit_at m _ _ Bit.bit0 Bit.bit3 = ground arith
has_bit-set_bit_at m _ _ Bit.bit0 Bit.bit4 = ground arith
has_bit-set_bit_at m _ _ Bit.bit1 Bit.bit0 = ground arith
has_bit-set_bit_at m _ _ Bit.bit1 Bit.bit1 = ground arith
has_bit-set_bit_at m _ _ Bit.bit1 Bit.bit2 = ground arith
has_bit-set_bit_at m _ _ Bit.bit1 Bit.bit3 = ground arith
has_bit-set_bit_at m _ _ Bit.bit1 Bit.bit4 = ground arith
has_bit-set_bit_at m _ _ Bit.bit2 Bit.bit0 = ground arith
has_bit-set_bit_at m _ _ Bit.bit2 Bit.bit1 = ground arith
has_bit-set_bit_at m _ _ Bit.bit2 Bit.bit2 = ground arith
has_bit-set_bit_at m _ _ Bit.bit2 Bit.bit3 = ground arith
has_bit-set_bit_at m _ _ Bit.bit2 Bit.bit4 = ground arith
has_bit-set_bit_at m _ _ Bit.bit3 Bit.bit0 = ground arith
has_bit-set_bit_at m _ _ Bit.bit3 Bit.bit1 = ground arith
has_bit-set_bit_at m _ _ Bit.bit3 Bit.bit2 = ground arith
has_bit-set_bit_at m _ _ Bit.bit3 Bit.bit3 = ground arith
has_bit-set_bit_at m _ _ Bit.bit3 Bit.bit4 = ground arith
has_bit-set_bit_at m _ _ Bit.bit4 Bit.bit0 = ground arith
has_bit-set_bit_at m _ _ Bit.bit4 Bit.bit1 = ground arith
has_bit-set_bit_at m _ _ Bit.bit4 Bit.bit2 = ground arith
has_bit-set_bit_at m _ _ Bit.bit4 Bit.bit3 = ground arith
has_bit-set_bit_at m _ _ Bit.bit4 Bit.bit4 = ground arith

has_bit-clear_bit_at :
    (m b c : ℕ) → Bit b → Bit c → has_bit (clear_bit m b) c ≡ (not (c == b) && has_bit m c)
has_bit-clear_bit_at m _ _ Bit.bit0 Bit.bit0 = ground arith
has_bit-clear_bit_at m _ _ Bit.bit0 Bit.bit1 = ground arith
has_bit-clear_bit_at m _ _ Bit.bit0 Bit.bit2 = ground arith
has_bit-clear_bit_at m _ _ Bit.bit0 Bit.bit3 = ground arith
has_bit-clear_bit_at m _ _ Bit.bit0 Bit.bit4 = ground arith
has_bit-clear_bit_at m _ _ Bit.bit1 Bit.bit0 = ground arith
has_bit-clear_bit_at m _ _ Bit.bit1 Bit.bit1 = ground arith
has_bit-clear_bit_at m _ _ Bit.bit1 Bit.bit2 = ground arith
has_bit-clear_bit_at m _ _ Bit.bit1 Bit.bit3 = ground arith
has_bit-clear_bit_at m _ _ Bit.bit1 Bit.bit4 = ground arith
has_bit-clear_bit_at m _ _ Bit.bit2 Bit.bit0 = ground arith
has_bit-clear_bit_at m _ _ Bit.bit2 Bit.bit1 = ground arith
has_bit-clear_bit_at m _ _ Bit.bit2 Bit.bit2 = ground arith
has_bit-clear_bit_at m _ _ Bit.bit2 Bit.bit3 = ground arith
has_bit-clear_bit_at m _ _ Bit.bit2 Bit.bit4 = ground arith
has_bit-clear_bit_at m _ _ Bit.bit3 Bit.bit0 = ground arith
has_bit-clear_bit_at m _ _ Bit.bit3 Bit.bit1 = ground arith
has_bit-clear_bit_at m _ _ Bit.bit3 Bit.bit2 = ground arith
has_bit-clear_bit_at m _ _ Bit.bit3 Bit.bit3 = ground arith
has_bit-clear_bit_at m _ _ Bit.bit3 Bit.bit4 = ground arith
has_bit-clear_bit_at m _ _ Bit.bit4 Bit.bit0 = ground arith
has_bit-clear_bit_at m _ _ Bit.bit4 Bit.bit1 = ground arith
has_bit-clear_bit_at m _ _ Bit.bit4 Bit.bit2 = ground arith
has_bit-clear_bit_at m _ _ Bit.bit4 Bit.bit3 = ground arith
has_bit-clear_bit_at m _ _ Bit.bit4 Bit.bit4 = ground arith

lt-Bit : (b : ℕ) → b < 5 → Bit b
lt-Bit zero h = Bit.bit0
lt-Bit (suc zero) h = Bit.bit1
lt-Bit (suc (suc zero)) h = Bit.bit2
lt-Bit (suc (suc (suc zero))) h = Bit.bit3
lt-Bit (suc (suc (suc (suc zero)))) h = Bit.bit4
lt-Bit (suc (suc (suc (suc (suc b))))) h = absurd (omega arith)

pub has_bit-set_bit :
    (m b c : ℕ) → b < 5 → c < 5 → has_bit (set_bit m b) c ≡ ((c == b) || has_bit m c)
has_bit-set_bit m b c h k = has_bit-set_bit_at m b c (lt-Bit b h) (lt-Bit c k)

pub has_bit-clear_bit :
    (m b c : ℕ) → b < 5 → c < 5 → has_bit (clear_bit m b) c ≡ (not (c == b) && has_bit m c)
has_bit-clear_bit m b c h k = has_bit-clear_bit_at m b c (lt-Bit b h) (lt-Bit c k)

-- Groups that differ have bits that differ.
pub pred_same : (a b : ℕ) → 0 < a → 0 < b → (a - 1 == b - 1) ≡ (a == b)
pred_same a b h k = ground arith
