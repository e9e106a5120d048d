-- ===== src/Circular/View.antt =====
-- The ring seen as a queue of bytes.
use dartino_sdk.Base.{
  ℕ, ◌+◌, ◌-◌, ◌%◌, ◌≤◌, ◌<◌, ◌≡◌, List, [], ◌++◌, arith, length, leb, ◌==◌, if◌then◌else◌,
  length-append, length-replicate,
}
use native.Mathlib.Nat.{mod-eq_of_lt, mod_self}
use dartino_sdk.Memory.{seg, length-seg, seg_zero}
use dartino_sdk.Circular.{CircularBuffer, init, is_empty, is_full, IsValid}

-- The bytes that the ring holds, oldest first.
unfoldable pub contents : CircularBuffer → List ℕ
contents b =
    if leb b.tail b.head
    then seg b.buffer b.tail (b.head - b.tail)
    else seg b.buffer b.tail (b.capacity - b.tail) ++ seg b.buffer 0 b.head

unfoldable pub size : CircularBuffer → ℕ
size b = if leb b.tail b.head then b.head - b.tail else (b.capacity - b.tail) + b.head

pub length-contents : {b : CircularBuffer} → IsValid b → length (contents b) ≡ size b
unfolding contents size
length-contents {b} v = ground (
  arith,
  length-seg b.buffer b.tail (b.head - b.tail),
  length-seg b.buffer b.tail (b.capacity - b.tail),
  length-seg b.buffer 0 b.head,
  length-append (seg b.buffer b.tail (b.capacity - b.tail)) (seg b.buffer 0 b.head),
)

-- An index that has moved up to the end of the block wraps to 0.
pub wrap_cases : (i n : ℕ) → i ≤ n → 0 < n → i % n ≡ (if i == n then 0 else i)
wrap_cases i n h p = grind (arith, mod-eq_of_lt, mod_self)

-- A new buffer is valid and empty.
pub init-IsValid : (capacity : ℕ) → IsValid (init capacity) × (contents (init capacity) ≡ [])
unfolding init contents
init-IsValid capacity = (
  record {
    sized = length-replicate (capacity + 1) 0;
    head_in = omega arith;
    tail_in = omega arith;
  },
  seg_zero _ 0,
)

-- On a valid ring IsEmpty tells whether no byte is held, and IsFull whether one byte less than
-- the block is.
pub is_full-size :
    {b : CircularBuffer}
    → IsValid b
    → (is_empty b ≡ (size b == 0)) × (is_full b ≡ (size b + 1 == b.capacity))
unfolding is_empty is_full size
is_full-size {b} v =
    (ground arith, ground (arith, wrap_cases (b.head + 1) b.capacity (omega arith) (omega arith)))

-- One cell always stays free.
pub size_bound : {b : CircularBuffer} → IsValid b → size b < b.capacity
unfolding size
size_bound {b} v = ground (arith, v.head_in, v.tail_in)

-- How many more bytes fit.
abbrev pub room : CircularBuffer → ℕ
room b = b.capacity - 1 - size b
