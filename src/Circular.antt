-- ===== src/Circular.antt =====
-- src/freertos/circular_buffer.h and circular_buffer.cc: the byte ring behind the UART and the
-- console, one cell larger than what it holds. A memcpy outside the block is `none`, and so is a count
-- of Read that leaves an int.
-- `size_t` sums stay below twice the block's size, so they do not wrap.
pub mod View
pub mod Write
pub mod Read
mod Tests
use dartino_sdk.Base.{
  ℕ, ◌+◌, ◌-◌, ◌%◌, ◌^◌, ◌<◌, ◌≡◌, Bool, Option, none, some, List, [], ◌++◌, min, length, take,
  drop, replicate, ltb, leb, ◌==◌, if◌then◌else◌,
}
use dartino_sdk.Memory.{◌>>=◌, memcpy, load}

pub record CircularBuffer : Type 0 where
  pub buffer : List ℕ
  pub capacity : ℕ
  pub head : ℕ
  pub tail : ℕ

-- The constructor. `new` leaves the cells as they were found; the model has zeros there.
pub init : ℕ → CircularBuffer
init capacity = record {
  buffer = replicate (capacity + 1) 0;
  capacity = capacity + 1;
  head = 0;
  tail = 0;
}

pub is_empty : CircularBuffer → Bool
is_empty b = b.head == b.tail

pub is_full : CircularBuffer → Bool
is_full b = (b.head + 1) % b.capacity == b.tail

-- What an `int` of Read can hold; where `bytes` or `read` would leave it, the model stops.
abbrev pub is_int : ℕ → Bool
is_int n = ltb n (2 ^ 31)

-- The first half of Read: from the tail to the end of the block.
pub read_upper : CircularBuffer → ℕ → Option (List ℕ × CircularBuffer)
read_upper b count =
    if ltb b.head b.tail
    then (let bytes = min (b.capacity - b.tail) count in
        if is_int bytes
        then (load b.buffer b.tail bytes >>= λ out.
            some (out, record b { tail = (b.tail + bytes) % b.capacity }))
        else none)
    else some ([], b)

-- The second half: from the tail to the head.
pub read_lower : CircularBuffer → ℕ → Option (List ℕ × CircularBuffer)
read_lower b count =
    if ltb b.tail b.head
    then (let bytes = min (b.head - b.tail) count in
        if is_int bytes
        then (load b.buffer b.tail bytes >>= λ out.
            some (out, record b { tail = (b.tail + bytes) % b.capacity }))
        else none)
    else some ([], b)

-- Read: the bytes stored to `data`, and the buffer after.
pub read : CircularBuffer → ℕ → Option (List ℕ × CircularBuffer)
read b count = read_upper b count >>= λ (first, b').
    read_lower b' (count - length first) >>= λ (second, b'').
    if is_int (length first + length second) then some (first ++ second, b'') else none

-- The first half of Write: from the head to the end of the block.
pub write_upper : CircularBuffer → List ℕ → Option (ℕ × CircularBuffer)
write_upper b src =
    if leb b.tail b.head
    then (let bytes = min ((b.capacity - b.head) - (if b.tail == 0 then 1 else 0)) (length src) in
        memcpy b.buffer b.head (take bytes src) >>= λ buf.
        some (bytes, record b { buffer = buf; head = (b.head + bytes) % b.capacity }))
    else some (0, b)

-- The second half: from the head to just before the tail.
pub write_lower : CircularBuffer → List ℕ → Option (ℕ × CircularBuffer)
write_lower b src =
    if ltb b.head b.tail
    then (let bytes = min (b.tail - b.head - 1) (length src) in
        memcpy b.buffer b.head (take bytes src) >>= λ buf.
        some (bytes, record b { buffer = buf; head = (b.head + bytes) % b.capacity }))
    else some (0, b)

-- Write: how many bytes of `data` were taken, and the buffer after.
pub write : CircularBuffer → List ℕ → Option (ℕ × CircularBuffer)
write b src = write_upper b src >>= λ (first, b').
    write_lower b' (drop first src) >>= λ (second, b''). some (first + second, b'')

-- The block has `capacity` cells, and both indices lie in it.
pub record IsValid (b : CircularBuffer) : Type 0 where
  pub sized : length b.buffer ≡ b.capacity
  pub head_in : b.head < b.capacity
  pub tail_in : b.tail < b.capacity
