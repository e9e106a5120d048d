-- ===== src/Wire.antt =====
-- src/shared/connection.h, connection.cc and socket_connection.cc: the buffers in which the virtual
-- machine and the compiler exchange commands, and the frames that carry them over a socket.
-- An `int` or `int64` is the bit pattern of the value, below 2^32 or 2^64, in little endian as the
-- supported processors have it; `bit_cast` between a double and an `int64` keeps the pattern, so a
-- double is written and read as that. realloc and malloc do not fail; realloc fills new cells with
-- anything, here zeros. `none` is an access outside a buffer or an ASSERT that fails.
pub mod Words
pub mod Opcodes
pub mod Writing
pub mod Reading
pub mod RoundTrip
pub mod Sockets
pub mod Frames
mod Tests
use dartino_sdk.Base.{
  ℕ, zero, suc, ◌+◌, ◌-◌, ◌*◌, ◌/◌, ◌%◌, ◌^◌, ◌≡◌, Bool, true, false, Option, none, some, List, [],
  ◌∷◌, ◌++◌, length, take, replicate, max, ltb, leb, ◌==◌, if◌then◌else◌,
}
use dartino_sdk.Memory.{◌>>=◌, memcpy, load}

-- The `n` bytes of a word in little endian, and back.
unfoldable pub le_bytes : ℕ → ℕ → List ℕ
le_bytes zero w = []
le_bytes (suc n) w = w % 256 ∷ le_bytes n (w / 256)

pub of_le : List ℕ → ℕ
of_le [] = 0
of_le (b ∷ bs) = b + 256 * of_le bs

-- Buffer: the cells at `buffer_` (none for NULL), `buffer_offset_` and `buffer_length_`.
pub record Buffer : Type 0 where
  pub cells : List ℕ
  pub offset : ℕ
  pub limit : ℕ

pub empty : Buffer
empty = record { cells = []; offset = 0; limit = 0 }

pub set_buffer : List ℕ → ℕ → Buffer
set_buffer bytes n = record { cells = bytes; offset = 0; limit = n }

-- ClearBuffer asserts that everything was read. Offset and length stay, and are equal.
pub clear_buffer : Buffer → Option Buffer
clear_buffer b = if b.offset == b.limit then some (record b { cells = [] }) else none

abbrev pub growth_size : ℕ
growth_size = 64

-- What an `int` can hold; where a sum of EnsureCapacity would leave it, the model stops.
abbrev pub is_int : ℕ → Bool
is_int n = ltb n (2 ^ 31)

pub grow : Buffer → ℕ → Option Buffer
grow b increment =
    if is_int (b.limit + increment)
    then some (record b { cells = b.cells ++ replicate increment 0; limit = b.limit + increment })
    else none

pub ensure_capacity : Buffer → ℕ → Option Buffer
ensure_capacity b bytes =
    if is_int (b.offset + bytes)
    then (if leb (b.offset + bytes) b.limit then some b else grow b (max bytes growth_size))
    else none

-- The bytes go to the offset, and the offset moves behind them.
pub put : Buffer → List ℕ → Option Buffer
put b bytes = memcpy b.cells b.offset bytes >>= λ cells.
    some (record b { cells = cells; offset = b.offset + length bytes })

pub write_int : Buffer → ℕ → Option Buffer
write_int b value = ensure_capacity b 4 >>= λ b'. put b' (le_bytes 4 value)

pub write_int64 : Buffer → ℕ → Option Buffer
write_int64 b value = ensure_capacity b 8 >>= λ b'. put b' (le_bytes 8 value)

pub write_double : Buffer → ℕ → Option Buffer
write_double b bits = write_int64 b bits

pub write_boolean : Buffer → Bool → Option Buffer
write_boolean b value = ensure_capacity b 1 >>= λ b'. put b' ((if value then 1 else 0) ∷ [])

pub write_bytes : Buffer → List ℕ → Option Buffer
write_bytes b bytes =
    write_int b (length bytes) >>= λ b'. ensure_capacity b' (length bytes) >>= λ b''. put b'' bytes

-- WriteString writes the characters with no length.
pub write_string : Buffer → List ℕ → Option Buffer
write_string b str = ensure_capacity b (length str) >>= λ b'. put b' str

-- The next `n` bytes, with the ASSERT of each read.
pub get : Buffer → ℕ → Option (List ℕ × Buffer)
get b n =
    if leb (b.offset + n) b.limit
    then (load b.cells b.offset n >>= λ bytes. some (bytes, record b { offset = b.offset + n }))
    else none

pub read_int : Buffer → Option (ℕ × Buffer)
read_int b = get b 4 >>= λ (bytes, b'). some (of_le bytes, b')

pub read_int64 : Buffer → Option (ℕ × Buffer)
read_int64 b = get b 8 >>= λ (bytes, b'). some (of_le bytes, b')

pub read_double : Buffer → Option (ℕ × Buffer)
read_double b = read_int64 b

pub read_boolean : Buffer → Option (Bool × Buffer)
read_boolean b = get b 1 >>= λ (bytes, b'). some (of_le bytes == 1, b')

-- A negative length passes the ASSERT, and the memcpy then fails.
pub read_bytes : Buffer → Option (List ℕ × Buffer)
read_bytes b = read_int b >>= λ (len, b'). if ltb len (2 ^ 31) then get b' len else none
