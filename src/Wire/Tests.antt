-- ===== src/Wire/Tests.antt =====
-- A command of three fields that crosses a slow line.
use dartino_sdk.Base.{ℕ, ◌≡◌, refl, true, some, List, [], ◌∷◌, ◌++◌, length, arith, min}
use dartino_sdk.Memory.{seg}
use dartino_sdk.Wire.{Buffer, le_bytes, empty}
use dartino_sdk.Wire.RoundTrip.{Field, ReadsAll, write_all, encode, encode_all}
use dartino_sdk.Wire.Opcodes.{Opcode, code}
use dartino_sdk.Wire.Sockets.{
  Delivers, Accepts, socket_read, socket_write, socket_read_lem, socket_write_lem,
}
use dartino_sdk.Wire.Frames.{send, receive, receive-send}

abbrev fields : List Field
fields = Field.int 258 ∷ Field.boolean true ∷ Field.bytes (7 ∷ 8 ∷ 9 ∷ []) ∷ []

-- At most two bytes of what is there, and one byte at a time.
abbrev two_bytes : ℕ → ℕ → ℕ
two_bytes n p = min n (min p 2)

abbrev one_byte : ℕ → ℕ
one_byte n = 1

two_bytes-Delivers : Delivers two_bytes
two_bytes-Delivers n p = (λ h h'. omega arith, omega arith, omega arith)

one_byte-Accepts : Accepts one_byte
one_byte-Accepts n h = (omega arith, h)

encode_all-fields : length (encode_all fields) ≡ 12
unfolding encode_all encode le_bytes
encode_all-fields = refl

socket_read_lem_example :
    socket_read two_bytes 3 (1 ∷ 2 ∷ 3 ∷ 4 ∷ []) ≡ some (some (1 ∷ 2 ∷ 3 ∷ []), 4 ∷ [])
socket_read_lem_example = socket_read_lem two_bytes two_bytes-Delivers 3 (1 ∷ 2 ∷ 3 ∷ 4 ∷ [])

socket_write_lem_example : socket_write one_byte (1 ∷ 2 ∷ 3 ∷ []) 2 (9 ∷ []) ≡ some (9 ∷ 1 ∷ 2 ∷ [])
unfolding seg
socket_write_lem_example = socket_write_lem one_byte one_byte-Accepts (1 ∷ 2 ∷ 3 ∷ []) 2 (9 ∷ [])

receive-send_example :
    (b r' : Buffer) × (m : List ℕ) × (write_all empty fields ≡ some b)
    × (send one_byte Opcode.process_run b [] ≡ some ([] ++ m))
    × (receive two_bytes empty (m ++ 5 ∷ []) ≡ some (code Opcode.process_run, r', 5 ∷ []))
    × ReadsAll fields r'
unfolding empty
receive-send_example =
    receive-send one_byte one_byte-Accepts two_bytes two_bytes-Delivers Opcode.process_run fields
      empty [] (5 ∷ []) (omega arith, (tt, (omega arith, tt))) refl
      (omega (arith, encode_all-fields))
