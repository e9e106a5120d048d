-- ===== src/Bytecodes/Walk.antt =====
-- Bytecode::Print and Bytecode::PreviousBytecode, on the bytes of memory from some address on; a
-- bytecode pointer is an index. `none` is a read outside of them, an ASSERT that fails, or a lack of
-- fuel.
pub mod Previous
pub mod Operands
pub mod Sizes
use dartino_sdk.Base.{
  ℕ, zero, suc, ◌+◌, ◌-◌, ◌/◌, ◌^◌, ◌≡◌, Bool, true, false, Option, none, some, List, [], ◌∷◌,
  length, ltb, leb, ◌==◌, if◌then◌else◌, get_elem?, String,
}
use dartino_sdk.Memory.{◌>>=◌, load}
use dartino_sdk.Wire.{of_le}
use dartino_sdk.Bytecodes.{Format, size, print_format, bytecode_format, method_end}

-- Utils::ReadInt32, as the bit pattern.
pub read_int32 : List ℕ → ℕ → Option ℕ
read_int32 bytes i = load bytes i 4 >>= λ word. some (of_le word)

-- The operands that Print passes on.
pub operands : Format → List ℕ → ℕ → Option (List ℕ)
operands Format.nothing bytes bcp = some []
operands Format.byte bytes bcp = get_elem? bytes (bcp + 1) >>= λ x. some (x ∷ [])
operands Format.int bytes bcp = read_int32 bytes (bcp + 1) >>= λ x. some (x ∷ [])
operands Format.byte_byte bytes bcp =
    get_elem? bytes (bcp + 1) >>= λ x. get_elem? bytes (bcp + 2) >>= λ y. some (x ∷ y ∷ [])
operands Format.int_byte bytes bcp =
    read_int32 bytes (bcp + 1) >>= λ x. get_elem? bytes (bcp + 5) >>= λ y. some (x ∷ y ∷ [])
operands Format.byte_int bytes bcp =
    get_elem? bytes (bcp + 1) >>= λ x. read_int32 bytes (bcp + 2) >>= λ y. some (x ∷ y ∷ [])
operands Format.int_int bytes bcp =
    read_int32 bytes (bcp + 1) >>= λ x. read_int32 bytes (bcp + 5) >>= λ y. some (x ∷ y ∷ [])

-- What Print hands to Print::Out, and its result.
pub print : List ℕ → ℕ → Option ((String × List ℕ) × ℕ)
print bytes bcp = get_elem? bytes bcp >>= λ opcode. bytecode_format opcode >>= λ format.
    print_format opcode >>= λ text.
    operands format bytes bcp >>= λ values. size opcode >>= λ n. some ((text, values), n)

-- The first loop: forward to the method's end.
pub find_end : ℕ → List ℕ → ℕ → Option ℕ
find_end zero bytes bcp = none
find_end (suc fuel) bytes bcp = get_elem? bytes bcp >>= λ opcode.
    if opcode == method_end then some bcp else (size opcode >>= λ n. find_end fuel bytes (bcp + n))

-- `bcp -= value >> 1`, where the shift of a negative value rounds down; `none` is below the bytes.
pub go_back : ℕ → ℕ → Option ℕ
go_back bcp value =
    if ltb value (2 ^ 31)
    then (if leb (value / 2) bcp then some (bcp - value / 2) else none)
    else some (bcp + (2 ^ 32 - value + 1) / 2)

-- The second loop; a NULL `previous` is the `none` inside.
pub walk : ℕ → List ℕ → ℕ → ℕ → Option ℕ → Option (Option ℕ)
walk zero bytes current bcp previous = none
walk (suc fuel) bytes current bcp previous =
    if bcp == current
    then some previous
    else (get_elem? bytes bcp >>= λ opcode.
        size opcode >>= λ n. walk fuel bytes current (bcp + n) (some bcp))

pub previous_bytecode : List ℕ → ℕ → Option (Option ℕ)
previous_bytecode bytes current = find_end (suc (length bytes)) bytes current >>= λ end.
    read_int32 bytes (end + 1) >>= λ value.
    go_back end value >>= λ start. walk (suc (length bytes)) bytes current start none
