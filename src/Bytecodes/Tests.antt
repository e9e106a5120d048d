-- ===== src/Bytecodes/Tests.antt =====
-- The opcodes by their names, and a method of three instructions.
use dartino_sdk.Base.{
  ℕ, ◌+◌, ◌-◌, ◌≤◌, ◌<◌, ◌≡◌, refl, true, Option, none, some, List, [], ◌∷◌, arith, get_elem?,
  length, String,
}
use dartino_sdk.Memory.{◌>>=◌, seg}
use dartino_sdk.Wire.{le_bytes}
use dartino_sdk.Bytecodes.{
  Base, Format, bytecodes, loads, others, lasts, invokes, invoke, invoke_bases, size,
  bytecode_format, stack_diff, is_invoke, is_invoke_unfold, invoke_method, invoke_bit_shl,
  invoke_static, invoke_factory, invoke_method_unfold, invoke_bit_shl_unfold, method_end,
  num_bytecodes, unfold_offset,
}
use dartino_sdk.Bytecodes.Walk.Operands.{encoded}
use dartino_sdk.Bytecodes.Walk.Sizes.{print-size}
use dartino_sdk.Bytecodes.Unfold.{is_invoke_unfold-is_invoke}
use dartino_sdk.Bytecodes.Walk.{previous_bytecode, print}
use dartino_sdk.Bytecodes.Walk.Previous.{
  Instruction, Method, code, previous_bytecode_lem, previous_bytecode-start,
}

abbrev name_of : ℕ → Option String
name_of opcode = get_elem? bytecodes opcode >>= λ r. some r.name

opcode_names :
    (length bytecodes ≡ num_bytecodes)
    × (name_of invoke_method ≡ some "InvokeMethod")
    × (name_of invoke_bit_shl ≡ some "InvokeBitShl")
    × (name_of invoke_static ≡ some "InvokeStatic")
    × (name_of invoke_factory ≡ some "InvokeFactory")
    × (name_of invoke_method_unfold ≡ some "InvokeMethodUnfold")
    × (name_of invoke_bit_shl_unfold ≡ some "InvokeBitShlUnfold")
    × (name_of method_end ≡ some "MethodEnd")
unfolding bytecodes loads others lasts invokes invoke invoke_bases
opcode_names = (refl, refl, refl, refl, refl, refl, refl, refl)

-- Add and AddUnfold.
is_invoke_unfold-is_invoke_example :
    (is_invoke_unfold (32 + unfold_offset) ≡ true)
    × (size (32 + unfold_offset) ≡ size 32)
    × (bytecode_format (32 + unfold_offset) ≡ bytecode_format 32)
    × (stack_diff (32 + unfold_offset) ≡ stack_diff 32)
    × (b : Base) × (get_elem? bytecodes 32 ≡ some (invoke "" "" b))
    × (get_elem? bytecodes (32 + unfold_offset) ≡ some (invoke "Unfold" "unfold " b))
unfolding is_invoke
is_invoke_unfold-is_invoke_example = is_invoke_unfold-is_invoke 32 refl

-- LoadLocal with its operand.
print-size_example :
    (0 + 2 ≤ 2
      → (f : Format) × (text : String) × (values : List ℕ) × (bytecode_format 6 ≡ some f)
        × (print (6 ∷ 9 ∷ []) 0 ≡ some ((text, values), 2))
        × (encoded f values ≡ seg (6 ∷ 9 ∷ []) (0 + 1) (2 - 1)))
    × (2 < 0 + 2 → print (6 ∷ 9 ∷ []) 0 ≡ none)
unfolding size bytecodes loads others lasts invokes invoke invoke_bases
print-size_example = print-size (6 ∷ 9 ∷ []) 0 6 2 (omega arith, (omega arith, tt)) refl refl

load_local_0 : Instruction
unfolding size bytecodes loads others lasts invokes invoke invoke_bases
load_local_0 = record { opcode = 0; operands = []; not_end = refl; sized = refl }

load_local : Instruction
unfolding size bytecodes loads others lasts invokes invoke invoke_bases
load_local = record { opcode = 6; operands = 9 ∷ []; not_end = refl; sized = refl }

abbrev body : List Instruction
body = load_local_0 ∷ load_local ∷ []

abbrev memory : List ℕ
memory = 77 ∷ 0 ∷ 6 ∷ 9 ∷ 99 ∷ 7 ∷ 0 ∷ 0 ∷ 0 ∷ []

memory-Method : Method memory 1 body
unfolding load_local_0 load_local code le_bytes
memory-Method = record {
  flag = 1;
  rest = [];
  flag_bit = omega arith;
  short = omega arith;
  stands = refl;
}

previous_bytecode_lem_example : previous_bytecode memory 4 ≡ some (some 2)
unfolding load_local_0 load_local code
previous_bytecode_lem_example =
    previous_bytecode_lem memory 1 body memory-Method (load_local_0 ∷ []) [] load_local refl

previous_bytecode-start_example : previous_bytecode memory 1 ≡ some none
previous_bytecode-start_example = previous_bytecode-start memory 1 body memory-Method
