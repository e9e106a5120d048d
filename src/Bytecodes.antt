-- ===== src/Bytecodes.antt =====
-- src/shared/bytecodes.h and bytecodes.cc: the table of bytecodes and what is looked up in it. An
-- opcode is its place in the table, a byte; a signed byte is the bit pattern. `none` is an ASSERT
-- that fails.
pub mod Unfold
pub mod Walk
mod Tests
use dartino_sdk.Base.{
  ℕ, ◌+◌, ◌-◌, ◌≡◌, Bool, true, false, ◌&&◌, ◌||◌, Option, none, some, List, [], ◌∷◌, ◌++◌, map,
  leb, get_elem?, String, join,
}
use dartino_sdk.Memory.{◌>>=◌}

-- The format strings of the table, by their letters: B is a byte, I an int32; `nothing` is the empty one.
pub data Format : Type 0 where
  nothing byte int byte_byte int_byte byte_int int_int : Format

pub record Row : Type 0 where
  pub name : String
  pub branching : Bool
  pub format : Format
  pub size : ℕ
  pub stack_diff : ℕ
  pub print : String

abbrev row : String → Bool → Format → ℕ → ℕ → String → Row
row name branching format size stack_diff print = record {
  name = name;
  branching = branching;
  format = format;
  size = size;
  stack_diff = stack_diff;
  print = print;
}

abbrev minus_one : ℕ
minus_one = 255

-- kVarDiff.
abbrev pub var_diff : ℕ
var_diff = 127

-- The arguments that INVOKES_DO gives to INVOKE, beside its own.
pub record Base : Type 0 where
  pub name : String
  pub diff : ℕ
  pub desc : String

abbrev base : String → ℕ → String → Base
base name diff desc = record { name = name; diff = diff; desc = desc }

pub invoke : String → String → Base → Row
invoke suffix type b =
    row (join "Invoke" (join b.name suffix)) true Format.int 5 b.diff
      (join "invoke " (join type (join b.desc "%d")))

pub invoke_bases : List Base
invoke_bases =
    base "Method" var_diff "method "
    ∷ base "Test" 0 "test "
    ∷ base "Eq" minus_one "eq "
    ∷ base "Lt" minus_one "lt "
    ∷ base "Le" minus_one "le "
    ∷ base "Gt" minus_one "gt "
    ∷ base "Ge" minus_one "ge "
    ∷ base "Add" minus_one "add "
    ∷ base "Sub" minus_one "sub "
    ∷ base "Mod" minus_one "mod "
    ∷ base "Mul" minus_one "mul "
    ∷ base "TruncDiv" minus_one "trunc div "
    ∷ base "BitNot" 0 "bit not "
    ∷ base "BitAnd" minus_one "bit and "
    ∷ base "BitOr" minus_one "bit or "
    ∷ base "BitXor" minus_one "bit xor "
    ∷ base "BitShr" minus_one "bit shr "
    ∷ base "BitShl" minus_one "bit shl "
    ∷ []

-- INVOKES_DO.
pub invokes : String → String → List Row
invokes suffix type = map (invoke suffix type) invoke_bases

-- BYTECODES_DO: the rows before the invokes, between the two groups of them, and after.
pub loads : List Row
loads =
    row "LoadLocal0" false Format.nothing 1 1 "load local 0"
    ∷ row "LoadLocal1" false Format.nothing 1 1 "load local 1"
    ∷ row "LoadLocal2" false Format.nothing 1 1 "load local 2"
    ∷ row "LoadLocal3" false Format.nothing 1 1 "load local 3"
    ∷ row "LoadLocal4" false Format.nothing 1 1 "load local 4"
    ∷ row "LoadLocal5" false Format.nothing 1 1 "load local 5"
    ∷ row "LoadLocal" false Format.byte 2 1 "load local %d"
    ∷ row "LoadLocalWide" false Format.int 5 1 "load local %d"
    ∷ row "LoadBoxed" false Format.byte 2 1 "load boxed %d"
    ∷ row "LoadStatic" false Format.int 5 1 "load static %d"
    ∷ row "LoadStaticInit" false Format.int 5 1 "load static init %d"
    ∷ row "LoadField" false Format.byte 2 0 "load field %d"
    ∷ row "LoadFieldWide" false Format.int 5 0 "load field %d"
    ∷ row "StoreLocal" false Format.byte 2 0 "store local %d"
    ∷ row "StoreBoxed" false Format.byte 2 0 "store boxed %d"
    ∷ row "StoreStatic" false Format.int 5 0 "store static %d"
    ∷ row "StoreField" false Format.byte 2 minus_one "store field %d"
    ∷ row "StoreFieldWide" false Format.int 5 minus_one "store field %d"
    ∷ row "LoadLiteralNull" false Format.nothing 1 1 "load literal null"
    ∷ row "LoadLiteralTrue" false Format.nothing 1 1 "load literal true"
    ∷ row "LoadLiteralFalse" false Format.nothing 1 1 "load literal false"
    ∷ row "LoadLiteral0" false Format.nothing 1 1 "load literal 0"
    ∷ row "LoadLiteral1" false Format.nothing 1 1 "load literal 1"
    ∷ row "LoadLiteral" false Format.byte 2 1 "load literal %d"
    ∷ row "LoadLiteralWide" false Format.int 5 1 "load literal %d"
    ∷ []

pub others : List Row
others =
    invoke "" "" (base "Static" var_diff "static ")
    ∷ invoke "" "" (base "Factory" var_diff "factory ")
    ∷ row "Allocate" false Format.int 5 var_diff "allocate %d"
    ∷ row "AllocateImmutable" false Format.int 5 var_diff "allocateim %d"
    ∷ row "InvokeNoSuchMethod" true Format.int 5 var_diff "invoke no such method %d"
    ∷ row "InvokeTestNoSuchMethod" true Format.int 5 0 "invoke test no such method %d"
    ∷ row "InvokeLeafNative" true Format.byte_byte 3 1 "invoke leaf native %d %d"
    ∷ row "InvokeNative" true Format.byte_byte 3 1 "invoke native %d %d"
    ∷ row "InvokeNativeYield" true Format.byte_byte 3 1 "invoke native yield %d %d"
    ∷ row "InvokeSelector" true Format.int 5 var_diff "invoke selector"
    ∷ row "Pop" false Format.nothing 1 minus_one "pop"
    ∷ row "Drop" false Format.byte 2 var_diff "drop %d"
    ∷ row "Return" true Format.nothing 1 minus_one "return"
    ∷ row "ReturnNull" true Format.nothing 1 0 "return null"
    ∷ row "BranchWide" true Format.int 5 0 "branch +%d"
    ∷ row "BranchIfTrueWide" true Format.int 5 minus_one "branch if true +%d"
    ∷ row "BranchIfFalseWide" true Format.int 5 minus_one "branch if false +%d"
    ∷ row "BranchBack" true Format.byte 2 0 "branch -%d"
    ∷ row "BranchBackIfTrue" true Format.byte 2 minus_one "branch if true -%d"
    ∷ row "BranchBackIfFalse" true Format.byte 2 minus_one "branch if false -%d"
    ∷ row "BranchBackWide" true Format.int 5 0 "branch -%d"
    ∷ row "BranchBackIfTrueWide" true Format.int 5 minus_one "branch if true -%d"
    ∷ row "BranchBackIfFalseWide" true Format.int 5 minus_one "branch if false -%d"
    ∷ row "PopAndBranchWide" true Format.byte_int 6 var_diff "pop %d and branch +%d"
    ∷ row "PopAndBranchBackWide" true Format.byte_int 6 var_diff "pop %d and branch -%d"
    ∷ row "AllocateBoxed" false Format.nothing 1 0 "allocate boxed"
    ∷ row "Negate" false Format.nothing 1 0 "negate"
    ∷ row "StackOverflowCheck" true Format.int 5 0 "stack overflow check %d"
    ∷ row "Throw" true Format.nothing 1 0 "throw"
    ∷ row "SubroutineCall" true Format.int_int 9 var_diff "subroutine call +%d -%d"
    ∷ row "SubroutineReturn" true Format.nothing 1 minus_one "subroutine return"
    ∷ row "ProcessYield" true Format.nothing 1 0 "process yield"
    ∷ row "CoroutineChange" true Format.nothing 1 minus_one "coroutine change"
    ∷ row "Identical" true Format.nothing 1 minus_one "identical"
    ∷ row "IdenticalNonNumeric" true Format.nothing 1 minus_one "identical non numeric"
    ∷ row "EnterNoSuchMethod" true Format.byte 2 var_diff "enter noSuchMethod +%d"
    ∷ row "ExitNoSuchMethod" true Format.nothing 1 minus_one "exit noSuchMethod"
    ∷ []

pub lasts : List Row
lasts =
    row "LoadConst" false Format.int 5 1 "load const @%d"
    ∷ row "MethodEnd" false Format.int 5 0 "method end %d"
    ∷ []

pub bytecodes : List Row
bytecodes = loads ++ invokes "" "" ++ others ++ invokes "Unfold" "unfold " ++ lasts

-- The opcodes that the code names.
abbrev pub invoke_method : ℕ
invoke_method = 25

abbrev pub invoke_bit_shl : ℕ
invoke_bit_shl = 42

abbrev pub invoke_static : ℕ
invoke_static = 43

abbrev pub invoke_factory : ℕ
invoke_factory = 44

abbrev pub invoke_method_unfold : ℕ
invoke_method_unfold = 80

abbrev pub invoke_bit_shl_unfold : ℕ
invoke_bit_shl_unfold = 97

abbrev pub method_end : ℕ
method_end = 99

abbrev pub num_bytecodes : ℕ
num_bytecodes = method_end + 1

abbrev pub unfold_offset : ℕ
unfold_offset = invoke_method_unfold - invoke_method

pub size : ℕ → Option ℕ
size opcode = get_elem? bytecodes opcode >>= λ r. some r.size

pub print_format : ℕ → Option String
print_format opcode = get_elem? bytecodes opcode >>= λ r. some r.print

pub bytecode_format : ℕ → Option Format
bytecode_format opcode = get_elem? bytecodes opcode >>= λ r. some r.format

pub stack_diff : ℕ → Option ℕ
stack_diff opcode = get_elem? bytecodes opcode >>= λ r. some r.stack_diff

pub is_invoke_unfold : ℕ → Bool
is_invoke_unfold opcode = leb invoke_method_unfold opcode && leb opcode invoke_bit_shl_unfold

pub is_invoke : ℕ → Bool
is_invoke opcode = leb invoke_method opcode && leb opcode invoke_bit_shl

pub is_static_invoke : ℕ → Bool
is_static_invoke opcode = leb invoke_static opcode && leb opcode invoke_factory

pub is_invoke_variant : ℕ → Bool
is_invoke_variant opcode = (is_invoke opcode || is_invoke_unfold opcode) || is_static_invoke opcode
