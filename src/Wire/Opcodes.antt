-- ===== src/Wire/Opcodes.antt =====
-- The commands of src/shared/connection.h, in the order of the enum, which is their number on the
-- wire and in pkg/dartino_compiler/lib/vm_commands.dart.
use dartino_sdk.Base.{ℕ, ◌<◌, ◌≡◌, refl, Option, some, List, [], ◌∷◌, arith, get_elem?}

pub data Opcode : Type 0 where
  hand_shake : Opcode
  hand_shake_result : Opcode
  connection_error : Opcode
  compiler_error : Opcode
  session_end : Opcode
  live_editing : Opcode
  debugging : Opcode
  debugging_reply : Opcode
  disable_standard_output : Opcode
  stdout_data : Opcode
  stderr_data : Opcode
  process_debug_interrupt : Opcode
  process_spawn_for_main : Opcode
  process_run : Opcode
  process_set_breakpoint : Opcode
  process_delete_breakpoint : Opcode
  process_delete_one_shot_breakpoint : Opcode
  process_step : Opcode
  process_step_over : Opcode
  process_step_out : Opcode
  process_step_to : Opcode
  process_continue : Opcode
  process_backtrace_request : Opcode
  process_fiber_backtrace_request : Opcode
  process_backtrace : Opcode
  process_uncaught_exception_request : Opcode
  process_breakpoint : Opcode
  process_instance : Opcode
  process_instance_structure : Opcode
  process_restart_frame : Opcode
  process_terminated : Opcode
  process_compile_time_error : Opcode
  process_add_fibers_to_map : Opcode
  process_number_of_stacks : Opcode
  command_error : Opcode
  process_get_process_ids : Opcode
  process_get_process_ids_result : Opcode
  set_entry_point : Opcode
  create_snapshot : Opcode
  program_info : Opcode
  collect_garbage : Opcode
  new_map : Opcode
  delete_map : Opcode
  push_from_map : Opcode
  pop_to_map : Opcode
  remove_from_map : Opcode
  dup : Opcode
  drop : Opcode
  push_null : Opcode
  push_boolean : Opcode
  push_new_integer : Opcode
  push_new_big_integer : Opcode
  push_new_double : Opcode
  push_new_one_byte_string : Opcode
  push_new_two_byte_string : Opcode
  push_new_instance : Opcode
  push_new_array : Opcode
  push_new_function : Opcode
  push_new_initializer : Opcode
  push_new_class : Opcode
  push_builtin_class : Opcode
  push_constant_list : Opcode
  push_constant_byte_list : Opcode
  push_constant_map : Opcode
  change_super_class : Opcode
  change_method_table : Opcode
  change_method_literal : Opcode
  change_statics : Opcode
  change_schemas : Opcode
  prepare_for_changes : Opcode
  commit_changes : Opcode
  commit_changes_result : Opcode
  discard_changes : Opcode
  uncaught_exception : Opcode
  map_lookup : Opcode
  object_id : Opcode
  integer : Opcode
  boolean : Opcode
  null : Opcode
  double : Opcode
  string : Opcode
  instance : Opcode
  class : Opcode
  array : Opcode
  instance_structure : Opcode
  array_structure : Opcode

-- The number of a command.
pub code : Opcode → ℕ
code Opcode.hand_shake = 0
code Opcode.hand_shake_result = 1
code Opcode.connection_error = 2
code Opcode.compiler_error = 3
code Opcode.session_end = 4
code Opcode.live_editing = 5
code Opcode.debugging = 6
code Opcode.debugging_reply = 7
code Opcode.disable_standard_output = 8
code Opcode.stdout_data = 9
code Opcode.stderr_data = 10
code Opcode.process_debug_interrupt = 11
code Opcode.process_spawn_for_main = 12
code Opcode.process_run = 13
code Opcode.process_set_breakpoint = 14
code Opcode.process_delete_breakpoint = 15
code Opcode.process_delete_one_shot_breakpoint = 16
code Opcode.process_step = 17
code Opcode.process_step_over = 18
code Opcode.process_step_out = 19
code Opcode.process_step_to = 20
code Opcode.process_continue = 21
code Opcode.process_backtrace_request = 22
code Opcode.process_fiber_backtrace_request = 23
code Opcode.process_backtrace = 24
code Opcode.process_uncaught_exception_request = 25
code Opcode.process_breakpoint = 26
code Opcode.process_instance = 27
code Opcode.process_instance_structure = 28
code Opcode.process_restart_frame = 29
code Opcode.process_terminated = 30
code Opcode.process_compile_time_error = 31
code Opcode.process_add_fibers_to_map = 32
code Opcode.process_number_of_stacks = 33
code Opcode.command_error = 34
code Opcode.process_get_process_ids = 35
code Opcode.process_get_process_ids_result = 36
code Opcode.set_entry_point = 37
code Opcode.create_snapshot = 38
code Opcode.program_info = 39
code Opcode.collect_garbage = 40
code Opcode.new_map = 41
code Opcode.delete_map = 42
code Opcode.push_from_map = 43
code Opcode.pop_to_map = 44
code Opcode.remove_from_map = 45
code Opcode.dup = 46
code Opcode.drop = 47
code Opcode.push_null = 48
code Opcode.push_boolean = 49
code Opcode.push_new_integer = 50
code Opcode.push_new_big_integer = 51
code Opcode.push_new_double = 52
code Opcode.push_new_one_byte_string = 53
code Opcode.push_new_two_byte_string = 54
code Opcode.push_new_instance = 55
code Opcode.push_new_array = 56
code Opcode.push_new_function = 57
code Opcode.push_new_initializer = 58
code Opcode.push_new_class = 59
code Opcode.push_builtin_class = 60
code Opcode.push_constant_list = 61
code Opcode.push_constant_byte_list = 62
code Opcode.push_constant_map = 63
code Opcode.change_super_class = 64
code Opcode.change_method_table = 65
code Opcode.change_method_literal = 66
code Opcode.change_statics = 67
code Opcode.change_schemas = 68
code Opcode.prepare_for_changes = 69
code Opcode.commit_changes = 70
code Opcode.commit_changes_result = 71
code Opcode.discard_changes = 72
code Opcode.uncaught_exception = 73
code Opcode.map_lookup = 74
code Opcode.object_id = 75
code Opcode.integer = 76
code Opcode.boolean = 77
code Opcode.null = 78
code Opcode.double = 79
code Opcode.string = 80
code Opcode.instance = 81
code Opcode.class = 82
code Opcode.array = 83
code Opcode.instance_structure = 84
code Opcode.array_structure = 85

abbrev all_opcodes : List Opcode
all_opcodes =
    Opcode.hand_shake ∷ Opcode.hand_shake_result ∷ Opcode.connection_error ∷ Opcode.compiler_error
    ∷ Opcode.session_end ∷ Opcode.live_editing ∷ Opcode.debugging ∷ Opcode.debugging_reply
    ∷ Opcode.disable_standard_output ∷ Opcode.stdout_data ∷ Opcode.stderr_data
    ∷ Opcode.process_debug_interrupt ∷ Opcode.process_spawn_for_main ∷ Opcode.process_run
    ∷ Opcode.process_set_breakpoint ∷ Opcode.process_delete_breakpoint
    ∷ Opcode.process_delete_one_shot_breakpoint ∷ Opcode.process_step ∷ Opcode.process_step_over
    ∷ Opcode.process_step_out ∷ Opcode.process_step_to ∷ Opcode.process_continue
    ∷ Opcode.process_backtrace_request ∷ Opcode.process_fiber_backtrace_request
    ∷ Opcode.process_backtrace ∷ Opcode.process_uncaught_exception_request
    ∷ Opcode.process_breakpoint ∷ Opcode.process_instance ∷ Opcode.process_instance_structure
    ∷ Opcode.process_restart_frame ∷ Opcode.process_terminated ∷ Opcode.process_compile_time_error
    ∷ Opcode.process_add_fibers_to_map ∷ Opcode.process_number_of_stacks ∷ Opcode.command_error
    ∷ Opcode.process_get_process_ids ∷ Opcode.process_get_process_ids_result
    ∷ Opcode.set_entry_point ∷ Opcode.create_snapshot ∷ Opcode.program_info ∷ Opcode.collect_garbage
    ∷ Opcode.new_map ∷ Opcode.delete_map ∷ Opcode.push_from_map ∷ Opcode.pop_to_map
    ∷ Opcode.remove_from_map ∷ Opcode.dup ∷ Opcode.drop ∷ Opcode.push_null ∷ Opcode.push_boolean
    ∷ Opcode.push_new_integer ∷ Opcode.push_new_big_integer ∷ Opcode.push_new_double
    ∷ Opcode.push_new_one_byte_string ∷ Opcode.push_new_two_byte_string ∷ Opcode.push_new_instance
    ∷ Opcode.push_new_array ∷ Opcode.push_new_function ∷ Opcode.push_new_initializer
    ∷ Opcode.push_new_class ∷ Opcode.push_builtin_class ∷ Opcode.push_constant_list
    ∷ Opcode.push_constant_byte_list ∷ Opcode.push_constant_map ∷ Opcode.change_super_class
    ∷ Opcode.change_method_table ∷ Opcode.change_method_literal ∷ Opcode.change_statics
    ∷ Opcode.change_schemas ∷ Opcode.prepare_for_changes ∷ Opcode.commit_changes
    ∷ Opcode.commit_changes_result ∷ Opcode.discard_changes ∷ Opcode.uncaught_exception
    ∷ Opcode.map_lookup ∷ Opcode.object_id ∷ Opcode.integer ∷ Opcode.boolean ∷ Opcode.null
    ∷ Opcode.double ∷ Opcode.string ∷ Opcode.instance ∷ Opcode.class ∷ Opcode.array
    ∷ Opcode.instance_structure ∷ Opcode.array_structure ∷ []

-- A byte read as a command: `none` where no command has that number.
pub of_code : ℕ → Option Opcode
of_code n = get_elem? all_opcodes n

pub of_code-code : (o : Opcode) → of_code (code o) ≡ some o
unfolding of_code code
of_code-code Opcode.hand_shake = refl
of_code-code _ = refl

pub code-lt : (o : Opcode) → code o < 256
unfolding code
code-lt Opcode.hand_shake = omega arith
code-lt _ = omega arith
