-- ===== src/Tests/Target.antt =====
-- A platform for the tests: the numbers of the opcodes that they use, and sets that are iterated in
-- the order of their insertion.
use mathlib.Core.List.Perm
use sirit.Base.{ℕ, ◌%◌, ◌^◌, arith, false}
use sirit.Spirv.{Op, Platform}
use sirit.Stream.{SpvId}

abbrev number_of : Op → ℕ
number_of Op.op_undef = 1
number_of Op.op_name = 5
number_of Op.op_member_name = 6
number_of Op.op_extension = 10
number_of Op.op_ext_inst_import = 11
number_of Op.op_ext_inst = 12
number_of Op.op_memory_model = 14
number_of Op.op_entry_point = 15
number_of Op.op_execution_mode = 16
number_of Op.op_capability = 17
number_of Op.op_type_void = 19
number_of Op.op_type_bool = 20
number_of Op.op_type_int = 21
number_of Op.op_type_float = 22
number_of Op.op_type_vector = 23
number_of Op.op_type_struct = 30
number_of Op.op_type_pointer = 32
number_of Op.op_type_function = 33
number_of Op.op_type_pipe = 38
number_of Op.op_constant_true = 41
number_of Op.op_constant_false = 42
number_of Op.op_constant = 43
number_of Op.op_constant_null = 46
number_of Op.op_function = 54
number_of Op.op_function_end = 56
number_of Op.op_variable = 59
number_of Op.op_load = 61
number_of Op.op_store = 62
number_of Op.op_access_chain = 65
number_of Op.op_decorate = 71
number_of Op.op_member_decorate = 72
number_of Op.op_composite_insert = 82
number_of Op.op_f_negate = 127
number_of Op.op_atomic_store = 228
number_of Op.op_phi = 245
number_of Op.op_label = 248
number_of Op.op_switch = 251
number_of Op.op_return = 253
number_of _ = 0

instance abbrev pub test_platform : Platform
test_platform = record {
  op_code = λ o. number_of o % 2 ^ 16;
  op_code-lt = λ o. omega arith;
  glsl_code = λ g. 0;
  magic_number = 0x07230203;
  logical = 0;
  glsl450 = 1;
  char_is_signed = false;
  capability_order = λ l. l;
  capability_order-perm = λ l. Perm.refl l;
  extension_order = λ l. l;
  extension_order-perm = λ l. Perm.refl l;
}

abbrev pub spv : ℕ → SpvId
spv n = record { value = n }
