-- ===== src/Overloads/Methods.antt =====
-- include/sirit/sirit.h: the overloads that take the elements of a span one by one, and pack them.
use sirit.Base.{ℕ, ℤ, cast_u32, List}
use sirit.Stream.{SpvId, Literal, uint32}
use sirit.Emission.{Emission}
use sirit.Overloads.{Variadic, packed}
use sirit.Module.{add_entry_point, add_execution_mode, op_ext_inst}
use sirit.Instructions.Types.{type_struct, type_function}
use sirit.Instructions.Constant.{constant_composite}
use sirit.Instructions.Function.{op_function_call}
use sirit.Instructions.Flow.{op_loop_merge}
use sirit.Instructions.Memory.{
  op_access_chain, op_composite_insert, op_composite_extract, op_composite_construct,
}
use sirit.Instructions.Annotation.{decorate, member_decorate}

abbrev pub add_entry_point_of : ℕ → SpvId → List ℕ → (n : ℕ) → Variadic SpvId n Emission
add_entry_point_of execution_model entry_point text n =
    packed n (add_entry_point execution_model entry_point text)

abbrev pub add_execution_mode_of : SpvId → ℕ → (n : ℕ) → Variadic Literal n Emission
add_execution_mode_of entry_point mode n = packed n (add_execution_mode entry_point mode)

abbrev pub type_struct_of : (n : ℕ) → Variadic SpvId n Emission
type_struct_of n = packed n (type_struct)

abbrev pub type_function_of : SpvId → (n : ℕ) → Variadic SpvId n Emission
type_function_of return_type n = packed n (type_function return_type)

abbrev pub constant_composite_of : SpvId → (n : ℕ) → Variadic SpvId n Emission
constant_composite_of result_type n = packed n (constant_composite result_type)

abbrev pub op_function_call_of : SpvId → SpvId → (n : ℕ) → Variadic SpvId n Emission
op_function_call_of result_type callee n = packed n (op_function_call result_type callee)

abbrev pub op_loop_merge_of : SpvId → SpvId → ℕ → (n : ℕ) → Variadic SpvId n Emission
op_loop_merge_of merge_block continue_target loop_control n =
    packed n (op_loop_merge merge_block continue_target loop_control)

abbrev pub op_access_chain_of : SpvId → SpvId → (n : ℕ) → Variadic SpvId n Emission
op_access_chain_of result_type base n = packed n (op_access_chain result_type base)

abbrev pub op_composite_insert_of : SpvId → SpvId → SpvId → (n : ℕ) → Variadic Literal n Emission
op_composite_insert_of result_type object composite n =
    packed n (op_composite_insert result_type object composite)

abbrev pub op_composite_extract_of : SpvId → SpvId → (n : ℕ) → Variadic Literal n Emission
op_composite_extract_of result_type composite n =
    packed n (op_composite_extract result_type composite)

abbrev pub op_composite_construct_of : SpvId → (n : ℕ) → Variadic SpvId n Emission
op_composite_construct_of result_type n = packed n (op_composite_construct result_type)

abbrev pub decorate_of : SpvId → ℕ → (n : ℕ) → Variadic Literal n Emission
decorate_of target decoration n = packed n (decorate target decoration)

abbrev pub member_decorate_of : SpvId → Literal → ℕ → (n : ℕ) → Variadic Literal n Emission
member_decorate_of structure_type member decoration n =
    packed n (member_decorate structure_type member decoration)

abbrev pub op_ext_inst_of : SpvId → SpvId → ℕ → (n : ℕ) → Variadic SpvId n Emission
op_ext_inst_of result_type instruction_set instruction n =
    packed n (op_ext_inst result_type instruction_set instruction)

-- `Decorate` with a literal of an enumeration, through the overload above
abbrev pub decorate_enum : SpvId → ℕ → ℤ → Emission
decorate_enum target decoration value = decorate_of target decoration 1 (uint32 (cast_u32 value))
