-- ===== src/Tests/Golden.antt =====
-- The tests of tests/main.cpp pass on the model.
use sirit.Base.{true, Bool, [], ◌∷◌, ◌≡◌, refl, ok, List, Outcome, replicate}
use sirit.Stream.{
  put_head, put_all, put, put_id, put_literal, put_u64, put_ids, put_literals, put_optional_id,
  put_optional_enum, push_word, reserve, end_op, insert_string_view, insert_loop, pack_word, read,
  char_word, words_in_string, contents,
}
use sirit.Declarations.{declare, end_declaration, end_lookup, find, words_eq}
use sirit.Emission.{emit}
use sirit.Module.{
  new_module, call, set_memory_model, insert_word, add_entry_point, add_execution_mode,
  add_global_variable, add_new_label, add_label, op_label, make_word0, add_capability,
}
use sirit.Module.Assemble.{assemble, insert_capabilities, insert_extensions, insert_sections}
use sirit.Instructions.Annotation.{decorate, member_decorate}
use sirit.Instructions.Constant.{constant, constant_true, constant_false, constant_null}
use sirit.Instructions.Debug.{name_chain}
use sirit.Instructions.Flow.{op_return}
use sirit.Instructions.Function.{op_function, op_function_end}
use sirit.Instructions.Memory.{op_load, op_store, op_access_chain, op_composite_insert}
use sirit.Instructions.Misc.{op_undef}
use sirit.Instructions.Types.{
  type_void, type_bool, type_int, type_float, type_vector, type_pointer, type_struct, type_function,
}
use sirit.Tests.Target.{test_platform}
use sirit.Tests.Suite.{
  test_vertex_shader_golden, test_module_header, test_determinism, test_constant_dedup,
  test_type_dedup, test_capability_dedup, test_constant_kinds, test_compute_shader_execution_mode,
}
use sirit.Module.Assemble.Parse.{parse_instructions, parse_loop}

-- The tests in the order of `main`.
abbrev tests : List (Outcome (List Bool))
tests =
    test_vertex_shader_golden
    ∷ test_module_header 0x00010300
    ∷ test_determinism
    ∷ test_constant_dedup
    ∷ test_type_dedup
    ∷ test_capability_dedup
    ∷ test_constant_kinds
    ∷ test_compute_shader_execution_mode
    ∷ []

-- The model builds the binary that the golden test expects, and passes every `CHECK` of the others.
tests_pass : tests ≡ (
    ok (replicate 2 true)
    ∷ ok (replicate 8 true)
    ∷ ok (replicate 1 true)
    ∷ ok (replicate 2 true)
    ∷ ok (replicate 4 true)
    ∷ ok (replicate 2 true)
    ∷ ok (replicate 9 true)
    ∷ ok (replicate 2 true)
    ∷ [])
unfolding put_head put_all put put_id put_literal put_ids put_literals put_optional_id
    put_optional_enum push_word reserve end_op insert_string_view insert_loop pack_word read
    char_word words_in_string contents declare end_declaration end_lookup find words_eq emit
    new_module call set_memory_model insert_word add_entry_point add_global_variable add_new_label
    add_label op_label make_word0 add_capability assemble insert_capabilities insert_extensions
    insert_sections decorate member_decorate constant name_chain op_return op_function
    op_function_end op_load op_store op_access_chain op_composite_insert op_undef type_void type_int
    type_float type_vector type_pointer type_struct type_function parse_instructions parse_loop
    add_execution_mode type_bool constant_true constant_false constant_null put_u64
tests_pass = refl
