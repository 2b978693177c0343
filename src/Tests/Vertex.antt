-- ===== src/Tests/Vertex.antt =====
-- tests/main.cpp: the vertex shader that the golden test builds, and its binary.
use sirit.Base.{ℕ, ◌+◌, ◌*◌, ◌^◌, false, none, List, [], ◌∷◌, Outcome, ok, ◌>>=◌, pos}
use sirit.Spirv.{Platform}
use sirit.Stream.{uint32, int32, float}
use sirit.Instructions.Annotation.{decorate}
use sirit.Instructions.Constant.{constant}
use sirit.Module.Names.{name}
use sirit.Instructions.Flow.{op_return}
use sirit.Instructions.Function.{op_function, op_function_end}
use sirit.Instructions.Memory.{op_load, op_store}
use sirit.Instructions.Misc.{op_undef}
use sirit.Instructions.Types.{type_void, type_int, type_float, type_vector, type_pointer}
use sirit.Overloads.Methods.{
  type_struct_of, type_function_of, decorate_of, member_decorate_of, op_access_chain_of,
  op_composite_insert_of, add_entry_point_of,
}
use sirit.Module.{
  Module, Method, call, add_capability, set_memory_model, add_global_variable, add_new_label,
}

-- the enumerators of the SPIR-V headers that the test uses
abbrev pub shader : ℕ
shader = 1

abbrev input : ℕ
input = 1

abbrev output : ℕ
output = 3

abbrev block : ℕ
block = 2

abbrev built_in : ℕ
built_in = 11

abbrev location : ℕ
location = 30

abbrev position : ℕ
position = 0

abbrev vertex : ℕ
vertex = 0

module _ ⦃p : Platform⦄ where
  -- `Name` of what a method returns
  abbrev named : Method → List ℕ → Method
  named method text m = do (i, m) ← method m; name i text m

  -- `VertexModule::Generate`
  abbrev pub generate : Module → Outcome Module
  generate m0 = do
    let m = set_memory_model p.logical p.glsl450 (add_capability shader m0)
    (t_void, m) ← named (call (type_void)) (b'v' ∷ b'o' ∷ b'i' ∷ b'd' ∷ []) m
    (t_uint, m) ← named (call (type_int (pos 32) false)) (b'u' ∷ b'i' ∷ b'n' ∷ b't' ∷ []) m
    (t_float, m) ← named (call (type_float (pos 32))) (b'f' ∷ b'l' ∷ b'o' ∷ b'a' ∷ b't' ∷ []) m
    (float4, m) ←
        named (call (type_vector t_float (pos 4))) (b'f' ∷ b'l' ∷ b'o' ∷ b'a' ∷ b't' ∷ b'4' ∷ []) m
    (in_float, m) ←
        named (call (type_pointer input t_float))
          (b'i' ∷ b'n' ∷ b'_' ∷ b'f' ∷ b'l' ∷ b'o' ∷ b'a' ∷ b't' ∷ []) m
    (in_float4, m) ←
        named (call (type_pointer input float4))
          (b'i' ∷ b'n' ∷ b'_' ∷ b'f' ∷ b'l' ∷ b'o' ∷ b'a' ∷ b't' ∷ b'4' ∷ []) m
    (out_float4, m) ←
        named (call (type_pointer output float4))
          (b'o' ∷ b'u' ∷ b't' ∷ b'_' ∷ b'f' ∷ b'l' ∷ b'o' ∷ b'a' ∷ b't' ∷ b'4' ∷ []) m
    (gl_per_vertex, m) ←
        named (call (type_struct_of 1 float4))
          (b'g' ∷ b'l' ∷ b'_' ∷ b'P' ∷ b'e' ∷ b'r' ∷ b'V' ∷ b'e' ∷ b'r' ∷ b't' ∷ b'e' ∷ b'x' ∷ []) m
    (gl_per_vertex_ptr, m) ←
        named (call (type_pointer output gl_per_vertex))
          (b'o' ∷ b'u' ∷ b't' ∷ b'_' ∷ b'g' ∷ b'l' ∷ b'_' ∷ b'P' ∷ b'e' ∷ b'r' ∷ b'V' ∷ b'e' ∷ b'r'
            ∷ b't' ∷ b'e' ∷ b'x' ∷ [])
          m
    (in_pos, m) ←
        named (call (add_global_variable in_float4 input none))
          (b'i' ∷ b'n' ∷ b'_' ∷ b'p' ∷ b'o' ∷ b's' ∷ []) m
    (per_vertex, m) ←
        named (call (add_global_variable gl_per_vertex_ptr output none))
          (b'p' ∷ b'e' ∷ b'r' ∷ b'_' ∷ b'v' ∷ b'e' ∷ b'r' ∷ b't' ∷ b'e' ∷ b'x' ∷ []) m
    (_, m) ← call (decorate_of in_pos location 1 (int32 (pos 0))) m
    (_, m) ← call (decorate gl_per_vertex block []) m
    (_, m) ← call (decorate gl_per_vertex block []) m
    (_, m) ← call (member_decorate_of gl_per_vertex (int32 (pos 0)) built_in 1 (uint32 position)) m
    (t_func, m) ← call (type_function_of t_void 0) m
    (main_func, m) ← named (call (op_function t_void 0 t_func)) (b'm' ∷ b'a' ∷ b'i' ∷ b'n' ∷ []) m
    (_, m) ← add_new_label m
    (zero_uint, m) ← call (constant t_uint (uint32 0)) m
    (ptr_pos_x, m) ← call (op_access_chain_of in_float in_pos 1 zero_uint) m
    (one_uint, m) ← call (constant t_uint (uint32 1)) m
    (ptr_pos_y, m) ← call (op_access_chain_of in_float in_pos 1 one_uint) m
    (pos_x, m) ← call (op_load t_float ptr_pos_x none) m
    (pos_y, m) ← call (op_load t_float ptr_pos_y none) m
    (tmp_position, m) ← call (op_undef float4) m
    (tmp_position, m) ← call (op_composite_insert_of float4 pos_x tmp_position 1 (int32 (pos 0))) m
    (tmp_position, m) ← call (op_composite_insert_of float4 pos_y tmp_position 1 (int32 (pos 1))) m
    (zero_float, m) ← call (constant t_float (float 0)) m
    (tmp_position, m) ←
        call (op_composite_insert_of float4 zero_float tmp_position 1 (int32 (pos 2))) m
    (one_float, m) ← call (constant t_float (float 0x3f800000)) m
    (tmp_position, m) ←
        call (op_composite_insert_of float4 one_float tmp_position 1 (int32 (pos 3))) m
    (zero_uint, m) ← call (constant t_uint (uint32 0)) m
    (gl_position, m) ← call (op_access_chain_of out_float4 per_vertex 1 zero_uint) m
    (_, m) ← call (op_store gl_position tmp_position none) m
    (_, m) ← call (op_return) m
    (_, m) ← call (op_function_end) m
    (_, m) ←
        call
          (add_entry_point_of vertex main_func (b'm' ∷ b'a' ∷ b'i' ∷ b'n' ∷ []) 2 in_pos per_vertex)
          m
    ok m

-- the bytes of `expected_vertex_binary`
abbrev pub expected_vertex_binary : List ℕ
expected_vertex_binary =
    0x03 ∷ 0x02 ∷ 0x23 ∷ 0x07 ∷ 0x00 ∷ 0x03 ∷ 0x01 ∷ 0x00 ∷ 0x00 ∷ 0x00 ∷ 0x00 ∷ 0x00 ∷ 0x1d ∷ 0x00
    ∷ 0x00 ∷ 0x00 ∷ 0x00 ∷ 0x00 ∷ 0x00 ∷ 0x00 ∷ 0x11 ∷ 0x00 ∷ 0x02 ∷ 0x00 ∷ 0x01 ∷ 0x00 ∷ 0x00
    ∷ 0x00 ∷ 0x0e ∷ 0x00 ∷ 0x03 ∷ 0x00 ∷ 0x00 ∷ 0x00 ∷ 0x00 ∷ 0x00 ∷ 0x01 ∷ 0x00 ∷ 0x00 ∷ 0x00
    ∷ 0x0f ∷ 0x00 ∷ 0x07 ∷ 0x00 ∷ 0x00 ∷ 0x00 ∷ 0x00 ∷ 0x00 ∷ 0x0d ∷ 0x00 ∷ 0x00 ∷ 0x00 ∷ 0x6d
    ∷ 0x61 ∷ 0x69 ∷ 0x6e ∷ 0x00 ∷ 0x00 ∷ 0x00 ∷ 0x00 ∷ 0x0a ∷ 0x00 ∷ 0x00 ∷ 0x00 ∷ 0x0b ∷ 0x00
    ∷ 0x00 ∷ 0x00 ∷ 0x05 ∷ 0x00 ∷ 0x04 ∷ 0x00 ∷ 0x01 ∷ 0x00 ∷ 0x00 ∷ 0x00 ∷ 0x76 ∷ 0x6f ∷ 0x69
    ∷ 0x64 ∷ 0x00 ∷ 0x00 ∷ 0x00 ∷ 0x00 ∷ 0x05 ∷ 0x00 ∷ 0x04 ∷ 0x00 ∷ 0x02 ∷ 0x00 ∷ 0x00 ∷ 0x00
    ∷ 0x75 ∷ 0x69 ∷ 0x6e ∷ 0x74 ∷ 0x00 ∷ 0x00 ∷ 0x00 ∷ 0x00 ∷ 0x05 ∷ 0x00 ∷ 0x04 ∷ 0x00 ∷ 0x03
    ∷ 0x00 ∷ 0x00 ∷ 0x00 ∷ 0x66 ∷ 0x6c ∷ 0x6f ∷ 0x61 ∷ 0x74 ∷ 0x00 ∷ 0x00 ∷ 0x00 ∷ 0x05 ∷ 0x00
    ∷ 0x04 ∷ 0x00 ∷ 0x04 ∷ 0x00 ∷ 0x00 ∷ 0x00 ∷ 0x66 ∷ 0x6c ∷ 0x6f ∷ 0x61 ∷ 0x74 ∷ 0x34 ∷ 0x00
    ∷ 0x00 ∷ 0x05 ∷ 0x00 ∷ 0x05 ∷ 0x00 ∷ 0x05 ∷ 0x00 ∷ 0x00 ∷ 0x00 ∷ 0x69 ∷ 0x6e ∷ 0x5f ∷ 0x66
    ∷ 0x6c ∷ 0x6f ∷ 0x61 ∷ 0x74 ∷ 0x00 ∷ 0x00 ∷ 0x00 ∷ 0x00 ∷ 0x05 ∷ 0x00 ∷ 0x05 ∷ 0x00 ∷ 0x06
    ∷ 0x00 ∷ 0x00 ∷ 0x00 ∷ 0x69 ∷ 0x6e ∷ 0x5f ∷ 0x66 ∷ 0x6c ∷ 0x6f ∷ 0x61 ∷ 0x74 ∷ 0x34 ∷ 0x00
    ∷ 0x00 ∷ 0x00 ∷ 0x05 ∷ 0x00 ∷ 0x05 ∷ 0x00 ∷ 0x07 ∷ 0x00 ∷ 0x00 ∷ 0x00 ∷ 0x6f ∷ 0x75 ∷ 0x74
    ∷ 0x5f ∷ 0x66 ∷ 0x6c ∷ 0x6f ∷ 0x61 ∷ 0x74 ∷ 0x34 ∷ 0x00 ∷ 0x00 ∷ 0x05 ∷ 0x00 ∷ 0x06 ∷ 0x00
    ∷ 0x08 ∷ 0x00 ∷ 0x00 ∷ 0x00 ∷ 0x67 ∷ 0x6c ∷ 0x5f ∷ 0x50 ∷ 0x65 ∷ 0x72 ∷ 0x56 ∷ 0x65 ∷ 0x72
    ∷ 0x74 ∷ 0x65 ∷ 0x78 ∷ 0x00 ∷ 0x00 ∷ 0x00 ∷ 0x00 ∷ 0x05 ∷ 0x00 ∷ 0x07 ∷ 0x00 ∷ 0x09 ∷ 0x00
    ∷ 0x00 ∷ 0x00 ∷ 0x6f ∷ 0x75 ∷ 0x74 ∷ 0x5f ∷ 0x67 ∷ 0x6c ∷ 0x5f ∷ 0x50 ∷ 0x65 ∷ 0x72 ∷ 0x56
    ∷ 0x65 ∷ 0x72 ∷ 0x74 ∷ 0x65 ∷ 0x78 ∷ 0x00 ∷ 0x00 ∷ 0x00 ∷ 0x00 ∷ 0x05 ∷ 0x00 ∷ 0x04 ∷ 0x00
    ∷ 0x0a ∷ 0x00 ∷ 0x00 ∷ 0x00 ∷ 0x69 ∷ 0x6e ∷ 0x5f ∷ 0x70 ∷ 0x6f ∷ 0x73 ∷ 0x00 ∷ 0x00 ∷ 0x05
    ∷ 0x00 ∷ 0x05 ∷ 0x00 ∷ 0x0b ∷ 0x00 ∷ 0x00 ∷ 0x00 ∷ 0x70 ∷ 0x65 ∷ 0x72 ∷ 0x5f ∷ 0x76 ∷ 0x65
    ∷ 0x72 ∷ 0x74 ∷ 0x65 ∷ 0x78 ∷ 0x00 ∷ 0x00 ∷ 0x05 ∷ 0x00 ∷ 0x04 ∷ 0x00 ∷ 0x0d ∷ 0x00 ∷ 0x00
    ∷ 0x00 ∷ 0x6d ∷ 0x61 ∷ 0x69 ∷ 0x6e ∷ 0x00 ∷ 0x00 ∷ 0x00 ∷ 0x00 ∷ 0x47 ∷ 0x00 ∷ 0x04 ∷ 0x00
    ∷ 0x0a ∷ 0x00 ∷ 0x00 ∷ 0x00 ∷ 0x1e ∷ 0x00 ∷ 0x00 ∷ 0x00 ∷ 0x00 ∷ 0x00 ∷ 0x00 ∷ 0x00 ∷ 0x47
    ∷ 0x00 ∷ 0x03 ∷ 0x00 ∷ 0x08 ∷ 0x00 ∷ 0x00 ∷ 0x00 ∷ 0x02 ∷ 0x00 ∷ 0x00 ∷ 0x00 ∷ 0x47 ∷ 0x00
    ∷ 0x03 ∷ 0x00 ∷ 0x08 ∷ 0x00 ∷ 0x00 ∷ 0x00 ∷ 0x02 ∷ 0x00 ∷ 0x00 ∷ 0x00 ∷ 0x48 ∷ 0x00 ∷ 0x05
    ∷ 0x00 ∷ 0x08 ∷ 0x00 ∷ 0x00 ∷ 0x00 ∷ 0x00 ∷ 0x00 ∷ 0x00 ∷ 0x00 ∷ 0x0b ∷ 0x00 ∷ 0x00 ∷ 0x00
    ∷ 0x00 ∷ 0x00 ∷ 0x00 ∷ 0x00 ∷ 0x13 ∷ 0x00 ∷ 0x02 ∷ 0x00 ∷ 0x01 ∷ 0x00 ∷ 0x00 ∷ 0x00 ∷ 0x15
    ∷ 0x00 ∷ 0x04 ∷ 0x00 ∷ 0x02 ∷ 0x00 ∷ 0x00 ∷ 0x00 ∷ 0x20 ∷ 0x00 ∷ 0x00 ∷ 0x00 ∷ 0x00 ∷ 0x00
    ∷ 0x00 ∷ 0x00 ∷ 0x16 ∷ 0x00 ∷ 0x03 ∷ 0x00 ∷ 0x03 ∷ 0x00 ∷ 0x00 ∷ 0x00 ∷ 0x20 ∷ 0x00 ∷ 0x00
    ∷ 0x00 ∷ 0x17 ∷ 0x00 ∷ 0x04 ∷ 0x00 ∷ 0x04 ∷ 0x00 ∷ 0x00 ∷ 0x00 ∷ 0x03 ∷ 0x00 ∷ 0x00 ∷ 0x00
    ∷ 0x04 ∷ 0x00 ∷ 0x00 ∷ 0x00 ∷ 0x20 ∷ 0x00 ∷ 0x04 ∷ 0x00 ∷ 0x05 ∷ 0x00 ∷ 0x00 ∷ 0x00 ∷ 0x01
    ∷ 0x00 ∷ 0x00 ∷ 0x00 ∷ 0x03 ∷ 0x00 ∷ 0x00 ∷ 0x00 ∷ 0x20 ∷ 0x00 ∷ 0x04 ∷ 0x00 ∷ 0x06 ∷ 0x00
    ∷ 0x00 ∷ 0x00 ∷ 0x01 ∷ 0x00 ∷ 0x00 ∷ 0x00 ∷ 0x04 ∷ 0x00 ∷ 0x00 ∷ 0x00 ∷ 0x20 ∷ 0x00 ∷ 0x04
    ∷ 0x00 ∷ 0x07 ∷ 0x00 ∷ 0x00 ∷ 0x00 ∷ 0x03 ∷ 0x00 ∷ 0x00 ∷ 0x00 ∷ 0x04 ∷ 0x00 ∷ 0x00 ∷ 0x00
    ∷ 0x1e ∷ 0x00 ∷ 0x03 ∷ 0x00 ∷ 0x08 ∷ 0x00 ∷ 0x00 ∷ 0x00 ∷ 0x04 ∷ 0x00 ∷ 0x00 ∷ 0x00 ∷ 0x20
    ∷ 0x00 ∷ 0x04 ∷ 0x00 ∷ 0x09 ∷ 0x00 ∷ 0x00 ∷ 0x00 ∷ 0x03 ∷ 0x00 ∷ 0x00 ∷ 0x00 ∷ 0x08 ∷ 0x00
    ∷ 0x00 ∷ 0x00 ∷ 0x21 ∷ 0x00 ∷ 0x03 ∷ 0x00 ∷ 0x0c ∷ 0x00 ∷ 0x00 ∷ 0x00 ∷ 0x01 ∷ 0x00 ∷ 0x00
    ∷ 0x00 ∷ 0x2b ∷ 0x00 ∷ 0x04 ∷ 0x00 ∷ 0x02 ∷ 0x00 ∷ 0x00 ∷ 0x00 ∷ 0x0f ∷ 0x00 ∷ 0x00 ∷ 0x00
    ∷ 0x00 ∷ 0x00 ∷ 0x00 ∷ 0x00 ∷ 0x2b ∷ 0x00 ∷ 0x04 ∷ 0x00 ∷ 0x02 ∷ 0x00 ∷ 0x00 ∷ 0x00 ∷ 0x11
    ∷ 0x00 ∷ 0x00 ∷ 0x00 ∷ 0x01 ∷ 0x00 ∷ 0x00 ∷ 0x00 ∷ 0x2b ∷ 0x00 ∷ 0x04 ∷ 0x00 ∷ 0x03 ∷ 0x00
    ∷ 0x00 ∷ 0x00 ∷ 0x18 ∷ 0x00 ∷ 0x00 ∷ 0x00 ∷ 0x00 ∷ 0x00 ∷ 0x00 ∷ 0x00 ∷ 0x2b ∷ 0x00 ∷ 0x04
    ∷ 0x00 ∷ 0x03 ∷ 0x00 ∷ 0x00 ∷ 0x00 ∷ 0x1a ∷ 0x00 ∷ 0x00 ∷ 0x00 ∷ 0x00 ∷ 0x00 ∷ 0x80 ∷ 0x3f
    ∷ 0x3b ∷ 0x00 ∷ 0x04 ∷ 0x00 ∷ 0x06 ∷ 0x00 ∷ 0x00 ∷ 0x00 ∷ 0x0a ∷ 0x00 ∷ 0x00 ∷ 0x00 ∷ 0x01
    ∷ 0x00 ∷ 0x00 ∷ 0x00 ∷ 0x3b ∷ 0x00 ∷ 0x04 ∷ 0x00 ∷ 0x09 ∷ 0x00 ∷ 0x00 ∷ 0x00 ∷ 0x0b ∷ 0x00
    ∷ 0x00 ∷ 0x00 ∷ 0x03 ∷ 0x00 ∷ 0x00 ∷ 0x00 ∷ 0x36 ∷ 0x00 ∷ 0x05 ∷ 0x00 ∷ 0x01 ∷ 0x00 ∷ 0x00
    ∷ 0x00 ∷ 0x0d ∷ 0x00 ∷ 0x00 ∷ 0x00 ∷ 0x00 ∷ 0x00 ∷ 0x00 ∷ 0x00 ∷ 0x0c ∷ 0x00 ∷ 0x00 ∷ 0x00
    ∷ 0xf8 ∷ 0x00 ∷ 0x02 ∷ 0x00 ∷ 0x0e ∷ 0x00 ∷ 0x00 ∷ 0x00 ∷ 0x41 ∷ 0x00 ∷ 0x05 ∷ 0x00 ∷ 0x05
    ∷ 0x00 ∷ 0x00 ∷ 0x00 ∷ 0x10 ∷ 0x00 ∷ 0x00 ∷ 0x00 ∷ 0x0a ∷ 0x00 ∷ 0x00 ∷ 0x00 ∷ 0x0f ∷ 0x00
    ∷ 0x00 ∷ 0x00 ∷ 0x41 ∷ 0x00 ∷ 0x05 ∷ 0x00 ∷ 0x05 ∷ 0x00 ∷ 0x00 ∷ 0x00 ∷ 0x12 ∷ 0x00 ∷ 0x00
    ∷ 0x00 ∷ 0x0a ∷ 0x00 ∷ 0x00 ∷ 0x00 ∷ 0x11 ∷ 0x00 ∷ 0x00 ∷ 0x00 ∷ 0x3d ∷ 0x00 ∷ 0x04 ∷ 0x00
    ∷ 0x03 ∷ 0x00 ∷ 0x00 ∷ 0x00 ∷ 0x13 ∷ 0x00 ∷ 0x00 ∷ 0x00 ∷ 0x10 ∷ 0x00 ∷ 0x00 ∷ 0x00 ∷ 0x3d
    ∷ 0x00 ∷ 0x04 ∷ 0x00 ∷ 0x03 ∷ 0x00 ∷ 0x00 ∷ 0x00 ∷ 0x14 ∷ 0x00 ∷ 0x00 ∷ 0x00 ∷ 0x12 ∷ 0x00
    ∷ 0x00 ∷ 0x00 ∷ 0x01 ∷ 0x00 ∷ 0x03 ∷ 0x00 ∷ 0x04 ∷ 0x00 ∷ 0x00 ∷ 0x00 ∷ 0x15 ∷ 0x00 ∷ 0x00
    ∷ 0x00 ∷ 0x52 ∷ 0x00 ∷ 0x06 ∷ 0x00 ∷ 0x04 ∷ 0x00 ∷ 0x00 ∷ 0x00 ∷ 0x16 ∷ 0x00 ∷ 0x00 ∷ 0x00
    ∷ 0x13 ∷ 0x00 ∷ 0x00 ∷ 0x00 ∷ 0x15 ∷ 0x00 ∷ 0x00 ∷ 0x00 ∷ 0x00 ∷ 0x00 ∷ 0x00 ∷ 0x00 ∷ 0x52
    ∷ 0x00 ∷ 0x06 ∷ 0x00 ∷ 0x04 ∷ 0x00 ∷ 0x00 ∷ 0x00 ∷ 0x17 ∷ 0x00 ∷ 0x00 ∷ 0x00 ∷ 0x14 ∷ 0x00
    ∷ 0x00 ∷ 0x00 ∷ 0x16 ∷ 0x00 ∷ 0x00 ∷ 0x00 ∷ 0x01 ∷ 0x00 ∷ 0x00 ∷ 0x00 ∷ 0x52 ∷ 0x00 ∷ 0x06
    ∷ 0x00 ∷ 0x04 ∷ 0x00 ∷ 0x00 ∷ 0x00 ∷ 0x19 ∷ 0x00 ∷ 0x00 ∷ 0x00 ∷ 0x18 ∷ 0x00 ∷ 0x00 ∷ 0x00
    ∷ 0x17 ∷ 0x00 ∷ 0x00 ∷ 0x00 ∷ 0x02 ∷ 0x00 ∷ 0x00 ∷ 0x00 ∷ 0x52 ∷ 0x00 ∷ 0x06 ∷ 0x00 ∷ 0x04
    ∷ 0x00 ∷ 0x00 ∷ 0x00 ∷ 0x1b ∷ 0x00 ∷ 0x00 ∷ 0x00 ∷ 0x1a ∷ 0x00 ∷ 0x00 ∷ 0x00 ∷ 0x19 ∷ 0x00
    ∷ 0x00 ∷ 0x00 ∷ 0x03 ∷ 0x00 ∷ 0x00 ∷ 0x00 ∷ 0x41 ∷ 0x00 ∷ 0x05 ∷ 0x00 ∷ 0x07 ∷ 0x00 ∷ 0x00
    ∷ 0x00 ∷ 0x1c ∷ 0x00 ∷ 0x00 ∷ 0x00 ∷ 0x0b ∷ 0x00 ∷ 0x00 ∷ 0x00 ∷ 0x0f ∷ 0x00 ∷ 0x00 ∷ 0x00
    ∷ 0x3e ∷ 0x00 ∷ 0x03 ∷ 0x00 ∷ 0x1c ∷ 0x00 ∷ 0x00 ∷ 0x00 ∷ 0x1b ∷ 0x00 ∷ 0x00 ∷ 0x00 ∷ 0xfd
    ∷ 0x00 ∷ 0x01 ∷ 0x00 ∷ 0x38 ∷ 0x00 ∷ 0x01 ∷ 0x00 ∷ []

-- The words of bytes, the least significant first.
abbrev pub words_of : List ℕ → List ℕ
words_of (a ∷ b ∷ c ∷ d ∷ rest) = (a + b * 2 ^ 8 + c * 2 ^ 16 + d * 2 ^ 24) ∷ words_of rest
words_of _ = []
