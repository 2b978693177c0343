-- ===== src/Tests/Suite.antt =====
-- tests/main.cpp: the tests, each with the values of its `CHECK`s.
use sirit.Base.{
  ℕ, suc, ◌*◌, Bool, true, false, not, ◌&&◌, ◌==◌, leb, List, [], ◌∷◌, Outcome, ok, ◌>>=◌, length,
  get_or, pos, negsuc, if◌then◌else◌,
}
use sirit.Spirv.{Op, Platform}
use sirit.Stream.{valid_id, uint32, uint64, int32, int64, float, double}
use sirit.Instructions.Constant.{constant, constant_true, constant_false, constant_null}
use sirit.Instructions.Flow.{op_return}
use sirit.Instructions.Function.{op_function, op_function_end}
use sirit.Instructions.Types.{type_void, type_bool, type_int, type_float, type_vector}
use sirit.Overloads.Methods.{type_function_of, add_entry_point_of, add_execution_mode_of}
use sirit.Module.{call, new_module, add_capability, set_memory_model, add_new_label}
use sirit.Module.Assemble.{assemble, generator_magic_number}
use sirit.Module.Assemble.Parse.{Instruction, parse_instructions}
use sirit.Declarations.{words_eq}
use sirit.Tests.Vertex.{generate, expected_vertex_binary, words_of, shader}

-- How many instructions pass a test.
abbrev count_of : (Instruction → Bool) → List Instruction → ℕ
count_of p [] = 0
count_of p (x ∷ xs) = let n = count_of p xs in if p x then suc n else n

-- a `CHECK` under an `if`
abbrev when : Bool → Bool → List Bool
when b c = if b then c ∷ [] else []

-- a `CHECK` of the first instruction, where there is one
abbrev check_first : (Instruction → Bool) → List Instruction → List Bool
check_first p [] = []
check_first p (x ∷ xs) = p x ∷ []

-- the enumerators of the SPIR-V headers that these tests use
abbrev float64 : ℕ
float64 = 10

abbrev gl_compute : ℕ
gl_compute = 5

abbrev local_size : ℕ
local_size = 17

module _ ⦃p : Platform⦄ where
  abbrev pub test_vertex_shader_golden : Outcome (List Bool)
  test_vertex_shader_golden = do
    m ← generate (new_module 0x00010300)
    code ← assemble m
    let same_size = length code * 4 == length expected_vertex_binary
    ok (same_size ∷ when same_size (words_eq code (words_of expected_vertex_binary)))

  abbrev pub test_module_header : ℕ → Outcome (List Bool)
  test_module_header version = do
    code ← assemble (set_memory_model p.logical p.glsl450 (new_module version))
    insts ← parse_instructions code
    ok (
        leb 5 (length code)
        ∷ (get_or code 0 0 == p.magic_number)
        ∷ (get_or code 1 0 == version)
        ∷ (get_or code 2 0 == generator_magic_number)
        ∷ leb 1 (get_or code 3 0)
        ∷ (get_or code 4 0 == 0)
        ∷ (length insts == 1)
        ∷ check_first (λ i. i.opcode == p.op_code Op.op_memory_model) insts)

  abbrev pub test_determinism : Outcome (List Bool)
  test_determinism = do
    m ← generate (new_module 0x00010300)
    a ← assemble m
    m' ← generate (new_module 0x00010300)
    b ← assemble m'
    ok (words_eq a b ∷ [])

  abbrev pub test_constant_dedup : Outcome (List Bool)
  test_constant_dedup = do
    (t_uint, m) ← call (type_int (pos 32) false) (new_module 0x00010300)
    (a, m) ← call (constant t_uint (uint32 42)) m
    (b, m) ← call (constant t_uint (uint32 42)) m
    (c, m) ← call (constant t_uint (uint32 43)) m
    ok ((a.value == b.value) ∷ not (a.value == c.value) ∷ [])

  abbrev pub test_type_dedup : Outcome (List Bool)
  test_type_dedup = do
    (u32_a, m) ← call (type_int (pos 32) false) (new_module 0x00010300)
    (u32_b, m) ← call (type_int (pos 32) false) m
    (i32, m) ← call (type_int (pos 32) true) m
    (u64, m) ← call (type_int (pos 64) false) m
    (f, m) ← call (type_float (pos 32)) m
    (v4_a, m) ← call (type_vector f (pos 4)) m
    (f, m) ← call (type_float (pos 32)) m
    (v4_b, m) ← call (type_vector f (pos 4)) m
    ok (
        (u32_a.value == u32_b.value)
        ∷ not (u32_a.value == i32.value)
        ∷ not (u32_a.value == u64.value)
        ∷ (v4_a.value == v4_b.value)
        ∷ [])

  abbrev is_capability : ℕ → Instruction → Bool
  is_capability c i =
      (i.opcode == p.op_code Op.op_capability) && (leb 2 i.word_count && (get_or i.words 1 0 == c))

  abbrev pub test_capability_dedup : Outcome (List Bool)
  test_capability_dedup = do
    let m =
        add_capability float64
          (add_capability shader (add_capability shader (new_module 0x00010300)))
    code ← assemble (set_memory_model p.logical p.glsl450 m)
    insts ← parse_instructions code
    ok (
        (count_of (is_capability shader) insts == 1)
        ∷ (count_of (is_capability float64) insts == 1)
        ∷ [])

  abbrev pub test_constant_kinds : Outcome (List Bool)
  test_constant_kinds = do
    (t_bool, m) ← call type_bool (new_module 0x00010300)
    (t_u32, m) ← call (type_int (pos 32) false) m
    (t_i32, m) ← call (type_int (pos 32) true) m
    (t_u64, m) ← call (type_int (pos 64) false) m
    (t_i64, m) ← call (type_int (pos 64) true) m
    (t_f32, m) ← call (type_float (pos 32)) m
    (t_f64, m) ← call (type_float (pos 64)) m
    (t_v4f32, m) ← call (type_vector t_f32 (pos 4)) m
    (a, m) ← call (constant_true t_bool) m
    (b, m) ← call (constant_false t_bool) m
    (c, m) ← call (constant t_u32 (uint32 1234)) m
    (d, m) ← call (constant t_i32 (int32 (negsuc 1233))) m
    (e, m) ← call (constant t_u64 (uint64 0xDEADBEEFCAFE)) m
    (f, m) ← call (constant t_i64 (int64 (negsuc 6))) m
    (g, m) ← call (constant t_f32 (float 0x4048f5c3)) m
    (h, m) ← call (constant t_f64 (double 0x4005bf0a8b04919b)) m
    (i, m) ← call (constant_null t_v4f32) m
    ok (
        valid_id a
        ∷ valid_id b
        ∷ valid_id c
        ∷ valid_id d
        ∷ valid_id e
        ∷ valid_id f
        ∷ valid_id g
        ∷ valid_id h
        ∷ valid_id i
        ∷ [])

  abbrev is_local_size : Instruction → Bool
  is_local_size i =
      (i.opcode == p.op_code Op.op_execution_mode)
      && ((i.word_count == 6)
          && ((get_or i.words 2 0 == local_size)
              && ((get_or i.words 3 0 == 8)
                  && ((get_or i.words 4 0 == 4) && (get_or i.words 5 0 == 1)))))

  abbrev is_entry_point : Instruction → Bool
  is_entry_point i =
      (i.opcode == p.op_code Op.op_entry_point)
      && (leb 4 i.word_count && (get_or i.words 1 0 == gl_compute))

  abbrev pub test_compute_shader_execution_mode : Outcome (List Bool)
  test_compute_shader_execution_mode = do
    let m = set_memory_model p.logical p.glsl450 (add_capability shader (new_module 0x00010300))
    (t_void, m) ← call type_void m
    (t_func, m) ← call (type_function_of t_void 0) m
    (fn, m) ← call (op_function t_void 0 t_func) m
    (_, m) ← add_new_label m
    (_, m) ← call op_return m
    (_, m) ← call op_function_end m
    (_, m) ← call (add_entry_point_of gl_compute fn (b'm' ∷ b'a' ∷ b'i' ∷ b'n' ∷ []) 0) m
    (_, m) ← call (add_execution_mode_of fn local_size 3 (uint32 8) (uint32 4) (uint32 1)) m
    code ← assemble m
    insts ← parse_instructions code
    ok (leb 1 (count_of is_local_size insts) ∷ leb 1 (count_of is_entry_point insts) ∷ [])
