-- ===== src/Module.antt =====
-- src/sirit.cpp and include/sirit/sirit.h: `Module`, its state and the methods that are more than one
-- chain. The streams share the counter `bound`.
pub mod Assemble
pub mod Phi
pub mod Extension
pub mod Streams
pub mod Valid
pub mod Names
pub mod Label
pub mod Sets
pub mod Methods
pub mod Steps
pub mod Reach
pub mod Draft
use sirit.Base.{
  ℕ, zero, suc, ◌+◌, ◌-◌, ◌*◌, ◌/◌, ◌%◌, ◌^◌, bit_or, bit_and, Bool, true, false, Option, none,
  some, List, [], ◌∷◌, ◌++◌, ltb, ◌==◌, not, if◌then◌else◌, length, replicate, Outcome, ok, ◌>>=◌,
  ◌>>◌, assert,
}
use sirit.Spirv.{Op, GlslStd450, Platform}
use sirit.Stream.{
  SpvId, valid_id, Literal, Operand, id, u32, enum, optional_id, ids, literals, string, plain,
  with_id, with_type, Stream, empty, reserve, contents, local_address, get_value, set_value,
  push_word, words_in_string, insert_string_view, put_head, put_all, end_op,
}
use sirit.Emission.{
  Section, ext_inst_imports, entry_points, execution_modes, debug, annotations, declarations,
  global_variables, code, Emission, emission, emit,
}
use sirit.Declarations.{Declarations, no_declarations, words_eq, declare}

pub record Module : Type 0 where
  pub version : ℕ
  pub bound : ℕ
  pub extensions : List (List ℕ)
  pub capabilities : List ℕ
  pub glsl_std_450 : Option SpvId
  pub addressing_model : ℕ
  pub memory_model : ℕ
  pub ext_inst_imports : Stream
  pub entry_points : Stream
  pub execution_modes : Stream
  pub debug : Stream
  pub annotations : Stream
  pub declarations : Declarations
  pub global_variables : Stream
  pub code : Stream
  pub deferred_phi_nodes : List ℕ

-- `std::unordered_set::insert`
unfoldable pub insert_word : ℕ → List ℕ → List ℕ
insert_word x [] = x ∷ []
insert_word x (y ∷ ys) = if y == x then y ∷ ys else y ∷ insert_word x ys

unfoldable pub insert_text : List ℕ → List (List ℕ) → List (List ℕ)
insert_text x [] = x ∷ []
insert_text x (y ∷ ys) = if words_eq y x then y ∷ ys else y ∷ insert_text x ys

unfoldable pub add_extension : List ℕ → Module → Module
add_extension extension_name m = record m { extensions = insert_text extension_name m.extensions }

unfoldable pub add_capability : ℕ → Module → Module
add_capability capability m = record m { capabilities = insert_word capability m.capabilities }

unfoldable pub set_memory_model : ℕ → ℕ → Module → Module
set_memory_model addressing_model memory_model m = record m {
  addressing_model = addressing_model;
  memory_model = memory_model;
}

unfoldable pub add_entry_point : ℕ → SpvId → List ℕ → List SpvId → Emission
add_entry_point execution_model entry_point text interfaces =
    emission entry_points (4 + words_in_string text + length interfaces) (plain Op.op_entry_point)
      (enum execution_model ∷ id entry_point ∷ string text ∷ ids interfaces ∷ [])

unfoldable pub add_execution_mode : SpvId → ℕ → List Literal → Emission
add_execution_mode entry_point mode values =
    emission execution_modes (3 + length values) (plain Op.op_execution_mode)
      (id entry_point ∷ enum mode ∷ literals values ∷ [])

pub add_local_variable : SpvId → ℕ → Option SpvId → Emission
add_local_variable result_type storage_class initializer =
    emission code 5 (with_type Op.op_variable result_type)
      (enum storage_class ∷ optional_id initializer ∷ [])

unfoldable pub add_global_variable : SpvId → ℕ → Option SpvId → Emission
add_global_variable result_type storage_class initializer =
    emission global_variables 5 (with_type Op.op_variable result_type)
      (enum storage_class ∷ optional_id initializer ∷ [])

unfoldable pub op_ext_inst : SpvId → SpvId → ℕ → List SpvId → Emission
op_ext_inst result_type instruction_set instruction operands =
    emission code (5 + length operands) (with_type Op.op_ext_inst result_type)
      (id instruction_set ∷ u32 instruction ∷ ids operands ∷ [])

unfoldable pub import_glsl : Emission
import_glsl =
    emission ext_inst_imports (3 + 4) (with_id Op.op_ext_inst_import) (string glsl_name ∷ [])
  where
    -- "GLSL.std.450"
    glsl_name : List ℕ
    glsl_name =
        b'G' ∷ b'L' ∷ b'S' ∷ b'L' ∷ b'.' ∷ b's' ∷ b't' ∷ b'd' ∷ b'.' ∷ b'4' ∷ b'5' ∷ b'0' ∷ []

-- A step of a stateful method.
abbrev pub Method : Type 0
Method = Module → Outcome (SpvId × Module)

-- `*label` as a fresh id: `++bound`
unfoldable pub op_label : Method
op_label m =
    let bound = (m.bound + 1) % 2 ^ 32 in ok (record { value = bound }, record m { bound = bound })

module _ ⦃p : Platform⦄ where
  -- `Module(u32)`
  unfoldable pub new_module : ℕ → Module
  new_module version = record {
    version = version;
    bound = 0;
    extensions = [];
    capabilities = [];
    glsl_std_450 = none;
    addressing_model = p.logical;
    memory_model = p.glsl450;
    ext_inst_imports = empty;
    entry_points = empty;
    execution_modes = empty;
    debug = empty;
    annotations = empty;
    declarations = no_declarations;
    global_variables = empty;
    code = empty;
    deferred_phi_nodes = [];
  }

  -- The emission on the stream that it names.
  abbrev call_on : Section → Emission → Method
  call_on ext_inst_imports e m = do
    (i, b, s) ← emit e m.bound m.ext_inst_imports
    ok (i, record m { bound = b; ext_inst_imports = s })
  call_on entry_points e m = do
    (i, b, s) ← emit e m.bound m.entry_points
    ok (i, record m { bound = b; entry_points = s })
  call_on execution_modes e m = do
    (i, b, s) ← emit e m.bound m.execution_modes
    ok (i, record m { bound = b; execution_modes = s })
  call_on debug e m = do
    (i, b, s) ← emit e m.bound m.debug
    ok (i, record m { bound = b; debug = s })
  call_on annotations e m = do
    (i, b, s) ← emit e m.bound m.annotations
    ok (i, record m { bound = b; annotations = s })
  call_on declarations e m = do
    (i, b, d) ← declare e m.bound m.declarations
    ok (i, record m { bound = b; declarations = d })
  call_on global_variables e m = do
    (i, b, s) ← emit e m.bound m.global_variables
    ok (i, record m { bound = b; global_variables = s })
  call_on code e m = do (i, b, s) ← emit e m.bound m.code; ok (i, record m { bound = b; code = s })

  unfoldable pub call : Emission → Method
  call e = call_on e.section e

  -- `Name` and `MemberName` return their target instead of the emission's id.
  abbrev pub call_for : SpvId → Emission → Method
  call_for target e m = do (_, m') ← call e m; ok (target, m')

  -- `GetGLSLstd450`, where `glsl_std_450` holds the first argument
  abbrev cached_glsl : Option SpvId → Method
  cached_glsl (some i) m = ok (i, m)
  cached_glsl none m = do (i, m') ← call import_glsl m; ok (i, record m' { glsl_std_450 = some i })

  unfoldable pub get_glsl_std_450 : Method
  get_glsl_std_450 m = cached_glsl m.glsl_std_450 m

  -- The methods of src/instructions/extension.cpp that the macros define.
  abbrev pub glsl_method : GlslStd450 → SpvId → List SpvId → Method
  glsl_method instruction result_type operands m = do
    (set, m') ← get_glsl_std_450 m
    call (op_ext_inst result_type set (p.glsl_code instruction) operands) m'

  -- `MakeWord0`
  unfoldable pub make_word0 : Op → ℕ → ℕ
  make_word0 op word_count = bit_or (p.op_code op) (word_count % 2 ^ 32 * 2 ^ 16 % 2 ^ 32)

  -- `AddLabel(Id)`: a label has neither `EndOp` nor a place in `op_index`.
  unfoldable pub add_label : SpvId → Method
  add_label label m = do
    assert (valid_id label)
    s ← push_word (make_word0 Op.op_label 2) (reserve 2 m.code)
    s' ← push_word label.value s
    ok (label, record m { code = s' })

  -- `AddLabel()`
  unfoldable pub add_new_label : Method
  add_new_label m = do (label, m') ← op_label m; add_label label m'
