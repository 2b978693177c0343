-- ===== src/Module/Methods.antt =====
-- The methods of src/sirit.cpp that are one chain, and `OpExtInst`.
use sirit.Base.{List, [], ◌∷◌, arith, All}
use sirit.Stream.Text.{words_in_string_lem}
use sirit.Emission.{Emission}
use sirit.Emission.Size.{IsTight, IsNarrow, literals_size_narrow, present-le}
use sirit.Instructions.Arguments.{Arguments}
use sirit.Module.{
  add_entry_point, add_execution_mode, add_local_variable, add_global_variable, op_ext_inst,
  import_glsl,
}

-- The methods at any arguments.
module_methods : Arguments → List Emission
unfolding add_entry_point add_execution_mode add_local_variable add_global_variable op_ext_inst
    import_glsl
module_methods g =
    add_entry_point (g.number 0) (g.id 0) g.text g.operands
    ∷ add_execution_mode (g.id 0) (g.number 0) g.literals
    ∷ add_local_variable (g.id 0) (g.number 0) g.initializer
    ∷ add_global_variable (g.id 0) (g.number 0) g.initializer
    ∷ op_ext_inst (g.id 0) (g.id 1) (g.number 0) g.operands
    ∷ import_glsl
    ∷ []

-- The methods of src/sirit.cpp and `OpExtInst` reserve at least what they write, and at most two words
-- more, if the literals of an execution mode are of one word.
module_methods-IsTight : (g : Arguments) → All IsNarrow g.literals → All IsTight (module_methods g)
unfolding module_methods
module_methods-IsTight g n =
    omega (
      arith,
      words_in_string_lem g.text,
      present-le g.initializer,
      literals_size_narrow g.literals n,
    )
