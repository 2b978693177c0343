-- ===== src/Instructions/Function.antt =====
-- src/instructions/function.cpp
use sirit.Base.{ℕ, ◌+◌, List, [], ◌∷◌, length, arith, All}
use sirit.Spirv.{Op}
use sirit.Stream.{SpvId, id, enum, ids, plain, with_type}
use sirit.Emission.{Emission, emission, code}
use sirit.Emission.Size.{IsTight}
use sirit.Instructions.Arguments.{Arguments}

unfoldable pub op_function : SpvId → ℕ → SpvId → Emission
op_function result_type function_control function_type =
    emission code 5 (with_type Op.op_function result_type)
      (enum function_control ∷ id function_type ∷ [])

unfoldable pub op_function_end : Emission
op_function_end = emission code 1 (plain Op.op_function_end) []

pub op_function_call : SpvId → SpvId → List SpvId → Emission
op_function_call result_type callee arguments =
    emission code (4 + length arguments) (with_type Op.op_function_call result_type)
      (id callee ∷ ids arguments ∷ [])

op_function_parameter : SpvId → Emission
op_function_parameter result_type =
    emission code 3 (with_type Op.op_function_parameter result_type) []

-- The methods of this file, at any arguments.
pub function_methods : Arguments → List Emission
unfolding op_function op_function_end op_function_call op_function_parameter
function_methods g =
    op_function (g.id 0) (g.number 0) (g.id 1)
    ∷ op_function_end
    ∷ op_function_call (g.id 0) (g.id 1) g.operands
    ∷ op_function_parameter (g.id 0)
    ∷ []

-- The emissions of src/instructions/function.cpp reserve at least what they write, and at most
-- two words more.
pub function_methods-IsTight : (g : Arguments) → All IsTight (function_methods g)
unfolding function_methods
function_methods-IsTight g = omega arith
