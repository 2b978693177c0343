-- ===== src/Instructions/Constant.antt =====
-- src/instructions/constant.cpp
use sirit.Base.{ℕ, ◌+◌, Bool, List, [], ◌∷◌, length, arith, All}
use sirit.Spirv.{Op}
use sirit.Stream.{SpvId, Literal, boolean, literal, enum, ids, with_type}
use sirit.Emission.{Emission, emission, declarations}
use sirit.Emission.Size.{IsTight}
use sirit.Instructions.Arguments.{Arguments}
use sirit.Declarations.Declare.{HasId}

unfoldable pub constant_true : SpvId → Emission
constant_true result_type = emission declarations 3 (with_type Op.op_constant_true result_type) []

unfoldable pub constant_false : SpvId → Emission
constant_false result_type = emission declarations 3 (with_type Op.op_constant_false result_type) []

unfoldable pub constant : SpvId → Literal → Emission
constant result_type value =
    emission declarations (3 + 2) (with_type Op.op_constant result_type) (literal value ∷ [])

pub constant_composite : SpvId → List SpvId → Emission
constant_composite result_type constituents =
    emission declarations (3 + length constituents) (with_type Op.op_constant_composite result_type)
      (ids constituents ∷ [])

constant_sampler : SpvId → ℕ → Bool → ℕ → Emission
constant_sampler result_type addressing_mode normalized filter_mode =
    emission declarations 6 (with_type Op.op_constant_sampler result_type)
      (enum addressing_mode ∷ boolean normalized ∷ enum filter_mode ∷ [])

unfoldable pub constant_null : SpvId → Emission
constant_null result_type = emission declarations 3 (with_type Op.op_constant_null result_type) []

-- The methods of this file, at any arguments.
pub constant_methods : Arguments → List Emission
unfolding constant_true constant_false constant constant_composite constant_sampler constant_null
constant_methods g =
    constant_true (g.id 0)
    ∷ constant_false (g.id 0)
    ∷ constant (g.id 0) (g.literal 0)
    ∷ constant_composite (g.id 0) g.operands
    ∷ constant_sampler (g.id 0) (g.number 0) (g.flag 0) (g.number 1)
    ∷ constant_null (g.id 0)
    ∷ []

-- The emissions of src/instructions/constant.cpp reserve at least what they write, and at most
-- two words more.
pub constant_methods-IsTight : (g : Arguments) → All IsTight (constant_methods g)
unfolding constant_methods
constant_methods-IsTight g = ground (arith, g.literal 0)

-- Each has a result id.
pub constant_methods-HasId : (g : Arguments) → All (λ e. HasId e.head) (constant_methods g)
unfolding constant_methods
constant_methods-HasId g = ground arith
