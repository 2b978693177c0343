-- ===== src/Instructions/Derivatives.antt =====
-- src/instructions/derivatives.cpp
use sirit.Base.{List, [], ◌∷◌, arith, All}
use sirit.Spirv.{Op}
use sirit.Stream.{SpvId, id, with_type}
use sirit.Emission.{Emission, emission, code}
use sirit.Emission.Size.{IsTight}
use sirit.Instructions.Arguments.{Arguments}

-- the macro `DEFINE_UNARY`
abbrev define_unary : Op → SpvId → SpvId → Emission
define_unary op result_type operand = emission code 4 (with_type op result_type) (id operand ∷ [])

op_d_pdx : SpvId → SpvId → Emission
op_d_pdx = define_unary Op.op_d_pdx

op_d_pdy : SpvId → SpvId → Emission
op_d_pdy = define_unary Op.op_d_pdy

op_fwidth : SpvId → SpvId → Emission
op_fwidth = define_unary Op.op_fwidth

op_d_pdx_fine : SpvId → SpvId → Emission
op_d_pdx_fine = define_unary Op.op_d_pdx_fine

op_d_pdy_fine : SpvId → SpvId → Emission
op_d_pdy_fine = define_unary Op.op_d_pdy_fine

op_fwidth_fine : SpvId → SpvId → Emission
op_fwidth_fine = define_unary Op.op_fwidth_fine

op_d_pdx_coarse : SpvId → SpvId → Emission
op_d_pdx_coarse = define_unary Op.op_d_pdx_coarse

op_d_pdy_coarse : SpvId → SpvId → Emission
op_d_pdy_coarse = define_unary Op.op_d_pdy_coarse

op_fwidth_coarse : SpvId → SpvId → Emission
op_fwidth_coarse = define_unary Op.op_fwidth_coarse

-- The methods of this file, at any arguments.
pub derivatives_methods : Arguments → List Emission
unfolding op_d_pdx op_d_pdy op_fwidth op_d_pdx_fine op_d_pdy_fine op_fwidth_fine op_d_pdx_coarse
    op_d_pdy_coarse op_fwidth_coarse
derivatives_methods g =
    op_d_pdx (g.id 0) (g.id 1)
    ∷ op_d_pdy (g.id 0) (g.id 1)
    ∷ op_fwidth (g.id 0) (g.id 1)
    ∷ op_d_pdx_fine (g.id 0) (g.id 1)
    ∷ op_d_pdy_fine (g.id 0) (g.id 1)
    ∷ op_fwidth_fine (g.id 0) (g.id 1)
    ∷ op_d_pdx_coarse (g.id 0) (g.id 1)
    ∷ op_d_pdy_coarse (g.id 0) (g.id 1)
    ∷ op_fwidth_coarse (g.id 0) (g.id 1)
    ∷ []

-- The emissions of src/instructions/derivatives.cpp reserve at least what they write, and at most
-- two words more.
pub derivatives_methods-IsTight : (g : Arguments) → All IsTight (derivatives_methods g)
unfolding derivatives_methods
derivatives_methods-IsTight g = omega arith
