-- ===== src/Instructions/Conversion.antt =====
-- src/instructions/conversion.cpp
use sirit.Base.{List, [], ◌∷◌, arith, All}
use sirit.Spirv.{Op}
use sirit.Stream.{SpvId, id, with_type}
use sirit.Emission.{Emission, emission, code}
use sirit.Emission.Size.{IsTight}
use sirit.Instructions.Arguments.{Arguments}

-- the macro `DEFINE_UNARY`
abbrev define_unary : Op → SpvId → SpvId → Emission
define_unary op result_type operand = emission code 4 (with_type op result_type) (id operand ∷ [])

op_convert_f_to_u : SpvId → SpvId → Emission
op_convert_f_to_u = define_unary Op.op_convert_f_to_u

op_convert_f_to_s : SpvId → SpvId → Emission
op_convert_f_to_s = define_unary Op.op_convert_f_to_s

op_convert_s_to_f : SpvId → SpvId → Emission
op_convert_s_to_f = define_unary Op.op_convert_s_to_f

op_convert_u_to_f : SpvId → SpvId → Emission
op_convert_u_to_f = define_unary Op.op_convert_u_to_f

op_u_convert : SpvId → SpvId → Emission
op_u_convert = define_unary Op.op_u_convert

op_s_convert : SpvId → SpvId → Emission
op_s_convert = define_unary Op.op_s_convert

op_f_convert : SpvId → SpvId → Emission
op_f_convert = define_unary Op.op_f_convert

op_quantize_to_f16 : SpvId → SpvId → Emission
op_quantize_to_f16 = define_unary Op.op_quantize_to_f16

op_bitcast : SpvId → SpvId → Emission
op_bitcast = define_unary Op.op_bitcast

-- The methods of this file, at any arguments.
pub conversion_methods : Arguments → List Emission
unfolding op_convert_f_to_u op_convert_f_to_s op_convert_s_to_f op_convert_u_to_f op_u_convert
    op_s_convert op_f_convert op_quantize_to_f16 op_bitcast
conversion_methods g =
    op_convert_f_to_u (g.id 0) (g.id 1)
    ∷ op_convert_f_to_s (g.id 0) (g.id 1)
    ∷ op_convert_s_to_f (g.id 0) (g.id 1)
    ∷ op_convert_u_to_f (g.id 0) (g.id 1)
    ∷ op_u_convert (g.id 0) (g.id 1)
    ∷ op_s_convert (g.id 0) (g.id 1)
    ∷ op_f_convert (g.id 0) (g.id 1)
    ∷ op_quantize_to_f16 (g.id 0) (g.id 1)
    ∷ op_bitcast (g.id 0) (g.id 1)
    ∷ []

-- The emissions of src/instructions/conversion.cpp reserve at least what they write, and at most
-- two words more.
pub conversion_methods-IsTight : (g : Arguments) → All IsTight (conversion_methods g)
unfolding conversion_methods
conversion_methods-IsTight g = omega arith
