-- ===== src/Instructions/Arithmetic.antt =====
-- src/instructions/arithmetic.cpp
use sirit.Base.{List, [], ◌∷◌, arith, All}
use sirit.Spirv.{Op}
use sirit.Stream.{SpvId, id, with_type}
use sirit.Emission.{Emission, emission, code}
use sirit.Emission.Size.{IsTight}
use sirit.Instructions.Arguments.{Arguments}

-- the macro `DEFINE_UNARY`
abbrev define_unary : Op → SpvId → SpvId → Emission
define_unary op result_type operand = emission code 4 (with_type op result_type) (id operand ∷ [])

-- the macro `DEFINE_BINARY`
abbrev define_binary : Op → SpvId → SpvId → SpvId → Emission
define_binary op result_type operand_1 operand_2 =
    emission code 5 (with_type op result_type) (id operand_1 ∷ id operand_2 ∷ [])

op_s_negate : SpvId → SpvId → Emission
op_s_negate = define_unary Op.op_s_negate

op_f_negate : SpvId → SpvId → Emission
op_f_negate = define_unary Op.op_f_negate

op_i_add : SpvId → SpvId → SpvId → Emission
op_i_add = define_binary Op.op_i_add

op_f_add : SpvId → SpvId → SpvId → Emission
op_f_add = define_binary Op.op_f_add

op_i_sub : SpvId → SpvId → SpvId → Emission
op_i_sub = define_binary Op.op_i_sub

op_f_sub : SpvId → SpvId → SpvId → Emission
op_f_sub = define_binary Op.op_f_sub

op_i_mul : SpvId → SpvId → SpvId → Emission
op_i_mul = define_binary Op.op_i_mul

op_f_mul : SpvId → SpvId → SpvId → Emission
op_f_mul = define_binary Op.op_f_mul

op_u_div : SpvId → SpvId → SpvId → Emission
op_u_div = define_binary Op.op_u_div

op_s_div : SpvId → SpvId → SpvId → Emission
op_s_div = define_binary Op.op_s_div

op_f_div : SpvId → SpvId → SpvId → Emission
op_f_div = define_binary Op.op_f_div

op_u_mod : SpvId → SpvId → SpvId → Emission
op_u_mod = define_binary Op.op_u_mod

op_s_mod : SpvId → SpvId → SpvId → Emission
op_s_mod = define_binary Op.op_s_mod

op_f_mod : SpvId → SpvId → SpvId → Emission
op_f_mod = define_binary Op.op_f_mod

op_s_rem : SpvId → SpvId → SpvId → Emission
op_s_rem = define_binary Op.op_s_rem

op_f_rem : SpvId → SpvId → SpvId → Emission
op_f_rem = define_binary Op.op_f_rem

op_i_add_carry : SpvId → SpvId → SpvId → Emission
op_i_add_carry = define_binary Op.op_i_add_carry

-- The methods of this file, at any arguments.
pub arithmetic_methods : Arguments → List Emission
unfolding op_s_negate op_f_negate op_i_add op_f_add op_i_sub op_f_sub op_i_mul op_f_mul op_u_div
    op_s_div op_f_div op_u_mod op_s_mod op_f_mod op_s_rem op_f_rem op_i_add_carry
arithmetic_methods g =
    op_s_negate (g.id 0) (g.id 1)
    ∷ op_f_negate (g.id 0) (g.id 1)
    ∷ op_i_add (g.id 0) (g.id 1) (g.id 2)
    ∷ op_f_add (g.id 0) (g.id 1) (g.id 2)
    ∷ op_i_sub (g.id 0) (g.id 1) (g.id 2)
    ∷ op_f_sub (g.id 0) (g.id 1) (g.id 2)
    ∷ op_i_mul (g.id 0) (g.id 1) (g.id 2)
    ∷ op_f_mul (g.id 0) (g.id 1) (g.id 2)
    ∷ op_u_div (g.id 0) (g.id 1) (g.id 2)
    ∷ op_s_div (g.id 0) (g.id 1) (g.id 2)
    ∷ op_f_div (g.id 0) (g.id 1) (g.id 2)
    ∷ op_u_mod (g.id 0) (g.id 1) (g.id 2)
    ∷ op_s_mod (g.id 0) (g.id 1) (g.id 2)
    ∷ op_f_mod (g.id 0) (g.id 1) (g.id 2)
    ∷ op_s_rem (g.id 0) (g.id 1) (g.id 2)
    ∷ op_f_rem (g.id 0) (g.id 1) (g.id 2)
    ∷ op_i_add_carry (g.id 0) (g.id 1) (g.id 2)
    ∷ []

-- The emissions of src/instructions/arithmetic.cpp reserve at least what they write, and at most
-- two words more.
pub arithmetic_methods-IsTight : (g : Arguments) → All IsTight (arithmetic_methods g)
unfolding arithmetic_methods
arithmetic_methods-IsTight g = omega arith
