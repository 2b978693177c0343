-- ===== src/Instructions/Logical.antt =====
-- src/instructions/logical.cpp
use sirit.Base.{List, [], ◌∷◌, arith, All}
use sirit.Spirv.{Op}
use sirit.Stream.{SpvId, id, with_type}
use sirit.Emission.{Emission, emission, code}
use sirit.Emission.Size.{IsTight}
use sirit.Instructions.Arguments.{Arguments}

-- the macro `DEFINE_UNARY`
abbrev define_unary : Op → SpvId → SpvId → Emission
define_unary op result_type operand = emission code 4 (with_type op result_type) (id operand ∷ [])

-- the macro `DEFINE_BINARY`
abbrev define_binary : Op → SpvId → SpvId → SpvId → Emission
define_binary op result_type operand_1 operand_2 =
    emission code 5 (with_type op result_type) (id operand_1 ∷ id operand_2 ∷ [])

-- the macro `DEFINE_TRINARY`
abbrev define_trinary : Op → SpvId → SpvId → SpvId → SpvId → Emission
define_trinary op result_type operand_1 operand_2 operand_3 =
    emission code 6 (with_type op result_type) (id operand_1 ∷ id operand_2 ∷ id operand_3 ∷ [])

op_any : SpvId → SpvId → Emission
op_any = define_unary Op.op_any

op_all : SpvId → SpvId → Emission
op_all = define_unary Op.op_all

op_is_nan : SpvId → SpvId → Emission
op_is_nan = define_unary Op.op_is_nan

op_is_inf : SpvId → SpvId → Emission
op_is_inf = define_unary Op.op_is_inf

op_logical_equal : SpvId → SpvId → SpvId → Emission
op_logical_equal = define_binary Op.op_logical_equal

op_logical_not_equal : SpvId → SpvId → SpvId → Emission
op_logical_not_equal = define_binary Op.op_logical_not_equal

op_logical_or : SpvId → SpvId → SpvId → Emission
op_logical_or = define_binary Op.op_logical_or

op_logical_and : SpvId → SpvId → SpvId → Emission
op_logical_and = define_binary Op.op_logical_and

op_logical_not : SpvId → SpvId → Emission
op_logical_not = define_unary Op.op_logical_not

op_select : SpvId → SpvId → SpvId → SpvId → Emission
op_select = define_trinary Op.op_select

op_i_equal : SpvId → SpvId → SpvId → Emission
op_i_equal = define_binary Op.op_i_equal

op_i_not_equal : SpvId → SpvId → SpvId → Emission
op_i_not_equal = define_binary Op.op_i_not_equal

op_u_greater_than : SpvId → SpvId → SpvId → Emission
op_u_greater_than = define_binary Op.op_u_greater_than

op_s_greater_than : SpvId → SpvId → SpvId → Emission
op_s_greater_than = define_binary Op.op_s_greater_than

op_u_greater_than_equal : SpvId → SpvId → SpvId → Emission
op_u_greater_than_equal = define_binary Op.op_u_greater_than_equal

op_s_greater_than_equal : SpvId → SpvId → SpvId → Emission
op_s_greater_than_equal = define_binary Op.op_s_greater_than_equal

op_u_less_than : SpvId → SpvId → SpvId → Emission
op_u_less_than = define_binary Op.op_u_less_than

op_s_less_than : SpvId → SpvId → SpvId → Emission
op_s_less_than = define_binary Op.op_s_less_than

op_u_less_than_equal : SpvId → SpvId → SpvId → Emission
op_u_less_than_equal = define_binary Op.op_u_less_than_equal

op_s_less_than_equal : SpvId → SpvId → SpvId → Emission
op_s_less_than_equal = define_binary Op.op_s_less_than_equal

op_f_ord_equal : SpvId → SpvId → SpvId → Emission
op_f_ord_equal = define_binary Op.op_f_ord_equal

op_f_unord_equal : SpvId → SpvId → SpvId → Emission
op_f_unord_equal = define_binary Op.op_f_unord_equal

op_f_ord_not_equal : SpvId → SpvId → SpvId → Emission
op_f_ord_not_equal = define_binary Op.op_f_ord_not_equal

op_f_unord_not_equal : SpvId → SpvId → SpvId → Emission
op_f_unord_not_equal = define_binary Op.op_f_unord_not_equal

op_f_ord_less_than : SpvId → SpvId → SpvId → Emission
op_f_ord_less_than = define_binary Op.op_f_ord_less_than

op_f_unord_less_than : SpvId → SpvId → SpvId → Emission
op_f_unord_less_than = define_binary Op.op_f_unord_less_than

op_f_ord_greater_than : SpvId → SpvId → SpvId → Emission
op_f_ord_greater_than = define_binary Op.op_f_ord_greater_than

op_f_unord_greater_than : SpvId → SpvId → SpvId → Emission
op_f_unord_greater_than = define_binary Op.op_f_unord_greater_than

op_f_ord_less_than_equal : SpvId → SpvId → SpvId → Emission
op_f_ord_less_than_equal = define_binary Op.op_f_ord_less_than_equal

op_f_unord_less_than_equal : SpvId → SpvId → SpvId → Emission
op_f_unord_less_than_equal = define_binary Op.op_f_unord_less_than_equal

op_f_ord_greater_than_equal : SpvId → SpvId → SpvId → Emission
op_f_ord_greater_than_equal = define_binary Op.op_f_ord_greater_than_equal

op_f_unord_greater_than_equal : SpvId → SpvId → SpvId → Emission
op_f_unord_greater_than_equal = define_binary Op.op_f_unord_greater_than_equal

-- The methods of this file, at any arguments.
pub logical_methods : Arguments → List Emission
unfolding op_any op_all op_is_nan op_is_inf op_logical_equal op_logical_not_equal op_logical_or
    op_logical_and op_logical_not op_select op_i_equal op_i_not_equal op_u_greater_than
    op_s_greater_than op_u_greater_than_equal op_s_greater_than_equal op_u_less_than op_s_less_than
    op_u_less_than_equal op_s_less_than_equal op_f_ord_equal op_f_unord_equal op_f_ord_not_equal
    op_f_unord_not_equal op_f_ord_less_than op_f_unord_less_than op_f_ord_greater_than
    op_f_unord_greater_than op_f_ord_less_than_equal op_f_unord_less_than_equal
    op_f_ord_greater_than_equal op_f_unord_greater_than_equal
logical_methods g =
    op_any (g.id 0) (g.id 1)
    ∷ op_all (g.id 0) (g.id 1)
    ∷ op_is_nan (g.id 0) (g.id 1)
    ∷ op_is_inf (g.id 0) (g.id 1)
    ∷ op_logical_equal (g.id 0) (g.id 1) (g.id 2)
    ∷ op_logical_not_equal (g.id 0) (g.id 1) (g.id 2)
    ∷ op_logical_or (g.id 0) (g.id 1) (g.id 2)
    ∷ op_logical_and (g.id 0) (g.id 1) (g.id 2)
    ∷ op_logical_not (g.id 0) (g.id 1)
    ∷ op_select (g.id 0) (g.id 1) (g.id 2) (g.id 3)
    ∷ op_i_equal (g.id 0) (g.id 1) (g.id 2)
    ∷ op_i_not_equal (g.id 0) (g.id 1) (g.id 2)
    ∷ op_u_greater_than (g.id 0) (g.id 1) (g.id 2)
    ∷ op_s_greater_than (g.id 0) (g.id 1) (g.id 2)
    ∷ op_u_greater_than_equal (g.id 0) (g.id 1) (g.id 2)
    ∷ op_s_greater_than_equal (g.id 0) (g.id 1) (g.id 2)
    ∷ op_u_less_than (g.id 0) (g.id 1) (g.id 2)
    ∷ op_s_less_than (g.id 0) (g.id 1) (g.id 2)
    ∷ op_u_less_than_equal (g.id 0) (g.id 1) (g.id 2)
    ∷ op_s_less_than_equal (g.id 0) (g.id 1) (g.id 2)
    ∷ op_f_ord_equal (g.id 0) (g.id 1) (g.id 2)
    ∷ op_f_unord_equal (g.id 0) (g.id 1) (g.id 2)
    ∷ op_f_ord_not_equal (g.id 0) (g.id 1) (g.id 2)
    ∷ op_f_unord_not_equal (g.id 0) (g.id 1) (g.id 2)
    ∷ op_f_ord_less_than (g.id 0) (g.id 1) (g.id 2)
    ∷ op_f_unord_less_than (g.id 0) (g.id 1) (g.id 2)
    ∷ op_f_ord_greater_than (g.id 0) (g.id 1) (g.id 2)
    ∷ op_f_unord_greater_than (g.id 0) (g.id 1) (g.id 2)
    ∷ op_f_ord_less_than_equal (g.id 0) (g.id 1) (g.id 2)
    ∷ op_f_unord_less_than_equal (g.id 0) (g.id 1) (g.id 2)
    ∷ op_f_ord_greater_than_equal (g.id 0) (g.id 1) (g.id 2)
    ∷ op_f_unord_greater_than_equal (g.id 0) (g.id 1) (g.id 2)
    ∷ []

-- The emissions of src/instructions/logical.cpp reserve at least what they write, and at most two
-- words more.
pub logical_methods-IsTight : (g : Arguments) → All IsTight (logical_methods g)
unfolding logical_methods
logical_methods-IsTight g = omega arith
