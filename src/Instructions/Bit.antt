-- ===== src/Instructions/Bit.antt =====
-- src/instructions/bit.cpp
use sirit.Base.{List, [], ◌∷◌, arith, All}
use sirit.Spirv.{Op}
use sirit.Stream.{SpvId, id, with_type}
use sirit.Emission.{Emission, emission, code}
use sirit.Emission.Size.{IsTight}
use sirit.Instructions.Arguments.{Arguments}

op_shift_right_logical : SpvId → SpvId → SpvId → Emission
op_shift_right_logical result_type base shift =
    emission code 5 (with_type Op.op_shift_right_logical result_type) (id base ∷ id shift ∷ [])

op_shift_right_arithmetic : SpvId → SpvId → SpvId → Emission
op_shift_right_arithmetic result_type base shift =
    emission code 5 (with_type Op.op_shift_right_arithmetic result_type) (id base ∷ id shift ∷ [])

op_shift_left_logical : SpvId → SpvId → SpvId → Emission
op_shift_left_logical result_type base shift =
    emission code 5 (with_type Op.op_shift_left_logical result_type) (id base ∷ id shift ∷ [])

op_bitwise_or : SpvId → SpvId → SpvId → Emission
op_bitwise_or result_type operand_1 operand_2 =
    emission code 5 (with_type Op.op_bitwise_or result_type) (id operand_1 ∷ id operand_2 ∷ [])

op_bitwise_xor : SpvId → SpvId → SpvId → Emission
op_bitwise_xor result_type operand_1 operand_2 =
    emission code 5 (with_type Op.op_bitwise_xor result_type) (id operand_1 ∷ id operand_2 ∷ [])

op_bitwise_and : SpvId → SpvId → SpvId → Emission
op_bitwise_and result_type operand_1 operand_2 =
    emission code 5 (with_type Op.op_bitwise_and result_type) (id operand_1 ∷ id operand_2 ∷ [])

op_not : SpvId → SpvId → Emission
op_not result_type operand = emission code 4 (with_type Op.op_not result_type) (id operand ∷ [])

op_bit_field_insert : SpvId → SpvId → SpvId → SpvId → SpvId → Emission
op_bit_field_insert result_type base inserted offset count =
    emission code 7 (with_type Op.op_bit_field_insert result_type)
      (id base ∷ id inserted ∷ id offset ∷ id count ∷ [])

op_bit_field_s_extract : SpvId → SpvId → SpvId → SpvId → Emission
op_bit_field_s_extract result_type base offset count =
    emission code 6 (with_type Op.op_bit_field_s_extract result_type)
      (id base ∷ id offset ∷ id count ∷ [])

op_bit_field_u_extract : SpvId → SpvId → SpvId → SpvId → Emission
op_bit_field_u_extract result_type base offset count =
    emission code 6 (with_type Op.op_bit_field_u_extract result_type)
      (id base ∷ id offset ∷ id count ∷ [])

op_bit_reverse : SpvId → SpvId → Emission
op_bit_reverse result_type base =
    emission code 4 (with_type Op.op_bit_reverse result_type) (id base ∷ [])

op_bit_count : SpvId → SpvId → Emission
op_bit_count result_type base =
    emission code 4 (with_type Op.op_bit_count result_type) (id base ∷ [])

-- The methods of this file, at any arguments.
pub bit_methods : Arguments → List Emission
unfolding op_shift_right_logical op_shift_right_arithmetic op_shift_left_logical op_bitwise_or
    op_bitwise_xor op_bitwise_and op_not op_bit_field_insert op_bit_field_s_extract
    op_bit_field_u_extract op_bit_reverse op_bit_count
bit_methods g =
    op_shift_right_logical (g.id 0) (g.id 1) (g.id 2)
    ∷ op_shift_right_arithmetic (g.id 0) (g.id 1) (g.id 2)
    ∷ op_shift_left_logical (g.id 0) (g.id 1) (g.id 2)
    ∷ op_bitwise_or (g.id 0) (g.id 1) (g.id 2)
    ∷ op_bitwise_xor (g.id 0) (g.id 1) (g.id 2)
    ∷ op_bitwise_and (g.id 0) (g.id 1) (g.id 2)
    ∷ op_not (g.id 0) (g.id 1)
    ∷ op_bit_field_insert (g.id 0) (g.id 1) (g.id 2) (g.id 3) (g.id 4)
    ∷ op_bit_field_s_extract (g.id 0) (g.id 1) (g.id 2) (g.id 3)
    ∷ op_bit_field_u_extract (g.id 0) (g.id 1) (g.id 2) (g.id 3)
    ∷ op_bit_reverse (g.id 0) (g.id 1)
    ∷ op_bit_count (g.id 0) (g.id 1)
    ∷ []

-- The emissions of src/instructions/bit.cpp reserve at least what they write, and at most two
-- words more.
pub bit_methods-IsTight : (g : Arguments) → All IsTight (bit_methods g)
unfolding bit_methods
bit_methods-IsTight g = omega arith
