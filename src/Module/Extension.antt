-- ===== src/Module/Extension.antt =====
-- src/instructions/extension.cpp: the methods that emit an instruction of the set GLSL.std.450.
use sirit.Base.{[], ◌∷◌}
use sirit.Spirv.{GlslStd450, Platform}
use sirit.Stream.{SpvId}
use sirit.Module.{Method, glsl_method}

module _ ⦃p : Platform⦄ where
  -- the macro `DEFINE_UNARY`
  abbrev define_unary : GlslStd450 → SpvId → SpvId → Method
  define_unary opcode result_type operand = glsl_method opcode result_type (operand ∷ [])

  -- the macro `DEFINE_BINARY`
  abbrev define_binary : GlslStd450 → SpvId → SpvId → SpvId → Method
  define_binary opcode result_type operand_1 operand_2 =
      glsl_method opcode result_type (operand_1 ∷ operand_2 ∷ [])

  -- the macro `DEFINE_TRINARY`
  abbrev define_trinary : GlslStd450 → SpvId → SpvId → SpvId → SpvId → Method
  define_trinary opcode result_type operand_1 operand_2 operand_3 =
      glsl_method opcode result_type (operand_1 ∷ operand_2 ∷ operand_3 ∷ [])

  unfoldable pub op_f_abs : SpvId → SpvId → Method
  op_f_abs = define_unary GlslStd450.f_abs

  unfoldable pub op_s_abs : SpvId → SpvId → Method
  op_s_abs = define_unary GlslStd450.s_abs

  unfoldable pub op_round : SpvId → SpvId → Method
  op_round = define_unary GlslStd450.round

  unfoldable pub op_round_even : SpvId → SpvId → Method
  op_round_even = define_unary GlslStd450.round_even

  unfoldable pub op_trunc : SpvId → SpvId → Method
  op_trunc = define_unary GlslStd450.trunc

  unfoldable pub op_f_sign : SpvId → SpvId → Method
  op_f_sign = define_unary GlslStd450.f_sign

  unfoldable pub op_s_sign : SpvId → SpvId → Method
  op_s_sign = define_unary GlslStd450.s_sign

  unfoldable pub op_floor : SpvId → SpvId → Method
  op_floor = define_unary GlslStd450.floor

  unfoldable pub op_ceil : SpvId → SpvId → Method
  op_ceil = define_unary GlslStd450.ceil

  unfoldable pub op_fract : SpvId → SpvId → Method
  op_fract = define_unary GlslStd450.fract

  unfoldable pub op_sin : SpvId → SpvId → Method
  op_sin = define_unary GlslStd450.sin

  unfoldable pub op_cos : SpvId → SpvId → Method
  op_cos = define_unary GlslStd450.cos

  unfoldable pub op_asin : SpvId → SpvId → Method
  op_asin = define_unary GlslStd450.asin

  unfoldable pub op_acos : SpvId → SpvId → Method
  op_acos = define_unary GlslStd450.acos

  unfoldable pub op_pow : SpvId → SpvId → SpvId → Method
  op_pow = define_binary GlslStd450.pow

  unfoldable pub op_exp : SpvId → SpvId → Method
  op_exp = define_unary GlslStd450.exp

  unfoldable pub op_log : SpvId → SpvId → Method
  op_log = define_unary GlslStd450.log

  unfoldable pub op_exp2 : SpvId → SpvId → Method
  op_exp2 = define_unary GlslStd450.exp2

  unfoldable pub op_log2 : SpvId → SpvId → Method
  op_log2 = define_unary GlslStd450.log2

  unfoldable pub op_sqrt : SpvId → SpvId → Method
  op_sqrt = define_unary GlslStd450.sqrt

  unfoldable pub op_inverse_sqrt : SpvId → SpvId → Method
  op_inverse_sqrt = define_unary GlslStd450.inverse_sqrt

  unfoldable pub op_f_min : SpvId → SpvId → SpvId → Method
  op_f_min = define_binary GlslStd450.f_min

  unfoldable pub op_u_min : SpvId → SpvId → SpvId → Method
  op_u_min = define_binary GlslStd450.u_min

  unfoldable pub op_s_min : SpvId → SpvId → SpvId → Method
  op_s_min = define_binary GlslStd450.s_min

  unfoldable pub op_f_max : SpvId → SpvId → SpvId → Method
  op_f_max = define_binary GlslStd450.f_max

  unfoldable pub op_u_max : SpvId → SpvId → SpvId → Method
  op_u_max = define_binary GlslStd450.u_max

  unfoldable pub op_s_max : SpvId → SpvId → SpvId → Method
  op_s_max = define_binary GlslStd450.s_max

  unfoldable pub op_f_clamp : SpvId → SpvId → SpvId → SpvId → Method
  op_f_clamp = define_trinary GlslStd450.f_clamp

  unfoldable pub op_u_clamp : SpvId → SpvId → SpvId → SpvId → Method
  op_u_clamp = define_trinary GlslStd450.u_clamp

  unfoldable pub op_s_clamp : SpvId → SpvId → SpvId → SpvId → Method
  op_s_clamp = define_trinary GlslStd450.s_clamp

  unfoldable pub op_fma : SpvId → SpvId → SpvId → SpvId → Method
  op_fma = define_trinary GlslStd450.fma

  unfoldable pub op_pack_half2x16 : SpvId → SpvId → Method
  op_pack_half2x16 = define_unary GlslStd450.pack_half2x16

  unfoldable pub op_unpack_half2x16 : SpvId → SpvId → Method
  op_unpack_half2x16 = define_unary GlslStd450.unpack_half2x16

  unfoldable pub op_find_i_lsb : SpvId → SpvId → Method
  op_find_i_lsb = define_unary GlslStd450.find_i_lsb

  unfoldable pub op_find_s_msb : SpvId → SpvId → Method
  op_find_s_msb = define_unary GlslStd450.find_s_msb

  unfoldable pub op_find_u_msb : SpvId → SpvId → Method
  op_find_u_msb = define_unary GlslStd450.find_u_msb

  unfoldable pub op_interpolate_at_centroid : SpvId → SpvId → Method
  op_interpolate_at_centroid = define_unary GlslStd450.interpolate_at_centroid

  unfoldable pub op_interpolate_at_sample : SpvId → SpvId → SpvId → Method
  op_interpolate_at_sample = define_binary GlslStd450.interpolate_at_sample

  unfoldable pub op_interpolate_at_offset : SpvId → SpvId → SpvId → Method
  op_interpolate_at_offset = define_binary GlslStd450.interpolate_at_offset
