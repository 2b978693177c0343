-- ===== src/Module/Steps/Extension.antt =====
-- src/instructions/extension.cpp: all methods, each with the instruction of the set that it is for.
use mathlib.Core.Path.{subst}
use mathlib.Core.List.{map}
use sirit.Base.{
  ok, ◌+◌, ◌^◌, ◌<◌, ◌≡◌, refl, sym, true, List, [], ◌∷◌, ◌++◌, arith, length, All, All-append,
}
use sirit.Spirv.{GlslStd450, Platform}
use sirit.Stream.{SpvId, valid_id}
use sirit.Stream.Operands.{valid_ids}
use sirit.Module.{Module, Method, glsl_method}
use sirit.Module.Extension.{
  op_f_abs, op_s_abs, op_round, op_round_even, op_trunc, op_f_sign, op_s_sign, op_floor, op_ceil,
  op_fract, op_sin, op_cos, op_asin, op_acos, op_exp, op_log, op_exp2, op_log2, op_sqrt,
  op_inverse_sqrt, op_pack_half2x16, op_unpack_half2x16, op_find_i_lsb, op_find_s_msb,
  op_find_u_msb, op_interpolate_at_centroid, op_pow, op_f_min, op_u_min, op_s_min, op_f_max,
  op_u_max, op_s_max, op_interpolate_at_sample, op_interpolate_at_offset, op_f_clamp, op_u_clamp,
  op_s_clamp, op_fma,
}
use sirit.Module.Steps.Glsl.{GlslCalled, glsl_method_lem}
use sirit.Module.Valid.{IsValid}

-- A method at its arguments, with its instruction and its operands.
pub record Entry : Type 0 where
  pub instruction : GlslStd450
  pub operands : List SpvId
  pub method : Method

abbrev unary : List GlslStd450
unary =
    GlslStd450.f_abs ∷ GlslStd450.s_abs ∷ GlslStd450.round ∷ GlslStd450.round_even
    ∷ GlslStd450.trunc ∷ GlslStd450.f_sign ∷ GlslStd450.s_sign ∷ GlslStd450.floor ∷ GlslStd450.ceil
    ∷ GlslStd450.fract ∷ GlslStd450.sin ∷ GlslStd450.cos ∷ GlslStd450.asin ∷ GlslStd450.acos
    ∷ GlslStd450.exp ∷ GlslStd450.log ∷ GlslStd450.exp2 ∷ GlslStd450.log2 ∷ GlslStd450.sqrt
    ∷ GlslStd450.inverse_sqrt ∷ GlslStd450.pack_half2x16 ∷ GlslStd450.unpack_half2x16
    ∷ GlslStd450.find_i_lsb ∷ GlslStd450.find_s_msb ∷ GlslStd450.find_u_msb
    ∷ GlslStd450.interpolate_at_centroid ∷ []

abbrev binary : List GlslStd450
binary =
    GlslStd450.pow ∷ GlslStd450.f_min ∷ GlslStd450.u_min ∷ GlslStd450.s_min ∷ GlslStd450.f_max
    ∷ GlslStd450.u_max ∷ GlslStd450.s_max ∷ GlslStd450.interpolate_at_sample
    ∷ GlslStd450.interpolate_at_offset ∷ []

abbrev trinary : List GlslStd450
trinary = GlslStd450.f_clamp ∷ GlslStd450.u_clamp ∷ GlslStd450.s_clamp ∷ GlslStd450.fma ∷ []

module _ ⦃p : Platform⦄ where
  abbrev entry : GlslStd450 → List SpvId → Method → Entry
  entry op operands method = record { instruction = op; operands = operands; method = method }

  -- The methods at a result type and at most three operands.
  abbrev pub extension_methods : SpvId → SpvId → SpvId → SpvId → List Entry
  unfolding op_f_abs op_s_abs op_round op_round_even op_trunc op_f_sign op_s_sign op_floor op_ceil
      op_fract op_sin op_cos op_asin op_acos op_exp op_log op_exp2 op_log2 op_sqrt op_inverse_sqrt
      op_pack_half2x16 op_unpack_half2x16 op_find_i_lsb op_find_s_msb op_find_u_msb
      op_interpolate_at_centroid op_pow op_f_min op_u_min op_s_min op_f_max op_u_max op_s_max
      op_interpolate_at_sample op_interpolate_at_offset op_f_clamp op_u_clamp op_s_clamp op_fma
  extension_methods t a b c =
      entry GlslStd450.f_abs (a ∷ []) (op_f_abs t a)
      ∷ entry GlslStd450.s_abs (a ∷ []) (op_s_abs t a)
      ∷ entry GlslStd450.round (a ∷ []) (op_round t a)
      ∷ entry GlslStd450.round_even (a ∷ []) (op_round_even t a)
      ∷ entry GlslStd450.trunc (a ∷ []) (op_trunc t a)
      ∷ entry GlslStd450.f_sign (a ∷ []) (op_f_sign t a)
      ∷ entry GlslStd450.s_sign (a ∷ []) (op_s_sign t a)
      ∷ entry GlslStd450.floor (a ∷ []) (op_floor t a)
      ∷ entry GlslStd450.ceil (a ∷ []) (op_ceil t a)
      ∷ entry GlslStd450.fract (a ∷ []) (op_fract t a)
      ∷ entry GlslStd450.sin (a ∷ []) (op_sin t a)
      ∷ entry GlslStd450.cos (a ∷ []) (op_cos t a)
      ∷ entry GlslStd450.asin (a ∷ []) (op_asin t a)
      ∷ entry GlslStd450.acos (a ∷ []) (op_acos t a)
      ∷ entry GlslStd450.exp (a ∷ []) (op_exp t a)
      ∷ entry GlslStd450.log (a ∷ []) (op_log t a)
      ∷ entry GlslStd450.exp2 (a ∷ []) (op_exp2 t a)
      ∷ entry GlslStd450.log2 (a ∷ []) (op_log2 t a)
      ∷ entry GlslStd450.sqrt (a ∷ []) (op_sqrt t a)
      ∷ entry GlslStd450.inverse_sqrt (a ∷ []) (op_inverse_sqrt t a)
      ∷ entry GlslStd450.pack_half2x16 (a ∷ []) (op_pack_half2x16 t a)
      ∷ entry GlslStd450.unpack_half2x16 (a ∷ []) (op_unpack_half2x16 t a)
      ∷ entry GlslStd450.find_i_lsb (a ∷ []) (op_find_i_lsb t a)
      ∷ entry GlslStd450.find_s_msb (a ∷ []) (op_find_s_msb t a)
      ∷ entry GlslStd450.find_u_msb (a ∷ []) (op_find_u_msb t a)
      ∷ entry GlslStd450.interpolate_at_centroid (a ∷ []) (op_interpolate_at_centroid t a)
      ∷ entry GlslStd450.pow (a ∷ b ∷ []) (op_pow t a b)
      ∷ entry GlslStd450.f_min (a ∷ b ∷ []) (op_f_min t a b)
      ∷ entry GlslStd450.u_min (a ∷ b ∷ []) (op_u_min t a b)
      ∷ entry GlslStd450.s_min (a ∷ b ∷ []) (op_s_min t a b)
      ∷ entry GlslStd450.f_max (a ∷ b ∷ []) (op_f_max t a b)
      ∷ entry GlslStd450.u_max (a ∷ b ∷ []) (op_u_max t a b)
      ∷ entry GlslStd450.s_max (a ∷ b ∷ []) (op_s_max t a b)
      ∷ entry GlslStd450.interpolate_at_sample (a ∷ b ∷ []) (op_interpolate_at_sample t a b)
      ∷ entry GlslStd450.interpolate_at_offset (a ∷ b ∷ []) (op_interpolate_at_offset t a b)
      ∷ entry GlslStd450.f_clamp (a ∷ b ∷ c ∷ []) (op_f_clamp t a b c)
      ∷ entry GlslStd450.u_clamp (a ∷ b ∷ c ∷ []) (op_u_clamp t a b c)
      ∷ entry GlslStd450.s_clamp (a ∷ b ∷ c ∷ []) (op_s_clamp t a b c)
      ∷ entry GlslStd450.fma (a ∷ b ∷ c ∷ []) (op_fma t a b c)
      ∷ []

  abbrev table_entry : SpvId → List SpvId → GlslStd450 → Entry
  table_entry t operands op = entry op operands (glsl_method op t operands)

  -- A method runs, and leaves the instruction of its entry.
  abbrev pub IsServed : SpvId → Module → Entry → Type 0
  IsServed t m e =
      (i : SpvId) × (m' : Module) × (e.method m ≡ ok (i, m'))
      × GlslCalled e.instruction t e.operands m i m'

  table_entry-IsServed :
      (t : SpvId) (operands : List SpvId) (m : Module) (ops : List GlslStd450)
      → valid_id t ≡ true
      → valid_ids operands ≡ true
      → 5 + length operands < 2 ^ 16
      → m.bound + 2 < 2 ^ 32
      → IsValid m
      → All (IsServed t m) (map (table_entry t operands) ops)
  table_entry-IsServed t operands m [] ht ho short small v = tt
  table_entry-IsServed t operands m (op ∷ ops) ht ho short small v =
      let (i, m', w) = glsl_method_lem op t operands m ht ho short small v in
      ((i, m', w.runs, w), table_entry-IsServed t operands m ops ht ho short small v)

  abbrev table : SpvId → SpvId → SpvId → SpvId → List Entry
  table t a b c =
      map (table_entry t (a ∷ [])) unary
      ++ (map (table_entry t (a ∷ b ∷ [])) binary ++ map (table_entry t (a ∷ b ∷ c ∷ [])) trinary)

  extension_methods-table : (t a b c : SpvId) → extension_methods t a b c ≡ table t a b c
  unfolding op_f_abs op_s_abs op_round op_round_even op_trunc op_f_sign op_s_sign op_floor op_ceil
      op_fract op_sin op_cos op_asin op_acos op_exp op_log op_exp2 op_log2 op_sqrt op_inverse_sqrt
      op_pack_half2x16 op_unpack_half2x16 op_find_i_lsb op_find_s_msb op_find_u_msb
      op_interpolate_at_centroid op_pow op_f_min op_u_min op_s_min op_f_max op_u_max op_s_max
      op_interpolate_at_sample op_interpolate_at_offset op_f_clamp op_u_clamp op_s_clamp op_fma
  extension_methods-table t a b c = refl

  -- Every method of src/instructions/extension.cpp with valid ids runs on every valid module with
  -- fewer than 2 ^ 32 - 2 ids and leaves a valid module. If the set GLSL.std.450 was imported before,
  -- its id is used and the method returns the next id. If not, the next id is the set's, its
  -- `OpExtInstImport` is appended to the imports and the id remembered, and the method returns the id
  -- after that. It appends an `OpExtInst` with the ids of the set and the result and the instruction
  -- that it is named for, and beside that and `*bound` changes nothing.
  pub extension_methods_lem :
      (t a b c : SpvId) (m : Module)
      → valid_ids (t ∷ a ∷ b ∷ c ∷ []) ≡ true
      → m.bound + 2 < 2 ^ 32
      → IsValid m
      → All (IsServed t m) (extension_methods t a b c)
  extension_methods_lem t a b c m h small v =
      let two = map (table_entry t (a ∷ b ∷ [])) binary in
      let three = map (table_entry t (a ∷ b ∷ c ∷ [])) trinary in
      let valid_a : valid_ids (a ∷ []) ≡ true = ground (arith, h) in
      let valid_ab : valid_ids (a ∷ b ∷ []) ≡ true = ground (arith, h) in
      let valid_abc : valid_ids (a ∷ b ∷ c ∷ []) ≡ true = ground (arith, h) in
      let valid_t : valid_id t ≡ true = ground (arith, h) in
      subst (All (IsServed t m)) (sym (extension_methods-table t a b c)) (
        All-append (IsServed t m) (map (table_entry t (a ∷ [])) unary) (two ++ three)
          (table_entry-IsServed t (a ∷ []) m unary valid_t valid_a (omega arith) small v)
          (All-append (IsServed t m) two three
            (table_entry-IsServed t (a ∷ b ∷ []) m binary valid_t valid_ab (omega arith) small v)
            (table_entry-IsServed t (a ∷ b ∷ c ∷ []) m trinary valid_t valid_abc (omega arith) small
              v)))
