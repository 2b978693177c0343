-- ===== src/Spirv.antt =====
-- What the sources take from outside: the SPIR-V headers (`spirv.hpp11` and `GLSL.std.450.h`, a git
-- submodule) and what C++ leaves to the compiler. The enumerators that the sources name are the
-- constructors of `Op` and `GlslStd450`; their numbers are fields of `Platform`. The enumerations
-- that the sources only pass on (`StorageClass`, `Capability`, masks) stand as their numbers.
use sirit.Base.{ℕ, ◌<◌, ◌^◌, Bool, List}
use mathlib.Core.List.{Perm}

-- `spv::Op`
pub data Op : Type 0 where
  op_access_chain op_all op_any op_atomic_and op_atomic_compare_exchange op_atomic_exchange
        op_atomic_i_add op_atomic_i_decrement :
      Op
  op_atomic_i_increment op_atomic_i_sub op_atomic_load op_atomic_or op_atomic_s_max op_atomic_s_min
        op_atomic_store op_atomic_u_max :
      Op
  op_atomic_u_min op_atomic_xor op_bit_count op_bit_field_insert op_bit_field_s_extract
        op_bit_field_u_extract op_bit_reverse op_bitcast :
      Op
  op_bitwise_and op_bitwise_or op_bitwise_xor op_branch op_branch_conditional op_capability
        op_composite_construct op_composite_extract :
      Op
  op_composite_insert op_constant op_constant_composite op_constant_false op_constant_null
        op_constant_sampler op_constant_true op_control_barrier :
      Op
  op_convert_f_to_s op_convert_f_to_u op_convert_s_to_f op_convert_u_to_f op_d_pdx op_d_pdx_coarse
        op_d_pdx_fine op_d_pdy :
      Op
  op_d_pdy_coarse op_d_pdy_fine op_decorate op_demote_to_helper_invocation op_emit_stream_vertex
        op_emit_vertex op_end_primitive op_end_stream_primitive :
      Op
  op_entry_point op_execution_mode op_ext_inst op_ext_inst_import op_extension op_f_add op_f_convert
        op_f_div :
      Op
  op_f_mod op_f_mul op_f_negate op_f_ord_equal op_f_ord_greater_than op_f_ord_greater_than_equal
        op_f_ord_less_than op_f_ord_less_than_equal :
      Op
  op_f_ord_not_equal op_f_rem op_f_sub op_f_unord_equal op_f_unord_greater_than
        op_f_unord_greater_than_equal op_f_unord_less_than op_f_unord_less_than_equal :
      Op
  op_f_unord_not_equal op_function op_function_call op_function_end op_function_parameter op_fwidth
        op_fwidth_coarse op_fwidth_fine :
      Op
  op_group_non_uniform_all op_group_non_uniform_all_equal op_group_non_uniform_any
        op_group_non_uniform_ballot op_group_non_uniform_broadcast op_group_non_uniform_shuffle
        op_group_non_uniform_shuffle_xor op_i_add :
      Op
  op_i_add_carry op_i_equal op_i_mul op_i_not_equal op_i_sub op_image op_image_dref_gather
        op_image_fetch :
      Op
  op_image_gather op_image_query_levels op_image_query_lod op_image_query_samples
        op_image_query_size op_image_query_size_lod op_image_read
        op_image_sample_dref_explicit_lod :
      Op
  op_image_sample_dref_implicit_lod op_image_sample_explicit_lod op_image_sample_implicit_lod
        op_image_sample_proj_dref_explicit_lod op_image_sample_proj_dref_implicit_lod
        op_image_sample_proj_explicit_lod op_image_sample_proj_implicit_lod
        op_image_sparse_dref_gather :
      Op
  op_image_sparse_fetch op_image_sparse_gather op_image_sparse_read
        op_image_sparse_sample_dref_explicit_lod op_image_sparse_sample_dref_implicit_lod
        op_image_sparse_sample_explicit_lod op_image_sparse_sample_implicit_lod
        op_image_sparse_texels_resident :
      Op
  op_image_texel_pointer op_image_write op_is_inf op_is_nan op_kill op_label op_line op_load : Op
  op_logical_and op_logical_equal op_logical_not op_logical_not_equal op_logical_or op_loop_merge
        op_member_decorate op_member_name :
      Op
  op_memory_barrier op_memory_model op_name op_not op_phi op_quantize_to_f16 op_return
        op_return_value :
      Op
  op_s_convert op_s_div op_s_greater_than op_s_greater_than_equal op_s_less_than
        op_s_less_than_equal op_s_mod op_s_negate :
      Op
  op_s_rem op_sampled_image op_select op_selection_merge op_shift_left_logical
        op_shift_right_arithmetic op_shift_right_logical op_store :
      Op
  op_string op_subgroup_all_equal_khr op_subgroup_all_khr op_subgroup_any_khr op_subgroup_ballot_khr
        op_subgroup_read_invocation_khr op_switch op_terminate_invocation :
      Op
  op_type_array op_type_bool op_type_device_event op_type_event op_type_float op_type_function
        op_type_image op_type_int :
      Op
  op_type_matrix op_type_opaque op_type_pipe op_type_pointer op_type_queue op_type_reserve_id
        op_type_runtime_array op_type_sampled_image :
      Op
  op_type_sampler op_type_struct op_type_vector op_type_void op_u_convert op_u_div op_u_greater_than
        op_u_greater_than_equal :
      Op
  op_u_less_than op_u_less_than_equal op_u_mod op_undef op_unreachable op_variable
        op_vector_extract_dynamic op_vector_insert_dynamic :
      Op

-- `GLSLstd450`
pub data GlslStd450 : Type 0 where
  acos asin ceil cos exp exp2 f_abs f_clamp : GlslStd450
  f_max f_min f_sign find_i_lsb find_s_msb find_u_msb floor fma : GlslStd450
  fract interpolate_at_centroid interpolate_at_offset interpolate_at_sample inverse_sqrt log log2
        pack_half2x16 :
      GlslStd450
  pow round round_even s_abs s_clamp s_max s_min s_sign : GlslStd450
  sin sqrt trunc u_clamp u_max u_min unpack_half2x16 : GlslStd450

pub record Platform : Type 0 where
  -- The number of an opcode. The headers keep it to 16 bits, as the format does.
  pub op_code : Op → ℕ
  pub op_code-lt : (o : Op) → op_code o < 2 ^ 16
  pub glsl_code : GlslStd450 → ℕ
  -- `spv::MagicNumber`, `spv::AddressingModel::Logical` and `spv::MemoryModel::GLSL450`
  pub magic_number : ℕ
  pub logical : ℕ
  pub glsl450 : ℕ
  -- Whether plain `char` is signed, which C++ leaves to the compiler.
  pub char_is_signed : Bool
  -- The order in which an `unordered_set` of capabilities, or of names, is iterated.
  pub capability_order : List ℕ → List ℕ
  pub capability_order-perm : (l : List ℕ) → Perm (capability_order l) l
  pub extension_order : List (List ℕ) → List (List ℕ)
  pub extension_order-perm : (l : List (List ℕ)) → Perm (extension_order l) l
