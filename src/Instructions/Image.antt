-- ===== src/Instructions/Image.antt =====
-- src/instructions/image.cpp
pub mod Gather
use sirit.Base.{
  ℕ, ◌+◌, Option, List, [], ◌∷◌, length, arith, All, ◌≡◌, true, fault, out_of_bounds, some,
}
use mathlib.Core.Bool.{xor}
use sirit.Spirv.{Op, Platform}
use sirit.Stream.{SpvId, id, enum, optional_enum, ids, plain, with_type, Stream}
use sirit.Emission.{Emission, emission, asserting, code, present, has_value, is_empty, emit}
use sirit.Emission.Size.{IsTight, present-le}
use sirit.Instructions.Arguments.{Arguments}
use sirit.Stream.Operands.{valid_ids}
use sirit.Emission.Short.{IsFull, emit_short}

-- the macro `DEFINE_IMAGE_OP`
abbrev define_image_op : Op → SpvId → SpvId → SpvId → Option ℕ → List SpvId → Emission
define_image_op op result_type sampled_image coordinate image_operands operands =
    emission code (6 + length operands) (with_type op result_type)
      (id sampled_image ∷ id coordinate ∷ optional_enum image_operands ∷ ids operands ∷ [])

-- the macro `DEFINE_IMAGE_EXP_OP`
abbrev define_image_exp_op : Op → SpvId → SpvId → SpvId → ℕ → List SpvId → Emission
define_image_exp_op op result_type sampled_image coordinate image_operands operands =
    emission code (6 + length operands) (with_type op result_type)
      (id sampled_image ∷ id coordinate ∷ enum image_operands ∷ ids operands ∷ [])

-- the macro `DEFINE_IMAGE_EXTRA_OP`
abbrev define_image_extra_op : Op → SpvId → SpvId → SpvId → SpvId → Option ℕ → List SpvId → Emission
define_image_extra_op op result_type sampled_image coordinate extra image_operands operands =
    emission code (7 + length operands) (with_type op result_type) (
      id sampled_image
      ∷ id coordinate
      ∷ id extra
      ∷ optional_enum image_operands
      ∷ ids operands
      ∷ [])

-- the macro `DEFINE_IMAGE_EXTRA_EXP_OP`
abbrev define_image_extra_exp_op : Op → SpvId → SpvId → SpvId → SpvId → ℕ → List SpvId → Emission
define_image_extra_exp_op op result_type sampled_image coordinate extra image_operands operands =
    emission code (8 + length operands) (with_type op result_type)
      (id sampled_image ∷ id coordinate ∷ id extra ∷ enum image_operands ∷ ids operands ∷ [])

-- the macro `DEFINE_IMAGE_QUERY_OP`
abbrev define_image_query_op : Op → SpvId → SpvId → Emission
define_image_query_op op result_type image =
    emission code 5 (with_type op result_type) (id image ∷ [])

-- the macro `DEFINE_IMAGE_QUERY_BIN_OP`
abbrev define_image_query_bin_op : Op → SpvId → SpvId → SpvId → Emission
define_image_query_bin_op op result_type image extra =
    emission code 5 (with_type op result_type) (id image ∷ id extra ∷ [])

pub op_image_sample_implicit_lod : SpvId → SpvId → SpvId → Option ℕ → List SpvId → Emission
op_image_sample_implicit_lod = define_image_op Op.op_image_sample_implicit_lod

pub op_image_sample_explicit_lod : SpvId → SpvId → SpvId → ℕ → List SpvId → Emission
op_image_sample_explicit_lod = define_image_exp_op Op.op_image_sample_explicit_lod

pub op_image_sample_dref_implicit_lod :
    SpvId → SpvId → SpvId → SpvId → Option ℕ → List SpvId → Emission
op_image_sample_dref_implicit_lod = define_image_extra_op Op.op_image_sample_dref_implicit_lod

pub op_image_sample_dref_explicit_lod : SpvId → SpvId → SpvId → SpvId → ℕ → List SpvId → Emission
op_image_sample_dref_explicit_lod = define_image_extra_exp_op Op.op_image_sample_dref_explicit_lod

pub op_image_sample_proj_implicit_lod : SpvId → SpvId → SpvId → Option ℕ → List SpvId → Emission
op_image_sample_proj_implicit_lod = define_image_op Op.op_image_sample_proj_implicit_lod

pub op_image_sample_proj_explicit_lod : SpvId → SpvId → SpvId → ℕ → List SpvId → Emission
op_image_sample_proj_explicit_lod = define_image_exp_op Op.op_image_sample_proj_explicit_lod

pub op_image_sample_proj_dref_implicit_lod :
    SpvId → SpvId → SpvId → SpvId → Option ℕ → List SpvId → Emission
op_image_sample_proj_dref_implicit_lod =
    define_image_extra_op Op.op_image_sample_proj_dref_implicit_lod

pub op_image_sample_proj_dref_explicit_lod :
    SpvId → SpvId → SpvId → SpvId → ℕ → List SpvId → Emission
op_image_sample_proj_dref_explicit_lod =
    define_image_extra_exp_op Op.op_image_sample_proj_dref_explicit_lod

pub op_image_fetch : SpvId → SpvId → SpvId → Option ℕ → List SpvId → Emission
op_image_fetch = define_image_op Op.op_image_fetch

pub op_image_gather : SpvId → SpvId → SpvId → SpvId → Option ℕ → List SpvId → Emission
op_image_gather = define_image_extra_op Op.op_image_gather

pub op_image_dref_gather : SpvId → SpvId → SpvId → SpvId → Option ℕ → List SpvId → Emission
op_image_dref_gather = define_image_extra_op Op.op_image_dref_gather

pub op_image_read : SpvId → SpvId → SpvId → Option ℕ → List SpvId → Emission
op_image_read = define_image_op Op.op_image_read

op_image_query_size_lod : SpvId → SpvId → SpvId → Emission
op_image_query_size_lod = define_image_query_bin_op Op.op_image_query_size_lod

op_image_query_size : SpvId → SpvId → Emission
op_image_query_size = define_image_query_op Op.op_image_query_size

op_image_query_lod : SpvId → SpvId → SpvId → Emission
op_image_query_lod = define_image_query_bin_op Op.op_image_query_lod

op_image_query_levels : SpvId → SpvId → Emission
op_image_query_levels = define_image_query_op Op.op_image_query_levels

op_image_query_samples : SpvId → SpvId → Emission
op_image_query_samples = define_image_query_op Op.op_image_query_samples

op_sampled_image : SpvId → SpvId → SpvId → Emission
op_sampled_image result_type image sampler =
    emission code 5 (with_type Op.op_sampled_image result_type) (id image ∷ id sampler ∷ [])

pub op_image_write : SpvId → SpvId → SpvId → Option ℕ → List SpvId → Emission
op_image_write image coordinate texel image_operands operands =
    asserting (xor (has_value image_operands) (is_empty operands)) (
      emission code (5 + length operands) (plain Op.op_image_write)
        (id image ∷ id coordinate ∷ id texel ∷ optional_enum image_operands ∷ ids operands ∷ []))

op_image : SpvId → SpvId → Emission
op_image result_type sampled_image =
    emission code 4 (with_type Op.op_image result_type) (id sampled_image ∷ [])

op_image_sparse_sample_implicit_lod : SpvId → SpvId → SpvId → Option ℕ → List SpvId → Emission
op_image_sparse_sample_implicit_lod result_type sampled_image coordinate image_operands operands =
    emission code (5 + present image_operands + length operands)
      (with_type Op.op_image_sparse_sample_implicit_lod result_type)
      (id sampled_image ∷ id coordinate ∷ optional_enum image_operands ∷ ids operands ∷ [])

op_image_sparse_sample_explicit_lod : SpvId → SpvId → SpvId → ℕ → List SpvId → Emission
op_image_sparse_sample_explicit_lod result_type sampled_image coordinate image_operands operands =
    emission code (6 + length operands)
      (with_type Op.op_image_sparse_sample_explicit_lod result_type)
      (id sampled_image ∷ id coordinate ∷ enum image_operands ∷ ids operands ∷ [])

op_image_sparse_sample_dref_implicit_lod :
    SpvId → SpvId → SpvId → SpvId → Option ℕ → List SpvId → Emission
op_image_sparse_sample_dref_implicit_lod result_type sampled_image coordinate dref image_operands
      operands =
    emission code (6 + present image_operands + length operands)
      (with_type Op.op_image_sparse_sample_dref_implicit_lod result_type)
      (id sampled_image
        ∷ id coordinate
        ∷ id dref
        ∷ optional_enum image_operands
        ∷ ids operands
        ∷ [])

op_image_sparse_sample_dref_explicit_lod : SpvId → SpvId → SpvId → SpvId → ℕ → List SpvId → Emission
op_image_sparse_sample_dref_explicit_lod result_type sampled_image coordinate dref image_operands
      operands =
    emission code (7 + length operands)
      (with_type Op.op_image_sparse_sample_dref_explicit_lod result_type)
      (id sampled_image ∷ id coordinate ∷ id dref ∷ enum image_operands ∷ ids operands ∷ [])

op_image_sparse_fetch : SpvId → SpvId → SpvId → Option ℕ → List SpvId → Emission
op_image_sparse_fetch result_type image coordinate image_operands operands =
    emission code (5 + present image_operands + length operands)
      (with_type Op.op_image_sparse_fetch result_type)
      (id image ∷ id coordinate ∷ optional_enum image_operands ∷ ids operands ∷ [])

pub op_image_sparse_gather : SpvId → SpvId → SpvId → SpvId → Option ℕ → List SpvId → Emission
op_image_sparse_gather result_type sampled_image coordinate component image_operands operands =
    emission code (6 + length operands) (with_type Op.op_image_sparse_gather result_type) (
      id sampled_image
      ∷ id coordinate
      ∷ id component
      ∷ optional_enum image_operands
      ∷ ids operands
      ∷ [])

pub op_image_sparse_dref_gather : SpvId → SpvId → SpvId → SpvId → Option ℕ → List SpvId → Emission
op_image_sparse_dref_gather result_type sampled_image coordinate dref image_operands operands =
    emission code (6 + length operands) (with_type Op.op_image_sparse_dref_gather result_type) (
      id sampled_image ∷ id coordinate ∷ id dref ∷ optional_enum image_operands ∷ ids operands ∷ [])

op_image_sparse_texels_resident : SpvId → SpvId → Emission
op_image_sparse_texels_resident result_type resident_code =
    emission code 4 (with_type Op.op_image_sparse_texels_resident result_type)
      (id resident_code ∷ [])

op_image_sparse_read : SpvId → SpvId → SpvId → Option ℕ → List SpvId → Emission
op_image_sparse_read result_type image coordinate image_operands operands =
    emission code (5 + present image_operands + length operands)
      (with_type Op.op_image_sparse_read result_type)
      (id image ∷ id coordinate ∷ optional_enum image_operands ∷ ids operands ∷ [])

-- The methods of this file, at any arguments.
pub image_methods : Arguments → List Emission
unfolding op_image_sample_implicit_lod op_image_sample_explicit_lod
    op_image_sample_dref_implicit_lod op_image_sample_dref_explicit_lod
    op_image_sample_proj_implicit_lod op_image_sample_proj_explicit_lod
    op_image_sample_proj_dref_implicit_lod op_image_sample_proj_dref_explicit_lod op_image_fetch
    op_image_gather op_image_dref_gather op_image_read op_image_query_size_lod op_image_query_size
    op_image_query_lod op_image_query_levels op_image_query_samples op_sampled_image op_image_write
    op_image op_image_sparse_sample_implicit_lod op_image_sparse_sample_explicit_lod
    op_image_sparse_sample_dref_implicit_lod op_image_sparse_sample_dref_explicit_lod
    op_image_sparse_fetch op_image_sparse_texels_resident op_image_sparse_read
image_methods g =
    op_image_sample_implicit_lod (g.id 0) (g.id 1) (g.id 2) g.mask g.operands
    ∷ op_image_sample_explicit_lod (g.id 0) (g.id 1) (g.id 2) (g.number 0) g.operands
    ∷ op_image_sample_dref_implicit_lod (g.id 0) (g.id 1) (g.id 2) (g.id 3) g.mask g.operands
    ∷ op_image_sample_dref_explicit_lod (g.id 0) (g.id 1) (g.id 2) (g.id 3) (g.number 0) g.operands
    ∷ op_image_sample_proj_implicit_lod (g.id 0) (g.id 1) (g.id 2) g.mask g.operands
    ∷ op_image_sample_proj_explicit_lod (g.id 0) (g.id 1) (g.id 2) (g.number 0) g.operands
    ∷ op_image_sample_proj_dref_implicit_lod (g.id 0) (g.id 1) (g.id 2) (g.id 3) g.mask g.operands
    ∷ op_image_sample_proj_dref_explicit_lod (g.id 0) (g.id 1) (g.id 2) (g.id 3) (g.number 0)
        g.operands
    ∷ op_image_fetch (g.id 0) (g.id 1) (g.id 2) g.mask g.operands
    ∷ op_image_gather (g.id 0) (g.id 1) (g.id 2) (g.id 3) g.mask g.operands
    ∷ op_image_dref_gather (g.id 0) (g.id 1) (g.id 2) (g.id 3) g.mask g.operands
    ∷ op_image_read (g.id 0) (g.id 1) (g.id 2) g.mask g.operands
    ∷ op_image_query_size_lod (g.id 0) (g.id 1) (g.id 2)
    ∷ op_image_query_size (g.id 0) (g.id 1)
    ∷ op_image_query_lod (g.id 0) (g.id 1) (g.id 2)
    ∷ op_image_query_levels (g.id 0) (g.id 1)
    ∷ op_image_query_samples (g.id 0) (g.id 1)
    ∷ op_sampled_image (g.id 0) (g.id 1) (g.id 2)
    ∷ op_image_write (g.id 0) (g.id 1) (g.id 2) g.mask g.operands
    ∷ op_image (g.id 0) (g.id 1)
    ∷ op_image_sparse_sample_implicit_lod (g.id 0) (g.id 1) (g.id 2) g.mask g.operands
    ∷ op_image_sparse_sample_explicit_lod (g.id 0) (g.id 1) (g.id 2) (g.number 0) g.operands
    ∷ op_image_sparse_sample_dref_implicit_lod (g.id 0) (g.id 1) (g.id 2) (g.id 3) g.mask g.operands
    ∷ op_image_sparse_sample_dref_explicit_lod (g.id 0) (g.id 1) (g.id 2) (g.id 3) (g.number 0)
        g.operands
    ∷ op_image_sparse_fetch (g.id 0) (g.id 1) (g.id 2) g.mask g.operands
    ∷ op_image_sparse_texels_resident (g.id 0) (g.id 1)
    ∷ op_image_sparse_read (g.id 0) (g.id 1) (g.id 2) g.mask g.operands
    ∷ []

-- The emissions of src/instructions/image.cpp, `OpImageSparseGather` and
-- `OpImageSparseDrefGather` aside, reserve at least what they write, and at most two words more.
pub image_methods-IsTight : (g : Arguments) → All IsTight (image_methods g)
unfolding image_methods
image_methods-IsTight g = omega (arith, present-le g.mask)
