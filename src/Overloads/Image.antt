-- ===== src/Overloads/Image.antt =====
-- include/sirit/sirit.h: the overloads of the image methods, which take the image operands one by one.
use sirit.Base.{ℕ, some}
use sirit.Stream.{SpvId}
use sirit.Emission.{Emission}
use sirit.Overloads.{Variadic, packed}
use sirit.Instructions.Image.{
  op_image_sample_implicit_lod, op_image_sample_explicit_lod, op_image_sample_dref_implicit_lod,
  op_image_sample_dref_explicit_lod, op_image_sample_proj_implicit_lod,
  op_image_sample_proj_explicit_lod, op_image_sample_proj_dref_implicit_lod,
  op_image_sample_proj_dref_explicit_lod, op_image_fetch, op_image_gather, op_image_dref_gather,
  op_image_read, op_image_write,
}

abbrev pub op_image_sample_implicit_lod_of :
    SpvId → SpvId → SpvId → ℕ → (n : ℕ) → Variadic SpvId n Emission
op_image_sample_implicit_lod_of result_type sampled_image coordinate image_operands n =
    packed n
      (op_image_sample_implicit_lod result_type sampled_image coordinate (some image_operands))

abbrev pub op_image_sample_explicit_lod_of :
    SpvId → SpvId → SpvId → ℕ → (n : ℕ) → Variadic SpvId n Emission
op_image_sample_explicit_lod_of result_type sampled_image coordinate image_operands n =
    packed n (op_image_sample_explicit_lod result_type sampled_image coordinate image_operands)

abbrev pub op_image_sample_dref_implicit_lod_of :
    SpvId → SpvId → SpvId → SpvId → ℕ → (n : ℕ) → Variadic SpvId n Emission
op_image_sample_dref_implicit_lod_of result_type sampled_image coordinate dref image_operands n =
    packed n (
      op_image_sample_dref_implicit_lod result_type sampled_image coordinate dref
        (some image_operands))

abbrev pub op_image_sample_dref_explicit_lod_of :
    SpvId → SpvId → SpvId → SpvId → ℕ → (n : ℕ) → Variadic SpvId n Emission
op_image_sample_dref_explicit_lod_of result_type sampled_image coordinate dref image_operands n =
    packed n
      (op_image_sample_dref_explicit_lod result_type sampled_image coordinate dref image_operands)

abbrev pub op_image_sample_proj_implicit_lod_of :
    SpvId → SpvId → SpvId → ℕ → (n : ℕ) → Variadic SpvId n Emission
op_image_sample_proj_implicit_lod_of result_type sampled_image coordinate image_operands n =
    packed n
      (op_image_sample_proj_implicit_lod result_type sampled_image coordinate (some image_operands))

abbrev pub op_image_sample_proj_explicit_lod_of :
    SpvId → SpvId → SpvId → ℕ → (n : ℕ) → Variadic SpvId n Emission
op_image_sample_proj_explicit_lod_of result_type sampled_image coordinate image_operands n =
    packed n (op_image_sample_proj_explicit_lod result_type sampled_image coordinate image_operands)

abbrev pub op_image_sample_proj_dref_implicit_lod_of :
    SpvId → SpvId → SpvId → SpvId → ℕ → (n : ℕ) → Variadic SpvId n Emission
op_image_sample_proj_dref_implicit_lod_of result_type sampled_image coordinate dref image_operands
      n =
    packed n (
      op_image_sample_proj_dref_implicit_lod result_type sampled_image coordinate dref
        (some image_operands))

abbrev pub op_image_sample_proj_dref_explicit_lod_of :
    SpvId → SpvId → SpvId → SpvId → ℕ → (n : ℕ) → Variadic SpvId n Emission
op_image_sample_proj_dref_explicit_lod_of result_type sampled_image coordinate dref image_operands
      n =
    packed n (
      op_image_sample_proj_dref_explicit_lod result_type sampled_image coordinate dref
        image_operands)

abbrev pub op_image_fetch_of : SpvId → SpvId → SpvId → ℕ → (n : ℕ) → Variadic SpvId n Emission
op_image_fetch_of result_type sampled_image coordinate image_operands n =
    packed n (op_image_fetch result_type sampled_image coordinate (some image_operands))

abbrev pub op_image_gather_of :
    SpvId → SpvId → SpvId → SpvId → ℕ → (n : ℕ) → Variadic SpvId n Emission
op_image_gather_of result_type sampled_image coordinate component image_operands n =
    packed n (op_image_gather result_type sampled_image coordinate component (some image_operands))

abbrev pub op_image_dref_gather_of :
    SpvId → SpvId → SpvId → SpvId → ℕ → (n : ℕ) → Variadic SpvId n Emission
op_image_dref_gather_of result_type sampled_image coordinate dref image_operands n =
    packed n (op_image_dref_gather result_type sampled_image coordinate dref (some image_operands))

abbrev pub op_image_read_of : SpvId → SpvId → SpvId → ℕ → (n : ℕ) → Variadic SpvId n Emission
op_image_read_of result_type sampled_image coordinate image_operands n =
    packed n (op_image_read result_type sampled_image coordinate (some image_operands))

abbrev pub op_image_write_of : SpvId → SpvId → SpvId → ℕ → (n : ℕ) → Variadic SpvId n Emission
op_image_write_of image coordinate texel image_operands n =
    packed n (op_image_write image coordinate texel (some image_operands))
