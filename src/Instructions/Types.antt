-- ===== src/Instructions/Types.antt =====
-- src/instructions/type.cpp
use sirit.Base.{
  ℕ, ℤ, true, false, ◌+◌, Bool, Option, List, [], ◌∷◌, length, arith, All, ◌≡◌, fault,
  out_of_bounds, refl, ap, ◌∙◌,
}
use sirit.Spirv.{Op, Platform}
use sirit.Stream.{
  SpvId, id, s32, boolean, string, enum, optional_enum, ids, with_id, words_in_string, contents,
}
use sirit.Emission.{Emission, emission, asserting, declarations, at_least_two}
use sirit.Emission.Size.{IsTight, present-le}
use sirit.Stream.Text.{words_in_string_lem}
use sirit.Instructions.Arguments.{Arguments}
use sirit.Emission.Short.{IsFull, full-at}
use sirit.Declarations.{Declarations, declare}
use sirit.Declarations.Declare.{declare_overflow, HasId}

unfoldable pub type_void : Emission
type_void = emission declarations 2 (with_id Op.op_type_void) []

unfoldable pub type_bool : Emission
type_bool = emission declarations 2 (with_id Op.op_type_bool) []

unfoldable pub type_int : ℤ → Bool → Emission
type_int width is_signed =
    emission declarations 4 (with_id Op.op_type_int) (s32 width ∷ boolean is_signed ∷ [])

unfoldable pub type_float : ℤ → Emission
type_float width = emission declarations 3 (with_id Op.op_type_float) (s32 width ∷ [])

unfoldable pub type_vector : SpvId → ℤ → Emission
type_vector component_type component_count = asserting (at_least_two component_count) (
    emission declarations 4 (with_id Op.op_type_vector)
      (id component_type ∷ s32 component_count ∷ []))

type_matrix : SpvId → ℤ → Emission
type_matrix column_type column_count =
    asserting (at_least_two column_count)
      (emission declarations 4 (with_id Op.op_type_matrix) (id column_type ∷ s32 column_count ∷ []))

type_image : SpvId → ℕ → ℤ → Bool → Bool → ℤ → ℕ → Option ℕ → Emission
type_image sampled_type dim depth arrayed ms sampled image_format access_qualifier =
    emission declarations 10 (with_id Op.op_type_image) (
      id sampled_type
      ∷ enum dim
      ∷ s32 depth
      ∷ boolean arrayed
      ∷ boolean ms
      ∷ s32 sampled
      ∷ enum image_format
      ∷ optional_enum access_qualifier
      ∷ [])

type_sampler : Emission
type_sampler = emission declarations 2 (with_id Op.op_type_sampler) []

type_sampled_image : SpvId → Emission
type_sampled_image image_type =
    emission declarations 3 (with_id Op.op_type_sampled_image) (id image_type ∷ [])

type_array : SpvId → SpvId → Emission
type_array element_type count =
    emission declarations 4 (with_id Op.op_type_array) (id element_type ∷ id count ∷ [])

type_runtime_array : SpvId → Emission
type_runtime_array element_type =
    emission declarations 3 (with_id Op.op_type_runtime_array) (id element_type ∷ [])

unfoldable pub type_struct : List SpvId → Emission
type_struct members =
    emission declarations (2 + length members) (with_id Op.op_type_struct) (ids members ∷ [])

type_opaque : List ℕ → Emission
type_opaque text =
    emission declarations (3 + words_in_string text) (with_id Op.op_type_opaque) (string text ∷ [])

unfoldable pub type_pointer : ℕ → SpvId → Emission
type_pointer storage_class pointee =
    emission declarations 4 (with_id Op.op_type_pointer) (enum storage_class ∷ id pointee ∷ [])

unfoldable pub type_function : SpvId → List SpvId → Emission
type_function return_type arguments =
    emission declarations (3 + length arguments) (with_id Op.op_type_function)
      (id return_type ∷ ids arguments ∷ [])

type_event : Emission
type_event = emission declarations 2 (with_id Op.op_type_event) []

type_device_event : Emission
type_device_event = emission declarations 2 (with_id Op.op_type_device_event) []

type_reserve_id : Emission
type_reserve_id = emission declarations 2 (with_id Op.op_type_reserve_id) []

type_queue : Emission
type_queue = emission declarations 2 (with_id Op.op_type_queue) []

unfoldable pub type_pipe : ℕ → Emission
type_pipe access_qualifier =
    emission declarations 2 (with_id Op.op_type_pipe) (enum access_qualifier ∷ [])

-- `TypeSInt` and `TypeUInt`
type_s_int : ℤ → Emission
type_s_int width = type_int width true

type_u_int : ℤ → Emission
type_u_int width = type_int width false

-- The methods of this file, at any arguments.
pub type_methods : Arguments → List Emission
unfolding type_void type_bool type_int type_float type_vector type_matrix type_image type_sampler
    type_sampled_image type_array type_runtime_array type_struct type_opaque type_pointer
    type_function type_event type_device_event type_reserve_id type_queue
type_methods g =
    type_void
    ∷ type_bool
    ∷ type_int (g.integer 0) (g.flag 0)
    ∷ type_float (g.integer 0)
    ∷ type_vector (g.id 0) (g.integer 0)
    ∷ type_matrix (g.id 0) (g.integer 0)
    ∷ type_image (g.id 0) (g.number 0) (g.integer 0) (g.flag 0) (g.flag 1) (g.integer 1)
        (g.number 1) g.mask
    ∷ type_sampler
    ∷ type_sampled_image (g.id 0)
    ∷ type_array (g.id 0) (g.id 1)
    ∷ type_runtime_array (g.id 0)
    ∷ type_struct g.operands
    ∷ type_opaque g.text
    ∷ type_pointer (g.number 0) (g.id 0)
    ∷ type_function (g.id 0) g.operands
    ∷ type_event
    ∷ type_device_event
    ∷ type_reserve_id
    ∷ type_queue
    ∷ []

-- The emissions of src/instructions/type.cpp, `TypePipe` aside, reserve at least what they write,
-- and at most two words more.
pub type_methods-IsTight : (g : Arguments) → All IsTight (type_methods g)
unfolding type_methods
type_methods-IsTight g = omega (arith, present-le g.mask, words_in_string_lem g.text)

-- Each has a result id.
pub type_methods-HasId : (g : Arguments) → All (λ e. HasId e.head) (type_methods g)
unfolding type_methods
type_methods-HasId g = ground arith

module _ ⦃p : Platform⦄ where
  -- `TypePipe` reserves two words and writes three: it writes outside of the vector where that ends
  -- at the cursor, whatever the table holds.
  pub type_pipe_overflow :
      (access_qualifier bound : ℕ) (d : Declarations)
      → IsFull d.stream
      → declare (type_pipe access_qualifier) bound d ≡ fault out_of_bounds
  unfolding type_pipe
  type_pipe_overflow access_qualifier bound d full =
      ap (λ s. declare (type_pipe access_qualifier) bound (record d { stream = s }))
        (full-at d.stream full)
      ∙ declare_overflow (type_pipe access_qualifier) bound (contents d.stream) [] d.stream.op_index
          d.existing_declarations d.id_index refl (omega arith)
