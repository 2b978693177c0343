-- ===== src/Instructions/Memory.antt =====
-- src/instructions/memory.cpp
use sirit.Base.{ℕ, ◌+◌, not, Option, List, [], ◌∷◌, leb, ◌==◌, length, arith, All}
use sirit.Spirv.{Op}
use sirit.Stream.{SpvId, Literal, id, optional_enum, ids, literals, plain, with_type}
use sirit.Emission.{Emission, emission, asserting, code}
use sirit.Emission.Size.{IsTight, IsNarrow, present-le, literals_size_narrow}
use sirit.Instructions.Arguments.{Arguments}

op_image_texel_pointer : SpvId → SpvId → SpvId → SpvId → Emission
op_image_texel_pointer result_type image coordinate sample_index =
    emission code 6 (with_type Op.op_image_texel_pointer result_type)
      (id image ∷ id coordinate ∷ id sample_index ∷ [])

unfoldable pub op_load : SpvId → SpvId → Option ℕ → Emission
op_load result_type pointer memory_access =
    emission code 5 (with_type Op.op_load result_type)
      (id pointer ∷ optional_enum memory_access ∷ [])

unfoldable pub op_store : SpvId → SpvId → Option ℕ → Emission
op_store pointer object memory_access =
    emission code 4 (plain Op.op_store) (id pointer ∷ id object ∷ optional_enum memory_access ∷ [])

unfoldable pub op_access_chain : SpvId → SpvId → List SpvId → Emission
op_access_chain result_type base indexes = asserting (not (length indexes == 0)) (
    emission code (4 + length indexes) (with_type Op.op_access_chain result_type)
      (id base ∷ ids indexes ∷ []))

op_vector_extract_dynamic : SpvId → SpvId → SpvId → Emission
op_vector_extract_dynamic result_type composite index =
    emission code 5 (with_type Op.op_vector_extract_dynamic result_type)
      (id composite ∷ id index ∷ [])

op_vector_insert_dynamic : SpvId → SpvId → SpvId → SpvId → Emission
op_vector_insert_dynamic result_type composite component index =
    emission code 6 (with_type Op.op_vector_insert_dynamic result_type)
      (id composite ∷ id component ∷ id index ∷ [])

unfoldable pub op_composite_insert : SpvId → SpvId → SpvId → List Literal → Emission
op_composite_insert result_type object composite indexes =
    emission code (5 + length indexes) (with_type Op.op_composite_insert result_type)
      (id object ∷ id composite ∷ literals indexes ∷ [])

unfoldable pub op_composite_extract : SpvId → SpvId → List Literal → Emission
op_composite_extract result_type composite indexes =
    emission code (4 + length indexes) (with_type Op.op_composite_extract result_type)
      (id composite ∷ literals indexes ∷ [])

pub op_composite_construct : SpvId → List SpvId → Emission
op_composite_construct result_type constituents = asserting (leb 1 (length constituents)) (
    emission code (3 + length constituents) (with_type Op.op_composite_construct result_type)
      (ids constituents ∷ []))

-- The methods of this file, at any arguments.
pub memory_methods : Arguments → List Emission
unfolding op_image_texel_pointer op_load op_store op_access_chain op_vector_extract_dynamic
    op_vector_insert_dynamic op_composite_insert op_composite_extract op_composite_construct
memory_methods g =
    op_image_texel_pointer (g.id 0) (g.id 1) (g.id 2) (g.id 3)
    ∷ op_load (g.id 0) (g.id 1) g.mask
    ∷ op_store (g.id 0) (g.id 1) g.mask
    ∷ op_access_chain (g.id 0) (g.id 1) g.operands
    ∷ op_vector_extract_dynamic (g.id 0) (g.id 1) (g.id 2)
    ∷ op_vector_insert_dynamic (g.id 0) (g.id 1) (g.id 2) (g.id 3)
    ∷ op_composite_insert (g.id 0) (g.id 1) (g.id 2) g.literals
    ∷ op_composite_extract (g.id 0) (g.id 1) g.literals
    ∷ op_composite_construct (g.id 0) g.operands
    ∷ []

-- The emissions of src/instructions/memory.cpp, for literals of one word, reserve at least what
-- they write, and at most two words more.
pub memory_methods-IsTight :
    (g : Arguments) → All IsNarrow g.literals → All IsTight (memory_methods g)
unfolding memory_methods
memory_methods-IsTight g n = omega (arith, present-le g.mask, literals_size_narrow g.literals n)
