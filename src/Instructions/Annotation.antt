-- ===== src/Instructions/Annotation.antt =====
-- src/instructions/annotation.cpp
use sirit.Base.{ℕ, ◌+◌, List, [], ◌∷◌, length, arith, All}
use sirit.Spirv.{Op}
use sirit.Stream.{SpvId, Literal, id, literal, enum, literals, plain}
use sirit.Emission.{Emission, emission, annotations}
use sirit.Emission.Size.{IsTight, IsNarrow, literals_size_narrow}
use sirit.Instructions.Arguments.{Arguments}

unfoldable pub decorate : SpvId → ℕ → List Literal → Emission
decorate target decoration values =
    emission annotations (3 + length values) (plain Op.op_decorate)
      (id target ∷ enum decoration ∷ literals values ∷ [])

unfoldable pub member_decorate : SpvId → Literal → ℕ → List Literal → Emission
member_decorate structure_type member decoration values =
    emission annotations (4 + length values) (plain Op.op_member_decorate)
      (id structure_type ∷ literal member ∷ enum decoration ∷ literals values ∷ [])

-- The methods of this file, at any arguments.
pub annotation_methods : Arguments → List Emission
unfolding decorate member_decorate
annotation_methods g =
    decorate (g.id 0) (g.number 0) g.literals
    ∷ member_decorate (g.id 0) (g.literal 0) (g.number 0) g.literals
    ∷ []

-- The emissions of src/instructions/annotation.cpp, for literals of one word, reserve at least
-- what they write, and at most two words more.
pub annotation_methods-IsTight :
    (g : Arguments)
    → All IsNarrow g.literals × IsNarrow (g.literal 0)
    → All IsTight (annotation_methods g)
unfolding annotation_methods
annotation_methods-IsTight g n = omega (arith, literals_size_narrow g.literals n.0, n.1)
