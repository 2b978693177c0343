-- ===== src/Instructions/Wide.antt =====
-- src/sirit.cpp, src/instructions/annotation.cpp, debug.cpp and memory.cpp: the methods that reserve one
-- word for each literal, with literals of 64 bits.
use sirit.Base.{ℕ, ◌<◌, ◌≡◌, true, List, [], ◌∷◌, arith, length, All, fault, out_of_bounds}
use sirit.Spirv.{Platform}
use sirit.Stream.{Stream}
use sirit.Stream.Operands.{valid_ids}
use sirit.Emission.{Emission, emit}
use sirit.Emission.Size.{literals_size}
use sirit.Emission.Short.{IsFull, emit_short_all}
use sirit.Instructions.Annotation.{decorate, member_decorate}
use sirit.Instructions.Arguments.{Arguments}
use sirit.Instructions.Debug.{op_line}
use sirit.Instructions.Memory.{op_composite_insert, op_composite_extract}
use sirit.Module.{add_execution_mode}

-- The methods at literals of any width; the line of `OpLine` is the first, its column the second.
abbrev pub wide_methods : Arguments → List Emission
wide_methods g =
    add_execution_mode (g.id 0) (g.number 0) g.literals
    ∷ decorate (g.id 0) (g.number 0) g.literals
    ∷ member_decorate (g.id 0) (g.literal 0) (g.number 0) g.literals
    ∷ op_composite_insert (g.id 0) (g.id 1) (g.id 2) g.literals
    ∷ op_composite_extract (g.id 0) (g.id 1) g.literals
    ∷ op_line (g.id 0) (g.literal 0) (g.literal 1)
    ∷ []

module _ ⦃p : Platform⦄ where
  -- `AddExecutionMode`, `Decorate`, `MemberDecorate`, `OpCompositeInsert`, `OpCompositeExtract` and
  -- `OpLine` reserve one word for each literal. With a literal of 64 bits among them, and valid ids,
  -- each writes outside of the vector where that ends at the cursor.
  pub wide_literals_overflow :
      (g : Arguments) (bound : ℕ) (s : Stream)
      → valid_ids (g.id 0 ∷ g.id 1 ∷ g.id 2 ∷ []) ≡ true
      → length g.literals < literals_size g.literals
      → 2 < literals_size (g.literal 0 ∷ g.literal 1 ∷ [])
      → IsFull s
      → All (λ e. emit e bound s ≡ fault out_of_bounds) (wide_methods g)
  unfolding add_execution_mode decorate member_decorate op_composite_insert op_composite_extract
      op_line
  wide_literals_overflow g bound s h wide wide' full =
      emit_short_all (wide_methods g) bound s (ground (arith, h, wide, wide', g.literal 0)) full
