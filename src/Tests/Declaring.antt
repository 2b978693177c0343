-- ===== src/Tests/Declaring.antt =====
-- Declarations at small inputs: `TypeFloat(32)`, ids taken elsewhere, then `TypeFloat` again.
use sirit.Base.{ℕ, ◌+◌, ◌*◌, ◌^◌, ◌≡◌, refl, arith, List, [], ◌∷◌, ok, pos, fault, out_of_bounds}
use sirit.Stream.{reserve, push_word, put, put_all, put_head, end_op, contents}
use sirit.Declarations.{
  Table, Declarations, no_declarations, declare, end_lookup, end_declaration, find, words_eq,
}
use sirit.Declarations.Declare.{declared}
use sirit.Declarations.Intern.{IsInterned, IsDeclaration, Declared, declare-refines-intern}
use sirit.Declarations.Sharing.{Later, here, elsewhere, declare_again}
use sirit.Instructions.Types.{type_float, type_pipe, type_pipe_overflow}
use sirit.Tests.Target.{test_platform, spv}

abbrev float_table : Table
float_table = (22 ∷ 0 ∷ 32 ∷ [], 1) ∷ []

abbrev float_words : List ℕ
float_words = (22 + 3 * 2 ^ 16) ∷ 1 ∷ 32 ∷ []

abbrev with_float : Declarations
with_float = declared float_words [] 0 float_table 1

-- after `TypeFloat(64)` with the next id 4
abbrev with_double : Declarations
with_double =
    declared ((22 + 3 * 2 ^ 16) ∷ 1 ∷ 32 ∷ (22 + 3 * 2 ^ 16) ∷ 4 ∷ 64 ∷ []) [] 3
      ((22 ∷ 0 ∷ 64 ∷ [], 4) ∷ float_table) 1

declare_float : declare (type_float (pos 32)) 0 no_declarations ≡ ok (spv 1, 1, with_float)
unfolding type_float declare put_head put_all put push_word reserve end_declaration end_lookup find
    words_eq end_op
declare_float = refl

declare_double : declare (type_float (pos 64)) 3 with_float ≡ ok (spv 4, 4, with_double)
unfolding type_float declare put_head put_all put push_word reserve end_declaration end_lookup find
    words_eq end_op
declare_double = refl

empty-IsInterned : IsInterned 0 no_declarations
unfolding contents
empty-IsInterned = record {
  in_vector = omega arith;
  small = omega arith;
  falling = tt;
  holds = refl;
}

type_float-IsDeclaration : (width bound : ℕ) → IsDeclaration (type_float (pos width)) bound
unfolding type_float
type_float-IsDeclaration width bound = record { has_id = tt; accepts = refl; fits = omega arith }

after_float : Later 1 with_float 3 with_float
after_float = elsewhere here 3 (omega arith) (omega arith)

declare_again_example :
    (d3 : Declarations) × (declare (type_float (pos 32)) 3 with_float ≡ ok (spv 1, 3, d3))
    × (contents d3.stream ≡ contents with_float.stream)
    × (d3.existing_declarations ≡ float_table)
declare_again_example =
    declare_again (type_float (pos 32)) 0 1 3 no_declarations with_float with_float (spv 1)
      empty-IsInterned (type_float-IsDeclaration 32 0) (omega arith) declare_float after_float
      (type_float-IsDeclaration 32 3) (omega arith)

declare-refines-intern_example :
    (i : ℕ) × (bound' : ℕ) × (d' : Declarations) × Declared
      (type_float (pos 32))
      0
      no_declarations
      i
      bound'
      d'
declare-refines-intern_example =
    declare-refines-intern (type_float (pos 32)) 0 no_declarations (type_float-IsDeclaration 32 0)
      (omega arith) empty-IsInterned

type_pipe_overflow_example : declare (type_pipe 0) 1 with_float ≡ fault out_of_bounds
type_pipe_overflow_example = type_pipe_overflow 0 1 with_float refl
