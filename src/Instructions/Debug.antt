-- ===== src/Instructions/Debug.antt =====
-- src/instructions/debug.cpp
use sirit.Base.{ℕ, ◌+◌, List, [], ◌∷◌, arith, All}
use sirit.Spirv.{Op}
use sirit.Stream.{SpvId, Literal, Operand, id, u32, literal, plain, with_id, words_in_string}
use sirit.Emission.{Emission, emission, debug}
use sirit.Emission.Size.{IsTight, IsNarrow}
use sirit.Stream.Text.{words_in_string_lem}
use sirit.Instructions.Arguments.{Arguments}

-- What `Name` and `MemberName` write; what they return is in Module/Names.
unfoldable pub name_chain : SpvId → List ℕ → Emission
name_chain target text =
    emission debug (3 + words_in_string text) (plain Op.op_name)
      (id target ∷ Operand.string text ∷ [])

unfoldable pub member_name_chain : SpvId → ℕ → List ℕ → Emission
member_name_chain pointee member text =
    emission debug (4 + words_in_string text) (plain Op.op_member_name)
      (id pointee ∷ u32 member ∷ Operand.string text ∷ [])

string : List ℕ → Emission
string text =
    emission debug (3 + words_in_string text) (with_id Op.op_string) (Operand.string text ∷ [])

unfoldable pub op_line : SpvId → Literal → Literal → Emission
op_line file line column =
    emission debug 4 (plain Op.op_line) (id file ∷ literal line ∷ literal column ∷ [])

-- The methods of this file, at any arguments.
pub debug_methods : Arguments → List Emission
unfolding name_chain member_name_chain string op_line
debug_methods g =
    name_chain (g.id 0) g.text
    ∷ member_name_chain (g.id 0) (g.number 0) g.text
    ∷ string g.text
    ∷ op_line (g.id 0) (g.literal 0) (g.literal 1)
    ∷ []

-- The emissions of src/instructions/debug.cpp, for literals of one word, reserve at least what
-- they write, and at most two words more.
pub debug_methods-IsTight :
    (g : Arguments)
    → IsNarrow (g.literal 0) × IsNarrow (g.literal 1)
    → All IsTight (debug_methods g)
unfolding debug_methods
debug_methods-IsTight g n = omega (arith, n.0, n.1, words_in_string_lem g.text)
