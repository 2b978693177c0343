-- ===== src/Instructions/Flow.antt =====
-- src/instructions/flow.cpp
use sirit.Base.{
  ℕ, ◌≡◌, refl, ◌≤◌, ◌*◌, ◌||◌, if◌then◌else◌, ◌+◌, ◌%◌, not, List, [], ◌∷◌, ◌==◌, length, arith,
  All, true, ◌<◌, fault, out_of_bounds, ==→eq,
}
use sirit.Spirv.{Op, Platform}
use sirit.Stream.{SpvId, Literal, Operand, id, u32, literal, enum, ids, plain, with_type, Stream}
use sirit.Emission.{Emission, emission, asserting, code, emit}
use sirit.Emission.Size.{IsTight, IsNarrow, literals_size_narrow, sizes, literals_size}
use sirit.Instructions.Arguments.{Arguments}
use sirit.Stream.Operands.{all_valid, valid_ids}
use sirit.Emission.Short.{IsFull, emit_short}

unfoldable pub op_phi : SpvId → List SpvId → Emission
op_phi result_type operands =
    asserting (length operands % 2 == 0)
      (emission code (3 + length operands) (with_type Op.op_phi result_type) (ids operands ∷ []))

pub op_loop_merge : SpvId → SpvId → ℕ → List SpvId → Emission
op_loop_merge merge_block continue_target loop_control values =
    emission code (4 + length values) (plain Op.op_loop_merge)
      (id merge_block ∷ id continue_target ∷ enum loop_control ∷ ids values ∷ [])

op_selection_merge : SpvId → ℕ → Emission
op_selection_merge merge_block selection_control =
    emission code 3 (plain Op.op_selection_merge) (id merge_block ∷ enum selection_control ∷ [])

op_branch : SpvId → Emission
op_branch target_label = emission code 2 (plain Op.op_branch) (id target_label ∷ [])

unfoldable pub op_return : Emission
op_return = emission code 1 (plain Op.op_return) []

op_unreachable : Emission
op_unreachable = emission code 1 (plain Op.op_unreachable) []

op_return_value : SpvId → Emission
op_return_value value = emission code 2 (plain Op.op_return_value) (id value ∷ [])

op_kill : Emission
op_kill = emission code 1 (plain Op.op_kill) []

op_demote_to_helper_invocation : Emission
op_demote_to_helper_invocation = emission code 1 (plain Op.op_demote_to_helper_invocation) []

op_demote_to_helper_invocation_ext : Emission
op_demote_to_helper_invocation_ext = op_demote_to_helper_invocation

op_terminate_invocation : Emission
op_terminate_invocation = emission code 1 (plain Op.op_terminate_invocation) []

-- `OpBranchConditional`: the weights only if one of them is not 0.
branch_weights : ℕ → ℕ → List Operand
branch_weights true_weight false_weight =
    if not (true_weight == 0) || not (false_weight == 0)
    then u32 true_weight ∷ u32 false_weight ∷ []
    else []

op_branch_conditional : SpvId → SpvId → SpvId → ℕ → ℕ → Emission
op_branch_conditional condition true_label false_label true_weight false_weight =
    emission code 6 (plain Op.op_branch_conditional)
      (id condition ∷ id true_label ∷ id false_label ∷ branch_weights true_weight false_weight)

-- the loop of `OpSwitch`, a literal and its label in each round
abbrev switch_operands : List Literal → List SpvId → List Operand
switch_operands [] labels = []
switch_operands (x ∷ xs) [] = []
switch_operands (x ∷ xs) (l ∷ ls) = literal x ∷ id l ∷ switch_operands xs ls

-- `OpSwitch`. With the `assert` no label is missing.
unfoldable pub op_switch : SpvId → SpvId → List Literal → List SpvId → Emission
op_switch selector default_label values labels = asserting (length values == length labels) (
    emission code (3 + length values * 2) (plain Op.op_switch)
      (id selector ∷ id default_label ∷ switch_operands values labels))

sizes-branch_weights : (m n : ℕ) → sizes (branch_weights m n) ≤ 2
unfolding branch_weights
sizes-branch_weights m n = ground arith

sizes-switch_operands :
    (values : List Literal) (labels : List SpvId)
    → length values ≡ length labels
    → sizes (switch_operands values labels) ≡ literals_size values + length values
sizes-switch_operands [] [] h = refl
sizes-switch_operands [] (l ∷ ls) h = absurd (omega arith)
sizes-switch_operands (x ∷ xs) [] h = absurd (omega arith)
sizes-switch_operands (x ∷ xs) (l ∷ ls) h = omega (arith, sizes-switch_operands xs ls (omega arith))

-- `OpSwitch` reserves at least what it writes, and at most two words more, if every literal is a
-- single word and has its label.
pub op_switch-IsTight :
    (selector default_label : SpvId) (values : List Literal) (labels : List SpvId)
    → length values ≡ length labels
    → All IsNarrow values
    → IsTight (op_switch selector default_label values labels)
unfolding op_switch
op_switch-IsTight selector default_label values labels h n =
    omega (arith, sizes-switch_operands values labels h, literals_size_narrow values n)

-- The methods of this file, at any arguments.
pub flow_methods : Arguments → List Emission
unfolding op_phi op_loop_merge op_selection_merge op_branch op_return op_unreachable op_return_value
    op_kill op_demote_to_helper_invocation op_demote_to_helper_invocation_ext
    op_terminate_invocation op_branch_conditional
flow_methods g =
    op_phi (g.id 0) g.operands
    ∷ op_loop_merge (g.id 0) (g.id 1) (g.number 0) g.operands
    ∷ op_selection_merge (g.id 0) (g.number 0)
    ∷ op_branch (g.id 0)
    ∷ op_return
    ∷ op_unreachable
    ∷ op_return_value (g.id 0)
    ∷ op_kill
    ∷ op_demote_to_helper_invocation
    ∷ op_demote_to_helper_invocation_ext
    ∷ op_terminate_invocation
    ∷ op_branch_conditional (g.id 0) (g.id 1) (g.id 2) (g.number 0) (g.number 1)
    ∷ []

-- The emissions of src/instructions/flow.cpp, `OpSwitch` aside, reserve at least what they write,
-- and at most two words more.
pub flow_methods-IsTight : (g : Arguments) → All IsTight (flow_methods g)
unfolding flow_methods
flow_methods-IsTight g = omega (arith, sizes-branch_weights (g.number 0) (g.number 1))

all_valid-switch_operands :
    (values : List Literal) (labels : List SpvId)
    → valid_ids labels ≡ true
    → all_valid (switch_operands values labels) ≡ true
all_valid-switch_operands [] labels h = refl
all_valid-switch_operands (x ∷ xs) [] h = refl
all_valid-switch_operands (x ∷ xs) (l ∷ ls) h = ground (arith, all_valid-switch_operands xs ls)

module _ ⦃p : Platform⦄ where
  -- `OpSwitch` reserves one word for each literal. With a literal of 64 bits among them, valid ids
  -- and a label for each, it writes outside of the vector where that ends at the cursor.
  pub op_switch_overflow :
      (selector default_label : SpvId) (values : List Literal) (labels : List SpvId) (bound : ℕ)
      (s : Stream)
      → (length values == length labels) ≡ true
      → valid_ids (selector ∷ default_label ∷ labels) ≡ true
      → length values < literals_size values
      → IsFull s
      → emit (op_switch selector default_label values labels) bound s ≡ fault out_of_bounds
  unfolding op_switch
  op_switch_overflow selector default_label values labels bound s same h wide full =
      emit_short _ bound s (ground (arith, all_valid-switch_operands values labels))
        (omega (arith, sizes-switch_operands values labels (==→eq _ _ same))) full
