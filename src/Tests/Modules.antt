-- ===== src/Tests/Modules.antt =====
-- Modules, their assembly and deferred phi nodes at small inputs.
use mathlib.Core.List.{map}
use sirit.Base.{ℕ, ◌+◌, ◌*◌, ◌^◌, ◌≡◌, refl, arith, List, [], ◌∷◌, ◌++◌, concat, ok, pos, All}
use sirit.Stream.{SpvId, reserve, push_word, words_in_string}
use sirit.Stream.Words.{at}
use sirit.Instructions.Types.{type_float}
use sirit.Module.{
  Module, new_module, add_capability, add_extension, add_label, make_word0, insert_text,
}
use sirit.Module.Assemble.{assemble}
use sirit.Module.Assemble.Parse.{parse_instructions, parsed}
use sirit.Module.Assemble.Parse.{Instruction, parse_loop, parse_loop_enough}
use sirit.Module.Assemble.Whole.{Parses, parse_instructions-splits}
use sirit.Module.Assemble.Layout.{
  HasCode, IsShort, module_header, capability_words, extension_words, module_instructions,
}
use sirit.Module.Assemble.RoundTrip.{sections, assemble_words}
use sirit.Module.Valid.{IsValid, IsCall}
use sirit.Module.Valid.Calls.{call-IsValid, Called}
use sirit.Module.Reach.{
  Reach, start, next, labelled, capability, extension, new_module-IsValid, Reach-IsValid,
  Reach-assemble,
}
use sirit.Tests.Target.{test_platform, spv}

abbrev pub fresh_module : Module
fresh_module = new_module 0x00010300

-- a module with a capability and an extension's name
abbrev with_sets : Module
with_sets = add_extension (b'e' ∷ b'x' ∷ b't' ∷ []) (add_capability 1 fresh_module)

with_sets-Reach : Reach fresh_module [] with_sets
with_sets-Reach = next (next start (capability 1)) (extension (b'e' ∷ b'x' ∷ b't' ∷ []))

with_sets-IsValid : IsValid with_sets
with_sets-IsValid = Reach-IsValid (new_module-IsValid 0x00010300) with_sets-Reach

with_sets-IsShort : All IsShort with_sets.extensions
unfolding new_module add_extension add_capability insert_text words_in_string
with_sets-IsShort = (omega arith, tt)

-- Its label.
abbrev with_label : Module
with_label = record fresh_module { code = at ((248 + 2 * 2 ^ 16) ∷ 7 ∷ []) [] 0 }

label_run : add_label (spv 7) fresh_module ≡ ok (spv 7, with_label)
unfolding add_label reserve push_word new_module make_word0
label_run = refl

assemble_words_example :
    assemble with_sets
    ≡ ok (
        module_header with_sets
        ++ (concat (map capability_words with_sets.capabilities)
            ++ (concat (map extension_words with_sets.extensions) ++ sections with_sets)))
assemble_words_example = assemble_words with_sets

Reach-assemble_example :
    (v : HasCode with_sets) × (words : List ℕ) × (assemble with_sets ≡ ok words)
    × (parse_instructions words ≡ ok (map parsed (module_instructions with_sets v)))
Reach-assemble_example = Reach-assemble 0x00010300 [] with_sets with_sets-Reach with_sets-IsShort

Reach-IsValid_example : IsValid with_label
Reach-IsValid_example =
    Reach-IsValid (new_module-IsValid 0x00010300) (next start (labelled (spv 7) refl label_run))

pub type_float-IsCall : IsCall (type_float (pos 32))
unfolding type_float
type_float-IsCall = record { accepts = refl; enough = omega arith; short = omega arith }

call-IsValid_example : (i : SpvId) × (m' : Module) × Called (type_float (pos 32)) fresh_module i m'
unfolding type_float new_module
call-IsValid_example =
    call-IsValid (type_float (pos 32)) fresh_module type_float-IsCall tt (omega arith)
      (new_module-IsValid 0x00010300)

parse_instructions-splits_example :
    (insts : List Instruction) × (rest : List ℕ) × Parses
      (parse_instructions (1 ∷ 2 ∷ 3 ∷ 4 ∷ 5 ∷ (17 + 2 * 2 ^ 16) ∷ 1 ∷ 9 ∷ []))
      ((17 + 2 * 2 ^ 16) ∷ 1 ∷ 9 ∷ [])
      insts
      rest
parse_instructions-splits_example =
    parse_instructions-splits (1 ∷ 2 ∷ 3 ∷ 4 ∷ 5 ∷ (17 + 2 * 2 ^ 16) ∷ 1 ∷ 9 ∷ [])

parse_loop_enough_example :
    parse_loop 2 (1 ∷ 2 ∷ 3 ∷ 4 ∷ 5 ∷ (17 + 2 * 2 ^ 16) ∷ 1 ∷ []) 5
    ≡ parse_loop 7 (1 ∷ 2 ∷ 3 ∷ 4 ∷ 5 ∷ (17 + 2 * 2 ^ 16) ∷ 1 ∷ []) 5
parse_loop_enough_example =
    parse_loop_enough 2 7 (1 ∷ 2 ∷ 3 ∷ 4 ∷ 5 ∷ (17 + 2 * 2 ^ 16) ∷ 1 ∷ []) 5 (omega arith)
      (omega arith)
