-- ===== src/Module/Assemble/Layout.antt =====
-- What `Assemble` writes, and that the parser of the tests reads it back.
use mathlib.Core.List.{map}
use mathlib.Core.Path.{ap₂}
use sirit.Base.{
  ℕ, ◌+◌, ◌/◌, ◌%◌, ◌^◌, ◌<◌, ◌≡◌, sym, ap, ◌∙◌, List, [], ◌∷◌, ◌++◌, append_assoc, append-nil,
  arith, length, drop, drop_all, replicate, length-replicate, concat, concat-append, All,
  All-append, ok, ◌>>=◌,
}
use sirit.Spirv.{Op, Platform}
use sirit.Stream.{contents, words_in_string, insert_string_view}
use sirit.Stream.Words.{at, push_words-at}
use sirit.Stream.Text.{string_words, insert_string_view-push_words, length-string_words}
use sirit.Stream.Heads.{header}
use sirit.Emission.Exact.{header_fields}
use sirit.Module.{Module, make_word0}
use sirit.Module.Assemble.{insert_capabilities, insert_extensions}
use sirit.Module.Assemble.Parse.{IsInstruction}

-- Words that are instructions, one after the other.
abbrev pub IsCode : List ℕ → Type 0
IsCode words = (ws : List (List ℕ)) × (words ≡ concat ws) × All IsInstruction ws

abbrev pub IsCode-append : (a b : List ℕ) → IsCode a → IsCode b → IsCode (a ++ b)
IsCode-append a b (ws, e, h) (ws', e', h') =
    (ws ++ ws', ap₂ ◌++◌ e e' ∙ sym (concat-append ws ws'), All-append IsInstruction ws ws' h h')

-- The streams of the module hold instructions.
pub record HasCode (m : Module) : Type 0 where
  pub imports : IsCode (contents m.ext_inst_imports)
  pub entries : IsCode (contents m.entry_points)
  pub modes : IsCode (contents m.execution_modes)
  pub names : IsCode (contents m.debug)
  pub decorations : IsCode (contents m.annotations)
  pub types : IsCode (contents m.declarations.stream)
  pub variables : IsCode (contents m.global_variables)
  pub functions : IsCode (contents m.code)

pub header-IsInstruction : (op n : ℕ) → op < 2 ^ 16 → n < 2 ^ 16 → header op n / 2 ^ 16 ≡ n
header-IsInstruction op n ho hn = rw (header_fields op n ho hn) (omega arith)

module _ ⦃p : Platform⦄ where
  abbrev pub capability_words : ℕ → List ℕ
  capability_words capability = make_word0 Op.op_capability 2 ∷ capability ∷ []

  abbrev pub extension_words : List ℕ → List ℕ
  extension_words text = make_word0 Op.op_extension (words_in_string text + 1) ∷ string_words text

  abbrev pub memory_model_words : Module → List ℕ
  memory_model_words m = make_word0 Op.op_memory_model 3 ∷ m.addressing_model ∷ m.memory_model ∷ []

  abbrev pub module_header : Module → List ℕ
  module_header m = p.magic_number ∷ m.version ∷ 0 ∷ ((m.bound + 1) % 2 ^ 32) ∷ 0 ∷ []

  pub insert_capabilities_lem :
      (words caps : List ℕ)
      → insert_capabilities words caps ≡ words ++ concat (map capability_words caps)
  unfolding insert_capabilities
  insert_capabilities_lem words [] = sym (append-nil words)
  insert_capabilities_lem words (c ∷ cs) =
      insert_capabilities_lem (words ++ capability_words c) cs
      ∙ append_assoc words (capability_words c) (concat (map capability_words cs))

  pub insert_extensions_lem :
      (exts : List (List ℕ)) (words : List ℕ)
      → insert_extensions words exts ≡ ok (words ++ concat (map extension_words exts))
  unfolding insert_extensions
  insert_extensions_lem [] words = ap ok (sym (append-nil words))
  insert_extensions_lem (t ∷ ts) words =
      ap (λ m. m >>= λ s. insert_extensions s.words ts) written
      ∙ insert_extensions_lem ts _
      ∙ ap (λ l. ok (l ++ concat (map extension_words ts))) grown
      ∙ ap ok (append_assoc words (extension_words t) (concat (map extension_words ts)))
    where
      before : List ℕ
      before = words ++ (make_word0 Op.op_extension (words_in_string t + 1) ∷ [])

      room : List ℕ
      room = replicate (words_in_string t) 0

      written :
          insert_string_view t (at before room 0)
          ≡ ok (at (before ++ string_words t) (drop (length (string_words t)) room) 0)
      written =
          insert_string_view-push_words t (at before room 0)
          ∙ push_words-at (string_words t) before room 0
              (omega (arith, length-string_words t, length-replicate {A = ℕ} (words_in_string t) 0))

      used_up : drop (length (string_words t)) room ≡ []
      used_up =
          drop_all (length (string_words t)) room
            (omega (arith, length-string_words t, length-replicate {A = ℕ} (words_in_string t) 0))

      grown :
          (before ++ string_words t) ++ drop (length (string_words t)) room
          ≡ words ++ extension_words t
      grown =
          ap (λ r. (before ++ string_words t) ++ r) used_up
          ∙ append-nil (before ++ string_words t)
          ∙ append_assoc words _ (string_words t)

  pub capabilities-IsInstruction : (caps : List ℕ) → All IsInstruction (map capability_words caps)
  unfolding make_word0
  capabilities-IsInstruction [] = tt
  capabilities-IsInstruction (c ∷ cs) = (
    header-IsInstruction (p.op_code Op.op_capability) 2 (p.op_code-lt _) (omega arith),
    capabilities-IsInstruction cs,
  )

  -- An extension whose name fits an instruction.
  abbrev pub IsShort : List ℕ → Type 0
  IsShort text = words_in_string text + 1 < 2 ^ 16

  pub extensions-IsInstruction :
      (exts : List (List ℕ)) → All IsShort exts → All IsInstruction (map extension_words exts)
  unfolding make_word0
  extensions-IsInstruction [] h = tt
  extensions-IsInstruction (t ∷ ts) (h, hs) = (
    header-IsInstruction (p.op_code Op.op_extension) (words_in_string t + 1) (p.op_code-lt _) h
        ∙ omega (arith, length-string_words t),
    extensions-IsInstruction ts hs,
  )

  pub memory_model-IsInstruction : (m : Module) → IsInstruction (memory_model_words m)
  unfolding make_word0
  memory_model-IsInstruction m =
      header-IsInstruction (p.op_code Op.op_memory_model) 3 (p.op_code-lt _) (omega arith)

  -- The instructions of a module in the order of the SPIR-V layout.
  abbrev pub module_instructions : (m : Module) → HasCode m → List (List ℕ)
  module_instructions m v =
      map capability_words (p.capability_order m.capabilities)
      ++ (map extension_words (p.extension_order m.extensions)
          ++ (v.imports.0
              ++ ((memory_model_words m ∷ [])
                  ++ (v.entries.0
                      ++ (v.modes.0
                          ++ (v.names.0
                              ++ (v.decorations.0
                                  ++ (v.types.0 ++ (v.variables.0 ++ v.functions.0)))))))))
