-- ===== src/Module/Assemble/RoundTrip.antt =====
-- The parser of the tests finds in an assembled module the instructions that were written.
use mathlib.Core.List.{map}
use sirit.Base.{
  ℕ, ◌≡◌, refl, sym, ap, ◌∙◌, List, [], ◌∷◌, ◌++◌, append_assoc, append-nil, concat, concat-append,
  All, All-append, ok, ◌>>=◌,
}
use sirit.Spirv.{Platform}
use sirit.Stream.{contents}
use sirit.Module.{Module}
use sirit.Module.Assemble.{insert_sections, assemble, insert_extensions}
use sirit.Module.Assemble.Parse.{
  parse_instructions, IsInstruction, parsed, parse_instructions-concat,
}
use sirit.Module.Assemble.Layout.{
  IsCode, IsCode-append, HasCode, capability_words, extension_words, memory_model_words,
  module_header, insert_capabilities_lem, insert_extensions_lem, capabilities-IsInstruction,
  IsShort, extensions-IsInstruction, memory_model-IsInstruction, module_instructions,
}

module _ ⦃p : Platform⦄ where
  abbrev pub sections : Module → List ℕ
  sections m =
      contents m.ext_inst_imports
      ++ (memory_model_words m
          ++ (contents m.entry_points
              ++ (contents m.execution_modes
                  ++ (contents m.debug
                      ++ (contents m.annotations
                          ++ (contents m.declarations.stream
                              ++ (contents m.global_variables ++ contents m.code)))))))

  abbrev all_code : (m : Module) → HasCode m → IsCode (sections m)
  all_code m v = IsCode-append _ _ v.imports (
      IsCode-append (memory_model_words m) _
        (memory_model_words m ∷ [], sym (append-nil _), (memory_model-IsInstruction m, tt))
        (IsCode-append _ _ v.entries (
          IsCode-append _ _ v.modes (
            IsCode-append _ _ v.names (
              IsCode-append _ _ v.decorations
                (IsCode-append _ _ v.types (IsCode-append _ _ v.variables v.functions)))))))

  -- `Assemble` never faults, whatever the module holds: it writes the header, the capabilities, the
  -- extensions and the streams, in this order.
  pub assemble_words :
      (m : Module)
      → assemble m
        ≡ ok (
            module_header m
            ++ (concat (map capability_words (p.capability_order m.capabilities))
                ++ (concat (map extension_words (p.extension_order m.extensions)) ++ sections m)))
  unfolding assemble insert_sections
  assemble_words m =
      ap
        (λ w.
          insert_extensions w (p.extension_order m.extensions) >>= λ l. ok (insert_sections m l))
        (insert_capabilities_lem (module_header m) (p.capability_order m.capabilities))
      ∙ ap (λ o. o >>= λ l. ok (insert_sections m l))
          (insert_extensions_lem (p.extension_order m.extensions) _)
      ∙ ap ok (
          append_assoc (module_header m ++ caps) exts (sections m)
          ∙ append_assoc (module_header m) caps (exts ++ sections m))
    where
      caps : List ℕ
      caps = concat (map capability_words (p.capability_order m.capabilities))

      exts : List ℕ
      exts = concat (map extension_words (p.extension_order m.extensions))

  -- Where every stream holds instructions, and no extension's name is too long for one, `Assemble`
  -- succeeds, and the parser of the tests finds the instructions of the module: the capabilities, the
  -- extensions, the imports, the memory model and the other streams, in this order, and no others.
  pub parse_instructions-assemble :
      (m : Module) (v : HasCode m)
      → All IsShort (p.extension_order m.extensions)
      → (words : List ℕ) × (assemble m ≡ ok words)
        × (parse_instructions words ≡ ok (map parsed (module_instructions m v)))
  parse_instructions-assemble m v short = (
    module_header m ++ (concat caps ++ (concat exts ++ sections m)),
    assemble_words m,
    ap (λ l. parse_instructions (module_header m ++ l)) joined
        ∙ parse_instructions-concat (module_header m) (module_instructions m v) refl (
            All-append IsInstruction caps _
              (capabilities-IsInstruction (p.capability_order m.capabilities))
              (All-append IsInstruction exts _
                (extensions-IsInstruction (p.extension_order m.extensions) short)
                (all_code m v).2)),
  )
    where
      caps : List (List ℕ)
      caps = map capability_words (p.capability_order m.capabilities)

      exts : List (List ℕ)
      exts = map extension_words (p.extension_order m.extensions)

      joined : concat caps ++ (concat exts ++ sections m) ≡ concat (module_instructions m v)
      joined =
          ap (λ l. concat caps ++ (concat exts ++ l)) (all_code m v).1
          ∙ ap (λ l. concat caps ++ l) (sym (concat-append exts (all_code m v).0))
          ∙ sym (concat-append caps (exts ++ (all_code m v).0))
