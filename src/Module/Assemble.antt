-- ===== src/Module/Assemble.antt =====
-- `Module::Assemble` of src/sirit.cpp: the words of the finished module.
pub mod Parse
pub mod Whole
pub mod Layout
pub mod RoundTrip
use sirit.Base.{ℕ, ◌+◌, ◌%◌, ◌^◌, List, [], ◌∷◌, ◌++◌, length, replicate, Outcome, ok, ◌>>=◌}
use sirit.Spirv.{Op, Platform}
use sirit.Stream.{Stream, contents, words_in_string, insert_string_view}
use sirit.Module.{Module, make_word0}

-- `GENERATOR_MAGIC_NUMBER`
abbrev pub generator_magic_number : ℕ
generator_magic_number = 0

module _ ⦃p : Platform⦄ where
  -- the loop over `capabilities`
  unfoldable pub insert_capabilities : List ℕ → List ℕ → List ℕ
  insert_capabilities words [] = words
  insert_capabilities words (capability ∷ rest) =
      insert_capabilities (words ++ (make_word0 Op.op_capability 2 ∷ capability ∷ [])) rest

  -- the loop over `extensions`: the vector is grown, and the name written at its end
  unfoldable pub insert_extensions : List ℕ → List (List ℕ) → Outcome (List ℕ)
  insert_extensions words [] = ok words
  insert_extensions words (extension_name ∷ rest) = do
    let string_words = words_in_string extension_name
    let words' = words ++ (make_word0 Op.op_extension (string_words + 1) ∷ [])
    s ← insert_string_view extension_name (record {
      words = words' ++ replicate string_words 0;
      insert_index = length words';
      op_index = 0;
    })
    insert_extensions s.words rest

  -- what follows the extensions
  unfoldable pub insert_sections : Module → List ℕ → List ℕ
  insert_sections m words =
      words
      ++ (contents m.ext_inst_imports
          ++ ((make_word0 Op.op_memory_model 3 ∷ m.addressing_model ∷ m.memory_model ∷ [])
              ++ (contents m.entry_points
                  ++ (contents m.execution_modes
                      ++ (contents m.debug
                          ++ (contents m.annotations
                              ++ (contents m.declarations.stream
                                  ++ (contents m.global_variables ++ contents m.code))))))))

  unfoldable pub assemble : Module → Outcome (List ℕ)
  assemble m = do
    let words =
        p.magic_number ∷ m.version ∷ generator_magic_number ∷ ((m.bound + 1) % 2 ^ 32) ∷ 0 ∷ []
    let words' = insert_capabilities words (p.capability_order m.capabilities)
    words'' ← insert_extensions words' (p.extension_order m.extensions)
    ok (insert_sections m words'')
