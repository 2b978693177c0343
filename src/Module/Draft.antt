-- ===== src/Module/Draft.antt =====
-- What a module promises: its instructions, section by section, in the order of the calls. The draft of a
-- module is this abstract view of it, without words, rooms and cursors.
pub mod Refine
pub mod Calls
pub mod Glsl
pub mod Events
pub mod Build
use mathlib.Core.List.{map}
use sirit.Base.{ℕ, ◌+◌, ◌==◌, Bool, Option, none, some, List, [], ◌∷◌, ◌++◌, if◌then◌else◌}
use sirit.Spirv.{Platform}
use sirit.Stream.{SpvId, Stream}
use sirit.Stream.Heads.{head_bound}
use sirit.Emission.{
  Section, ext_inst_imports, entry_points, execution_modes, debug, annotations, declarations,
  global_variables, code, Emission,
}
use sirit.Emission.Exact.{instruction}
use sirit.Declarations.{Table, find}
use sirit.Declarations.Declare.{key}
use sirit.Module.{Module}
use sirit.Module.Streams.{same}

pub record Draft : Type 0 where
  pub bound : ℕ
  pub table : Table
  pub written : Section → List (List ℕ)
  pub capabilities : List ℕ
  pub extensions : List (List ℕ)
  pub addressing_model : ℕ
  pub memory_model : ℕ
  pub glsl_std_450 : Option SpvId

-- One more instruction in a section.
abbrev pub write : Section → List ℕ → (Section → List (List ℕ)) → Section → List (List ℕ)
write s w written s' = if same s' s then written s' ++ (w ∷ []) else written s'

module _ ⦃p : Platform⦄ where
  -- A declaration with a known key changes nothing.
  abbrev draft_declare : Option ℕ → Emission → Draft → ℕ × Draft
  draft_declare (some i) e d = (i, d)
  draft_declare none e d = (
    d.bound + 1,
    record d {
      bound = d.bound + 1;
      table = (key e, d.bound + 1) ∷ d.table;
      written = write declarations (instruction e d.bound) d.written;
    },
  )

  abbrev draft_on : Section → Emission → Draft → ℕ × Draft
  draft_on declarations e d = draft_declare (find (key e) d.table) e d
  draft_on s e d = (
    head_bound e.head d.bound,
    record d {
      bound = head_bound e.head d.bound;
      written = write s (instruction e d.bound) d.written;
    },
  )

  -- A method on the draft.
  abbrev pub draft_call : Emission → Draft → ℕ × Draft
  draft_call e d = draft_on e.section e d
