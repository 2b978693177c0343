-- ===== src/Tests/Drafts.antt =====
-- The draft of a small module.
use mathlib.Core.List.{map}
use sirit.Base.{ℕ, ◌≡◌, refl, arith, pos, List, [], ◌∷◌, ok, All}
use sirit.Spirv.{GlslStd450}
use sirit.Instructions.Types.{type_float}
use sirit.Module.{Module, new_module, import_glsl, op_ext_inst}
use sirit.Module.Assemble.{assemble}
use sirit.Module.Assemble.Parse.{parse_instructions, parsed}
use sirit.Module.Draft.Calls.{Follows, call-refines-draft_call}
use sirit.Module.Draft.Events.{Event, method, label, fresh, extended, capability, model, IsProper}
use sirit.Module.Draft.Build.{
  empty_draft, perform_all, draft_all, draft_instructions, new_module-IsDrafted,
  build-refines-draft,
}
use sirit.Module.Reach.{new_module-IsValid}
use sirit.Tests.Modules.{fresh_module, type_float-IsCall}
use sirit.Tests.Target.{test_platform, spv}
use sirit.Declarations.{find, words_eq}

-- A type twice, a label, and a GLSL instruction.
abbrev events : List Event
events =
    capability 1
    ∷ method (type_float (pos 32))
    ∷ method (type_float (pos 32))
    ∷ fresh
    ∷ label (spv 2)
    ∷ extended GlslStd450.sqrt (spv 1) (spv 2 ∷ [])
    ∷ model 0 1
    ∷ []

events-IsProper : All IsProper events
unfolding type_float
events-IsProper = (
  tt,
  (
    (type_float-IsCall, tt),
    ((type_float-IsCall, tt), (tt, (refl, ((refl, refl, omega arith), (tt, tt))))),
  ),
)

-- The ids that they return, and the instructions of the types and the code.
events_draft : (draft_all events empty_draft).0 ≡ (0 ∷ 1 ∷ 1 ∷ 2 ∷ 2 ∷ 4 ∷ 0 ∷ [])
unfolding type_float import_glsl op_ext_inst find words_eq
events_draft = refl

build-refines-draft_example :
    (m : Module) × (words : List ℕ) × (perform_all events (new_module 0x00010300)
      ≡ ok ((draft_all events empty_draft).0, m))
    × (assemble m ≡ ok words)
    × (parse_instructions words
        ≡ ok (map parsed (draft_instructions (draft_all events empty_draft).1)))
unfolding type_float import_glsl op_ext_inst find words_eq
build-refines-draft_example = build-refines-draft 0x00010300 events events-IsProper (omega arith) tt

call-refines-draft_call_example :
    (m' : Module) × Follows (type_float (pos 32)) fresh_module empty_draft m'
unfolding type_float new_module
call-refines-draft_call_example =
    call-refines-draft_call (type_float (pos 32)) fresh_module empty_draft type_float-IsCall tt
      (omega arith) (new_module-IsValid 0x00010300) (new_module-IsDrafted 0x00010300)
