-- ===== src/Tests/Phi.antt =====
-- Deferred phi nodes at small inputs.
use sirit.Base.{ℕ, ◌+◌, ◌*◌, ◌^◌, ◌≡◌, refl, arith, [], ◌∷◌, ◌++◌, ok, length}
use sirit.Stream.{SpvId, contents}
use sirit.Stream.Words.{at}
use sirit.Module.{Module, add_label}
use sirit.Module.Phi.{deferred_op_phi}
use sirit.Module.Phi.Patch.{phi_words}
use sirit.Module.Phi.Deferred.{unpatched}
use sirit.Tests.Target.{test_platform, spv}
use sirit.Module.Phi.Placed.{deferred_op_phi-add_label}
use sirit.Tests.Modules.{fresh_module}

-- A callback that gives 10, 11, … and counts its calls.
abbrev counting : ℕ → ℕ → SpvId × ℕ
counting index calls = (spv (10 + index), calls + 1)

abbrev with_phi : Module
with_phi = record fresh_module {
  bound = 1;
  code = at ((245 + 7 * 2 ^ 16) ∷ 2 ∷ 1 ∷ 0 ∷ 3 ∷ 0 ∷ 4 ∷ []) [] 0;
  deferred_phi_nodes = 0 ∷ [];
}

-- After a method that left two words of room, a label and a deferred phi.
abbrev with_room : Module
with_room = record fresh_module { code = at (253 ∷ []) (0 ∷ 0 ∷ []) 0 }

deferred_op_phi-add_label_example :
    (m1 : Module) × (m2 : Module) × (x : SpvId) × (add_label (spv 7) with_room ≡ ok (spv 7, m1))
    × (deferred_op_phi (spv 2) (spv 3 ∷ spv 4 ∷ []) m1 ≡ ok (x, m2))
    × (m2.deferred_phi_nodes ≡ m1.deferred_phi_nodes ++ (length (contents m1.code) ∷ []))
    × (contents m2.code
        ≡ contents m1.code ++ phi_words 245 2 x.value (unpatched (spv 3 ∷ spv 4 ∷ [])))
deferred_op_phi-add_label_example =
    deferred_op_phi-add_label (spv 7) (spv 2) (spv 3 ∷ spv 4 ∷ []) with_room refl refl refl
      (omega arith) (omega arith) (omega arith)
