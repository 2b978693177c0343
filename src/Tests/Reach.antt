-- ===== src/Tests/Reach.antt =====
-- Calls of a client at small inputs.
use sirit.Base.{ℕ, ◌+◌, ◌*◌, ◌^◌, ◌<◌, ◌≡◌, ◌≢◌, refl, arith, List, [], ◌∷◌, ok, All, concat, ◌++◌}
use sirit.Stream.{SpvId, reserve, push_word, local_address, put_head, put_all, put, put_id, end_op}
use sirit.Stream.Words.{at}
use sirit.Emission.{code, declarations, emit}
use sirit.Instructions.Flow.{op_phi}
use sirit.Module.{Module, new_module, call, op_label}
use sirit.Module.Assemble.{assemble}
use sirit.Module.Phi.{deferred_op_phi}
use sirit.Module.Valid.{IsValid, IsCall}
use sirit.Module.Reach.{Reach, start, next, fresh, deferred, new_module-IsValid}
use sirit.Module.Reach.Ids.{Reach-bound, Reach-fresh, Reach-patch}
use sirit.Module.Steps.Extension.{IsServed, extension_methods, extension_methods_lem}
use sirit.Module.Steps.Phi.{PatchedModule}
use sirit.Tests.Modules.{fresh_module}
use sirit.Tests.Target.{test_platform, spv}
use mathlib.Core.List.{map, Nodup, Perm}
use sirit.Module.Reach.Once.{Reach-assemble_once}
use sirit.Module.Steps.Label.{Named, op_named_label_lem}
use sirit.Module.Assemble.Layout.{module_header, capability_words, extension_words}
use sirit.Module.Assemble.RoundTrip.{sections}

-- Id 1 is taken.
abbrev one_id : Module
one_id = record fresh_module { bound = 1 }

one_id-Reach : Reach fresh_module (1 ∷ []) one_id
unfolding op_label new_module
one_id-Reach = next start (fresh {i = spv 1} (omega arith) refl)

extension_methods_lem_example :
    All (IsServed (spv 1) fresh_module) (extension_methods (spv 1) (spv 2) (spv 3) (spv 4))
unfolding new_module
extension_methods_lem_example =
    extension_methods_lem (spv 1) (spv 2) (spv 3) (spv 4) fresh_module refl (omega arith)
      (new_module-IsValid 0x00010300)

Reach-bound_example :
    (b : ℕ) × (rest : List ℕ) × (assemble one_id
      ≡ ok (test_platform.magic_number ∷ one_id.version ∷ 0 ∷ b ∷ 0 ∷ rest))
    × All (λ i. (0 < i) × (i < b)) (1 ∷ [])
Reach-bound_example = Reach-bound 0x00010300 (1 ∷ []) one_id one_id-Reach (omega arith)

op_phi-IsCall : IsCall (op_phi (spv 1) [])
unfolding op_phi
op_phi-IsCall = record { accepts = refl; enough = omega arith; short = omega arith }

code_apart : code ≢ declarations
code_apart e = cc

Reach-fresh_example :
    (i : SpvId) × (m' : Module) × (call (op_phi (spv 1) []) one_id ≡ ok (i, m'))
    × All (λ j. (0 < j) × (j < i.value)) (1 ∷ [])
unfolding op_phi
Reach-fresh_example =
    Reach-fresh 0x00010300 (1 ∷ []) one_id (op_phi (spv 1) []) one_id-Reach op_phi-IsCall tt
      code_apart tt (omega arith)

abbrev phi_words_1 : List ℕ
phi_words_1 = (245 + 5 * 2 ^ 16) ∷ 1 ∷ 2 ∷ 0 ∷ 1 ∷ []

-- A deferred phi with one block.
abbrev one_phi : Module
one_phi = record fresh_module { bound = 2; code = at phi_words_1 [] 0; deferred_phi_nodes = 0 ∷ [] }

one_phi-Reach : Reach fresh_module (2 ∷ 1 ∷ []) one_phi
unfolding deferred_op_phi new_module reserve push_word local_address emit put_head put_all put
    put_id end_op
one_phi-Reach = next one_id-Reach (
    deferred {m = one_id} {i = spv 2} (spv 1) (spv 1 ∷ []) refl refl (omega arith) (omega arith)
      refl (omega arith) refl)

abbrev twice : ℕ → ℕ → SpvId × ℕ
twice arg st = (spv (st + arg), st + 1)

Reach-patch_example :
    (v : IsValid one_phi) × (last : ℕ) × (m' : Module) × PatchedModule twice 7 one_phi v last m'
Reach-patch_example =
    Reach-patch twice 7 0x00010300 (2 ∷ 1 ∷ []) one_phi one_phi-Reach (omega arith)

op_named_label_lem_example :
    (i : SpvId) × (m' : Module) × Named (b'm' ∷ b'a' ∷ b'i' ∷ b'n' ∷ []) fresh_module i m'
unfolding new_module
op_named_label_lem_example =
    op_named_label_lem (b'm' ∷ b'a' ∷ b'i' ∷ b'n' ∷ []) fresh_module (omega arith) (omega arith)
      (new_module-IsValid 0x00010300)

Reach-assemble_once_example :
    (capabilities : List ℕ) × (extensions : List (List ℕ)) × (assemble one_id
      ≡ ok (
          module_header one_id
          ++ (concat (map capability_words capabilities)
              ++ (concat (map extension_words extensions) ++ sections one_id))))
    × Nodup capabilities
    × Perm capabilities one_id.capabilities
    × Nodup extensions
    × Perm extensions one_id.extensions
Reach-assemble_once_example = Reach-assemble_once 0x00010300 (1 ∷ []) one_id one_id-Reach
