-- ===== src/Module/Phi.antt =====
-- Deferred phi nodes: `DeferredOpPhi` of src/instructions/flow.cpp and `PatchDeferredPhi` of
-- src/sirit.cpp. `u32` arithmetic wraps.
pub mod Patch
pub mod Deferred
pub mod Patched
pub mod Placed
pub mod Several
pub mod Pieces
pub mod Nodes
pub mod Filled
use sirit.Base.{
  ℕ, zero, suc, ◌+◌, ◌-◌, ◌*◌, ◌/◌, ◌%◌, ◌^◌, bit_and, List, [], ◌∷◌, ◌++◌, ◌==◌, length, Outcome,
  ok, ◌>>=◌, ◌>>◌, assert,
}
use sirit.Spirv.{Op, Platform}
use sirit.Stream.{SpvId, Operand, id, u32, with_type, Stream, local_address, get_value, set_value}
use sirit.Emission.{code, Emission, emission, emit}
use sirit.Module.{Module, Method}

-- the loop of `DeferredOpPhi`: `u32{0}` and the block
abbrev pub phi_operands : List SpvId → List Operand
phi_operands [] = []
phi_operands (block ∷ blocks) = u32 0 ∷ id block ∷ phi_operands blocks

unfoldable pub deferred_phi : SpvId → List SpvId → Emission
deferred_phi result_type blocks =
    emission code (3 + length blocks * 2) (with_type Op.op_phi result_type) (phi_operands blocks)

-- The callback of `PatchDeferredPhi` may keep a state of its own.
module _ {S : Type 0} (func : ℕ → S → SpvId × S) where
  -- the loop over `arg`, with the rounds that are left
  pub patch_args : ℕ → ℕ → ℕ → S → Stream → Outcome (S × Stream)
  patch_args zero arg cursor st s = ok (st, s)
  patch_args (suc rounds) arg cursor st s = do
    let (i, st') = func arg st
    s' ← set_value cursor i.value s
    patch_args rounds (arg + 1) ((cursor + 2) % 2 ^ 32) st' s'

module _ ⦃p : Platform⦄ where
  -- `DeferredOpPhi` notes the address before it reserves and writes.
  unfoldable pub deferred_op_phi : SpvId → List SpvId → Method
  unfolding deferred_phi
  deferred_op_phi result_type blocks m = do
    let nodes = m.deferred_phi_nodes ++ (local_address m.code ∷ [])
    (i, b, s) ← emit (deferred_phi result_type blocks) m.bound m.code
    ok (i, record m { bound = b; code = s; deferred_phi_nodes = nodes })

  module _ {S : Type 0} (func : ℕ → S → SpvId × S) where
    pub patch_node : ℕ → S → Stream → Outcome (S × Stream)
    patch_node phi_index st s = do
      first_word ← get_value phi_index s
      assert (bit_and first_word 0xffff == p.op_code Op.op_phi)
      let num_words = first_word / 2 ^ 16
      let num_args = (num_words + 2 ^ 32 - 3) % 2 ^ 32 / 2
      patch_args func num_args 0 ((phi_index + 3) % 2 ^ 32) st s

    pub patch_nodes : List ℕ → S → Stream → Outcome (S × Stream)
    patch_nodes [] st s = ok (st, s)
    patch_nodes (phi_index ∷ nodes) st s = do
      (st', s') ← patch_node phi_index st s
      patch_nodes nodes st' s'

    -- `PatchDeferredPhi`
    unfoldable pub patch_deferred_phi : S → Module → Outcome (S × Module)
    patch_deferred_phi st m = do
      (st', s) ← patch_nodes m.deferred_phi_nodes st m.code
      ok (st', record m { code = s })
