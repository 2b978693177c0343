-- ===== src/Module/Steps/Phi.antt =====
-- `DeferredOpPhi` and `PatchDeferredPhi` on a valid module.
use mathlib.Core.Path.{subst}
use sirit.Base.{
  ℕ, ◌+◌, ◌*◌, ◌%◌, ◌^◌, ◌≤◌, ◌<◌, ◌≡◌, sym, ap, ◌∙◌, true, List, [], ◌∷◌, ◌++◌, arith, length, ok,
  ok-injective, ◌>>=◌,
}
use sirit.Spirv.{Op, Platform}
use sirit.Stream.{SpvId, valid_id, Stream, contents, local_address}
use sirit.Stream.Address.{local_address_lem}
use sirit.Stream.Operands.{valid_ids}
use sirit.Module.{Module}
use sirit.Module.Phi.{deferred_op_phi, patch_deferred_phi}
use sirit.Module.Phi.Patch.{phi_words}
use sirit.Module.Phi.Several.{fill_pieces, piece_words}
use sirit.Module.Phi.Deferred.{deferred_op_phi_lem, unpatched, length-unpatched}
use sirit.Module.Phi.Nodes.{HasNodes, HasNodes-IsCode, HasNodes-defer}
use sirit.Module.Phi.Filled.{patch_nodes-HasNodes}
use sirit.Module.Valid.{IsWritten, IsValid, IsInterned-mono, IsKnown-mono}
use sirit.Declarations.Sharing.{here, elsewhere}
use sirit.Module.Steps.{Stepped}

module _ ⦃p : Platform⦄ where
  -- The module with other code and nodes, as deferring and patching leave it.
  moved-IsValid :
      (m : Module) (bound : ℕ) (code : Stream) (nodes : List ℕ)
      → m.bound ≤ bound
      → bound < 2 ^ 32
      → IsValid m
      → code.insert_index ≤ length code.words
      → HasNodes (contents code) nodes
      → IsValid (record m { bound = bound; code = code; deferred_phi_nodes = nodes })
  moved-IsValid m bound code nodes le small v inside n =
      let (a, (b, (c, (d, (f, (t, (g, _))))))) = v.written in
      let k : IsWritten code = record {
        inside = inside;
        code = HasNodes-IsCode (contents code) nodes n;
      } in
      record {
        written = (a, (b, (c, (d, (f, (t, (g, (k, tt))))))));
        interned = IsInterned-mono m.declarations m.bound bound le small v.interned;
        nodes = n;
        set = IsKnown-mono m.glsl_std_450 m.bound bound le v.set;
        unique = v.unique;
      }

  pub deferred_op_phi-Stepped :
      {m m' : Module} {i : SpvId} (t : SpvId) (blocks : List SpvId)
      → valid_id t ≡ true
      → valid_ids blocks ≡ true
      → 3 + 2 * length blocks < 2 ^ 16
      → m.bound + 1 < 2 ^ 32
      → m.code.insert_index ≡ length m.code.words
      → m.code.insert_index < 2 ^ 32
      → IsValid m
      → deferred_op_phi t blocks m ≡ ok (i, m')
      → Stepped m (i.value ∷ []) m'
  deferred_op_phi-Stepped {m} t blocks ht hb short small tight far v run =
      let (m'', w) = deferred_op_phi_lem t blocks m ht hb (omega (arith, tight)) in
      let n : HasNodes (contents m''.code) (m.deferred_phi_nodes ++ (local_address m.code ∷ [])) =
        subst (λ l. HasNodes l (m.deferred_phi_nodes ++ (local_address m.code ∷ [])))
          (sym w.appends)
          (subst
            (λ a.
              HasNodes
                (contents m.code
                  ++ phi_words (p.op_code Op.op_phi) t.value ((m.bound + 1) % 2 ^ 32)
                      (unpatched blocks))
                (m.deferred_phi_nodes ++ (a ∷ [])))
            (sym (local_address_lem m.code tight far))
            (HasNodes-defer (contents m.code) m.deferred_phi_nodes t.value _ (unpatched blocks)
              v.nodes (omega (arith, length-unpatched blocks)))) in
      subst (λ (q : SpvId × Module). Stepped m (q.0.value ∷ []) q.1)
        (ok-injective (sym w.runs ∙ run))
        (subst (Stepped m ((m.bound + 1) % 2 ^ 32 ∷ [])) (sym w.only) (record {
          valid = moved-IsValid m _ m''.code _ (omega arith) (omega arith) v w.inside n;
          grows = omega arith;
          issued = (omega arith, tt);
          later = elsewhere here ((m.bound + 1) % 2 ^ 32) (omega arith) (omega arith);
        }))

  -- What `PatchDeferredPhi` leaves: the code with the values of the callback in the phi nodes.
  pub record PatchedModule {S : Type 0} (func : ℕ → S → SpvId × S) (st : S) (m : Module)
      (v : IsValid m) (last : S) (m' : Module) : Type 0 where
    pub runs : patch_deferred_phi func st m ≡ ok (last, m')
    pub steps : Stepped m [] m'
    pub fills :
        contents m'.code
        ≡ piece_words (p.op_code Op.op_phi) (fill_pieces func st v.nodes.pieces).1 ++ v.nodes.back
    pub same_size : length m'.code.words ≡ length m.code.words

  -- `PatchDeferredPhi` on a valid module finds every deferred node, and writes the values of the callback
  -- and nothing else. It faults on no valid module whose code is shorter than 2 ^ 32 words.
  pub patch_deferred_phi-Stepped :
      {S : Type 0} (func : ℕ → S → SpvId × S) (st : S) (m : Module) (v : IsValid m)
      → m.code.insert_index < 2 ^ 32
      → (last : S) × (m' : Module) × PatchedModule func st m v last m'
  unfolding patch_deferred_phi
  patch_deferred_phi-Stepped func st m v small =
      let (_, (_, (_, (_, (_, (_, (_, (k, _)))))))) = v.written in
      let (last, s, w) =
        patch_nodes-HasNodes func m.deferred_phi_nodes st m.code v.nodes k.inside small in
      (
        last,
        record m { code = s },
        record {
          runs = ap (λ o. o >>= λ (st', s). ok (st', record m { code = s })) w.runs;
          steps = record {
            valid =
                moved-IsValid m m.bound s m.deferred_phi_nodes (omega arith) v.interned.small v
                  (omega (arith, w.cursor, w.size, k.inside)) w.keeps;
            grows = omega arith;
            issued = tt;
            later = here;
          };
          fills = w.fills;
          same_size = w.size;
        },
      )
