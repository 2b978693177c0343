-- ===== src/Module/Phi/Placed.antt =====
-- Where the note of `DeferredOpPhi` points: methods leave at most two words of room behind the cursor
-- of the code, and a label uses them up.
use sirit.Base.{
  ℕ, ◌+◌, ◌^◌, ◌≤◌, ◌<◌, ◌≡◌, ◌∙◌, ap, true, List, [], ◌∷◌, ◌++◌, arith, length, length-append, ok,
}
use sirit.Spirv.{Op, Platform}
use sirit.Stream.{SpvId, valid_id, Stream, contents}
use sirit.Stream.Address.{local_address_lem, length-contents}
use sirit.Stream.Operands.{valid_ids}
use sirit.Emission.{Emission, emit, code}
use sirit.Emission.Exact.{accepted}
use sirit.Emission.Size.{IsTight}
use sirit.Emission.Runs.{slack, IsInside, emit_runs}
use sirit.Module.{Module, add_label}
use sirit.Module.Label.{label_words, add_label_lem}
use sirit.Module.Phi.{deferred_op_phi}
use sirit.Module.Phi.Patch.{phi_words}
use sirit.Module.Phi.Deferred.{unpatched, deferred_op_phi_lem}

module _ ⦃p : Platform⦄ where
  -- A method that reserves what it writes and at most two words more, its `assert`s holding, runs
  -- on a stream with at most two words of room behind the cursor, and leaves at most two.
  emit-slack :
      (e : Emission) (bound : ℕ) (s : Stream)
      → IsTight e
      → accepted e ≡ true
      → IsInside s
      → slack s ≤ 2
      → (i : SpvId) × (bound' : ℕ) × (s' : Stream) × (emit e bound s ≡ ok (i, bound', s'))
        × IsInside s'
        × (slack s' ≤ 2)
  emit-slack e bound s t h inside small =
      let (s', w) = emit_runs e bound s t.enough h inside in
      (_, _, s', w.runs, w.inside, omega (arith, w.room, t.close, t.enough))

  -- A label and a deferred phi with valid ids run one after the other on a module with at most two
  -- words of room behind the cursor of the code: the address that is noted is the place of the phi
  -- behind the label, if that is below 2 ^ 32, and the phi is appended there.
  pub deferred_op_phi-add_label :
      (label t : SpvId) (blocks : List SpvId) (m : Module)
      → valid_id label ≡ true
      → valid_id t ≡ true
      → valid_ids blocks ≡ true
      → IsInside m.code
      → slack m.code ≤ 2
      → m.code.insert_index + 2 < 2 ^ 32
      → (m1 : Module) × (m2 : Module) × (x : SpvId) × (add_label label m ≡ ok (label, m1))
        × (deferred_op_phi t blocks m1 ≡ ok (x, m2))
        × (m2.deferred_phi_nodes ≡ m1.deferred_phi_nodes ++ (length (contents m1.code) ∷ []))
        × (contents m2.code
            ≡ contents m1.code
              ++ phi_words (p.op_code Op.op_phi) t.value x.value (unpatched blocks))
  deferred_op_phi-add_label label t blocks m hl ht hb inside small fits =
      let (m1, w) = add_label_lem label m hl inside in
      let (m2, d) = deferred_op_phi_lem t blocks m1 ht hb w.inside in
      (
        m1,
        m2,
        _,
        w.runs,
        d.runs,
        d.notes
            ∙ ap (λ a. m1.deferred_phi_nodes ++ (a ∷ []))
                (local_address_lem m1.code (omega (arith, w.room, w.inside)) (
                  omega (
                    arith,
                    length-contents m1.code w.inside,
                    length-contents m.code inside,
                    ap length w.appends,
                    length-append (contents m.code) (label_words label),
                  ))),
        d.appends,
      )
