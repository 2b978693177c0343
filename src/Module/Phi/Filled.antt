-- ===== src/Module/Phi/Filled.antt =====
-- `PatchDeferredPhi` where the nodes point at phi nodes: it fills them, and they point at them still.
use mathlib.Core.Path.{subst}
use sirit.Base.{
  ℕ, ◌+◌, ◌^◌, ◌<◌, ◌≡◌, refl, sym, ap, ◌∙◌, List, [], ◌++◌, append_assoc, arith, length,
  length-append, drop, ok,
}
use sirit.Spirv.{Op, Platform}
use sirit.Stream.{SpvId, Stream, contents}
use sirit.Stream.Words.{view, contents-at}
use sirit.Stream.Address.{length-contents}
use sirit.Emission.Runs.{IsInside}
use sirit.Module.Assemble.Layout.{IsCode}
use sirit.Module.Phi.{patch_nodes}
use sirit.Module.Phi.Patch.{with_words}
use sirit.Module.Phi.Several.{piece_words, places, fill_pieces, patch_nodes_lem}
use sirit.Module.Phi.Pieces.{places-fill_pieces, fill_pieces-All, length-fill_pieces}
use sirit.Module.Phi.Nodes.{HasNodes}

module _ ⦃p : Platform⦄ {S : Type 0} (func : ℕ → S → SpvId × S) where
  -- What patching all nodes leaves: the same code with the callback's values in the phi nodes.
  pub record Patched (nodes : List ℕ) (st : S) (s : Stream) (n : HasNodes (contents s) nodes)
      (last : S) (s' : Stream) : Type 0 where
    pub runs : patch_nodes func nodes st s ≡ ok (last, s')
    pub fills :
        contents s' ≡ piece_words (p.op_code Op.op_phi) (fill_pieces func st n.pieces).1 ++ n.back
    pub keeps : HasNodes (contents s') nodes
    pub cursor : s'.insert_index ≡ s.insert_index
    pub size : length s'.words ≡ length s.words

  -- Nodes that point at phi nodes are patched without a fault, and point at them afterwards.
  pub patch_nodes-HasNodes :
      (nodes : List ℕ) (st : S) (s : Stream) (n : HasNodes (contents s) nodes)
      → IsInside s
      → s.insert_index < 2 ^ 32
      → (last : S) × (s' : Stream) × Patched nodes st s n last s'
  patch_nodes-HasNodes nodes st s n inside small = (
    (fill_pieces func st n.pieces).0,
    with_words s (filled ++ (n.back ++ room)),
    record {
      runs =
          ap (λ l. patch_nodes func l st s) n.point
          ∙ ap (λ l. patch_nodes func (places 0 n.pieces) st (with_words s l)) all_words
          ∙ patch_nodes_lem func n.pieces st [] (n.back ++ room) s n.short (omega (arith, counts));
      fills = fills;
      keeps =
          subst (λ l. HasNodes l nodes) (sym fills)
            (record {
              pieces = (fill_pieces func st n.pieces).1;
              back = n.back;
              splits = refl;
              point = n.point ∙ sym (places-fill_pieces func 0 st n.pieces);
              short = (fill_pieces-All func IsCode st n.pieces n.short n.whole).0;
              whole = (fill_pieces-All func IsCode st n.pieces n.short n.whole).1;
              whole_back = n.whole_back;
            });
      cursor = refl;
      size = omega (
        arith,
        counts,
        ap length all_words,
        length-append filled (n.back ++ room),
        length-append (piece_words op n.pieces) (n.back ++ room),
      );
    },
  )
    where
      op : ℕ
      op = p.op_code Op.op_phi

      filled : List ℕ
      filled = piece_words op (fill_pieces func st n.pieces).1

      room : List ℕ
      room = drop s.insert_index s.words

      all_words : s.words ≡ piece_words op n.pieces ++ (n.back ++ room)
      all_words =
          ap (λ s. s.words) (view s inside)
          ∙ ap (λ l. l ++ room) n.splits
          ∙ append_assoc (piece_words op n.pieces) n.back room

      counts :
          (length filled ≡ length (piece_words op n.pieces))
          × (s.insert_index ≡ length (piece_words op n.pieces) + length n.back)
      counts = omega (
        arith,
        length-fill_pieces func op st n.pieces,
        length-contents s inside,
        ap length n.splits,
        length-append (piece_words op n.pieces) n.back,
      )

      cursor : s.insert_index ≡ length (filled ++ n.back)
      cursor = omega (arith, counts, length-append filled n.back)

      fills : contents (with_words s (filled ++ (n.back ++ room))) ≡ filled ++ n.back
      fills =
          ap (λ s. contents s)
            (λ i. record {
              words = sym (append_assoc filled n.back room) i;
              insert_index = cursor i;
              op_index = s.op_index;
            })
          ∙ contents-at (filled ++ n.back) room s.op_index
