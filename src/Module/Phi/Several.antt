-- ===== src/Module/Phi/Several.antt =====
-- `PatchDeferredPhi` on a stream with several deferred phi nodes.
use sirit.Base.{
  ℕ, ◌+◌, ◌*◌, ◌^◌, ◌<◌, ◌≡◌, sym, ap, ◌∙◌, List, [], ◌∷◌, ◌++◌, append_assoc, arith, length,
  length-append, All, ok, ◌>>=◌, refl, Outcome,
}
use mathlib.Core.Path.{ap₂}
use sirit.Spirv.{Op, Platform}
use sirit.Stream.{SpvId, Stream}
use sirit.Module.Phi.{patch_node, patch_nodes}
use sirit.Module.Phi.Patch.{
  length-pair_words, fill, length-fill, with_words, phi_words, patch_node_lem,
}

-- A phi, and the words between it and the one before.
pub record Piece : Type 0 where
  pub before : List ℕ
  pub result_type : ℕ
  pub id : ℕ
  pub pairs : List (ℕ × ℕ)

abbrev pub piece_words : ℕ → List Piece → List ℕ
piece_words op [] = []
piece_words op (x ∷ xs) = x.before ++ (phi_words op x.result_type x.id x.pairs ++ piece_words op xs)

-- The places of the phi nodes, where the pieces start at the first argument.
abbrev pub places : ℕ → List Piece → List ℕ
places start [] = []
places start (x ∷ xs) =
    (start + length x.before) ∷ places (start + length x.before + (3 + 2 * length x.pairs)) xs

-- A phi that is not too long for its header.
abbrev pub IsShortPhi : Piece → Type 0
IsShortPhi x = 3 + 2 * length x.pairs < 2 ^ 16

regroup :
    (pre b phi rest back : List ℕ)
    → pre ++ ((b ++ (phi ++ rest)) ++ back) ≡ (pre ++ b) ++ (phi ++ (rest ++ back))
regroup pre b phi rest back =
    ap (λ l. pre ++ l)
      (append_assoc b (phi ++ rest) back ∙ ap (λ l. b ++ l) (append_assoc phi rest back))
    ∙ sym (append_assoc pre b (phi ++ (rest ++ back)))

module _ {S : Type 0} (func : ℕ → S → SpvId × S) where
  -- The pieces with the values of the callback, whose state goes from each node to the next.
  abbrev pub fill_pieces : S → List Piece → S × List Piece
  fill_pieces st [] = (st, [])
  fill_pieces st (x ∷ xs) =
      let (st', ps) = fill func 0 st x.pairs in
      let (st'', rest) = fill_pieces st' xs in (st'', record x { pairs = ps } ∷ rest)

module _ ⦃p : Platform⦄ {S : Type 0} (func : ℕ → S → SpvId × S) where
  -- Nodes that point at the phi nodes of a stream, in order, are all patched: each gets the
  -- callback's values, counted from 0 for each node, and all other words stay. No phi is too long
  -- for its header, and all places are below 2 ^ 32.
  pub patch_nodes_lem :
      (xs : List Piece) (st : S) (pre back : List ℕ) (s : Stream)
      → All IsShortPhi xs
      → length pre + length (piece_words (p.op_code Op.op_phi) xs) < 2 ^ 32
      → patch_nodes func
          (places (length pre) xs)
          st
          (with_words s (pre ++ (piece_words (p.op_code Op.op_phi) xs ++ back)))
        ≡ ok (
          (fill_pieces func st xs).0,
          with_words s
              (pre ++ (piece_words (p.op_code Op.op_phi) (fill_pieces func st xs).1 ++ back)),
        )
  unfolding patch_nodes
  patch_nodes_lem [] st pre back s h fits = refl
  patch_nodes_lem (x ∷ xs) st pre back s (hx, h) fits =
      ap₂ (λ k l. patch_node func k st (with_words s l) >>= next) {y = length (pre ++ x.before)}
        (sym (length-append pre x.before)) (regroup pre x.before (phi x.pairs) rest back)
      ∙ ap (λ o. o >>= next)
          (patch_node_lem func x.pairs st (pre ++ x.before) (rest ++ back) x.result_type x.id s hx
            (omega (arith, total)))
      ∙ ap₂ (λ k l. patch_nodes func (places k xs) st' (with_words s l)) {y = length pre'}
          (sym size) (sym (append_assoc (pre ++ x.before) (phi ps) (rest ++ back)))
      ∙ patch_nodes_lem xs st' pre' back s h (omega (arith, total, size))
      ∙ ap (λ l. ok ((fill_pieces func st' xs).0, with_words s l))
          (append_assoc (pre ++ x.before) (phi ps) (rest' ++ back)
            ∙ sym (regroup pre x.before (phi ps) rest' back))
    where
      op : ℕ
      op = p.op_code Op.op_phi

      phi : List (ℕ × ℕ) → List ℕ
      phi qs = phi_words op x.result_type x.id qs

      st' : S
      st' = (fill func 0 st x.pairs).0

      ps : List (ℕ × ℕ)
      ps = (fill func 0 st x.pairs).1

      rest : List ℕ
      rest = piece_words op xs

      rest' : List ℕ
      rest' = piece_words op (fill_pieces func st' xs).1

      pre' : List ℕ
      pre' = (pre ++ x.before) ++ phi ps

      total :
          (length (pre ++ x.before) ≡ length pre + length x.before)
          × (length (x.before ++ (phi x.pairs ++ rest))
              ≡ length x.before + (3 + 2 * length x.pairs) + length rest)
      total = omega (
        arith,
        length-append pre x.before,
        length-append x.before (phi x.pairs ++ rest),
        length-append (phi x.pairs) rest,
        length-pair_words x.pairs,
      )

      size : length pre' ≡ length pre + length x.before + (3 + 2 * length x.pairs)
      size = omega (
        arith,
        length-append (pre ++ x.before) (phi ps),
        length-append pre x.before,
        length-pair_words ps,
        length-fill func x.pairs 0 st,
      )

      next : S × Stream → Outcome (S × Stream)
      next r =
          patch_nodes func (places (length pre + length x.before + (3 + 2 * length x.pairs)) xs) r.0
            r.1
