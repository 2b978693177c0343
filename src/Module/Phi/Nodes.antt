-- ===== src/Module/Phi/Nodes.antt =====
-- The deferred phi nodes of a module point at phi nodes of its code, whatever is appended or deferred.
use mathlib.Core.Path.{subst}
use sirit.Base.{
  ℕ, ◌+◌, ◌*◌, ◌^◌, ◌<◌, ◌≡◌, refl, sym, ap, ◌∙◌, List, [], ◌∷◌, ◌++◌, append_assoc, append-nil,
  arith, length, length-append, All, All-append,
}
use sirit.Spirv.{Op, Platform}
use sirit.Module.Assemble.Layout.{IsCode, IsCode-append, header-IsInstruction}
use sirit.Module.Phi.Patch.{length-pair_words, phi_words}
use sirit.Module.Phi.Several.{Piece, piece_words, places, IsShortPhi}
use sirit.Module.Phi.Pieces.{piece_words-append, places-append}

module _ ⦃p : Platform⦄ where
  phi-IsCode :
      (x : Piece)
      → IsShortPhi x
      → IsCode (phi_words (p.op_code Op.op_phi) x.result_type x.id x.pairs)
  phi-IsCode x h = (
    phi_words (p.op_code Op.op_phi) x.result_type x.id x.pairs ∷ [],
    sym (append-nil _),
    (
      header-IsInstruction (p.op_code Op.op_phi) (3 + 2 * length x.pairs) (p.op_code-lt _) h
          ∙ omega (arith, length-pair_words x.pairs),
      tt,
    ),
  )

  -- Whole instructions, among them the phi nodes that the addresses point at.
  pub record HasNodes (words : List ℕ) (nodes : List ℕ) : Type 0 where
    pub pieces : List Piece
    pub back : List ℕ
    pub splits : words ≡ piece_words (p.op_code Op.op_phi) pieces ++ back
    pub point : nodes ≡ places 0 pieces
    pub short : All IsShortPhi pieces
    pub whole : All (λ x. IsCode x.before) pieces
    pub whole_back : IsCode back

  piece_words-IsCode :
      (xs : List Piece)
      → All IsShortPhi xs
      → All (λ x. IsCode x.before) xs
      → IsCode (piece_words (p.op_code Op.op_phi) xs)
  piece_words-IsCode [] h k = ([], refl, tt)
  piece_words-IsCode (x ∷ xs) (hx, h) (kx, k) = IsCode-append x.before _ kx (
      IsCode-append _ (piece_words (p.op_code Op.op_phi) xs) (phi-IsCode x hx)
        (piece_words-IsCode xs h k))

  pub HasNodes-IsCode : (words nodes : List ℕ) → HasNodes words nodes → IsCode words
  HasNodes-IsCode words nodes n =
      subst IsCode (sym n.splits)
        (IsCode-append _ n.back (piece_words-IsCode n.pieces n.short n.whole) n.whole_back)

  -- Instructions are appended.
  pub HasNodes-append :
      (words nodes more : List ℕ)
      → HasNodes words nodes
      → IsCode more
      → HasNodes (words ++ more) nodes
  HasNodes-append words nodes more n c = record {
    pieces = n.pieces;
    back = n.back ++ more;
    splits = ap (λ l. l ++ more) n.splits ∙ append_assoc _ n.back more;
    point = n.point;
    short = n.short;
    whole = n.whole;
    whole_back = IsCode-append n.back more n.whole_back c;
  }

  -- A deferred phi is appended, and its place noted.
  pub HasNodes-defer :
      (words nodes : List ℕ) (t i : ℕ) (pairs : List (ℕ × ℕ))
      → HasNodes words nodes
      → 3 + 2 * length pairs < 2 ^ 16
      → HasNodes (words ++ phi_words (p.op_code Op.op_phi) t i pairs) (nodes ++ (length words ∷ []))
  HasNodes-defer words nodes t i pairs n h = record {
    pieces = n.pieces ++ (x ∷ []);
    back = [];
    splits =
        ap (λ l. l ++ phi) n.splits
        ∙ append_assoc _ n.back phi
        ∙ ap (λ l. piece_words op n.pieces ++ (n.back ++ l)) (sym (append-nil phi))
        ∙ sym (piece_words-append op n.pieces (x ∷ []))
        ∙ sym (append-nil _);
    point =
        ap (λ l. l ++ (length words ∷ [])) n.point
        ∙ ap (λ k. places 0 n.pieces ++ (k ∷ []))
            {y = 0 + length (piece_words op n.pieces) + length n.back}
            (omega (arith, ap length n.splits, length-append (piece_words op n.pieces) n.back))
        ∙ sym (places-append op 0 n.pieces (x ∷ []));
    short = All-append IsShortPhi n.pieces (x ∷ []) n.short (h, tt);
    whole = All-append (λ x. IsCode x.before) n.pieces (x ∷ []) n.whole (n.whole_back, tt);
    whole_back = ([], refl, tt);
  }
    where
      op : ℕ
      op = p.op_code Op.op_phi

      x : Piece
      x = record { before = n.back; result_type = t; id = i; pairs = pairs }

      phi : List ℕ
      phi = phi_words op t i pairs
