-- ===== src/Module/Phi/Pieces.antt =====
-- A code with phi nodes in pieces: pieces are appended, and patching fills them.
use sirit.Base.{
  ℕ, ◌+◌, ◌*◌, ◌≡◌, refl, sym, ap, ◌∙◌, List, [], ◌∷◌, ◌++◌, append_assoc, arith, length,
  length-append, All,
}
use sirit.Stream.{SpvId}
use sirit.Module.Phi.Patch.{fill, length-fill, length-pair_words, phi_words}
use sirit.Module.Phi.Several.{Piece, piece_words, places, IsShortPhi, fill_pieces}

pub piece_words-append :
    (op : ℕ) (xs ys : List Piece)
    → piece_words op (xs ++ ys) ≡ piece_words op xs ++ piece_words op ys
piece_words-append op [] ys = refl
piece_words-append op (x ∷ xs) ys =
    ap (λ l. x.before ++ (phi_words op x.result_type x.id x.pairs ++ l))
      (piece_words-append op xs ys)
    ∙ ap (λ l. x.before ++ l)
        (sym (append_assoc (phi_words op x.result_type x.id x.pairs) (piece_words op xs) _))
    ∙ sym (append_assoc x.before _ _)

pub places-append :
    (op start : ℕ) (xs ys : List Piece)
    → places start (xs ++ ys) ≡ places start xs ++ places (start + length (piece_words op xs)) ys
places-append op start [] ys = ap (λ k. places k ys) {y = start + 0} (omega arith)
places-append op start (x ∷ xs) ys =
    let behind = start + length x.before + (3 + 2 * length x.pairs) in
    ap (λ l. (start + length x.before) ∷ l)
      (places-append op behind xs ys
        ∙ ap (λ k. places behind xs ++ places k ys) {x = behind + length (piece_words op xs)}
            {y = start + length (piece_words op (x ∷ xs))}
            (omega (
              arith,
              length-append x.before (phi_words op x.result_type x.id x.pairs ++ piece_words op xs),
              length-append (phi_words op x.result_type x.id x.pairs) (piece_words op xs),
              length-pair_words x.pairs,
            )))

module _ {S : Type 0} (func : ℕ → S → SpvId × S) where
  -- Patching keeps the places, and what is known of the pieces.
  pub places-fill_pieces :
      (start : ℕ) (st : S) (xs : List Piece)
      → places start (fill_pieces func st xs).1 ≡ places start xs
  places-fill_pieces start st [] = refl
  places-fill_pieces start st (x ∷ xs) =
      let (st', ps) = fill func 0 st x.pairs in
      ap (λ l. (start + length x.before) ∷ l)
        (ap (λ n. places (start + length x.before + (3 + 2 * n)) (fill_pieces func st' xs).1)
            (length-fill func x.pairs 0 st)
          ∙ places-fill_pieces (start + length x.before + (3 + 2 * length x.pairs)) st' xs)

  pub fill_pieces-All :
      (P : List ℕ → Type 0) (st : S) (xs : List Piece)
      → All IsShortPhi xs
      → All (λ x. P x.before) xs
      → All IsShortPhi (fill_pieces func st xs).1 × All (λ x. P x.before) (fill_pieces func st xs).1
  fill_pieces-All P st [] h k = (tt, tt)
  fill_pieces-All P st (x ∷ xs) (hx, h) (kx, k) =
      let (h', k') = fill_pieces-All P (fill func 0 st x.pairs).0 xs h k in
      ((omega (arith, length-fill func x.pairs 0 st), h'), (kx, k'))

  pub length-fill_pieces :
      (op : ℕ) (st : S) (xs : List Piece)
      → length (piece_words op (fill_pieces func st xs).1) ≡ length (piece_words op xs)
  length-fill_pieces op st [] = refl
  length-fill_pieces op st (x ∷ xs) =
      let (st', ps) = fill func 0 st x.pairs in
      omega (
        arith,
        length-append x.before (phi_words op x.result_type x.id x.pairs ++ piece_words op xs),
        length-append (phi_words op x.result_type x.id x.pairs) (piece_words op xs),
        length-append x.before
            (phi_words op x.result_type x.id ps ++ piece_words op (fill_pieces func st' xs).1),
        length-append (phi_words op x.result_type x.id ps)
            (piece_words op (fill_pieces func st' xs).1),
        length-pair_words x.pairs,
        length-pair_words ps,
        length-fill func x.pairs 0 st,
        length-fill_pieces op st' xs,
      )
