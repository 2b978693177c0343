-- ===== src/Module/Phi/Patch.antt =====
-- Patching a deferred phi fills its operands in, and leaves all else.
use sirit.Base.{
  ℕ, suc, ◌+◌, ◌-◌, ◌*◌, ◌/◌, ◌%◌, ◌^◌, ◌<◌, bit_and, bit_and-0xffff, ◌≡◌, refl, sym, ap, ◌∙◌, true,
  List, [], ◌∷◌, ◌++◌, append_assoc, arith, length, ◌==◌, ==-self, length-append, ok, ◌>>=◌, ◌>>◌,
  assert,
}
use sirit.Spirv.{Op, Platform}
use sirit.Stream.{SpvId, Stream}
use sirit.Stream.Heads.{header}
use sirit.Emission.Exact.{header_fields}
use sirit.Stream.Words.{set_value_lem, get_value_lem}
use sirit.Module.Phi.{patch_args, patch_node}

-- The words of a phi's operands: a value and its block.
abbrev pub pair_words : List (ℕ × ℕ) → List ℕ
pair_words [] = []
pair_words ((v, b) ∷ ps) = v ∷ b ∷ pair_words ps

pub length-pair_words : (ps : List (ℕ × ℕ)) → length (pair_words ps) ≡ 2 * length ps
length-pair_words [] = refl
length-pair_words ((v, b) ∷ ps) = omega (arith, length-pair_words ps)

-- The stream with other words.
abbrev pub with_words : Stream → List ℕ → Stream
with_words s l = record s { words = l }

module _ {S : Type 0} (func : ℕ → S → SpvId × S) where
  -- The values that the callback gives from the argument `arg` on, and its last state.
  abbrev pub fill : ℕ → S → List (ℕ × ℕ) → S × List (ℕ × ℕ)
  fill arg st [] = (st, [])
  fill arg st ((v, b) ∷ ps) =
      let (i, st') = func arg st in
      let (st'', rest) = fill (arg + 1) st' ps in (st'', (i.value, b) ∷ rest)

  pub length-fill : (ps : List (ℕ × ℕ)) (arg : ℕ) (st : S) → length (fill arg st ps).1 ≡ length ps
  length-fill [] arg st = refl
  length-fill ((v, b) ∷ ps) arg st = ap suc (length-fill ps (arg + 1) (func arg st).1)

  patch_args_lem :
      (ps : List (ℕ × ℕ)) (arg cursor : ℕ) (st : S) (pre back : List ℕ) (s : Stream)
      → cursor ≡ length pre + 0
      → length pre + 2 * length ps < 2 ^ 32
      → patch_args func (length ps) arg cursor st (with_words s (pre ++ (pair_words ps ++ back)))
        ≡ ok ((fill arg st ps).0, with_words s (pre ++ (pair_words (fill arg st ps).1 ++ back)))
  unfolding patch_args
  patch_args_lem [] arg cursor st pre back s h small = refl
  patch_args_lem ((v, b) ∷ ps) arg cursor st pre back s h small =
      let (i, st') = func arg st in
      let (st'', rest) = fill (arg + 1) st' ps in
      ap (λ m. m >>= λ s'. patch_args func (length ps) (arg + 1) ((cursor + 2) % 2 ^ 32) st' s')
        (set_value_lem _ pre _ v i.value s.insert_index s.op_index cursor refl h)
      ∙ ap (λ l. patch_args func (length ps) (arg + 1) ((cursor + 2) % 2 ^ 32) st' (with_words s l))
          (sym (append_assoc pre (i.value ∷ b ∷ []) (pair_words ps ++ back)))
      ∙ patch_args_lem ps (arg + 1) ((cursor + 2) % 2 ^ 32) st' (pre ++ (i.value ∷ b ∷ [])) back s
          (omega (arith, length-append pre (i.value ∷ b ∷ [])))
          (omega (arith, length-append pre (i.value ∷ b ∷ [])))
      ∙ ap (λ l. ok (st'', with_words s l))
          (append_assoc pre (i.value ∷ b ∷ []) (pair_words rest ++ back))

-- The words of a phi before and after.
abbrev pub phi_words : ℕ → ℕ → ℕ → List (ℕ × ℕ) → List ℕ
phi_words op result_type id ps = header op (3 + 2 * length ps) ∷ result_type ∷ id ∷ pair_words ps

module _ ⦃p : Platform⦄ {S : Type 0} (func : ℕ → S → SpvId × S) where
  -- A node that points at a phi has its values filled in by the callback, in order; its blocks, and
  -- the words before and behind it, stay. The phi is not too long for its header, and ends below 2
  -- ^ 32.
  pub patch_node_lem :
      (ps : List (ℕ × ℕ)) (st : S) (pre back : List ℕ) (t r : ℕ) (s : Stream)
      → 3 + 2 * length ps < 2 ^ 16
      → length pre + (3 + 2 * length ps) < 2 ^ 32
      → patch_node func
          (length pre)
          st
          (with_words s (pre ++ (phi_words (p.op_code Op.op_phi) t r ps ++ back)))
        ≡ ok (
          (fill func 0 st ps).0,
          with_words s (pre ++ (phi_words (p.op_code Op.op_phi) t r (fill func 0 st ps).1 ++ back)),
        )
  unfolding patch_node
  patch_node_lem ps st pre back t r s small fits =
      ap
        (λ m. m >>= λ w.
          assert (bit_and w 0xffff == p.op_code Op.op_phi)
          >> patch_args func ((w / 2 ^ 16 + 2 ^ 32 - 3) % 2 ^ 32 / 2) 0 cursor st before)
        (get_value_lem _ pre _ w s.insert_index s.op_index (length pre) refl (omega arith))
      ∙ ap
          (λ b.
            assert b >> patch_args func ((w / 2 ^ 16 + 2 ^ 32 - 3) % 2 ^ 32 / 2) 0 cursor st before)
          is_phi
      ∙ ap (λ n. patch_args func n 0 cursor st before) count
      ∙ ap (λ l. patch_args func (length ps) 0 cursor st (with_words s l))
          (sym (append_assoc pre front (pair_words ps ++ back)))
      ∙ patch_args_lem func ps 0 cursor st (pre ++ front) back s
          (omega (arith, length-append pre front)) (omega (arith, length-append pre front))
      ∙ ap (λ l. ok ((fill func 0 st ps).0, with_words s l))
          (append_assoc pre front (pair_words (fill func 0 st ps).1 ++ back))
      ∙ ap
          (λ n. ok (
            (fill func 0 st ps).0,
            with_words s (
                pre
                ++ (header op (3 + 2 * n) ∷ t ∷ r ∷ (pair_words (fill func 0 st ps).1 ++ back))),
          ))
          (sym (length-fill func ps 0 st))
    where
      op : ℕ
      op = p.op_code Op.op_phi

      w : ℕ
      w = header op (3 + 2 * length ps)

      cursor : ℕ
      cursor = (length pre + 3) % 2 ^ 32

      front : List ℕ
      front = w ∷ t ∷ r ∷ []

      before : Stream
      before = with_words s (pre ++ (phi_words op t r ps ++ back))

      value : w ≡ op + (3 + 2 * length ps) * 2 ^ 16
      value = header_fields op (3 + 2 * length ps) (p.op_code-lt _) small

      is_phi : (bit_and w 0xffff == p.op_code Op.op_phi) ≡ true
      is_phi =
          ap (λ k. k == op) {y = op}
            (bit_and-0xffff w ∙ ap (λ k. k % 2 ^ 16) value ∙ omega (arith, p.op_code-lt Op.op_phi))
          ∙ ==-self op

      count : (w / 2 ^ 16 + 2 ^ 32 - 3) % 2 ^ 32 / 2 ≡ length ps
      count =
          ap (λ k. (k / 2 ^ 16 + 2 ^ 32 - 3) % 2 ^ 32 / 2) value
          ∙ omega (arith, p.op_code-lt Op.op_phi)
