-- ===== src/Stream/Heads.antt =====
-- The first words of an instruction, and `EndOp`, which completes the very first.
use mathlib.Core.Path.{fun_ext}
use sirit.Base.{
  ℕ, suc, ◌+◌, ◌-◌, ◌*◌, ◌%◌, ◌^◌, bit_or, ◌≡◌, sym, ap, ◌∙◌, Bool, true, List, [], ◌∷◌, ◌++◌,
  arith, append_assoc, length, length-append, get_or-append, set-append, ok, ◌>>=◌, ◌>>◌, >>=_assoc,
  assert, lt→ltb,
}
use sirit.Spirv.{Op, Platform}
use sirit.Stream.{valid_id, Head, plain, with_id, with_type, Stream, push_word, put_head, end_op}
use sirit.Stream.Words.{at, push_words}

-- `*bound` after the head: `OpId` takes the next id.
abbrev pub head_bound : Head → ℕ → ℕ
head_bound (plain op) bound = bound
head_bound (with_id op) bound = (bound + 1) % 2 ^ 32
head_bound (with_type op t) bound = (bound + 1) % 2 ^ 32

-- The words of the head after the first.
abbrev pub head_words : Head → ℕ → List ℕ
head_words (plain op) bound = []
head_words (with_id op) bound = ((bound + 1) % 2 ^ 32) ∷ []
head_words (with_type op t) bound = t.value ∷ ((bound + 1) % 2 ^ 32) ∷ []

abbrev pub valid_head : Head → Bool
valid_head (with_type op t) = valid_id t
valid_head _ = true

abbrev pub head_op : Head → Op
head_op (plain op) = op
head_op (with_id op) = op
head_op (with_type op t) = op

-- The first word of an instruction of `n` words.
abbrev pub header : ℕ → ℕ → ℕ
header op n = bit_or op (n % 2 ^ 32 * 2 ^ 16 % 2 ^ 32)

abbrev begin : Stream → Stream
begin s = record s { op_index = s.insert_index }

module _ ⦃p : Platform⦄ where
  pub put_head-words :
      (h : Head) (bound : ℕ) (s : Stream)
      → valid_head h ≡ true
      → put_head h bound s ≡ (
          push_words
            (p.op_code (head_op h) ∷ head_words h bound)
            (record s { op_index = s.insert_index })
          >>= λ s'. ok (head_bound h bound, s'))
  unfolding put_head push_words
  put_head-words (plain op) bound s h = sym (>>=_assoc (push_word (p.op_code op) (begin s)) ok _)
  put_head-words (with_id op) bound s h = sym (
      >>=_assoc (push_word (p.op_code op) (begin s)) _ _
      ∙ ap (λ f. push_word (p.op_code op) (begin s) >>= f)
          (fun_ext (λ t. >>=_assoc (push_word ((bound + 1) % 2 ^ 32) t) ok _)))
  put_head-words (with_type op t) bound s h =
      ap
        (λ b.
          assert b
          >> (push_word (p.op_code op) (begin s) >>= λ s'. push_word t.value s' >>= λ s''.
              push_word ((bound + 1) % 2 ^ 32) s'' >>= λ s3. ok ((bound + 1) % 2 ^ 32, s3)))
        h
      ∙ sym (
          >>=_assoc (push_word (p.op_code op) (begin s)) _ _
          ∙ ap (λ f. push_word (p.op_code op) (begin s) >>= f)
              (fun_ext (λ s'.
                >>=_assoc (push_word t.value s') _ _
                ∙ ap (λ f. push_word t.value s' >>= f)
                    (fun_ext (λ s''. >>=_assoc (push_word ((bound + 1) % 2 ^ 32) s'') ok _)))))

end_op_lem :
    (words front back : List ℕ) (w i o n : ℕ)
    → words ≡ front ++ (w ∷ back)
    → o ≡ length front + 0
    → i - o ≡ n
    → end_op (record { words = words; insert_index = i; op_index = o })
      ≡ ok (record { words = front ++ (header w n ∷ back); insert_index = i; op_index = o })
unfolding end_op
end_op_lem words front back w i o n e h k = rw (
  lt→ltb o (length words) (omega (arith, ap length e, length-append front (w ∷ back))),
  k,
  h,
  e,
  get_or-append front (w ∷ back) 0 0,
  set-append front (w ∷ back) 0 (header w n),
)

pub end_op-at :
    (front ws room : List ℕ) (w : ℕ)
    → end_op (at (front ++ (w ∷ ws)) room (length front))
      ≡ ok (at (front ++ (header w (suc (length ws)) ∷ ws)) room (length front))
end_op-at front ws room w =
    end_op_lem _ front (ws ++ room) w _ _ (suc (length ws)) (append_assoc front (w ∷ ws) room)
      (omega arith) (omega (arith, length-append front (w ∷ ws)))
    ∙ λ i. ok (record {
      words = sym (append_assoc front (header w (suc (length ws)) ∷ ws) room) i;
      insert_index = len i;
      op_index = length front;
    })
  where
    len : length (front ++ (w ∷ ws)) ≡ length (front ++ (header w (suc (length ws)) ∷ ws))
    len =
        omega (
          arith,
          length-append front (w ∷ ws),
          length-append front (header w (suc (length ws)) ∷ ws),
        )
