-- ===== src/Stream/Chain.antt =====
-- A whole chain `<< head << operands…`: one run of words, whatever follows it.
use sirit.Base.{ℕ, ◌≡◌, sym, ap, ◌∙◌, true, List, ◌∷◌, ◌++◌, Outcome, ok, fault, ◌>>=◌}
use sirit.Spirv.{Platform}
use sirit.Stream.{Operand, Head, Stream, put_head, put_all}
use sirit.Stream.Words.{push_words, push_words-append}
use sirit.Stream.Operands.{all_valid, operands_words, put_all-words}
use sirit.Stream.Heads.{head_bound, head_words, valid_head, head_op, put_head-words}

module _ ⦃p : Platform⦄ where
  abbrev pub raw_words : Head → List Operand → ℕ → List ℕ
  raw_words h os bound = p.op_code (head_op h) ∷ (head_words h bound ++ operands_words os)

  module _ {ℓ} {B : Type ℓ} (os : List Operand) (bound : ℕ) (k : ℕ → Stream → Outcome B) where
    rest : ℕ × Stream → Outcome B
    rest r = put_all os r.1 >>= k r.0

    operands_after :
        (o : Outcome Stream)
        → all_valid os ≡ true
        → ((o >>= λ s. ok (bound, s)) >>= rest)
          ≡ ((o >>= push_words (operands_words os)) >>= k bound)
    unfolding rest
    operands_after (ok t) h = ap (λ m. m >>= k bound) (put_all-words os t h)
    operands_after (fault x) h = λ i. fault x

  pub put_chain-push_words {ℓ} :
      {B : Type ℓ} (h : Head) (os : List Operand) (bound : ℕ) (s : Stream)
      (k : ℕ → Stream → Outcome B)
      → valid_head h ≡ true
      → all_valid os ≡ true
      → (put_head h bound s >>= λ (r : ℕ × Stream). put_all os r.1 >>= k r.0) ≡ (
          push_words (raw_words h os bound) (record s { op_index = s.insert_index })
          >>= k (head_bound h bound))
  unfolding rest
  put_chain-push_words h os bound s k hh ho =
      ap (λ m. m >>= rest os (head_bound h bound) k) (put_head-words h bound s hh)
      ∙ operands_after os (head_bound h bound) k
          (push_words (p.op_code (head_op h) ∷ head_words h bound)
            (record s { op_index = s.insert_index }))
          ho
      ∙ ap (λ m. m >>= k (head_bound h bound))
          (sym
            (push_words-append (p.op_code (head_op h) ∷ head_words h bound) (operands_words os) _))
