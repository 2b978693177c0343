-- ===== src/Emission/Exact.antt =====
-- What an emission does on every stream: with enough room it appends one instruction, whose first
-- word holds its opcode and its length, and without it writes outside of the vector.
use sirit.Base.{
  ℕ, suc, ◌+◌, ◌*◌, ◌^◌, ◌≤◌, ◌<◌, ◌≡◌, ap, ◌∙◌, Bool, true, ◌&&◌, &&-split, List, ◌∷◌, ◌++◌, arith,
  length, drop, bit_or, bit_or-shift, Outcome, ok, fault, out_of_bounds, ◌>>=◌,
}
use sirit.Spirv.{Platform}
use sirit.Stream.{SpvId, Stream, end_op}
use sirit.Stream.Words.{at, push_words, push_words-at, push_words_overflow, pad, reserve-at}
use sirit.Stream.Operands.{all_valid, operands_words}
use sirit.Stream.Heads.{head_bound, head_words, valid_head, head_op, header, end_op-at}
use sirit.Stream.Chain.{raw_words, put_chain-push_words}
use sirit.Emission.{Emission, emit}

-- Every `assert` on the way holds.
abbrev pub accepted : Emission → Bool
accepted e = e.asserts && (valid_head e.head && all_valid e.operands)

module _ ⦃p : Platform⦄ where
  -- The words after the first.
  abbrev tail_words : Emission → ℕ → List ℕ
  tail_words e bound = head_words e.head bound ++ operands_words e.operands

  abbrev pub word_count : Emission → ℕ → ℕ
  word_count e bound = suc (length (tail_words e bound))

  abbrev pub instruction : Emission → ℕ → List ℕ
  instruction e bound =
      header (p.op_code (head_op e.head)) (word_count e bound) ∷ tail_words e bound

  -- what follows the writing of the words
  abbrev finish : ℕ → Stream → Outcome (SpvId × ℕ × Stream)
  finish bound s = end_op s >>= λ s'. ok (record { value = bound }, bound, s')

  emit-push_words :
      (e : Emission) (bound : ℕ) (front room : List ℕ) (op : ℕ)
      → accepted e ≡ true
      → emit e bound (at front room op) ≡ (
          push_words
            (raw_words e.head e.operands bound)
            (at front (pad e.num_words room) (length front))
          >>= finish (head_bound e.head bound))
  unfolding emit
  emit-push_words e bound front room op h =
      let (ha, hr) = &&-split e.asserts (valid_head e.head && all_valid e.operands) h in
      let (hh, ho) = &&-split (valid_head e.head) (all_valid e.operands) hr in
      rw (ha, reserve-at) (put_chain-push_words e.head e.operands bound _ finish hh ho)

  -- With room for as many words as the chain writes, reserved or left over from before, a method
  -- whose `assert`s hold appends its instruction to the stream and returns the id that is now
  -- `*bound`. The room beyond the instruction stays behind the cursor.
  pub emit_fits :
      (e : Emission) (bound : ℕ) (front room : List ℕ) (op : ℕ)
      → accepted e ≡ true
      → word_count e bound ≤ length (pad e.num_words room)
      → emit e bound (at front room op)
        ≡ ok (
          record { value = head_bound e.head bound },
          head_bound e.head bound,
          at
              (front ++ instruction e bound)
              (drop (word_count e bound) (pad e.num_words room))
              (length front),
        )
  emit_fits e bound front room op h fits =
      emit-push_words e bound front room op h
      ∙ ap (λ m. m >>= finish (head_bound e.head bound))
          (push_words-at (p.op_code (head_op e.head) ∷ tail_words e bound) front
            (pad e.num_words room) (length front) fits)
      ∙ ap
          (λ m. m >>= λ s'.
            ok (record { value = head_bound e.head bound }, head_bound e.head bound, s'))
          (end_op-at front (tail_words e bound) (drop (word_count e bound) (pad e.num_words room))
            (p.op_code (head_op e.head)))

  -- With less room than the chain writes words, reserved or left over, a method whose `assert`s
  -- hold writes out of the vector's bounds.
  pub emit_overflow :
      (e : Emission) (bound : ℕ) (front room : List ℕ) (op : ℕ)
      → accepted e ≡ true
      → length (pad e.num_words room) < word_count e bound
      → emit e bound (at front room op) ≡ fault out_of_bounds
  emit_overflow e bound front room op h short =
      emit-push_words e bound front room op h
      ∙ ap (λ m. m >>= finish (head_bound e.head bound))
          (push_words_overflow (p.op_code (head_op e.head) ∷ tail_words e bound) front
            (pad e.num_words room) (length front) short)

-- The first word of an instruction, as `op & 0xffff` and `word >> 16` read it.
pub header_fields : (op n : ℕ) → op < 2 ^ 16 → n < 2 ^ 16 → header op n ≡ op + n * 2 ^ 16
header_fields op n ho hn = ap (bit_or op) {y = n * 2 ^ 16} (omega arith) ∙ bit_or-shift 16 op n ho
