-- ===== src/Emission/Length.antt =====
-- The word count that `EndOp` writes, for instructions of any length.
use sirit.Base.{
  ℕ, suc, ◌+◌, ◌*◌, ◌/◌, ◌%◌, ◌^◌, ◌≤◌, ◌<◌, ◌≡◌, ap, ◌∙◌, true, List, ◌∷◌, ◌++◌, arith, length,
  bit_or, bit_or-shift, ok,
}
use sirit.Spirv.{Platform}
use sirit.Stream.{Stream, contents}
use sirit.Stream.Heads.{head_op, head_bound, header}
use sirit.Emission.{Emission, emit}
use sirit.Emission.Exact.{accepted, word_count}
use sirit.Emission.Size.{written, word_count-written}
use sirit.Emission.Runs.{IsInside, emit_runs}

header_any : (op n : ℕ) → op < 2 ^ 16 → header op n ≡ op + n % 2 ^ 16 * 2 ^ 16
header_any op n h =
    ap (bit_or op) {y = n % 2 ^ 16 * 2 ^ 16} (omega arith) ∙ bit_or-shift 16 op (n % 2 ^ 16) h

module _ ⦃p : Platform⦄ where
  -- What a method leaves that is longer than the count in the first word can say.
  pub record Cut (e : Emission) (bound : ℕ) (s : Stream) (s' : Stream) : Type 0 where
    pub first : ℕ
    pub others : List ℕ
    pub runs :
        emit e bound s
        ≡ ok (record { value = head_bound e.head bound }, head_bound e.head bound, s')
    pub appends : contents s' ≡ contents s ++ (first ∷ others)
    pub count : first / 2 ^ 16 ≡ suc (length others) % 2 ^ 16
    pub opcode : first % 2 ^ 16 ≡ p.op_code (head_op e.head)
    pub wrong : first / 2 ^ 16 < suc (length others)

  -- A method that writes 2 ^ 16 words or more, its `assert`s holding and its reservation enough,
  -- runs on every stream, and the word count in its first word is the number of its words modulo
  -- 2 ^ 16: the instruction is longer than it says.
  pub emit-Cut :
      (e : Emission) (bound : ℕ) (s : Stream)
      → written e ≤ e.num_words
      → accepted e ≡ true
      → IsInside s
      → 2 ^ 16 ≤ written e
      → (s' : Stream) × Cut e bound s s'
  emit-Cut e bound s enough h inside long =
      let (s', w) = emit_runs e bound s enough h inside in
      let n = word_count e bound in
      let same = header_any (p.op_code (head_op e.head)) n (p.op_code-lt (head_op e.head)) in
      let small = p.op_code-lt (head_op e.head) in
      (
        s',
        record {
          first = header (p.op_code (head_op e.head)) n;
          others = _;
          runs = w.runs;
          appends = w.appends;
          count = omega (arith, same, small);
          opcode = omega (arith, same, small);
          wrong = omega (arith, same, small, long, word_count-written e bound);
        },
      )
