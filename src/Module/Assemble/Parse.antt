-- ===== src/Module/Assemble/Parse.antt =====
-- `ParseInstructions` of tests/main.cpp, which reads a module back into its instructions.
use mathlib.Core.List.{map}
use mathlib.Core.Path.{ap₂}
use sirit.Base.{
  ℕ, zero, suc, ◌+◌, ◌/◌, ◌^◌, ◌≤◌, bit_and, ◌≡◌, refl, sym, ap, ◌∙◌, false, ◌||◌, List, [], ◌∷◌,
  ◌++◌, append_assoc, arith, ltb, ◌==◌, inl, inr, Bool-cases, if◌then◌else◌, length, get_or, take,
  drop, concat, All, length-append, get_or-append, drop-append, take-append, Outcome, ok, fault,
  out_of_bounds, ◌>>=◌, ◌<◌, lt→ltb, ge→ltb,
}

-- A pointer to the words is modelled by the `word_count` words that it leads to.
pub record Instruction : Type 0 where
  pub opcode : ℕ
  pub word_count : ℕ
  pub words : List ℕ

-- `code[i]`
abbrev pub word_at : List ℕ → ℕ → Outcome ℕ
word_at code i = if ltb i (length code) then ok (get_or code i 0) else fault out_of_bounds

-- a round of the loop, after its first word is read
abbrev parse_round : (ℕ → Outcome (List Instruction)) → List ℕ → ℕ → ℕ → Outcome (List Instruction)
parse_round next code i header =
    let wc = header / 2 ^ 16 in
    if wc == 0 || ltb (length code) (i + wc)
    then ok []
    else (next (i + wc) >>= λ out. ok (
        record { opcode = bit_and header 0xffff; word_count = wc; words = take wc (drop i code) }
        ∷ out))

-- the loop from the word at `i` on
unfoldable pub parse_loop : ℕ → List ℕ → ℕ → Outcome (List Instruction)
parse_loop zero code i = ok []
parse_loop (suc fuel) code i =
    let next = parse_loop fuel code in
    if ltb i (length code) then (word_at code i >>= parse_round next code i) else ok []

-- Every round takes a word at least, so as many rounds as there are words are enough.
unfoldable pub parse_instructions : List ℕ → Outcome (List Instruction)
unfolding parse_loop
parse_instructions code = if ltb (length code) 5 then ok [] else parse_loop (length code) code 5

-- The words of one instruction: the upper half of the first says how many there are.
abbrev pub IsInstruction : List ℕ → Type 0
IsInstruction [] = ⊥
IsInstruction (w ∷ ws) = w / 2 ^ 16 ≡ suc (length ws)

-- What the parser makes of them.
abbrev pub parsed : List ℕ → Instruction
parsed ws = record { opcode = bit_and (get_or ws 0 0) 0xffff; word_count = length ws; words = ws }

pub loop_end : (fuel : ℕ) (code : List ℕ) (i : ℕ) → length code ≤ i → parse_loop fuel code i ≡ ok []
unfolding parse_loop
loop_end zero code i h = refl
loop_end (suc fuel) code i h = rw (ge→ltb i (length code) h)

-- Within the vector the first word of a round is read.
pub loop_inside :
    (fuel : ℕ) (code : List ℕ) (i : ℕ)
    → i < length code
    → parse_loop (suc fuel) code i ≡ parse_round (parse_loop fuel code) code i (get_or code i 0)
unfolding parse_loop
loop_inside fuel code i h = rw (lt→ltb i (length code) h)

-- A round goes on from the next instruction only.
parse_round-cong :
    (f g : ℕ → Outcome (List Instruction)) (code : List ℕ) (i header : ℕ)
    → ((header / 2 ^ 16 == 0 || ltb (length code) (i + header / 2 ^ 16)) ≡ false
        → f (i + header / 2 ^ 16) ≡ g (i + header / 2 ^ 16))
    → parse_round f code i header ≡ parse_round g code i header
parse_round-cong f g code i header h =
    elim (Bool-cases (header / 2 ^ 16 == 0 || ltb (length code) (i + header / 2 ^ 16))) [
      | inl stop ↦ rw stop refl
      | inr round ↦ rw round (
          ap
            (λ o. o >>= λ out. ok (
              record {
                opcode = bit_and header 0xffff;
                word_count = header / 2 ^ 16;
                words = take (header / 2 ^ 16) (drop i code);
              }
              ∷ out))
            (h round))
    ]

-- The parser's loop ends on all words: as many rounds as there are words left are enough, and with
-- more it returns the same instructions.
pub parse_loop_enough :
    (fuel fuel' : ℕ) (code : List ℕ) (i : ℕ)
    → length code ≤ i + fuel
    → length code ≤ i + fuel'
    → parse_loop fuel code i ≡ parse_loop fuel' code i
parse_loop_enough zero fuel' code i h h' =
    loop_end zero code i (omega arith) ∙ sym (loop_end fuel' code i (omega arith))
parse_loop_enough (suc fuel) zero code i h h' =
    loop_end (suc fuel) code i (omega arith) ∙ sym (loop_end zero code i (omega arith))
parse_loop_enough (suc fuel) (suc fuel') code i h h' = elim (Bool-cases (ltb i (length code))) [
  | inr out ↦
      loop_end (suc fuel) code i (ground (arith, out))
      ∙ sym (loop_end (suc fuel') code i (ground (arith, out)))
  | inl within ↦
      loop_inside fuel code i (ground (arith, within))
      ∙ parse_round-cong (parse_loop fuel code) (parse_loop fuel' code) code i (get_or code i 0)
          (λ round.
            parse_loop_enough fuel fuel' code _ (ground (arith, round)) (ground (arith, round)))
      ∙ sym (loop_inside fuel' code i (ground (arith, within)))
]

loop_round :
    (fuel : ℕ) (code : List ℕ) (i w n : ℕ)
    → get_or code i 0 ≡ w
    → w / 2 ^ 16 ≡ suc n
    → i + suc n ≤ length code
    → parse_loop (suc fuel) code i ≡ (
        parse_loop fuel code (i + suc n) >>= λ out. ok (
          record {
            opcode = bit_and w 0xffff;
            word_count = suc n;
            words = take (suc n) (drop i code);
          }
          ∷ out))
loop_round fuel code i w n e k h = loop_inside fuel code i (omega arith) ∙ rw (e, k, on) refl
  where
    on : (suc n == 0 || ltb (length code) (i + suc n)) ≡ false
    on = ground arith

parse_loop-concat :
    (ws : List (List ℕ)) (fuel : ℕ) (code pre : List ℕ) (i : ℕ)
    → code ≡ pre ++ concat ws
    → i ≡ length pre + 0
    → length (concat ws) ≤ fuel
    → All IsInstruction ws
    → parse_loop fuel code i ≡ ok (map parsed ws)
parse_loop-concat [] fuel code pre i e h le a =
    loop_end fuel code i (omega (arith, ap length e, length-append pre []))
parse_loop-concat ([] ∷ ws) fuel code pre i e h le (a, _) = absurd a
parse_loop-concat ((w ∷ r) ∷ ws) zero code pre i e h le (a, rest_ok) = absurd (omega arith)
parse_loop-concat ((w ∷ r) ∷ ws) (suc fuel) code pre i e h le (a, rest_ok) =
    loop_round fuel code i w (length r) (ap₂ (λ c k. get_or c k 0) e h ∙ get_or-append pre _ 0 0) a
      (omega
        (arith, ap length e, length-append pre (w ∷ (r ++ concat ws)), length-append r (concat ws)))
    ∙ ap₂
        (λ (t : List ℕ) (o : Outcome (List Instruction)). o >>= λ out.
          ok (record { opcode = bit_and w 0xffff; word_count = suc (length r); words = t } ∷ out))
        here
        (parse_loop-concat ws fuel code (pre ++ (w ∷ r)) (i + suc (length r))
          (e ∙ sym (append_assoc pre (w ∷ r) (concat ws)))
          (omega (arith, length-append pre (w ∷ r))) (omega (arith, length-append r (concat ws)))
          rest_ok)
  where
    at_seam : i ≡ length pre
    at_seam = omega arith

    here : take (suc (length r)) (drop i code) ≡ w ∷ r
    here =
        ap₂ (λ c k. take (suc (length r)) (drop k c)) e at_seam
        ∙ ap (take (suc (length r))) (drop-append pre (w ∷ (r ++ concat ws)))
        ∙ take-append (w ∷ r) (concat ws)

-- After five words of any kind the parser finds exactly the instructions that follow, if each has
-- its length in its first word.
pub parse_instructions-concat :
    (head : List ℕ) (ws : List (List ℕ))
    → length head ≡ 5
    → All IsInstruction ws
    → parse_instructions (head ++ concat ws) ≡ ok (map parsed ws)
unfolding parse_instructions
parse_instructions-concat head ws h a = rw (not_short) (
    parse_loop-concat ws (length (head ++ concat ws)) _ head 5 refl (omega arith)
      (omega (arith, size)) a)
  where
    size : length (head ++ concat ws) ≡ length head + length (concat ws)
    size = length-append head (concat ws)

    not_short : ltb (length (head ++ concat ws)) 5 ≡ false
    not_short = ground (arith, size)
