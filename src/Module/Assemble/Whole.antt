-- ===== src/Module/Assemble/Whole.antt =====
-- `ParseInstructions` on words that need be no module.
use mathlib.Core.List.{map}
use sirit.Base.{
  ℕ, zero, suc, ◌+◌, ◌/◌, ◌^◌, ◌<◌, ◌≡◌, refl, sym, ap, ◌∙◌, ◌||◌, bit_and, List, [], ◌∷◌, ◌++◌,
  append_assoc, arith, ltb, ◌==◌, inl, inr, Bool-cases, length, get_or, take, drop, concat, All,
  take-append-drop, length-take, length-drop, drop_add, ◌≤◌, ◌⊎◌, true, Outcome, ok, ◌>>=◌,
}
use sirit.Module.Assemble.Parse.{Instruction, parse_loop, parse_instructions, loop_end, loop_inside}

-- An instruction has as many words as it says, one at least, and its opcode is in the first.
abbrev pub IsWhole : Instruction → Type 0
IsWhole x =
    (0 < x.word_count)
    × (length x.words ≡ x.word_count)
    × (x.word_count ≡ get_or x.words 0 0 / 2 ^ 16)
    × (x.opcode ≡ bit_and (get_or x.words 0 0) 0xffff)

get_or-take : (n i : ℕ) (xs : List ℕ) → 0 < n → get_or (take n (drop i xs)) 0 0 ≡ get_or xs i 0
get_or-take zero i xs h = absurd (omega arith)
get_or-take (suc n) zero [] h = refl
get_or-take (suc n) zero (x ∷ xs) h = refl
get_or-take (suc n) (suc i) [] h = refl
get_or-take (suc n) (suc i) (x ∷ xs) h = get_or-take (suc n) i xs h

-- Nothing is left but what no instruction starts with: the end, a length of 0, or a length that the
-- vector does not have.
abbrev pub IsRest : List ℕ → Type 0
IsRest [] = Unit
IsRest (w ∷ ws) = (w / 2 ^ 16 ≡ 0) ⊎ (suc (length ws) < w / 2 ^ 16)

drop-IsRest :
    (i : ℕ) (code : List ℕ)
    → (get_or code i 0 / 2 ^ 16 ≡ 0) ⊎ (length code < i + get_or code i 0 / 2 ^ 16)
    → IsRest (drop i code)
drop-IsRest zero [] h = tt
drop-IsRest (suc i) [] h = tt
drop-IsRest zero (w ∷ ws) (inl h) = inl h
drop-IsRest zero (w ∷ ws) (inr h) = inr (omega arith)
drop-IsRest (suc i) (w ∷ ws) (inl h) = drop-IsRest i ws (inl h)
drop-IsRest (suc i) (w ∷ ws) (inr h) = drop-IsRest i ws (inr (omega arith))

drop-end : (i : ℕ) (code : List ℕ) → length code ≤ i → IsRest (drop i code)
drop-end i [] h = drop-IsRest i [] (inl refl)
drop-end zero (w ∷ ws) h = absurd (omega arith)
drop-end (suc i) (w ∷ ws) h = drop-end i ws (omega arith)

-- The parser has returned `insts`, whole instructions that lie behind one another at the start of
-- `words`, and has stopped where none starts.
pub record Parses (result : Outcome (List Instruction)) (words : List ℕ) (insts : List Instruction)
    (rest : List ℕ) : Type 0 where
  pub returns : result ≡ ok insts
  pub splits : words ≡ concat (map (λ x. x.words) insts) ++ rest
  pub whole : All IsWhole insts
  pub ends : IsRest rest

parse_loop-splits :
    (fuel : ℕ) (code : List ℕ) (i : ℕ)
    → length code ≤ i + fuel
    → (insts : List Instruction) × (rest : List ℕ) × Parses
        (parse_loop fuel code i)
        (drop i code)
        insts
        rest
parse_loop-splits zero code i le = (
  [],
  drop i code,
  record {
    returns = loop_end zero code i (omega arith);
    splits = refl;
    whole = tt;
    ends = drop-end i code (omega arith);
  },
)
parse_loop-splits (suc fuel) code i le = elim (Bool-cases (ltb i (length code))) [
  | inr end ↦ (
    [],
    drop i code,
    record {
      returns = loop_end (suc fuel) code i (ground (arith, end));
      splits = refl;
      whole = tt;
      ends = drop-end i code (ground (arith, end));
    },
  )
  | inl inside ↦ elim (Bool-cases (wc == 0 || ltb (length code) (i + wc))) [
    | inl stop ↦ (
      [],
      drop i code,
      record {
        returns = loop_inside fuel code i (ground (arith, inside)) ∙ rw stop refl;
        splits = refl;
        whole = tt;
        ends = drop-IsRest i code (stops wc (i + wc) (length code) stop);
      },
    )
    | inr round ↦
        let pos : 0 < wc = ground (arith, round) in
        let (insts, rest, w) = parse_loop-splits fuel code (i + wc) (omega arith) in
        (
          taken ∷ insts,
          rest,
          record {
            returns =
                loop_inside fuel code i (ground (arith, inside))
                ∙ rw round (ap (λ o. o >>= λ out. ok (taken ∷ out)) w.returns);
            splits =
                sym (take-append-drop wc (drop i code))
                ∙ ap (λ l. take wc (drop i code) ++ l) (sym (drop_add i wc code) ∙ w.splits)
                ∙ sym (append_assoc (take wc (drop i code)) _ rest);
            whole = (taken-IsWhole pos (ground (arith, round)), w.whole);
            ends = w.ends;
          },
        )
  ]
]
  where
    wc : ℕ
    wc = get_or code i 0 / 2 ^ 16

    taken : Instruction
    taken = record {
      opcode = bit_and (get_or code i 0) 0xffff;
      word_count = wc;
      words = take wc (drop i code);
    }

    taken-IsWhole : 0 < wc → i + wc ≤ length code → IsWhole taken
    taken-IsWhole pos fits =
        let same = sym (get_or-take wc i code pos) in
        (
          pos,
          length-take wc (drop i code) (omega (arith, length-drop i code)),
          ap (λ n. n / 2 ^ 16) same,
          ap (λ n. bit_and n 0xffff) same,
        )

    stops : (n m k : ℕ) → (n == 0 || ltb k m) ≡ true → (n ≡ 0) ⊎ (k < m)
    stops n m k h = ground arith

-- On any words `ParseInstructions` returns, with no read outside of the vector. What it returns are
-- whole instructions that lie behind one another from the sixth word on: each has a word at least,
-- as many as its first word says, and the opcode of its first word. It leaves no instruction out:
-- where it stops the words are at an end, or the next one gives a length of 0 or one that is longer
-- than what is left.
pub parse_instructions-splits :
    (code : List ℕ)
    → (insts : List Instruction) × (rest : List ℕ) × Parses
        (parse_instructions code)
        (drop 5 code)
        insts
        rest
unfolding parse_instructions
parse_instructions-splits code = elim (Bool-cases (ltb (length code) 5)) [
  | inl short ↦ (
    [],
    drop 5 code,
    record {
      returns = rw short refl;
      splits = refl;
      whole = tt;
      ends = drop-end 5 code (ground (arith, short));
    },
  )
  | inr long ↦
      let (insts, rest, w) = parse_loop-splits (length code) code 5 (omega arith) in
      (
        insts,
        rest,
        record { returns = rw long w.returns; splits = w.splits; whole = w.whole; ends = w.ends },
      )
]
