-- ===== src/Emission/Size.antt =====
-- How many words an emission writes, against how many it reserves.
use sirit.Base.{
  ℕ, suc, ◌+◌, ◌/◌, ◌≤◌, ◌≡◌, refl, ap, ◌∙◌, Option, none, some, List, [], ◌∷◌, arith, length,
  length-append, All,
}
use sirit.Spirv.{Platform}
use sirit.Stream.{
  SpvId, Literal, uint32, uint64, int32, int64, float, double, Operand, id, u32, s32, boolean,
  literal, string, enum, optional_id, optional_enum, ids, literals, Head, plain, with_id, with_type,
}
use sirit.Stream.Text.{length-string_words, words_in_string_lem}
use sirit.Stream.Operands.{literal_words, literals_words, ids_words, operand_words, operands_words}
use sirit.Stream.Heads.{head_words}
use sirit.Emission.{Emission, present}
use sirit.Emission.Exact.{word_count}

abbrev literal_size : Literal → ℕ
literal_size (uint32 n) = 1
literal_size (uint64 n) = 2
literal_size (int32 z) = 1
literal_size (int64 z) = 2
literal_size (float bits) = 1
literal_size (double bits) = 2

abbrev pub literals_size : List Literal → ℕ
literals_size [] = 0
literals_size (x ∷ xs) = literal_size x + literals_size xs

abbrev pub size : Operand → ℕ
size (literal l) = literal_size l
size (string text) = length text / 4 + 1
size (optional_id x) = present x
size (optional_enum x) = present x
size (ids xs) = length xs
size (literals xs) = literals_size xs
size (id x) = 1
size (u32 n) = 1
size (s32 z) = 1
size (boolean b) = 1
size (enum n) = 1

abbrev pub sizes : List Operand → ℕ
sizes [] = 0
sizes (x ∷ xs) = size x + sizes xs

abbrev head_size : Head → ℕ
head_size (plain op) = 1
head_size (with_id op) = 2
head_size (with_type op t) = 3

abbrev pub written : Emission → ℕ
written e = head_size e.head + sizes e.operands

-- A literal of one word.
abbrev pub IsNarrow : Literal → Type 0
IsNarrow l = literal_size l ≡ 1

pub literals_size_narrow : (xs : List Literal) → All IsNarrow xs → literals_size xs ≡ length xs
literals_size_narrow [] h = refl
literals_size_narrow (x ∷ xs) (hx, hxs) = omega (arith, literals_size_narrow xs hxs)

pub present-le {ℓ} : {A : Type ℓ} (x : Option A) → present x ≤ 1
present-le none = omega arith
present-le (some x) = omega arith

length-literal_words : (l : Literal) → length (literal_words l) ≡ literal_size l
length-literal_words (uint32 n) = refl
length-literal_words (uint64 n) = refl
length-literal_words (int32 z) = refl
length-literal_words (int64 z) = refl
length-literal_words (float bits) = refl
length-literal_words (double bits) = refl

length-literals_words : (xs : List Literal) → length (literals_words xs) ≡ literals_size xs
length-literals_words [] = refl
length-literals_words (x ∷ xs) = omega (
  arith,
  length-append (literal_words x) (literals_words xs),
  length-literal_words x,
  length-literals_words xs,
)

pub length-ids_words : (xs : List SpvId) → length (ids_words xs) ≡ length xs
length-ids_words [] = refl
length-ids_words (x ∷ xs) = ap suc (length-ids_words xs)

module _ ⦃p : Platform⦄ where
  length-operand_words : (o : Operand) → length (operand_words o) ≡ size o
  length-operand_words (id x) = refl
  length-operand_words (u32 n) = refl
  length-operand_words (s32 z) = refl
  length-operand_words (boolean b) = refl
  length-operand_words (literal l) = length-literal_words l
  length-operand_words (string text) = length-string_words text ∙ words_in_string_lem text
  length-operand_words (enum n) = refl
  length-operand_words (optional_id none) = refl
  length-operand_words (optional_id (some x)) = refl
  length-operand_words (optional_enum none) = refl
  length-operand_words (optional_enum (some x)) = refl
  length-operand_words (ids xs) = length-ids_words xs
  length-operand_words (literals xs) = length-literals_words xs

  length-operands_words : (os : List Operand) → length (operands_words os) ≡ sizes os
  length-operands_words [] = refl
  length-operands_words (o ∷ os) = omega (
    arith,
    length-append (operand_words o) (operands_words os),
    length-operand_words o,
    length-operands_words os,
  )

  length-head_words : (h : Head) (bound : ℕ) → suc (length (head_words h bound)) ≡ head_size h
  length-head_words (plain op) bound = refl
  length-head_words (with_id op) bound = refl
  length-head_words (with_type op t) bound = refl

  -- The number of words of an emission's instruction depends on its operands' kinds and lengths only.
  pub word_count-written : (e : Emission) (bound : ℕ) → word_count e bound ≡ written e
  word_count-written e bound = omega (
    arith,
    length-append (head_words e.head bound) (operands_words e.operands),
    length-head_words e.head bound,
    length-operands_words e.operands,
  )

-- The method reserves what it writes, and at most two words more.
pub record IsTight (e : Emission) : Type 0 where
  pub enough : written e ≤ e.num_words
  pub close : e.num_words ≤ written e + 2
