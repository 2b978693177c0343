-- ===== src/Stream/Operands.antt =====
-- The overloads of `Stream::operator<<`: the words that each operand becomes.
use mathlib.Core.Path.{fun_ext}
use sirit.Base.{
  ℕ, ◌/◌, ◌%◌, ◌^◌, ◌≡◌, refl, sym, ap, ◌∙◌, Bool, true, ◌&&◌, &&-split, Option, none, some, List,
  [], ◌∷◌, ◌++◌, if◌then◌else◌, cast_u32, cast_u64, Outcome, ◌>>=◌, ◌>>◌, assert,
}
use sirit.Spirv.{Platform}
use sirit.Stream.{
  SpvId, valid_id, Literal, uint32, uint64, int32, int64, float, double, Operand, id, u32, s32,
  boolean, literal, string, enum, optional_id, optional_enum, ids, literals, Stream, push_word,
  put_u64, put_id, put_literal, put_ids, put_literals, put_optional_id, put_optional_enum, put,
  put_all,
}
use sirit.Stream.Text.{string_words, insert_string_view-push_words}
use sirit.Stream.Words.{push_words, push_words-append, push_words_one}

abbrev u64_words : ℕ → List ℕ
u64_words n = (n % 2 ^ 32) ∷ (n / 2 ^ 32 % 2 ^ 32) ∷ []

abbrev pub literal_words : Literal → List ℕ
literal_words (uint32 n) = n ∷ []
literal_words (uint64 n) = u64_words n
literal_words (int32 z) = cast_u32 z ∷ []
literal_words (int64 z) = u64_words (cast_u64 z)
literal_words (float bits) = bits ∷ []
literal_words (double bits) = u64_words bits

abbrev pub literals_words : List Literal → List ℕ
literals_words [] = []
literals_words (x ∷ xs) = literal_words x ++ literals_words xs

abbrev pub ids_words : List SpvId → List ℕ
ids_words [] = []
ids_words (x ∷ xs) = x.value ∷ ids_words xs

abbrev optional_id_words : Option SpvId → List ℕ
optional_id_words none = []
optional_id_words (some x) = x.value ∷ []

abbrev optional_enum_words : Option ℕ → List ℕ
optional_enum_words none = []
optional_enum_words (some x) = x ∷ []

-- Whether the `assert`s on the operand's ids hold.
abbrev pub valid_ids : List SpvId → Bool
valid_ids [] = true
valid_ids (x ∷ xs) = valid_id x && valid_ids xs

abbrev valid_optional : Option SpvId → Bool
valid_optional none = true
valid_optional (some x) = valid_id x

abbrev pub valid : Operand → Bool
valid (id x) = valid_id x
valid (optional_id x) = valid_optional x
valid (ids xs) = valid_ids xs
valid _ = true

abbrev pub all_valid : List Operand → Bool
all_valid [] = true
all_valid (x ∷ xs) = valid x && all_valid xs

module _ ⦃p : Platform⦄ where
  abbrev pub operand_words : Operand → List ℕ
  operand_words (id x) = x.value ∷ []
  operand_words (u32 n) = n ∷ []
  operand_words (s32 z) = cast_u32 z ∷ []
  operand_words (boolean b) = (if b then 1 else 0) ∷ []
  operand_words (literal l) = literal_words l
  operand_words (string text) = string_words text
  operand_words (enum n) = n ∷ []
  operand_words (optional_id x) = optional_id_words x
  operand_words (optional_enum x) = optional_enum_words x
  operand_words (ids xs) = ids_words xs
  operand_words (literals xs) = literals_words xs

  abbrev pub operands_words : List Operand → List ℕ
  operands_words [] = []
  operands_words (x ∷ xs) = operand_words x ++ operands_words xs

put_u64-words : (n : ℕ) (s : Stream) → put_u64 n s ≡ push_words (u64_words n) s
unfolding put_u64 push_words
put_u64-words n s =
    ap (λ f. push_word (n % 2 ^ 32) s >>= f) (fun_ext (λ t. sym (push_words_one _ t)))

put_id-words :
    (x : SpvId) (s : Stream) → valid_id x ≡ true → put_id x s ≡ push_words (x.value ∷ []) s
unfolding put_id
put_id-words x s h = ap (λ b. assert b >> push_word x.value s) h ∙ sym (push_words_one x.value s)

put_literal-words : (l : Literal) (s : Stream) → put_literal l s ≡ push_words (literal_words l) s
unfolding put_literal
put_literal-words (uint32 n) s = sym (push_words_one _ s)
put_literal-words (uint64 n) s = put_u64-words n s
put_literal-words (int32 z) s = sym (push_words_one _ s)
put_literal-words (int64 z) s = put_u64-words _ s
put_literal-words (float bits) s = sym (push_words_one _ s)
put_literal-words (double bits) s = put_u64-words bits s

-- Two writers in a row write the words of both.
sequence :
    (xs ys : List ℕ) (s : Stream) {m : Outcome Stream} {f : Stream → Outcome Stream}
    → m ≡ push_words xs s
    → ((t : Stream) → f t ≡ push_words ys t)
    → (m >>= f) ≡ push_words (xs ++ ys) s
sequence xs ys s e h = (λ i. e i >>= fun_ext h i) ∙ sym (push_words-append xs ys s)

put_ids-words :
    (xs : List SpvId) (s : Stream)
    → valid_ids xs ≡ true
    → put_ids xs s ≡ push_words (ids_words xs) s
unfolding put_ids
put_ids-words [] s h = unfold push_words in refl
put_ids-words (x ∷ xs) s h =
    let (hx, hxs) = &&-split (valid_id x) (valid_ids xs) h in
    sequence (x.value ∷ []) (ids_words xs) s (put_id-words x s hx) (λ t. put_ids-words xs t hxs)

put_literals-words :
    (xs : List Literal) (s : Stream) → put_literals xs s ≡ push_words (literals_words xs) s
unfolding put_literals
put_literals-words [] s = unfold push_words in refl
put_literals-words (x ∷ xs) s =
    sequence (literal_words x) (literals_words xs) s (put_literal-words x s) (put_literals-words xs)

module _ ⦃p : Platform⦄ where
  put-words : (o : Operand) (s : Stream) → valid o ≡ true → put o s ≡ push_words (operand_words o) s
  unfolding put
  put-words (id x) s h = put_id-words x s h
  put-words (optional_id none) s h = unfold push_words put_optional_id in refl
  put-words (optional_id (some x)) s h = unfold put_optional_id in put_id-words x s h
  put-words (ids xs) s h = put_ids-words xs s h
  put-words (u32 n) s h = sym (push_words_one _ s)
  put-words (s32 z) s h = sym (push_words_one _ s)
  put-words (boolean b) s h = sym (push_words_one _ s)
  put-words (literal l) s h = put_literal-words l s
  put-words (string text) s h = insert_string_view-push_words text s
  put-words (enum n) s h = sym (push_words_one _ s)
  put-words (optional_enum none) s h = unfold push_words put_optional_enum in refl
  put-words (optional_enum (some x)) s h = unfold put_optional_enum in sym (push_words_one _ s)
  put-words (literals xs) s h = put_literals-words xs s

  -- A chain of `<<` is the writing of the words of its operands, one by one and in order, if the
  -- ids among them are valid.
  pub put_all-words :
      (os : List Operand) (s : Stream)
      → all_valid os ≡ true
      → put_all os s ≡ push_words (operands_words os) s
  unfolding put_all
  put_all-words [] s h = unfold push_words in refl
  put_all-words (o ∷ os) s h =
      let (ho, hos) = &&-split (valid o) (all_valid os) h in
      sequence (operand_words o) (operands_words os) s (put-words o s ho)
        (λ t. put_all-words os t hos)
