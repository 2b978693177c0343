-- ===== src/Stream/Text.antt =====
-- `InsertStringView` and `WordsInString`: which words a text becomes.
use mathlib.Core.Path.{fun_ext}
use sirit.Base.{
  ℕ, zero, suc, ◌+◌, ◌*◌, ◌/◌, ◌%◌, ◌^◌, ◌≤◌, ◌<◌, ◌≡◌, refl, sym, ap, ◌∙◌, List, [], ◌∷◌, ◌++◌,
  append_assoc, arith, bit_or, ltb, ◌==◌, lt→ltb, ==→eq, ==→ne, Bool-cases, inl, inr, if◌then◌else◌,
  length, get_or, length-append, get_or-append, ok, ◌>>=◌, >>=-ok,
}
use sirit.Spirv.{Platform}
use sirit.Stream.{
  Stream, push_word, char_word, read, pack_word, insert_loop, insert_string_view, words_in_string,
}
use sirit.Stream.Words.{push_words, push_words-append, push_words_one}

-- Four words of a byte's width, as the code joins them.
abbrev pub merge : ℕ → ℕ → ℕ → ℕ → ℕ
merge a b c d =
    bit_or (bit_or (bit_or a (b * 2 ^ 8 % 2 ^ 32)) (c * 2 ^ 16 % 2 ^ 32)) (d * 2 ^ 24 % 2 ^ 32)

module _ ⦃p : Platform⦄ where
  -- Four bytes to a word, the last filled up with zeros.
  abbrev pub chunk_words : List ℕ → List ℕ
  chunk_words [] = []
  chunk_words (a ∷ []) = merge (char_word a) 0 0 0 ∷ []
  chunk_words (a ∷ b ∷ []) = merge (char_word a) (char_word b) 0 0 ∷ []
  chunk_words (a ∷ b ∷ c ∷ []) = merge (char_word a) (char_word b) (char_word c) 0 ∷ []
  chunk_words (a ∷ b ∷ c ∷ d ∷ r) =
      merge (char_word a) (char_word b) (char_word c) (char_word d) ∷ chunk_words r

  -- A word of zeros ends a text that fills its last word.
  abbrev pub terminator : List ℕ → List ℕ
  terminator text = if length text % 4 == 0 then 0 ∷ [] else []

  abbrev pub string_words : List ℕ → List ℕ
  string_words text = chunk_words text ++ terminator text

  -- the byte of a suffix that `read` finds
  abbrev suffix_read : List ℕ → ℕ → ℕ
  suffix_read suf k = if ltb k (length suf) then char_word (get_or suf k 0) else 0

  read-append : (pre suf : List ℕ) (k : ℕ) → read (pre ++ suf) (length pre + k) ≡ suffix_read suf k
  unfolding read
  read-append pre suf k = rw (get_or-append pre suf k 0) (ground (arith, length-append pre suf))

  suffix_read_lem :
      (suf : List ℕ) (k : ℕ) → k < length suf → suffix_read suf k ≡ char_word (get_or suf k 0)
  suffix_read_lem suf k h = rw (lt→ltb k (length suf) h)

  four_bytes :
      (a b c d : ℕ) (r : List ℕ)
      → let suf = a ∷ b ∷ c ∷ d ∷ r in
        merge (suffix_read suf 0) (suffix_read suf 1) (suffix_read suf 2) (suffix_read suf 3)
        ≡ merge (char_word a) (char_word b) (char_word c) (char_word d)
  four_bytes a b c d r = λ i.
      merge (suffix_read_lem suf 0 (omega arith) i) (suffix_read_lem suf 1 (omega arith) i)
        (suffix_read_lem suf 2 (omega arith) i) (suffix_read_lem suf 3 (omega arith) i)
    where
      suf : List ℕ
      suf = a ∷ b ∷ c ∷ d ∷ r

  pack_word-append :
      (text pre suf : List ℕ) (i : ℕ)
      → text ≡ pre ++ suf
      → i ≡ length pre
      → pack_word text i
        ≡ merge (suffix_read suf 0) (suffix_read suf 1) (suffix_read suf 2) (suffix_read suf 3)
  unfolding pack_word
  pack_word-append text pre suf i e h = rw (
    e,
    h,
    ap (read (pre ++ suf)) start,
    read-append pre suf 0,
    read-append pre suf 1,
    read-append pre suf 2,
    read-append pre suf 3,
  )
    where
      start : length pre ≡ length pre + 0
      start = omega arith

  loop_done :
      (text : List ℕ) (fuel i : ℕ) (s : Stream) → length text ≤ i → insert_loop text fuel i s ≡ ok s
  unfolding insert_loop
  loop_done text zero i s h = refl
  loop_done text (suc fuel) i s h = ground arith

  loop_step :
      (text : List ℕ) (fuel i : ℕ) (s : Stream)
      → i < length text
      → insert_loop text (suc fuel) i s
        ≡ (push_word (pack_word text i) s >>= insert_loop text fuel (i + 4))
  unfolding insert_loop
  loop_step text fuel i s h = ground arith

  loop_last :
      (text pre suf : List ℕ) (fuel i w : ℕ) (s : Stream)
      → text ≡ pre ++ suf
      → i ≡ length pre
      → 0 < length suf
      → length suf ≤ 4
      → merge (suffix_read suf 0) (suffix_read suf 1) (suffix_read suf 2) (suffix_read suf 3) ≡ w
      → insert_loop text (suc fuel) i s ≡ push_words (w ∷ []) s
  loop_last text pre suf fuel i w s e h lo hi m =
      loop_step text fuel i s (omega (arith, size))
      ∙ ap (λ f. push_word (pack_word text i) s >>= f)
          (fun_ext (λ t. loop_done text fuel (i + 4) t (omega (arith, size))))
      ∙ >>=-ok _
      ∙ ap (λ v. push_word v s) (pack_word-append text pre suf i e h ∙ m)
      ∙ sym (push_words_one w s)
    where
      size : length text ≡ length pre + length suf
      size = ap length e ∙ length-append pre suf

  insert_loop-chunk_words :
      (fuel : ℕ) (text pre suf : List ℕ) (i : ℕ) (s : Stream)
      → text ≡ pre ++ suf
      → i ≡ length pre
      → length suf ≤ fuel
      → insert_loop text fuel i s ≡ push_words (chunk_words suf) s
  unfolding push_words
  insert_loop-chunk_words fuel text pre [] i s e h le =
      loop_done text fuel i s (omega (arith, ap length e, length-append pre []))
  insert_loop-chunk_words zero text pre (a ∷ r) i s e h le = absurd (omega arith)
  insert_loop-chunk_words (suc fuel) text pre (a ∷ []) i s e h le =
      loop_last text pre _ fuel i _ s e h (omega arith) (omega arith) refl
  insert_loop-chunk_words (suc fuel) text pre (a ∷ b ∷ []) i s e h le =
      loop_last text pre _ fuel i _ s e h (omega arith) (omega arith) refl
  insert_loop-chunk_words (suc fuel) text pre (a ∷ b ∷ c ∷ []) i s e h le =
      loop_last text pre _ fuel i _ s e h (omega arith) (omega arith) refl
  insert_loop-chunk_words (suc fuel) text pre (a ∷ b ∷ c ∷ d ∷ r) i s e h le =
      loop_step text fuel i s (omega (arith, ap length e, length-append pre (a ∷ b ∷ c ∷ d ∷ r)))
      ∙ ap (λ v. push_word v s >>= insert_loop text fuel (i + 4))
          (pack_word-append text pre (a ∷ b ∷ c ∷ d ∷ r) i e h ∙ four_bytes a b c d r)
      ∙ ap (λ f. push_word (merge (char_word a) (char_word b) (char_word c) (char_word d)) s >>= f)
          (fun_ext (λ t.
            insert_loop-chunk_words fuel text (pre ++ (a ∷ b ∷ c ∷ d ∷ [])) r (i + 4) t
              (e ∙ sym (append_assoc pre (a ∷ b ∷ c ∷ d ∷ []) r))
              (omega (arith, h, length-append pre (a ∷ b ∷ c ∷ d ∷ []))) (omega arith)))

  pub insert_string_view-push_words :
      (text : List ℕ) (s : Stream) → insert_string_view text s ≡ push_words (string_words text) s
  unfolding insert_string_view push_words
  insert_string_view-push_words text s =
      ap (λ m. m >>= λ s'. if length text % 4 == 0 then push_word 0 s' else ok s')
        (insert_loop-chunk_words (length text) text [] text 0 s refl refl (omega arith))
      ∙ ap (λ f. push_words (chunk_words text) s >>= f) (fun_ext ending)
      ∙ sym (push_words-append (chunk_words text) (terminator text) s)
    where
      ending :
          (t : Stream)
          → (if length text % 4 == 0 then push_word 0 t else ok t) ≡ push_words (terminator text) t
      ending t = elim (Bool-cases (length text % 4 == 0)) [
        | inl e ↦ rw e (sym (push_words_one 0 t))
        | inr e ↦ rw e
      ]

  length-chunk_words : (text : List ℕ) → length (chunk_words text) ≡ (length text + 3) / 4
  length-chunk_words [] = refl
  length-chunk_words (a ∷ []) = refl
  length-chunk_words (a ∷ b ∷ []) = refl
  length-chunk_words (a ∷ b ∷ c ∷ []) = refl
  length-chunk_words (a ∷ b ∷ c ∷ d ∷ r) = omega (arith, length-chunk_words r)

  -- `WordsInString` counts the words that `InsertStringView` writes.
  pub length-string_words : (text : List ℕ) → length (string_words text) ≡ words_in_string text
  unfolding words_in_string
  length-string_words text = elim (Bool-cases (length text % 4 == 0)) [
    | inl e ↦ rw e (
        omega
          (arith, ==→eq _ _ e, length-append (chunk_words text) (0 ∷ []), length-chunk_words text))
    | inr e ↦
        rw e
          (omega (arith, ==→ne _ _ e, length-append (chunk_words text) [], length-chunk_words text))
  ]

pub words_in_string_lem : (text : List ℕ) → words_in_string text ≡ length text / 4 + 1
unfolding words_in_string
words_in_string_lem text = refl
