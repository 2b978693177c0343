-- ===== src/Stream/Decode.antt =====
-- A reader of the texts that `InsertStringView` writes, which SPIR-V calls literal strings: four bytes
-- to a word, the low one first, up to a byte 0.
use mathlib.Core.List.{map}
use sirit.Base.{
  ℕ, ◌+◌, ◌*◌, ◌/◌, ◌%◌, ◌^◌, ◌<◌, ◌≡◌, refl, ap, ◌∙◌, List, [], ◌∷◌, ◌++◌, arith, ◌==◌,
  if◌then◌else◌, length, concat, All, bit_or, bit_or-shift, ◌≤◌, sym, take, drop, take-append,
  drop-append, length-drop, ok,
}
use mathlib.Core.Path.{ap₂, subst}
use sirit.Spirv.{Platform}
use sirit.Stream.{char_word, Stream, contents, insert_string_view, words_in_string}
use sirit.Stream.Text.{
  merge, chunk_words, terminator, string_words, insert_string_view-push_words, length-string_words,
}
use sirit.Stream.Words.{at, view, contents-at, push_words-at}

abbrev bytes : ℕ → List ℕ
bytes w = (w % 2 ^ 8) ∷ (w / 2 ^ 8 % 2 ^ 8) ∷ (w / 2 ^ 16 % 2 ^ 8) ∷ (w / 2 ^ 24 % 2 ^ 8) ∷ []

abbrev until_zero : List ℕ → List ℕ
until_zero [] = []
until_zero (b ∷ bs) = if b == 0 then [] else b ∷ until_zero bs

abbrev pub decode : List ℕ → List ℕ
decode words = until_zero (concat (map bytes words))

-- A character of ASCII, not the one that ends a text.
abbrev IsAscii : ℕ → Type 0
IsAscii b = (0 < b) × (b < 128)

merge_lem :
    (a b c d : ℕ)
    → a < 128
    → b < 128
    → c < 128
    → d < 128
    → merge a b c d ≡ a + b * 2 ^ 8 + c * 2 ^ 16 + d * 2 ^ 24
merge_lem a b c d ha hb hc hd =
    ap₂ (λ x y. bit_or (bit_or x (c * 2 ^ 16 % 2 ^ 32)) y) low (omega arith)
    ∙ ap (λ x. bit_or x (d * 2 ^ 24)) middle
    ∙ bit_or-shift 24 _ d (omega arith)
  where
    low : bit_or a (b * 2 ^ 8 % 2 ^ 32) ≡ a + b * 2 ^ 8
    low = ap (bit_or a) {y = b * 2 ^ 8} (omega arith) ∙ bit_or-shift 8 a b (omega arith)

    middle : bit_or (a + b * 2 ^ 8) (c * 2 ^ 16 % 2 ^ 32) ≡ a + b * 2 ^ 8 + c * 2 ^ 16
    middle =
        ap (bit_or (a + b * 2 ^ 8)) {y = c * 2 ^ 16} (omega arith)
        ∙ bit_or-shift 16 _ c (omega arith)

bytes-merge :
    (a b c d : ℕ)
    → a < 128
    → b < 128
    → c < 128
    → d < 128
    → bytes (merge a b c d) ≡ a ∷ b ∷ c ∷ d ∷ []
bytes-merge a b c d ha hb hc hd =
    ap bytes (merge_lem a b c d ha hb hc hd) ∙ λ i. first i ∷ second i ∷ third i ∷ fourth i ∷ []
  where
    w : ℕ
    w = a + b * 2 ^ 8 + c * 2 ^ 16 + d * 2 ^ 24

    first : w % 2 ^ 8 ≡ a
    first = omega arith

    second : w / 2 ^ 8 % 2 ^ 8 ≡ b
    second = omega arith

    third : w / 2 ^ 16 % 2 ^ 8 ≡ c
    third = omega arith

    fourth : w / 2 ^ 24 % 2 ^ 8 ≡ d
    fourth = omega arith

until_zero_step : (b : ℕ) (bs : List ℕ) → 0 < b → until_zero (b ∷ bs) ≡ b ∷ until_zero bs
until_zero_step b bs h = ground arith

module _ ⦃p : Platform⦄ where
  char_word_ascii : (b : ℕ) → b < 128 → char_word b ≡ b
  unfolding char_word
  char_word_ascii b h = ground (arith, p.char_is_signed)

  -- the bytes of a chunk's word
  chunk_bytes :
      (a b c d : ℕ)
      → a < 128
      → b < 128
      → c < 128
      → d < 128
      → bytes (merge (char_word a) (char_word b) (char_word c) (char_word d)) ≡ a ∷ b ∷ c ∷ d ∷ []
  chunk_bytes a b c d ha hb hc hd =
      rw (char_word_ascii a ha, char_word_ascii b hb, char_word_ascii c hc, char_word_ascii d hd)
        (bytes-merge a b c d ha hb hc hd)

  -- An ASCII text without a character 0 is read back from its words, whether `char` is signed or
  -- not.
  decode-string_words : (text : List ℕ) → All IsAscii text → decode (string_words text) ≡ text
  decode-string_words [] h = refl
  decode-string_words (a ∷ []) (ha, _) =
      ap until_zero {x = bytes (merge (char_word a) 0 0 0)} {y = a ∷ 0 ∷ 0 ∷ 0 ∷ []} (
        rw (char_word_ascii a ha.1)
          (bytes-merge a 0 0 0 ha.1 (omega arith) (omega arith) (omega arith)))
      ∙ until_zero_step a (0 ∷ 0 ∷ 0 ∷ []) ha.0
  decode-string_words (a ∷ b ∷ []) (ha, (hb, _)) =
      ap until_zero {x = bytes (merge (char_word a) (char_word b) 0 0)} {y = a ∷ b ∷ 0 ∷ 0 ∷ []} (
        rw (char_word_ascii a ha.1, char_word_ascii b hb.1)
          (bytes-merge a b 0 0 ha.1 hb.1 (omega arith) (omega arith)))
      ∙ until_zero_step a (b ∷ 0 ∷ 0 ∷ []) ha.0
      ∙ ap (λ l. a ∷ l) (until_zero_step b (0 ∷ 0 ∷ []) hb.0)
  decode-string_words (a ∷ b ∷ c ∷ []) (ha, (hb, (hc, _))) =
      ap until_zero {x = bytes (merge (char_word a) (char_word b) (char_word c) 0)}
        {y = a ∷ b ∷ c ∷ 0 ∷ []}
        (rw (char_word_ascii a ha.1, char_word_ascii b hb.1, char_word_ascii c hc.1)
          (bytes-merge a b c 0 ha.1 hb.1 hc.1 (omega arith)))
      ∙ until_zero_step a (b ∷ c ∷ 0 ∷ []) ha.0
      ∙ ap (λ l. a ∷ l) (until_zero_step b (c ∷ 0 ∷ []) hb.0)
      ∙ ap (λ l. a ∷ b ∷ l) (until_zero_step c (0 ∷ []) hc.0)
  decode-string_words (a ∷ b ∷ c ∷ d ∷ r) (ha, (hb, (hc, (hd, h)))) =
      let end = terminator (a ∷ b ∷ c ∷ d ∷ r) in
      let rest = concat (map bytes (chunk_words r ++ end)) in
      ap (λ l. until_zero (l ++ rest)) (chunk_bytes a b c d ha.1 hb.1 hc.1 hd.1)
      ∙ until_zero_step a (b ∷ c ∷ d ∷ rest) ha.0
      ∙ ap (λ l. a ∷ l) (until_zero_step b (c ∷ d ∷ rest) hb.0)
      ∙ ap (λ l. a ∷ b ∷ l) (until_zero_step c (d ∷ rest) hc.0)
      ∙ ap (λ l. a ∷ b ∷ c ∷ l) (until_zero_step d rest hd.0)
      ∙ ap (λ l. a ∷ b ∷ c ∷ d ∷ decode (chunk_words r ++ l)) {y = terminator r}
          (ap (λ n. if n == 0 then 0 ∷ [] else []) {y = length r % 4} (omega arith))
      ∙ ap (λ l. a ∷ b ∷ c ∷ d ∷ l) (decode-string_words r h)

  abbrev ReadsBack : List ℕ → Stream → Type 0
  ReadsBack text s =
      (s' : Stream) × (insert_string_view text s ≡ ok s')
      × (take s.insert_index (contents s') ≡ contents s)
      × (decode (drop s.insert_index (contents s')) ≡ text)

  ReadsBack-at :
      (text front room : List ℕ) (op : ℕ)
      → All IsAscii text
      → words_in_string text ≤ length room
      → ReadsBack text (at front room op)
  ReadsBack-at text front room op h fits = (
    at (front ++ string_words text) (drop (length (string_words text)) room) op,
    insert_string_view-push_words text (at front room op)
        ∙ push_words-at (string_words text) front room op (omega (arith, length-string_words text)),
    ap (take (length front)) written
        ∙ take-append front (string_words text)
        ∙ sym (contents-at front room op),
    ap (λ l. decode (drop (length front) l)) written
        ∙ ap decode (drop-append front (string_words text))
        ∙ decode-string_words text h,
  )
    where
      written :
          contents (at (front ++ string_words text) (drop (length (string_words text)) room) op)
          ≡ front ++ string_words text
      written = contents-at _ _ op

  -- On a stream with room for the words of an ASCII text without a character 0 `InsertStringView`
  -- runs, and the reader finds in the words that it has appended the text, whether `char` is signed
  -- or not. The words before stay.
  pub decode-insert_string_view :
      (text : List ℕ) (s : Stream)
      → All IsAscii text
      → s.insert_index + words_in_string text ≤ length s.words
      → (s' : Stream) × (insert_string_view text s ≡ ok s')
        × (take s.insert_index (contents s') ≡ contents s)
        × (decode (drop s.insert_index (contents s')) ≡ text)
  decode-insert_string_view text s h fits = subst (ReadsBack text) (sym (view s (omega arith))) (
      ReadsBack-at text (contents s) (drop s.insert_index s.words) s.op_index h
        (omega (arith, length-drop s.insert_index s.words)))
