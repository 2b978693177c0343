-- ===== src/Emission/Short.antt =====
-- Methods that reserve less than they write, where no room is left from before.
use sirit.Base.{
  ℕ, ◌<◌, ◌≡◌, ap, ◌∙◌, true, [], arith, length, drop_all, fault, out_of_bounds, List, ◌∷◌, All,
}
use sirit.Spirv.{Platform}
use sirit.Stream.{Stream, contents}
use sirit.Stream.Words.{at, view, length-pad}
use sirit.Emission.{Emission, emit}
use sirit.Emission.Exact.{accepted, emit_overflow}
use sirit.Emission.Size.{written, word_count-written}

-- The vector ends at the cursor.
abbrev pub IsFull : Stream → Type 0
IsFull s = s.insert_index ≡ length s.words

pub full-at : (s : Stream) → IsFull s → s ≡ at (contents s) [] s.op_index
full-at s full =
    view s (omega arith)
    ∙ ap (λ room. at (contents s) room s.op_index) (drop_all s.insert_index s.words (omega arith))

module _ ⦃p : Platform⦄ where
  -- A call whose reservation is too small writes outside of the vector if that ends at the cursor.
  pub emit_short :
      (e : Emission) (bound : ℕ) (s : Stream)
      → accepted e ≡ true
      → e.num_words < written e
      → IsFull s
      → emit e bound s ≡ fault out_of_bounds
  emit_short e bound s h short full =
      ap (emit e bound) (full-at s full)
      ∙ emit_overflow e bound (contents s) [] s.op_index h
          (omega (arith, word_count-written e bound, length-pad e.num_words []))

  -- The same of each method of a list.
  pub emit_short_all :
      (es : List Emission) (bound : ℕ) (s : Stream)
      → All (λ e. (accepted e ≡ true) × (e.num_words < written e)) es
      → IsFull s
      → All (λ e. emit e bound s ≡ fault out_of_bounds) es
  emit_short_all [] bound s h full = tt
  emit_short_all (e ∷ es) bound s (he, h) full =
      (emit_short e bound s he.0 he.1 full, emit_short_all es bound s h full)
