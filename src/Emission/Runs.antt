-- ===== src/Emission/Runs.antt =====
-- Methods that reserve what they write run on every stream of a module, and append an instruction.
use mathlib.Core.Path.{subst}
use Prim.Native.Nat.{max}
use sirit.Base.{
  ℕ, ◌-◌, ◌≤◌, ◌≡◌, sym, ap, ◌∙◌, true, List, ◌++◌, arith, length, drop, length-append, length-drop,
  length-replicate, replicate, ok,
}
use sirit.Spirv.{Platform}
use sirit.Stream.{Stream, contents}
use sirit.Stream.Words.{at, pad, view, contents-at}
use sirit.Stream.Heads.{head_bound}
use sirit.Emission.{Emission, emit}
use sirit.Emission.Exact.{accepted, word_count, instruction, emit_fits}
use sirit.Emission.Size.{written, word_count-written}

-- The words of room behind the cursor.
abbrev pub slack : Stream → ℕ
slack s = length s.words - s.insert_index

-- The cursor is within the vector.
abbrev pub IsInside : Stream → Type 0
IsInside s = s.insert_index ≤ length s.words

module _ ⦃p : Platform⦄ where
  -- The call has run, appended the instruction and returned the id that is then `*bound`. The room is
  -- what was reserved, or there before, less what is written.
  pub record Emitted (e : Emission) (bound : ℕ) (s s' : Stream) : Type 0 where
    pub runs :
        emit e bound s
        ≡ ok (record { value = head_bound e.head bound }, head_bound e.head bound, s')
    pub appends : contents s' ≡ contents s ++ instruction e bound
    pub inside : IsInside s'
    pub room : slack s' ≡ max (slack s) e.num_words - written e

  emit_at :
      (e : Emission) (bound : ℕ) (front room : List ℕ) (op : ℕ)
      → written e ≤ e.num_words
      → accepted e ≡ true
      → (s' : Stream) × Emitted e bound (at front room op) s'
  emit_at e bound front room op enough h = (
    at (front ++ instruction e bound) (drop (word_count e bound) (pad e.num_words room))
        (length front),
    record {
      runs = emit_fits e bound front room op h (omega (arith, size, padded));
      appends =
          contents-at _ _ _ ∙ ap (λ l. l ++ instruction e bound) (sym (contents-at front room op));
      inside = omega (arith, length-append (front ++ instruction e bound) left);
      room = omega (
        arith,
        size,
        padded,
        length-append (front ++ instruction e bound) left,
        length-append front room,
        length-drop (word_count e bound) (pad e.num_words room),
      );
    },
  )
    where
      left : List ℕ
      left = drop (word_count e bound) (pad e.num_words room)

      size : word_count e bound ≡ written e
      size = word_count-written e bound

      padded : length (pad e.num_words room) ≡ max (length room) e.num_words
      padded = omega (
        arith,
        length-append room (replicate (e.num_words - length room) 0),
        length-replicate {A = ℕ} (e.num_words - length room) 0,
      )

  -- A method whose `assert`s hold and whose reservation covers what it writes runs on every stream
  -- with its cursor within the vector, appends its instruction and returns the id that is then
  -- `*bound`. The room left is what was there or reserved, less what is written.
  pub emit_runs :
      (e : Emission) (bound : ℕ) (s : Stream)
      → written e ≤ e.num_words
      → accepted e ≡ true
      → IsInside s
      → (s' : Stream) × Emitted e bound s s'
  emit_runs e bound s enough h inside =
      subst (λ t. (s' : Stream) × Emitted e bound t s') (sym (view s inside))
        (emit_at e bound (contents s) (drop s.insert_index s.words) s.op_index enough h)
