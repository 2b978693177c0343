-- ===== src/Declarations/Intern.antt =====
-- `Declarations` against what it is for: a table that gives each declaration one id.
use mathlib.Core.Path.{subst}
use sirit.Stream.Chain.{raw_words}
use sirit.Base.{
  ℕ, ◌+◌, ◌^◌, ◌≤◌, ◌<◌, ◌≡◌, refl, sym, ap, ◌∙◌, ◌⊎◌, inl, inr, true, Option, none, some, List, [],
  ◌∷◌, ◌++◌, arith, length, drop, ok, Option-cases, length-append,
}
use sirit.Spirv.{Platform}
use sirit.Stream.{plain, with_id, with_type, Head, contents}
use sirit.Stream.Words.{pad, length-pad, view, contents-at}
use sirit.Stream.Operands.{operands_words}
use sirit.Stream.Heads.{head_bound, header}
use sirit.Emission.{Emission}
use sirit.Emission.Exact.{accepted, word_count, instruction}
use sirit.Declarations.{Table, Declarations, find, declare}
use sirit.Declarations.Table.{IsFalling, IsFalling-mono}
use sirit.Declarations.Declare.{HasId, key, declared, declare_new, declare_known}

-- The abstract table: a known key keeps its id, a new one gets the next.
abbrev enter : Option ℕ → List ℕ → ℕ → Table → ℕ × ℕ × Table
enter (some i) k bound t = (i, bound, t)
enter none k bound t = (bound + 1, bound + 1, (k, bound + 1) ∷ t)

abbrev pub intern : List ℕ → ℕ → Table → ℕ × ℕ × Table
intern k bound t = enter (find k t) k bound t

-- `w` is the finished instruction of the declaration with key `k` and id `i`.
abbrev IsEntry : List ℕ → List ℕ → ℕ → Type 0
IsEntry w k i =
    (op : ℕ) × (pre : List ℕ) × (post : List ℕ) × (w ≡ header op (length w) ∷ (pre ++ (i ∷ post)))
    × (k ≡ op ∷ (pre ++ (0 ∷ post)))

-- The words are the instructions of the table's entries, one after the other, the latest at the end.
abbrev Holds : List ℕ → Table → Type 0
Holds words [] = words ≡ []
Holds words ((k, i) ∷ t) =
    (front : List ℕ) × (w : List ℕ) × (words ≡ front ++ w) × IsEntry w k i × Holds front t

pub record IsInterned (bound : ℕ) (d : Declarations) : Type 0 where
  pub in_vector : d.stream.insert_index ≤ length d.stream.words
  pub small : bound < 2 ^ 32
  pub falling : IsFalling bound d.existing_declarations
  pub holds : Holds (contents d.stream) d.existing_declarations

module _ ⦃p : Platform⦄ where
  -- A declaration whose own reservation is enough.
  pub record IsDeclaration (e : Emission) (bound : ℕ) : Type 0 where
    pub has_id : HasId e.head
    pub accepts : accepted e ≡ true
    pub fits : word_count e bound ≤ e.num_words

  instruction-IsEntry :
      (e : Emission) (bound : ℕ)
      → HasId e.head
      → IsEntry (instruction e bound) (key e) (head_bound e.head bound)
  instruction-IsEntry e bound n = go e.head n
    where
      go :
          (h : Head)
          → HasId h
          → IsEntry
              (instruction (record e { head = h }) bound)
              (key (record e { head = h }))
              (head_bound h bound)
      go (plain op) n = absurd n
      go (with_id op) n = (p.op_code op, [], operands_words e.operands, refl, refl)
      go (with_type op t) n = (p.op_code op, t.value ∷ [], operands_words e.operands, refl, refl)

  head_bound-next :
      (h : Head) (bound : ℕ) → HasId h → bound + 1 < 2 ^ 32 → head_bound h bound ≡ bound + 1
  head_bound-next (plain op) bound n small = absurd n
  head_bound-next (with_id op) bound n small = omega arith
  head_bound-next (with_type op t) bound n small = omega arith

  -- What a call of `declare` leaves behind.
  pub record Declared (e : Emission) (bound : ℕ) (d : Declarations) (i bound' : ℕ)
      (d' : Declarations) : Type 0 where
    pub runs : declare e bound d ≡ ok (record { value = i }, bound', d')
    pub interns :
        (i, bound', d'.existing_declarations) ≡ intern (key e) bound d.existing_declarations
    pub grows :
        ((j : ℕ) × (find (key e) d.existing_declarations ≡ some j)
          × (contents d'.stream ≡ contents d.stream))
        ⊎ ((find (key e) d.existing_declarations ≡ none)
            × (contents d'.stream ≡ contents d.stream ++ instruction e bound))
    pub keeps : IsInterned bound' d'

  declare_at :
      (e : Emission) (bound : ℕ) (front room : List ℕ) (op k : ℕ) (t : Table)
      → IsDeclaration e bound
      → bound + 1 < 2 ^ 32
      → IsFalling bound t
      → Holds front t
      → (i : ℕ) × (bound' : ℕ) × (d' : Declarations) × Declared e bound
          (declared front room op t k)
          i
          bound'
          d'
  declare_at e bound front room op k t c small f h = elim (Option-cases (find (key e) t)) [
    | inl miss ↦ (
      head_bound e.head bound,
      head_bound e.head bound,
      _,
      record {
        runs = declare_new e bound front room op t k c.has_id c.accepts fits miss;
        interns =
            ap (λ n. (n, n, (key e, n) ∷ t)) next ∙ ap (λ o. enter o (key e) bound t) (sym miss);
        grows = inr (
          miss,
          contents-at _ _ _ ∙ ap (λ l. l ++ instruction e bound) (sym (contents-at front room op)),
        );
        keeps = record {
          in_vector = omega (
            arith,
            length-append (front ++ instruction e bound)
                (drop (word_count e bound) (pad e.num_words room)),
          );
          small = omega (arith, next);
          falling =
              (omega (arith, next), omega arith, IsFalling-mono t bound _ (omega (arith, next)) f);
          holds = (
            front,
            instruction e bound,
            contents-at _ _ _,
            instruction-IsEntry e bound c.has_id,
            h,
          );
        };
      },
    )
    | inr (i, hit) ↦ (
      i,
      bound,
      _,
      record {
        runs = declare_known e bound front room op t k i c.has_id c.accepts fits (omega arith) hit;
        interns = ap (λ o. enter o (key e) bound t) (sym hit);
        grows = inl (i, hit, contents-at front _ _ ∙ sym (contents-at front room op));
        keeps = record {
          in_vector = omega (
            arith,
            length-append front (
                raw_words e.head e.operands bound
                ++ drop (word_count e bound) (pad e.num_words room)),
          );
          small = omega arith;
          falling = f;
          holds = subst (λ c. Holds c t) (sym (contents-at front _ _)) h;
        };
      },
    )
  ]
    where
      fits : word_count e bound ≤ length (pad e.num_words room)
      fits = omega (arith, length-pad e.num_words room, c.fits)

      next : head_bound e.head bound ≡ bound + 1
      next = head_bound-next e.head bound c.has_id small

  -- On a table in step with its stream every declaration whose `assert`s hold and whose reservation
  -- is enough runs, answers as the abstract table does, and keeps them in step, if the counter is
  -- below 2 ^ 32 - 1.
  pub declare-refines-intern :
      (e : Emission) (bound : ℕ) (d : Declarations)
      → IsDeclaration e bound
      → bound + 1 < 2 ^ 32
      → IsInterned bound d
      → (i : ℕ) × (bound' : ℕ) × (d' : Declarations) × Declared e bound d i bound' d'
  declare-refines-intern e bound d c small v =
      subst
        (λ s.
          (i : ℕ) × (bound' : ℕ) × (d' : Declarations) × Declared e bound (record d { stream = s })
            i bound' d')
        (sym (view d.stream v.in_vector))
        (declare_at e bound (contents d.stream) _ d.stream.op_index d.id_index
          d.existing_declarations c small v.falling v.holds)
