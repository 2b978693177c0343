-- ===== src/Declarations/Declare.antt =====
-- A declaration on both branches of the lookup: what it appends or takes back, and what it returns.
use sirit.Base.{
  Option, ℕ, ◌+◌, ◌-◌, ◌%◌, ◌^◌, ◌≤◌, ◌<◌, ◌≡◌, refl, ap, ◌∙◌, true, false, ◌&&◌, &&-split, not,
  none, some, List, [], ◌∷◌, ◌++◌, append_assoc, arith, ◌==◌, lt→ltb, length, get_or, set, take,
  drop, drop-append, take-append, Outcome, ok, fault, out_of_bounds, ◌>>=◌,
}
use sirit.Spirv.{Platform}
use sirit.Stream.{SpvId, Operand, Head, plain, with_id, with_type, Stream}
use sirit.Stream.Words.{at, push_words-at, push_words_overflow, pad, reserve-at}
use sirit.Stream.Operands.{all_valid, operands_words}
use sirit.Stream.Heads.{head_bound, valid_head, head_op, end_op-at}
use sirit.Stream.Chain.{raw_words, put_chain-push_words}
use sirit.Emission.{Emission}
use sirit.Emission.Exact.{accepted, word_count, instruction}
use sirit.Declarations.{Table, Declarations, find, index_of, end_lookup, end_declaration, declare}

-- A declaration has a result id.
abbrev pub HasId : Head → Type 0
HasId (plain op) = ⊥
HasId _ = Unit

module _ ⦃p : Platform⦄ where
  -- The words of a declaration with 0 for its id and no length in the first.
  abbrev head_key : Head → List ℕ
  head_key (plain op) = p.op_code op ∷ []
  head_key (with_id op) = p.op_code op ∷ 0 ∷ []
  head_key (with_type op t) = p.op_code op ∷ t.value ∷ 0 ∷ []

  abbrev pub key : Emission → List ℕ
  key e = head_key e.head ++ operands_words e.operands

  -- The declarations in the form that the stream's `at` has.
  abbrev pub declared : List ℕ → List ℕ → ℕ → Table → ℕ → Declarations
  declared front room op table index = record {
    stream = at front room op;
    existing_declarations = table;
    id_index = index;
  }

  key_of_raw :
      (h : Head) (os : List Operand) (bound : ℕ)
      → HasId h
      → valid_head h ≡ true
      → (index_of h < length (raw_words h os bound))
        × (get_or (raw_words h os bound) (index_of h) 0 ≡ head_bound h bound)
        × (set (raw_words h os bound) (index_of h) 0 ≡ head_key h ++ operands_words os)
  key_of_raw (plain op) os bound n v = absurd n
  key_of_raw (with_id op) os bound n v = (omega arith, refl, refl)
  key_of_raw (with_type op t) os bound n v = rw (not_zero t.value v) (omega arith, refl, refl)
    where
      not_zero : (w : ℕ) → not (w == 0) ≡ true → (w == 0) ≡ false
      not_zero w h = ground arith

  end_declaration_lem :
      (words raw : List ℕ) (i o k bound : ℕ) (t : Table)
      → drop o (take i words) ≡ raw
      → k < length raw
      → get_or raw k 0 ≡ bound
      → let d : Declarations = record {
        stream = record { words = words; insert_index = i; op_index = o };
        existing_declarations = t;
        id_index = k;
      } in
        end_declaration bound d ≡ end_lookup (find (set raw k 0) t) (set raw k 0) bound bound d
  unfolding end_declaration
  end_declaration_lem words raw i o k bound t e lt g = rw (e, lt→ltb k (length raw) lt, g)

  -- `EndOp` where the lookup has found `known`, after the words of the declaration.
  abbrev after_lookup :
      Emission → ℕ → List ℕ → List ℕ → Table → Option ℕ → Outcome (SpvId × ℕ × Declarations)
  after_lookup e bound front room t known =
      end_lookup known (key e) (head_bound e.head bound) (head_bound e.head bound) (
        declared (front ++ raw_words e.head e.operands bound)
          (drop (word_count e bound) (pad e.num_words room)) (length front) t (index_of e.head))

  -- A declaration up to its lookup.
  declare_lookup :
      (e : Emission) (bound : ℕ) (front room : List ℕ) (op : ℕ) (t : Table) (k : ℕ)
      → HasId e.head
      → accepted e ≡ true
      → word_count e bound ≤ length (pad e.num_words room)
      → declare e bound (declared front room op t k)
        ≡ after_lookup e bound front room t (find (key e) t)
  unfolding declare
  declare_lookup e bound front room op t k n h fits =
      let (ha, hr) = &&-split e.asserts (valid_head e.head && all_valid e.operands) h in
      let (hh, ho) = &&-split (valid_head e.head) (all_valid e.operands) hr in
      let (lt, got, cleared) = key_of_raw e.head e.operands bound n hh in
      rw (ha, reserve-at)
        (put_chain-push_words e.head e.operands bound _ finish hh ho
          ∙ ap (λ m. m >>= finish new_bound) (push_words-at raw front _ (length front) fits)
          ∙ end_declaration_lem _ raw _ (length front) (index_of e.head) new_bound t slice lt got
          ∙ ap (λ q. end_lookup (find q t) q new_bound new_bound written) cleared)
    where
      raw : List ℕ
      raw = raw_words e.head e.operands bound

      new_bound : ℕ
      new_bound = head_bound e.head bound

      finish : ℕ → Stream → Outcome (SpvId × ℕ × Declarations)
      finish b s =
          end_declaration b
            (record { stream = s; existing_declarations = t; id_index = index_of e.head })

      written : Declarations
      written =
          declared (front ++ raw) (drop (word_count e bound) (pad e.num_words room)) (length front)
            t (index_of e.head)

      slice :
          drop (length front) (
            take
              (length (front ++ raw))
              ((front ++ raw) ++ drop (word_count e bound) (pad e.num_words room)))
          ≡ raw
      slice = ap (drop (length front)) (take-append (front ++ raw) _) ∙ drop-append front raw

  -- A declaration with an id, its `assert`s holding and with room enough, that is not in the table
  -- is appended to the stream, takes the next id, and is entered in the table under its key with
  -- that id.
  pub declare_new :
      (e : Emission) (bound : ℕ) (front room : List ℕ) (op : ℕ) (t : Table) (k : ℕ)
      → HasId e.head
      → accepted e ≡ true
      → word_count e bound ≤ length (pad e.num_words room)
      → find (key e) t ≡ none
      → let id = head_bound e.head bound in
        declare e bound (declared front room op t k)
        ≡ ok (
          record { value = id },
          id,
          declared
              (front ++ instruction e bound)
              (drop (word_count e bound) (pad e.num_words room))
              (length front)
              ((key e, id) ∷ t)
              (index_of e.head),
        )
  unfolding end_lookup
  declare_new e bound front room op t k n h fits miss =
      declare_lookup e bound front room op t k n h fits
      ∙ ap (after_lookup e bound front room t) miss
      ∙ ap
          (λ m. m >>= λ s.
            ok (record { value = head_bound e.head bound }, head_bound e.head bound, entered s))
          (end_op-at front _ _ (p.op_code (head_op e.head)))
    where
      entered : Stream → Declarations
      entered s = record {
        stream = s;
        existing_declarations = (key e, head_bound e.head bound) ∷ t;
        id_index = index_of e.head;
      }

  -- A declaration with an id, its `assert`s holding and with room enough, that is in the table
  -- returns the id that the table has for it: `*bound`, which is below 2 ^ 32, the words before the
  -- cursor and the table are what they were before the call.
  pub declare_known :
      (e : Emission) (bound : ℕ) (front room : List ℕ) (op : ℕ) (t : Table) (k i : ℕ)
      → HasId e.head
      → accepted e ≡ true
      → word_count e bound ≤ length (pad e.num_words room)
      → bound < 2 ^ 32
      → find (key e) t ≡ some i
      → declare e bound (declared front room op t k)
        ≡ ok (
          record { value = i },
          bound,
          declared front
              (raw_words e.head e.operands bound
                ++ drop (word_count e bound) (pad e.num_words room))
              (length front)
              t
              (index_of e.head),
        )
  unfolding end_lookup
  declare_known e bound front room op t k i n h fits small hit =
      declare_lookup e bound front room op t k n h fits
      ∙ ap (after_lookup e bound front room t) hit
      ∙ λ j. ok (
        record { value = i },
        back j,
        record {
          stream = record {
            words =
                append_assoc front (raw_words e.head e.operands bound)
                  (drop (word_count e bound) (pad e.num_words room)) j;
            insert_index = length front;
            op_index = length front;
          };
          existing_declarations = t;
          id_index = index_of e.head;
        },
      )
    where
      advanced : (h : Head) → HasId h → head_bound h bound ≡ (bound + 1) % 2 ^ 32
      advanced (plain op) n = absurd n
      advanced (with_id op) n = refl
      advanced (with_type op t) n = refl

      back : (head_bound e.head bound + 2 ^ 32 - 1) % 2 ^ 32 ≡ bound
      back = omega (arith, advanced e.head n)

  -- A declaration that writes more than it reserves, with too little room from before, writes outside
  -- of the vector.
  pub declare_overflow :
      (e : Emission) (bound : ℕ) (front room : List ℕ) (op : ℕ) (t : Table) (k : ℕ)
      → accepted e ≡ true
      → length (pad e.num_words room) < word_count e bound
      → declare e bound (declared front room op t k) ≡ fault out_of_bounds
  unfolding declare
  declare_overflow e bound front room op t k h short =
      let (ha, hr) = &&-split e.asserts (valid_head e.head && all_valid e.operands) h in
      let (hh, ho) = &&-split (valid_head e.head) (all_valid e.operands) hr in
      rw (ha, reserve-at)
        (put_chain-push_words e.head e.operands bound _
            (λ b s.
              end_declaration b
                (record { stream = s; existing_declarations = t; id_index = index_of e.head }))
            hh ho
          ∙ ap
              (λ m. m >>= λ s.
                end_declaration (head_bound e.head bound)
                  (record { stream = s; existing_declarations = t; id_index = index_of e.head }))
              (push_words_overflow (raw_words e.head e.operands bound) front _ (length front)
                short))
