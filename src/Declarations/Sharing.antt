-- ===== src/Declarations/Sharing.antt =====
-- When two declarations of a module have one id, whatever happens between them.
use mathlib.Core.Path.{subst}
use mathlib.Core.Logic.{◌↔◌}
use sirit.Base.{
  ℕ, ◌+◌, ◌^◌, ◌≤◌, ◌<◌, ◌≡◌, refl, sym, ap, ◌∙◌, inl, inr, some, List, arith, ok, ok-injective,
  Option-cases, Bool-cases, length, drop,
}
use sirit.Spirv.{Platform}
use sirit.Stream.{SpvId, contents}
use sirit.Emission.{Emission}
use sirit.Declarations.{Table, Declarations, find, words_eq, declare}
use sirit.Declarations.Table.{
  IsFalling-mono, find_injective, words_eq_self, words_eq→eq, find-bounds,
}
use sirit.Stream.Words.{view, contents-at, length-pad}
use sirit.Declarations.Declare.{key, declare_known}
use sirit.Declarations.Intern.{intern, IsInterned, IsDeclaration, Declared, declare-refines-intern}

-- The abstract table knows a key after it has been interned, with the id that it answered.
find-intern :
    (k : List ℕ) (bound : ℕ) (t : Table) → find k (intern k bound t).2 ≡ some (intern k bound t).0
find-intern k bound t = elim (Option-cases (find k t)) [
  | inl miss ↦ rw miss (unfold find in rw (words_eq_self k))
  | inr (i, hit) ↦ rw hit hit
]

intern-bound : (k : List ℕ) (bound : ℕ) (t : Table) → bound ≤ (intern k bound t).1
intern-bound k bound t = elim (Option-cases (find k t)) [
  | inl miss ↦ rw miss (omega arith)
  | inr (i, hit) ↦ rw hit (omega arith)
]

-- It forgets nothing.
find-intern_other :
    (k l : List ℕ) (bound j : ℕ) (t : Table)
    → find l t ≡ some j
    → find l (intern k bound t).2 ≡ some j
find-intern_other k l bound j t h = elim (Option-cases (find k t)) [
  | inl miss ↦ rw miss (elim (Bool-cases (words_eq k l)) [
    | inl e ↦ cc (miss, h, words_eq→eq k l e)
    | inr e ↦ unfold find in rw e h
  ])
  | inr (i, hit) ↦ rw hit h
]

module _ ⦃p : Platform⦄ where
  -- What a run of `declare` tells.
  run-Declared :
      (e : Emission) (bound : ℕ) (d : Declarations) {x : SpvId} {bound' : ℕ} {d' : Declarations}
      → IsDeclaration e bound
      → bound + 1 < 2 ^ 32
      → IsInterned bound d
      → declare e bound d ≡ ok (x, bound', d')
      → Declared e bound d x.value bound' d'
  run-Declared e bound d c small v h =
      let (i, b, r, w) = declare-refines-intern e bound d c small v in
      subst (λ (r : SpvId × ℕ × Declarations). Declared e bound d r.0.value r.1 r.2)
        (ok-injective (sym w.runs ∙ h)) w

  -- What may happen between two declarations: further ones, and ids taken by the other streams.
  pub data Later (bound : ℕ) (d : Declarations) : ℕ → Declarations → Type 0 where
    here : Later bound d bound d
    declaration :
        {m : ℕ} {d' : Declarations}
        → Later bound d m d'
        → (e : Emission) → IsDeclaration e m
        → m + 1 < 2 ^ 32
        → {x : SpvId} {n : ℕ} {d'' : Declarations} → declare e m d' ≡ ok (x, n, d'')
        → Later bound d n d''
    elsewhere :
        {m : ℕ} {d' : Declarations}
        → Later bound d m d'
        → (n : ℕ) → m ≤ n
        → n < 2 ^ 32
        → Later bound d n d'

  pub Later-trans :
      {b1 b2 : ℕ} {d1 d2 : Declarations} {b3 : ℕ} {d3 : Declarations}
      → Later b1 d1 b2 d2
      → Later b2 d2 b3 d3
      → Later b1 d1 b3 d3
  Later-trans l here = l
  Later-trans l (declaration k e c small run) = declaration (Later-trans l k) e c small run
  Later-trans l (elsewhere k n le small) = elsewhere (Later-trans l k) n le small

  -- Further declarations, and ids taken elsewhere, keep the table in step with its stream.
  Later-IsInterned :
      {bound : ℕ} {d : Declarations} {n : ℕ} {d' : Declarations}
      → IsInterned bound d
      → Later bound d n d'
      → IsInterned n d'
  Later-IsInterned v here = v
  Later-IsInterned v (declaration {m} {d'} l e c small run) =
      (run-Declared e m d' c small (Later-IsInterned v l) run).keeps
  Later-IsInterned v (elsewhere {m} {d'} l n le small) =
      let w = Later-IsInterned v l in
      record {
        in_vector = w.in_vector;
        small = small;
        falling = IsFalling-mono d'.existing_declarations m n le w.falling;
        holds = w.holds;
      }

  find-Later :
      {bound : ℕ} {d : Declarations} {n : ℕ} {d' : Declarations} (k : List ℕ) (j : ℕ)
      → IsInterned bound d
      → Later bound d n d'
      → find k d.existing_declarations ≡ some j
      → find k d'.existing_declarations ≡ some j
  find-Later k j v here h = h
  find-Later k j v (declaration {m} {d'} l e c small run) h =
      let w = run-Declared e m d' c small (Later-IsInterned v l) run in
      subst (λ (r : ℕ × ℕ × Table). find k r.2 ≡ some j) (sym w.interns)
        (find-intern_other (key e) k m j d'.existing_declarations (find-Later k j v l h))
  find-Later k j v (elsewhere l n le small) h = find-Later k j v l h

  find-Declared :
      {e : Emission} {bound i bound' : ℕ} {d d' : Declarations}
      → Declared e bound d i bound' d'
      → find (key e) d'.existing_declarations ≡ some i
  find-Declared {e} {bound} {d} w =
      subst (λ (r : ℕ × ℕ × Table). find (key e) r.2 ≡ some r.0) (sym w.interns)
        (find-intern (key e) bound d.existing_declarations)

  -- The id that a declaration returns is valid and at most the new `*bound`, which has not fallen.
  pub Declared-bounds :
      {e : Emission} {bound i bound' : ℕ} {d d' : Declarations}
      → Declared e bound d i bound' d'
      → (0 < i) × (i ≤ bound') × (bound ≤ bound')
  Declared-bounds {e} {bound} {i} {bound'} {d} {d'} w = omega (
    arith,
    find-bounds (key e) d'.existing_declarations bound' i w.keeps.falling (find-Declared w),
    ap (λ (r : ℕ × ℕ × Table). r.1) w.interns,
    intern-bound (key e) bound d.existing_declarations,
  )

  -- Two declarations that run, on a table in step with its stream, return the same id exactly when
  -- their keys agree: opcode, result type and operands. Between them may lie further declarations,
  -- and ids taken elsewhere; each declaration has its `assert`s hold and reserves enough, and the
  -- counter stays below 2 ^ 32.
  pub declare-eq_iff :
      (e e' : Emission) (b b1 b2 b3 : ℕ) (d d1 d2 d3 : Declarations) (x y : SpvId)
      → IsInterned b d
      → IsDeclaration e b
      → b + 1 < 2 ^ 32
      → declare e b d ≡ ok (x, b1, d1)
      → Later b1 d1 b2 d2
      → IsDeclaration e' b2
      → b2 + 1 < 2 ^ 32
      → declare e' b2 d2 ≡ ok (y, b3, d3)
      → (x.value ≡ y.value) ↔ (key e ≡ key e')
  declare-eq_iff e e' b b1 b2 b3 d d1 d2 d3 x y v c small run l c' small' run' = (
    λ same.
        find_injective (key e) (key e') d3.existing_declarations b3 x.value w'.keeps.falling known
          (find-Declared w' ∙ ap some (sym same)),
    λ same. cc (
      known,
      subst (λ k. find k d3.existing_declarations ≡ some y.value) (sym same) (find-Declared w'),
    ),
  )
    where
      w : Declared e b d x.value b1 d1
      w = run-Declared e b d c small v run

      w' : Declared e' b2 d2 y.value b3 d3
      w' = run-Declared e' b2 d2 c' small' (Later-IsInterned w.keeps l) run'

      known : find (key e) d3.existing_declarations ≡ some x.value
      known = find-Later (key e) x.value w.keeps (declaration l e' c' small' run') (find-Declared w)

  declare_hit :
      (e : Emission) (bound i : ℕ) (d : Declarations)
      → IsDeclaration e bound
      → bound < 2 ^ 32
      → d.stream.insert_index ≤ length d.stream.words
      → find (key e) d.existing_declarations ≡ some i
      → (d' : Declarations) × (declare e bound d ≡ ok (record { value = i }, bound, d'))
        × (contents d'.stream ≡ contents d.stream)
        × (d'.existing_declarations ≡ d.existing_declarations)
  declare_hit e bound i d c small inside hit =
      let front = contents d.stream in
      let room = drop d.stream.insert_index d.stream.words in
      subst
        (λ s.
          (d' : Declarations) × (declare e bound (record d { stream = s })
            ≡ ok (record { value = i }, bound, d'))
          × (contents d'.stream ≡ contents s)
          × (d'.existing_declarations ≡ d.existing_declarations))
        (sym (view d.stream inside))
        (
          _,
          declare_known e bound front room d.stream.op_index d.existing_declarations d.id_index i
              c.has_id c.accepts (omega (arith, length-pad e.num_words room, c.fits)) small hit,
          contents-at front _ _ ∙ sym (contents-at front room d.stream.op_index),
          refl,
        )

  -- A declaration that was made before, with further declarations and ids taken elsewhere in
  -- between, returns the id of then; the words of the stream, the table and `*bound` stay. Its
  -- `assert`s hold, it reserves enough, and the counter is below 2 ^ 32 - 1.
  pub declare_again :
      (e : Emission) (b b1 b2 : ℕ) (d d1 d2 : Declarations) (x : SpvId)
      → IsInterned b d
      → IsDeclaration e b
      → b + 1 < 2 ^ 32
      → declare e b d ≡ ok (x, b1, d1)
      → Later b1 d1 b2 d2
      → IsDeclaration e b2
      → b2 + 1 < 2 ^ 32
      → (d3 : Declarations) × (declare e b2 d2 ≡ ok (x, b2, d3))
        × (contents d3.stream ≡ contents d2.stream)
        × (d3.existing_declarations ≡ d2.existing_declarations)
  declare_again e b b1 b2 d d1 d2 x v c small run l c' small' =
      let w = run-Declared e b d c small v run in
      declare_hit e b2 x.value d2 c' (omega arith) (Later-IsInterned w.keeps l).in_vector
        (find-Later (key e) x.value w.keeps l (find-Declared w))
