-- ===== src/Module/Draft/Calls.antt =====
-- A call of any method that is one chain does to a module what it does to its draft.
use mathlib.Core.Path.{subst, ap₂}
use sirit.Base.{
  ℕ, ◌+◌, ◌^◌, ◌<◌, ◌≡◌, refl, sym, ap, ◌∙◌, inl, inr, Bool-cases, none, some, List, ◌∷◌, ◌++◌,
  arith, concat, ok, ok-injective, ◌>>=◌,
}
use sirit.Spirv.{Platform}
use sirit.Stream.{SpvId, Stream, contents}
use sirit.Stream.Heads.{head_bound}
use sirit.Emission.{Section, declarations, Emission}
use sirit.Emission.Exact.{instruction}
use sirit.Emission.Runs.{emit_runs}
use sirit.Emission.Size.{word_count-written}
use sirit.Declarations.{Declarations, Table, find}
use sirit.Declarations.Declare.{key, HasId}
use sirit.Declarations.Intern.{IsDeclaration, Declared, declare-refines-intern}
use sirit.Module.{Module, call, call_on}
use sirit.Module.Valid.{IsValid, IsCall, Identified}
use sirit.Module.Valid.Written.{written_at}
use sirit.Module.Valid.Calls.{call-IsValid}
use sirit.Module.Draft.{Draft, draft_declare, draft_on, draft_call}
use sirit.Module.Streams.{
  same, stream_of, put_stream, stream_of-put_stream, stream_of-declarations, call_on-put_stream,
  same→eq,
}
use sirit.Module.Draft.Refine.{
  IsDrafted, write-holds, write-IsInstruction, call-IsInstruction, stream-IsDrafted,
}

module _ ⦃p : Platform⦄ where
  kept-holds :
      (k s : Section) (x : Stream) (m : Module) (written : Section → List (List ℕ))
      → ((s : Section) → contents (stream_of s m) ≡ concat (written s))
      → contents x ≡ contents (stream_of k m)
      → contents (stream_of s (put_stream k x m)) ≡ concat (written s)
  kept-holds k s x m written h kept =
      ap (λ s. contents s) (stream_of-put_stream k s x m) ∙ elim (Bool-cases (same s k)) [
        | inl e ↦ rw e (kept ∙ ap (λ k. contents (stream_of k m)) (sym (same→eq s k e)) ∙ h s)
        | inr e ↦ rw e (h s)
      ]

  -- A declaration.
  declare-IsDrafted :
      (e : Emission) (m : Module) (d : Draft) (i bound' : ℕ) (d' : Declarations)
      → IsCall e
      → HasId e.head
      → IsDrafted m d
      → Declared e m.bound m.declarations i bound' d'
      → (i ≡ (draft_declare (find (key e) d.table) e d).0)
        × IsDrafted
            (record m { bound = bound'; declarations = d' })
            (draft_declare (find (key e) d.table) e d).1
  declare-IsDrafted e m d i bound' d' c n v w = elim w.grows [
    | inl (j, hit, kept) ↦
        let found : find (key e) d.table ≡ some j = ap (find (key e)) (sym v.table) ∙ hit in
        let answer : (i, bound', d'.existing_declarations)
            ≡ (j, m.bound, m.declarations.existing_declarations) =
          w.interns ∙ rw hit refl in
        rw found (
          ap (λ (r : ℕ × ℕ × Table). r.0) answer,
          record {
            bound = ap (λ (r : ℕ × ℕ × Table). r.1) answer ∙ v.bound;
            table = ap (λ (r : ℕ × ℕ × Table). r.2) answer ∙ v.table;
            holds = λ s.
                ap (λ s. contents s) (stream_of-declarations s bound' d' m)
                ∙ kept-holds declarations s d'.stream m d.written v.holds kept;
            whole = v.whole;
            front = v.front;
          },
        )
    | inr (miss, grown) ↦
        let absent : find (key e) d.table ≡ none = ap (find (key e)) (sym v.table) ∙ miss in
        let answer : (i, bound', d'.existing_declarations) ≡ (
          m.bound + 1,
          m.bound + 1,
          (key e, m.bound + 1) ∷ m.declarations.existing_declarations,
        ) =
          w.interns ∙ rw miss refl in
        rw absent (
          ap (λ (r : ℕ × ℕ × Table). r.0) answer ∙ ap (λ b. b + 1) v.bound,
          record {
            bound = ap (λ (r : ℕ × ℕ × Table). r.1) answer ∙ ap (λ b. b + 1) v.bound;
            table =
                ap (λ (r : ℕ × ℕ × Table). r.2) answer
                ∙ ap₂ (λ (b : ℕ) (t : Table). (key e, b + 1) ∷ t) v.bound v.table;
            holds = λ s.
                ap (λ s. contents s) (stream_of-declarations s bound' d' m)
                ∙ write-holds declarations s (instruction e d.bound) d'.stream m d.written v.holds
                    (grown ∙ ap (λ b. contents m.declarations.stream ++ instruction e b) v.bound);
            whole = λ s.
                write-IsInstruction declarations s (instruction e d.bound) d.written v.whole
                  (call-IsInstruction e d.bound c);
            front = v.front;
          },
        )
  ]

  call_on-IsDrafted :
      (k : Section) (e : Emission) (m : Module) (d : Draft)
      → IsCall e
      → Identified k e.head
      → m.bound + 1 < 2 ^ 32
      → IsValid m
      → IsDrafted m d
      → (m' : Module) × (call_on k e m ≡ ok (record { value = (draft_on k e d).0 }, m'))
        × IsDrafted m' (draft_on k e d).1
  call_on-IsDrafted declarations e m d c n small v h =
      let t : IsDeclaration e m.bound = record {
        has_id = n;
        accepts = c.accepts;
        fits = omega (arith, c.enough, word_count-written e m.bound);
      } in
      let (i, bound', d', w) = declare-refines-intern e m.bound m.declarations t small v.interned in
      let (answer, drafted) = declare-IsDrafted e m d i bound' d' c n h w in
      (
        record m { bound = bound'; declarations = d' },
        ap (λ o. o >>= λ (i, b, d). ok (i, record m { bound = b; declarations = d })) w.runs
            ∙ ap
                (λ (n : ℕ).
                  ok (record { value = n }, record m { bound = bound'; declarations = d' }))
                answer,
        drafted,
      )
  call_on-IsDrafted k e m d c n small v h =
      let (s, w) =
        emit_runs e m.bound (stream_of k m) c.enough c.accepts (written_at k m v.written).inside in
      (
        put_stream k s (record m { bound = head_bound e.head m.bound }),
        call_on-put_stream k e m refl
            ∙ ap (λ o. o >>= λ (i, b, s). ok (i, put_stream k s (record m { bound = b }))) w.runs
            ∙ ap
                (λ (n : ℕ). ok (
                  record { value = n },
                  put_stream k s (record m { bound = head_bound e.head m.bound }),
                ))
                (ap (head_bound e.head) h.bound),
        stream-IsDrafted k e m d s refl c h w,
      )

  -- What a call leaves: the id that the draft answers, and a valid module that is what the draft says.
  pub record Follows (e : Emission) (m : Module) (d : Draft) (m' : Module) : Type 0 where
    pub runs : call e m ≡ ok (record { value = (draft_call e d).0 }, m')
    pub valid : IsValid m'
    pub drafted : IsDrafted m' (draft_call e d).1

  -- Every method that is one chain, its `assert`s holding, its reservation enough and its
  -- instruction not too long, refines its draft: on a valid module that is what a draft says it runs,
  -- returns the draft's answer and leaves a valid module that is what the changed draft says, if the
  -- counter is below 2 ^ 32 - 1 and what declares has an id.
  pub call-refines-draft_call :
      (e : Emission) (m : Module) (d : Draft)
      → IsCall e
      → Identified e.section e.head
      → m.bound + 1 < 2 ^ 32
      → IsValid m
      → IsDrafted m d
      → (m' : Module) × Follows e m d m'
  unfolding call
  call-refines-draft_call e m d c n small v h =
      let (m', run, drafted) = call_on-IsDrafted e.section e m d c n small v h in
      let (j, m'', w) = call-IsValid e m c n small v in
      (
        m',
        record {
          runs = run;
          valid =
              subst (λ (q : SpvId × Module). IsValid q.1) (ok-injective (sym w.runs ∙ run)) w.valid;
          drafted = drafted;
        },
      )
