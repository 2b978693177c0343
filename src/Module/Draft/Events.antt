-- ===== src/Module/Draft/Events.antt =====
-- The calls of a client as data, on a module and on its draft.
use mathlib.Core.Path.{subst}
use sirit.Base.{
  ℕ, ◌+◌, ◌%◌, ◌^◌, ◌≤◌, ◌<◌, ◌≡◌, refl, sym, ap, ◌∙◌, true, none, some, inl, inr, Option-cases,
  List, [], ◌∷◌, arith, length, Outcome, ok, ◌>>=◌, Option,
}
use sirit.Spirv.{Op, Platform, GlslStd450}
use sirit.Stream.{SpvId, valid_id, contents, Head, plain, with_id, with_type}
use sirit.Stream.Heads.{head_bound}
use sirit.Emission.{Section, declarations, code, Emission, ext_inst_imports}
use sirit.Declarations.{find}
use sirit.Declarations.Declare.{key}
use sirit.Module.{
  Module, call, add_label, op_label, add_capability, add_extension, set_memory_model, insert_word,
  insert_text, make_word0, glsl_method, import_glsl, op_ext_inst, call_for,
}
use sirit.Module.Assemble.Parse.{IsInstruction}
use sirit.Module.Assemble.Layout.{header-IsInstruction}
use sirit.Module.Label.{label_words, Labelled, add_label_lem}
use sirit.Module.Valid.{IsValid, IsCall, Identified}
use sirit.Module.Draft.{Draft, write, draft_on, draft_call}
use sirit.Module.Streams.{Front, stream_of-bound}
use sirit.Module.Draft.Refine.{IsDrafted, kept-IsDrafted, write-holds, write-IsInstruction}
use sirit.Module.Draft.Calls.{call-refines-draft_call}
use sirit.Module.Sets.{insert_word-IsUnique, insert_text-IsUnique}
use sirit.Module.Reach.{kept-Stepped}
use sirit.Module.Steps.{Stepped, label-Stepped, op_label-Stepped}
use sirit.Stream.Operands.{valid_ids}
use sirit.Module.Draft.Glsl.{draft_glsl, draft_extended, glsl_method-refines-draft_extended}

-- A method that is one chain, a label, a fresh id, or an entry of what stands before the streams.
-- `naming` is a method that returns its target, as `Name` and `MemberName` do.
pub data Event : Type 0 where
  method : Emission → Event
  naming : SpvId → Emission → Event
  label : SpvId → Event
  fresh : Event
  extended : GlslStd450 → SpvId → List SpvId → Event
  capability : ℕ → Event
  extension : List ℕ → Event
  model : ℕ → ℕ → Event

-- The `assert`s hold, what is written is reserved and fits its header, and what declares has an id.
abbrev pub IsProper : Event → Type 0
IsProper (method e) = IsCall e × Identified e.section e.head
IsProper (naming target e) = IsCall e × Identified e.section e.head
IsProper (label l) = valid_id l ≡ true
IsProper (extended op t operands) =
    (valid_id t ≡ true) × (valid_ids operands ≡ true) × (5 + length operands < 2 ^ 16)
IsProper _ = Unit

module _ ⦃p : Platform⦄ where
  abbrev pub perform : Event → Module → Outcome (ℕ × Module)
  perform (method e) m = do (i, m') ← call e m; ok (i.value, m')
  perform (naming target e) m = do (i, m') ← call_for target e m; ok (i.value, m')
  perform (label l) m = do (i, m') ← add_label l m; ok (i.value, m')
  perform fresh m = do (i, m') ← op_label m; ok (i.value, m')
  perform (extended op t operands) m = do (i, m') ← glsl_method op t operands m; ok (i.value, m')
  perform (capability c) m = ok (0, add_capability c m)
  perform (extension x) m = ok (0, add_extension x m)
  perform (model a b) m = ok (0, set_memory_model a b m)

  abbrev pub draft : Event → Draft → ℕ × Draft
  draft (method e) d = draft_call e d
  draft (naming target e) d = (target.value, (draft_call e d).1)
  draft (label l) d = (l.value, record d { written = write code (label_words l) d.written })
  draft fresh d = (d.bound + 1, record d { bound = d.bound + 1 })
  draft (extended op t operands) d = draft_extended op t operands d
  draft (capability c) d = (0, record d { capabilities = insert_word c d.capabilities })
  draft (extension x) d = (0, record d { extensions = insert_text x d.extensions })
  draft (model a b) d = (0, record d { addressing_model = a; memory_model = b })

  label_words-IsInstruction : (l : SpvId) → IsInstruction (label_words l)
  unfolding make_word0
  label_words-IsInstruction l =
      header-IsInstruction (p.op_code Op.op_label) 2 (p.op_code-lt _) (omega arith)

  head_bound-next_le : (h : Head) (bound : ℕ) → bound + 1 < 2 ^ 32 → head_bound h bound ≤ bound + 1
  head_bound-next_le (plain op) bound h = omega arith
  head_bound-next_le (with_id op) bound h = omega arith
  head_bound-next_le (with_type op t) bound h = omega arith

  draft_on-bound :
      (k : Section) (e : Emission) (d : Draft)
      → d.bound + 1 < 2 ^ 32
      → (draft_on k e d).1.bound ≤ d.bound + 1
  draft_on-bound declarations e d h = elim (Option-cases (find (key e) d.table)) [
    | inl miss ↦ rw miss (omega arith)
    | inr (i, hit) ↦ rw hit (omega arith)
  ]
  draft_on-bound _ e d h = head_bound-next_le e.head d.bound h

  draft_glsl-bound :
      (set : Option SpvId) (d : Draft)
      → d.bound + 1 < 2 ^ 32
      → (draft_glsl set d).1.bound ≤ d.bound + 1
  unfolding import_glsl
  draft_glsl-bound (some i) d h = omega arith
  draft_glsl-bound none d h = draft_on-bound ext_inst_imports import_glsl d h

  draft_extended-bound :
      (op : GlslStd450) (t : SpvId) (operands : List SpvId) (d : Draft)
      → d.bound + 2 < 2 ^ 32
      → (draft_extended op t operands d).1.bound ≤ d.bound + 2
  unfolding op_ext_inst
  draft_extended-bound op t operands d h =
      let set = draft_glsl d.glsl_std_450 d in
      let first = draft_glsl-bound d.glsl_std_450 d (omega arith) in
      omega (
        arith,
        first,
        draft_on-bound code (op_ext_inst t set.0 (p.glsl_code op) operands) set.1
            (omega (arith, first)),
      )

  pub draft-bound :
      (x : Event) (d : Draft) → d.bound + 2 < 2 ^ 32 → (draft x d).1.bound ≤ d.bound + 2
  draft-bound (method e) d h = omega (arith, draft_on-bound e.section e d (omega arith))
  draft-bound (naming target e) d h = omega (arith, draft_on-bound e.section e d (omega arith))
  draft-bound (extended op t operands) d h = draft_extended-bound op t operands d h
  draft-bound _ d h = omega arith

  -- The module after a call, and its draft.
  pub record Performed (x : Event) (m : Module) (d : Draft) (m' : Module) : Type 0 where
    pub runs : perform x m ≡ ok ((draft x d).0, m')
    pub valid : IsValid m'
    pub drafted : IsDrafted m' (draft x d).1

  label-IsDrafted :
      (l : SpvId) (m m' : Module) (d : Draft)
      → IsDrafted m d
      → Labelled l m m'
      → IsDrafted m' (record d { written = write code (label_words l) d.written })
  label-IsDrafted l m m' d h w =
      subst (λ m. IsDrafted m (record d { written = write code (label_words l) d.written }))
        (sym w.only_code)
        (record {
          bound = h.bound;
          table = h.table;
          holds = λ s. write-holds code s (label_words l) m'.code m d.written h.holds w.appends;
          whole = λ s.
              write-IsInstruction code s (label_words l) d.written h.whole
                (label_words-IsInstruction l);
          front = h.front;
        })

  -- Each call of a client refines its draft.
  pub perform-refines-draft :
      (x : Event) (m : Module) (d : Draft)
      → IsProper x
      → m.bound + 2 < 2 ^ 32
      → IsValid m
      → IsDrafted m d
      → (m' : Module) × Performed x m d m'
  unfolding add_capability add_extension set_memory_model op_label
  perform-refines-draft (method e) m d (c, n) small v h =
      let (m', w) = call-refines-draft_call e m d c n (omega arith) v h in
      (
        m',
        record {
          runs = ap (λ o. o >>= λ (q : SpvId × Module). ok (q.0.value, q.1)) w.runs;
          valid = w.valid;
          drafted = w.drafted;
        },
      )
  perform-refines-draft (naming target e) m d (c, n) small v h =
      let (m', w) = call-refines-draft_call e m d c n (omega arith) v h in
      (
        m',
        record {
          runs =
              ap
                (λ o. (o >>= λ (q : SpvId × Module). ok (target, q.1)) >>= λ (q : SpvId × Module).
                  ok (q.0.value, q.1))
                w.runs;
          valid = w.valid;
          drafted = w.drafted;
        },
      )
  perform-refines-draft (label l) m d hl small v h =
      let (m', w) = add_label_lem l m hl v.written.1.1.1.1.1.1.1.0.inside in
      let stepped : Stepped m [] m' = label-Stepped l hl v w.runs in
      (
        m',
        record {
          runs = ap (λ o. o >>= λ (q : SpvId × Module). ok (q.0.value, q.1)) w.runs;
          valid = stepped.valid;
          drafted = label-IsDrafted l m m' d h w;
        },
      )
  perform-refines-draft fresh m d hx small v h =
      let m' = record m { bound = (m.bound + 1) % 2 ^ 32 } in
      let stepped : Stepped m ((m.bound + 1) % 2 ^ 32 ∷ []) m' =
        op_label-Stepped {i = record { value = (m.bound + 1) % 2 ^ 32 }} (omega arith) v refl in
      (
        m',
        record {
          runs =
              ap (λ (n : ℕ). ok (n, m')) {x = (m.bound + 1) % 2 ^ 32} {y = d.bound + 1}
                (omega (arith, h.bound));
          valid = stepped.valid;
          drafted = record {
            bound = omega (arith, h.bound);
            table = h.table;
            holds = λ s.
                ap (λ s. contents s) (stream_of-bound s ((m.bound + 1) % 2 ^ 32) m) ∙ h.holds s;
            whole = h.whole;
            front = h.front;
          };
        },
      )
  perform-refines-draft (extended op t operands) m d (ht, ho, short) small v h =
      let (m', run, v', drafted) =
        glsl_method-refines-draft_extended op t operands m d ht ho short small v h in
      (
        m',
        record {
          runs = ap (λ o. o >>= λ (q : SpvId × Module). ok (q.0.value, q.1)) run;
          valid = v';
          drafted = drafted;
        },
      )
  perform-refines-draft (capability c) m d hx small v h = (
    add_capability c m,
    record {
      runs = refl;
      valid =
          (kept-Stepped m (insert_word c m.capabilities) m.extensions m.addressing_model
            m.memory_model v (insert_word-IsUnique c m.capabilities v.unique.0) v.unique.1).valid;
      drafted =
          kept-IsDrafted m d _ _ _ _ _ _ _ _ _ _ h
            (ap (λ (f : Front). (insert_word c f.0, f.1, f.2, f.3, f.4)) h.front);
    },
  )
  perform-refines-draft (extension x) m d hx small v h = (
    add_extension x m,
    record {
      runs = refl;
      valid =
          (kept-Stepped m m.capabilities (insert_text x m.extensions) m.addressing_model
            m.memory_model v v.unique.0 (insert_text-IsUnique x m.extensions v.unique.1)).valid;
      drafted =
          kept-IsDrafted m d _ _ _ _ _ _ _ _ _ _ h
            (ap (λ (f : Front). (f.0, insert_text x f.1, f.2, f.3, f.4)) h.front);
    },
  )
  perform-refines-draft (model a b) m d hx small v h = (
    set_memory_model a b m,
    record {
      runs = refl;
      valid = (kept-Stepped m m.capabilities m.extensions a b v v.unique.0 v.unique.1).valid;
      drafted =
          kept-IsDrafted m d _ _ _ _ _ _ _ _ _ _ h
            (ap (λ (f : Front). (f.0, f.1, a, b, f.4)) h.front);
    },
  )
