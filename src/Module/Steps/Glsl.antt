-- ===== src/Module/Steps/Glsl.antt =====
-- The methods of src/instructions/extension.cpp on a valid module.
use mathlib.Core.Path.{subst, ap₂}
use sirit.Base.{
  ℕ, ◌+◌, ◌%◌, ◌^◌, ◌<◌, ◌≡◌, refl, sym, ap, ◌∙◌, true, not, ◌==◌, some, List, [], ◌∷◌, ◌++◌, arith,
  length, length-append, append-nil, ok, ok-injective, ◌>>=◌, ◌⊎◌, none, inl, inr,
}
use sirit.Spirv.{Op, GlslStd450, Platform}
use sirit.Stream.{SpvId, Stream, valid_id, contents}
use sirit.Stream.Operands.{valid_ids, ids_words}
use sirit.Stream.Heads.{header}
use sirit.Emission.Exact.{accepted, instruction}
use sirit.Emission.Size.{length-ids_words}
use sirit.Emission.Runs.{IsInside, emit_runs}
use sirit.Module.{Module, call, op_ext_inst, glsl_method, import_glsl}
use sirit.Module.Valid.{IsValid, IsCall}
use sirit.Module.Valid.Calls.{call-IsValid}
use sirit.Declarations.Sharing.{Later-trans}
use sirit.Module.Steps.{Stepped}
use sirit.Module.Steps.Import.{get_glsl_std_450_lem, IsValid-code, IsImport}

not_zero : (n : ℕ) → 0 < n → not (n == 0) ≡ true
not_zero n h = ground arith

module _ ⦃p : Platform⦄ where
  -- The set was imported before, its id is used, and the result's id is the next one; or it is imported
  -- now, with the next id, and the result's id is the one after. Beside the import, what is counted and
  -- the code nothing has changed.
  abbrev UsesSet : Module → SpvId → SpvId → Module → Type 0
  UsesSet m set i m' =
      ((m.glsl_std_450 ≡ some set)
        × (i.value ≡ m.bound + 1)
        × (m' ≡ record m { bound = m.bound + 1; code = m'.code }))
      ⊎ ((m.glsl_std_450 ≡ none)
          × (set.value ≡ m.bound + 1)
          × (i.value ≡ m.bound + 2)
          × (contents m'.ext_inst_imports
              ≡ contents m.ext_inst_imports ++ instruction import_glsl m.bound)
          × (m' ≡ record m {
            bound = m.bound + 2;
            ext_inst_imports = m'.ext_inst_imports;
            code = m'.code;
            glsl_std_450 = some set;
          }))

  uses_set :
      (m m1 m' : Module) (set i : SpvId)
      → m.bound + 2 < 2 ^ 32
      → IsImport m set m1
      → i.value ≡ (m1.bound + 1) % 2 ^ 32
      → m' ≡ record m1 { bound = (m1.bound + 1) % 2 ^ 32; code = m'.code }
      → UsesSet m set i m'
  uses_set m m1 m' set i small (inl (hit, same)) value only = inl (
    hit,
    omega (arith, value, ap (λ (m : Module). m.bound) same),
    only
        ∙ ap (λ (m : Module). record m { bound = (m.bound + 1) % 2 ^ 32; code = m'.code }) same
        ∙ ap (λ b. record m { bound = b; code = m'.code }) {x = (m.bound + 1) % 2 ^ 32}
            {y = m.bound + 1} (omega arith),
  )
  uses_set m m1 m' set i small (inr (miss, first, appends, rest)) value only = inr (
    miss,
    first,
    omega (arith, value, ap (λ (m : Module). m.bound) rest),
    ap (λ (m : Module). contents m.ext_inst_imports) only ∙ appends,
    only
        ∙ ap (λ (m : Module). record m { bound = (m.bound + 1) % 2 ^ 32; code = m'.code }) rest
        ∙ ap₂
            (λ b s. record m {
              bound = b;
              ext_inst_imports = s;
              code = m'.code;
              glsl_std_450 = some set;
            })
            {x = (m.bound + 1 + 1) % 2 ^ 32} {y = m.bound + 2} (omega arith)
            (sym (ap (λ (m : Module). m.ext_inst_imports) only)),
  )

  -- What a method of the extended set leaves: an `OpExtInst` with the id of the set, which is imported
  -- now if it was not before, and the id of the result.
  pub record GlslCalled (op : GlslStd450) (t : SpvId) (operands : List SpvId) (m : Module)
      (i : SpvId) (m' : Module) : Type 0 where
    pub set : SpvId
    pub runs : glsl_method op t operands m ≡ ok (i, m')
    pub steps : Stepped m (i.value ∷ []) m'
    pub uses : UsesSet m set i m'
    pub remembers : m'.glsl_std_450 ≡ some set
    pub appends :
        contents m'.code
        ≡ contents m.code
          ++ (header (p.op_code Op.op_ext_inst) (5 + length operands)
              ∷ t.value
              ∷ i.value
              ∷ set.value
              ∷ p.glsl_code op
              ∷ ids_words operands)

  op_ext_inst-accepted :
      (t set : SpvId) (op : ℕ) (operands : List SpvId)
      → valid_id t ≡ true
      → 0 < set.value
      → valid_ids operands ≡ true
      → accepted (op_ext_inst t set op operands) ≡ true
  unfolding op_ext_inst
  op_ext_inst-accepted t set op operands ht hs ho = ground (arith, ht, not_zero set.value hs, ho)

  pub op_ext_inst-IsCall :
      (t set : SpvId) (op : ℕ) (operands : List SpvId)
      → valid_id t ≡ true
      → 0 < set.value
      → valid_ids operands ≡ true
      → 5 + length operands < 2 ^ 16
      → IsCall (op_ext_inst t set op operands)
  unfolding op_ext_inst
  op_ext_inst-IsCall t set op operands ht hs ho short = record {
    accepts = op_ext_inst-accepted t set op operands ht hs ho;
    enough = omega arith;
    short = omega arith;
  }

  ext_inst-instruction :
      (t set : SpvId) (op : ℕ) (operands : List SpvId) (bound : ℕ)
      → instruction (op_ext_inst t set op operands) bound
        ≡ header (p.op_code Op.op_ext_inst) (5 + length operands)
          ∷ t.value
          ∷ (bound + 1) % 2 ^ 32
          ∷ set.value
          ∷ op
          ∷ ids_words operands
  unfolding op_ext_inst
  ext_inst-instruction t set op operands bound =
      ap₂
        (λ n l.
          header (p.op_code Op.op_ext_inst) n ∷ t.value ∷ (bound + 1) % 2 ^ 32 ∷ set.value ∷ op ∷ l)
        {y = 5 + length operands}
        (omega (arith, length-append (ids_words operands) [], length-ids_words operands))
        (append-nil (ids_words operands))

  -- What the call of `OpExtInst` writes and returns, and what it leaves.
  ext_inst_frame :
      (t set : SpvId) (op : ℕ) (operands : List SpvId) (m m' : Module) (i : SpvId)
      → IsCall (op_ext_inst t set op operands)
      → IsInside m.code
      → call (op_ext_inst t set op operands) m ≡ ok (i, m')
      → (contents m'.code ≡ contents m.code ++ instruction (op_ext_inst t set op operands) m.bound)
        × (i.value ≡ (m.bound + 1) % 2 ^ 32)
        × (m' ≡ record m { bound = (m.bound + 1) % 2 ^ 32; code = m'.code })
  unfolding call op_ext_inst
  ext_inst_frame t set op operands m m' i c inside run =
      let (s, w) =
        emit_runs (op_ext_inst t set op operands) m.bound m.code c.enough c.accepts inside in
      subst
        (λ (q : SpvId × Module).
          (contents q.1.code
            ≡ contents m.code ++ instruction (op_ext_inst t set op operands) m.bound)
          × (q.0.value ≡ (m.bound + 1) % 2 ^ 32)
          × (q.1 ≡ record m { bound = (m.bound + 1) % 2 ^ 32; code = q.1.code }))
        (ok-injective (
          sym (ap (λ o. o >>= λ (i, b, s). ok (i, record m { bound = b; code = s })) w.runs) ∙ run))
        (w.appends, refl, refl)

  -- The methods of src/instructions/extension.cpp on a valid module.
  pub glsl_method_lem :
      (op : GlslStd450) (t : SpvId) (operands : List SpvId) (m : Module)
      → valid_id t ≡ true
      → valid_ids operands ≡ true
      → 5 + length operands < 2 ^ 16
      → m.bound + 2 < 2 ^ 32
      → IsValid m
      → (i : SpvId) × (m' : Module) × GlslCalled op t operands m i m'
  unfolding op_ext_inst
  glsl_method_lem op t operands m ht ho short small v =
      let (set, m1, w) = get_glsl_std_450_lem m (omega arith) v in
      let e = op_ext_inst t set (p.glsl_code op) operands in
      let c : IsCall e =
        op_ext_inst-IsCall t set (p.glsl_code op) operands ht w.steps.issued.0.0 ho short in
      let (i, m', called) = call-IsValid e m1 c tt (omega (arith, w.next)) w.steps.valid in
      let (appends, value, only) =
        ext_inst_frame t set (p.glsl_code op) operands m1 m' i c (IsValid-code w.steps.valid)
          called.runs in
      (
        i,
        m',
        record {
          set = set;
          runs =
              ap
                (λ o. o >>= λ (q : SpvId × Module).
                  call (op_ext_inst t q.0 (p.glsl_code op) operands) q.1)
                w.runs
              ∙ called.runs;
          steps = record {
            valid = called.valid;
            grows = omega (arith, w.steps.grows, called.grows);
            issued = (called.result, tt);
            later = Later-trans w.steps.later called.later;
          };
          uses = uses_set m m1 m' set i small w.import value only;
          remembers = ap (λ (m : Module). m.glsl_std_450) only ∙ w.remembers;
          appends =
              appends
              ∙ ap₂ (λ (s : Stream) l. contents s ++ l) w.same_code
                  (ext_inst-instruction t set (p.glsl_code op) operands m1.bound
                    ∙ ap
                        (λ n.
                          header (p.op_code Op.op_ext_inst) (5 + length operands)
                          ∷ t.value
                          ∷ n
                          ∷ set.value
                          ∷ p.glsl_code op
                          ∷ ids_words operands)
                        (sym value));
        },
      )
