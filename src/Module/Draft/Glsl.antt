-- ===== src/Module/Draft/Glsl.antt =====
-- `GetGLSLstd450` and the methods of src/instructions/extension.cpp on a draft.
use mathlib.Core.Path.{subst}
use sirit.Base.{
  ℕ, ◌+◌, ◌^◌, ◌≤◌, ◌<◌, ◌≡◌, sym, ap, ◌∙◌, true, Option, none, some, inl, inr, Option-cases, List,
  arith, length, ok, ok-injective, ◌>>=◌,
}
use sirit.Spirv.{GlslStd450, Platform}
use sirit.Stream.{SpvId, valid_id}
use sirit.Stream.Operands.{valid_ids}
use sirit.Module.{Module, call, get_glsl_std_450, import_glsl, op_ext_inst, glsl_method}
use sirit.Module.Valid.{IsValid, IsCall}
use sirit.Module.Draft.{Draft, draft_call}
use sirit.Module.Streams.{Front}
use sirit.Module.Draft.Refine.{IsDrafted, kept-IsDrafted}
use sirit.Module.Draft.Calls.{call-refines-draft_call}
use sirit.Module.Steps.Import.{
  import_glsl-IsCall, get_glsl_std_450_known, get_glsl_std_450_new, get_glsl_std_450_lem,
}
use sirit.Module.Steps.Glsl.{op_ext_inst-IsCall}

module _ ⦃p : Platform⦄ where
  -- The set is imported once.
  abbrev pub draft_glsl : Option SpvId → Draft → SpvId × Draft
  draft_glsl (some i) d = (i, d)
  draft_glsl none d =
      let (i, d') = draft_call import_glsl d in
      (record { value = i }, record d' { glsl_std_450 = some (record { value = i }) })

  abbrev pub draft_extended : GlslStd450 → SpvId → List SpvId → Draft → ℕ × Draft
  draft_extended op t operands d =
      let (set, d') = draft_glsl d.glsl_std_450 d in
      draft_call (op_ext_inst t set (p.glsl_code op) operands) d'

  -- What the lookup of the set leaves.
  record HasSet (set : Option SpvId) (m : Module) (d : Draft) (m' : Module) : Type 0 where
    runs : get_glsl_std_450 m ≡ ok ((draft_glsl set d).0, m')
    drafted : IsDrafted m' (draft_glsl set d).1

  get_glsl_std_450-HasSet :
      (m : Module) (d : Draft)
      → m.bound + 1 < 2 ^ 32
      → IsValid m
      → IsDrafted m d
      → (m' : Module) × HasSet d.glsl_std_450 m d m'
  unfolding import_glsl
  get_glsl_std_450-HasSet m d small v h = elim (Option-cases m.glsl_std_450) [
    | inl miss ↦
        let absent : d.glsl_std_450 ≡ none = ap (λ (f : Front). f.4) (sym h.front) ∙ miss in
        let (m1, w) = call-refines-draft_call import_glsl m d import_glsl-IsCall tt small v h in
        let i : SpvId = record { value = (draft_call import_glsl d).0 } in
        subst (λ set. (m' : Module) × HasSet set m d m') (sym absent)
          (
            record m1 { glsl_std_450 = some i },
            record {
              runs = get_glsl_std_450_new m m1 i miss w.runs;
              drafted =
                  kept-IsDrafted m1 (draft_call import_glsl d).1 _ _ _ _ _ _ _ _ _ _ w.drafted
                    (ap (λ (f : Front). (f.0, f.1, f.2, f.3, some i)) w.drafted.front);
            },
          )
    | inr (i, hit) ↦
        let there : d.glsl_std_450 ≡ some i = ap (λ (f : Front). f.4) (sym h.front) ∙ hit in
        subst (λ set. (m' : Module) × HasSet set m d m') (sym there)
          (m, record { runs = get_glsl_std_450_known m i hit; drafted = h })
  ]

  -- A method of the extended set refines its draft.
  pub glsl_method-refines-draft_extended :
      (op : GlslStd450) (t : SpvId) (operands : List SpvId) (m : Module) (d : Draft)
      → valid_id t ≡ true
      → valid_ids operands ≡ true
      → 5 + length operands < 2 ^ 16
      → m.bound + 2 < 2 ^ 32
      → IsValid m
      → IsDrafted m d
      → (m' : Module) × (glsl_method op t operands m
          ≡ ok (record { value = (draft_extended op t operands d).0 }, m'))
        × IsValid m'
        × IsDrafted m' (draft_extended op t operands d).1
  unfolding op_ext_inst
  glsl_method-refines-draft_extended op t operands m d ht ho short small v h =
      let (m1, w) = get_glsl_std_450-HasSet m d (omega arith) v h in
      let set = (draft_glsl d.glsl_std_450 d).0 in
      let d1 = (draft_glsl d.glsl_std_450 d).1 in
      let (i, m2, imported) = get_glsl_std_450_lem m (omega arith) v in
      let facts : IsValid m1 × (0 < set.value) × (m1.bound ≤ m.bound + 1) =
        subst (λ (q : SpvId × Module). IsValid q.1 × (0 < q.0.value) × (q.1.bound ≤ m.bound + 1))
          (ok-injective (sym imported.runs ∙ w.runs))
          (imported.steps.valid, imported.steps.issued.0.0, imported.next) in
      let e = op_ext_inst t set (p.glsl_code op) operands in
      let c : IsCall e = op_ext_inst-IsCall t set (p.glsl_code op) operands ht facts.1 ho short in
      let (m', called) =
        call-refines-draft_call e m1 d1 c tt (omega (arith, facts.2)) facts.0 w.drafted in
      (
        m',
        ap
              (λ o. o >>= λ (q : SpvId × Module).
                call (op_ext_inst t q.0 (p.glsl_code op) operands) q.1)
              w.runs
            ∙ called.runs,
        called.valid,
        called.drafted,
      )
