-- ===== src/Module/Steps/Label.antt =====
-- `OpLabel(std::string_view)` of include/sirit/sirit.h: a fresh label with a name.
use mathlib.Core.Path.{subst}
use sirit.Base.{
  ℕ, ◌+◌, ◌/◌, ◌%◌, ◌^◌, ◌<◌, ◌≡◌, refl, sym, ap, ◌∙◌, true, List, [], ◌∷◌, ◌++◌, arith, length, ok,
  ok-injective, ◌>>=◌,
}
use sirit.Spirv.{Platform}
use sirit.Stream.{SpvId, valid_id, contents}
use sirit.Stream.Text.{words_in_string_lem}
use sirit.Emission.Exact.{instruction}
use sirit.Emission.Runs.{IsInside, emit_runs}
use sirit.Declarations.Sharing.{Later-trans}
use sirit.Instructions.Debug.{name_chain}
use sirit.Module.{Module, Method, call, op_label}
use sirit.Module.Names.{name}
use sirit.Module.Valid.{IsValid, IsCall}
use sirit.Module.Valid.Calls.{call-IsValid}
use sirit.Module.Steps.{Stepped, op_label-Stepped}

module _ ⦃p : Platform⦄ where
  pub op_named_label : List ℕ → Method
  op_named_label label_name m = do (label, m') ← op_label m; name label label_name m'

  -- What `OpLabel` with a name leaves: an `OpName` of the fresh id.
  pub record Named (label_name : List ℕ) (m : Module) (i : SpvId) (m' : Module) : Type 0 where
    pub runs : op_named_label label_name m ≡ ok (i, m')
    pub next : i.value ≡ m.bound + 1
    pub steps : Stepped m (i.value ∷ []) m'
    pub appends :
        contents m'.debug ≡ contents m.debug ++ instruction (name_chain i label_name) m.bound
    pub same_code : m'.code ≡ m.code

  name-IsCall :
      (i : SpvId) (text : List ℕ)
      → valid_id i ≡ true
      → length text / 4 + 3 < 2 ^ 16
      → IsCall (name_chain i text)
  unfolding name_chain
  name-IsCall i text h short = record {
    accepts = ground (arith, h);
    enough = omega (arith, words_in_string_lem text);
    short = omega arith;
  }

  name_frame :
      (i j : SpvId) (text : List ℕ) (m m' : Module)
      → IsCall (name_chain i text)
      → IsInside m.debug
      → call (name_chain i text) m ≡ ok (j, m')
      → (contents m'.debug ≡ contents m.debug ++ instruction (name_chain i text) m.bound)
        × (m'.code ≡ m.code)
  unfolding call name_chain
  name_frame i j text m m' c inside run =
      let (s, w) = emit_runs (name_chain i text) m.bound m.debug c.enough c.accepts inside in
      subst
        (λ (q : SpvId × Module).
          (contents q.1.debug ≡ contents m.debug ++ instruction (name_chain i text) m.bound)
          × (q.1.code ≡ m.code))
        (ok-injective (
          sym (ap (λ o. o >>= λ (i, b, s). ok (i, record m { bound = b; debug = s })) w.runs)
          ∙ run))
        (w.appends, refl)

  -- `OpLabel` with a name runs on every valid module with fewer than 2 ^ 32 - 2 ids, if the name is
  -- not too long for an instruction: it returns the next id, names it in the debug stream, leaves the
  -- code and leaves a valid module.
  pub op_named_label_lem :
      (label_name : List ℕ) (m : Module)
      → length label_name / 4 + 3 < 2 ^ 16
      → m.bound + 2 < 2 ^ 32
      → IsValid m
      → (i : SpvId) × (m' : Module) × Named label_name m i m'
  unfolding op_named_label op_label name_chain
  op_named_label_lem label_name m short small v =
      let (_, (_, (_, (k, _)))) = v.written in
      let label : SpvId = record { value = (m.bound + 1) % 2 ^ 32 } in
      let m1 = record m { bound = (m.bound + 1) % 2 ^ 32 } in
      let taken : Stepped m (label.value ∷ []) m1 =
        op_label-Stepped {i = label} (omega arith) v refl in
      let c = name-IsCall label label_name (valid m.bound (omega arith)) short in
      let (j, m', called) =
        call-IsValid (name_chain label label_name) m1 c tt (omega arith) taken.valid in
      let (appends, same) = name_frame label j label_name m1 m' c k.inside called.runs in
      (
        label,
        m',
        record {
          runs = ap (λ o. o >>= λ (q : SpvId × Module). ok (label, q.1)) called.runs;
          next = omega arith;
          steps = record {
            valid = called.valid;
            grows = omega (arith, called.grows);
            issued = (omega (arith, called.grows), tt);
            later = Later-trans taken.later called.later;
          };
          appends = appends;
          same_code = same;
        },
      )
    where
      valid : (n : ℕ) → n + 1 < 2 ^ 32 → valid_id (record { value = (n + 1) % 2 ^ 32 }) ≡ true
      valid n h = ground arith
