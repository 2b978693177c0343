-- ===== src/Module/Reach.antt =====
-- The modules that a client can build by calls of `Step`, in any order, from a new module.
pub mod Ids
pub mod Sharing
pub mod Once
use mathlib.Core.Path.{subst}
use mathlib.Core.List.{map}
use sirit.Base.{
  ℕ, ◌+◌, ◌*◌, ◌^◌, ◌<◌, ◌≡◌, refl, sym, ap, ◌∙◌, true, List, [], ◌∷◌, ◌++◌, append-nil, arith,
  length, All, ok, ok-injective,
}
use sirit.Spirv.{GlslStd450, Platform}
use sirit.Stream.{SpvId, valid_id, contents, empty}
use sirit.Stream.Operands.{valid_ids}
use sirit.Stream.Words.{contents-at}
use sirit.Emission.{Emission}
use sirit.Module.{
  Module, call, add_label, op_label, get_glsl_std_450, glsl_method, add_capability, add_extension,
  set_memory_model, new_module,
}
use sirit.Module.Assemble.{assemble}
use sirit.Module.Assemble.Parse.{parse_instructions, parsed}
use sirit.Module.Assemble.Layout.{IsShort, HasCode, module_instructions}
use sirit.Module.Assemble.RoundTrip.{parse_instructions-assemble}
use sirit.Module.Phi.{deferred_op_phi, patch_deferred_phi}
use sirit.Declarations.Sharing.{here}
use sirit.Module.Sets.{IsUnique, IsUnique-Nodup, insert_word-IsUnique, insert_text-IsUnique}
use sirit.Module.Valid.{IsWritten, IsValid, IsValid-HasCode, IsCall, Identified}
use sirit.Module.Steps.{Stepped, results, call-Stepped, label-Stepped, op_label-Stepped}
use sirit.Module.Steps.Import.{get_glsl_std_450_lem}
use sirit.Module.Steps.Glsl.{glsl_method_lem}
use sirit.Module.Steps.Phi.{deferred_op_phi-Stepped, patch_deferred_phi-Stepped}

module _ ⦃p : Platform⦄ where
  -- One call of a client, with the ids that it gives out: a method that is one chain with a reservation
  -- that is enough, a label, a fresh id, the import of the GLSL instructions or one of them, a deferred phi
  -- where the code's vector ends at the cursor, the patching, or an entry in the sets or the memory model.
  pub data Step : Module → List ℕ → Module → Type 1 where
    called :
        {m m' : Module} {i : SpvId} (e : Emission)
        → IsCall e
        → Identified e.section e.head
        → m.bound + 1 < 2 ^ 32
        → call e m ≡ ok (i, m')
        → Step m (results e.head i.value) m'
    labelled :
        {m m' : Module} {i : SpvId} (label : SpvId)
        → valid_id label ≡ true
        → add_label label m ≡ ok (i, m')
        → Step m [] m'
    fresh :
        {m m' : Module} {i : SpvId}
        → m.bound + 1 < 2 ^ 32
        → op_label m ≡ ok (i, m')
        → Step m (i.value ∷ []) m'
    imported :
        {m m' : Module} {i : SpvId}
        → m.bound + 1 < 2 ^ 32
        → get_glsl_std_450 m ≡ ok (i, m')
        → Step m (i.value ∷ []) m'
    extended :
        {m m' : Module} {i : SpvId} (op : GlslStd450) (t : SpvId) (operands : List SpvId)
        → valid_id t ≡ true
        → valid_ids operands ≡ true
        → 5 + length operands < 2 ^ 16
        → m.bound + 2 < 2 ^ 32
        → glsl_method op t operands m ≡ ok (i, m')
        → Step m (i.value ∷ []) m'
    deferred :
        {m m' : Module} {i : SpvId} (t : SpvId) (blocks : List SpvId)
        → valid_id t ≡ true
        → valid_ids blocks ≡ true
        → 3 + 2 * length blocks < 2 ^ 16
        → m.bound + 1 < 2 ^ 32
        → m.code.insert_index ≡ length m.code.words
        → m.code.insert_index < 2 ^ 32
        → deferred_op_phi t blocks m ≡ ok (i, m')
        → Step m (i.value ∷ []) m'
    patched :
        {S : Type 0} {m m' : Module} {last : S} (func : ℕ → S → SpvId × S) (st : S)
        → m.code.insert_index < 2 ^ 32
        → patch_deferred_phi func st m ≡ ok (last, m')
        → Step m [] m'
    capability : {m : Module} (c : ℕ) → Step m [] (add_capability c m)
    extension : {m : Module} (name : List ℕ) → Step m [] (add_extension name m)
    memory_model : {m : Module} (a b : ℕ) → Step m [] (set_memory_model a b m)

  -- Any number of calls, with all ids that they gave out, the latest first.
  pub data Reach (m0 : Module) : List ℕ → Module → Type 1 where
    start : Reach m0 [] m0
    next :
        {m m' : Module} {ids new : List ℕ}
        → Reach m0 ids m
        → Step m new m'
        → Reach m0 (new ++ ids) m'

  -- What keeps the streams, the declarations, the counter and the nodes keeps a module valid.
  pub kept-Stepped :
      (m : Module) (capabilities : List ℕ) (extensions : List (List ℕ)) (a b : ℕ)
      → IsValid m
      → IsUnique capabilities
      → IsUnique extensions
      → Stepped m [] (record m {
        capabilities = capabilities;
        extensions = extensions;
        addressing_model = a;
        memory_model = b;
      })
  kept-Stepped m capabilities extensions a b v c e = record {
    valid = record {
      written = v.written;
      interned = v.interned;
      nodes = v.nodes;
      set = v.set;
      unique = (c, e);
    };
    grows = omega arith;
    issued = tt;
    later = here;
  }

  -- A call keeps a valid module valid.
  pub Step-Stepped : {m m' : Module} {ids : List ℕ} → IsValid m → Step m ids m' → Stepped m ids m'
  unfolding add_capability add_extension set_memory_model
  Step-Stepped v (called e c n small run) = call-Stepped e c n small v run
  Step-Stepped v (labelled label h run) = label-Stepped label h v run
  Step-Stepped v (fresh small run) = op_label-Stepped small v run
  Step-Stepped {m} v (imported small run) =
      let (i, m'', w) = get_glsl_std_450_lem m small v in
      subst (λ (q : SpvId × Module). Stepped m (q.0.value ∷ []) q.1)
        (ok-injective (sym w.runs ∙ run)) w.steps
  Step-Stepped {m} v (extended op t operands ht ho short small run) =
      let (i, m'', w) = glsl_method_lem op t operands m ht ho short small v in
      subst (λ (q : SpvId × Module). Stepped m (q.0.value ∷ []) q.1)
        (ok-injective (sym w.runs ∙ run)) w.steps
  Step-Stepped v (deferred t blocks ht hb short small tight far run) =
      deferred_op_phi-Stepped t blocks ht hb short small tight far v run
  Step-Stepped {m} v (patched {S} func st small run) =
      let (last, m'', w) = patch_deferred_phi-Stepped func st m v small in
      subst (λ (q : S × Module). Stepped m [] q.1) (ok-injective (sym w.runs ∙ run)) w.steps
  Step-Stepped v (capability {m} c) =
      kept-Stepped m _ _ _ _ v (insert_word-IsUnique c m.capabilities v.unique.0) v.unique.1
  Step-Stepped v (extension {m} name) =
      kept-Stepped m _ _ _ _ v v.unique.0 (insert_text-IsUnique name m.extensions v.unique.1)
  Step-Stepped v (memory_model {m} a b) = kept-Stepped m _ _ _ _ v v.unique.0 v.unique.1

  empty-IsWritten : IsWritten empty
  empty-IsWritten = record { inside = omega arith; code = ([], contents-at [] [] 0, tt) }

  pub new_module-IsValid : (version : ℕ) → IsValid (new_module version)
  unfolding new_module
  new_module-IsValid version =
      let k = empty-IsWritten in
      record {
        written = (k, (k, (k, (k, (k, (k, (k, (k, tt))))))));
        interned = record {
          in_vector = omega arith;
          small = omega arith;
          falling = tt;
          holds = contents-at [] [] 0;
        };
        nodes = record {
          pieces = [];
          back = [];
          splits = contents-at [] [] 0;
          point = refl;
          short = tt;
          whole = tt;
          whole_back = ([], refl, tt);
        };
        set = tt;
        unique = (tt, tt);
      }

  -- After any calls of `Step` the streams of a valid module still hold whole instructions, its
  -- declarations are in step with their table, its deferred phi nodes point at phi nodes, and the id of the
  -- GLSL instructions is none or a valid one.
  pub Reach-IsValid : {m m' : Module} {ids : List ℕ} → IsValid m → Reach m ids m' → IsValid m'
  Reach-IsValid v start = v
  Reach-IsValid v (next r s) = let w = Step-Stepped (Reach-IsValid v r) s in w.valid

  -- A module that the calls of `Step` have built from a new one is assembled without a fault, and
  -- the parser of the tests finds its instructions in the result: the capabilities, the extensions,
  -- the imports, the memory model and the other streams, in this order, if no extension's name is
  -- too long for an instruction.
  pub Reach-assemble :
      (version : ℕ) (ids : List ℕ) (m : Module)
      → Reach (new_module version) ids m
      → All IsShort (p.extension_order m.extensions)
      → (v : HasCode m) × (words : List ℕ) × (assemble m ≡ ok words)
        × (parse_instructions words ≡ ok (map parsed (module_instructions m v)))
  Reach-assemble version ids m r short =
      let v = IsValid-HasCode m (Reach-IsValid (new_module-IsValid version) r) in
      let (words, run, parse) = parse_instructions-assemble m v short in (v, words, run, parse)
