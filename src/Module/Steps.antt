-- ===== src/Module/Steps.antt =====
-- Single calls of a client on a valid module.
pub mod Import
pub mod Glsl
pub mod Extension
pub mod Phi
pub mod Label
use mathlib.Core.Path.{subst}
use sirit.Base.{
  ℕ, ◌+◌, ◌%◌, ◌^◌, ◌≤◌, ◌<◌, ◌≡◌, sym, ◌∙◌, true, List, [], ◌∷◌, ◌++◌, append-nil, arith, All, ok,
  ok-injective,
}
use sirit.Spirv.{Op, Platform}
use sirit.Stream.{SpvId, valid_id, Stream, contents, Head, plain, with_id, with_type}
use sirit.Emission.{Emission}
use sirit.Declarations.Sharing.{Later, here, elsewhere}
use sirit.Module.{Module, call, add_label, op_label, make_word0}
use sirit.Module.Assemble.Layout.{IsCode, IsCode-append, header-IsInstruction}
use sirit.Module.Label.{label_words, Labelled, add_label_lem}
use sirit.Module.Phi.Nodes.{HasNodes, HasNodes-append}
use sirit.Module.Valid.{
  IsWritten, IsValid, IsInterned-mono, IsCall, Identified, IsResult, IsKnown-mono,
}
use sirit.Module.Valid.Calls.{call-IsValid}

-- An id that the module has given out: valid, and at most `*bound`.
abbrev pub IsIssued : ℕ → ℕ → Type 0
IsIssued bound i = (0 < i) × (i ≤ bound)

-- The ids that a method gives out: what it returns, if it has an id.
abbrev pub results : Head → ℕ → List ℕ
results (plain op) i = []
results (with_id op) i = i ∷ []
results (with_type op t) i = i ∷ []

results-IsIssued :
    (h : Head) (i bound : ℕ) → IsResult h i bound → All (IsIssued bound) (results h i)
results-IsIssued (plain op) i bound r = tt
results-IsIssued (with_id op) i bound r = (r, tt)
results-IsIssued (with_type op t) i bound r = (r, tt)

module _ ⦃p : Platform⦄ where
  -- A call that gave out the ids has left a valid module, whose `*bound` has not fallen.
  pub record Stepped (m : Module) (ids : List ℕ) (m' : Module) : Type 0 where
    pub valid : IsValid m'
    pub grows : m.bound ≤ m'.bound
    pub issued : All (IsIssued m'.bound) ids
    pub later : Later m.bound m.declarations m'.bound m'.declarations

  label-IsCode : (label : SpvId) → IsCode (label_words label)
  unfolding make_word0
  label-IsCode label = (
    label_words label ∷ [],
    sym (append-nil _),
    (header-IsInstruction (p.op_code Op.op_label) 2 (p.op_code-lt _) (omega arith), tt),
  )

  pub call-Stepped :
      {m m' : Module} {i : SpvId} (e : Emission)
      → IsCall e
      → Identified e.section e.head
      → m.bound + 1 < 2 ^ 32
      → IsValid m
      → call e m ≡ ok (i, m')
      → Stepped m (results e.head i.value) m'
  call-Stepped {m} e c n small v run =
      let (i', m'', w) = call-IsValid e m c n small v in
      subst (λ (q : SpvId × Module). Stepped m (results e.head q.0.value) q.1)
        (ok-injective (sym w.runs ∙ run))
        (record {
          valid = w.valid;
          grows = w.grows;
          issued = results-IsIssued e.head i'.value m''.bound w.result;
          later = w.later;
        })

  -- The module with more code at the end, as a label leaves it.
  grown_code-IsValid :
      (m : Module) (code : Stream) (words : List ℕ)
      → IsValid m
      → IsWritten code
      → contents code ≡ contents m.code ++ words
      → IsCode words
      → IsValid (record m { code = code })
  grown_code-IsValid m code words v k appends c =
      let (a, (b, (c', (d, (f, (t, (g, _))))))) = v.written in
      record {
        written = (a, (b, (c', (d, (f, (t, (g, (k, tt))))))));
        interned = v.interned;
        nodes =
            subst (λ l. HasNodes l m.deferred_phi_nodes) (sym appends)
              (HasNodes-append (contents m.code) m.deferred_phi_nodes words v.nodes c);
        set = v.set;
        unique = v.unique;
      }

  pub label-Stepped :
      {m m' : Module} {i : SpvId} (label : SpvId)
      → valid_id label ≡ true
      → IsValid m
      → add_label label m ≡ ok (i, m')
      → Stepped m [] m'
  label-Stepped {m} label h v run =
      let (_, (_, (_, (_, (_, (_, (_, (k, _)))))))) = v.written in
      let (m'', w) = add_label_lem label m h k.inside in
      let c = label-IsCode label in
      let written : IsWritten m''.code = record {
        inside = w.inside;
        code = subst IsCode (sym w.appends) (IsCode-append (contents m.code) _ k.code c);
      } in
      subst (λ (q : SpvId × Module). Stepped m [] q.1) (ok-injective (sym w.runs ∙ run))
        (subst (Stepped m []) (sym w.only_code) (record {
          valid = grown_code-IsValid m m''.code (label_words label) v written w.appends c;
          grows = omega arith;
          issued = tt;
          later = here;
        }))

  pub op_label-Stepped :
      {m m' : Module} {i : SpvId}
      → m.bound + 1 < 2 ^ 32
      → IsValid m
      → op_label m ≡ ok (i, m')
      → Stepped m (i.value ∷ []) m'
  unfolding op_label
  op_label-Stepped {m} small v run =
      subst (λ (q : SpvId × Module). Stepped m (q.0.value ∷ []) q.1) (ok-injective run)
        (record {
          valid = record {
            written = v.written;
            interned =
                IsInterned-mono m.declarations m.bound _ (omega arith) (omega arith) v.interned;
            nodes = v.nodes;
            set = IsKnown-mono m.glsl_std_450 m.bound _ (omega arith) v.set;
            unique = v.unique;
          };
          grows = omega arith;
          issued = (omega arith, tt);
          later = elsewhere here ((m.bound + 1) % 2 ^ 32) (omega arith) (omega arith);
        })
