-- ===== src/Module/Draft/Build.antt =====
-- Whole modules: what a client's calls build, `Assemble` writes and the parser of the tests reads is
-- the draft of the calls.
use mathlib.Core.Path.{subst}
use mathlib.Core.List.{map}
use sirit.Base.{
  ℕ, ◌+◌, ◌*◌, ◌^◌, none, ◌<◌, ◌≡◌, refl, sym, ap, ◌∙◌, List, [], ◌∷◌, ◌++◌, arith, length, All,
  Outcome, ok, ◌>>=◌,
}
use sirit.Spirv.{Op, Platform}
use sirit.Stream.{contents}
use sirit.Stream.Words.{contents-at}
use sirit.Emission.{
  Section, ext_inst_imports, entry_points, execution_modes, debug, annotations, declarations,
  global_variables, code,
}
use sirit.Module.{Module, new_module, make_word0}
use sirit.Module.Assemble.{assemble}
use sirit.Module.Assemble.Parse.{parse_instructions, parsed}
use sirit.Module.Assemble.Layout.{HasCode, IsShort, capability_words, extension_words}
use sirit.Module.Assemble.RoundTrip.{parse_instructions-assemble}
use sirit.Module.Valid.{IsValid}
use sirit.Module.Draft.{Draft}
use sirit.Module.Streams.{stream_of, Front}
use sirit.Module.Draft.Refine.{IsDrafted}
use sirit.Module.Draft.Events.{Event, IsProper, perform, draft, draft-bound, perform-refines-draft}
use sirit.Module.Reach.{new_module-IsValid}

module _ ⦃p : Platform⦄ where
  -- Calls one after another, with what they return.
  abbrev pub perform_all : List Event → Module → Outcome (List ℕ × Module)
  perform_all [] m = ok ([], m)
  perform_all (x ∷ xs) m = do
    (i, m') ← perform x m
    (ids, m'') ← perform_all xs m'
    ok (i ∷ ids, m'')

  abbrev pub draft_all : List Event → Draft → List ℕ × Draft
  draft_all [] d = ([], d)
  draft_all (x ∷ xs) d =
      let (i, d') = draft x d in let (ids, d'') = draft_all xs d' in (i ∷ ids, d'')

  abbrev pub empty_draft : Draft
  empty_draft = record {
    bound = 0;
    table = [];
    written = λ s. [];
    capabilities = [];
    extensions = [];
    addressing_model = p.logical;
    memory_model = p.glsl450;
    glsl_std_450 = none;
  }

  -- The instructions of a module in the order of the SPIR-V layout.
  abbrev layout : Front → (Section → List (List ℕ)) → List (List ℕ)
  layout (capabilities, extensions, addressing_model, memory_model, set) written =
      map capability_words (p.capability_order capabilities)
      ++ (map extension_words (p.extension_order extensions)
          ++ (written ext_inst_imports
              ++ (((make_word0 Op.op_memory_model 3 ∷ addressing_model ∷ memory_model ∷ []) ∷ [])
                  ++ (written entry_points
                      ++ (written execution_modes
                          ++ (written debug
                              ++ (written annotations
                                  ++ (written declarations
                                      ++ (written global_variables ++ written code)))))))))

  abbrev pub draft_instructions : Draft → List (List ℕ)
  draft_instructions d =
      layout (d.capabilities, d.extensions, d.addressing_model, d.memory_model, d.glsl_std_450)
        d.written

  perform_all-refines-draft_all :
      (xs : List Event) (m : Module) (d : Draft)
      → All IsProper xs
      → m.bound + 2 * length xs < 2 ^ 32
      → IsValid m
      → IsDrafted m d
      → (m' : Module) × (perform_all xs m ≡ ok ((draft_all xs d).0, m'))
        × IsValid m'
        × IsDrafted m' (draft_all xs d).1
  perform_all-refines-draft_all [] m d hx small v h = (m, refl, v, h)
  perform_all-refines-draft_all (x ∷ xs) m d (hx, hxs) small v h =
      let (m1, w) = perform-refines-draft x m d hx (omega arith) v h in
      let (m', run, v', h') =
        perform_all-refines-draft_all xs m1 (draft x d).1 hxs
          (omega (arith, h.bound, w.drafted.bound, draft-bound x d (omega (arith, h.bound))))
          w.valid w.drafted in
      (
        m',
        ap
              (λ o. o >>= λ (q : ℕ × Module).
                perform_all xs q.1 >>= λ (r : List ℕ × Module). ok (q.0 ∷ r.0, r.1))
              w.runs
            ∙ ap (λ o. o >>= λ (r : List ℕ × Module). ok ((draft x d).0 ∷ r.0, r.1)) run,
        v',
        h',
      )

  new_holds : (s : Section) (version : ℕ) → contents (stream_of s (new_module version)) ≡ []
  unfolding new_module
  new_holds code version = contents-at [] [] 0
  new_holds _ version = contents-at [] [] 0

  pub new_module-IsDrafted : (version : ℕ) → IsDrafted (new_module version) empty_draft
  unfolding new_module
  new_module-IsDrafted version = record {
    bound = refl;
    table = refl;
    holds = λ s. new_holds s version;
    whole = λ s. tt;
    front = refl;
  }

  abbrev code_of : (m : Module) (d : Draft) → IsDrafted m d → HasCode m
  code_of m d h = record {
    imports = (d.written ext_inst_imports, h.holds ext_inst_imports, h.whole ext_inst_imports);
    entries = (d.written entry_points, h.holds entry_points, h.whole entry_points);
    modes = (d.written execution_modes, h.holds execution_modes, h.whole execution_modes);
    names = (d.written debug, h.holds debug, h.whole debug);
    decorations = (d.written annotations, h.holds annotations, h.whole annotations);
    types = (d.written declarations, h.holds declarations, h.whole declarations);
    variables = (d.written global_variables, h.holds global_variables, h.whole global_variables);
    functions = (d.written code, h.holds code, h.whole code);
  }

  -- A client makes any calls on a new module in any order: of methods that are one chain, of `Name` and
  -- `MemberName`, of labels, of the methods of extension.cpp, of the sets and the memory model, but not
  -- of deferred phi nodes. Where their `assert`s hold, what they write is reserved, no instruction has
  -- 2 ^ 16 words or more, and what declares has an id, the client gets what the draft of its calls
  -- answers, and `Assemble` writes words in which the parser of the tests
  -- finds exactly the instructions of the draft: those of each section in the order of the calls,
  -- repeated declarations once, the sections in the order of the layout. There are fewer than 2 ^ 31
  -- calls, and no extension's name is too long for an instruction.
  pub build-refines-draft :
      (version : ℕ) (xs : List Event)
      → All IsProper xs
      → 2 * length xs < 2 ^ 32
      → All IsShort (p.extension_order (draft_all xs empty_draft).1.extensions)
      → (m : Module) × (words : List ℕ) × (perform_all xs (new_module version)
          ≡ ok ((draft_all xs empty_draft).0, m))
        × (assemble m ≡ ok words)
        × (parse_instructions words
            ≡ ok (map parsed (draft_instructions (draft_all xs empty_draft).1)))
  unfolding new_module
  build-refines-draft version xs hx small short =
      let d = (draft_all xs empty_draft).1 in
      let (m, run, v, h) =
        perform_all-refines-draft_all xs (new_module version) empty_draft hx (omega arith)
          (new_module-IsValid version) (new_module-IsDrafted version) in
      let (words, assembled, parse) = parse_instructions-assemble m (code_of m d h) (
        subst (λ (l : List (List ℕ)). All IsShort (p.extension_order l))
          (sym (ap (λ (f : Front). f.1) h.front)) short) in
      (
        m,
        words,
        run,
        assembled,
        parse ∙ ap (λ (f : Front). ok (map parsed (layout f d.written))) h.front,
      )
