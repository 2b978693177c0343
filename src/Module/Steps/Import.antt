-- ===== src/Module/Steps/Import.antt =====
-- `GetGLSLstd450` on a valid module.
use mathlib.Core.Path.{subst}
use sirit.Base.{
  ◌+◌, ◌^◌, ◌≤◌, ◌<◌, ◌≡◌, refl, sym, ap, ◌∙◌, some, none, inl, inr, Option-cases, [], ◌∷◌, arith,
  ok, ok-injective, ◌>>=◌, ◌⊎◌, ◌++◌, ◌%◌,
}
use sirit.Spirv.{Platform}
use sirit.Stream.{SpvId, contents}
use sirit.Emission.Runs.{IsInside, emit_runs}
use sirit.Module.{Module, call, cached_glsl, get_glsl_std_450, import_glsl}
use sirit.Module.Valid.{IsValid, IsCall, IsKnown}
use sirit.Module.Valid.Calls.{call-IsValid}
use sirit.Declarations.Sharing.{here}
use sirit.Module.Steps.{Stepped}
use sirit.Emission.Exact.{instruction}

module _ ⦃p : Platform⦄ where
  pub import_glsl-IsCall : IsCall import_glsl
  unfolding import_glsl
  import_glsl-IsCall = record { accepts = refl; enough = omega arith; short = omega arith }

  -- `GetGLSLstd450` on both branches.
  pub get_glsl_std_450_known :
      (m : Module) (i : SpvId) → m.glsl_std_450 ≡ some i → get_glsl_std_450 m ≡ ok (i, m)
  unfolding get_glsl_std_450
  get_glsl_std_450_known m i h = ap (λ q. cached_glsl q m) h

  pub get_glsl_std_450_new :
      (m m' : Module) (i : SpvId)
      → m.glsl_std_450 ≡ none
      → call import_glsl m ≡ ok (i, m')
      → get_glsl_std_450 m ≡ ok (i, record m' { glsl_std_450 = some i })
  unfolding get_glsl_std_450
  get_glsl_std_450_new m m' i h run =
      ap (λ q. cached_glsl q m) h
      ∙ ap (λ o. o >>= λ (i, m'). ok (i, record m' { glsl_std_450 = some i })) run

  import_frame :
      (m m' : Module) (i : SpvId)
      → IsInside m.ext_inst_imports
      → call import_glsl m ≡ ok (i, m')
      → (m' ≡ record m { bound = (m.bound + 1) % 2 ^ 32; ext_inst_imports = m'.ext_inst_imports })
        × (contents m'.ext_inst_imports
            ≡ contents m.ext_inst_imports ++ instruction import_glsl m.bound)
        × (i.value ≡ (m.bound + 1) % 2 ^ 32)
  unfolding call import_glsl
  import_frame m m' i inside run =
      let (s, w) = emit_runs import_glsl m.bound m.ext_inst_imports (omega arith) refl inside in
      subst
        (λ (q : SpvId × Module).
          (q.1
            ≡ record m { bound = (m.bound + 1) % 2 ^ 32; ext_inst_imports = q.1.ext_inst_imports })
          × (contents q.1.ext_inst_imports
              ≡ contents m.ext_inst_imports ++ instruction import_glsl m.bound)
          × (q.0.value ≡ (m.bound + 1) % 2 ^ 32))
        (ok-injective (
          sym (
            ap (λ o. o >>= λ (i, b, s). ok (i, record m { bound = b; ext_inst_imports = s }))
              w.runs)
          ∙ run))
        (refl, w.appends, refl)

  pub IsValid-code : {m : Module} → IsValid m → IsInside m.code
  IsValid-code {m} v = let (_, (_, (_, (_, (_, (_, (_, (k, _)))))))) = v.written in k.inside

  -- The set was imported before, and nothing has changed, or it is imported now: the id is the next one,
  -- the import is written, and nothing else has changed.
  abbrev pub IsImport : Module → SpvId → Module → Type 0
  IsImport m i m' =
      ((m.glsl_std_450 ≡ some i) × (m' ≡ m))
      ⊎ ((m.glsl_std_450 ≡ none)
          × (i.value ≡ m.bound + 1)
          × (contents m'.ext_inst_imports
              ≡ contents m.ext_inst_imports ++ instruction import_glsl m.bound)
          × (m' ≡ record m {
            bound = m.bound + 1;
            ext_inst_imports = m'.ext_inst_imports;
            glsl_std_450 = some i;
          }))

  -- What `GetGLSLstd450` leaves: the set's id, which is remembered.
  pub record Imported (m : Module) (i : SpvId) (m' : Module) : Type 0 where
    pub runs : get_glsl_std_450 m ≡ ok (i, m')
    pub again : get_glsl_std_450 m' ≡ ok (i, m')
    pub remembers : m'.glsl_std_450 ≡ some i
    pub steps : Stepped m (i.value ∷ []) m'
    pub same_code : m'.code ≡ m.code
    pub next : m'.bound ≤ m.bound + 1
    pub import : IsImport m i m'

  -- `GetGLSLstd450` runs on every valid module with fewer than 2 ^ 32 - 1 ids: it imports the set if it
  -- is not imported yet, leaves a valid module that remembers the id, and called again returns the same id
  -- and changes nothing. The code stays, and at most one id is taken.
  pub get_glsl_std_450_lem :
      (m : Module)
      → m.bound + 1 < 2 ^ 32
      → IsValid m
      → (i : SpvId) × (m' : Module) × Imported m i m'
  unfolding import_glsl
  get_glsl_std_450_lem m small v = elim (Option-cases m.glsl_std_450) [
    | inl miss ↦
        let (i, m', w) = call-IsValid import_glsl m import_glsl-IsCall tt small v in
        let (only, appends, value) = import_frame m m' i v.written.0.inside w.runs in
        (
          i,
          record m' { glsl_std_450 = some i },
          record {
            runs = get_glsl_std_450_new m m' i miss w.runs;
            again = get_glsl_std_450_known _ i refl;
            remembers = refl;
            steps = record {
              valid = record {
                written = w.valid.written;
                interned = w.valid.interned;
                nodes = w.valid.nodes;
                set = w.result;
                unique = w.valid.unique;
              };
              grows = w.grows;
              issued = (w.result, tt);
              later = w.later;
            };
            same_code = ap (λ (m : Module). m.code) only;
            next = omega (arith, ap (λ (m : Module). m.bound) only);
            import = inr (
              miss,
              omega (arith, value),
              appends,
              ap (λ (m : Module). record m { glsl_std_450 = some i }) only
                  ∙ ap
                      (λ b. record m {
                        bound = b;
                        ext_inst_imports = m'.ext_inst_imports;
                        glsl_std_450 = some i;
                      })
                      {x = (m.bound + 1) % 2 ^ 32} {y = m.bound + 1} (omega arith),
            );
          },
        )
    | inr (i, hit) ↦ (
      i,
      m,
      record {
        runs = get_glsl_std_450_known m i hit;
        again = get_glsl_std_450_known m i hit;
        remembers = hit;
        steps = record {
          valid = v;
          grows = omega arith;
          issued = (subst (IsKnown m.bound) hit v.set, tt);
          later = here;
        };
        same_code = refl;
        next = omega arith;
        import = inl (hit, refl);
      },
    )
  ]
