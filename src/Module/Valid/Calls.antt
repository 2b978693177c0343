-- ===== src/Module/Valid/Calls.antt =====
-- The methods that are one chain preserve the invariant of a module.
use sirit.Base.{ℕ, ◌+◌, ◌^◌, ◌<◌, ◌≡◌, ap, ◌∙◌, arith, ok, ◌>>=◌, ◌≤◌, refl, sym}
use sirit.Spirv.{Platform}
use sirit.Stream.{SpvId, Head}
use sirit.Emission.{Section, declarations, Emission}
use sirit.Emission.Size.{word_count-written}
use sirit.Declarations.Declare.{HasId}
use sirit.Declarations.Intern.{IsDeclaration, declare-refines-intern}
use sirit.Module.{Module, call_on, call}
use sirit.Module.Valid.{
  IsValid, IsCall, Identified, emit-IsWritten, declare-IsWritten, IsResult, HasId-IsResult,
  head_bound-IsResult, head_bound-bounds, IsKnown-mono,
}
use mathlib.Core.Path.{subst}
use sirit.Stream.Heads.{head_bound}
use sirit.Module.Streams.{stream_of, put_stream, call_on-put_stream}
use sirit.Module.Valid.Written.{written_at, put_stream-IsWritten, put_stream-IsValid}
use sirit.Declarations.Sharing.{Declared-bounds, Later, here, declaration, elsewhere}

-- Outside of the declarations an id is the next value of `*bound`.
abbrev pub IsNext : Section → Head → ℕ → ℕ → Type 0
IsNext declarations h bound i = Unit
IsNext _ h bound i = i ≡ head_bound h bound

module _ ⦃p : Platform⦄ where
  -- A call has run and left a valid module. `*bound` has not fallen, and an id is valid and at most
  -- `*bound`.
  record CalledOn (section : Section) (e : Emission) (m : Module) (i : SpvId) (m' : Module)
      : Type 0 where
    runs : call_on section e m ≡ ok (i, m')
    valid : IsValid m'
    grows : m.bound ≤ m'.bound
    result : IsResult e.head i.value m'.bound
    next : IsNext section e.head m.bound i.value
    later : Later m.bound m.declarations m'.bound m'.declarations

  stream_called :
      {section : Section} (e : Emission) (m m' : Module)
      → call_on section e m ≡ ok (record { value = head_bound e.head m.bound }, m')
      → m'.bound ≡ head_bound e.head m.bound
      → m.bound + 1 < 2 ^ 32
      → IsValid m'
      → IsNext section e.head m.bound (head_bound e.head m.bound)
      → m'.declarations ≡ m.declarations
      → CalledOn section e m (record { value = head_bound e.head m.bound }) m'
  stream_called e m m' run same small v next kept = record {
    next = next;
    later =
        subst (λ d. Later m.bound m.declarations m'.bound d) (sym kept)
          (subst (λ b. Later m.bound m.declarations b m.declarations) (sym same)
            (elsewhere here (head_bound e.head m.bound) (head_bound-bounds e.head m.bound small).0
              (head_bound-bounds e.head m.bound small).1));
    runs = run;
    valid = v;
    grows = omega (arith, head_bound-bounds e.head m.bound small);
    result =
        subst (λ b. IsResult e.head (head_bound e.head m.bound) b) (sym same)
          (head_bound-IsResult e.head m.bound small);
  }

  call_on-IsValid :
      (section : Section) (e : Emission) (m : Module)
      → IsCall e
      → Identified section e.head
      → m.bound + 1 < 2 ^ 32
      → IsValid m
      → (i : SpvId) × (m' : Module) × CalledOn section e m i m'
  call_on-IsValid declarations e m c n small v =
      let (i, bound', d', w) =
        declare-refines-intern e m.bound m.declarations (entry e m.bound c n) small v.interned in
      (
        _,
        _,
        record {
          runs =
              ap (λ o. o >>= λ (i, b, d). ok (i, record m { bound = b; declarations = d })) w.runs;
          valid = record {
            written =
                put_stream-IsWritten declarations d'.stream m
                  (declare-IsWritten e m.bound m.declarations c
                    (written_at declarations m v.written) w)
                  v.written;
            interned = w.keeps;
            nodes = v.nodes;
            set =
                IsKnown-mono m.glsl_std_450 m.bound bound' (omega (arith, Declared-bounds w)) v.set;
            unique = v.unique;
          };
          grows = omega (arith, Declared-bounds w);
          next = tt;
          later = declaration here e (entry e m.bound c n) small w.runs;
          result = HasId-IsResult e.head i bound' n (omega (arith, Declared-bounds w));
        },
      )
    where
      entry : (e : Emission) (bound : ℕ) → IsCall e → HasId e.head → IsDeclaration e bound
      entry e bound c n = record {
        has_id = n;
        accepts = c.accepts;
        fits = omega (arith, c.enough, word_count-written e bound);
      }
  call_on-IsValid k e m c n small v =
      let (s, w, x) = emit-IsWritten e m.bound (stream_of k m) c (written_at k m v.written) in
      (
        _,
        _,
        stream_called e m (put_stream k s (record m { bound = head_bound e.head m.bound }))
            (call_on-put_stream k e m refl
              ∙ ap (λ o. o >>= λ (i, b, s). ok (i, put_stream k s (record m { bound = b }))) w.runs)
            refl small (put_stream-IsValid k e m s refl c small w x v) refl refl,
      )

  -- The call has run and left a valid module. `*bound` has not fallen, an id is valid and at most `*bound`,
  -- the next one if the method does not declare, and nothing but a declaration has changed the table.
  pub record Called (e : Emission) (m : Module) (i : SpvId) (m' : Module) : Type 0 where
    pub runs : call e m ≡ ok (i, m')
    pub valid : IsValid m'
    pub grows : m.bound ≤ m'.bound
    pub result : IsResult e.head i.value m'.bound
    pub next : IsNext e.section e.head m.bound i.value
    pub later : Later m.bound m.declarations m'.bound m'.declarations

  -- Every method that is one chain, its `assert`s holding, its reservation enough and its
  -- instruction not too long, runs on every valid module and leaves a valid module, if the counter
  -- is below 2 ^ 32 - 1 and what declares has an id.
  pub call-IsValid :
      (e : Emission) (m : Module)
      → IsCall e
      → Identified e.section e.head
      → m.bound + 1 < 2 ^ 32
      → IsValid m
      → (i : SpvId) × (m' : Module) × Called e m i m'
  unfolding call
  call-IsValid e m c n small v =
      let (i, m', w) = call_on-IsValid e.section e m c n small v in
      (
        i,
        m',
        record {
          runs = w.runs;
          valid = w.valid;
          grows = w.grows;
          result = w.result;
          next = w.next;
          later = w.later;
        },
      )
