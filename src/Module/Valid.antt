-- ===== src/Module/Valid.antt =====
-- The invariant of a module, and that the methods which are one chain preserve it.
pub mod Written
pub mod Calls
use sirit.Base.{
  ℕ, ◌+◌, ◌^◌, ◌≤◌, ◌<◌, ◌≡◌, sym, ap, inl, inr, true, List, [], ◌∷◌, append-nil, arith, All, ok,
  ◌>>=◌, Option, none, some,
}
use mathlib.Core.Path.{subst}
use sirit.Spirv.{Platform}
use sirit.Stream.{SpvId, Stream, contents, Head, plain, with_id, with_type, valid_id}
use sirit.Stream.Heads.{head_bound}
use sirit.Emission.{
  Section, ext_inst_imports, entry_points, execution_modes, debug, annotations, declarations,
  global_variables, code, Emission,
}
use sirit.Emission.Exact.{accepted, instruction}
use sirit.Emission.Size.{written, word_count-written}
use sirit.Emission.Runs.{IsInside, Emitted, emit_runs}
use sirit.Declarations.{Declarations}
use sirit.Declarations.Table.{IsFalling-mono}
use sirit.Declarations.Declare.{HasId}
use sirit.Declarations.Intern.{IsInterned, IsDeclaration, Declared, declare-refines-intern}
use sirit.Module.{Module, call_on, call}
use sirit.Module.Assemble.Layout.{IsCode, IsCode-append, header-IsInstruction, HasCode}
use sirit.Module.Phi.Nodes.{HasNodes}
use sirit.Module.Sets.{IsUnique}

-- A stream of instructions.
pub record IsWritten (s : Stream) : Type 0 where
  pub inside : IsInside s
  pub code : IsCode (contents s)

abbrev pub streams : Module → List Stream
streams m =
    m.ext_inst_imports ∷ m.entry_points ∷ m.execution_modes ∷ m.debug ∷ m.annotations
    ∷ m.declarations.stream ∷ m.global_variables ∷ m.code ∷ []

-- What `glsl_std_450` holds is a valid id, at most `*bound`.
abbrev pub IsKnown : ℕ → Option SpvId → Type 0
IsKnown bound none = Unit
IsKnown bound (some i) = (0 < i.value) × (i.value ≤ bound)

pub IsKnown-mono : (x : Option SpvId) (m n : ℕ) → m ≤ n → IsKnown m x → IsKnown n x
IsKnown-mono none m n h k = tt
IsKnown-mono (some i) m n h k = omega arith

pub IsInterned-mono :
    (d : Declarations) (m n : ℕ) → m ≤ n → n < 2 ^ 32 → IsInterned m d → IsInterned n d
IsInterned-mono d m n le small v = record {
  in_vector = v.in_vector;
  small = small;
  falling = IsFalling-mono d.existing_declarations m n le v.falling;
  holds = v.holds;
}

-- Declarations have an id.
abbrev pub Identified : Section → Head → Type 0
Identified declarations h = HasId h
Identified _ h = Unit

-- The `assert`s hold, the reservation is enough and the instruction is not too long for its header.
pub record IsCall (e : Emission) : Type 0 where
  pub accepts : accepted e ≡ true
  pub enough : written e ≤ e.num_words
  pub short : written e < 2 ^ 16

-- What a method returns that has an id: a valid one, at most `*bound`.
abbrev pub IsResult : Head → ℕ → ℕ → Type 0
IsResult (plain op) i bound = Unit
IsResult (with_id op) i bound = (0 < i) × (i ≤ bound)
IsResult (with_type op t) i bound = (0 < i) × (i ≤ bound)

pub HasId-IsResult : (h : Head) (i bound : ℕ) → HasId h → (0 < i) × (i ≤ bound) → IsResult h i bound
HasId-IsResult (plain op) i bound n r = tt
HasId-IsResult (with_id op) i bound n r = r
HasId-IsResult (with_type op t) i bound n r = r

pub head_bound-IsResult :
    (h : Head) (bound : ℕ)
    → bound + 1 < 2 ^ 32
    → IsResult h (head_bound h bound) (head_bound h bound)
head_bound-IsResult (plain op) bound small = tt
head_bound-IsResult (with_id op) bound small = omega arith
head_bound-IsResult (with_type op t) bound small = omega arith

pub head_bound-bounds :
    (h : Head) (bound : ℕ)
    → bound + 1 < 2 ^ 32
    → (bound ≤ head_bound h bound) × (head_bound h bound < 2 ^ 32)
head_bound-bounds (plain op) bound small = omega arith
head_bound-bounds (with_id op) bound small = omega arith
head_bound-bounds (with_type op t) bound small = omega arith

module _ ⦃p : Platform⦄ where
  -- All streams hold instructions, the declarations are in step with their table, and the deferred phi
  -- nodes point at phi nodes.
  pub record IsValid (m : Module) : Type 0 where
    pub written : All IsWritten (streams m)
    pub interned : IsInterned m.bound m.declarations
    pub nodes : HasNodes (contents m.code) m.deferred_phi_nodes
    pub set : IsKnown m.bound m.glsl_std_450
    pub unique : IsUnique m.capabilities × IsUnique m.extensions

  pub IsValid-HasCode : (m : Module) → IsValid m → HasCode m
  IsValid-HasCode m v =
      let (a, (b, (c, (d, (f, (t, (g, (h, _)))))))) = v.written in
      record {
        imports = a.code;
        entries = b.code;
        modes = c.code;
        names = d.code;
        decorations = f.code;
        types = t.code;
        variables = g.code;
        functions = h.code;
      }

  pub instruction-IsCode : (e : Emission) (bound : ℕ) → IsCall e → IsCode (instruction e bound)
  instruction-IsCode e bound c = (
    instruction e bound ∷ [],
    sym (append-nil _),
    (
      header-IsInstruction _ _ (p.op_code-lt _)
          (omega (arith, c.short, word_count-written e bound)),
      tt,
    ),
  )

  pub emit-IsWritten :
      (e : Emission) (bound : ℕ) (s : Stream)
      → IsCall e
      → IsWritten s
      → (s' : Stream) × Emitted e bound s s' × IsWritten s'
  emit-IsWritten e bound s c v =
      let (s', w) = emit_runs e bound s c.enough c.accepts v.inside in
      (
        s',
        w,
        record {
          inside = w.inside;
          code =
              subst IsCode (sym w.appends)
                (IsCode-append (contents s) _ v.code (instruction-IsCode e bound c));
        },
      )

  pub later :
      (m : Module) (e : Emission)
      → IsInterned m.bound m.declarations
      → m.bound + 1 < 2 ^ 32
      → IsInterned (head_bound e.head m.bound) m.declarations
  later m e v small =
      let (le, lt) = head_bound-bounds e.head m.bound small in
      IsInterned-mono m.declarations m.bound _ le lt v

  pub later_set :
      (m : Module) (e : Emission)
      → IsKnown m.bound m.glsl_std_450
      → m.bound + 1 < 2 ^ 32
      → IsKnown (head_bound e.head m.bound) m.glsl_std_450
  later_set m e k small =
      IsKnown-mono m.glsl_std_450 m.bound _ (head_bound-bounds e.head m.bound small).0 k

  pub declare-IsWritten :
      (e : Emission) (bound : ℕ) (d : Declarations) {i bound' : ℕ} {d' : Declarations}
      → IsCall e
      → IsWritten d.stream
      → Declared e bound d i bound' d'
      → IsWritten d'.stream
  declare-IsWritten e bound d c v w = record {
    inside = w.keeps.in_vector;
    code = elim w.grows [
      | inl (_, _, same) ↦ subst IsCode (sym same) v.code
      | inr (_, grown) ↦
          subst IsCode (sym grown)
            (IsCode-append (contents d.stream) _ v.code (instruction-IsCode e bound c))
    ];
  }
