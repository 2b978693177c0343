-- ===== src/Module/Reach/Sharing.antt =====
-- The ids that the declarations of a client's module share.
use mathlib.Core.Path.{subst, ap₂}
use mathlib.Core.Logic.{◌↔◌}
use sirit.Base.{
  ℕ, ℤ, ◌+◌, ◌^◌, ◌<◌, ◌≡◌, refl, sym, ap, ◌∙◌, Bool, true, false, if◌then◌else◌, cast_u32, List,
  [], ◌∷◌, ◌++◌, append-nil, arith, ok, ok-injective, ◌>>=◌, get_or, drop,
}
use sirit.Spirv.{Op, Platform}
use sirit.Stream.{SpvId, Literal, valid_id}
use sirit.Stream.Operands.{literal_words}
use sirit.Emission.{declarations, Section, Emission}
use sirit.Emission.Size.{word_count-written}
use sirit.Declarations.{declare}
use sirit.Declarations.Declare.{HasId, key}
use sirit.Declarations.Intern.{IsDeclaration, declare-refines-intern}
use sirit.Declarations.Sharing.{Later, here, Later-trans, declare-eq_iff}
use sirit.Instructions.Constant.{constant}
use sirit.Instructions.Types.{type_int}
use sirit.Module.{Module, call, call_on, new_module}
use sirit.Module.Valid.{IsValid, IsCall, Identified}
use sirit.Module.Steps.{call-Stepped}
use sirit.Module.Reach.{Reach, start, next, Step-Stepped, Reach-IsValid, new_module-IsValid}

flag_injective : (b b' : Bool) → ◌≡◌ {A = ℕ} (if b then 1 else 0) (if b' then 1 else 0) → b ≡ b'
flag_injective true true h = refl
flag_injective true false h = absurd (omega (arith, h))
flag_injective false true h = absurd (omega (arith, h))
flag_injective false false h = refl

-- A method that declares.
pub record IsDeclaring (e : Emission) : Type 0 where
  pub calls : IsCall e
  pub has_id : HasId e.head
  pub declares : e.section ≡ declarations

module _ ⦃p : Platform⦄ where
  Reach-Later :
      {m m' : Module} {ids : List ℕ}
      → IsValid m
      → Reach m ids m'
      → Later m.bound m.declarations m'.bound m'.declarations
  Reach-Later v start = here
  Reach-Later v (next r s) =
      let w = Step-Stepped (Reach-IsValid v r) s in Later-trans (Reach-Later v r) w.later

  identified : (e : Emission) → IsDeclaring e → Identified e.section e.head
  identified e c = subst (λ s. Identified s e.head) (sym c.declares) c.has_id

  IsDeclaring-IsDeclaration : (e : Emission) (bound : ℕ) → IsDeclaring e → IsDeclaration e bound
  IsDeclaring-IsDeclaration e bound c = record {
    has_id = c.has_id;
    accepts = c.calls.accepts;
    fits = omega (arith, c.calls.enough, word_count-written e bound);
  }

  declare_of_call :
      (e : Emission) (m m' : Module) (i : SpvId)
      → IsDeclaring e
      → m.bound + 1 < 2 ^ 32
      → IsValid m
      → call e m ≡ ok (i, m')
      → declare e m.bound m.declarations ≡ ok (i, m'.bound, m'.declarations)
  unfolding call
  declare_of_call e m m' i c small v run =
      let (x, b, d, w) =
        declare-refines-intern e m.bound m.declarations (IsDeclaring-IsDeclaration e m.bound c)
          small v.interned in
      subst
        (λ (q : SpvId × Module).
          declare e m.bound m.declarations ≡ ok (q.0, q.1.bound, q.1.declarations))
        (ok-injective (
          sym (ap (λ o. o >>= λ (i, b, d). ok (i, record m { bound = b; declarations = d })) w.runs)
          ∙ sym (ap (λ (s : Section). call_on s e m) c.declares)
          ∙ run))
        w.runs

  -- Two declaring calls of a client return the same id exactly when opcode, result type and operands
  -- agree, whatever calls of `Step` lie before, and between them. The counter is below 2 ^ 32 - 1 at
  -- each.
  pub Reach-eq_iff :
      (version : ℕ) (ids ids' : List ℕ) (m m1 m2 m3 : Module) (e e' : Emission) (i j : SpvId)
      → Reach (new_module version) ids m
      → IsDeclaring e
      → m.bound + 1 < 2 ^ 32
      → call e m ≡ ok (i, m1)
      → Reach m1 ids' m2
      → IsDeclaring e'
      → m2.bound + 1 < 2 ^ 32
      → call e' m2 ≡ ok (j, m3)
      → (i.value ≡ j.value) ↔ (key e ≡ key e')
  Reach-eq_iff version ids ids' m m1 m2 m3 e e' i j r c small run r' c' small' run' =
      let v = Reach-IsValid (new_module-IsValid version) r in
      let w = call-Stepped e c.calls (identified e c) small v run in
      let v2 = Reach-IsValid w.valid r' in
      declare-eq_iff e e' m.bound m1.bound m2.bound m3.bound m.declarations m1.declarations
        m2.declarations m3.declarations i j v.interned (IsDeclaring-IsDeclaration e m.bound c) small
        (declare_of_call e m m1 i c small v run) (Reach-Later w.valid r')
        (IsDeclaring-IsDeclaration e' m2.bound c') small'
        (declare_of_call e' m2 m3 j c' small' v2 run')

  type_int-IsDeclaring : (w : ℤ) (b : Bool) → IsDeclaring (type_int w b)
  unfolding type_int
  type_int-IsDeclaring w b = record {
    calls = record { accepts = refl; enough = omega arith; short = omega arith };
    has_id = tt;
    declares = refl;
  }

  constant-IsDeclaring : (t : SpvId) (l : Literal) → valid_id t ≡ true → IsDeclaring (constant t l)
  unfolding constant
  constant-IsDeclaring t l h = record {
    calls = record {
      accepts = ground (arith, h);
      enough = ground (arith, l);
      short = ground (arith, l);
    };
    has_id = tt;
    declares = refl;
  }

  -- What keys of integer types and constants say.
  type_int-key :
      (w w' : ℤ) (b b' : Bool)
      → (key (type_int w b) ≡ key (type_int w' b')) ↔ ((cast_u32 w ≡ cast_u32 w') × (b ≡ b'))
  unfolding type_int
  type_int-key w w' b b' = (
    λ h. (ap (λ l. get_or l 2 0) h, flag_injective b b' (ap (λ l. get_or l 3 0) h)),
    λ (hw, hb). ap₂ (λ n b. p.op_code Op.op_type_int ∷ 0 ∷ n ∷ (if b then 1 else 0) ∷ []) hw hb,
  )

  constant-key :
      (t t' : SpvId) (l l' : Literal)
      → (key (constant t l) ≡ key (constant t' l'))
        ↔ ((t.value ≡ t'.value) × (literal_words l ≡ literal_words l'))
  unfolding constant
  constant-key t t' l l' = (
    λ h. (
      ap (λ k. get_or k 1 0) h,
      sym (append-nil (literal_words l)) ∙ ap (drop 3) h ∙ append-nil (literal_words l'),
    ),
    λ (ht, hl). ap₂ (λ n k. p.op_code Op.op_constant ∷ n ∷ 0 ∷ (k ++ [])) ht hl,
  )

  -- `TypeInt` returns one id for two calls of a client exactly when the widths agree as `u32` and
  -- the signedness agrees, whatever calls of `Step` lie before, and between them.
  pub type_int-eq_iff :
      (version : ℕ) (ids ids' : List ℕ) (m m1 m2 m3 : Module) (w w' : ℤ) (b b' : Bool) (i j : SpvId)
      → Reach (new_module version) ids m
      → m.bound + 1 < 2 ^ 32
      → call (type_int w b) m ≡ ok (i, m1)
      → Reach m1 ids' m2
      → m2.bound + 1 < 2 ^ 32
      → call (type_int w' b') m2 ≡ ok (j, m3)
      → (i.value ≡ j.value) ↔ ((cast_u32 w ≡ cast_u32 w') × (b ≡ b'))
  type_int-eq_iff version ids ids' m m1 m2 m3 w w' b b' i j r small run r' small' run' =
      let (there, back) =
        Reach-eq_iff version ids ids' m m1 m2 m3 (type_int w b) (type_int w' b') i j r
          (type_int-IsDeclaring w b) small run r' (type_int-IsDeclaring w' b') small' run' in
      let (to, from) = type_int-key w w' b b' in (λ e. to (there e), λ e. back (from e))

  -- `Constant` returns one id for two calls of a client exactly when the types are the same id
  -- and the literals become the same words, of whatever C++ type they are.
  pub constant-eq_iff :
      (version : ℕ) (ids ids' : List ℕ) (m m1 m2 m3 : Module) (t t' : SpvId) (l l' : Literal)
      (i j : SpvId)
      → Reach (new_module version) ids m
      → valid_id t ≡ true
      → m.bound + 1 < 2 ^ 32
      → call (constant t l) m ≡ ok (i, m1)
      → Reach m1 ids' m2
      → valid_id t' ≡ true
      → m2.bound + 1 < 2 ^ 32
      → call (constant t' l') m2 ≡ ok (j, m3)
      → (i.value ≡ j.value) ↔ ((t.value ≡ t'.value) × (literal_words l ≡ literal_words l'))
  constant-eq_iff version ids ids' m m1 m2 m3 t t' l l' i j r h small run r' h' small' run' =
      let (there, back) =
        Reach-eq_iff version ids ids' m m1 m2 m3 (constant t l) (constant t' l') i j r
          (constant-IsDeclaring t l h) small run r' (constant-IsDeclaring t' l' h') small' run' in
      let (to, from) = constant-key t t' l l' in (λ e. to (there e), λ e. back (from e))
