-- ===== src/Module/Reach/Ids.antt =====
-- The ids and the deferred phi nodes of the modules that a client can build.
use sirit.Base.{
  ℕ, ◌+◌, ◌%◌, ◌^◌, ◌≤◌, ◌<◌, ◌≡◌, ◌≢◌, refl, List, [], ◌∷◌, arith, All, All-append, ok,
}
use sirit.Spirv.{Platform}
use sirit.Stream.{SpvId, Head, plain, with_id, with_type}
use sirit.Stream.Heads.{head_bound}
use sirit.Emission.{Section, declarations, Emission}
use sirit.Declarations.Declare.{HasId}
use sirit.Module.{Module, call, new_module}
use sirit.Module.Assemble.{assemble}
use sirit.Module.Assemble.RoundTrip.{assemble_words}
use sirit.Module.Valid.{IsValid, IsCall, Identified}
use sirit.Module.Valid.Calls.{IsNext, call-IsValid}
use sirit.Module.Steps.{IsIssued}
use sirit.Module.Reach.{Reach, start, next, Step-Stepped, Reach-IsValid, new_module-IsValid}
use sirit.Module.Steps.Phi.{PatchedModule, patch_deferred_phi-Stepped}

IsIssued-mono :
    (bound bound' : ℕ) (ids : List ℕ)
    → bound ≤ bound'
    → All (IsIssued bound) ids
    → All (IsIssued bound') ids
IsIssued-mono bound bound' [] le h = tt
IsIssued-mono bound bound' (i ∷ ids) le (hi, h) = (omega arith, IsIssued-mono bound bound' ids le h)

issued_below :
    (bound b : ℕ) (ids : List ℕ)
    → bound < b
    → All (IsIssued bound) ids
    → All (λ i. (0 < i) × (i < b)) ids
issued_below bound b [] lt h = tt
issued_below bound b (i ∷ ids) lt (hi, h) = (omega arith, issued_below bound b ids lt h)

module _ ⦃p : Platform⦄ where
  Reach-IsIssued :
      {m m' : Module} {ids : List ℕ}
      → IsValid m
      → Reach m ids m'
      → IsValid m' × All (IsIssued m'.bound) ids
  Reach-IsIssued v start = (v, tt)
  Reach-IsIssued v (next {m = m1} {m' = m2} {ids = ids} {new = new} r s) =
      let (v1, h) = Reach-IsIssued v r in
      let w = Step-Stepped v1 s in
      (
        w.valid,
        All-append (IsIssued m2.bound) new ids w.issued
            (IsIssued-mono m1.bound m2.bound ids w.grows h),
      )

  -- All ids that calls of `Step` gave out are valid, and below the bound that `Assemble` writes in
  -- the fourth word of the module, if the counter is below 2 ^ 32 - 1.
  pub Reach-bound :
      (version : ℕ) (ids : List ℕ) (m : Module)
      → Reach (new_module version) ids m
      → m.bound + 1 < 2 ^ 32
      → (b : ℕ) × (rest : List ℕ) × (assemble m
          ≡ ok (p.magic_number ∷ m.version ∷ 0 ∷ b ∷ 0 ∷ rest))
        × All (λ i. (0 < i) × (i < b)) ids
  Reach-bound version ids m r small =
      let (_, h) = Reach-IsIssued (new_module-IsValid version) r in
      ((m.bound + 1) % 2 ^ 32, _, assemble_words m, issued_below m.bound _ ids (omega arith) h)

  outside_next :
      (s : Section) (h : Head) (bound i : ℕ)
      → s ≢ declarations
      → IsNext s h bound i
      → i ≡ head_bound h bound
  outside_next declarations h bound i o n = elim (o refl) [ ]
  outside_next _ h bound i o n = n

  next_above :
      (h : Head) (bound : ℕ) → HasId h → bound + 1 < 2 ^ 32 → head_bound h bound ≡ bound + 1
  next_above (plain op) bound n small = elim n [ ]
  next_above (with_id op) bound n small = omega arith
  next_above (with_type op t) bound n small = omega arith

  -- A method that is one chain with a result id and does not declare, its `assert`s holding, its
  -- reservation enough and its instruction not too long, returns an id that is above all ids given out
  -- before by calls of `Step`, if the counter is below 2 ^ 32 - 1.
  pub Reach-fresh :
      (version : ℕ) (ids : List ℕ) (m : Module) (e : Emission)
      → Reach (new_module version) ids m
      → IsCall e
      → Identified e.section e.head
      → e.section ≢ declarations
      → HasId e.head
      → m.bound + 1 < 2 ^ 32
      → (i : SpvId) × (m' : Module) × (call e m ≡ ok (i, m'))
        × All (λ j. (0 < j) × (j < i.value)) ids
  Reach-fresh version ids m e r c d o n small =
      let (v, h) = Reach-IsIssued (new_module-IsValid version) r in
      let (i, m', w) = call-IsValid e m c d small v in
      (
        i,
        m',
        w.runs,
        issued_below m.bound i.value ids
            (omega (
              arith,
              outside_next e.section e.head m.bound i.value o w.next,
              next_above e.head m.bound n small,
            ))
            h,
      )

  -- `PatchDeferredPhi` runs with any callback on every module that calls of `Step` have built from a new
  -- one, if the code is shorter than 2 ^ 32 words. In these calls each `DeferredOpPhi` is made where
  -- the code vector ends at the cursor, and its phi is not too long for its header. It finds a phi node wherever `DeferredOpPhi` noted one,
  -- writes what the callback returns in place of the values of each, and nothing else.
  pub Reach-patch :
      {S : Type 0} (func : ℕ → S → SpvId × S) (st : S) (version : ℕ) (ids : List ℕ) (m : Module)
      → Reach (new_module version) ids m
      → m.code.insert_index < 2 ^ 32
      → (v : IsValid m) × (last : S) × (m' : Module) × PatchedModule func st m v last m'
  Reach-patch func st version ids m r small =
      let v = Reach-IsValid (new_module-IsValid version) r in
      let (last, m', w) = patch_deferred_phi-Stepped func st m v small in (v, last, m', w)
