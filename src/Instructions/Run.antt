-- ===== src/Instructions/Run.antt =====
-- All instruction methods on a module: what a call does to the stream that it writes to.
use sirit.Base.{ℕ, ◌+◌, ◌^◌, ◌<◌, ◌≡◌, false, ◌⊎◌, inl, inr, Bool-cases, List, [], ◌∷◌, arith, All}
use sirit.Spirv.{Platform}
use sirit.Stream.{Stream}
use sirit.Emission.{Emission}
use sirit.Emission.Exact.{accepted}
use sirit.Emission.Size.{IsTight, IsNarrow, word_count-written}
use sirit.Emission.Runs.{IsInside, Emitted, emit_runs}
use sirit.Declarations.{Declarations}
use sirit.Declarations.Declare.{HasId}
use sirit.Declarations.Intern.{IsInterned, Declared, declare-refines-intern}
use sirit.Instructions.Arguments.{Arguments}
use sirit.Instructions.Annotation.{annotation_methods, annotation_methods-IsTight}
use sirit.Instructions.Arithmetic.{arithmetic_methods, arithmetic_methods-IsTight}
use sirit.Instructions.Atomic.{atomic_methods, atomic_methods-IsTight}
use sirit.Instructions.Barrier.{barrier_methods, barrier_methods-IsTight}
use sirit.Instructions.Bit.{bit_methods, bit_methods-IsTight}
use sirit.Instructions.Constant.{constant_methods, constant_methods-IsTight, constant_methods-HasId}
use sirit.Instructions.Conversion.{conversion_methods, conversion_methods-IsTight}
use sirit.Instructions.Debug.{debug_methods, debug_methods-IsTight}
use sirit.Instructions.Derivatives.{derivatives_methods, derivatives_methods-IsTight}
use sirit.Instructions.Flow.{flow_methods, flow_methods-IsTight}
use sirit.Instructions.Function.{function_methods, function_methods-IsTight}
use sirit.Instructions.Group.{group_methods, group_methods-IsTight}
use sirit.Instructions.Image.{image_methods, image_methods-IsTight}
use sirit.Instructions.Logical.{logical_methods, logical_methods-IsTight}
use sirit.Instructions.Memory.{memory_methods, memory_methods-IsTight}
use sirit.Instructions.Misc.{misc_methods, misc_methods-IsTight}
use sirit.Instructions.Types.{type_methods, type_methods-IsTight, type_methods-HasId}

-- The methods that write to a plain stream.
abbrev pub stream_methods : Arguments → List (List Emission)
stream_methods g =
    annotation_methods g
    ∷ arithmetic_methods g
    ∷ atomic_methods g
    ∷ barrier_methods g
    ∷ bit_methods g
    ∷ conversion_methods g
    ∷ debug_methods g
    ∷ derivatives_methods g
    ∷ flow_methods g
    ∷ function_methods g
    ∷ group_methods g
    ∷ image_methods g
    ∷ logical_methods g
    ∷ memory_methods g
    ∷ misc_methods g
    ∷ []

-- The methods that declare.
abbrev pub declaration_methods : Arguments → List (List Emission)
declaration_methods g = constant_methods g ∷ type_methods g ∷ []

-- The literals that are written where one word is reserved for each.
pub record HasNarrowLiterals (g : Arguments) : Type 0 where
  pub single : IsNarrow (g.literal 0) × IsNarrow (g.literal 1)
  pub several : All IsNarrow g.literals

All-map {ℓ κ μ} :
    {A : Type ℓ} {P : A → Type κ} {Q : A → Type μ} (xs : List A)
    → ((x : A) → P x → Q x)
    → All P xs
    → All Q xs
All-map [] f h = tt
All-map (x ∷ xs) f (hx, hxs) = (f x hx, All-map xs f hxs)

All-both {ℓ κ μ} :
    {A : Type ℓ} (P : A → Type κ) (Q : A → Type μ) (xs : List A)
    → All P xs
    → All Q xs
    → All (λ x. P x × Q x) xs
All-both P Q [] h k = tt
All-both P Q (x ∷ xs) (hx, hxs) (kx, kxs) = ((hx, kx), All-both P Q xs hxs kxs)

module _ ⦃p : Platform⦄ where
  -- The call appends its instruction, unless an `assert` fails.
  abbrev pub Appends : ℕ → Stream → Emission → Type 0
  Appends bound s e = (accepted e ≡ false) ⊎ ((s' : Stream) × Emitted e bound s s')

  -- The call declares, unless an `assert` fails.
  abbrev pub Declares : ℕ → Declarations → Emission → Type 0
  Declares bound d e =
      (accepted e ≡ false)
      ⊎ ((i : ℕ) × (bound' : ℕ) × (d' : Declarations) × Declared e bound d i bound' d')

  tight-Appends :
      (bound : ℕ) (s : Stream) → IsInside s → (e : Emission) → IsTight e → Appends bound s e
  tight-Appends bound s inside e t = elim (Bool-cases (accepted e)) [
    | inl h ↦ inr (emit_runs e bound s t.enough h inside)
    | inr h ↦ inl h
  ]

  tight-Declares :
      (bound : ℕ) (d : Declarations)
      → bound + 1 < 2 ^ 32
      → IsInterned bound d
      → (e : Emission) → IsTight e × HasId e.head
      → Declares bound d e
  tight-Declares bound d small v e (t, n) = elim (Bool-cases (accepted e)) [
    | inl h ↦ inr (
        declare-refines-intern e bound d
          (record {
            has_id = n;
            accepts = h;
            fits = omega (arith, t.enough, word_count-written e bound);
          })
          small v)
    | inr h ↦ inl h
  ]

  -- The methods of src/instructions that write to a plain stream, with literals of one word, run on
  -- every such stream unless an `assert` fails, and append their instruction. `OpAtomicStore`,
  -- `OpSwitch`, `OpImageSparseGather`, `OpImageSparseDrefGather` and `DeferredOpPhi` are not among
  -- them, nor what extension.cpp defines.
  pub stream_methods_run :
      (g : Arguments) (bound : ℕ) (s : Stream)
      → HasNarrowLiterals g
      → IsInside s
      → All (All (Appends bound s)) (stream_methods g)
  stream_methods_run g bound s n inside = (
    run (annotation_methods g) (annotation_methods-IsTight g (n.several, n.single.0)),
    (
      run (arithmetic_methods g) (arithmetic_methods-IsTight g),
      (
        run (atomic_methods g) (atomic_methods-IsTight g),
        (
          run (barrier_methods g) (barrier_methods-IsTight g),
          (
            run (bit_methods g) (bit_methods-IsTight g),
            (
              run (conversion_methods g) (conversion_methods-IsTight g),
              (
                run (debug_methods g) (debug_methods-IsTight g n.single),
                (
                  run (derivatives_methods g) (derivatives_methods-IsTight g),
                  (
                    run (flow_methods g) (flow_methods-IsTight g),
                    (
                      run (function_methods g) (function_methods-IsTight g),
                      (
                        run (group_methods g) (group_methods-IsTight g),
                        (
                          run (image_methods g) (image_methods-IsTight g),
                          (
                            run (logical_methods g) (logical_methods-IsTight g),
                            (
                              run (memory_methods g) (memory_methods-IsTight g n.several),
                              (run (misc_methods g) (misc_methods-IsTight g), tt),
                            ),
                          ),
                        ),
                      ),
                    ),
                  ),
                ),
              ),
            ),
          ),
        ),
      ),
    ),
  )
    where
      run : (es : List Emission) → All IsTight es → All (Appends bound s) es
      run es h = All-map es (tight-Appends bound s inside) h

  -- The methods of src/instructions that declare, `TypePipe` aside, run on every table in step with
  -- its stream unless an `assert` fails, answer as the abstract table does and keep them in step,
  -- if the counter is below 2 ^ 32 - 1.
  pub declaration_methods_run :
      (g : Arguments) (bound : ℕ) (d : Declarations)
      → bound + 1 < 2 ^ 32
      → IsInterned bound d
      → All (All (Declares bound d)) (declaration_methods g)
  declaration_methods_run g bound d small v = (
    run (constant_methods g) (constant_methods-IsTight g) (constant_methods-HasId g),
    (run (type_methods g) (type_methods-IsTight g) (type_methods-HasId g), tt),
  )
    where
      run :
          (es : List Emission)
          → All IsTight es
          → All (λ e. HasId e.head) es
          → All (Declares bound d) es
      run es h k = All-map es (tight-Declares bound d small v) (All-both IsTight _ es h k)
