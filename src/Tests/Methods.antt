-- ===== src/Tests/Methods.antt =====
-- The instruction methods at small inputs.
use mathlib.Core.Option.{some}
use sirit.Base.{◌+◌, ◌≡◌, refl, arith, [], ◌∷◌, fault, out_of_bounds, pos, false, All}
use sirit.Stream.{Stream, uint32, uint64}
use sirit.Stream.Words.{at, contents-at}
use sirit.Emission.{emit}
use sirit.Emission.Size.{IsTight}
use sirit.Declarations.{no_declarations}
use sirit.Declarations.Intern.{IsInterned}
use sirit.Instructions.Arguments.{Arguments}
use sirit.Instructions.Run.{
  stream_methods, declaration_methods, HasNarrowLiterals, Appends, Declares, stream_methods_run,
  declaration_methods_run,
}
use sirit.Instructions.Image.{op_image_sparse_gather, op_image_sparse_dref_gather}
use sirit.Instructions.Image.Gather.{sparse_gathers_overflow}
use sirit.Instructions.Wide.{wide_methods, wide_literals_overflow}
use sirit.Instructions.Atomic.{op_atomic_store, op_atomic_store_overflow}
use sirit.Instructions.Flow.{op_switch, op_switch-IsTight, op_switch_overflow}
use sirit.Tests.Target.{test_platform, spv}

-- Ids 5, 6, …, and two operands and literals.
abbrev sample : Arguments
sample = record {
  id = λ n. spv (5 + n);
  number = λ n. n;
  integer = λ n. pos (2 + n);
  flag = λ n. false;
  literal = λ n. uint32 n;
  operands = spv 8 ∷ spv 9 ∷ [];
  literals = uint32 1 ∷ uint32 2 ∷ [];
  initializer = some (spv 7);
  mask = some 2;
  text = b'm' ∷ b'a' ∷ b'i' ∷ b'n' ∷ [];
}

abbrev full : Stream
full = at (7 ∷ []) [] 0

sample-HasNarrowLiterals : HasNarrowLiterals sample
sample-HasNarrowLiterals = record { single = (refl, refl); several = (refl, (refl, tt)) }

stream_methods_run_example : All (All (Appends 20 full)) (stream_methods sample)
stream_methods_run_example =
    stream_methods_run sample 20 full sample-HasNarrowLiterals (omega arith)

no_declarations-IsInterned : IsInterned 0 no_declarations
no_declarations-IsInterned = record {
  in_vector = omega arith;
  small = omega arith;
  falling = tt;
  holds = contents-at [] [] 0;
}

declaration_methods_run_example :
    All (All (Declares 0 no_declarations)) (declaration_methods sample)
declaration_methods_run_example =
    declaration_methods_run sample 0 no_declarations (omega arith) no_declarations-IsInterned

op_switch-IsTight_example :
    IsTight (op_switch (spv 1) (spv 2) (uint32 0 ∷ uint32 1 ∷ []) (spv 3 ∷ spv 4 ∷ []))
op_switch-IsTight_example =
    op_switch-IsTight (spv 1) (spv 2) (uint32 0 ∷ uint32 1 ∷ []) (spv 3 ∷ spv 4 ∷ []) refl
      (refl, (refl, tt))

op_switch_overflow_example :
    emit (op_switch (spv 1) (spv 2) (uint64 0 ∷ []) (spv 3 ∷ [])) 20 full ≡ fault out_of_bounds
op_switch_overflow_example =
    op_switch_overflow (spv 1) (spv 2) (uint64 0 ∷ []) (spv 3 ∷ []) 20 full refl refl (omega arith)
      refl

op_atomic_store_overflow_example :
    emit (op_atomic_store (spv 1) (spv 2) (spv 3) (spv 4)) 20 full ≡ fault out_of_bounds
op_atomic_store_overflow_example =
    op_atomic_store_overflow (spv 1) (spv 2) (spv 3) (spv 4) 20 full refl refl

sparse_gathers_overflow_example :
    (emit (op_image_sparse_gather (spv 1) (spv 2) (spv 3) (spv 4) (some 8) (spv 5 ∷ [])) 20 full
      ≡ fault out_of_bounds)
    × (emit
          (op_image_sparse_dref_gather (spv 1) (spv 2) (spv 3) (spv 4) (some 8) (spv 5 ∷ []))
          20
          full
        ≡ fault out_of_bounds)
sparse_gathers_overflow_example =
    sparse_gathers_overflow (spv 1) (spv 2) (spv 3) (spv 4) 8 (spv 5 ∷ []) 20 full refl refl

abbrev wide_arguments : Arguments
wide_arguments = record sample { literals = uint64 1 ∷ []; literal = uint64 }

wide_literals_overflow_example :
    All (λ e. emit e 20 full ≡ fault out_of_bounds) (wide_methods wide_arguments)
wide_literals_overflow_example =
    wide_literals_overflow wide_arguments 20 full refl (omega arith) (omega arith) refl
