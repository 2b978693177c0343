-- ===== src/Tests/Sharing.antt =====
-- Declarations of a client that share ids, and that do not.
use mathlib.Core.Logic.{◌↔◌}
use sirit.Base.{
  ℕ, ◌+◌, ◌*◌, ◌^◌, ◌≡◌, refl, Bool, true, false, pos, cast_u32, List, [], ◌∷◌, arith, ok,
}
use sirit.Stream.{
  uint32, int32, push_word, reserve, put_head, put_all, put, put_id, put_literal, end_op,
}
use sirit.Stream.Operands.{literal_words}
use sirit.Declarations.{declare, end_declaration, end_lookup, find, words_eq}
use sirit.Declarations.Declare.{declared, key}
use sirit.Instructions.Constant.{constant}
use sirit.Instructions.Types.{type_int}
use sirit.Module.{Module, call, op_label, new_module}
use sirit.Module.Reach.{Reach, start, next, called, fresh}
use sirit.Module.Reach.Sharing.{IsDeclaring, Reach-eq_iff, type_int-eq_iff, constant-eq_iff}
use sirit.Tests.Modules.{fresh_module}
use sirit.Tests.Target.{test_platform, spv}

-- after `TypeInt(32, false)`
abbrev with_uint : Module
with_uint = record fresh_module {
  bound = 1;
  declarations =
      declared ((21 + 4 * 2 ^ 16) ∷ 1 ∷ 32 ∷ 0 ∷ []) [] 0 ((21 ∷ 0 ∷ 32 ∷ 0 ∷ [], 1) ∷ []) 1;
}

-- Id 2 is taken elsewhere.
abbrev two_ids : Module
two_ids = record with_uint { bound = 2 }

-- after `TypeInt(32, true)`
abbrev with_ints : Module
with_ints = record fresh_module {
  bound = 3;
  declarations =
      declared ((21 + 4 * 2 ^ 16) ∷ 1 ∷ 32 ∷ 0 ∷ (21 + 4 * 2 ^ 16) ∷ 3 ∷ 32 ∷ 1 ∷ []) [] 4
        ((21 ∷ 0 ∷ 32 ∷ 1 ∷ [], 3) ∷ (21 ∷ 0 ∷ 32 ∷ 0 ∷ [], 1) ∷ []) 1;
}

uint_run : call (type_int (pos 32) false) fresh_module ≡ ok (spv 1, with_uint)
unfolding call type_int new_module declare put_head put_all put push_word reserve end_declaration
    end_lookup find words_eq end_op
uint_run = refl

int_run : call (type_int (pos 32) true) two_ids ≡ ok (spv 3, with_ints)
unfolding call type_int new_module declare put_head put_all put push_word reserve end_declaration
    end_lookup find words_eq end_op
int_run = refl

label_taken : Reach with_uint (2 ∷ []) two_ids
unfolding op_label
label_taken = next start (fresh {i = spv 2} (omega arith) refl)

type_int-eq_iff_example :
    ((spv 1).value ≡ (spv 3).value) ↔ ((cast_u32 (pos 32) ≡ cast_u32 (pos 32)) × (false ≡ true))
unfolding new_module
type_int-eq_iff_example =
    type_int-eq_iff 0x00010300 [] (2 ∷ []) fresh_module with_uint two_ids with_ints (pos 32)
      (pos 32) false true (spv 1) (spv 3) start (omega arith) uint_run label_taken (omega arith)
      int_run

type_int-IsDeclaring : (b : Bool) → IsDeclaring (type_int (pos 32) b)
unfolding type_int
type_int-IsDeclaring b = record {
  calls = record { accepts = refl; enough = omega arith; short = omega arith };
  has_id = tt;
  declares = refl;
}

Reach-eq_iff_example :
    ((spv 1).value ≡ (spv 3).value) ↔ (key (type_int (pos 32) false) ≡ key (type_int (pos 32) true))
unfolding new_module
Reach-eq_iff_example =
    Reach-eq_iff 0x00010300 [] (2 ∷ []) fresh_module with_uint two_ids with_ints
      (type_int (pos 32) false) (type_int (pos 32) true) (spv 1) (spv 3) start
      (type_int-IsDeclaring false) (omega arith) uint_run label_taken (type_int-IsDeclaring true)
      (omega arith) int_run

with_uint-Reach : Reach fresh_module (1 ∷ []) with_uint
unfolding type_int new_module
with_uint-Reach =
    let c = type_int-IsDeclaring false in
    next start (called {i = spv 1} (type_int (pos 32) false) c.calls tt (omega arith) uint_run)

abbrev five : (room : List ℕ) → ℕ → Module
five room op = record fresh_module {
  bound = 2;
  declarations =
      declared ((21 + 4 * 2 ^ 16) ∷ 1 ∷ 32 ∷ 0 ∷ (43 + 4 * 2 ^ 16) ∷ 1 ∷ 2 ∷ 5 ∷ []) room op
        ((43 ∷ 1 ∷ 0 ∷ 5 ∷ [], 2) ∷ (21 ∷ 0 ∷ 32 ∷ 0 ∷ [], 1) ∷ []) 2;
}

uint_five : call (constant (spv 1) (uint32 5)) with_uint ≡ ok (spv 2, five (0 ∷ []) 4)
unfolding call constant new_module declare put_head put_all put put_id put_literal push_word reserve
    end_declaration end_lookup find words_eq end_op
uint_five = refl

int_five :
    call (constant (spv 1) (int32 (pos 5))) (five (0 ∷ []) 4)
    ≡ ok (spv 2, five (43 ∷ 1 ∷ 3 ∷ 5 ∷ 0 ∷ []) 8)
unfolding call constant new_module declare put_head put_all put put_id put_literal push_word reserve
    end_declaration end_lookup find words_eq end_op
int_five = refl

constant-eq_iff_example :
    ((spv 2).value ≡ (spv 2).value)
    ↔ (((spv 1).value ≡ (spv 1).value) × (literal_words (uint32 5) ≡ literal_words (int32 (pos 5))))
unfolding new_module
constant-eq_iff_example =
    constant-eq_iff 0x00010300 (1 ∷ []) [] with_uint (five (0 ∷ []) 4) (five (0 ∷ []) 4)
      (five (43 ∷ 1 ∷ 3 ∷ 5 ∷ 0 ∷ []) 8) (spv 1) (spv 1) (uint32 5) (int32 (pos 5)) (spv 2) (spv 2)
      with_uint-Reach refl (omega arith) uint_five start refl (omega arith) int_five
