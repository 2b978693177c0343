-- ===== src/Instructions/Atomic.antt =====
-- src/instructions/atomic.cpp
use sirit.Base.{List, [], ◌∷◌, arith, All, ℕ, ◌≡◌, true, fault, out_of_bounds}
use sirit.Spirv.{Op, Platform}
use sirit.Stream.{SpvId, id, with_id, with_type, Stream}
use sirit.Emission.{Emission, emission, code, emit}
use sirit.Emission.Size.{IsTight}
use sirit.Instructions.Arguments.{Arguments}
use sirit.Stream.Operands.{all_valid}
use sirit.Emission.Short.{IsFull, emit_short}

op_atomic_load : SpvId → SpvId → SpvId → SpvId → Emission
op_atomic_load result_type pointer memory semantics =
    emission code 6 (with_type Op.op_atomic_load result_type)
      (id pointer ∷ id memory ∷ id semantics ∷ [])

pub op_atomic_store : SpvId → SpvId → SpvId → SpvId → Emission
op_atomic_store pointer memory semantics value =
    emission code 5 (with_id Op.op_atomic_store)
      (id pointer ∷ id memory ∷ id semantics ∷ id value ∷ [])

op_atomic_exchange : SpvId → SpvId → SpvId → SpvId → SpvId → Emission
op_atomic_exchange result_type pointer memory semantics value =
    emission code 7 (with_type Op.op_atomic_exchange result_type)
      (id pointer ∷ id memory ∷ id semantics ∷ id value ∷ [])

op_atomic_compare_exchange : SpvId → SpvId → SpvId → SpvId → SpvId → SpvId → SpvId → Emission
op_atomic_compare_exchange result_type pointer memory equal unequal value comparator =
    emission code 9 (with_type Op.op_atomic_compare_exchange result_type)
      (id pointer ∷ id memory ∷ id equal ∷ id unequal ∷ id value ∷ id comparator ∷ [])

op_atomic_i_increment : SpvId → SpvId → SpvId → SpvId → Emission
op_atomic_i_increment result_type pointer memory semantics =
    emission code 6 (with_type Op.op_atomic_i_increment result_type)
      (id pointer ∷ id memory ∷ id semantics ∷ [])

op_atomic_i_decrement : SpvId → SpvId → SpvId → SpvId → Emission
op_atomic_i_decrement result_type pointer memory semantics =
    emission code 6 (with_type Op.op_atomic_i_decrement result_type)
      (id pointer ∷ id memory ∷ id semantics ∷ [])

op_atomic_i_add : SpvId → SpvId → SpvId → SpvId → SpvId → Emission
op_atomic_i_add result_type pointer memory semantics value =
    emission code 7 (with_type Op.op_atomic_i_add result_type)
      (id pointer ∷ id memory ∷ id semantics ∷ id value ∷ [])

op_atomic_i_sub : SpvId → SpvId → SpvId → SpvId → SpvId → Emission
op_atomic_i_sub result_type pointer memory semantics value =
    emission code 7 (with_type Op.op_atomic_i_sub result_type)
      (id pointer ∷ id memory ∷ id semantics ∷ id value ∷ [])

op_atomic_s_min : SpvId → SpvId → SpvId → SpvId → SpvId → Emission
op_atomic_s_min result_type pointer memory semantics value =
    emission code 7 (with_type Op.op_atomic_s_min result_type)
      (id pointer ∷ id memory ∷ id semantics ∷ id value ∷ [])

op_atomic_u_min : SpvId → SpvId → SpvId → SpvId → SpvId → Emission
op_atomic_u_min result_type pointer memory semantics value =
    emission code 7 (with_type Op.op_atomic_u_min result_type)
      (id pointer ∷ id memory ∷ id semantics ∷ id value ∷ [])

op_atomic_s_max : SpvId → SpvId → SpvId → SpvId → SpvId → Emission
op_atomic_s_max result_type pointer memory semantics value =
    emission code 7 (with_type Op.op_atomic_s_max result_type)
      (id pointer ∷ id memory ∷ id semantics ∷ id value ∷ [])

op_atomic_u_max : SpvId → SpvId → SpvId → SpvId → SpvId → Emission
op_atomic_u_max result_type pointer memory semantics value =
    emission code 7 (with_type Op.op_atomic_u_max result_type)
      (id pointer ∷ id memory ∷ id semantics ∷ id value ∷ [])

op_atomic_and : SpvId → SpvId → SpvId → SpvId → SpvId → Emission
op_atomic_and result_type pointer memory semantics value =
    emission code 7 (with_type Op.op_atomic_and result_type)
      (id pointer ∷ id memory ∷ id semantics ∷ id value ∷ [])

op_atomic_or : SpvId → SpvId → SpvId → SpvId → SpvId → Emission
op_atomic_or result_type pointer memory semantics value =
    emission code 7 (with_type Op.op_atomic_or result_type)
      (id pointer ∷ id memory ∷ id semantics ∷ id value ∷ [])

op_atomic_xor : SpvId → SpvId → SpvId → SpvId → SpvId → Emission
op_atomic_xor result_type pointer memory semantics value =
    emission code 7 (with_type Op.op_atomic_xor result_type)
      (id pointer ∷ id memory ∷ id semantics ∷ id value ∷ [])

-- The methods of this file, at any arguments.
pub atomic_methods : Arguments → List Emission
unfolding op_atomic_load op_atomic_exchange op_atomic_compare_exchange op_atomic_i_increment
    op_atomic_i_decrement op_atomic_i_add op_atomic_i_sub op_atomic_s_min op_atomic_u_min
    op_atomic_s_max op_atomic_u_max op_atomic_and op_atomic_or op_atomic_xor
atomic_methods g =
    op_atomic_load (g.id 0) (g.id 1) (g.id 2) (g.id 3)
    ∷ op_atomic_exchange (g.id 0) (g.id 1) (g.id 2) (g.id 3) (g.id 4)
    ∷ op_atomic_compare_exchange (g.id 0) (g.id 1) (g.id 2) (g.id 3) (g.id 4) (g.id 5) (g.id 6)
    ∷ op_atomic_i_increment (g.id 0) (g.id 1) (g.id 2) (g.id 3)
    ∷ op_atomic_i_decrement (g.id 0) (g.id 1) (g.id 2) (g.id 3)
    ∷ op_atomic_i_add (g.id 0) (g.id 1) (g.id 2) (g.id 3) (g.id 4)
    ∷ op_atomic_i_sub (g.id 0) (g.id 1) (g.id 2) (g.id 3) (g.id 4)
    ∷ op_atomic_s_min (g.id 0) (g.id 1) (g.id 2) (g.id 3) (g.id 4)
    ∷ op_atomic_u_min (g.id 0) (g.id 1) (g.id 2) (g.id 3) (g.id 4)
    ∷ op_atomic_s_max (g.id 0) (g.id 1) (g.id 2) (g.id 3) (g.id 4)
    ∷ op_atomic_u_max (g.id 0) (g.id 1) (g.id 2) (g.id 3) (g.id 4)
    ∷ op_atomic_and (g.id 0) (g.id 1) (g.id 2) (g.id 3) (g.id 4)
    ∷ op_atomic_or (g.id 0) (g.id 1) (g.id 2) (g.id 3) (g.id 4)
    ∷ op_atomic_xor (g.id 0) (g.id 1) (g.id 2) (g.id 3) (g.id 4)
    ∷ []

-- The emissions of src/instructions/atomic.cpp, `OpAtomicStore` aside, reserve at least what they
-- write, and at most two words more.
pub atomic_methods-IsTight : (g : Arguments) → All IsTight (atomic_methods g)
unfolding atomic_methods
atomic_methods-IsTight g = omega arith

module _ ⦃p : Platform⦄ where
  -- `OpAtomicStore` reserves five words, and writes six with the result id that it takes. With
  -- valid ids it writes outside of the vector where that ends at the cursor.
  pub op_atomic_store_overflow :
      (pointer memory semantics value : SpvId) (bound : ℕ) (s : Stream)
      → all_valid (id pointer ∷ id memory ∷ id semantics ∷ id value ∷ []) ≡ true
      → IsFull s
      → emit (op_atomic_store pointer memory semantics value) bound s ≡ fault out_of_bounds
  unfolding op_atomic_store
  op_atomic_store_overflow pointer memory semantics value bound s h full =
      emit_short _ bound s h (omega arith) full
