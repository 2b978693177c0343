-- ===== src/Instructions/Barrier.antt =====
-- src/instructions/barrier.cpp
use sirit.Base.{List, [], ◌∷◌, arith, All}
use sirit.Spirv.{Op}
use sirit.Stream.{SpvId, id, plain}
use sirit.Emission.{Emission, emission, code}
use sirit.Emission.Size.{IsTight}
use sirit.Instructions.Arguments.{Arguments}

op_control_barrier : SpvId → SpvId → SpvId → Emission
op_control_barrier execution memory semantics =
    emission code 4 (plain Op.op_control_barrier) (id execution ∷ id memory ∷ id semantics ∷ [])

op_memory_barrier : SpvId → SpvId → Emission
op_memory_barrier scope semantics =
    emission code 3 (plain Op.op_memory_barrier) (id scope ∷ id semantics ∷ [])

-- The methods of this file, at any arguments.
pub barrier_methods : Arguments → List Emission
unfolding op_control_barrier op_memory_barrier
barrier_methods g =
    op_control_barrier (g.id 0) (g.id 1) (g.id 2) ∷ op_memory_barrier (g.id 0) (g.id 1) ∷ []

-- The emissions of src/instructions/barrier.cpp reserve at least what they write, and at most two
-- words more.
pub barrier_methods-IsTight : (g : Arguments) → All IsTight (barrier_methods g)
unfolding barrier_methods
barrier_methods-IsTight g = omega arith
