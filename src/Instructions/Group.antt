-- ===== src/Instructions/Group.antt =====
-- src/instructions/group.cpp
use sirit.Base.{List, [], ◌∷◌, arith, All}
use sirit.Spirv.{Op}
use sirit.Stream.{SpvId, id, with_type}
use sirit.Emission.{Emission, emission, code}
use sirit.Emission.Size.{IsTight}
use sirit.Instructions.Arguments.{Arguments}

op_subgroup_ballot_khr : SpvId → SpvId → Emission
op_subgroup_ballot_khr result_type predicate =
    emission code 4 (with_type Op.op_subgroup_ballot_khr result_type) (id predicate ∷ [])

op_subgroup_read_invocation_khr : SpvId → SpvId → SpvId → Emission
op_subgroup_read_invocation_khr result_type value index =
    emission code 5 (with_type Op.op_subgroup_read_invocation_khr result_type)
      (id value ∷ id index ∷ [])

op_subgroup_all_khr : SpvId → SpvId → Emission
op_subgroup_all_khr result_type predicate =
    emission code 4 (with_type Op.op_subgroup_all_khr result_type) (id predicate ∷ [])

op_subgroup_any_khr : SpvId → SpvId → Emission
op_subgroup_any_khr result_type predicate =
    emission code 4 (with_type Op.op_subgroup_any_khr result_type) (id predicate ∷ [])

op_subgroup_all_equal_khr : SpvId → SpvId → Emission
op_subgroup_all_equal_khr result_type predicate =
    emission code 4 (with_type Op.op_subgroup_all_equal_khr result_type) (id predicate ∷ [])

op_group_non_uniform_broadcast : SpvId → SpvId → SpvId → SpvId → Emission
op_group_non_uniform_broadcast result_type scope value invocation =
    emission code 6 (with_type Op.op_group_non_uniform_broadcast result_type)
      (id scope ∷ id value ∷ id invocation ∷ [])

op_group_non_uniform_shuffle : SpvId → SpvId → SpvId → SpvId → Emission
op_group_non_uniform_shuffle result_type scope value invocation =
    emission code 6 (with_type Op.op_group_non_uniform_shuffle result_type)
      (id scope ∷ id value ∷ id invocation ∷ [])

op_group_non_uniform_shuffle_xor : SpvId → SpvId → SpvId → SpvId → Emission
op_group_non_uniform_shuffle_xor result_type scope value mask =
    emission code 6 (with_type Op.op_group_non_uniform_shuffle_xor result_type)
      (id scope ∷ id value ∷ id mask ∷ [])

op_group_non_uniform_all : SpvId → SpvId → SpvId → Emission
op_group_non_uniform_all result_type scope predicate =
    emission code 5 (with_type Op.op_group_non_uniform_all result_type)
      (id scope ∷ id predicate ∷ [])

op_group_non_uniform_any : SpvId → SpvId → SpvId → Emission
op_group_non_uniform_any result_type scope predicate =
    emission code 5 (with_type Op.op_group_non_uniform_any result_type)
      (id scope ∷ id predicate ∷ [])

op_group_non_uniform_all_equal : SpvId → SpvId → SpvId → Emission
op_group_non_uniform_all_equal result_type scope value =
    emission code 5 (with_type Op.op_group_non_uniform_all_equal result_type)
      (id scope ∷ id value ∷ [])

op_group_non_uniform_ballot : SpvId → SpvId → SpvId → Emission
op_group_non_uniform_ballot result_type scope predicate =
    emission code 5 (with_type Op.op_group_non_uniform_ballot result_type)
      (id scope ∷ id predicate ∷ [])

-- The methods of this file, at any arguments.
pub group_methods : Arguments → List Emission
unfolding op_subgroup_ballot_khr op_subgroup_read_invocation_khr op_subgroup_all_khr
    op_subgroup_any_khr op_subgroup_all_equal_khr op_group_non_uniform_broadcast
    op_group_non_uniform_shuffle op_group_non_uniform_shuffle_xor op_group_non_uniform_all
    op_group_non_uniform_any op_group_non_uniform_all_equal op_group_non_uniform_ballot
group_methods g =
    op_subgroup_ballot_khr (g.id 0) (g.id 1)
    ∷ op_subgroup_read_invocation_khr (g.id 0) (g.id 1) (g.id 2)
    ∷ op_subgroup_all_khr (g.id 0) (g.id 1)
    ∷ op_subgroup_any_khr (g.id 0) (g.id 1)
    ∷ op_subgroup_all_equal_khr (g.id 0) (g.id 1)
    ∷ op_group_non_uniform_broadcast (g.id 0) (g.id 1) (g.id 2) (g.id 3)
    ∷ op_group_non_uniform_shuffle (g.id 0) (g.id 1) (g.id 2) (g.id 3)
    ∷ op_group_non_uniform_shuffle_xor (g.id 0) (g.id 1) (g.id 2) (g.id 3)
    ∷ op_group_non_uniform_all (g.id 0) (g.id 1) (g.id 2)
    ∷ op_group_non_uniform_any (g.id 0) (g.id 1) (g.id 2)
    ∷ op_group_non_uniform_all_equal (g.id 0) (g.id 1) (g.id 2)
    ∷ op_group_non_uniform_ballot (g.id 0) (g.id 1) (g.id 2)
    ∷ []

-- The emissions of src/instructions/group.cpp reserve at least what they write, and at most two
-- words more.
pub group_methods-IsTight : (g : Arguments) → All IsTight (group_methods g)
unfolding group_methods
group_methods-IsTight g = omega arith
