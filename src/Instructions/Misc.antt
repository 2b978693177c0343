-- ===== src/Instructions/Misc.antt =====
-- src/instructions/misc.cpp
use sirit.Base.{List, [], ◌∷◌, arith, All}
use sirit.Spirv.{Op}
use sirit.Stream.{SpvId, id, plain, with_type}
use sirit.Emission.{Emission, emission, code}
use sirit.Emission.Size.{IsTight}
use sirit.Instructions.Arguments.{Arguments}

unfoldable pub op_undef : SpvId → Emission
op_undef result_type = emission code 3 (with_type Op.op_undef result_type) []

op_emit_vertex : Emission
op_emit_vertex = emission code 1 (plain Op.op_emit_vertex) []

op_end_primitive : Emission
op_end_primitive = emission code 1 (plain Op.op_end_primitive) []

op_emit_stream_vertex : SpvId → Emission
op_emit_stream_vertex stream = emission code 2 (plain Op.op_emit_stream_vertex) (id stream ∷ [])

op_end_stream_primitive : SpvId → Emission
op_end_stream_primitive stream = emission code 2 (plain Op.op_end_stream_primitive) (id stream ∷ [])

-- The methods of this file, at any arguments.
pub misc_methods : Arguments → List Emission
unfolding op_undef op_emit_vertex op_end_primitive op_emit_stream_vertex op_end_stream_primitive
misc_methods g =
    op_undef (g.id 0)
    ∷ op_emit_vertex
    ∷ op_end_primitive
    ∷ op_emit_stream_vertex (g.id 0)
    ∷ op_end_stream_primitive (g.id 0)
    ∷ []

-- The emissions of src/instructions/misc.cpp reserve at least what they write, and at most two
-- words more.
pub misc_methods-IsTight : (g : Arguments) → All IsTight (misc_methods g)
unfolding misc_methods
misc_methods-IsTight g = omega arith
