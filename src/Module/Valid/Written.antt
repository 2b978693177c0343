-- ===== src/Module/Valid/Written.antt =====
-- A call that does not declare leaves a valid module: its stream is written on, all else stays.
use mathlib.Core.Path.{subst}
use sirit.Base.{◌+◌, ◌^◌, ◌<◌, ◌≡◌, sym, false, All}
use sirit.Spirv.{Platform}
use sirit.Stream.{Stream, contents}
use sirit.Stream.Heads.{head_bound}
use sirit.Emission.{
  Section, ext_inst_imports, entry_points, execution_modes, debug, annotations, declarations,
  global_variables, code, Emission,
}
use sirit.Emission.Runs.{Emitted}
use sirit.Module.{Module}
use sirit.Module.Streams.{same, stream_of, put_stream}
use sirit.Module.Phi.Nodes.{HasNodes-append, HasNodes}
use sirit.Module.Valid.{IsValid, IsCall, IsWritten, streams, later, later_set, instruction-IsCode}

pub written_at : (k : Section) (m : Module) → All IsWritten (streams m) → IsWritten (stream_of k m)
written_at ext_inst_imports m v = v.0
written_at entry_points m v = v.1.0
written_at execution_modes m v = v.1.1.0
written_at debug m v = v.1.1.1.0
written_at annotations m v = v.1.1.1.1.0
written_at declarations m v = v.1.1.1.1.1.0
written_at global_variables m v = v.1.1.1.1.1.1.0
written_at code m v = v.1.1.1.1.1.1.1.0

pub put_stream-IsWritten :
    (k : Section) (s : Stream) (m : Module)
    → IsWritten s
    → All IsWritten (streams m)
    → All IsWritten (streams (put_stream k s m))
put_stream-IsWritten ext_inst_imports s m w v = (w, v.1)
put_stream-IsWritten entry_points s m w v = (v.0, (w, v.1.1))
put_stream-IsWritten execution_modes s m w v = (v.0, (v.1.0, (w, v.1.1.1)))
put_stream-IsWritten debug s m w v = (v.0, (v.1.0, (v.1.1.0, (w, v.1.1.1.1))))
put_stream-IsWritten annotations s m w v = (v.0, (v.1.0, (v.1.1.0, (v.1.1.1.0, (w, v.1.1.1.1.1)))))
put_stream-IsWritten declarations s m w v =
    (v.0, (v.1.0, (v.1.1.0, (v.1.1.1.0, (v.1.1.1.1.0, (w, v.1.1.1.1.1.1))))))
put_stream-IsWritten global_variables s m w v =
    (v.0, (v.1.0, (v.1.1.0, (v.1.1.1.0, (v.1.1.1.1.0, (v.1.1.1.1.1.0, (w, v.1.1.1.1.1.1.1)))))))
put_stream-IsWritten code s m w v = (
  v.0,
  (
    v.1.0,
    (
      v.1.1.0,
      (v.1.1.1.0, (v.1.1.1.1.0, (v.1.1.1.1.1.0, (v.1.1.1.1.1.1.0, (w, v.1.1.1.1.1.1.1.1))))),
    ),
  ),
)

module _ ⦃p : Platform⦄ where
  pub put_stream-IsValid :
      (k : Section) (e : Emission) (m : Module) (s : Stream)
      → same k declarations ≡ false
      → IsCall e
      → m.bound + 1 < 2 ^ 32
      → Emitted e m.bound (stream_of k m) s
      → IsWritten s
      → IsValid m
      → IsValid (put_stream k s (record m { bound = head_bound e.head m.bound }))
  put_stream-IsValid declarations e m s h c small w x v = cc
  put_stream-IsValid code e m s h c small w x v = record {
    written = put_stream-IsWritten code s m x v.written;
    interned = later m e v.interned small;
    nodes =
        subst (λ l. HasNodes l m.deferred_phi_nodes) (sym w.appends)
          (HasNodes-append (contents m.code) m.deferred_phi_nodes _ v.nodes
            (instruction-IsCode e m.bound c));
    set = later_set m e v.set small;
    unique = v.unique;
  }
  put_stream-IsValid k e m s h c small w x v = record {
    written = put_stream-IsWritten k s m x v.written;
    interned = later m e v.interned small;
    nodes = v.nodes;
    set = later_set m e v.set small;
    unique = v.unique;
  }
