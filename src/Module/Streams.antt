-- ===== src/Module/Streams.antt =====
-- The streams of a module by their sections.
use sirit.Base.{ℕ, ◌≡◌, refl, ok, ◌>>=◌, true, false, if◌then◌else◌, List, Option, Bool, ◌==◌}
use sirit.Spirv.{Platform}
use sirit.Stream.{SpvId, Stream}
use sirit.Emission.{
  Section, ext_inst_imports, entry_points, execution_modes, debug, annotations, declarations,
  global_variables, code, Emission, emit,
}
use sirit.Declarations.{Declarations}
use sirit.Module.{Module, call_on}

abbrev place : Section → ℕ
place ext_inst_imports = 0
place entry_points = 1
place execution_modes = 2
place debug = 3
place annotations = 4
place declarations = 5
place global_variables = 6
place code = 7

abbrev pub same : Section → Section → Bool
same s s' = place s == place s'

abbrev pub stream_of : Section → Module → Stream
stream_of ext_inst_imports m = m.ext_inst_imports
stream_of entry_points m = m.entry_points
stream_of execution_modes m = m.execution_modes
stream_of debug m = m.debug
stream_of annotations m = m.annotations
stream_of declarations m = m.declarations.stream
stream_of global_variables m = m.global_variables
stream_of code m = m.code

abbrev pub put_stream : Section → Stream → Module → Module
put_stream ext_inst_imports s m = record m { ext_inst_imports = s }
put_stream entry_points s m = record m { entry_points = s }
put_stream execution_modes s m = record m { execution_modes = s }
put_stream debug s m = record m { debug = s }
put_stream annotations s m = record m { annotations = s }
put_stream declarations s m = record m { declarations = record m.declarations { stream = s } }
put_stream global_variables s m = record m { global_variables = s }
put_stream code s m = record m { code = s }

pub stream_of-put_stream :
    (k s : Section) (x : Stream) (m : Module)
    → stream_of s (put_stream k x m) ≡ (if same s k then x else stream_of s m)
stream_of-put_stream ext_inst_imports code x m = refl
stream_of-put_stream ext_inst_imports _ x m = refl
stream_of-put_stream entry_points code x m = refl
stream_of-put_stream entry_points _ x m = refl
stream_of-put_stream execution_modes code x m = refl
stream_of-put_stream execution_modes _ x m = refl
stream_of-put_stream debug code x m = refl
stream_of-put_stream debug _ x m = refl
stream_of-put_stream annotations code x m = refl
stream_of-put_stream annotations _ x m = refl
stream_of-put_stream declarations code x m = refl
stream_of-put_stream declarations _ x m = refl
stream_of-put_stream global_variables code x m = refl
stream_of-put_stream global_variables _ x m = refl
stream_of-put_stream code code x m = refl
stream_of-put_stream code _ x m = refl

module _ ⦃p : Platform⦄ where
  -- A method that does not declare, on the stream of its section.
  pub call_on-put_stream :
      (k : Section) (e : Emission) (m : Module)
      → same k declarations ≡ false
      → call_on k e m ≡ (
          emit e m.bound (stream_of k m) >>= λ (i, b, s).
          ok (i, put_stream k s (record m { bound = b })))
  call_on-put_stream declarations e m h = cc
  call_on-put_stream _ e m h = refl

  pub declarations-put_stream :
      (k : Section) (x : Stream) (m : Module)
      → same k declarations ≡ false
      → (put_stream k x m).declarations ≡ m.declarations
  declarations-put_stream declarations x m h = cc
  declarations-put_stream _ x m h = refl

  pub bound-put_stream :
      (k : Section) (x : Stream) (m : Module) → (put_stream k x m).bound ≡ m.bound
  bound-put_stream code x m = refl
  bound-put_stream _ x m = refl

pub same→eq : (s k : Section) → same s k ≡ true → s ≡ k
same→eq ext_inst_imports ext_inst_imports h = refl
same→eq ext_inst_imports _ h = cc
same→eq entry_points entry_points h = refl
same→eq entry_points _ h = cc
same→eq execution_modes execution_modes h = refl
same→eq execution_modes _ h = cc
same→eq debug debug h = refl
same→eq debug _ h = cc
same→eq annotations annotations h = refl
same→eq annotations _ h = cc
same→eq declarations declarations h = refl
same→eq declarations _ h = cc
same→eq global_variables global_variables h = refl
same→eq global_variables _ h = cc
same→eq code code h = refl
same→eq code _ h = cc

pub stream_of-bound :
    (s : Section) (bound : ℕ) (m : Module)
    → stream_of s (record m { bound = bound }) ≡ stream_of s m
stream_of-bound code bound m = refl
stream_of-bound _ bound m = refl

pub stream_of-declarations :
    (s : Section) (bound : ℕ) (d : Declarations) (m : Module)
    → stream_of s (record m { bound = bound; declarations = d })
      ≡ stream_of s (put_stream declarations d.stream m)
stream_of-declarations code bound d m = refl
stream_of-declarations _ bound d m = refl

-- What a module holds beside the streams.
abbrev pub Front : Type 0
Front = List ℕ × List (List ℕ) × ℕ × ℕ × Option SpvId

abbrev pub front : Module → Front
front m = (m.capabilities, m.extensions, m.addressing_model, m.memory_model, m.glsl_std_450)

pub front-put_stream : (k : Section) (s : Stream) (m : Module) → front (put_stream k s m) ≡ front m
front-put_stream code s m = refl
front-put_stream _ s m = refl

pub stream_of-front :
    (s : Section) (cs : List ℕ) (xs : List (List ℕ)) (a b : ℕ) (g : Option SpvId) (m : Module)
    → stream_of s (record m {
      capabilities = cs;
      extensions = xs;
      addressing_model = a;
      memory_model = b;
      glsl_std_450 = g;
    })
      ≡ stream_of s m
stream_of-front code cs xs a b g m = refl
stream_of-front _ cs xs a b g m = refl
