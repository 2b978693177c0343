-- ===== src/Module/Phi/Patched.antt =====
-- A deferred phi that is patched is the phi that `OpPhi` would have written.
use sirit.Stream.{Stream}
use sirit.Module.{Module}
use sirit.Module.Phi.Deferred.{Deferred}
