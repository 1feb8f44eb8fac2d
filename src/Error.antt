-- ===== src/Error.antt =====
-- src/error.rs: the errors of a request handler, and what a call of the cache service returns.
use Prim.Native.String.{String}
use mathlib.Core.Path.{◌≡◌, refl}

-- `MomentoError` is a type of the client library; `E` stands for it.
pub data ProxyError (E : Type 0) : Type 0 where
  momento : E → ProxyError E
  io : String → ProxyError E
  timeout : ProxyError E
  custom : String → ProxyError E
  unsupported_command : String → ProxyError E

-- `Result<Result<T, MomentoError>, Elapsed>`: a call of the service under the timeout of 200 ms.
pub data Outcome (E A : Type 0) : Type 0 where
  done : A → Outcome E A
  failed : E → Outcome E A
  elapsed : Outcome E A

-- The client library's `Hit { .. }` and `Miss`.
pub data Lookup (A : Type 0) : Type 0 where
  hit : A → Lookup A
  miss : Lookup A

-- To split on the end of a call and keep the equation.
pub data Ends {E A : Type 0} (o : Outcome E A) : Type 0 where
  is_done : (a : A) → o ≡ done a → Ends o
  is_failed : (e : E) → o ≡ failed e → Ends o
  is_elapsed : o ≡ elapsed → Ends o

pub ends : {E A : Type 0} (o : Outcome E A) → Ends o
ends (done a) = is_done a refl
ends (failed e) = is_failed e refl
ends elapsed = is_elapsed refl
