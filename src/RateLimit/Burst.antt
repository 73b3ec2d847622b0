-- ===== src/RateLimit/Burst.antt =====
-- enforceNativeBurst and enforceSharedIngress of src/rate-limit.ts. The limiter is a binding of the
-- platform: its reply, or what it throws, is an argument.
use metaserver_worker.Common.{
  Bool, true, false, ◌&&◌, ◌||◌, none, List, [], ◌∷◌, ◌++◌, ℕ, leb, ◌==◌, any, length, Text, codes,
  text_eq, is_hex,
}
use metaserver_worker.Common.Results.{Result, ok, err, ◌>>=◌, ◌>>◌, require}
use metaserver_worker.RateLimit.Errors.{
  Thrown, type_error, native_rate_limit, burst_limit_exceeded, new_exceeded, dependency_failure,
}
use metaserver_worker.RateLimit.Budget.{require_budget_scope}

-- The limiter's answer to a key.
abbrev pub Limiter : Type 0
Limiter = Text → Result Thrown Bool

unfoldable pub is_request_actor_key : Text → Bool
is_request_actor_key value = leb 8 (length value) && leb (length value) 128 && is_hex 64 value

unfoldable pub require_control_scope : Text → Result Thrown (Unit {0})
require_control_scope scope =
    elim (text_eq scope (codes "global") || text_eq scope (codes "rendezvous-client")) [
      | true ↦ ok tt
      | false ↦ require_budget_scope scope
    ]

-- `executeDependency` around the limiter's answer.
Answered : Result Thrown Bool → Result Thrown Bool
Answered (ok success) = ok success
Answered (err e) = err (dependency_failure native_rate_limit e)

pub ask : Limiter → Text → Result Thrown Bool
unfolding Answered
ask limiter key = Answered (limiter key)

unfoldable pub enforce_native_burst : Limiter → Text → Text → ℕ → Result Thrown (Unit {0})
enforce_native_burst limiter actor_key scope period = do
  require (is_request_actor_key actor_key) type_error
  require_control_scope scope
  require (period == 10 || period == 60) type_error
  success ← ask limiter (scope ++ (codes "." ++ actor_key))
  require success (new_exceeded scope burst_limit_exceeded period none none)

abbrev pub ingress_purposes : List Text
ingress_purposes =
    codes "publisher" ∷ codes "resolve" ∷ codes "rendezvous-client" ∷ codes "rendezvous-server" ∷ []

unfoldable pub enforce_shared_ingress : Limiter → Text → Result Thrown (Unit {0})
enforce_shared_ingress limiter purpose = do
  require (any (λ known. text_eq known purpose) ingress_purposes) type_error
  success ← ask limiter (codes "shared-ingress-v1." ++ purpose)
  require success (new_exceeded (codes "global") burst_limit_exceeded 60 none none)
