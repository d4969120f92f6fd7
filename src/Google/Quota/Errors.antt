-- ===== src/Google/Quota/Errors.antt =====
-- The errors of core/internal/providers/google/quota.go. Go's nil error is a value of the type.
use dankcalendar.Base.{ℤ, ℕ, String, Bool, true, false, List, Option, none, some}

-- `googleapi.Error`: what the code reads of it.
pub record ApiError : Type 0 where
  pub code : ℕ
  pub reasons : List String
  pub retry_after : String
  pub message : String

pub data Err : Type 0 where
  nil : Err
  api : ApiError → Err
  -- `deferredRetry`, with its `until` and `cause`.
  deferred : ℤ → Err → Err
  -- An error that wraps another by `%w`.
  wrapped : String → Err → Err
  other : String → Err

unfoldable pub is_nil : Err → Bool
is_nil Err.nil = true
is_nil (api e) = false
is_nil (deferred until cause) = false
is_nil (wrapped text cause) = false
is_nil (other text) = false

-- `errors.As(err, &e)` for a `*googleapi.Error`: the first one in the chain.
unfoldable pub as_api : Err → Option ApiError
as_api Err.nil = none
as_api (api e) = some e
as_api (deferred until cause) = as_api cause
as_api (wrapped text cause) = as_api cause
as_api (other text) = none
