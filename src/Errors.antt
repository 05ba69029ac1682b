-- ===== src/Errors.antt =====
-- src/cachekit/backends/errors.py: the classification of backend errors. An exception that reaches
-- the circuit breaker is a `BackendError` with its type, or any other exception.
use cachekit_py.Common.{Bool, true, false, List, [], ◌∷◌, ◌||◌}

pub data BackendErrorType : Type 0 where
  transient permanent timeout authentication unknown : BackendErrorType

pub data Error : Type 0 where
  backend_error : BackendErrorType → Error
  other_exception : Error

-- `==` on members of the enum
abbrev pub same_type : BackendErrorType → BackendErrorType → Bool
same_type transient transient = true
same_type permanent permanent = true
same_type timeout timeout = true
same_type authentication authentication = true
same_type unknown unknown = true
same_type _ _ = false

-- `error_type in types`
abbrev pub type_in : BackendErrorType → List BackendErrorType → Bool
type_in t [] = false
type_in t (u ∷ types) = same_type t u || type_in t types

abbrev pub is_transient : BackendErrorType → Bool
is_transient t = same_type t transient

abbrev pub is_permanent : BackendErrorType → Bool
is_permanent t = same_type t permanent

abbrev pub is_timeout : BackendErrorType → Bool
is_timeout t = same_type t timeout

abbrev pub is_authentication : BackendErrorType → Bool
is_authentication t = same_type t authentication
