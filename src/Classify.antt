-- ===== src/Classify.antt =====
-- How the backends turn the exceptions of their client packages into backend errors
-- (src/cachekit/backends/redis/error_handler.py, memcached/error_handler.py and
-- cachekitio/error_handler.py), and which errors count against a backend
-- (src/cachekit/reliability/error_classification.py). An exception of a package is described by the
-- answers of the `isinstance` tests that the code makes on it. The message, the operation and the key
-- that the error carries along are left out.
pub mod Outages
mod Tests
use cachekit_py.Common.{
  ℕ, Bool, true, false, ◌&&◌, ◌||◌, ◌==◌, List, [], ◌∷◌, Option, none, some, ltb, leb,
  if◌then◌else◌,
}
use cachekit_py.Errors.{
  BackendErrorType, transient, permanent, timeout, authentication, unknown, Error, backend_error,
  other_exception, type_in,
}

-- `is_circuit_breaker_failure`
unfoldable pub is_circuit_breaker_failure : Error → Bool
is_circuit_breaker_failure other_exception = false
is_circuit_breaker_failure (backend_error t) =
    if type_in t (transient ∷ timeout ∷ [])
    then true
    else if type_in t (permanent ∷ authentication ∷ [])
    then false
    else type_in t (unknown ∷ [])

-- the classes of `redis.exceptions` that an exception is an instance of
pub record RedisException : Type 0 where
  pub authentication_error : Bool
  pub no_permission_error : Bool
  pub timeout_error : Bool
  pub connection_error : Bool
  pub busy_loading_error : Bool
  pub read_only_error : Bool
  pub response_error : Bool
  pub data_error : Bool
  pub cluster_down_error : Bool

-- `classify_redis_error`, given whether the redis package is there, and whether it has the class
-- `ClusterDownError`
unfoldable pub classify_redis_error : Bool → Bool → RedisException → Error
classify_redis_error installed has_cluster_down exc =
    if installed
    then if exc.authentication_error || exc.no_permission_error
      then backend_error authentication
      else if exc.timeout_error
      then backend_error timeout
      else if exc.connection_error || exc.busy_loading_error || exc.read_only_error
      then backend_error transient
      else if exc.response_error || exc.data_error
      then backend_error permanent
      else if has_cluster_down && exc.cluster_down_error
      then backend_error transient
      else backend_error unknown
    else backend_error unknown

-- the classes that `classify_memcached_error` tests; `socket.timeout` is `TimeoutError` or its
-- subclass, and one field
pub record MemcachedException : Type 0 where
  pub timeout_error : Bool
  pub unexpected_close_error : Bool
  pub server_error : Bool
  pub connection_error : Bool
  pub os_error : Bool
  pub illegal_input_error : Bool
  pub client_error : Bool

unfoldable pub classify_memcached_error : MemcachedException → Error
classify_memcached_error exc =
    if exc.timeout_error
    then backend_error timeout
    else if exc.unexpected_close_error || exc.server_error || exc.connection_error || exc.os_error
    then backend_error transient
    else if exc.illegal_input_error || exc.client_error
    then backend_error permanent
    else backend_error unknown

-- the classes of httpx that `classify_http_error` tests
pub record HttpException : Type 0 where
  pub timeout_exception : Bool
  pub connect_error : Bool
  pub network_error : Bool

unfoldable pub classify_http_exception : HttpException → Error
classify_http_exception exc =
    if exc.timeout_exception
    then backend_error timeout
    else if exc.connect_error || exc.network_error
    then backend_error transient
    else backend_error unknown

-- `classify_http_error`, with the status of the response if there is one
unfoldable pub classify_http_error : HttpException → Option ℕ → Error
unfolding classify_http_exception
classify_http_error exc none = classify_http_exception exc
classify_http_error exc (some status) =
    if status == 401 || status == 403
    then backend_error authentication
    else if status == 429
    then backend_error transient
    else if leb 500 status && ltb status 600
    then backend_error transient
    else if status == 413
    then backend_error permanent
    else if leb 400 status && ltb status 500
    then backend_error permanent
    else classify_http_exception exc
