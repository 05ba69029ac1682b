-- ===== src/Classify/Outages.antt =====
-- Which exceptions of the client packages count against their backend: the classification and
-- `is_circuit_breaker_failure` taken together.
use cachekit_py.Common.{
  ℕ, Bool, true, false, ◌&&◌, ◌||◌, ◌==◌, not, ◌≡◌, none, some, ltb, leb, arith,
}
use cachekit_py.Errors.{permanent, backend_error}
use cachekit_py.Classify.{
  is_circuit_breaker_failure, RedisException, classify_redis_error, MemcachedException,
  classify_memcached_error, HttpException, classify_http_error,
}

-- the subclass relations that redis-py documents
pub record RedisClasses (exc : RedisException) : Type 0 where
  pub authentication_is_connection : exc.authentication_error ≡ true → exc.connection_error ≡ true
  pub busy_loading_is_connection : exc.busy_loading_error ≡ true → exc.connection_error ≡ true
  pub read_only_is_response : exc.read_only_error ≡ true → exc.response_error ≡ true
  pub no_permission_is_response : exc.no_permission_error ≡ true → exc.response_error ≡ true
  pub cluster_down_is_response : exc.cluster_down_error ≡ true → exc.response_error ≡ true

-- A failed request to the HTTP backend counts against it exactly if the response is not a client
-- error: whatever exception comes with it, a status from 400 to 499 other than 429 does not count, and
-- every other status and a request without a response does.
pub http_failure_exact :
    (exc : HttpException) (status : ℕ)
    → (is_circuit_breaker_failure (classify_http_error exc (some status))
        ≡ not (leb 400 status && ltb status 500 && not (status == 429)))
      × (is_circuit_breaker_failure (classify_http_error exc none) ≡ true)
unfolding is_circuit_breaker_failure classify_http_error
http_failure_exact exc status = (ground arith, ground arith)

-- With redis-py installed, an exception of it counts against the backend exactly if it is neither an
-- authentication nor a permission error and is a timeout, a connection error, a refusal to write on
-- a replica, or outside the response and data errors. It does so under the subclass relations of
-- redis-py, whether or not that package has `ClusterDownError`.
pub redis_failure_exact :
    (exc : RedisException) (has_cluster_down : Bool)
    → RedisClasses exc
    → is_circuit_breaker_failure (classify_redis_error true has_cluster_down exc) ≡ (
        not (exc.authentication_error || exc.no_permission_error)
        && (exc.timeout_error
            || exc.connection_error
            || exc.read_only_error
            || not (exc.response_error || exc.data_error)))
unfolding is_circuit_breaker_failure classify_redis_error
redis_failure_exact exc has_cluster_down h = ground (arith, h.busy_loading_is_connection)

-- Under the subclass relations of redis-py, the test for `ClusterDownError` is never reached: an
-- exception of that class that is not an authentication, permission, timeout, connection or read-only
-- error is classified as permanent, and does not count against the backend.
pub cluster_down_is_permanent :
    (exc : RedisException) (has_cluster_down : Bool)
    → RedisClasses exc
    → exc.cluster_down_error ≡ true
    → exc.authentication_error || exc.no_permission_error || exc.timeout_error
        || exc.connection_error || exc.read_only_error
      ≡ false
    → (classify_redis_error true has_cluster_down exc ≡ backend_error permanent)
      × (is_circuit_breaker_failure (classify_redis_error true has_cluster_down exc) ≡ false)
unfolding is_circuit_breaker_failure classify_redis_error
cluster_down_is_permanent exc has_cluster_down h down others =
    let r = h.cluster_down_is_response down in
    (
      ground (arith, r, others, h.busy_loading_is_connection),
      ground (arith, r, others, h.busy_loading_is_connection),
    )

-- An exception of the Memcached client counts against the backend exactly if it is a timeout, a
-- server or connection error or any other operating-system error, or is outside the client errors and
-- the illegal inputs.
pub memcached_failure_exact :
    (exc : MemcachedException)
    → is_circuit_breaker_failure (classify_memcached_error exc) ≡ (
        exc.timeout_error
        || exc.unexpected_close_error
        || exc.server_error
        || exc.connection_error
        || exc.os_error
        || not (exc.illegal_input_error || exc.client_error))
unfolding is_circuit_breaker_failure classify_memcached_error
memcached_failure_exact exc = ground arith
