-- ===== src/Classify/Tests.antt =====
-- The classification at concrete exceptions.
use cachekit_py.Common.{true, false, ◌≡◌, refl, none, some}
use cachekit_py.Errors.{permanent, backend_error}
use cachekit_py.Classify.{
  is_circuit_breaker_failure, RedisException, classify_redis_error, MemcachedException,
  classify_memcached_error, HttpException, classify_http_error,
}
use cachekit_py.Classify.Outages.{
  RedisClasses, http_failure_exact, redis_failure_exact, cluster_down_is_permanent,
  memcached_failure_exact,
}

-- `ClusterDownError("CLUSTERDOWN The cluster is down")`
abbrev cluster_down : RedisException
cluster_down = record {
  authentication_error = false;
  no_permission_error = false;
  timeout_error = false;
  connection_error = false;
  busy_loading_error = false;
  read_only_error = false;
  response_error = true;
  data_error = false;
  cluster_down_error = true;
}

cluster_down-RedisClasses : RedisClasses cluster_down
cluster_down-RedisClasses = record {
  authentication_is_connection = λ p. absurd (cc p);
  busy_loading_is_connection = λ p. absurd (cc p);
  read_only_is_response = λ p. refl;
  no_permission_is_response = λ p. refl;
  cluster_down_is_response = λ p. refl;
}

redis_failure_exact_example :
    is_circuit_breaker_failure (classify_redis_error true false cluster_down) ≡ false
redis_failure_exact_example = redis_failure_exact cluster_down false cluster_down-RedisClasses

cluster_down_is_permanent_example :
    (classify_redis_error true true cluster_down ≡ backend_error permanent)
    × (is_circuit_breaker_failure (classify_redis_error true true cluster_down) ≡ false)
cluster_down_is_permanent_example =
    cluster_down_is_permanent cluster_down true cluster_down-RedisClasses refl refl

abbrev timed_out : HttpException
timed_out = record { timeout_exception = true; connect_error = false; network_error = false }

http_failure_at_404 :
    (is_circuit_breaker_failure (classify_http_error timed_out (some 404)) ≡ false)
    × (is_circuit_breaker_failure (classify_http_error timed_out none) ≡ true)
http_failure_at_404 = http_failure_exact timed_out 404

abbrev illegal_input : MemcachedException
illegal_input = record {
  timeout_error = false;
  unexpected_close_error = false;
  server_error = false;
  connection_error = false;
  os_error = false;
  illegal_input_error = true;
  client_error = true;
}

illegal_input_is_no_failure :
    is_circuit_breaker_failure (classify_memcached_error illegal_input) ≡ false
illegal_input_is_no_failure = memcached_failure_exact illegal_input
