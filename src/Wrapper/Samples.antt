-- ===== src/Wrapper/Samples.antt =====
-- A decorated function over a dictionary (src/cachekit/decorators/wrapper.py), with some of its calls.
use cachekit_py.Common.{ℕ, true, false, List, [], ◌∷◌, Option, none, some}
use cachekit_py.Common.Int.{pos}
use cachekit_py.Breaker.{CircuitBreaker, CircuitBreakerConfig, closed}
use cachekit_py.OrderedDict.{OrderedDict}
use cachekit_py.L1Cache.State.{L1Cache, second, finite}
use cachekit_py.L1Cache.State
use cachekit_py.Handler.{Bytes}
use cachekit_py.Handler.Samples.{dict_backend, sample_codec, sample_config, sample_encoder}
use cachekit_py.Wrapper.{Execution, returns, Decorator, Call, State}
use cachekit_py.Wrapper.Refines.{Request, invoke, invalidate_one, invalidate_cached}

-- the function is `n ↦ [n, n]`, and its arguments are their key
abbrev pub answer : ℕ → Bytes
answer n = n ∷ n ∷ []

abbrev pub decorator : Decorator ℕ Bytes ℕ (OrderedDict ℕ Bytes)
decorator = record {
  config = sample_config false true;
  codec = sample_codec;
  encoder = sample_encoder;
  backend = dict_backend;
  ttl = some 60;
  prefixed = false;
}

abbrev pub call_of : Execution Bytes → Execution Bytes → ℕ → Call ℕ Bytes ℕ
call_of first second n = record {
  args = n;
  bypass_cache = false;
  cache_key = some n;
  client_error = none;
  l1_read_at = pos 5;
  l1_put_at = pos 5;
  hook_at = 5;
  failed_at = 5;
  first = first;
  second = second;
}

abbrev pub good_call : ℕ → Call ℕ Bytes ℕ
good_call n = call_of (returns (answer n)) (returns (answer n)) n

abbrev pub breaker_config : CircuitBreakerConfig
breaker_config = record {
  failure_threshold = 2;
  success_threshold = 1;
  timeout_seconds = 30;
  half_open_requests = 1;
  excluded_error_types = [];
}

abbrev pub breaker : CircuitBreaker
breaker = record {
  config = breaker_config;
  state = closed;
  failure_count = 0;
  success_count = 0;
  last_failure_time = 0;
  half_open_permits = 0;
  half_open_total_attempts = 0;
}

abbrev pub fresh : CircuitBreaker → Option (L1Cache ℕ) → State ℕ (OrderedDict ℕ Bytes)
fresh b l1 = record {
  store = record { backend_state = []; features = record { circuit_breaker = some b } };
  l1_cache = l1;
  cached_keys = [];
  l1_hits = 0;
  l2_hits = 0;
  misses = 0;
}

abbrev pub with_l1 : State ℕ (OrderedDict ℕ Bytes)
with_l1 = fresh breaker (some (State.init 1 (pos second)))

abbrev pub session : List (Request ℕ Bytes ℕ)
session =
    invoke (good_call 3)
    ∷ invoke (good_call 3)
    ∷ invalidate_cached
    ∷ invoke (good_call 4)
    ∷ invalidate_one 4
    ∷ []
