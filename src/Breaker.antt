-- ===== src/Breaker.antt =====
-- src/cachekit/reliability/circuit_breaker.py: the circuit breaker. Every method that holds the lock
-- is one function from the state, and the clock where the method reads it, to the new state and the
-- result. Times are whole ticks of one clock; the Prometheus gauge and the log lines are left out.
pub mod Events
pub mod Invariant
pub mod Trips
pub mod Recovery
pub mod Stuck
mod Tests
use cachekit_py.Common.{
  ℕ, ◌+◌, ◌-◌, Bool, true, false, List, [], Option, none, some, ltb, leb, if◌then◌else◌,
}
use cachekit_py.Errors.{BackendErrorType, Error, backend_error, other_exception, type_in}

pub data CircuitState : Type 0 where
  closed opened half_open : CircuitState

pub record CircuitBreakerConfig : Type 0 where
  pub failure_threshold : ℕ
  pub success_threshold : ℕ
  pub timeout_seconds : ℕ
  pub half_open_requests : ℕ
  pub excluded_error_types : List BackendErrorType

-- What `__post_init__` raises, by the first field that it refuses. A negative timeout is not a
-- value of the model.
pub data ConfigError : Type 0 where
  failure_threshold_not_positive success_threshold_not_positive : ConfigError
  half_open_requests_not_positive : ConfigError

unfoldable pub post_init : CircuitBreakerConfig → Option ConfigError
post_init c =
    if leb c.failure_threshold 0
    then some failure_threshold_not_positive
    else if leb c.success_threshold 0
    then some success_threshold_not_positive
    else if leb c.half_open_requests 0
    then some half_open_requests_not_positive
    else none

pub record CircuitBreaker : Type 0 where
  pub config : CircuitBreakerConfig
  pub state : CircuitState
  pub failure_count : ℕ
  pub success_count : ℕ
  pub last_failure_time : ℕ
  pub half_open_permits : ℕ
  pub half_open_total_attempts : ℕ

unfoldable pub init : CircuitBreakerConfig → CircuitBreaker
init config = record {
  config = config;
  state = closed;
  failure_count = 0;
  success_count = 0;
  last_failure_time = 0;
  half_open_permits = 0;
  half_open_total_attempts = 0;
}

unfoldable pub transition_to_closed : CircuitBreaker → CircuitBreaker
transition_to_closed b = record b {
  state = closed;
  failure_count = 0;
  success_count = 0;
  half_open_permits = 0;
  half_open_total_attempts = 0;
}

unfoldable pub transition_to_open : CircuitBreaker → CircuitBreaker
transition_to_open b = record b { state = opened; success_count = 0 }

unfoldable pub transition_to_half_open : CircuitBreaker → CircuitBreaker
transition_to_half_open b = record b {
  state = half_open;
  success_count = 0;
  half_open_permits = 0;
  half_open_total_attempts = 0;
}

unfoldable pub allow_half_open_request : CircuitBreaker → CircuitBreaker × Bool
allow_half_open_request b =
    if ltb b.half_open_total_attempts b.config.half_open_requests
    then (
      record b {
        half_open_permits = b.half_open_permits + 1;
        half_open_total_attempts = b.half_open_total_attempts + 1;
      },
      true,
    )
    else (b, false)

allow_by_state : CircuitState → ℕ → CircuitBreaker → CircuitBreaker × Bool
unfolding allow_half_open_request transition_to_half_open
allow_by_state closed now b = (b, true)
allow_by_state opened now b =
    if ltb (b.last_failure_time + b.config.timeout_seconds) now
    then allow_half_open_request (transition_to_half_open b)
    else (b, false)
allow_by_state half_open now b = allow_half_open_request b

-- `_allow_request`, which `should_attempt_call` returns. `now - last > timeout` is written without
-- the subtraction, so it is also right for a clock that went back.
unfoldable pub allow_request : ℕ → CircuitBreaker → CircuitBreaker × Bool
unfolding allow_by_state
allow_request now b = allow_by_state b.state now b

-- `max(0, permits - 1)` is the truncated subtraction
release_permit : CircuitBreaker → CircuitBreaker
release_permit b = record b { half_open_permits = b.half_open_permits - 1 }

count_success : CircuitBreaker → CircuitBreaker
unfolding transition_to_closed
count_success b =
    let c = record b { success_count = b.success_count + 1 } in
    if leb c.config.success_threshold c.success_count then transition_to_closed c else c

success_by_state : CircuitState → CircuitBreaker → CircuitBreaker
unfolding release_permit count_success
success_by_state closed b = b
success_by_state opened b = b
success_by_state half_open b = count_success (release_permit b)

-- `_on_success`, which `record_success` calls
unfoldable pub on_success : CircuitBreaker → CircuitBreaker
unfolding success_by_state
on_success b = success_by_state b.state b

abbrev pub is_excluded : CircuitBreakerConfig → Error → Bool
is_excluded c (backend_error t) = type_in t c.excluded_error_types
is_excluded c other_exception = false

count_failure : ℕ → CircuitBreaker → CircuitBreaker
count_failure now b = record b { failure_count = b.failure_count + 1; last_failure_time = now }

failure_by_state : CircuitState → ℕ → CircuitBreaker → CircuitBreaker
unfolding release_permit count_failure transition_to_open
failure_by_state closed now b =
    let c = count_failure now b in
    if leb c.config.failure_threshold c.failure_count then transition_to_open c else c
failure_by_state opened now b = count_failure now b
failure_by_state half_open now b = transition_to_open (count_failure now (release_permit b))

-- `_on_failure`, which `record_failure` calls
unfoldable pub on_failure : ℕ → Error → CircuitBreaker → CircuitBreaker
unfolding failure_by_state
on_failure now e b = if is_excluded b.config e then b else failure_by_state b.state now b

unfoldable pub reset : CircuitBreaker → CircuitBreaker
unfolding transition_to_closed
reset b = transition_to_closed b
