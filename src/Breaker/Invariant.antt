-- ===== src/Breaker/Invariant.antt =====
-- What holds of the circuit breaker between two calls, and which call makes which transition.
use cachekit_py.Common.{ℕ, ◌≤◌, ◌<◌, ◌≡◌, ◌≢◌, List, [], ◌∷◌, none, arith}
use cachekit_py.Errors.{Error}
use cachekit_py.Breaker.{
  closed, half_open, CircuitBreakerConfig, CircuitBreaker, post_init, init, allow_request,
  on_success, on_failure, reset,
}
use cachekit_py.Breaker.Events.{Event, attempt, success, failure, manual_reset, step, run}

pub record IsValid (b : CircuitBreaker) : Type 0 where
  pub failure_positive : 0 < b.config.failure_threshold
  pub success_positive : 0 < b.config.success_threshold
  pub requests_positive : 0 < b.config.half_open_requests
  pub closed_below : b.state ≡ closed → b.failure_count < b.config.failure_threshold
  pub testing_below : b.success_count < b.config.success_threshold
  pub testing_only : b.state ≢ half_open → b.success_count ≡ 0
  pub attempts_capped : b.half_open_total_attempts ≤ b.config.half_open_requests
  pub permits_capped : b.half_open_permits ≤ b.half_open_total_attempts
  pub closed_idle : b.state ≡ closed → b.half_open_total_attempts ≡ 0

pub init-IsValid : (c : CircuitBreakerConfig) → post_init c ≡ none → IsValid (init c)
unfolding post_init init
init-IsValid c h = ground arith

attempt-IsValid : (now : ℕ) (b : CircuitBreaker) → IsValid b → IsValid (allow_request now b).0
unfolding allow_request
attempt-IsValid now b v = ground arith

success-IsValid : (b : CircuitBreaker) → IsValid b → IsValid (on_success b)
unfolding on_success
success-IsValid b v = ground arith

failure-IsValid :
    (now : ℕ) (e : Error) (b : CircuitBreaker) → IsValid b → IsValid (on_failure now e b)
unfolding on_failure
failure-IsValid now e b v = ground arith

pub step-IsValid : (e : Event) (b : CircuitBreaker) → IsValid b → IsValid (step e b)
unfolding step reset
step-IsValid (attempt now) b v = attempt-IsValid now b v
step-IsValid success b v = success-IsValid b v
step-IsValid (failure now e) b v = failure-IsValid now e b v
step-IsValid manual_reset b v = ground arith

run-IsValid_from : (es : List Event) (b : CircuitBreaker) → IsValid b → IsValid (run es b)
unfolding run
run-IsValid_from [] b v = v
run-IsValid_from (e ∷ es) b v = run-IsValid_from es (step e b) (step-IsValid e b v)

-- From a new breaker with an accepted configuration, whatever the calls and the clock: the failure
-- count stays below its threshold while the breaker is closed, the successes below theirs, the test
-- requests of a recovery within `half_open_requests`, and the permits within the test requests.
pub run-IsValid :
    (c : CircuitBreakerConfig) (es : List Event) → post_init c ≡ none → IsValid (run es (init c))
run-IsValid c es h = run-IsValid_from es (init c) (init-IsValid c h)
