-- ===== src/Breaker/Tests.antt =====
-- The circuit breaker at concrete inputs, and its theorems at inputs where their hypotheses hold.
use cachekit_py.Common.{ℕ, ◌≡◌, ◌≢◌, refl, List, [], ◌∷◌, none, some, arith}
use cachekit_py.Errors.{transient, permanent, backend_error, other_exception}
use cachekit_py.Breaker.{
  CircuitBreakerConfig, CircuitBreaker, closed, opened, half_open, post_init, init, allow_request,
  on_success, on_failure, failure_threshold_not_positive,
}
use cachekit_py.Breaker.Events.{Event, attempt, success, failure, run, admitted, counted_failures}
use cachekit_py.Breaker.Invariant.{IsValid, run-IsValid}
use cachekit_py.Breaker.Trips.{trips_at_threshold, fails_fast}
use cachekit_py.Breaker.Recovery.{healthy_calls, recovers}
use cachekit_py.Breaker.Stuck.{Outcome, succeeds, guarded_call, guarded_calls, never_closes}

-- the defaults of the dataclass, in ticks of a second
abbrev defaults : CircuitBreakerConfig
defaults = record {
  failure_threshold = 5;
  success_threshold = 3;
  timeout_seconds = 30;
  half_open_requests = 1;
  excluded_error_types = [];
}

defaults_accepted : post_init defaults ≡ none
unfolding post_init
defaults_accepted = refl

zero_rejected :
    post_init (record defaults { failure_threshold = 0 }) ≡ some failure_threshold_not_positive
unfolding post_init
zero_rejected = refl

abbrev story : List Event
story =
    attempt 1
    ∷ success
    ∷ failure 2 (backend_error transient)
    ∷ attempt 3
    ∷ success
    ∷ failure 4 other_exception
    ∷ []

run-IsValid_example : IsValid (run story (init defaults))
run-IsValid_example = run-IsValid defaults story defaults_accepted

-- two failures suffice, and permanent errors do not count
abbrev twice : CircuitBreakerConfig
twice = record defaults { failure_threshold = 2; excluded_error_types = permanent ∷ [] }

abbrev one_failure : List Event
one_failure = failure 2 other_exception ∷ failure 3 (backend_error permanent) ∷ success ∷ []

trips_at_threshold_example :
    ((run one_failure (init twice)).state ≡ closed)
    × ((on_failure 9 other_exception (run one_failure (init twice))).state ≡ opened)
    × ((on_failure 9 other_exception (run one_failure (init twice))).last_failure_time ≡ 9)
unfolding init counted_failures
trips_at_threshold_example =
    trips_at_threshold one_failure (init twice) 9 other_exception refl (tt, (tt, (tt, tt))) refl
      refl

-- open since its last failure at 100, after an earlier recovery that used up its test requests
abbrev tripped : CircuitBreaker
tripped = record {
  config = defaults;
  state = opened;
  failure_count = 5;
  success_count = 0;
  last_failure_time = 100;
  half_open_permits = 0;
  half_open_total_attempts = 1;
}

abbrev outage : List Event
outage = attempt 130 ∷ failure 110 other_exception ∷ success ∷ attempt 129 ∷ []

fails_fast_example : ((run outage tripped).state ≡ opened) × (admitted outage tripped ≡ 0)
fails_fast_example = fails_fast outage tripped refl (omega arith)

abbrev patient : CircuitBreaker
patient = record tripped { config = record defaults { half_open_requests = 3 } }

recovers_example :
    ((run (healthy_calls (131 ∷ 132 ∷ 133 ∷ [])) patient).state ≡ closed)
    × ((run (healthy_calls (131 ∷ 132 ∷ 133 ∷ [])) patient).failure_count ≡ 0)
    × (admitted (healthy_calls (131 ∷ 132 ∷ 133 ∷ [])) patient ≡ 3)
recovers_example = recovers (132 ∷ 133 ∷ []) 131 patient refl (omega arith) (omega arith) refl

abbrev all_succeed : List (ℕ × Outcome)
all_succeed = (131, succeeds) ∷ (200, succeeds) ∷ (300, succeeds) ∷ (400, succeeds) ∷ []

-- the default configuration: one test request, three successes
never_closes_example : (guarded_calls all_succeed tripped).state ≢ closed
never_closes_example = never_closes all_succeed tripped (omega arith) refl (omega arith)

stuck_half_open : (guarded_calls all_succeed tripped).state ≡ half_open
unfolding guarded_calls guarded_call allow_request on_success
stuck_half_open = refl
