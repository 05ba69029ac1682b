-- ===== src/Orchestrator/Tests.antt =====
-- The orchestrator at concrete inputs.
use cachekit_py.Common.{◌≡◌, refl, true, false, List, [], ◌∷◌, some, none}
use cachekit_py.Errors.{other_exception}
use cachekit_py.Breaker.{CircuitBreakerConfig, CircuitBreaker, opened, init, on_failure}
use cachekit_py.Orchestrator.{new, should_allow_request, record_failure}
use cachekit_py.Orchestrator.Latch.{
  Call, ask, success, failure, cache_error, run, step, open_is_final,
}

abbrev fragile : CircuitBreakerConfig
fragile = record {
  failure_threshold = 1;
  success_threshold = 1;
  timeout_seconds = 30;
  half_open_requests = 1;
  excluded_error_types = [];
}

abbrev tripped : CircuitBreaker
tripped = record {
  config = fragile;
  state = opened;
  failure_count = 1;
  success_count = 0;
  last_failure_time = 5;
  half_open_permits = 0;
  half_open_total_attempts = 0;
}

one_failure_opens :
    run (failure 5 other_exception ∷ []) (new (some fragile))
    ≡ record { circuit_breaker = some tripped }
unfolding run step new record_failure init on_failure
one_failure_opens = refl

no_breaker_allows : should_allow_request (new none) ≡ true
unfolding should_allow_request new
no_breaker_allows = refl

-- an hour later
abbrev calls : List Call
calls = ask ∷ success ∷ cache_error 3600 other_exception ∷ ask ∷ []

open_is_final_example :
    should_allow_request (run calls (record { circuit_breaker = some tripped })) ≡ false
open_is_final_example =
    open_is_final calls (record { circuit_breaker = some tripped }) tripped refl refl
