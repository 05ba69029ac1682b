-- ===== src/Orchestrator.antt =====
-- src/cachekit/decorators/orchestrator.py: how `FeatureOrchestrator` drives the circuit breaker. The
-- decorator asks `should_allow_request` and records outcomes; it never calls the breaker's own
-- `_allow_request`. The metrics collector, the log lines and the correlation ids are left out.
pub mod Latch
mod Tests
use cachekit_py.Common.{ℕ, Bool, true, false, Option, none, some, not}
use cachekit_py.Errors.{Error}
use cachekit_py.Breaker.{
  CircuitState, closed, opened, half_open, CircuitBreakerConfig, CircuitBreaker, init, on_success,
  on_failure,
}

pub record FeatureOrchestrator : Type 0 where
  pub circuit_breaker : Option CircuitBreaker

-- `circuit_breaker_enabled` with the configuration of the breaker, or without a breaker
unfoldable pub new : Option CircuitBreakerConfig → FeatureOrchestrator
new none = record { circuit_breaker = none }
new (some c) = record { circuit_breaker = some (init c) }

abbrev pub is_open : CircuitState → Bool
is_open opened = true
is_open _ = false

allow_with : Option CircuitBreaker → Bool
allow_with none = true
allow_with (some b) = not (is_open b.state)

unfoldable pub should_allow_request : FeatureOrchestrator → Bool
unfolding allow_with
should_allow_request o = allow_with o.circuit_breaker

on_breaker : (CircuitBreaker → CircuitBreaker) → Option CircuitBreaker → Option CircuitBreaker
on_breaker f none = none
on_breaker f (some b) = some (f b)

unfoldable pub record_failure : ℕ → Error → FeatureOrchestrator → FeatureOrchestrator
unfolding on_breaker
record_failure now e o = record {
  circuit_breaker = on_breaker (on_failure now e) o.circuit_breaker;
}

unfoldable pub record_success : FeatureOrchestrator → FeatureOrchestrator
unfolding on_breaker
record_success o = record { circuit_breaker = on_breaker on_success o.circuit_breaker }

-- the part of `handle_cache_error` that changes the breaker
unfoldable pub handle_cache_error : ℕ → Error → FeatureOrchestrator → FeatureOrchestrator
handle_cache_error now e o = record_failure now e o
