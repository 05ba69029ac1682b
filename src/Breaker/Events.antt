-- ===== src/Breaker/Events.antt =====
-- The calls that clients make on the breaker of src/cachekit/reliability/circuit_breaker.py, in the
-- order in which they take its lock, with the clock that each one reads.
use cachekit_py.Common.{ℕ, suc, ◌+◌, List, [], ◌∷◌, if◌then◌else◌}
use cachekit_py.Errors.{Error}
use cachekit_py.Breaker.{
  CircuitBreakerConfig, CircuitBreaker, allow_request, on_success, on_failure, reset, is_excluded,
}

pub data Event : Type 0 where
  attempt : ℕ → Event
  success : Event
  failure : ℕ → Error → Event
  manual_reset : Event

unfoldable pub step : Event → CircuitBreaker → CircuitBreaker
step (attempt now) b = (allow_request now b).0
step success b = on_success b
step (failure now e) b = on_failure now e b
step manual_reset b = reset b

unfoldable pub run : List Event → CircuitBreaker → CircuitBreaker
run [] b = b
run (e ∷ es) b = run es (step e b)

-- 1 for an attempt that is allowed
unfoldable pub admits : Event → CircuitBreaker → ℕ
admits (attempt now) b = if (allow_request now b).1 then 1 else 0
admits _ b = 0

-- how many attempts of the sequence are allowed
unfoldable pub admitted : List Event → CircuitBreaker → ℕ
admitted [] b = 0
admitted (e ∷ es) b = admits e b + admitted es (step e b)

-- how many failures of the sequence count, those of an excluded type left out
unfoldable pub counted_failures : CircuitBreakerConfig → List Event → ℕ
counted_failures c [] = 0
counted_failures c (failure now e ∷ es) =
    let rest = counted_failures c es in if is_excluded c e then rest else suc rest
counted_failures c (_ ∷ es) = counted_failures c es
