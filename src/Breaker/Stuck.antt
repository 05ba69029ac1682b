-- ===== src/Breaker/Stuck.antt =====
-- Recovery of the circuit breaker when the configuration admits fewer test requests than the
-- successes that it waits for, as the default configuration does.
use cachekit_py.Common.{ℕ, ◌≤◌, ◌<◌, ◌≡◌, ◌≢◌, List, [], ◌∷◌, arith, if◌then◌else◌}
use cachekit_py.Errors.{Error}
use cachekit_py.Breaker.{
  closed, opened, half_open, CircuitBreaker, allow_request, on_success, on_failure,
}

-- What comes of a guarded call that is allowed: a success, or a failure with its clock.
pub data Outcome : Type 0 where
  succeeds : Outcome
  fails : ℕ → Error → Outcome

record_outcome : Outcome → CircuitBreaker → CircuitBreaker
record_outcome succeeds b = on_success b
record_outcome (fails now e) b = on_failure now e b

-- the usage of the class's documentation: check, do the work, record the outcome
unfoldable pub guarded_call : ℕ → Outcome → CircuitBreaker → CircuitBreaker
unfolding record_outcome
guarded_call now o b =
    let (b', allowed) = allow_request now b in if allowed then record_outcome o b' else b'

unfoldable pub guarded_calls : List (ℕ × Outcome) → CircuitBreaker → CircuitBreaker
guarded_calls [] b = b
guarded_calls ((now, o) ∷ calls) b = guarded_calls calls (guarded_call now o b)

record CannotClose (b : CircuitBreaker) : Type 0 where
  short : b.config.half_open_requests < b.config.success_threshold
  not_closed : b.state ≢ closed
  counted : b.state ≡ half_open → b.success_count ≤ b.half_open_total_attempts
  capped : b.half_open_total_attempts ≤ b.config.half_open_requests

guarded_call-CannotClose :
    (now : ℕ) (o : Outcome) (b : CircuitBreaker)
    → CannotClose b
    → CannotClose (guarded_call now o b)
unfolding guarded_call allow_request on_success on_failure
guarded_call-CannotClose now succeeds b h = ground arith
guarded_call-CannotClose now (fails t e) b h = ground arith

guarded_calls-CannotClose :
    (calls : List (ℕ × Outcome)) (b : CircuitBreaker)
    → CannotClose b
    → CannotClose (guarded_calls calls b)
unfolding guarded_calls
guarded_calls-CannotClose [] b h = h
guarded_calls-CannotClose ((now, o) ∷ calls) b h =
    guarded_calls-CannotClose calls (guarded_call now o b) (guarded_call-CannotClose now o b h)

-- If `half_open_requests < success_threshold`, an open breaker never closes again: however late the
-- calls come and even if every one that is allowed succeeds, no sequence of guarded calls, each
-- recording its outcome before the next begins, brings it back to closed.
pub never_closes :
    (calls : List (ℕ × Outcome)) (b : CircuitBreaker)
    → b.config.half_open_requests < b.config.success_threshold
    → b.state ≡ opened
    → b.half_open_total_attempts ≤ b.config.half_open_requests
    → (guarded_calls calls b).state ≢ closed
never_closes calls b short s a =
    let start : CannotClose b = record {
      short = short;
      not_closed = ground arith;
      counted = ground arith;
      capped = a;
    } in
    (guarded_calls-CannotClose calls b start).not_closed
