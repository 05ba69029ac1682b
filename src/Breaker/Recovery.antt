-- ===== src/Breaker/Recovery.antt =====
-- Recovery of the circuit breaker: from open over half-open to closed, when the configuration admits
-- enough test requests.
use cachekit_py.Common.{ℕ, suc, ◌+◌, ◌≤◌, ◌<◌, ◌≡◌, refl, List, [], ◌∷◌, arith, length}
use cachekit_py.Breaker.{
  closed, opened, half_open, CircuitBreakerConfig, CircuitBreaker, transition_to_half_open,
  allow_request, on_success,
}
use cachekit_py.Breaker.Events.{Event, attempt, success, step, run, admits, admitted}

-- one request after the other, each allowed one succeeding: the clocks of the attempts
unfoldable pub healthy_calls : List ℕ → List Event
healthy_calls [] = []
healthy_calls (now ∷ clocks) = attempt now ∷ success ∷ healthy_calls clocks

-- half open after `k` test requests that all succeeded
record Testing (b : CircuitBreaker) (k : ℕ) (c : CircuitBreakerConfig) : Type 0 where
  half : b.state ≡ half_open
  tried : b.half_open_total_attempts ≡ k
  succeeded : b.success_count ≡ k
  configured : b.config ≡ c

healthy_step :
    (now : ℕ) (b : CircuitBreaker) (k : ℕ) (c : CircuitBreakerConfig)
    → Testing b k c
    → c.success_threshold ≤ c.half_open_requests
    → suc k < c.success_threshold
    → Testing (on_success (allow_request now b).0) (suc k) c × (admits (attempt now) b ≡ 1)
unfolding allow_request on_success admits
healthy_step now b k c t h l = ground arith

healthy_last :
    (now : ℕ) (b : CircuitBreaker) (k : ℕ) (c : CircuitBreakerConfig)
    → Testing b k c
    → c.success_threshold ≤ c.half_open_requests
    → suc k ≡ c.success_threshold
    → ((on_success (allow_request now b).0).state ≡ closed)
      × ((on_success (allow_request now b).0).failure_count ≡ 0)
      × (admits (attempt now) b ≡ 1)
unfolding allow_request on_success admits
healthy_last now b k c t h l = ground arith

admits-success : (b : CircuitBreaker) → admits success b ≡ 0
unfolding admits
admits-success b = refl

healthy_run :
    (clocks : List ℕ) (now : ℕ) (b : CircuitBreaker) (k : ℕ) (c : CircuitBreakerConfig)
    → Testing b k c
    → c.success_threshold ≤ c.half_open_requests
    → suc k + length clocks ≡ c.success_threshold
    → ((run (healthy_calls (now ∷ clocks)) b).state ≡ closed)
      × ((run (healthy_calls (now ∷ clocks)) b).failure_count ≡ 0)
      × (admitted (healthy_calls (now ∷ clocks)) b ≡ suc (length clocks))
unfolding run step admitted healthy_calls
healthy_run [] now b k c t h l =
    let (s, f, a) = healthy_last now b k c t h (omega arith) in
    (s, f, omega (arith, a, admits-success (allow_request now b).0))
healthy_run (n ∷ clocks) now b k c t h l =
    let (t', a) = healthy_step now b k c t h (omega arith) in
    let (s, f, r) =
      healthy_run clocks n (on_success (allow_request now b).0) (suc k) c t' h (omega arith) in
    (s, f, omega (arith, a, r, admits-success (allow_request now b).0))

expired_attempt :
    (now : ℕ) (b : CircuitBreaker)
    → b.state ≡ opened
    → b.last_failure_time + b.config.timeout_seconds < now
    → (allow_request now b ≡ allow_request now (transition_to_half_open b))
      × (admits (attempt now) b ≡ admits (attempt now) (transition_to_half_open b))
unfolding allow_request transition_to_half_open admits
expired_attempt now b s h = ground arith

expired_run :
    (clocks : List ℕ) (now : ℕ) (b : CircuitBreaker)
    → b.state ≡ opened
    → b.last_failure_time + b.config.timeout_seconds < now
    → let calls = healthy_calls (now ∷ clocks) in
      let tested = transition_to_half_open b in
      (run calls b ≡ run calls tested) × (admitted calls b ≡ admitted calls tested)
unfolding healthy_calls run step admitted
expired_run clocks now b s late = let (e, a) = expired_attempt now b s late in (cc e, cc (e, a))

Testing-transition : (b : CircuitBreaker) → Testing (transition_to_half_open b) 0 b.config
unfolding transition_to_half_open
Testing-transition b = record { half = refl; tried = refl; succeeded = refl; configured = refl }

-- An open breaker recovers. If `success_threshold ≤ half_open_requests`, then from the first attempt
-- after the timeout, `success_threshold` calls in sequence that all succeed are all allowed, and they
-- close the breaker with its failure count reset, whatever the clocks of the later calls.
pub recovers :
    (clocks : List ℕ) (now : ℕ) (b : CircuitBreaker)
    → b.state ≡ opened
    → b.last_failure_time + b.config.timeout_seconds < now
    → b.config.success_threshold ≤ b.config.half_open_requests
    → suc (length clocks) ≡ b.config.success_threshold
    → ((run (healthy_calls (now ∷ clocks)) b).state ≡ closed)
      × ((run (healthy_calls (now ∷ clocks)) b).failure_count ≡ 0)
      × (admitted (healthy_calls (now ∷ clocks)) b ≡ b.config.success_threshold)
recovers clocks now b s late h l =
    let (e, a) = expired_run clocks now b s late in
    let (s', f, r) =
      healthy_run clocks now (transition_to_half_open b) 0 b.config (Testing-transition b) h
        (omega arith) in
    rw (e, a) (s', f, omega (arith, r, l))
