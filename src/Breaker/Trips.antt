-- ===== src/Breaker/Trips.antt =====
-- When the circuit breaker trips: the failures that it counts while it is closed, what successes do
-- to that count, and what an open breaker answers until its timeout has passed.
use cachekit_py.Common.{ℕ, ◌+◌, ◌≤◌, ◌<◌, ◌≡◌, ◌∙◌, refl, false, List, [], ◌∷◌, arith, All}
use cachekit_py.Errors.{Error}
use cachekit_py.Breaker.{
  closed, opened, CircuitBreakerConfig, CircuitBreaker, allow_request, on_success, on_failure,
  is_excluded,
}
use cachekit_py.Breaker.Events.{
  Event, attempt, success, failure, manual_reset, step, run, admits, admitted, counted_failures,
}

-- no reset, no attempt later than `timeout` after `last`, no failure earlier than `last`
abbrev pub NoRecovery : ℕ → ℕ → Event → Type 0
NoRecovery last timeout (attempt now) = now ≤ last + timeout
NoRecovery last timeout success = Unit
NoRecovery last timeout (failure now e) = last ≤ now
NoRecovery last timeout manual_reset = ⊥

-- no administrative reset
abbrev pub IsClientCall : Event → Type 0
IsClientCall manual_reset = ⊥
IsClientCall _ = Unit

stays_closed :
    (e : Event) (b : CircuitBreaker)
    → b.state ≡ closed
    → IsClientCall e
    → (n : ℕ) → counted_failures b.config (e ∷ []) ≡ n
    → b.failure_count + n < b.config.failure_threshold
    → ((step e b).state ≡ closed)
      × ((step e b).config ≡ b.config)
      × ((step e b).failure_count ≡ b.failure_count + n)
unfolding step allow_request on_success on_failure counted_failures
stays_closed e b s c n k h = ground arith

counted-cons :
    (c : CircuitBreakerConfig) (e : Event) (es : List Event)
    → counted_failures c (e ∷ es) ≡ counted_failures c (e ∷ []) + counted_failures c es
unfolding counted_failures
counted-cons c e es = ground arith

run-closed :
    (es : List Event) (b : CircuitBreaker)
    → b.state ≡ closed
    → All IsClientCall es
    → b.failure_count + counted_failures b.config es < b.config.failure_threshold
    → ((run es b).state ≡ closed)
      × ((run es b).config ≡ b.config)
      × ((run es b).failure_count ≡ b.failure_count + counted_failures b.config es)
unfolding run
run-closed [] b s c h = unfold counted_failures in (s, refl, omega arith)
run-closed (e ∷ es) b s c h =
    let k = counted-cons b.config e es in
    let (s', c', f') = stays_closed e b s c.0 _ refl (omega (arith, k)) in
    let m : counted_failures (step e b).config es ≡ counted_failures b.config es = rw c' in
    let (s'', c'', f'') = run-closed es (step e b) s' c.1 (grind (arith, k, m, f', c')) in
    (s'', c'' ∙ c', grind (arith, k, m, f', f''))

-- A closed breaker trips exactly at the failure that brings its count to the threshold. Whatever
-- client calls `es` come first, with fewer counted failures than are missing, the breaker is still
-- closed after them; and if exactly one more is missing, the next counted failure opens it. The
-- successes among `es` change nothing: the count is of failures since the breaker last closed, and
-- not of consecutive ones.
pub trips_at_threshold :
    (es : List Event) (b : CircuitBreaker) (now : ℕ) (e : Error)
    → b.state ≡ closed
    → All IsClientCall es
    → b.failure_count + counted_failures b.config es + 1 ≡ b.config.failure_threshold
    → is_excluded b.config e ≡ false
    → ((run es b).state ≡ closed)
      × ((on_failure now e (run es b)).state ≡ opened)
      × ((on_failure now e (run es b)).last_failure_time ≡ now)
unfolding on_failure
trips_at_threshold es b now e s c h x =
    let (s', c', f') = run-closed es b s c (omega arith) in
    let x' : is_excluded (run es b).config e ≡ false = rw c' x in
    (s', ground (arith, x', s', f', c'), ground (arith, x', s', f', c'))

fails_fast_step :
    (e : Event) (b : CircuitBreaker) (last timeout : ℕ)
    → b.state ≡ opened
    → last ≤ b.last_failure_time
    → b.config.timeout_seconds ≡ timeout
    → NoRecovery last timeout e
    → ((step e b).state ≡ opened)
      × (last ≤ (step e b).last_failure_time)
      × ((step e b).config.timeout_seconds ≡ timeout)
      × (admits e b ≡ 0)
unfolding step admits allow_request on_success on_failure
fails_fast_step e b last timeout s d c n = ground arith

fails_fast_from :
    (es : List Event) (b : CircuitBreaker) (last timeout : ℕ)
    → b.state ≡ opened
    → last ≤ b.last_failure_time
    → b.config.timeout_seconds ≡ timeout
    → All (NoRecovery last timeout) es
    → ((run es b).state ≡ opened) × (admitted es b ≡ 0)
unfolding run admitted
fails_fast_from [] b last timeout s d c a = (s, refl)
fails_fast_from (e ∷ es) b last timeout s d c a =
    let (s', d', c', k) = fails_fast_step e b last timeout s d c a.0 in
    let (s'', k') = fails_fast_from es (step e b) last timeout s' d' c' a.1 in (s'', omega arith)

-- An open breaker fails fast: while the clocks of the attempts are within `timeout_seconds` of its
-- last failure, the failures recorded meanwhile are no earlier than that one, and nobody resets it,
-- no attempt is allowed and the breaker stays open, whatever successes are recorded.
pub fails_fast :
    (es : List Event) (b : CircuitBreaker)
    → b.state ≡ opened
    → All (NoRecovery b.last_failure_time b.config.timeout_seconds) es
    → ((run es b).state ≡ opened) × (admitted es b ≡ 0)
fails_fast es b s a =
    fails_fast_from es b b.last_failure_time b.config.timeout_seconds s (omega arith) refl a
