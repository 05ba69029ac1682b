-- ===== src/Orchestrator/Latch.antt =====
-- What the calls of src/cachekit/decorators/wrapper.py on the orchestrator can do to an open breaker.
use cachekit_py.Common.{ℕ, ◌≡◌, false, List, [], ◌∷◌, some, arith}
use cachekit_py.Errors.{Error}
use cachekit_py.Breaker.{CircuitBreaker, opened, on_success, on_failure}
use cachekit_py.Orchestrator.{
  FeatureOrchestrator, should_allow_request, record_failure, record_success, handle_cache_error,
}

-- What the decorator does with the orchestrator, in the order of the calls.
pub data Call : Type 0 where
  ask : Call
  success : Call
  failure : ℕ → Error → Call
  cache_error : ℕ → Error → Call

unfoldable pub step : Call → FeatureOrchestrator → FeatureOrchestrator
step ask o = o
step success o = record_success o
step (failure now e) o = record_failure now e o
step (cache_error now e) o = handle_cache_error now e o

unfoldable pub run : List Call → FeatureOrchestrator → FeatureOrchestrator
run [] o = o
run (c ∷ calls) o = run calls (step c o)

abbrev pub HasOpenBreaker : FeatureOrchestrator → Type 0
HasOpenBreaker o = (b : CircuitBreaker) × (o.circuit_breaker ≡ some b) × (b.state ≡ opened)

success-opened : (b : CircuitBreaker) → b.state ≡ opened → (on_success b).state ≡ opened
unfolding on_success
success-opened b s = ground arith

pub failure-opened :
    (now : ℕ) (e : Error) (b : CircuitBreaker)
    → b.state ≡ opened
    → (on_failure now e b).state ≡ opened
unfolding on_failure
failure-opened now e b s = ground arith

step-HasOpenBreaker :
    (c : Call) (o : FeatureOrchestrator) → HasOpenBreaker o → HasOpenBreaker (step c o)
unfolding step record_success record_failure handle_cache_error
step-HasOpenBreaker ask o h = h
step-HasOpenBreaker success o (b, p, s) = (on_success b, ground arith, success-opened b s)
step-HasOpenBreaker (failure now e) o (b, p, s) =
    (on_failure now e b, ground arith, failure-opened now e b s)
step-HasOpenBreaker (cache_error now e) o (b, p, s) =
    (on_failure now e b, ground arith, failure-opened now e b s)

run-HasOpenBreaker :
    (calls : List Call) (o : FeatureOrchestrator) → HasOpenBreaker o → HasOpenBreaker (run calls o)
unfolding run
run-HasOpenBreaker [] o h = h
run-HasOpenBreaker (c ∷ calls) o h = run-HasOpenBreaker calls (step c o) (step-HasOpenBreaker c o h)

-- Once the breaker of an orchestrator is open, the orchestrator refuses every request from then on,
-- whatever it is asked, whatever outcomes are recorded and however much time passes on the clocks of
-- the failures: no call that the orchestrator makes takes its breaker out of the open state.
pub open_is_final :
    (calls : List Call) (o : FeatureOrchestrator) (b : CircuitBreaker)
    → o.circuit_breaker ≡ some b
    → b.state ≡ opened
    → should_allow_request (run calls o) ≡ false
unfolding should_allow_request
open_is_final calls o b p s =
    let (b', p', s') = run-HasOpenBreaker calls o (b, p, s) in ground arith
