-- ===== src/Wrapper/Outage.antt =====
-- src/cachekit/decorators/wrapper.py: what the calls of `sync_wrapper` tell a closed circuit breaker, while
-- nothing is read from L1 or the backend.
use cachekit_py.Common.{
  ℕ, ◌+◌, ◌<◌, false, List, [], ◌∷◌, map, none, some, ◌≡◌, ◌≢◌, refl, arith, length, All,
}
use cachekit_py.Errors.{other_exception}
use cachekit_py.Breaker.{CircuitBreaker, closed, opened, on_success, on_failure}
use cachekit_py.Orchestrator.{should_allow_request, record_success, record_failure}
use cachekit_py.Orchestrator.Latch.{HasOpenBreaker}
use cachekit_py.Handler.{Bytes}
use cachekit_py.Handler.Backend.{or_none}
use cachekit_py.Handler.Read.{get_cached_value}
use cachekit_py.Handler.Store.{
  interop_error, serialized, serialization_failed, serialize_data, store_result, store_bytes,
  Serialized,
}
use cachekit_py.Wrapper.{returns, raises, execute, Decorator, Call, State}
use cachekit_py.Wrapper.Calls.{
  after_store, store_value, after_run, on_miss, after_lookup, from_l2, from_l1, with_client,
  with_key, sync_wrapper,
}
use cachekit_py.Wrapper.Refines.{invoke, run}

module _ {K V A S : Type 0} (dec : Discrete K) (d : Decorator K V A S) where
  -- a call that reaches the backend: it has a key, a client and no bypass
  pub record IsRegular (c : Call K V A) : Type 0 where
    pub no_bypass : c.bypass_cache ≡ false
    pub has_key : (key : K) × (c.cache_key ≡ some key)
    pub has_client : c.client_error ≡ none

  -- nothing can be read from the backend, for whatever reason
  abbrev pub NeverHits : Type 0
  NeverHits = (key : K) (s : S) → or_none ((d.backend.get key s).1) ≡ none

  HasBreaker : CircuitBreaker → State K S → Type 0
  HasBreaker b st = (st.store.features.circuit_breaker ≡ some b) × (st.l1_cache ≡ none)

  -- with a closed breaker and without L1, the call comes down to a miss
  comes_to_miss :
      (c : Call K V A) (st : State K S) (b : CircuitBreaker)
      → d.config.interop_mode ≡ false
      → NeverHits
      → IsRegular c
      → HasBreaker b st
      → b.state ≡ closed
      → (key : K) × (st' : State K S) × HasBreaker b st'
        × (sync_wrapper dec d c st ≡ on_miss dec d c key st')
  unfolding HasBreaker sync_wrapper with_key with_client from_l1 from_l2 after_lookup
      get_cached_value should_allow_request
  comes_to_miss c st b plain never regular has shut =
      let (key, k) = regular.has_key in
      (
        key,
        record st {
          store = record st.store { backend_state = (d.backend.get key st.store.backend_state).0 };
        },
        has,
        rw
            (
              regular.no_bypass,
              k,
              regular.has_client,
              has.0,
              has.1,
              shut,
              plain,
              never key st.store.backend_state,
            )
            refl,
      )

  success_keeps : (b : CircuitBreaker) → b.state ≡ closed → on_success b ≡ b
  unfolding on_success
  success_keeps b shut = rw shut refl

  stored_keeps :
      (c : Call K V A) (key : K) (v : V) (r : Serialized Bytes) (s : S) (st : State K S)
      (b : CircuitBreaker)
      → r ≢ interop_error
      → HasBreaker b st
      → b.state ≡ closed
      → HasBreaker b
          (after_store dec d c key v
            (store_bytes d.encoder d.config d.backend key d.ttl r s).1
            st).0
        × ((after_store dec d c key v
              (store_bytes d.encoder d.config d.backend key d.ttl r s).1
              st).1
            ≡ execute 0 (returns v))
  unfolding HasBreaker after_store store_bytes record_success
  stored_keeps c key v interop_error s st b n has shut = absurd (n refl)
  stored_keeps c key v serialization_failed s st b n has shut =
      ((rw (has.0, success_keeps b shut) refl, has.1), refl)
  stored_keeps c key v (serialized bytes) s st b n has shut =
      ((rw (has.0, success_keeps b shut) refl, rw has.1 refl), refl)

  miss_keeps :
      (c : Call K V A) (key : K) (v : V) (st : State K S) (b : CircuitBreaker)
      → c.first ≡ returns v
      → serialize_data d.encoder d.config v c.args key ≢ interop_error
      → HasBreaker b st
      → b.state ≡ closed
      → HasBreaker b (on_miss dec d c key st).0 × ((on_miss dec d c key st).1 ≡ execute 0 c.first)
  unfolding HasBreaker on_miss after_run store_value store_result
  miss_keeps c key v st b first n has shut = rw first (
      stored_keeps c key v (serialize_data d.encoder d.config v c.args key) st.store.backend_state
        (record st {
          misses = st.misses + 1;
          store = record st.store {
            backend_state =
                (store_result d.encoder d.config d.backend key v d.ttl c.args
                  st.store.backend_state).0;
          };
        })
        b n has shut)

  -- the function returns, and its value is not rejected by the encoder
  abbrev pub Succeeds : Call K V A → Type 0
  Succeeds c =
      IsRegular c
      × ((v : V) × (c.first ≡ returns v)
          × ((key : K) → serialize_data d.encoder d.config v c.args key ≢ interop_error))

  -- Without L1 and outside interop mode, with a closed breaker, for calls with a key, with a client and
  -- without a bypass, whose function returns a value that the encoder does not reject as
  -- `InteropError`: while nothing can be read from the backend, as in an outage where each of its
  -- operations raises, over any number of such calls the breaker is left exactly as it was, without a
  -- single failure counted. Each call executes the function once.
  pub outage_unseen :
      (calls : List (Call K V A)) (st : State K S) (b : CircuitBreaker)
      → d.config.interop_mode ≡ false
      → NeverHits
      → All Succeeds calls
      → st.store.features.circuit_breaker ≡ some b
      → st.l1_cache ≡ none
      → b.state ≡ closed
      → ((run dec d (map invoke calls) st).0.store.features.circuit_breaker ≡ some b)
        × ((run dec d (map invoke calls) st).1 ≡ map (λ c. execute 0 c.first) calls)
  unfolding run HasBreaker
  outage_unseen [] st b plain never ok has l1 shut = (has, refl)
  outage_unseen (c ∷ calls) st b plain never ((regular, (v, first, n)), ok) has l1 shut =
      let (key, st', has', e) = comes_to_miss c st b plain never regular (has, l1) shut in
      let (kept, out) = miss_keeps c key v st' b first (n key) has' shut in
      let (end, outs) =
        outage_unseen calls (on_miss dec d c key st').0 b plain never ok kept.0 kept.1 shut in
      (rw (run, e) end, rw (run, e, out, outs) refl)

  miss_counts :
      (c : Call K V A) (key : K) (st : State K S) (b : CircuitBreaker)
      → c.first ≡ raises other_exception
      → HasBreaker b st
      → HasBreaker (on_failure c.failed_at other_exception b) (on_miss dec d c key st).0
  unfolding HasBreaker on_miss after_run record_failure
  miss_counts c key st b first has = rw first (rw has.0 refl, has.1)

  -- a call whose function raises an exception of its own
  abbrev pub Raises : Call K V A → Type 0
  Raises c = IsRegular c × (c.first ≡ raises other_exception)

  counts_one :
      (now : ℕ) (b : CircuitBreaker)
      → b.state ≡ closed
      → b.failure_count + 1 < b.config.failure_threshold
      → ((on_failure now other_exception b).state ≡ closed)
        × ((on_failure now other_exception b).failure_count ≡ b.failure_count + 1)
        × ((on_failure now other_exception b).config ≡ b.config)
  unfolding on_failure
  counts_one now b shut h = ground arith

  opens_at :
      (now : ℕ) (b : CircuitBreaker)
      → b.state ≡ closed
      → b.failure_count + 1 ≡ b.config.failure_threshold
      → (on_failure now other_exception b).state ≡ opened
  unfolding on_failure
  opens_at now b shut h = ground arith

  -- Without L1 and outside interop mode, while nothing can be read from the backend: exceptions of the
  -- function itself count as failures of the cache. A run of calls with a key, with a client and
  -- without a bypass, whose function raises anything but a `BackendError`, as long as what the closed
  -- breaker has left to its threshold, opens it, even where the operations of the backend succeed.
  pub application_errors_open :
      (c : Call K V A) (calls : List (Call K V A)) (st : State K S) (b : CircuitBreaker)
      → d.config.interop_mode ≡ false
      → NeverHits
      → All Raises (c ∷ calls)
      → st.store.features.circuit_breaker ≡ some b
      → st.l1_cache ≡ none
      → b.state ≡ closed
      → b.failure_count + length (c ∷ calls) ≡ b.config.failure_threshold
      → HasOpenBreaker (run dec d (map invoke (c ∷ calls)) st).0.store.features
  unfolding run HasBreaker
  application_errors_open c [] st b plain never ((regular, first), ok) has l1 shut h =
      let (key, st', has', e) = comes_to_miss c st b plain never regular (has, l1) shut in
      let counted = miss_counts c key st' b first has' in
      rw e (on_failure c.failed_at other_exception b, counted.0, opens_at c.failed_at b shut h)
  application_errors_open c (c' ∷ calls) st b plain never ((regular, first), ok) has l1 shut h =
      let (key, st', has', e) = comes_to_miss c st b plain never regular (has, l1) shut in
      let counted = miss_counts c key st' b first has' in
      let (shut', n, same) = counts_one c.failed_at b shut (omega arith) in
      let left : (on_failure c.failed_at other_exception b).failure_count + length (c' ∷ calls)
          ≡ (on_failure c.failed_at other_exception b).config.failure_threshold =
        rw (n, same) (omega arith) in
      rw (run, e)
        (application_errors_open c' calls (on_miss dec d c key st').0
          (on_failure c.failed_at other_exception b) plain never ok counted.0 counted.1 shut' left)
