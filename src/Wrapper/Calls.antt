-- ===== src/Wrapper/Calls.antt =====
-- src/cachekit/decorators/wrapper.py: `sync_wrapper` in the order of its stages, from the bypass to the
-- execution after a miss.
use cachekit_py.Common.{◌*◌, ◌+◌, ◌&&◌, ℕ, not, [], ◌∷◌, Option, none, some, if◌then◌else◌}
use cachekit_py.Errors.{Error, backend_error, transient, other_exception}
use cachekit_py.Orchestrator.{
  FeatureOrchestrator, should_allow_request, record_success, record_failure, handle_cache_error,
}
use cachekit_py.Common.Int.{pos}
use cachekit_py.L1Cache.State.{L1Cache, Float, finite, second, expiry_of}
use cachekit_py.L1Cache.Calls.{get, put_bytes, invalidate}
use cachekit_py.Handler.{
  Bytes, ReadError, auth_tamper, suspicious_envelope, corruption, keyring_config, value_error,
  other_error, ReadOutcome, value, failed, handle_decrypt_failure,
}
use cachekit_py.Handler.Read.{Lookup, hit, miss, raised, deserialize_data, get_cached_value}
use cachekit_py.Handler.Store.{Stored, stored, not_stored, interop_raised, store_result}
use cachekit_py.Wrapper.{
  function_error, decryption_authentication, keyring_configuration, interop_rejected, Execution,
  returns, raises, returned, thrown, Outcome, execute, without_run, Decorator, Call, State, add_key,
}

abbrev pub with_features :
    {K S : Type 0} → (FeatureOrchestrator → FeatureOrchestrator) → State K S → State K S
with_features f st = record st { store = record st.store { features = f st.store.features } }

-- the lifetime in seconds that `_l1_cache.put` is given, in ticks of L1
abbrev pub redis_ttl : Option ℕ → Option Float
redis_ttl none = none
redis_ttl (some ttl) = some (finite (pos (ttl * second)))

-- `_l1_cache.invalidate` where there is an L1
abbrev pub invalidate_l1 : {K : Type 0} → Discrete K → K → Option (L1Cache K) → Option (L1Cache K)
invalidate_l1 dec key none = none
invalidate_l1 dec key (some c) = some (invalidate dec key c)

module _ {K V A S : Type 0} (dec : Discrete K) (d : Decorator K V A S) (call : Call K V A) where
  -- an error of the cache is recorded, and the function runs without it
  unfoldable pub run_uncached : Error → State K S → State K S × Outcome V
  run_uncached e st = (with_features (handle_cache_error call.failed_at e) st, execute 0 call.first)

  -- `_l1_cache.put` of the bytes; the empty ones are not stored
  abbrev pub put_l1 : K → Bytes → Option (L1Cache K) → Option (L1Cache K)
  put_l1 key bytes none = none
  put_l1 key [] (some c) = some c
  put_l1 key (b ∷ bytes) (some c) = some (
      put_bytes dec key (b ∷ bytes) call.l1_put_at
        (expiry_of call.l1_put_at c.ttl_buffer (redis_ttl d.ttl) none) c)

  -- the result is known and the backend has been asked to store it
  unfoldable pub after_store : K → V → Stored → State K S → State K S × Outcome V
  after_store key v interop_raised st = (
    with_features (record_failure call.failed_at other_exception) st,
    record { result = thrown interop_rejected; executions = 1 },
  )
  after_store key v (stored bytes) st = (
    with_features record_success (record st {
      l1_cache = put_l1 key bytes st.l1_cache;
      cached_keys = add_key dec key st.cached_keys;
    }),
    record { result = returned v; executions = 1 },
  )
  after_store key v not_stored st = (
    with_features record_success (record st { cached_keys = add_key dec key st.cached_keys }),
    record { result = returned v; executions = 1 },
  )

  unfoldable pub store_value : K → V → State K S → State K S × Outcome V
  unfolding after_store
  store_value key v st =
      let (s, r) =
        store_result d.encoder d.config d.backend key v d.ttl call.args st.store.backend_state in
      after_store key v r (record st { store = record st.store { backend_state = s } })

  -- the miss: the function runs, and once more when it raised a `BackendError`
  unfoldable pub after_run : K → Execution V → State K S → State K S × Outcome V
  unfolding store_value
  after_run key (returns v) st = store_value key v st
  after_run key (raises (backend_error t)) st = (
    with_features (handle_cache_error call.failed_at (backend_error t)) st,
    execute 1 call.second,
  )
  after_run key (raises other_exception) st = (
    with_features (record_failure call.failed_at other_exception) st,
    record { result = thrown (function_error other_exception); executions = 1 },
  )

  unfoldable pub on_miss : K → State K S → State K S × Outcome V
  unfolding after_run
  on_miss key st = after_run key call.first (record st { misses = st.misses + 1 })

  unfoldable pub after_lookup : K → Lookup V → State K S → State K S × Outcome V
  unfolding on_miss run_uncached
  after_lookup key (hit v) st = (
    with_features record_success (record st { l2_hits = st.l2_hits + 1 }),
    without_run (returned v),
  )
  after_lookup key miss st = on_miss key st
  after_lookup key (raised auth_tamper) st = (st, without_run (thrown decryption_authentication))
  after_lookup key (raised suspicious_envelope) st = run_uncached other_exception st
  after_lookup key (raised corruption) st = run_uncached other_exception st
  after_lookup key (raised keyring_config) st = run_uncached other_exception st
  after_lookup key (raised value_error) st = run_uncached other_exception st
  after_lookup key (raised other_error) st = run_uncached other_exception st

  -- the read of the backend
  unfoldable pub from_l2 : K → State K S → State K S × Outcome V
  unfolding after_lookup
  from_l2 key st =
      let (store, found) = get_cached_value d.codec d.config d.backend call.hook_at key st.store in
      after_lookup key found (record st { store = store })

  abbrev pub forget_l1 : K → State K S → State K S
  forget_l1 key st = record st { l1_cache = invalidate_l1 dec key st.l1_cache }

  unfoldable pub after_l1_error : K → ReadError → State K S → State K S × Outcome V
  unfolding from_l2
  after_l1_error key auth_tamper st =
      let next = from_l2 key (forget_l1 key st) in
      if handle_decrypt_failure d.config.fail_closed auth_tamper
      then (forget_l1 key st, without_run (thrown decryption_authentication))
      else next
  after_l1_error key suspicious_envelope st = from_l2 key (forget_l1 key st)
  after_l1_error key corruption st = from_l2 key (forget_l1 key st)
  after_l1_error key keyring_config st = (st, without_run (thrown keyring_configuration))
  after_l1_error key value_error st = from_l2 key (forget_l1 key st)
  after_l1_error key other_error st = from_l2 key (forget_l1 key st)

  unfoldable pub after_l1_read : K → ReadOutcome V → State K S → State K S × Outcome V
  unfolding after_l1_error
  after_l1_read key (value v) st = (
    with_features record_success (record st { l1_hits = st.l1_hits + 1 }),
    without_run (returned v),
  )
  after_l1_read key (failed e) st = after_l1_error key e st

  -- the bytes that L1 found; empty ones are a miss
  unfoldable pub after_l1 : K → Option Bytes → State K S → State K S × Outcome V
  unfolding after_l1_read
  after_l1 key none st = from_l2 key st
  after_l1 key (some []) st = from_l2 key st
  after_l1 key (some (b ∷ bytes)) st =
      after_l1_read key (deserialize_data d.codec d.config (b ∷ bytes) key) st

  unfoldable pub from_l1 : K → Option (L1Cache K) → State K S → State K S × Outcome V
  unfolding after_l1
  from_l1 key none st = from_l2 key st
  from_l1 key (some c) st =
      let (c', found) = get dec key call.l1_read_at c in
      after_l1 key found (record st { l1_cache = some c' })

  -- the client, and the guard of interop mode
  unfoldable pub with_client : K → Option Error → State K S → State K S × Outcome V
  unfolding from_l1 run_uncached
  with_client key (some e) st = run_uncached e st
  with_client key none st =
      if d.config.interop_mode && d.prefixed
      then (st, without_run (thrown interop_rejected))
      else from_l1 key st.l1_cache st

  -- the generation of the key failed
  abbrev pub key_failed : State K S → State K S × Outcome V
  key_failed st =
      if d.config.interop_mode
      then (st, without_run (thrown interop_rejected))
      else run_uncached other_exception st

  -- the test of the circuit breaker
  unfoldable pub with_key : Option K → State K S → State K S × Outcome V
  unfolding with_client run_uncached
  with_key none st = key_failed st
  with_key (some key) st =
      if not (should_allow_request st.store.features)
      then run_uncached (backend_error transient) st
      else with_client key call.client_error st

  -- `sync_wrapper`
  unfoldable pub sync_wrapper : State K S → State K S × Outcome V
  unfolding with_key
  sync_wrapper st =
      if call.bypass_cache then (st, execute 0 call.first) else with_key call.cache_key st
