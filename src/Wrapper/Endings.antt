-- ===== src/Wrapper/Endings.antt =====
-- How a call of `sync_wrapper` (src/cachekit/decorators/wrapper.py) can end: with a value of the cache,
-- with an execution of the function, or with one of the exceptions that are let through.
use cachekit_py.Common.{
  ◌⊎◌, ap, sym, ◌∙◌, ◌+◌, Bool, true, false, ◌&&◌, not, [], ◌∷◌, Option, none, some, if◌then◌else◌,
  ◌≡◌, refl, arith, inl, inr,
}
use cachekit_py.Errors.{Error, backend_error, transient, other_exception, BackendErrorType}
use cachekit_py.Orchestrator.{should_allow_request}
use cachekit_py.L1Cache.State.{L1Cache}
use cachekit_py.L1Cache.Calls.{get}
use cachekit_py.Handler.{
  Bytes, ReadError, auth_tamper, suspicious_envelope, corruption, keyring_config, value_error,
  other_error, ReadOutcome, value, failed, handle_decrypt_failure,
}
use cachekit_py.Handler.Backend.{or_none}
use cachekit_py.Handler.Read.{Store, Lookup, hit, miss, raised, deserialize_data, get_cached_value}
use cachekit_py.Handler.Policy.{raises_only, get_cached_value-ComesFrom}
use cachekit_py.Handler.Store.{
  Serialized, serialized, interop_error, serialization_failed, store_result, store_bytes,
  serialize_data,
}
use cachekit_py.Wrapper.{
  decryption_authentication, keyring_configuration, interop_rejected, Execution, returns, raises,
  returned, thrown, Outcome, execute, without_run, Decorator, Call, State,
}
use cachekit_py.Wrapper.Calls.{
  run_uncached, after_store, store_value, after_run, on_miss, after_lookup, from_l2, forget_l1,
  after_l1_error, after_l1_read, after_l1, from_l1, with_client, with_key, sync_wrapper,
}

module _ {K V A S : Type 0} (dec : Discrete K) (d : Decorator K V A S) (call : Call K V A)
    (start : State K S) where
  -- the bytes that L1 or the backend gives for the key of the call, in the state where the call starts
  abbrev pub IsGiven : K → Bytes → Type 0
  IsGiven key b =
      (call.cache_key ≡ some key)
      × (((c : L1Cache K) × (start.l1_cache ≡ some c)
            × ((get dec key call.l1_read_at c).1 ≡ some b))
          ⊎ (or_none (d.backend.get key start.store.backend_state).1 ≡ some b))

  pub data Ending (o : Outcome V) : Type 0 where
    -- the value of an entry, and no execution
    cached : (v : V) → o ≡ without_run (returned v) → Ending o
    -- an execution without the cache
    uncached : o ≡ execute 0 call.first → Ending o
    -- the first execution, in its place
    first_returned : (v : V) → call.first ≡ returns v → o ≡ execute 0 call.first → Ending o
    first_raised : call.first ≡ raises other_exception → o ≡ execute 0 call.first → Ending o
    -- a `BackendError` of the function itself, which is executed again
    run_again :
        (t : BackendErrorType)
        → call.first ≡ raises (backend_error t)
        → o ≡ execute 1 call.second
        → Ending o
    -- an entry that fails its authentication, under the policy that lets no such entry pass
    unauthentic :
        (key : K) (b : Bytes)
        → IsGiven key b
        → d.config.fail_closed ≡ true
        → deserialize_data d.codec d.config b key ≡ failed auth_tamper
        → o ≡ without_run (thrown decryption_authentication)
        → Ending o
    -- a fault of the keyring that the bytes in L1 met
    keyring_fault :
        (key : K) (b : Bytes)
        → IsGiven key b
        → deserialize_data d.codec d.config b key ≡ failed keyring_config
        → o ≡ without_run (thrown keyring_configuration)
        → Ending o
    -- interop mode refuses the arguments or the backend
    refused : d.config.interop_mode ≡ true → o ≡ without_run (thrown interop_rejected) → Ending o
    -- the encoder refuses the result
    rejected :
        (key : K) (v : V)
        → call.first ≡ returns v
        → serialize_data d.encoder d.config v call.args key ≡ interop_error
        → o ≡ record { result = thrown interop_rejected; executions = 1 }
        → Ending o

  abbrev pub Ends : State K S × Outcome V → Type 0
  Ends p = Ending p.1

  if-Ends :
      (b : Bool) (p q : State K S × Outcome V)
      → (b ≡ true → Ends p)
      → Ends q
      → Ends (if b then p else q)
  if-Ends true p q h g = h refl
  if-Ends false p q h g = g

  run_uncached-Ends : (e : Error) (st : State K S) → Ends (run_uncached dec d call e st)
  unfolding run_uncached
  run_uncached-Ends e st = uncached refl

  stored_cases :
      (key : K) (v : V) (r : Serialized Bytes) (s : S) (st : State K S)
      → call.first ≡ returns v
      → serialize_data d.encoder d.config v call.args key ≡ r
      → Ends (
          after_store dec d call key v
            (store_bytes d.encoder d.config d.backend key d.ttl r s).1
            st)
  unfolding after_store store_bytes
  stored_cases key v (serialized b) s st e q = first_returned v e (rw e refl)
  stored_cases key v serialization_failed s st e q = first_returned v e (rw e refl)
  stored_cases key v interop_error s st e q = rejected key v e q refl

  store_value-Ends :
      (key : K) (v : V) (st : State K S)
      → call.first ≡ returns v
      → Ends (store_value dec d call key v st)
  unfolding store_value store_result
  store_value-Ends key v st e =
      let s = (st.store).backend_state in
      let p = store_result d.encoder d.config d.backend key v d.ttl call.args s in
      stored_cases key v (serialize_data d.encoder d.config v call.args key) s
        (record st { store = record st.store { backend_state = p.0 } }) e refl

  after_run-Ends :
      (key : K) (r : Execution V) (st : State K S)
      → call.first ≡ r
      → Ends (after_run dec d call key r st)
  unfolding after_run
  after_run-Ends key (returns v) st e = store_value-Ends key v st e
  after_run-Ends key (raises (backend_error t)) st e = run_again t e refl
  after_run-Ends key (raises other_exception) st e = first_raised e (rw e refl)

  -- the exceptions that `get_cached_value` raises: the failed authentication only under the policy
  abbrev pub RaisesRight : K → Lookup V → Type 0
  RaisesRight key r =
      r ≡ raised auth_tamper
      → (d.config.fail_closed ≡ true)
        × ((b : Bytes) × IsGiven key b
            × (deserialize_data d.codec d.config b key ≡ failed auth_tamper))

  after_lookup-Ends :
      (key : K) (r : Lookup V) (st : State K S)
      → RaisesRight key r
      → Ends (after_lookup dec d call key r st)
  unfolding after_lookup on_miss
  after_lookup-Ends key (hit v) st h = cached v refl
  after_lookup-Ends key miss st h =
      after_run-Ends key call.first (record st { misses = st.misses + 1 }) refl
  after_lookup-Ends key (raised auth_tamper) st h =
      let (closed, (b, given, q)) = h refl in unauthentic key b given closed q refl
  after_lookup-Ends key (raised suspicious_envelope) st h = run_uncached-Ends other_exception st
  after_lookup-Ends key (raised corruption) st h = run_uncached-Ends other_exception st
  after_lookup-Ends key (raised keyring_config) st h = run_uncached-Ends other_exception st
  after_lookup-Ends key (raised value_error) st h = run_uncached-Ends other_exception st
  after_lookup-Ends key (raised other_error) st h = run_uncached-Ends other_exception st

  get_cached_value_raises :
      (key : K) (st : Store S)
      → call.cache_key ≡ some key
      → st.backend_state ≡ start.store.backend_state
      → RaisesRight key (get_cached_value d.codec d.config d.backend call.hook_at key st).1
  get_cached_value_raises key st k same p =
      let (b, found, q) =
        get_cached_value-ComesFrom d.codec d.config d.backend call.hook_at key st auth_tamper p in
      (
        elim ((raises_only d.codec d.config d.backend call.hook_at key st auth_tamper p).0) [
          | inl q ↦ absurd (ground arith)
          | inr q ↦ q.1
        ],
        (b, (k, inr (ap (λ s. or_none (d.backend.get key s).1) (sym same) ∙ found)), q),
      )

  from_l2-Ends :
      (key : K) (st : State K S)
      → call.cache_key ≡ some key
      → st.store.backend_state ≡ start.store.backend_state
      → Ends (from_l2 dec d call key st)
  unfolding from_l2
  from_l2-Ends key st k same =
      let p = get_cached_value d.codec d.config d.backend call.hook_at key st.store in
      after_lookup-Ends key p.1 (record st { store = p.0 })
        (get_cached_value_raises key st.store k same)

  after_l1_error-Ends :
      (key : K) (b : Bytes) (e : ReadError) (st : State K S)
      → IsGiven key b
      → st.store.backend_state ≡ start.store.backend_state
      → deserialize_data d.codec d.config b key ≡ failed e
      → Ends (after_l1_error dec d call key e st)
  unfolding after_l1_error handle_decrypt_failure
  after_l1_error-Ends key b auth_tamper st g same q =
      if-Ends d.config.fail_closed
        (forget_l1 dec d call key st, without_run (thrown decryption_authentication))
        (from_l2 dec d call key (forget_l1 dec d call key st)) (λ on. unauthentic key b g on q refl)
        (from_l2-Ends key (forget_l1 dec d call key st) g.0 same)
  after_l1_error-Ends key b suspicious_envelope st g same q =
      from_l2-Ends key (forget_l1 dec d call key st) g.0 same
  after_l1_error-Ends key b corruption st g same q =
      from_l2-Ends key (forget_l1 dec d call key st) g.0 same
  after_l1_error-Ends key b keyring_config st g same q = keyring_fault key b g q refl
  after_l1_error-Ends key b value_error st g same q =
      from_l2-Ends key (forget_l1 dec d call key st) g.0 same
  after_l1_error-Ends key b other_error st g same q =
      from_l2-Ends key (forget_l1 dec d call key st) g.0 same

  after_l1_read-Ends :
      (key : K) (b : Bytes) (r : ReadOutcome V) (st : State K S)
      → IsGiven key b
      → st.store.backend_state ≡ start.store.backend_state
      → deserialize_data d.codec d.config b key ≡ r
      → Ends (after_l1_read dec d call key r st)
  unfolding after_l1_read
  after_l1_read-Ends key b (value v) st g same q = cached v refl
  after_l1_read-Ends key b (failed e) st g same q = after_l1_error-Ends key b e st g same q

  after_l1-Ends :
      (key : K) (found : Option Bytes) (st : State K S)
      → call.cache_key ≡ some key
      → ((b : Bytes) → found ≡ some b → IsGiven key b)
      → st.store.backend_state ≡ start.store.backend_state
      → Ends (after_l1 dec d call key found st)
  unfolding after_l1
  after_l1-Ends key none st k g same = from_l2-Ends key st k same
  after_l1-Ends key (some []) st k g same = from_l2-Ends key st k same
  after_l1-Ends key (some (b ∷ bytes)) st k g same =
      after_l1_read-Ends key (b ∷ bytes) (deserialize_data d.codec d.config (b ∷ bytes) key) st
        (g (b ∷ bytes) refl) same refl

  from_l1-Ends :
      (key : K) (l1 : Option (L1Cache K))
      → call.cache_key ≡ some key
      → start.l1_cache ≡ l1
      → Ends (from_l1 dec d call key l1 start)
  unfolding from_l1
  from_l1-Ends key none k e = from_l2-Ends key start k refl
  from_l1-Ends key (some c) k e =
      let p = get dec key call.l1_read_at c in
      after_l1-Ends key p.1 (record start { l1_cache = some p.0 }) k (λ b q. (k, inl (c, e, q)))
        refl

  -- the first of two conditions
  first_of : (a b : Bool) → a && b ≡ true → a ≡ true
  first_of true b p = refl
  first_of false b p = absurd (ground arith)

  with_client-Ends :
      (key : K) (e : Option Error)
      → call.cache_key ≡ some key
      → Ends (with_client dec d call key e start)
  unfolding with_client
  with_client-Ends key (some e) k = run_uncached-Ends e start
  with_client-Ends key none k =
      if-Ends (d.config.interop_mode && d.prefixed) (start, without_run (thrown interop_rejected))
        (from_l1 dec d call key start.l1_cache start)
        (λ q. refused (first_of d.config.interop_mode d.prefixed q) refl)
        (from_l1-Ends key start.l1_cache k refl)

  with_key-Ends : (key : Option K) → call.cache_key ≡ key → Ends (with_key dec d call key start)
  unfolding with_key
  with_key-Ends none k =
      if-Ends d.config.interop_mode (start, without_run (thrown interop_rejected))
        (run_uncached dec d call other_exception start) (λ q. refused q refl)
        (run_uncached-Ends other_exception start)
  with_key-Ends (some key) k =
      if-Ends (not (should_allow_request start.store.features))
        (run_uncached dec d call (backend_error transient) start)
        (with_client dec d call key call.client_error start)
        (λ q. run_uncached-Ends (backend_error transient) start)
        (with_client-Ends key call.client_error k)

  -- every call ends in one of these ways, whatever the state and the backend
  pub sync_wrapper-Ends : Ends (sync_wrapper dec d call start)
  unfolding sync_wrapper
  sync_wrapper-Ends =
      if-Ends call.bypass_cache (start, execute 0 call.first)
        (with_key dec d call call.cache_key start) (λ q. uncached refl)
        (with_key-Ends call.cache_key refl)
