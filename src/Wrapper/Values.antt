-- ===== src/Wrapper/Values.antt =====
-- The values that `sync_wrapper` of src/cachekit/decorators/wrapper.py returns, stage by stage: from a
-- state where every entry of L1 and of the backend is faithful, the stage leaves such a state.
use cachekit_py.Common.{
  ℕ, ◌+◌, Bool, true, false, ◌&&◌, [], ◌∷◌, Option, none, some, if◌then◌else◌, ◌≡◌, refl, sym, ◌∙◌,
  arith, Bool-cases, inl, inr,
}
use cachekit_py.Errors.{Error, backend_error, transient, other_exception}
use cachekit_py.Orchestrator.{should_allow_request, record_success}
use cachekit_py.L1Cache.State.{L1Cache, expiry_of}
use cachekit_py.L1Cache.Calls.{get}
use cachekit_py.L1Cache.Entries.{Every, get-Every, get_found, invalidate-Every, put_bytes-Every}
use cachekit_py.Handler.{
  Bytes, ReadError, auth_tamper, suspicious_envelope, corruption, keyring_config, value_error,
  other_error, ReadOutcome, value, failed, handle_decrypt_failure,
}
use cachekit_py.Handler.Backend.{IsBackend}
use cachekit_py.Handler.Read.{Lookup, hit, miss, raised, deserialize_data, get_cached_value}
use cachekit_py.Handler.Store.{Stored, stored, not_stored, interop_raised, store_result}
use cachekit_py.Handler.Faithful.{
  IsFaithful, HoldsFaithful, Encodes, get_cached_value-Right, store_result-Right,
}
use cachekit_py.Wrapper.{
  Exception, decryption_authentication, keyring_configuration, interop_rejected, Execution, returns,
  raises, returned, thrown, Outcome, without_run, of_execution, Decorator, Call, State,
}
use cachekit_py.Wrapper.Calls.{
  redis_ttl, with_features, invalidate_l1, run_uncached, put_l1, after_store, store_value,
  after_run, on_miss, after_lookup, from_l2, forget_l1, after_l1_error, after_l1_read, after_l1,
  from_l1, with_client, with_key, sync_wrapper,
}

-- Each execution of the call that returns gives `f` of the arguments, which is the answer to the key.
pub record IsHonest {K V A : Type 0} (f : A → V) (answer : K → V) (call : Call K V A) : Type 0 where
  pub first_right : (v : V) → call.first ≡ returns v → v ≡ f call.args
  pub second_right : (v : V) → call.second ≡ returns v → v ≡ f call.args
  pub key_right : (key : K) → call.cache_key ≡ some key → answer key ≡ f call.args

module _ {K V A S : Type 0} (dec : Discrete K) (d : Decorator K V A S)
    (Holds : S → K → Bytes → Type 0) (answer : K → V) where
  abbrev pub L1Faithful : Option (L1Cache K) → Type 0
  L1Faithful none = Unit
  L1Faithful (some c) = Every dec (IsFaithful d.codec d.config answer) c.cache

  -- every entry of L1 and of the backend that can be read is the answer to its key
  abbrev pub IsSound : State K S → Type 0
  IsSound st =
      HoldsFaithful d.codec d.config answer d.backend Holds ((st.store).backend_state)
      × L1Faithful st.l1_cache

  module _ (law : IsBackend d.backend Holds)
      (encodes : Encodes d.codec d.config answer d.backend Holds law d.encoder) (f : A → V)
      (call : Call K V A) (honest : IsHonest f answer call) where
    abbrev pub Fits : State K S × Outcome V → Type 0
    Fits p = IsSound p.0 × ((v : V) → (p.1).result ≡ returned v → v ≡ f call.args)

    if-Fits : (b : Bool) (p q : State K S × Outcome V) → Fits p → Fits q → Fits (if b then p else q)
    if-Fits true p q h g = h
    if-Fits false p q h g = g

    forget-L1Faithful :
        (key : K) (l1 : Option (L1Cache K)) → L1Faithful l1 → L1Faithful (invalidate_l1 dec key l1)
    forget-L1Faithful key none h = tt
    forget-L1Faithful key (some c) h =
        invalidate-Every dec (IsFaithful d.codec d.config answer) key c h

    put-L1Faithful :
        (key : K) (bytes : Bytes) (l1 : Option (L1Cache K))
        → IsFaithful d.codec d.config answer key bytes
        → L1Faithful l1
        → L1Faithful (put_l1 dec d call key bytes l1)
    put-L1Faithful key bytes none good h = tt
    put-L1Faithful key [] (some c) good h = h
    put-L1Faithful key (b ∷ bytes) (some c) good h =
        put_bytes-Every dec (IsFaithful d.codec d.config answer) key (b ∷ bytes) call.l1_put_at
          (expiry_of call.l1_put_at c.ttl_buffer (redis_ttl d.ttl) none) c good h

    -- what an execution returns is right
    of_run :
        (run : Execution V)
        → ((v : V) → run ≡ returns v → v ≡ f call.args)
        → (v : V) → of_execution run ≡ returned v
        → v ≡ f call.args
    of_run (returns u) right v p = right v (ground arith)
    of_run (raises e) right v p = absurd (ground arith)

    run_uncached-Fits :
        (e : Error) (st : State K S) → IsSound st → Fits (run_uncached dec d call e st)
    unfolding run_uncached
    run_uncached-Fits e st h = (h, of_run call.first honest.first_right)

    -- a result that is an exception
    thrown-Fits :
        (st : State K S) (x : Exception) (n : ℕ)
        → IsSound st
        → Fits (st, record { result = thrown x; executions = n })
    thrown-Fits st x n h = (h, λ v p. absurd (ground arith))

    returned-Fits :
        (st : State K S) (v : V) (n : ℕ)
        → IsSound st
        → v ≡ f call.args
        → Fits (st, record { result = returned v; executions = n })
    returned-Fits st v n h right = (h, λ w p. ground arith)

    after_store-Fits :
        (key : K) (v : V) (r : Stored) (st : State K S)
        → v ≡ f call.args
        → ((b : Bytes) → r ≡ stored b → IsFaithful d.codec d.config answer key b)
        → IsSound st
        → Fits (after_store dec d call key v r st)
    unfolding after_store
    after_store-Fits key v (stored bytes) st right good h =
        ((h.0, put-L1Faithful key bytes st.l1_cache (good bytes refl) h.1), λ w p. ground arith)
    after_store-Fits key v not_stored st right good h = (h, λ w p. ground arith)
    after_store-Fits key v interop_raised st right good h = (h, λ w p. absurd (ground arith))

    store_value-Fits :
        (key : K) (v : V) (st : State K S)
        → answer key ≡ f call.args
        → v ≡ f call.args
        → IsSound st
        → Fits (store_value dec d call key v st)
    unfolding store_value
    store_value-Fits key v st same right h =
        let s = (st.store).backend_state in
        let p = store_result d.encoder d.config d.backend key v d.ttl call.args s in
        let q =
          store_result-Right d.codec d.config answer d.backend Holds law d.encoder key v d.ttl
            call.args s encodes (right ∙ sym same) h.0 in
        after_store-Fits key v p.1 (record st { store = record st.store { backend_state = p.0 } })
          right q.1 (q.0, h.1)

    after_run-Fits :
        (key : K) (r : Execution V) (st : State K S)
        → answer key ≡ f call.args
        → ((v : V) → r ≡ returns v → v ≡ f call.args)
        → IsSound st
        → Fits (after_run dec d call key r st)
    unfolding after_run
    after_run-Fits key (returns v) st same right h = store_value-Fits key v st same (right v refl) h
    after_run-Fits key (raises (backend_error t)) st same right h =
        (h, of_run call.second honest.second_right)
    after_run-Fits key (raises other_exception) st same right h = (h, λ w p. absurd (ground arith))

    on_miss-Fits :
        (key : K) (st : State K S)
        → answer key ≡ f call.args
        → IsSound st
        → Fits (on_miss dec d call key st)
    unfolding on_miss
    on_miss-Fits key st same h =
        after_run-Fits key call.first (record st { misses = st.misses + 1 }) same honest.first_right
          h

    after_lookup-Fits :
        (key : K) (r : Lookup V) (st : State K S)
        → answer key ≡ f call.args
        → ((v : V) → r ≡ hit v → v ≡ answer key)
        → IsSound st
        → Fits (after_lookup dec d call key r st)
    unfolding after_lookup
    after_lookup-Fits key (hit v) st same right h =
        returned-Fits (with_features record_success (record st { l2_hits = st.l2_hits + 1 })) v 0 h
          (right v refl ∙ same)
    after_lookup-Fits key miss st same right h = on_miss-Fits key st same h
    after_lookup-Fits key (raised auth_tamper) st same right h =
        thrown-Fits st decryption_authentication 0 h
    after_lookup-Fits key (raised suspicious_envelope) st same right h =
        run_uncached-Fits other_exception st h
    after_lookup-Fits key (raised corruption) st same right h =
        run_uncached-Fits other_exception st h
    after_lookup-Fits key (raised keyring_config) st same right h =
        run_uncached-Fits other_exception st h
    after_lookup-Fits key (raised value_error) st same right h =
        run_uncached-Fits other_exception st h
    after_lookup-Fits key (raised other_error) st same right h =
        run_uncached-Fits other_exception st h

    from_l2-Fits :
        (key : K) (st : State K S)
        → answer key ≡ f call.args
        → IsSound st
        → Fits (from_l2 dec d call key st)
    unfolding from_l2
    from_l2-Fits key st same h =
        let p = get_cached_value d.codec d.config d.backend call.hook_at key st.store in
        let q =
          get_cached_value-Right d.codec d.config answer d.backend Holds law call.hook_at key
            st.store h.0 in
        after_lookup-Fits key p.1 (record st { store = p.0 }) same q.1 (q.0, h.1)

    after_l1_error-Fits :
        (key : K) (e : ReadError) (st : State K S)
        → answer key ≡ f call.args
        → IsSound st
        → Fits (after_l1_error dec d call key e st)
    unfolding after_l1_error
    after_l1_error-Fits key e st same h = error_cases e
      where
        forgotten : IsSound (forget_l1 dec d call key st)
        forgotten = (h.0, forget-L1Faithful key st.l1_cache h.1)

        next : Fits (from_l2 dec d call key (forget_l1 dec d call key st))
        next = from_l2-Fits key (forget_l1 dec d call key st) same forgotten

        error_cases : (x : ReadError) → Fits (after_l1_error dec d call key x st)
        error_cases auth_tamper =
            elim (Bool-cases (handle_decrypt_failure d.config.fail_closed auth_tamper)) [
              | inl q ↦
                  rw q (
                    thrown-Fits (forget_l1 dec d call key st) decryption_authentication 0 forgotten)
              | inr q ↦ rw q next
            ]
        error_cases suspicious_envelope = next
        error_cases corruption = next
        error_cases keyring_config = thrown-Fits st keyring_configuration 0 h
        error_cases value_error = next
        error_cases other_error = next

    after_l1_read-Fits :
        (key : K) (r : ReadOutcome V) (st : State K S)
        → answer key ≡ f call.args
        → ((v : V) → r ≡ value v → v ≡ answer key)
        → IsSound st
        → Fits (after_l1_read dec d call key r st)
    unfolding after_l1_read
    after_l1_read-Fits key (value v) st same right h =
        returned-Fits (with_features record_success (record st { l1_hits = st.l1_hits + 1 })) v 0 h
          (right v refl ∙ same)
    after_l1_read-Fits key (failed e) st same right h = after_l1_error-Fits key e st same h

    after_l1-Fits :
        (key : K) (found : Option Bytes) (st : State K S)
        → answer key ≡ f call.args
        → ((b : Bytes) → found ≡ some b → IsFaithful d.codec d.config answer key b)
        → IsSound st
        → Fits (after_l1 dec d call key found st)
    unfolding after_l1
    after_l1-Fits key none st same right h = from_l2-Fits key st same h
    after_l1-Fits key (some []) st same right h = from_l2-Fits key st same h
    after_l1-Fits key (some (b ∷ bytes)) st same right h =
        after_l1_read-Fits key (deserialize_data d.codec d.config (b ∷ bytes) key) st same
          (right (b ∷ bytes) refl) h

    from_l1-Fits :
        (key : K) (l1 : Option (L1Cache K)) (st : State K S)
        → answer key ≡ f call.args
        → L1Faithful l1
        → IsSound st
        → Fits (from_l1 dec d call key l1 st)
    unfolding from_l1
    from_l1-Fits key none st same g h = from_l2-Fits key st same h
    from_l1-Fits key (some c) st same g h =
        let P = IsFaithful d.codec d.config answer in
        let p = get dec key call.l1_read_at c in
        after_l1-Fits key p.1 (record st { l1_cache = some p.0 }) same
          (λ b q. get_found dec P key call.l1_read_at c b g q)
          (h.0, get-Every dec P key call.l1_read_at c g)

    with_client-Fits :
        (key : K) (e : Option Error) (st : State K S)
        → answer key ≡ f call.args
        → IsSound st
        → Fits (with_client dec d call key e st)
    unfolding with_client
    with_client-Fits key (some e) st same h = run_uncached-Fits e st h
    with_client-Fits key none st same h = elim (Bool-cases (d.config.interop_mode && d.prefixed)) [
      | inl q ↦ rw q (thrown-Fits st interop_rejected 0 h)
      | inr q ↦ rw q (from_l1-Fits key st.l1_cache st same h.1 h)
    ]

    with_key-Fits :
        (key : Option K) (st : State K S)
        → ((k : K) → key ≡ some k → answer k ≡ f call.args)
        → IsSound st
        → Fits (with_key dec d call key st)
    unfolding with_key
    with_key-Fits none st same h =
        if-Fits d.config.interop_mode (st, without_run (thrown interop_rejected))
          (run_uncached dec d call other_exception st) (thrown-Fits st interop_rejected 0 h)
          (run_uncached-Fits other_exception st h)
    with_key-Fits (some key) st same h =
        elim (Bool-cases (should_allow_request st.store.features)) [
          | inl q ↦ rw q (with_client-Fits key call.client_error st (same key refl) h)
          | inr q ↦ rw q (run_uncached-Fits (backend_error transient) st h)
        ]

    -- A call keeps every entry faithful, and a value that it returns is the function's own.
    pub sync_wrapper-IsSound : (st : State K S) → IsSound st → Fits (sync_wrapper dec d call st)
    unfolding sync_wrapper
    sync_wrapper-IsSound st h = elim (Bool-cases call.bypass_cache) [
      | inl q ↦ rw q (h, of_run call.first honest.first_right)
      | inr q ↦ rw q (with_key-Fits call.cache_key st honest.key_right h)
    ]
