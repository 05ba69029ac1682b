-- ===== src/Wrapper/Breaker.antt =====
-- src/cachekit/decorators/wrapper.py: what an open circuit breaker does to the calls of `sync_wrapper`.
use cachekit_py.Common.{
  Bool, true, false, not, List, [], ◌∷◌, map, Option, none, some, if◌then◌else◌, ◌≡◌, refl, arith,
  ◌∙◌,
}
use cachekit_py.Errors.{Error, backend_error, transient, other_exception}
use cachekit_py.Breaker.{on_failure}
use cachekit_py.Orchestrator.{
  FeatureOrchestrator, should_allow_request, record_failure, handle_cache_error,
}
use cachekit_py.Orchestrator.Latch.{HasOpenBreaker, failure-opened}
use cachekit_py.Wrapper.{
  thrown, Outcome, execute, Decorator, Call, State, without_run, interop_rejected,
}
use cachekit_py.Wrapper.Calls.{run_uncached, with_client, with_key, sync_wrapper}
use cachekit_py.Wrapper.Refines.{invoke, run}

module _ {K V A S : Type 0} (dec : Discrete K) (d : Decorator K V A S) where
  -- the call changed nothing but the orchestrator, whose breaker is open, and ran the function once
  Refused : Call K V A → State K S → State K S × Outcome V → Type 0
  Refused c st p =
      HasOpenBreaker p.0.store.features
      × (p.0.store.backend_state ≡ st.store.backend_state)
      × (p.0.l1_cache ≡ st.l1_cache)
      × (p.1 ≡ execute 0 c.first)

  uncached-Refused :
      (c : Call K V A) (e : Error) (st : State K S)
      → HasOpenBreaker st.store.features
      → Refused c st (run_uncached dec d c e st)
  unfolding Refused run_uncached handle_cache_error record_failure
  uncached-Refused c e st (b, p, s) = (
    (on_failure c.failed_at e b, ground arith, failure-opened c.failed_at e b s),
    refl,
    refl,
    refl,
  )

  open_refuses : (o : FeatureOrchestrator) → HasOpenBreaker o → should_allow_request o ≡ false
  unfolding should_allow_request
  open_refuses o (b, p, s) = ground arith

  if-Refused :
      (c : Call K V A) (st : State K S) (x : Bool) (p q : State K S × Outcome V)
      → (x ≡ true → Refused c st p)
      → (x ≡ false → Refused c st q)
      → Refused c st (if x then p else q)
  if-Refused c st true p q h g = h refl
  if-Refused c st false p q h g = g refl

  with_key-Refused :
      (c : Call K V A) (key : Option K) (st : State K S)
      → d.config.interop_mode ≡ false
      → HasOpenBreaker st.store.features
      → Refused c st (with_key dec d c key st)
  unfolding with_key
  with_key-Refused c none st plain h =
      if-Refused c st d.config.interop_mode (st, without_run (thrown interop_rejected))
        (run_uncached dec d c other_exception st) (λ q. absurd (ground arith))
        (λ q. uncached-Refused c other_exception st h)
  with_key-Refused c (some key) st plain h =
      if-Refused c st (not (should_allow_request st.store.features))
        (run_uncached dec d c (backend_error transient) st)
        (with_client dec d c key c.client_error st)
        (λ q. uncached-Refused c (backend_error transient) st h)
        (λ q. absurd (ground (arith, open_refuses st.store.features h)))

  sync_wrapper-Refused :
      (c : Call K V A) (st : State K S)
      → d.config.interop_mode ≡ false
      → HasOpenBreaker st.store.features
      → Refused c st (sync_wrapper dec d c st)
  unfolding sync_wrapper Refused
  sync_wrapper-Refused c st plain h =
      if-Refused c st c.bypass_cache (st, execute 0 c.first) (with_key dec d c c.cache_key st)
        (λ q. (h, refl, refl, refl)) (λ q. with_key-Refused c c.cache_key st plain h)

  -- Once the breaker of a decorated function is open, outside interop mode: over any further calls,
  -- however long the clocks say they take, each executes the function once and gives its result, L1
  -- and the backend are neither read nor written, and the breaker is open at the end as well.
  pub open_disables_cache :
      (calls : List (Call K V A)) (st : State K S)
      → d.config.interop_mode ≡ false
      → HasOpenBreaker st.store.features
      → HasOpenBreaker (run dec d (map invoke calls) st).0.store.features
        × ((run dec d (map invoke calls) st).0.store.backend_state ≡ st.store.backend_state)
        × ((run dec d (map invoke calls) st).0.l1_cache ≡ st.l1_cache)
        × ((run dec d (map invoke calls) st).1 ≡ map (λ c. execute 0 c.first) calls)
  unfolding run Refused
  open_disables_cache [] st plain h = (h, refl, refl, refl)
  open_disables_cache (c ∷ calls) st plain h =
      let (now, same, l1, out) = sync_wrapper-Refused c st plain h in
      let (end, backend, l1s, outs) =
        open_disables_cache calls (sync_wrapper dec d c st).0 plain now in
      (end, backend ∙ same, l1s ∙ l1, rw (out, outs) refl)
