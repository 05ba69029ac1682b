-- ===== src/Wrapper/Availability.antt =====
-- What a caller of `sync_wrapper` (src/cachekit/decorators/wrapper.py) can count on: that the cache
-- does not break the function, and how often the function is executed.
use cachekit_py.Common.{◌≤◌, false, ◌≡◌, ◌≢◌, refl, arith}
use mathlib.Core.Path.{subst}
use cachekit_py.Errors.{backend_error, BackendErrorType}
use cachekit_py.Handler.{Bytes, keyring_config, failed}
use cachekit_py.Handler.Read.{deserialize_data}
use cachekit_py.Handler.Store.{interop_error, serialize_data}
use cachekit_py.Wrapper.{returns, raises, returned, Outcome, Decorator, Call, State}
use cachekit_py.Wrapper.Calls.{sync_wrapper}
use cachekit_py.Wrapper.Endings.{
  Ending, cached, uncached, first_returned, first_raised, run_again, unauthentic, keyring_fault,
  refused, rejected, sync_wrapper-Ends,
}

module _ {K V A S : Type 0} (dec : Discrete K) (d : Decorator K V A S) (call : Call K V A) where
  abbrev pub Returns : Outcome V → Type 0
  Returns o = (w : V) × (o.result ≡ returned w)

  Ending-Returns :
      (start : State K S) (o : Outcome V) (v : V)
      → d.config.interop_mode ≡ false
      → d.config.fail_closed ≡ false
      → ((b : Bytes) (key : K) → deserialize_data d.codec d.config b key ≢ failed keyring_config)
      → ((key : K) → serialize_data d.encoder d.config v call.args key ≢ interop_error)
      → call.first ≡ returns v
      → Ending dec d call start o
      → Returns o
  Ending-Returns start o v plain lax ring encoder first (cached w e) = (w, ground arith)
  Ending-Returns start o v plain lax ring encoder first (uncached e) = (v, rw (e, first) refl)
  Ending-Returns start o v plain lax ring encoder first (first_returned w q e) =
      (v, rw (e, first) refl)
  Ending-Returns start o v plain lax ring encoder first (first_raised q e) = absurd (ground arith)
  Ending-Returns start o v plain lax ring encoder first (run_again t q e) = absurd (ground arith)
  Ending-Returns start o v plain lax ring encoder first (unauthentic key b g q r e) =
      absurd (ground arith)
  Ending-Returns start o v plain lax ring encoder first (keyring_fault key b g q e) =
      absurd (ring b key q)
  Ending-Returns start o v plain lax ring encoder first (refused q e) = absurd (ground arith)
  Ending-Returns start o v plain lax ring encoder first (rejected key w r q e) =
      let same : w ≡ v = ground arith in
      absurd (
        encoder key
          (subst (λ u. serialize_data d.encoder d.config u call.args key ≡ interop_error) same q))

  -- Outside interop mode and the fail-closed policy, with no fault of the keyring and no value that the
  -- encoder rejects as `InteropError`: where the function returns, the call returns. No state of the
  -- breaker, of L1 or of the backend, no exception of the backend, of a serializer or of the key's
  -- generation reaches the caller.
  pub always_returns :
      (st : State K S) (v : V)
      → d.config.interop_mode ≡ false
      → d.config.fail_closed ≡ false
      → ((b : Bytes) (key : K) → deserialize_data d.codec d.config b key ≢ failed keyring_config)
      → ((key : K) → serialize_data d.encoder d.config v call.args key ≢ interop_error)
      → call.first ≡ returns v
      → Returns (sync_wrapper dec d call st).1
  always_returns st v plain lax ring encoder first =
      Ending-Returns st (sync_wrapper dec d call st).1 v plain lax ring encoder first
        (sync_wrapper-Ends dec d call st)

  -- two executions only after a `BackendError` of the first
  abbrev pub IsBounded : Outcome V → Type 0
  IsBounded o =
      (o.executions ≤ 2)
      × (o.executions ≡ 2 → (t : BackendErrorType) × (call.first ≡ raises (backend_error t)))

  Ending-IsBounded : (start : State K S) (o : Outcome V) → Ending dec d call start o → IsBounded o
  Ending-IsBounded start o (cached w e) = (rw e (omega arith), λ q. absurd (ground arith))
  Ending-IsBounded start o (uncached e) = (rw e (omega arith), λ q. absurd (ground arith))
  Ending-IsBounded start o (first_returned w q e) = (rw e (omega arith), λ q. absurd (ground arith))
  Ending-IsBounded start o (first_raised q e) = (rw e (omega arith), λ q. absurd (ground arith))
  Ending-IsBounded start o (run_again t q e) = (rw e (omega arith), λ _. (t, q))
  Ending-IsBounded start o (unauthentic key b g q r e) =
      (rw e (omega arith), λ q. absurd (ground arith))
  Ending-IsBounded start o (keyring_fault key b g q e) =
      (rw e (omega arith), λ q. absurd (ground arith))
  Ending-IsBounded start o (refused q e) = (rw e (omega arith), λ q. absurd (ground arith))
  Ending-IsBounded start o (rejected key w r q e) = (rw e (omega arith), λ q. absurd (ground arith))

  -- A call executes the function at most twice, and twice only when the first execution raised a
  -- `BackendError` of its own.
  pub executions-IsBounded : (st : State K S) → IsBounded (sync_wrapper dec d call st).1
  executions-IsBounded st =
      Ending-IsBounded st (sync_wrapper dec d call st).1 (sync_wrapper-Ends dec d call st)
