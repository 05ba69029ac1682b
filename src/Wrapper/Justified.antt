-- ===== src/Wrapper/Justified.antt =====
-- src/cachekit/decorators/wrapper.py: which exception a call may end with, and what for.
use cachekit_py.Common.{true, ◌≡◌, ◌∙◌, sym, ap, arith, refl}
use cachekit_py.Errors.{Error, backend_error, BackendErrorType}
use cachekit_py.Handler.{Bytes, auth_tamper, keyring_config, failed}
use cachekit_py.Handler.Read.{deserialize_data}
use cachekit_py.Handler.Store.{interop_error, serialize_data}
use cachekit_py.Wrapper.{
  Exception, function_error, decryption_authentication, keyring_configuration, interop_rejected,
  Execution, returns, raises, Result, returned, thrown, Outcome, of_execution, Decorator, Call,
  State,
}
use cachekit_py.Wrapper.Endings.{
  IsGiven, Ending, cached, uncached, first_returned, first_raised, run_again, unauthentic,
  keyring_fault, refused, rejected,
}

module _ {K V A S : Type 0} (dec : Discrete K) (d : Decorator K V A S) (call : Call K V A)
    (start : State K S) where
  -- An exception of the function itself, from the first execution, or from the second after a
  -- `BackendError` of the first; or one of the cache, with its cause: bytes that L1 or the backend gave for the
  -- key of the call, interop mode, or a value that the encoder rejects.
  pub data Justified (x : Exception) : Type 0 where
    of_function : (e : Error) → call.first ≡ raises e → x ≡ function_error e → Justified x
    of_second_run :
        (t : BackendErrorType) (e : Error)
        → call.first ≡ raises (backend_error t)
        → call.second ≡ raises e
        → x ≡ function_error e
        → Justified x
    of_authentication :
        (key : K) (b : Bytes)
        → IsGiven dec d call start key b
        → d.config.fail_closed ≡ true
        → deserialize_data d.codec d.config b key ≡ failed auth_tamper
        → x ≡ decryption_authentication
        → Justified x
    of_keyring :
        (key : K) (b : Bytes)
        → IsGiven dec d call start key b
        → deserialize_data d.codec d.config b key ≡ failed keyring_config
        → x ≡ keyring_configuration
        → Justified x
    of_interop_mode : d.config.interop_mode ≡ true → x ≡ interop_rejected → Justified x
    of_encoder :
        (key : K) (v : V)
        → call.first ≡ returns v
        → serialize_data d.encoder d.config v call.args key ≡ interop_error
        → x ≡ interop_rejected
        → Justified x

  -- the function's own value for the arguments, or an exception that has its cause
  abbrev pub Allows : (A → V) → Result V → Type 0
  Allows f (returned v) = v ≡ f call.args
  Allows f (thrown x) = Justified x

  -- an exception that an execution ends with is the one it raised
  raised_by :
      (run : Execution V) (x : Exception)
      → of_execution run ≡ thrown x
      → (e : Error) × (run ≡ raises e) × (x ≡ function_error e)
  raised_by (returns v) x p = absurd (ground arith)
  raised_by (raises e) x p = (e, refl, ground arith)

  of_first : (x : Exception) → of_execution call.first ≡ thrown x → Justified x
  of_first x p = let (e, q, r) = raised_by call.first x p in of_function e q r

  Ending-Justified :
      (o : Outcome V) (x : Exception)
      → Ending dec d call start o
      → o.result ≡ thrown x
      → Justified x
  Ending-Justified o x (cached v e) p = absurd (ground arith)
  Ending-Justified o x (uncached e) p = of_first x (sym (ap (λ o'. o'.result) e) ∙ p)
  Ending-Justified o x (first_returned v q e) p = of_first x (sym (ap (λ o'. o'.result) e) ∙ p)
  Ending-Justified o x (first_raised q e) p = of_first x (sym (ap (λ o'. o'.result) e) ∙ p)
  Ending-Justified o x (run_again t q e) p =
      let (f, r, s) = raised_by call.second x (sym (ap (λ o'. o'.result) e) ∙ p) in
      of_second_run t f q r s
  Ending-Justified o x (unauthentic key b g on q e) p =
      of_authentication key b g on q (ground arith)
  Ending-Justified o x (keyring_fault key b g q e) p = of_keyring key b g q (ground arith)
  Ending-Justified o x (refused q e) p = of_interop_mode q (ground arith)
  Ending-Justified o x (rejected key v r q e) p = of_encoder key v r q (ground arith)

  -- the outcome of an ending is allowed, where a value that is returned is the function's
  pub allowed :
      (f : A → V) (r : Result V)
      → ((v : V) → r ≡ returned v → v ≡ f call.args)
      → ((x : Exception) → r ≡ thrown x → Justified x)
      → Allows f r
  allowed f (returned v) h j = h v refl
  allowed f (thrown x) h j = j x refl

  pub Ending-Allows :
      (f : A → V) (o : Outcome V)
      → Ending dec d call start o
      → ((v : V) → o.result ≡ returned v → v ≡ f call.args)
      → Allows f o.result
  Ending-Allows f o ending h = allowed f o.result h (λ x p. Ending-Justified o x ending p)
