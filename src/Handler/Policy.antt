-- ===== src/Handler/Policy.antt =====
-- src/cachekit/cache_handler.py: when `get_cached_value` raises, and what it leaves behind.
use cachekit_py.Common.{
  ℕ, true, Option, none, some, ◌≡◌, refl, ap, ◌∙◌, ◌⊎◌, inl, inr, arith, Bool-cases,
}
use cachekit_py.Handler.{
  Bytes, ReadError, auth_tamper, suspicious_envelope, corruption, keyring_config, value_error,
  other_error, ReadOutcome, value, failed, handle_decrypt_failure,
}
use cachekit_py.Handler.Backend.{Backend, or_none}
use cachekit_py.Handler.Read.{
  Config, Codec, Store, Lookup, miss, raised, deserialize_data, get_cached_value, lookup,
  read_bytes, on_read_error, handle_l2_read_error,
}

module _ {K V S : Type 0} (codec : Codec K V) (config : Config) (backend : Backend K S) where
  -- an exception is a fault of the keyring, or a failed authentication under the policy
  abbrev pub IsGrave : ReadError → Type 0
  IsGrave e = (e ≡ keyring_config) ⊎ ((e ≡ auth_tamper) × (config.fail_closed ≡ true))

  Keeps : Store S → Store S × Lookup V → Type 0
  Keeps st p = (e : ReadError) → p.1 ≡ raised e → IsGrave e × (p.0 ≡ st)

  missed : (st st' : Store S) → Keeps st (st', miss)
  unfolding Keeps
  missed st st' e p = absurd (ground arith)

  tail-Keeps :
      (now : ℕ) (e : ReadError) (key : K) (st : Store S)
      → Keeps st (handle_l2_read_error codec config backend now e key st)
  unfolding Keeps handle_l2_read_error handle_decrypt_failure
  tail-Keeps now auth_tamper key st e p = elim (Bool-cases config.fail_closed) [
    | inl q ↦ (inr (ground arith, q), ground arith)
    | inr q ↦ absurd (ground arith)
  ]
  tail-Keeps now suspicious_envelope key st e p = absurd (ground arith)
  tail-Keeps now corruption key st e p = absurd (ground arith)
  tail-Keeps now keyring_config key st e p = absurd (ground arith)
  tail-Keeps now value_error key st e p = absurd (ground arith)
  tail-Keeps now other_error key st e p = absurd (ground arith)

  on_error-Keeps :
      (now : ℕ) (e : ReadError) (key : K) (st : Store S)
      → Keeps st (on_read_error codec config backend now e key st)
  unfolding Keeps on_read_error
  on_error-Keeps now auth_tamper key st e p = tail-Keeps now auth_tamper key st e p
  on_error-Keeps now suspicious_envelope key st e p = tail-Keeps now suspicious_envelope key st e p
  on_error-Keeps now corruption key st e p = tail-Keeps now corruption key st e p
  on_error-Keeps now keyring_config key st e p = (inl (ground arith), ground arith)
  on_error-Keeps now value_error key st e p = absurd (ground arith)
  on_error-Keeps now other_error key st e p = absurd (ground arith)

  lookup-Keeps :
      (now : ℕ) (key : K) (r : ReadOutcome V) (st : Store S)
      → Keeps st (lookup codec config backend now key r st)
  unfolding Keeps
  lookup-Keeps now key (value v) st e p = absurd (ground arith)
  lookup-Keeps now key (failed x) st e p = on_error-Keeps now x key st e p

  bytes-Keeps :
      (now : ℕ) (key : K) (bytes : Option Bytes) (st : Store S)
      → Keeps st (read_bytes codec config backend now key bytes st)
  unfolding Keeps
  bytes-Keeps now key none st e p = absurd (ground arith)
  bytes-Keeps now key (some b) st e p =
      lookup-Keeps now key (deserialize_data codec config b key) st e p

  -- Whatever the backend holds or raises, `get_cached_value` raises only for a fault of the keyring, or
  -- for a failed authentication when `fail_closed` is set. Then nothing but the read has happened:
  -- the entry is retained, and the orchestrator has recorded no failure.
  pub raises_only :
      (now : ℕ) (key : K) (st : Store S) (e : ReadError)
      → (get_cached_value codec config backend now key st).1 ≡ raised e
      → IsGrave e
        × ((get_cached_value codec config backend now key st).0
            ≡ record st { backend_state = (backend.get key st.backend_state).0 })
  unfolding Keeps get_cached_value
  raises_only now key st e p =
      let r = backend.get key st.backend_state in
      bytes-Keeps now key (or_none r.1) (record st { backend_state = r.0 }) e p

  -- what an exception of a read comes from: the bytes that were found, whose deserialization raised it
  abbrev pub ComesFrom : K → Option Bytes → Lookup V → Type 0
  ComesFrom key found r =
      (e : ReadError)
      → r ≡ raised e
      → (b : Bytes) × (found ≡ some b) × (deserialize_data codec config b key ≡ failed e)

  error_raises :
      (now : ℕ) (x : ReadError) (key : K) (st : Store S) (e : ReadError)
      → (on_read_error codec config backend now x key st).1 ≡ raised e
      → x ≡ e
  unfolding on_read_error handle_l2_read_error handle_decrypt_failure
  error_raises now auth_tamper key st e p = elim (Bool-cases config.fail_closed) [
    | inl q ↦ ground arith
    | inr q ↦ absurd (ground arith)
  ]
  error_raises now suspicious_envelope key st e p = absurd (ground arith)
  error_raises now corruption key st e p = absurd (ground arith)
  error_raises now keyring_config key st e p = ground arith
  error_raises now value_error key st e p = absurd (ground arith)
  error_raises now other_error key st e p = absurd (ground arith)

  lookup-ComesFrom :
      (now : ℕ) (key : K) (b : Bytes) (r : ReadOutcome V) (st : Store S)
      → deserialize_data codec config b key ≡ r
      → ComesFrom key (some b) (lookup codec config backend now key r st).1
  lookup-ComesFrom now key b (value v) st q e p = absurd (ground arith)
  lookup-ComesFrom now key b (failed x) st q e p =
      (b, refl, q ∙ ap failed (error_raises now x key st e p))

  bytes-ComesFrom :
      (now : ℕ) (key : K) (bytes : Option Bytes) (st : Store S)
      → ComesFrom key bytes (read_bytes codec config backend now key bytes st).1
  bytes-ComesFrom now key none st e p = absurd (ground arith)
  bytes-ComesFrom now key (some b) st e p =
      lookup-ComesFrom now key b (deserialize_data codec config b key) st refl e p

  pub get_cached_value-ComesFrom :
      (now : ℕ) (key : K) (st : Store S)
      → ComesFrom key
          (or_none (backend.get key st.backend_state).1)
          (get_cached_value codec config backend now key st).1
  unfolding get_cached_value
  get_cached_value-ComesFrom now key st =
      let r = backend.get key st.backend_state in
      bytes-ComesFrom now key (or_none r.1) (record st { backend_state = r.0 })
