-- ===== src/Handler/Faithful.antt =====
-- Reads and writes of `CacheOperationHandler` (src/cachekit/cache_handler.py) over a backend that only
-- gives back what it was given: an entry that can be read stands for the answer to its key.
use cachekit_py.Common.{ℕ, Option, none, some, ◌≡◌, ◌≢◌, refl, sym, inl, inr, Bool-cases, arith}
use mathlib.Core.Path.{subst}
use cachekit_py.Handler.{
  Bytes, ReadError, auth_tamper, suspicious_envelope, corruption, keyring_config, value_error,
  other_error, ReadOutcome, value, failed, handle_decrypt_failure,
}
use cachekit_py.Handler.Backend.{Backend, IsBackend, Reply, done, fails, or_none}
use cachekit_py.Handler.Read.{
  Config, Codec, Store, Lookup, hit, miss, raised, deserialize_data, get_cached_value, lookup,
  read_bytes, on_read_error, handle_l2_read_error,
}
use cachekit_py.Handler.Store.{
  Encoder, Serialized, serialized, interop_error, serialization_failed, serialize_data, Stored,
  stored, store_result, store_bytes,
}

module _ {K V : Type 0} (codec : Codec K V) (config : Config) (answer : K → V) where
  -- what can be read from the bytes is the answer to the key
  abbrev pub IsFaithful : K → Bytes → Type 0
  IsFaithful key b = (v : V) → deserialize_data codec config b key ≡ value v → v ≡ answer key

  module _ {S : Type 0} (backend : Backend K S) (Holds : S → K → Bytes → Type 0) where
    abbrev pub HoldsFaithful : S → Type 0
    HoldsFaithful s = (key : K) (b : Bytes) → Holds s key b → IsFaithful key b

    abbrev pub ReadsRight : K → Store S × Lookup V → Type 0
    ReadsRight key p =
        HoldsFaithful ((p.0).backend_state) × ((v : V) → p.1 ≡ hit v → v ≡ answer key)

    -- no answer at all is a right one
    no_hit :
        (key : K) (st : Store S) (r : Lookup V)
        → HoldsFaithful st.backend_state
        → ((v : V) → r ≢ hit v)
        → ReadsRight key (st, r)
    no_hit key st r h n = (h, λ v p. absurd (n v p))

    module _ (law : IsBackend backend Holds) where
      tail-Right :
          (now : ℕ) (e : ReadError) (key : K) (st : Store S)
          → HoldsFaithful st.backend_state
          → ReadsRight key (handle_l2_read_error codec config backend now e key st)
      unfolding handle_l2_read_error
      tail-Right now e key st h = elim (Bool-cases (handle_decrypt_failure config.fail_closed e)) [
        | inl q ↦ rw q (no_hit key st (raised e) h (λ v p. absurd (ground arith)))
        | inr q ↦ rw q (
          (λ j b held. h j b (law.delete_keeps key st.backend_state j b held)),
          (λ v p. absurd (ground arith)),
        )
      ]

      on_error-Right :
          (now : ℕ) (e : ReadError) (key : K) (st : Store S)
          → HoldsFaithful st.backend_state
          → ReadsRight key (on_read_error codec config backend now e key st)
      unfolding on_read_error
      on_error-Right now auth_tamper key st h = tail-Right now auth_tamper key st h
      on_error-Right now suspicious_envelope key st h = tail-Right now suspicious_envelope key st h
      on_error-Right now corruption key st h = tail-Right now corruption key st h
      on_error-Right now keyring_config key st h =
          no_hit key st (raised keyring_config) h (λ v p. absurd (ground arith))
      on_error-Right now value_error key st h = no_hit key st miss h (λ v p. absurd (ground arith))
      on_error-Right now other_error key st h = no_hit key st miss h (λ v p. absurd (ground arith))

      lookup-Right :
          (now : ℕ) (key : K) (r : ReadOutcome V) (st : Store S)
          → HoldsFaithful st.backend_state
          → ((v : V) → r ≡ value v → v ≡ answer key)
          → ReadsRight key (lookup codec config backend now key r st)
      lookup-Right now key (value w) st h good = (h, λ v p. good v (ground arith))
      lookup-Right now key (failed e) st h good = on_error-Right now e key st h

      reply-Right :
          (now : ℕ) (key : K) (s : S) (st : Store S) (r : Reply (Option Bytes))
          → HoldsFaithful s
          → HoldsFaithful st.backend_state
          → (backend.get key s).1 ≡ r
          → ReadsRight key (read_bytes codec config backend now key (or_none r) st)
      reply-Right now key s st (fails e) h h' q =
          no_hit key st miss h' (λ v p. absurd (ground arith))
      reply-Right now key s st (done none) h h' q =
          no_hit key st miss h' (λ v p. absurd (ground arith))
      reply-Right now key s st (done (some b)) h h' q =
          lookup-Right now key (deserialize_data codec config b key) st h'
            (h key b (law.get_holds key s b q))

      -- A read leaves a backend whose entries are faithful, and a hit is the answer to the key.
      pub get_cached_value-Right :
          (now : ℕ) (key : K) (st : Store S)
          → HoldsFaithful st.backend_state
          → ReadsRight key (get_cached_value codec config backend now key st)
      unfolding get_cached_value
      get_cached_value-Right now key st h =
          let s = st.backend_state in
          reply-Right now key s (record st { backend_state = (backend.get key s).0 })
            (backend.get key s).1 h (λ j b held. h j b (law.get_keeps key s j b held)) refl

      -- what the encoder makes of the answer can only be read as the answer
      abbrev pub Encodes : {A : Type 0} → Encoder K V A → Type 0
      Encodes {A = A} encoder =
          (v : V) (args : A) (key : K) (b : Bytes)
          → v ≡ answer key
          → serialize_data encoder config v args key ≡ serialized b
          → IsFaithful key b

      abbrev pub StoredRight : K → S × Stored → Type 0
      StoredRight key p = HoldsFaithful p.0 × ((b : Bytes) → p.1 ≡ stored b → IsFaithful key b)

      bytes-Right :
          {A : Type 0} (encoder : Encoder K V A) (key : K) (ttl : Option ℕ) (r : Serialized Bytes)
          (s : S)
          → HoldsFaithful s
          → ((b : Bytes) → r ≡ serialized b → IsFaithful key b)
          → StoredRight key (store_bytes encoder config backend key ttl r s)
      unfolding store_bytes
      bytes-Right encoder key ttl interop_error s h good = (h, λ b p. absurd (ground arith))
      bytes-Right encoder key ttl serialization_failed s h good = (h, λ b p. absurd (ground arith))
      bytes-Right encoder key ttl (serialized bytes) s h good = (
        (λ j b held. elim (law.set_keeps key bytes ttl s j b held) [
          | inl old ↦ h j b old
          | inr (q, r) ↦
              subst (λ i. IsFaithful i b) (sym q)
                (subst (λ c. IsFaithful key c) (sym r) (good bytes refl))
        ]),
        (λ b p. good b (ground arith)),
      )

      pub store_result-Right :
          {A : Type 0} (encoder : Encoder K V A) (key : K) (v : V) (ttl : Option ℕ) (args : A)
          (s : S)
          → Encodes encoder
          → v ≡ answer key
          → HoldsFaithful s
          → StoredRight key (store_result encoder config backend key v ttl args s)
      unfolding store_result
      store_result-Right encoder key v ttl args s encodes right h =
          bytes-Right encoder key ttl (serialize_data encoder config v args key) s h
            (λ b. encodes v args key b right)
