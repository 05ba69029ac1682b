-- ===== src/Handler/Downgrade.antt =====
-- src/cachekit/cache_handler.py, `deserialize_data`: a handler with encryption never takes the
-- plaintext path, whatever the stored bytes claim.
use cachekit_py.Common.{
  Bool, true, false, ◌&&◌, not, [], ◌∷◌, Option, none, some, if◌then◌else◌, ◌≡◌, refl, arith,
}
use cachekit_py.Keys.{String}
use cachekit_py.Handler.{
  Bytes, ReadOutcome, value, failed, then_read, auth_tamper, suspicious_envelope, corruption,
  keyring_config, value_error, other_error,
}
use cachekit_py.Handler.Metadata.{Metadata, from_dict}
use cachekit_py.Handler.Frame.{Envelope, unwrap}
use cachekit_py.Handler.Read.{
  Config, Codec, deserialize_data, deserialize_interop, deserialize_envelope, deserialize_payload,
  decrypt_for, reraise, interop_document, interop_metadata, unknown_name,
}

module _ {K V : Type 0} (codec : Codec K V) (config : Config) where
  -- the value is a decryption, for the tenant of the envelope, or for the configured one
  pub data Decrypted (b : Bytes) (key : K) (v : V) : Type 0 where
    of_envelope :
        (tenant : String) (env : Envelope) (m : Metadata)
        → unwrap codec.parse_header codec.parse_legacy b ≡ value env
        → from_dict env.header.metadata ≡ value m
        → m.tenant_id ≡ some tenant
        → codec.decrypt tenant env.payload m key ≡ value v
        → Decrypted b key v
    of_document :
        (tenant : String)
        → config.deployment_uuid_value ≡ some tenant
        → codec.decrypt_without_key_identity tenant b (interop_metadata codec config tenant) key
          ≡ value v
        → Decrypted b key v

  reraise_value : {A : Type 0} (r : ReadOutcome A) (a : A) → reraise r ≡ value a → r ≡ value a
  reraise_value (value x) a p = p
  reraise_value (failed other_error) a p = absurd (ground arith)
  reraise_value (failed auth_tamper) a p = p
  reraise_value (failed suspicious_envelope) a p = p
  reraise_value (failed corruption) a p = p
  reraise_value (failed keyring_config) a p = p
  reraise_value (failed value_error) a p = p

  -- past the tests of the envelope, under encryption
  past_tests :
      (mismatch on encrypted : Bool) (x y : ReadOutcome V) (v : V)
      → on ≡ true
      → (if mismatch
          then failed corruption
          else if on && not encrypted
          then failed suspicious_envelope
          else if encrypted
          then x
          else y)
        ≡ value v
      → x ≡ value v
  past_tests true on encrypted x y v h p = absurd (ground arith)
  past_tests false on true x y v h p = ground arith
  past_tests false on false x y v h p = absurd (ground arith)

  for_tenant :
      (b : Bytes) (key : K) (v : V) (env : Envelope) (m : Metadata) (tenant : Option String)
      → unwrap codec.parse_header codec.parse_legacy b ≡ value env
      → from_dict env.header.metadata ≡ value m
      → m.tenant_id ≡ tenant
      → decrypt_for codec config tenant m env.payload key ≡ value v
      → Decrypted b key v
  for_tenant b key v env m none u d t p = absurd (ground arith)
  for_tenant b key v env m (some []) u d t p = absurd (ground arith)
  for_tenant b key v env m (some (c ∷ tenant)) u d t p = of_envelope (c ∷ tenant) env m u d t p

  payload-Decrypted :
      (b : Bytes) (key : K) (v : V) (env : Envelope) (r : ReadOutcome Metadata)
      → config.encryption ≡ true
      → unwrap codec.parse_header codec.parse_legacy b ≡ value env
      → from_dict env.header.metadata ≡ r
      → then_read r (deserialize_payload codec config key env.header.serializer_name env.payload)
        ≡ value v
      → Decrypted b key v
  unfolding deserialize_payload
  payload-Decrypted b key v env (failed e) on u d p = absurd (ground arith)
  payload-Decrypted b key v env (value m) on u d p = for_tenant b key v env m m.tenant_id u d refl (
      past_tests
        (not (codec.same_string env.header.serializer_name config.serializer_string_name)
          && not (codec.same_string env.header.serializer_name unknown_name))
        config.encryption m.encrypted (decrypt_for codec config m.tenant_id m env.payload key)
        (codec.deserialize env.payload (some m)) v on p)

  envelope-Decrypted :
      (b : Bytes) (key : K) (v : V) (env : Envelope)
      → config.encryption ≡ true
      → unwrap codec.parse_header codec.parse_legacy b ≡ value env
      → deserialize_envelope codec config key env ≡ value v
      → Decrypted b key v
  unfolding deserialize_envelope
  envelope-Decrypted b key v env on u p =
      payload-Decrypted b key v env (from_dict env.header.metadata) on u refl p

  document-Decrypted :
      (b : Bytes) (key : K) (v : V) (uuid : Option String)
      → config.deployment_uuid_value ≡ uuid
      → interop_document codec config uuid b key ≡ value v
      → Decrypted b key v
  document-Decrypted b key v none u p = absurd (ground arith)
  document-Decrypted b key v (some tenant) u p = of_document tenant u p

  interop-Decrypted :
      (b : Bytes) (key : K) (v : V)
      → config.encryption ≡ true
      → deserialize_interop codec config b key ≡ value v
      → Decrypted b key v
  unfolding deserialize_interop
  interop-Decrypted b key v on p =
      document-Decrypted b key v config.deployment_uuid_value refl (chosen config.encryption on p)
    where
      chosen :
          (e : Bool)
          → e ≡ true
          → reraise (
              if e
              then interop_document codec config config.deployment_uuid_value b key
              else codec.deserialize b none)
            ≡ value v
          → interop_document codec config config.deployment_uuid_value b key ≡ value v
      chosen true h q =
          reraise_value (interop_document codec config config.deployment_uuid_value b key) v q
      chosen false h q = absurd (ground arith)

  unwrapped :
      (b : Bytes) (key : K) (v : V) (r : ReadOutcome Envelope)
      → config.encryption ≡ true
      → unwrap codec.parse_header codec.parse_legacy b ≡ r
      → then_read r (deserialize_envelope codec config key) ≡ value v
      → Decrypted b key v
  unwrapped b key v (value env) on u p = envelope-Decrypted b key v env on u p
  unwrapped b key v (failed e) on u p = absurd (ground arith)

  -- With encryption on, every value that can be read from stored bytes, in either mode, is one that
  -- the decryption returned: for the tenant that the envelope names, or of the whole document for the
  -- configured tenant. No header leads to the plaintext deserializer.
  pub encrypted_only :
      (b : Bytes) (key : K) (v : V)
      → config.encryption ≡ true
      → deserialize_data codec config b key ≡ value v
      → Decrypted b key v
  unfolding deserialize_data
  encrypted_only b key v on p = mode config.interop_mode p
    where
      mode :
          (m : Bool)
          → (if m
              then deserialize_interop codec config b key
              else reraise (
                  then_read
                    (unwrap codec.parse_header codec.parse_legacy b)
                    (deserialize_envelope codec config key)))
            ≡ value v
          → Decrypted b key v
      mode true q = interop-Decrypted b key v on q
      mode false q =
          let u = unwrap codec.parse_header codec.parse_legacy b in
          unwrapped b key v u on refl
            (reraise_value (then_read u (deserialize_envelope codec config key)) v q)
