-- ===== src/Handler/Read.antt =====
-- src/cachekit/cache_handler.py: `CacheSerializationHandler.deserialize_data` and the reads of
-- `CacheOperationHandler` over a backend. The hook of the orchestrator that a read error reaches,
-- `handle_cache_error`, is applied to the orchestrator that the state carries.
use cachekit_py.Common.{ℕ, Bool, true, false, ◌&&◌, not, [], ◌∷◌, Option, none, some, if◌then◌else◌}
use cachekit_py.Errors.{other_exception}
use cachekit_py.Keys.{String}
use cachekit_py.Orchestrator.{FeatureOrchestrator, handle_cache_error}
use cachekit_py.Handler.{
  Bytes, ReadError, auth_tamper, suspicious_envelope, corruption, keyring_config, value_error,
  other_error, ReadOutcome, value, failed, then_read, handle_decrypt_failure,
}
use cachekit_py.Handler.Metadata.{Metadata, msgpack, utf_8, from_dict}
use cachekit_py.Handler.Frame.{Header, Envelope, unwrap}
use cachekit_py.Handler.Backend.{Backend, handler_get, handler_delete}

-- how the handler is set up
pub record Config : Type 0 where
  pub interop_mode : Bool
  pub encryption : Bool
  pub fail_closed : Bool
  pub serializer_string_name : String
  pub deployment_uuid_value : Option String

-- What the handler calls: the JSON of a header, the older envelope, `==` on strings, the base serializer,
-- with the metadata or without, and the decryption for a tenant with the key's identity in the metadata,
-- or without it.
pub record Codec (K V : Type 0) : Type 0 where
  pub parse_header : Bytes → ReadOutcome Header
  pub parse_legacy : Bytes → ReadOutcome Envelope
  pub same_string : String → String → Bool
  pub deserialize : Bytes → Option Metadata → ReadOutcome V
  pub decrypt : String → Bytes → Metadata → K → ReadOutcome V
  pub decrypt_without_key_identity : String → Bytes → Metadata → K → ReadOutcome V

-- `"unknown"`
abbrev pub unknown_name : String
unknown_name = 117 ∷ 110 ∷ 107 ∷ 110 ∷ 111 ∷ 119 ∷ 110 ∷ []

-- `"AES-256-GCM"`
abbrev pub aes_256_gcm : String
aes_256_gcm = 65 ∷ 69 ∷ 83 ∷ 45 ∷ 50 ∷ 53 ∷ 54 ∷ 45 ∷ 71 ∷ 67 ∷ 77 ∷ []

-- any exception that is neither a `ValueError` nor a `SerializationError` becomes the latter
abbrev pub reraise : {A : Type 0} → ReadOutcome A → ReadOutcome A
reraise (failed other_error) = failed corruption
reraise r = r

module _ {K V : Type 0} (codec : Codec K V) (config : Config) where
  -- the authenticated path; no tenant and the empty one are refused
  abbrev pub decrypt_for : Option String → Metadata → Bytes → K → ReadOutcome V
  decrypt_for none m payload key = failed suspicious_envelope
  decrypt_for (some []) m payload key = failed suspicious_envelope
  decrypt_for (some (c ∷ tenant)) m payload key = codec.decrypt (c ∷ tenant) payload m key

  -- the tests of the envelope, and the deserialization with its metadata
  unfoldable pub deserialize_payload : K → String → Bytes → Metadata → ReadOutcome V
  deserialize_payload key serializer_name payload m =
      if not (codec.same_string serializer_name config.serializer_string_name)
        && not (codec.same_string serializer_name unknown_name)
      then failed corruption
      else if config.encryption && not m.encrypted
      then failed suspicious_envelope
      else if m.encrypted
      then decrypt_for m.tenant_id m payload key
      else codec.deserialize payload (some m)

  unfoldable pub deserialize_envelope : K → Envelope → ReadOutcome V
  unfolding deserialize_payload
  deserialize_envelope key env =
      then_read (from_dict env.header.metadata)
        (deserialize_payload key env.header.serializer_name env.payload)

  -- the metadata that stands for what an interop entry does not carry
  abbrev pub interop_metadata : String → Metadata
  interop_metadata uuid = record {
    format = msgpack;
    encoding = utf_8;
    compressed = false;
    original_type = none;
    encrypted = true;
    tenant_id = some uuid;
    encryption_algorithm = some aes_256_gcm;
    key_fingerprint = none;
  }

  -- `_deserialize_interop`
  abbrev pub interop_document : Option String → Bytes → K → ReadOutcome V
  interop_document none bytes key = failed corruption
  interop_document (some uuid) bytes key =
      codec.decrypt_without_key_identity uuid bytes (interop_metadata uuid) key

  unfoldable pub deserialize_interop : Bytes → K → ReadOutcome V
  deserialize_interop bytes key = reraise (
      if config.encryption
      then interop_document config.deployment_uuid_value bytes key
      else codec.deserialize bytes none)

  unfoldable pub deserialize_data : Bytes → K → ReadOutcome V
  unfolding deserialize_interop deserialize_envelope
  deserialize_data bytes key =
      if config.interop_mode
      then deserialize_interop bytes key
      else reraise (
          then_read (unwrap codec.parse_header codec.parse_legacy bytes) (deserialize_envelope key))

-- the backend with what it keeps, and the orchestrator
pub record Store (S : Type 0) : Type 0 where
  pub backend_state : S
  pub features : FeatureOrchestrator

-- a hit, a miss, or the exception that `get_cached_value` lets pass
pub data Lookup (V : Type 0) : Type 0 where
  hit : V → Lookup V
  miss : Lookup V
  raised : ReadError → Lookup V

module _ {K V S : Type 0} (codec : Codec K V) (config : Config) (backend : Backend K S) where
  -- `_handle_l2_read_error`: the policy, then the eviction and the hook
  unfoldable pub handle_l2_read_error : ℕ → ReadError → K → Store S → Store S × Lookup V
  handle_l2_read_error now e key st =
      if handle_decrypt_failure config.fail_closed e then (st, raised e) else (
        record {
          backend_state = (handler_delete backend key st.backend_state).0;
          features = handle_cache_error now other_exception st.features;
        },
        miss,
      )

  -- the handlers of the exceptions of `get_cached_value`
  unfoldable pub on_read_error : ℕ → ReadError → K → Store S → Store S × Lookup V
  unfolding handle_l2_read_error
  on_read_error now auth_tamper key st = handle_l2_read_error now auth_tamper key st
  on_read_error now suspicious_envelope key st = handle_l2_read_error now suspicious_envelope key st
  on_read_error now corruption key st = handle_l2_read_error now corruption key st
  on_read_error now keyring_config key st = (st, raised keyring_config)
  on_read_error now value_error key st = (st, miss)
  on_read_error now other_error key st = (st, miss)

  abbrev pub lookup : ℕ → K → ReadOutcome V → Store S → Store S × Lookup V
  lookup now key (value v) st = (st, hit v)
  lookup now key (failed e) st = on_read_error now e key st

  abbrev pub read_bytes : ℕ → K → Option Bytes → Store S → Store S × Lookup V
  read_bytes now key none st = (st, miss)
  read_bytes now key (some bytes) st = lookup now key (deserialize_data codec config bytes key) st

  -- `get_cached_value`; `now` is the clock of the hook
  unfoldable pub get_cached_value : ℕ → K → Store S → Store S × Lookup V
  get_cached_value now key st =
      let (s, bytes) = handler_get backend key st.backend_state in
      read_bytes now key bytes (record st { backend_state = s })
