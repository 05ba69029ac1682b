-- ===== src/Handler/Store.antt =====
-- src/cachekit/cache_handler.py: `CacheSerializationHandler.serialize_data` and the buffered path of
-- `CacheOperationHandler.store_result`. The serializer, the cipher and the extraction of a tenant are
-- parameters.
use cachekit_py.Common.{ℕ, Option, none, some, ltb, length, if◌then◌else◌}
use cachekit_py.Keys.{String}
use cachekit_py.Handler.{Bytes}
use cachekit_py.Handler.Metadata.{Metadata, to_dict}
use cachekit_py.Handler.Frame.{Header, wrap}
use cachekit_py.Handler.Backend.{Backend, handler_set}
use cachekit_py.Handler.Read.{Config}

-- `InteropError` passes the handlers that stop every other exception
pub data Serialized (A : Type 0) : Type 0 where
  serialized : A → Serialized A
  interop_error serialization_failed : Serialized A

-- The payload with its metadata, from the base serializer or from the encryption for a tenant; the JSON
-- of a header; and the tenant of the arguments, which may be missing. Without an extractor there is one
-- tenant.
pub record Encoder (K V A : Type 0) : Type 0 where
  pub serialize : V → Serialized (Metadata × Bytes)
  pub encrypt : String → V → K → Serialized (Metadata × Bytes)
  pub dump_header : Header → Bytes
  pub tenant_extractor : Option (A → Option String)
  pub max_value_size : ℕ

pub data Stored : Type 0 where
  stored : Bytes → Stored
  not_stored interop_raised : Stored

module _ {K V A : Type 0} (encoder : Encoder K V A) (config : Config) where
  abbrev pub tenant_of : Option (A → Option String) → A → Option String
  tenant_of none args = config.deployment_uuid_value
  tenant_of (some extract) args = extract args

  abbrev pub encrypt_for : Option String → V → K → Serialized (Metadata × Bytes)
  encrypt_for none v key = serialization_failed
  encrypt_for (some tenant) v key = encoder.encrypt tenant v key

  -- what is stored: the document itself, or the frame around it
  abbrev pub framed : Option Bytes → Serialized Bytes
  framed none = serialization_failed
  framed (some frame) = serialized frame

  abbrev pub header_of : Metadata → Header
  header_of m = record { serializer_name = config.serializer_string_name; metadata = to_dict m }

  unfoldable pub wrapped : Serialized (Metadata × Bytes) → Serialized Bytes
  wrapped interop_error = interop_error
  wrapped serialization_failed = serialization_failed
  wrapped (serialized (metadata, payload)) =
      if config.interop_mode
      then serialized payload
      else framed (wrap (encoder.dump_header (header_of metadata)) payload)

  -- the ceiling of an entry
  unfoldable pub limited : Serialized Bytes → Serialized Bytes
  limited interop_error = interop_error
  limited serialization_failed = serialization_failed
  limited (serialized bytes) =
      if ltb encoder.max_value_size (length bytes) then serialization_failed else serialized bytes

  unfoldable pub serialize_data : V → A → K → Serialized Bytes
  unfolding wrapped limited
  serialize_data v args key = limited (
      wrapped (
        if config.encryption
        then encrypt_for (tenant_of encoder.tenant_extractor args) v key
        else encoder.serialize v))

  module _ {S : Type 0} (backend : Backend K S) where
    -- whatever `set` answers, the bytes are the result
    unfoldable pub store_bytes : K → Option ℕ → Serialized Bytes → S → S × Stored
    store_bytes key ttl interop_error s = (s, interop_raised)
    store_bytes key ttl serialization_failed s = (s, not_stored)
    store_bytes key ttl (serialized bytes) s =
        ((handler_set backend key bytes ttl s).0, stored bytes)

    -- `store_result`
    unfoldable pub store_result : K → V → Option ℕ → A → S → S × Stored
    unfolding store_bytes
    store_result key v ttl args s = store_bytes key ttl (serialize_data v args key) s
