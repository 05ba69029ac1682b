-- ===== src/Handler/Tests.antt =====
-- Reads and writes of the handler at concrete bytes, and its theorems at inputs where their hypotheses
-- hold.
use cachekit_py.Common.{ℕ, true, false, [], ◌∷◌, none, some, inl, ◌≡◌, refl, ℕ_discrete}
use cachekit_py.Orchestrator.{handle_cache_error}
use cachekit_py.OrderedDict
use cachekit_py.OrderedDict.{OrderedDict}
use cachekit_py.Handler.{
  Bytes, value, failed, auth_tamper, value_error, suspicious_envelope, handle_decrypt_failure,
}
use cachekit_py.Handler.Metadata.{from_dict, to_dict, from_dict-to_dict}
use cachekit_py.Handler.Frame.{unwrap, unwrap_frame, wrap}
use cachekit_py.Handler.Read.{
  Config, Codec, Store, raised, deserialize_data, deserialize_interop, deserialize_envelope,
  deserialize_payload, get_cached_value, on_read_error, handle_l2_read_error,
}
use cachekit_py.Handler.Store.{serialized, serialize_data, wrapped, limited}
use cachekit_py.Handler.Samples.{
  dict_backend, sample_codec, sample_config, sample_encoder, sample-IsCodec, sample_header,
  sample_metadata, parse_sample,
}
use cachekit_py.Handler.RoundTrip.{serialize-deserialize}
use cachekit_py.Handler.Downgrade.{Decrypted, encrypted_only}
use cachekit_py.Handler.Policy.{IsGrave, raises_only}

program : Unit {0}
unfolding deserialize_data deserialize_interop deserialize_envelope deserialize_payload from_dict
    to_dict unwrap unwrap_frame wrap serialize_data wrapped limited get_cached_value on_read_error
    handle_l2_read_error handle_decrypt_failure handle_cache_error OrderedDict.get OrderedDict.pop
    ℕ_discrete
program = tt

-- `CK`, the version, the length 0 of the header, and the payload
abbrev plain_frame : Bytes
plain_frame = 67 ∷ 75 ∷ 3 ∷ 0 ∷ 0 ∷ 0 ∷ 0 ∷ 9 ∷ 8 ∷ []

-- a header of one byte
abbrev cipher_frame : Bytes
cipher_frame = 67 ∷ 75 ∷ 3 ∷ 0 ∷ 0 ∷ 0 ∷ 1 ∷ 7 ∷ 9 ∷ 8 ∷ []

plain_frame_made : wrap [] (9 ∷ 8 ∷ []) ≡ some plain_frame
unfolding program
plain_frame_made = refl

plain_frame_read :
    deserialize_data sample_codec (sample_config false false) plain_frame 3 ≡ value (9 ∷ 8 ∷ [])
unfolding program
plain_frame_read = refl

plain_frame_refused :
    deserialize_data sample_codec (sample_config false true) plain_frame 3
    ≡ failed suspicious_envelope
unfolding program
plain_frame_refused = refl

truncated_frame :
    deserialize_data sample_codec (sample_config false true) (67 ∷ 75 ∷ 3 ∷ 0 ∷ []) 3
    ≡ failed value_error
unfolding program
truncated_frame = refl

plain_frame_unwrapped :
    unwrap parse_sample (λ bytes. failed value_error) plain_frame
    ≡ value (record { header = sample_header false; payload = 9 ∷ 8 ∷ [] })
unfolding program
plain_frame_unwrapped = refl

cipher_stored :
    serialize_data sample_encoder (sample_config false true) (9 ∷ 8 ∷ []) 0 3
    ≡ serialized cipher_frame
unfolding program
cipher_stored = refl

serialize-deserialize_example :
    deserialize_data sample_codec (sample_config false true) cipher_frame 3 ≡ value (9 ∷ 8 ∷ [])
serialize-deserialize_example =
    serialize-deserialize sample_codec sample_encoder (sample_config false true)
      (sample-IsCodec false true) (9 ∷ 8 ∷ []) 0 3 cipher_frame (λ e. refl) cipher_stored

encrypted_only_example :
    Decrypted sample_codec (sample_config false true) cipher_frame 3 (9 ∷ 8 ∷ [])
encrypted_only_example =
    encrypted_only sample_codec (sample_config false true) cipher_frame 3 (9 ∷ 8 ∷ []) refl
      serialize-deserialize_example

-- a cipher that finds every entry tampered with, under the policy that lets no such entry pass
abbrev tampered : Codec ℕ Bytes
tampered = record sample_codec { decrypt = λ tenant payload m key. failed auth_tamper }

abbrev closed_config : Config
closed_config = record (sample_config false true) { fail_closed = true }

abbrev holding : Bytes → Store (OrderedDict ℕ Bytes)
holding b = record { backend_state = (3, b) ∷ []; features = record { circuit_breaker = none } }

tampered_raises :
    (get_cached_value tampered closed_config dict_backend 5 3 (holding cipher_frame)).1
    ≡ raised auth_tamper
unfolding program
tampered_raises = refl

raises_only_example :
    IsGrave tampered closed_config dict_backend auth_tamper
    × ((get_cached_value tampered closed_config dict_backend 5 3 (holding cipher_frame)).0
        ≡ holding cipher_frame)
raises_only_example =
    raises_only tampered closed_config dict_backend 5 3 (holding cipher_frame) auth_tamper
      tampered_raises

-- the original type and the identity of the key are there again
from_dict-to_dict_example :
    from_dict (to_dict (sample_metadata true)) ≡ value (sample_metadata true)
from_dict-to_dict_example = from_dict-to_dict (sample_metadata true) (inl refl)
