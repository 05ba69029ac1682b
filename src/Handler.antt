-- ===== src/Handler.antt =====
-- src/cachekit/cache_handler.py: how bytes of the backend become values and values bytes, with the
-- policy for entries that cannot be read. The ciphers and the serializers are parameters, and so is
-- what a backend does. The zero-copy and the streaming fast path, the log lines and the counters are
-- left out.
pub mod Metadata
pub mod Frame
pub mod Backend
pub mod Read
pub mod Store
pub mod Downgrade
pub mod Policy
pub mod Faithful
pub mod ReadBack
pub mod RoundTrip
pub mod Samples
mod Tests
use cachekit_py.Common.{
  ℕ, Bool, true, false, ◌&&◌, ◌||◌, not, List, Option, none, some, if◌then◌else◌,
}

abbrev pub Bytes : Type 0
Bytes = List ℕ

-- The exceptions of a read: the failed authentication of a ciphertext, the inconsistent envelope, any
-- other `SerializationError`, the keyring fault, which is a `ValueError`, another `ValueError`, and
-- any other exception.
pub data ReadError : Type 0 where
  auth_tamper suspicious_envelope corruption keyring_config value_error other_error : ReadError

pub data ReadOutcome (A : Type 0) : Type 0 where
  value : A → ReadOutcome A
  failed : ReadError → ReadOutcome A

abbrev pub then_read : {A B : Type 0} → ReadOutcome A → (A → ReadOutcome B) → ReadOutcome B
then_read (value a) f = f a
then_read (failed e) f = failed e

-- `isinstance(e, SerializationError)`
abbrev pub is_serialization_error : ReadError → Bool
is_serialization_error auth_tamper = true
is_serialization_error suspicious_envelope = true
is_serialization_error corruption = true
is_serialization_error keyring_config = false
is_serialization_error value_error = false
is_serialization_error other_error = false

-- `handle_decrypt_failure`: does it raise the error again
unfoldable pub handle_decrypt_failure : Bool → ReadError → Bool
handle_decrypt_failure fail_closed auth_tamper = fail_closed
handle_decrypt_failure fail_closed _ = false
