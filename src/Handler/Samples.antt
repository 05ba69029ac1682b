-- ===== src/Handler/Samples.antt =====
-- A dictionary as the backend, and a serializer and a cipher that keep the bytes: what the parameters
-- of the handler (src/cachekit/cache_handler.py) can be.
use cachekit_py.Common.{
  ℕ, Bool, true, false, [], ◌∷◌, Option, none, some, ◌==◌, if◌then◌else◌, length, ◌≡◌, refl, sym,
  arith, ◌⊎◌, ℕ_discrete,
}
use mathlib.Core.Path.{subst}
use cachekit_py.OrderedDict
use cachekit_py.OrderedDict.{OrderedDict}
use cachekit_py.OrderedDict.Laws.{get-pop, get-set}
use cachekit_py.Handler.{Bytes, ReadOutcome, value, failed, value_error, corruption}
use cachekit_py.Keys.{String}
use cachekit_py.Handler.Metadata.{Metadata, msgpack, utf_8, to_dict, IsPlain}
use cachekit_py.Handler.Frame.{Header}
use cachekit_py.Handler.Backend.{Backend, IsBackend, done}
use cachekit_py.Handler.Read.{Config, Codec, aes_256_gcm}
use cachekit_py.Handler.Store.{Encoder, Serialized, serialized}
use cachekit_py.Handler.RoundTrip.{IsCodec}
use cachekit_py.Handler.ReadBack.{Parses}

abbrev pub dict_backend : Backend ℕ (OrderedDict ℕ Bytes)
dict_backend = record {
  get = λ key s. (s, done (OrderedDict.get ℕ_discrete key s));
  set = λ key bytes ttl s. (OrderedDict.set ℕ_discrete key bytes s, done tt);
  delete = λ key s. (OrderedDict.pop ℕ_discrete key s, done true);
}

abbrev pub DictHolds : OrderedDict ℕ Bytes → ℕ → Bytes → Type 0
DictHolds s key b = OrderedDict.get ℕ_discrete key s ≡ some b

dict_set :
    (key : ℕ) (bytes : Bytes) (s : OrderedDict ℕ Bytes) (j : ℕ) (b : Bytes)
    → DictHolds (OrderedDict.set ℕ_discrete key bytes s) j b
    → DictHolds s j b ⊎ ((j ≡ key) × (b ≡ bytes))
dict_set key bytes s j b held = ground (arith, get-set ℕ_discrete key j bytes s)

dict_pop :
    (key : ℕ) (s : OrderedDict ℕ Bytes) (j : ℕ) (b : Bytes)
    → DictHolds (OrderedDict.pop ℕ_discrete key s) j b
    → DictHolds s j b
dict_pop key s j b held = ground (arith, get-pop ℕ_discrete key j s)

pub dict_backend-IsBackend : IsBackend dict_backend DictHolds
dict_backend-IsBackend = record {
  get_holds = λ key s b e. ground arith;
  get_keeps = λ key s j b h. h;
  set_keeps = λ key bytes ttl s j b h. dict_set key bytes s j b h;
  delete_keeps = λ key s j b h. dict_pop key s j b h;
}

-- the metadata without a tenant, and the one for the tenant `[1]`
abbrev pub sample_metadata : Bool → Metadata
sample_metadata encrypted = record {
  format = msgpack;
  encoding = utf_8;
  compressed = true;
  original_type = some (100 ∷ []);
  encrypted = encrypted;
  tenant_id = if encrypted then some (1 ∷ []) else none;
  encryption_algorithm = if encrypted then some aes_256_gcm else none;
  key_fingerprint = if encrypted then some (5 ∷ []) else none;
}

abbrev pub sample_header : Bool → Header
sample_header encrypted = record {
  serializer_name = 100 ∷ [];
  metadata = to_dict (sample_metadata encrypted);
}

abbrev pub parse_sample : Bytes → ReadOutcome Header
parse_sample [] = value (sample_header false)
parse_sample (b ∷ bytes) = value (sample_header true)

abbrev pub dump_flag : Option Bool → Bytes
dump_flag none = []
dump_flag (some b) = 7 ∷ []

-- the original type is needed where there is metadata
abbrev pub typed : Option String → Bytes → ReadOutcome Bytes
typed none bytes = failed corruption
typed (some t) bytes = value bytes

abbrev pub deserialize_sample : Bytes → Option Metadata → ReadOutcome Bytes
deserialize_sample bytes none = value bytes
deserialize_sample bytes (some m) = typed m.original_type bytes

abbrev pub sample_codec : Codec ℕ Bytes
sample_codec = record {
  parse_header = parse_sample;
  parse_legacy = λ bytes. failed value_error;
  same_string = λ a b. length a == length b;
  deserialize = deserialize_sample;
  decrypt = λ tenant payload m key. typed m.key_fingerprint payload;
  decrypt_without_key_identity = λ tenant payload m key. value payload;
}

abbrev pub sample_config : Bool → Bool → Config
sample_config interop encryption = record {
  interop_mode = interop;
  encryption = encryption;
  fail_closed = false;
  serializer_string_name = 100 ∷ [];
  deployment_uuid_value = some (1 ∷ []);
}

abbrev pub sample_encoder : Encoder ℕ Bytes ℕ
sample_encoder = record {
  serialize = λ v. serialized (sample_metadata false, v);
  encrypt = λ tenant v key. serialized (sample_metadata true, v);
  dump_header = λ h. dump_flag h.metadata.encrypted;
  tenant_extractor = none;
  max_value_size = 100;
}

-- what `serialize` and `encrypt` give, taken apart
same_pair :
    (m m' : Metadata) (p p' : Bytes)
    → ◌≡◌ {A = Serialized (Metadata × Bytes)} (serialized (m', p')) (serialized (m, p))
    → (m' ≡ m) × (p' ≡ p)
same_pair m m' p p' e = (ground arith, ground arith)

same_name : (name : String) → (length name == length name) ≡ true
same_name name = ground arith

pub sample-IsCodec :
    (interop encryption : Bool)
    → IsCodec sample_codec sample_encoder (sample_config interop encryption)
unfolding to_dict
sample-IsCodec interop encryption = record {
  same_name = same_name;
  plain_metadata = λ v m p e.
      let (a, b) = same_pair m (sample_metadata false) p v e in
      subst
        (λ m'.
          IsPlain m' × Parses sample_codec sample_encoder (sample_config interop encryption) m')
        a
        (
          record {
            no_encryption = refl;
            no_tenant = refl;
            no_algorithm = refl;
            no_fingerprint = refl;
          },
          refl,
        );
  plain_value =
      λ v m p e. let (a, b) = same_pair m (sample_metadata false) p v e in rw (sym a, sym b) refl;
  plain_document =
      λ v m p on e. let (a, b) = same_pair m (sample_metadata false) p v e in rw (sym b) refl;
  cipher_value = λ tenant v key m p e.
      let (a, b) = same_pair m (sample_metadata true) p v e in
      (
        1,
        [],
        subst (λ m'. Parses sample_codec sample_encoder (sample_config interop encryption) m') a
            refl,
        rw (sym a) refl,
        rw (sym a) refl,
        rw (sym a, sym b) refl,
      );
  cipher_document = λ tenant v key m p on e.
      let (a, b) = same_pair m (sample_metadata true) p v e in rw (sym b) refl;
}
