-- ===== src/Handler/Metadata.antt =====
-- src/cachekit/serializers/base.py: `SerializationMetadata`, and the dictionary that is stored of it.
use cachekit_py.Common.{
  Bool, true, false, [], ◌∷◌, Option, none, some, if◌then◌else◌, ◌≡◌, ◌⊎◌, inl, inr, refl,
}
use cachekit_py.Keys.{String}
use cachekit_py.Handler.{ReadOutcome, value, failed, value_error, other_error}

pub data SerializationFormat : Type 0 where
  msgpack orjson arrow : SerializationFormat

pub record Metadata : Type 0 where
  pub format : SerializationFormat
  pub encoding : String
  pub compressed : Bool
  pub original_type : Option String
  pub encrypted : Bool
  pub tenant_id : Option String
  pub encryption_algorithm : Option String
  pub key_fingerprint : Option String

-- the item `format` of a dictionary: a name of the enumeration, another one, or none
pub data FormatItem : Type 0 where
  named : SerializationFormat → FormatItem
  unknown_name no_item : FormatItem

-- the dictionary, with the items that the code looks up; `none` is a missing one, and where the value
-- may be `None` also that
pub record MetadataDict : Type 0 where
  pub format : FormatItem
  pub encoding : Option String
  pub compressed : Option Bool
  pub original_type : Option String
  pub encrypted : Option Bool
  pub tenant_id : Option String
  pub encryption_algorithm : Option String
  pub key_fingerprint : Option String

-- `to_dict`
unfoldable pub to_dict : Metadata → MetadataDict
to_dict m = record {
  format = named m.format;
  encoding = some m.encoding;
  compressed = some m.compressed;
  original_type = m.original_type;
  encrypted = if m.encrypted then some true else none;
  tenant_id = if m.encrypted then m.tenant_id else none;
  encryption_algorithm = if m.encrypted then m.encryption_algorithm else none;
  key_fingerprint = if m.encrypted then m.key_fingerprint else none;
}

-- `data.get` with a default
abbrev pub get_or : {A : Type 0} → A → Option A → A
get_or default none = default
get_or default (some a) = a

-- `"utf-8"`
abbrev pub utf_8 : String
utf_8 = 117 ∷ 116 ∷ 102 ∷ 45 ∷ 56 ∷ []

-- the fields besides the format
abbrev pub with_format : SerializationFormat → MetadataDict → Metadata
with_format f items = record {
  format = f;
  encoding = get_or utf_8 items.encoding;
  compressed = get_or false items.compressed;
  original_type = items.original_type;
  encrypted = get_or false items.encrypted;
  tenant_id = items.tenant_id;
  encryption_algorithm = items.encryption_algorithm;
  key_fingerprint = items.key_fingerprint;
}

abbrev pub format_of : FormatItem → MetadataDict → ReadOutcome Metadata
format_of (named f) items = value (with_format f items)
format_of unknown_name items = failed value_error
format_of no_item items = failed other_error

-- `from_dict`: a missing format is a `KeyError`, an unknown one a `ValueError`
unfoldable pub from_dict : MetadataDict → ReadOutcome Metadata
from_dict items = format_of items.format items

-- metadata that says of an unencrypted payload only what `to_dict` stores
pub record IsPlain (m : Metadata) : Type 0 where
  pub no_encryption : m.encrypted ≡ false
  pub no_tenant : m.tenant_id ≡ none
  pub no_algorithm : m.encryption_algorithm ≡ none
  pub no_fingerprint : m.key_fingerprint ≡ none

-- Every field of the metadata comes back from the dictionary, for an encrypted payload, and for a plain
-- one without the fields of an encryption.
pub from_dict-to_dict :
    (m : Metadata) → (m.encrypted ≡ true) ⊎ IsPlain m → from_dict (to_dict m) ≡ value m
unfolding from_dict to_dict
from_dict-to_dict m (inl e) = rw e refl
from_dict-to_dict m (inr p) =
    rw (p.no_encryption, p.no_tenant, p.no_algorithm, p.no_fingerprint) refl
