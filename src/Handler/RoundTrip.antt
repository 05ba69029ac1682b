-- ===== src/Handler/RoundTrip.antt =====
-- src/cachekit/cache_handler.py: what `serialize_data` makes of a value, `deserialize_data` reads as that
-- value, in every configuration, where the serializer and the cipher take back what they give.
use cachekit_py.Common.{
  ℕ, true, false, ◌∷◌, Option, none, some, if◌then◌else◌, ◌≡◌, ap, refl, arith, sym, ◌∙◌, inl, inr,
}
use cachekit_py.Keys.{String}
use cachekit_py.Handler.{Bytes, value}
use cachekit_py.Handler.Metadata.{Metadata, IsPlain}
use cachekit_py.Handler.Read.{Config, Codec, deserialize_data, interop_document, interop_metadata}
use cachekit_py.Handler.ReadBack.{
  if_yes, if_no, by_encryption, unlimited, wrapped_from, for_some_tenant, Parses, reads_document,
  reads_frame, reads_cipher, reads_plain, IsStoredAs,
}
use cachekit_py.Handler.Store.{Encoder, serialized, serialize_data, wrapped, tenant_of, encrypt_for}

-- What the base serializer, the cipher and JSON promise. The metadata of a plain payload says nothing of an
-- encryption, that of a ciphertext that it is one, and for which tenant; that tenant is not the empty
-- string. In interop mode the payload is read without the metadata it was made with.
pub record IsCodec {K V A : Type 0} (codec : Codec K V) (encoder : Encoder K V A) (config : Config)
    : Type 0 where
  pub same_name : (name : String) → codec.same_string name name ≡ true
  pub plain_metadata :
      (v : V) (m : Metadata) (p : Bytes)
      → encoder.serialize v ≡ serialized (m, p)
      → IsPlain m × Parses codec encoder config m
  pub plain_value :
      (v : V) (m : Metadata) (p : Bytes)
      → encoder.serialize v ≡ serialized (m, p)
      → codec.deserialize p (some m) ≡ value v
  pub plain_document :
      (v : V) (m : Metadata) (p : Bytes)
      → config.interop_mode ≡ true
      → encoder.serialize v ≡ serialized (m, p)
      → codec.deserialize p none ≡ value v
  pub cipher_value :
      (tenant : String) (v : V) (key : K) (m : Metadata) (p : Bytes)
      → encoder.encrypt tenant v key ≡ serialized (m, p)
      → (c : ℕ) × (rest : String) × Parses codec encoder config m
        × (m.encrypted ≡ true)
        × (m.tenant_id ≡ some (c ∷ rest))
        × (codec.decrypt (c ∷ rest) p m key ≡ value v)
  pub cipher_document :
      (tenant : String) (v : V) (key : K) (m : Metadata) (p : Bytes)
      → config.interop_mode ≡ true
      → encoder.encrypt tenant v key ≡ serialized (m, p)
      → codec.decrypt_without_key_identity tenant p (interop_metadata codec config tenant) key
        ≡ value v

module _ {K V A : Type 0} (codec : Codec K V) (encoder : Encoder K V A) (config : Config)
    (law : IsCodec codec encoder config) where
  interop_tenant :
      (t : Option (A → Option String)) (args : A)
      → t ≡ none
      → tenant_of encoder config t args ≡ config.deployment_uuid_value
  interop_tenant none args e = refl
  interop_tenant (some x) args e = absurd (ground arith)

  cipher_round_trip :
      (v : V) (args : A) (key : K) (m : Metadata) (p b : Bytes)
      → (config.interop_mode ≡ true → encoder.tenant_extractor ≡ none)
      → config.encryption ≡ true
      → encrypt_for encoder config (tenant_of encoder config encoder.tenant_extractor args) v key
        ≡ serialized (m, p)
      → IsStoredAs codec encoder config m p b
      → deserialize_data codec config b key ≡ value v
  cipher_round_trip v args key m p b single on e (inl (inter, q)) =
      let t = tenant_of encoder config encoder.tenant_extractor args in
      let (tenant, s, x) = for_some_tenant codec encoder config t v key (m, p) e in
      let uuid : config.deployment_uuid_value ≡ some tenant =
        sym (interop_tenant encoder.tenant_extractor args (single inter)) ∙ s in
      reads_document codec encoder config v key b inter (
        if_yes config.encryption (interop_document codec config config.deployment_uuid_value b key)
          (codec.deserialize b none) on
        ∙ ap (λ u. interop_document codec config u b key) uuid
        ∙ ap (λ c. interop_document codec config (some tenant) c key) q
        ∙ law.cipher_document tenant v key m p inter x)
  cipher_round_trip v args key m p b single on e (inr (off, f)) =
      let t = tenant_of encoder config encoder.tenant_extractor args in
      let (tenant, s, x) = for_some_tenant codec encoder config t v key (m, p) e in
      let (c, rest, parsed, encrypted, id, q) = law.cipher_value tenant v key m p x in
      reads_frame codec encoder config v key m p b off parsed (inl encrypted) f (
        reads_cipher codec encoder config v key p c rest m
          (law.same_name config.serializer_string_name) encrypted id q)

  plain_round_trip :
      (v : V) (key : K) (m : Metadata) (p b : Bytes)
      → config.encryption ≡ false
      → encoder.serialize v ≡ serialized (m, p)
      → IsStoredAs codec encoder config m p b
      → deserialize_data codec config b key ≡ value v
  plain_round_trip v key m p b no_cipher e (inl (inter, q)) =
      reads_document codec encoder config v key b inter (
        if_no config.encryption (interop_document codec config config.deployment_uuid_value b key)
          (codec.deserialize b none) no_cipher
        ∙ ap (λ c. codec.deserialize c none) q
        ∙ law.plain_document v m p inter e)
  plain_round_trip v key m p b no_cipher e (inr (off, f)) =
      let (plain, parsed) = law.plain_metadata v m p e in
      reads_frame codec encoder config v key m p b off parsed (inr plain) f (
        reads_plain codec encoder config v key p m (law.same_name config.serializer_string_name)
          no_cipher plain.no_encryption (law.plain_value v m p e))

  -- In each of the four modes, with and without encryption, framed and interop: bytes that the handler
  -- makes of a value for a key are read by the same handler, for that key, as that value, where the
  -- serializer and the cipher take back what they give with the metadata they gave, and JSON takes back
  -- its own output. In interop mode they do without the metadata, and there must be no extractor of
  -- tenants.
  pub serialize-deserialize :
      (v : V) (args : A) (key : K) (b : Bytes)
      → (config.interop_mode ≡ true → encoder.tenant_extractor ≡ none)
      → serialize_data encoder config v args key ≡ serialized b
      → deserialize_data codec config b key ≡ value v
  unfolding serialize_data
  serialize-deserialize v args key b single e =
      let x =
        encrypt_for encoder config (tenant_of encoder config encoder.tenant_extractor args) v key in
      let y = encoder.serialize v in
      let r = if config.encryption then x else y in
      let (m, p, q, form) =
        wrapped_from codec encoder config r b
          (unlimited codec encoder config (wrapped encoder config r) b e) in
      elim (by_encryption config.encryption x y (serialized (m, p)) q) [
        | inl (on, z) ↦ cipher_round_trip v args key m p b single on z form
        | inr (off, z) ↦ plain_round_trip v key m p b off z form
      ]
