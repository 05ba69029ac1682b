-- ===== src/Handler/ReadBack.antt =====
-- src/cachekit/cache_handler.py: how `deserialize_data` reads the bytes that `serialize_data` shaped: the
-- document itself in interop mode, the frame around it otherwise.
use cachekit_py.Common.{
  ℕ, Bool, true, false, ◌&&◌, not, ◌∷◌, Option, none, some, if◌then◌else◌, ◌≡◌, ◌⊎◌, ap, refl,
  arith, ◌∙◌, inl, inr,
}
use cachekit_py.Keys.{String}
use cachekit_py.Handler.{
  Bytes, ReadOutcome, value, failed, then_read, corruption, suspicious_envelope,
}
use cachekit_py.Handler.Metadata.{Metadata, IsPlain, from_dict-to_dict}
use cachekit_py.Handler.Frame.{unwrap, wrap, frame_round_trip}
use cachekit_py.Handler.Read.{
  Config, Codec, deserialize_data, deserialize_interop, deserialize_envelope, deserialize_payload,
  decrypt_for, reraise, interop_document, unknown_name,
}
use cachekit_py.Handler.Store.{
  Encoder, Serialized, serialized, interop_error, serialization_failed, wrapped, limited, framed,
  header_of, encrypt_for,
}

pub if_yes : {B : Type 0} (x : Bool) (a b : B) → x ≡ true → (if x then a else b) ≡ a
if_yes true a b p = refl
if_yes false a b p = absurd (ground arith)

pub if_no : {B : Type 0} (x : Bool) (a b : B) → x ≡ false → (if x then a else b) ≡ b
if_no true a b p = absurd (ground arith)
if_no false a b p = refl

pub by_encryption :
    {B : Type 0} (on : Bool) (x y z : B)
    → (if on then x else y) ≡ z
    → ((on ≡ true) × (x ≡ z)) ⊎ ((on ≡ false) × (y ≡ z))
by_encryption true x y z q = inl (refl, q)
by_encryption false x y z q = inr (refl, q)

module _ {K V A : Type 0} (codec : Codec K V) (encoder : Encoder K V A) (config : Config) where
  -- past the ceiling and the framing
  pub unlimited :
      (r : Serialized Bytes) (b : Bytes)
      → limited encoder config r ≡ serialized b
      → r ≡ serialized b
  unfolding limited
  unlimited interop_error b p = p
  unlimited serialization_failed b p = p
  unlimited (serialized c) b p = ground arith

  pub unframed :
      (o : Option Bytes) (b : Bytes) → framed encoder config o ≡ serialized b → o ≡ some b
  unframed none b p = absurd (ground arith)
  unframed (some c) b p = ground arith

  -- the frame around the payload with its metadata
  abbrev pub frame_of : Metadata → Bytes → Serialized Bytes
  frame_of m p = framed encoder config (wrap (encoder.dump_header (header_of encoder config m)) p)

  abbrev pub Parses : Metadata → Type 0
  Parses m =
      codec.parse_header (encoder.dump_header (header_of encoder config m))
      ≡ value (header_of encoder config m)

  -- the envelope of the payload that was framed
  pub unwrapped :
      (m : Metadata) (p b : Bytes)
      → Parses m
      → frame_of m p ≡ serialized b
      → unwrap codec.parse_header codec.parse_legacy b
        ≡ value (record { header = header_of encoder config m; payload = p })
  unwrapped m p b parsed f =
      let h = encoder.dump_header (header_of encoder config m) in
      frame_round_trip codec.parse_header codec.parse_legacy (header_of encoder config m) h p b
        parsed (unframed (wrap h p) b f)

  -- where the stored bytes come from: the payload itself, or the frame around it
  pub by_mode :
      (mode : Bool) (m : Metadata) (p b : Bytes)
      → (if mode then serialized p else frame_of m p) ≡ serialized b
      → ((mode ≡ true) × (b ≡ p)) ⊎ ((mode ≡ false) × (frame_of m p ≡ serialized b))
  by_mode true m p b q = inl (refl, ground arith)
  by_mode false m p b q = inr (refl, q)

  abbrev pub IsStoredAs : Metadata → Bytes → Bytes → Type 0
  IsStoredAs m p b =
      ((config.interop_mode ≡ true) × (b ≡ p))
      ⊎ ((config.interop_mode ≡ false) × (frame_of m p ≡ serialized b))

  pub wrapped_from :
      (r : Serialized (Metadata × Bytes)) (b : Bytes)
      → wrapped encoder config r ≡ serialized b
      → (m : Metadata) × (p : Bytes) × (r ≡ serialized (m, p)) × IsStoredAs m p b
  unfolding wrapped
  wrapped_from interop_error b q = absurd (ground arith)
  wrapped_from serialization_failed b q = absurd (ground arith)
  wrapped_from (serialized (m, p)) b q = (m, p, refl, by_mode config.interop_mode m p b q)

  pub for_some_tenant :
      (t : Option String) (v : V) (key : K) (r : Metadata × Bytes)
      → encrypt_for encoder config t v key ≡ serialized r
      → (tenant : String) × (t ≡ some tenant) × (encoder.encrypt tenant v key ≡ serialized r)
  for_some_tenant none v key r q = absurd (ground arith)
  for_some_tenant (some tenant) v key r q = (tenant, refl, q)

  pub reads_document :
      (v : V) (key : K) (b : Bytes)
      → config.interop_mode ≡ true
      → (if config.encryption
          then interop_document codec config config.deployment_uuid_value b key
          else codec.deserialize b none)
        ≡ value v
      → deserialize_data codec config b key ≡ value v
  unfolding deserialize_data deserialize_interop
  reads_document v key b on q =
      if_yes config.interop_mode (deserialize_interop codec config b key)
        (reraise (
          then_read (unwrap codec.parse_header codec.parse_legacy b)
            (deserialize_envelope codec config key)))
        on
      ∙ ap (λ r. reraise r) q

  -- the metadata that was framed is the metadata that the payload is read with
  pub reads_frame :
      (v : V) (key : K) (m : Metadata) (p b : Bytes)
      → config.interop_mode ≡ false
      → Parses m
      → (m.encrypted ≡ true) ⊎ IsPlain m
      → frame_of m p ≡ serialized b
      → deserialize_payload codec config key config.serializer_string_name p m ≡ value v
      → deserialize_data codec config b key ≡ value v
  unfolding deserialize_data deserialize_envelope
  reads_frame v key m p b off parsed form f q =
      if_no config.interop_mode (deserialize_interop codec config b key)
        (reraise (
          then_read (unwrap codec.parse_header codec.parse_legacy b)
            (deserialize_envelope codec config key)))
        off
      ∙ rw (unwrapped m p b parsed f, from_dict-to_dict m form, q) refl

  pub envelope_tests :
      (named other on encrypted : Bool) (x y : ReadOutcome V)
      → named ≡ true
      → (on ≡ false) ⊎ (encrypted ≡ true)
      → (if not named && not other
          then failed corruption
          else if on && not encrypted
          then failed suspicious_envelope
          else if encrypted
          then x
          else y)
        ≡ (if encrypted then x else y)
  envelope_tests true other on true x y n e = ground arith
  envelope_tests true other on false x y n e = ground arith
  envelope_tests false other on encrypted x y n e = absurd (ground arith)

  pub reads_cipher :
      (v : V) (key : K) (p : Bytes) (c : ℕ) (rest : String) (m : Metadata)
      → codec.same_string config.serializer_string_name config.serializer_string_name ≡ true
      → m.encrypted ≡ true
      → m.tenant_id ≡ some (c ∷ rest)
      → codec.decrypt (c ∷ rest) p m key ≡ value v
      → deserialize_payload codec config key config.serializer_string_name p m ≡ value v
  unfolding deserialize_payload
  reads_cipher v key p c rest m named e t q =
      let name = config.serializer_string_name in
      let x = decrypt_for codec config m.tenant_id m p key in
      envelope_tests (codec.same_string name name) (codec.same_string name unknown_name)
        config.encryption m.encrypted x (codec.deserialize p (some m)) named (inr e)
      ∙ if_yes m.encrypted x (codec.deserialize p (some m)) e
      ∙ ap (λ t'. decrypt_for codec config t' m p key) t
      ∙ q

  pub reads_plain :
      (v : V) (key : K) (p : Bytes) (m : Metadata)
      → codec.same_string config.serializer_string_name config.serializer_string_name ≡ true
      → config.encryption ≡ false
      → m.encrypted ≡ false
      → codec.deserialize p (some m) ≡ value v
      → deserialize_payload codec config key config.serializer_string_name p m ≡ value v
  unfolding deserialize_payload
  reads_plain v key p m named off e q =
      let name = config.serializer_string_name in
      let x = decrypt_for codec config m.tenant_id m p key in
      envelope_tests (codec.same_string name name) (codec.same_string name unknown_name)
        config.encryption m.encrypted x (codec.deserialize p (some m)) named (inl off)
      ∙ if_no m.encrypted x (codec.deserialize p (some m)) e
      ∙ q
