-- ===== src/Handler/Frame.antt =====
-- The envelope of src/cachekit/serializers/wrapper.py: `wrap` and `unwrap` of `SerializationWrapper`.
-- A header is what its JSON says; JSON itself and the older base64 envelope are parameters.
use cachekit_py.Common.{
  ◌<◌, true, ◌&&◌, ◌==◌, [], ◌∷◌, ◌++◌, Option, none, some, ltb, leb, length, if◌then◌else◌, ◌≡◌,
  refl, arith,
}
use cachekit_py.Keys.{String}
use cachekit_py.Handler.Metadata.{MetadataDict}
use cachekit_py.Interop.Bytes.{to_bytes, from_bytes, split_at, split_at-append}
use cachekit_py.Handler.{Bytes, ReadOutcome, value, failed, value_error, then_read}

-- the serializer's name, and the dictionary of the metadata
pub record Header : Type 0 where
  pub serializer_name : String
  pub metadata : MetadataDict

pub record Envelope : Type 0 where
  pub header : Header
  pub payload : Bytes

module _ (parse_header : Bytes → ReadOutcome Header)
    (parse_legacy : Bytes → ReadOutcome Envelope) where
  abbrev pub with_payload : Option (Bytes × Bytes) → ReadOutcome Envelope
  with_payload none = failed value_error
  with_payload (some (header, payload)) =
      then_read (parse_header header) (λ h. value (record { header = h; payload = payload }))

  -- after the version: the length of the header, in four bytes, the header and the payload
  abbrev pub with_length : Option (Bytes × Bytes) → ReadOutcome Envelope
  with_length none = failed value_error
  with_length (some (size, rest)) = with_payload (split_at (from_bytes size) rest)

  -- after the magic bytes `CK`
  unfoldable pub unwrap_frame : Bytes → ReadOutcome Envelope
  unwrap_frame [] = failed value_error
  unwrap_frame (version ∷ rest) =
      if leb 4 (length rest) && version == 3
      then with_length (split_at 4 rest)
      else failed value_error

  -- `unwrap`
  unfoldable pub unwrap : Bytes → ReadOutcome Envelope
  unfolding unwrap_frame
  unwrap (first ∷ second ∷ rest) =
      if first == 67 && second == 75
      then unwrap_frame rest
      else parse_legacy (first ∷ second ∷ rest)
  unwrap (first ∷ []) = parse_legacy (first ∷ [])
  unwrap [] = parse_legacy []

-- `wrap`, from the JSON of the header; a header whose length is more than four bytes cannot be framed
unfoldable pub wrap : Bytes → Bytes → Option Bytes
wrap header payload =
    if ltb (length header) 4294967296
    then some (67 ∷ 75 ∷ 3 ∷ (to_bytes 4 (length header) ++ (header ++ payload)))
    else none

module _ (parse_header : Bytes → ReadOutcome Header)
    (parse_legacy : Bytes → ReadOutcome Envelope) where
  -- What `wrap` frames, `unwrap` takes apart again: the header that the JSON stands for, and the
  -- payload byte for byte, whatever bytes it has.
  pub frame_round_trip :
      (h : Header) (header payload frame : Bytes)
      → parse_header header ≡ value h
      → wrap header payload ≡ some frame
      → unwrap parse_header parse_legacy frame ≡ value (record { header = h; payload = payload })
  unfolding wrap unwrap unwrap_frame
  frame_round_trip h header payload frame p w =
      let small : length header < 4294967296 = ground arith in
      let e : frame ≡ 67 ∷ 75 ∷ 3 ∷ (to_bytes 4 (length header) ++ (header ++ payload)) =
        ground arith in
      let long : leb 4 (length (to_bytes 4 (length header) ++ (header ++ payload))) ≡ true =
        ground arith in
      let size : from_bytes (to_bytes 4 (length header)) ≡ length header = omega arith in
      rw (e, long, size, split_at-append header payload, p) refl
