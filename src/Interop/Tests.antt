-- ===== src/Interop/Tests.antt =====
-- The language-neutral mode at concrete inputs. The floats are 0.0 and 1.0 only, and the strings are
-- ASCII, which UTF-8 encodes as it is.
use cachekit_py.Common.{
  ℕ, ◌≤◌, Bool, true, false, List, [], ◌∷◌, ◌++◌, Option, none, some, length, ◌≡◌, refl, arith, ◌↔◌,
  replicate, ltb,
}
use cachekit_py.Common.Int.{ℤ, pos, negsuc}
use cachekit_py.Keys.{String}
use cachekit_py.Interop.{
  ok, raise, out_of_range, bad_segment, text, validate_segment, matches_segment,
  validate_interop_config, generate_interop_key, interop_key, ensure_interop_backend_compatible,
  key_prefix,
}
use cachekit_py.Interop.Segments.{interop_key_unique, accepted_config_exact}
use cachekit_py.Interop.Encode.{
  encode_int, encode_str_header, encode_array_header, encode_map_header,
}
use cachekit_py.Interop.Values.{
  Fields, Value, nil_value, boolean, integer, float, array, dict, no_values, value_and, no_fields,
  field_and, encode, encode_values, encode_fields,
}
use cachekit_py.Interop.Canonical.{
  need, need_fields, need_values, is_canonical, canonical_fields, canonical_values,
}
use cachekit_py.Interop.Meaning.{decode}
use cachekit_py.Interop.Order.{swap, map_order_ignored}
use cachekit_py.Interop.Faithful.{value_round_trip, encoding_unique}

-- `users`, and `get`
abbrev users : String
users = 117 ∷ 115 ∷ 101 ∷ 114 ∷ 115 ∷ []

abbrev fetch : String
fetch = 103 ∷ 101 ∷ 116 ∷ []

abbrev digest : String
digest = replicate 64 48

trailing_newline_rejected : validate_segment (text (97 ∷ 10 ∷ [])) ≡ raise bad_segment
unfolding validate_segment matches_segment
trailing_newline_rejected = refl

prefix_rejected : ensure_interop_backend_compatible (some (none, some (97 ∷ []))) ≡ raise key_prefix
unfolding ensure_interop_backend_compatible
prefix_rejected = refl

key_is_made : generate_interop_key users fetch digest ≡ ok (interop_key users fetch digest)
unfolding generate_interop_key validate_segment matches_segment
key_is_made = refl

interop_key_unique_example :
    (users ≡ users)
    × (fetch ≡ fetch)
    × (digest ≡ digest)
    × (length (interop_key users fetch digest) ≤ 194)
interop_key_unique_example =
    interop_key_unique users fetch digest users fetch digest (interop_key users fetch digest)
      key_is_made key_is_made refl

config_accepted_for_users :
    (validate_interop_config (text fetch) (some (text users)) false ≡ ok (fetch, users)) ↔ (
      (text fetch ≡ text fetch)
      × (some (text users) ≡ some (text users))
      × (false ≡ false)
      × (generate_interop_key users fetch digest ≡ ok (interop_key users fetch digest)))
config_accepted_for_users =
    accepted_config_exact (text fetch) (some (text users)) false users fetch digest

big_integer : encode_int (pos 4294967296) ≡ ok (207 ∷ 0 ∷ 0 ∷ 0 ∷ 1 ∷ 0 ∷ 0 ∷ 0 ∷ 0 ∷ [])
unfolding encode_int
big_integer = refl

negative_integers :
    (encode_int (negsuc 0) ≡ ok (255 ∷ [])) × (encode_int (negsuc 32) ≡ ok (208 ∷ 223 ∷ []))
unfolding encode_int
negative_integers = (refl, refl)

too_big_integer : encode_int (pos 18446744073709551616) ≡ raise out_of_range
unfolding encode_int
too_big_integer = refl

-- true stands for 1.0
abbrev pack : Bool → List ℕ
pack true = 63 ∷ 240 ∷ replicate 6 0
pack false = replicate 8 0

abbrev unpack : List ℕ → Bool
unpack [] = false
unpack (b ∷ bytes) = ltb 0 b

abbrev is_finite : Bool → Bool
is_finite v = true

abbrev as_integer : Bool → Option ℤ
as_integer true = some (pos 1)
as_integer false = some (pos 0)

abbrev ascii : List ℕ → Option (List ℕ)
ascii s = some s

unpack-pack : (v : Bool) → unpack (pack v) ≡ v
unpack-pack true = refl
unpack-pack false = refl

length-pack : (v : Bool) → length (pack v) ≡ 8
length-pack true = refl
length-pack false = refl

ascii-ascii : (s b : List ℕ) → ascii s ≡ some b → ascii b ≡ some s
ascii-ascii s b h = cc h

-- {"a": [1.0, -1], "b": None}
abbrev sample : Value Bool
sample = dict (
    field_and (some (97 ∷ []))
      (array (value_and (float true) (value_and (integer (negsuc 0)) no_values)))
      (field_and (some (98 ∷ [])) nil_value no_fields))

abbrev sample_bytes : List ℕ
sample_bytes =
    130 ∷ 161 ∷ 97 ∷ 146 ∷ 203 ∷ 63 ∷ 240 ∷ 0 ∷ 0 ∷ 0 ∷ 0 ∷ 0 ∷ 0 ∷ 255 ∷ 161 ∷ 98 ∷ 192 ∷ []

encode-sample : encode is_finite as_integer pack ascii false sample ≡ ok sample_bytes
unfolding encode encode_values encode_fields encode_int encode_str_header encode_array_header
    encode_map_header
encode-sample = refl

-- the same two keys the other way round
keys_are_sorted :
    encode is_finite as_integer pack ascii true (
      dict (
        field_and
          (some (98 ∷ []))
          (boolean true)
          (field_and (some (97 ∷ [])) (float true) no_fields)))
    ≡ ok (130 ∷ 161 ∷ 97 ∷ 1 ∷ 161 ∷ 98 ∷ 195 ∷ [])
unfolding encode encode_fields encode_int encode_str_header encode_map_header
keys_are_sorted = refl

is_canonical-sample : is_canonical sample ≡ true
unfolding is_canonical canonical_fields canonical_values
is_canonical-sample = refl

need-sample : need sample ≤ 20
unfolding need need_fields need_values
need-sample = omega arith

value_round_trip_example :
    decode unpack ascii 20 (sample_bytes ++ 193 ∷ []) ≡ some (sample, 193 ∷ [])
value_round_trip_example =
    value_round_trip is_finite as_integer pack ascii unpack ascii unpack-pack length-pack
      ascii-ascii sample 20 (193 ∷ []) sample_bytes is_canonical-sample need-sample encode-sample

-- a byte that MessagePack never uses
abbrev unused : List ℕ
unused = 193 ∷ []

same_bytes_same_value : (sample ≡ sample) × (unused ≡ unused)
same_bytes_same_value =
    encoding_unique is_finite as_integer pack ascii unpack ascii unpack-pack length-pack ascii-ascii
      sample sample sample_bytes sample_bytes unused unused is_canonical-sample is_canonical-sample
      encode-sample encode-sample refl

-- {"b": True, "a": 1.0}, and {"a": 1.0, "b": True}
abbrev b_then_a : Fields Bool
b_then_a =
    field_and (some (98 ∷ [])) (boolean true) (field_and (some (97 ∷ [])) (float true) no_fields)

abbrev a_then_b : Fields Bool
a_then_b =
    field_and (some (97 ∷ [])) (float true) (field_and (some (98 ∷ [])) (boolean true) no_fields)

map_order_ignored_example :
    encode is_finite as_integer pack ascii true (dict b_then_a)
    ≡ encode is_finite as_integer pack ascii true (dict a_then_b)
map_order_ignored_example =
    map_order_ignored is_finite as_integer pack ascii true b_then_a a_then_b
      (swap (98 ∷ []) (97 ∷ []) (boolean true) (float true) no_fields (ground arith))
