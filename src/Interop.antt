-- ===== src/Interop.antt =====
-- src/cachekit/interop.py: the keys of the language-neutral mode, and the canonical MessagePack
-- encoding of its numbers, strings, byte strings and headers. A string is the list of its code points.
pub mod Bytes
pub mod Encode
pub mod Values
pub mod Decode
pub mod Meaning
pub mod RoundTrip
pub mod Canonical
pub mod Faithful
pub mod Order
pub mod Segments
mod Tests
use cachekit_py.Common.{
  ℕ, Bool, true, false, ◌&&◌, ◌||◌, ◌==◌, List, [], ◌∷◌, ◌++◌, Option, none, some, ltb, leb, length,
  if◌then◌else◌,
}
use cachekit_py.Keys.{String, colon, dot, underscore}
use cachekit_py.Keys.Strings.{all}

-- the reasons of an `InteropError`, and `overflow_error`, which is the `OverflowError` of `to_bytes`
pub data InteropFailure : Type 0 where
  bad_segment no_namespace custom_key key_prefix out_of_range ill_formed : InteropFailure
  overflow_error bad_type bad_key bad_float : InteropFailure

pub data Result (A : Type 0) : Type 0 where
  ok : A → Result A
  raise : InteropFailure → Result A

-- `[a-z0-9]`
abbrev pub is_segment_start : ℕ → Bool
is_segment_start c = leb 97 c && leb c 122 || leb 48 c && leb c 57

-- `[a-z0-9._-]`
abbrev pub is_segment_char : ℕ → Bool
is_segment_char c = is_segment_start c || c == dot || c == underscore || c == 45

-- the full match of `SEGMENT_RE`
unfoldable pub matches_segment : String → Bool
matches_segment [] = false
matches_segment (c ∷ s) = is_segment_start c && all is_segment_char s && leb (length s) 63

-- What is passed for a segment: a string, or another object.
pub data Segment : Type 0 where
  text : String → Segment
  other_object : Segment

unfoldable pub validate_segment : Segment → Result String
validate_segment other_object = raise bad_segment
validate_segment (text s) = if matches_segment s then ok s else raise bad_segment

after_namespace : String → Bool → Result String → Result (String × String)
after_namespace op has_custom_key (raise e) = raise e
after_namespace op has_custom_key (ok ns) = if has_custom_key then raise custom_key else ok (op, ns)

after_operation : Option Segment → Bool → Result String → Result (String × String)
unfolding after_namespace
after_operation namespace has_custom_key (raise e) = raise e
after_operation none has_custom_key (ok op) = raise no_namespace
after_operation (some namespace) has_custom_key (ok op) =
    after_namespace op has_custom_key (validate_segment namespace)

-- `validate_interop_config`, with None or an object for the namespace
unfoldable pub validate_interop_config : Segment → Option Segment → Bool → Result (String × String)
unfolding after_operation
validate_interop_config operation namespace has_custom_key =
    after_operation namespace has_custom_key (validate_segment operation)

abbrev pub interop_key : String → String → String → String
interop_key namespace operation args_hash = namespace ++ colon ∷ (operation ++ colon ∷ args_hash)

key_checked : String → String → String → Result String → Result String → Result String
key_checked namespace operation args_hash (raise e) op = raise e
key_checked namespace operation args_hash (ok ns) (raise e) = raise e
key_checked namespace operation args_hash (ok ns) (ok op) =
    ok (interop_key namespace operation args_hash)

-- `generate_interop_key`, from the digest that `args_hash` returns
unfoldable pub generate_interop_key : String → String → String → Result String
unfolding key_checked
generate_interop_key namespace operation args_hash =
    key_checked namespace operation args_hash (validate_segment (text namespace))
      (validate_segment (text operation))

-- a prefix that an attribute holds, if it is a non-empty string
abbrev pub is_truthy : Option String → Bool
is_truthy none = false
is_truthy (some []) = false
is_truthy (some (c ∷ s)) = true

-- `ensure_interop_backend_compatible`, from the attributes `key_prefix` and `_key_prefix` of a backend
unfoldable pub ensure_interop_backend_compatible :
    Option (Option String × Option String) → Result Unit
ensure_interop_backend_compatible none = ok tt
ensure_interop_backend_compatible (some (prefix, private_prefix)) =
    if is_truthy prefix || is_truthy private_prefix then raise key_prefix else ok tt
