-- ===== src/Keys.antt =====
-- src/cachekit/key_generator.py: the layout of cache keys. A string is the list of its code points.
-- The hexadecimal Blake2b digest, the UTF-8 encoding and the MessagePack bytes of the normalised
-- arguments are parameters; the normalisation of the arguments is not modelled.
pub mod Strings
pub mod Names
pub mod Layout
pub mod Unique
mod Tests
use cachekit_py.Common.{
  ℕ, Bool, true, false, ◌&&◌, ◌||◌, ◌==◌, List, [], ◌∷◌, ◌++◌, map, Option, none, some, ltb, leb,
  length, if◌then◌else◌,
}
use cachekit_py.Keys.Strings.{take}

abbrev pub String : Type 0
String = List ℕ

abbrev pub dot : ℕ
dot = 46

abbrev pub colon : ℕ
colon = 58

abbrev pub underscore : ℕ
underscore = 95

abbrev pub is_alnum : ℕ → Bool
is_alnum c = leb 48 c && leb c 57 || leb 65 c && leb c 90 || leb 97 c && leb c 122

-- `[A-Za-z0-9_.]`
abbrev pub is_func_char : ℕ → Bool
is_func_char c = is_alnum c || c == underscore || c == dot

abbrev pub keep_func_char : ℕ → ℕ
keep_func_char c = if is_func_char c then c else underscore

abbrev pub starts_with_dot : String → Bool
starts_with_dot [] = false
starts_with_dot (c ∷ s) = c == dot

-- `_DOUBLE_DOT_RE.sub(".", s)`: a dot before a dot goes, so that the last of each run stays
unfoldable pub collapse_dots : String → String
collapse_dots [] = []
collapse_dots (c ∷ s) =
    let rest = collapse_dots s in if c == dot && starts_with_dot rest then rest else c ∷ rest

abbrev pub func_name_max : ℕ
func_name_max = 200

abbrev pub max_key_length : ℕ
max_key_length = 250

abbrev pub key_prefix_length : ℕ
key_prefix_length = 50

-- `f"{module}.{qualname}"`
abbrev pub raw_name : String → String → String
raw_name module_name qualname = module_name ++ dot ∷ qualname

-- `_sanitize_func_name`
unfoldable pub sanitize_func_name : String → String → String
sanitize_func_name module_name qualname =
    take func_name_max (collapse_dots (map keep_func_char (raw_name module_name qualname)))

pub data SerializerType : Type 0 where
  std auto orjson arrow local other_type : SerializerType

-- `SERIALIZER_CODES.get(serializer_type, "s")`
abbrev pub serializer_code : SerializerType → ℕ
serializer_code std = 115
serializer_code auto = 97
serializer_code orjson = 111
serializer_code arrow = 119
serializer_code local = 108
serializer_code other_type = 115

abbrev pub ic_flag : Bool → ℕ
ic_flag true = 49
ic_flag false = 48

-- `ns:{namespace}:` for a namespace that is neither None nor empty
abbrev pub namespace_parts : Option String → String
namespace_parts none = []
namespace_parts (some []) = []
namespace_parts (some (c ∷ s)) = 110 ∷ 115 ∷ colon ∷ (c ∷ s) ++ colon ∷ []

-- `func:{func_name}:args:{args_hash}:{ic}{code}`
abbrev pub func_parts : String → String → Bool → SerializerType → String
func_parts func_name args_hash integrity_checking serializer_type =
    102
    ∷ 117
    ∷ 110
    ∷ 99
    ∷ colon
    ∷ (func_name
        ++ colon
          ∷ 97
          ∷ 114
          ∷ 103
          ∷ 115
          ∷ colon
          ∷ (args_hash
              ++ colon ∷ ic_flag integrity_checking ∷ serializer_code serializer_type ∷ []))

-- the three replacements of `_normalize_key`
abbrev pub replace_blank : ℕ → ℕ
replace_blank c = if c == 32 || c == 10 || c == 13 then underscore else c

module _ (hexdigest encode : String → String) where
  -- the last part of `_normalize_key`
  unfoldable pub shorten_key : String → String
  shorten_key key =
      if ltb max_key_length (length key)
      then take key_prefix_length key ++ colon ∷ take 32 (hexdigest (encode key))
      else key

  unfoldable pub normalize_key : String → String
  normalize_key key = shorten_key (map replace_blank key)

  -- the parts of `generate_key` joined, from the MessagePack bytes of the normalised arguments
  unfoldable pub joined_parts :
      String → String → String → Option String → Bool → SerializerType → String
  joined_parts module_name qualname msgpack_bytes namespace integrity_checking serializer_type =
      namespace_parts namespace
      ++ func_parts (sanitize_func_name module_name qualname) (hexdigest msgpack_bytes)
          integrity_checking serializer_type

  -- `generate_key`
  unfoldable pub generate_key :
      String → String → String → Option String → Bool → SerializerType → String
  generate_key module_name qualname msgpack_bytes namespace integrity_checking serializer_type =
      normalize_key (
        joined_parts module_name qualname msgpack_bytes namespace integrity_checking
          serializer_type)
