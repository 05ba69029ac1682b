-- ===== src/Keys/Layout.antt =====
-- The keys of src/cachekit/key_generator.py: what the cache server accepts, and that every key is of this kind.
use cachekit_py.Common.{
  ℕ, ◌≤◌, Bool, true, ◌&&◌, ◌||◌, ◌==◌, not, [], ◌∷◌, ◌++◌, map, ◌≡◌, refl, length, length-append,
  ltb, leb, arith, Option, none, some, Bool-cases, inl, inr,
}
use cachekit_py.Keys.Strings.{
  take, length-take, all, all-take, all-append, all-imp, map_fixed, append_separator,
}
use cachekit_py.Keys.{
  String, dot, colon, is_func_char, max_key_length, key_prefix_length, sanitize_func_name,
  SerializerType, serializer_code, ic_flag, namespace_parts, func_parts, replace_blank, shorten_key,
  normalize_key, joined_parts, generate_key,
}
use cachekit_py.Keys.Names.{
  no_double_dot, no_double_dot-take, no_double_dot-separated, sanitized_name_valid,
}

-- the server's whitelist `[a-zA-Z0-9_.:-]`
abbrev pub is_server_char : ℕ → Bool
is_server_char c = is_func_char c || c == colon || c == 45

-- the characters of a hexadecimal digest
abbrev pub is_hex_char : ℕ → Bool
is_hex_char c = leb 48 c && leb c 57 || leb 97 c && leb c 102

-- the server's tests of the characters and of `..`
abbrev pub is_accepted : String → Bool
is_accepted s = all is_server_char s && no_double_dot s

-- a namespace that was given, or nothing
abbrev pub namespace_text : Option String → String
namespace_text none = []
namespace_text (some s) = s

no_double_dot-hex : (s : String) → all is_hex_char s ≡ true → no_double_dot s ≡ true
no_double_dot-hex [] h = refl
no_double_dot-hex (c ∷ s) h = ground (arith, no_double_dot-hex s)

hex_accepted : (s : String) → all is_hex_char s ≡ true → is_accepted s ≡ true
hex_accepted s h =
    let chars = all-imp is_hex_char is_server_char s (λ c p. ground (arith, p)) h in
    ground (arith, chars, no_double_dot-hex s h)

accepted_separated :
    (s t : String)
    → is_accepted s ≡ true
    → is_accepted t ≡ true
    → is_accepted (s ++ colon ∷ t) ≡ true
accepted_separated s t h k =
    let chars : all is_server_char (s ++ colon ∷ t) ≡ true =
      all-append is_server_char s (colon ∷ t) (ground arith) (ground arith) in
    let dots = no_double_dot-separated s t (ground arith) (ground arith) in
    ground (arith, chars, dots)

-- literal text before a part, without dots
accepted_prefix :
    (p s : String)
    → all (λ c. is_server_char c && not (c == dot)) p ≡ true
    → is_accepted s ≡ true
    → is_accepted (p ++ s) ≡ true
accepted_prefix [] s h k = k
accepted_prefix (c ∷ p) s h k = ground (arith, accepted_prefix p s)

accepted_take : (n : ℕ) (s : String) → is_accepted s ≡ true → is_accepted (take n s) ≡ true
accepted_take n s h = ground (arith, all-take is_server_char n s, no_double_dot-take n s)

func_name_accepted : (m q : String) → is_accepted (sanitize_func_name m q) ≡ true
func_name_accepted m q =
    let (chars, dots, _) = sanitized_name_valid m q in
    let server =
      all-imp is_func_char is_server_char (sanitize_func_name m q) (λ c p. ground (arith, p))
        chars in
    ground (arith, server, dots)

namespace_accepted :
    (n : Option String) (t : String)
    → is_accepted (namespace_text n) ≡ true
    → is_accepted t ≡ true
    → is_accepted (namespace_parts n ++ t) ≡ true
namespace_accepted none t h k = k
namespace_accepted (some []) t h k = k
namespace_accepted (some (c ∷ s)) t h k =
    let joined = accepted_separated (c ∷ s) t h k in
    rw (append_separator colon s t)
      (accepted_prefix (110 ∷ 115 ∷ colon ∷ []) ((c ∷ s) ++ colon ∷ t) refl joined)

func_accepted :
    (f h : String) (ic : Bool) (ty : SerializerType)
    → is_accepted f ≡ true
    → is_accepted h ≡ true
    → is_accepted (func_parts f h ic ty) ≡ true
func_accepted f h ic ty a b =
    let codes = ic_flag ic ∷ serializer_code ty ∷ [] in
    let tail : is_accepted (h ++ colon ∷ codes) ≡ true =
      accepted_separated h codes b (ground arith) in
    let args = 97 ∷ 114 ∷ 103 ∷ 115 ∷ colon ∷ h ++ colon ∷ codes in
    let named : is_accepted (f ++ colon ∷ args) ≡ true =
      accepted_separated f args a
        (accepted_prefix (97 ∷ 114 ∷ 103 ∷ 115 ∷ colon ∷ []) (h ++ colon ∷ codes) refl tail) in
    accepted_prefix (102 ∷ 117 ∷ 110 ∷ 99 ∷ colon ∷ []) (f ++ colon ∷ args) refl named

module _ (hexdigest encode : String → String) where
  -- Every key has at most 250 characters, whatever the digest, the namespace and the function.
  length-shorten_key : (key : String) → length (shorten_key hexdigest encode key) ≤ max_key_length
  unfolding shorten_key
  length-shorten_key key =
      let head = take key_prefix_length key in
      let hash = take 32 (hexdigest (encode key)) in
      let short : length (head ++ colon ∷ hash) ≤ max_key_length = omega (
        arith,
        length-append head (colon ∷ hash),
        length-take key_prefix_length key,
        length-take 32 (hexdigest (encode key)),
      ) in
      elim (Bool-cases (ltb max_key_length (length key))) [
        | inl p ↦ rw p short
        | inr p ↦ let small : length key ≤ max_key_length = ground arith in rw p small
      ]

  shorten_accepted :
      (key : String)
      → all is_hex_char (hexdigest (encode key)) ≡ true
      → is_accepted key ≡ true
      → is_accepted (shorten_key hexdigest encode key) ≡ true
  unfolding shorten_key
  shorten_accepted key h a =
      let digest = hexdigest (encode key) in
      let joined : is_accepted (take key_prefix_length key ++ colon ∷ take 32 digest) ≡ true =
        accepted_separated (take key_prefix_length key) (take 32 digest)
          (accepted_take key_prefix_length key a)
          (accepted_take 32 digest (hex_accepted digest h)) in
      elim (Bool-cases (ltb max_key_length (length key))) [ inl p ↦ rw p joined | inr p ↦ rw p a ]

  pub parts_accepted :
      (m q b : String) (n : Option String) (ic : Bool) (ty : SerializerType)
      → ((s : String) → all is_hex_char (hexdigest s) ≡ true)
      → is_accepted (namespace_text n) ≡ true
      → is_accepted (joined_parts hexdigest encode m q b n ic ty) ≡ true
  unfolding joined_parts
  parts_accepted m q b n ic ty hex a =
      namespace_accepted n (func_parts (sanitize_func_name m q) (hexdigest b) ic ty) a (
        func_accepted (sanitize_func_name m q) (hexdigest b) ic ty (func_name_accepted m q)
          (hex_accepted (hexdigest b) (hex b)))

  -- the replacements change nothing in an acceptable key
  pub replace_accepted : (s : String) → is_accepted s ≡ true → map replace_blank s ≡ s
  replace_accepted s a =
      map_fixed is_server_char replace_blank s (λ c p. ground (arith, p)) (ground (arith, a))

  -- The cache server accepts every generated key. If the digests are hexadecimal, and the namespace,
  -- where one is given, is itself acceptable, then the key has only the characters of the server's
  -- whitelist, no two dots in a row, and at most 250 characters, whatever the function is called and
  -- whatever its arguments are.
  pub generated_key_accepted :
      (module_name qualname msgpack_bytes : String) (namespace : Option String)
      (integrity_checking : Bool) (serializer_type : SerializerType)
      → ((s : String) → all is_hex_char (hexdigest s) ≡ true)
      → is_accepted (namespace_text namespace) ≡ true
      → let key =
          generate_key hexdigest encode module_name qualname msgpack_bytes namespace
            integrity_checking serializer_type in
        (is_accepted key ≡ true) × (length key ≤ max_key_length)
  unfolding generate_key normalize_key
  generated_key_accepted m q b n ic ty hex a =
      let parts = joined_parts hexdigest encode m q b n ic ty in
      let ok = parts_accepted m q b n ic ty hex a in
      rw (replace_accepted parts ok)
        (shorten_accepted parts (hex (encode parts)) ok, length-shorten_key parts)
