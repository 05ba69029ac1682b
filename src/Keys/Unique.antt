-- ===== src/Keys/Unique.antt =====
-- When the keys of src/cachekit/key_generator.py collide: a key that is not shortened can be taken
-- apart again.
use cachekit_py.Common.{
  ℕ, ◌≤◌, Bool, true, false, ◌&&◌, ◌||◌, ◌==◌, not, [], ◌∷◌, ◌++◌, ◌≡◌, refl, length, ltb, arith,
  ◌∙◌, sym, Option, none, some,
}
use cachekit_py.Keys.Strings.{all, all-imp, split_unique, append_separator}
use cachekit_py.Keys.{
  String, colon, is_func_char, max_key_length, sanitize_func_name, SerializerType, serializer_code,
  ic_flag, namespace_parts, func_parts, shorten_key, normalize_key, joined_parts, generate_key,
}
use cachekit_py.Keys.Names.{sanitized_name_valid}
use cachekit_py.Keys.Layout.{
  is_hex_char, is_accepted, namespace_text, parts_accepted, replace_accepted,
}

-- a character of a namespace that does not blur the layout of the key
abbrev pub is_plain_char : ℕ → Bool
is_plain_char c = not (c == colon || c == 32 || c == 10 || c == 13)

plain-hex : (s : String) → all is_hex_char s ≡ true → all is_plain_char s ≡ true
plain-hex s h = all-imp is_hex_char is_plain_char s (λ c p. ground (arith, p)) h

plain-name : (m q : String) → all is_plain_char (sanitize_func_name m q) ≡ true
plain-name m q =
    all-imp is_func_char is_plain_char (sanitize_func_name m q) (λ c p. ground (arith, p))
      (sanitized_name_valid m q).0

func_parts_unique :
    (f g h k : String) (ic ic' : Bool) (ty ty' : SerializerType)
    → all is_plain_char f ≡ true
    → all is_plain_char g ≡ true
    → all is_plain_char h ≡ true
    → all is_plain_char k ≡ true
    → func_parts f h ic ty ≡ func_parts g k ic' ty'
    → (f ≡ g) × (h ≡ k) × (ic ≡ ic') × (serializer_code ty ≡ serializer_code ty')
func_parts_unique f g h k ic ic' ty ty' pf pg ph pk e =
    let separate : (c : ℕ) → is_plain_char c ≡ true → (c == colon) ≡ false =
      λ c p. ground (arith, p) in
    let x = ic_flag ic ∷ serializer_code ty ∷ [] in
    let y = ic_flag ic' ∷ serializer_code ty' ∷ [] in
    let ax = 97 ∷ 114 ∷ 103 ∷ 115 ∷ colon ∷ (h ++ colon ∷ x) in
    let ay = 97 ∷ 114 ∷ 103 ∷ 115 ∷ colon ∷ (k ++ colon ∷ y) in
    let named : f ++ colon ∷ ax ≡ g ++ colon ∷ ay = cc e in
    let (a, e1) = split_unique colon is_plain_char f g ax ay separate pf pg named in
    let hashed : h ++ colon ∷ x ≡ k ++ colon ∷ y = cc e1 in
    let (b, e2) = split_unique colon is_plain_char h k x y separate ph pk hashed in
    let flags : (ic_flag ic ≡ ic_flag ic') × (serializer_code ty ≡ serializer_code ty') =
      (cc e2, cc e2) in
    (a, b, ground (arith, flags), flags.1)

parts_unique :
    (n n' : Option String) (f g h k : String) (ic ic' : Bool) (ty ty' : SerializerType)
    → all is_plain_char (namespace_text n) ≡ true
    → all is_plain_char (namespace_text n') ≡ true
    → namespace_parts n ++ func_parts f h ic ty ≡ namespace_parts n' ++ func_parts g k ic' ty'
    → (namespace_text n ≡ namespace_text n') × (func_parts f h ic ty ≡ func_parts g k ic' ty')
parts_unique none none f g h k ic ic' ty ty' p p' e = (refl, e)
parts_unique none (some []) f g h k ic ic' ty ty' p p' e = (refl, e)
parts_unique (some []) none f g h k ic ic' ty ty' p p' e = (refl, e)
parts_unique (some []) (some []) f g h k ic ic' ty ty' p p' e = (refl, e)
parts_unique none (some (d ∷ t)) f g h k ic ic' ty ty' p p' e = absurd (ground (arith, e))
parts_unique (some []) (some (d ∷ t)) f g h k ic ic' ty ty' p p' e = absurd (ground (arith, e))
parts_unique (some (c ∷ s)) none f g h k ic ic' ty ty' p p' e = absurd (ground (arith, e))
parts_unique (some (c ∷ s)) (some []) f g h k ic ic' ty ty' p p' e = absurd (ground (arith, e))
parts_unique (some (c ∷ s)) (some (d ∷ t)) f g h k ic ic' ty ty' p p' e =
    let x = func_parts f h ic ty in
    let y = func_parts g k ic' ty' in
    let inner : ((c ∷ s) ++ colon ∷ []) ++ x ≡ ((d ∷ t) ++ colon ∷ []) ++ y = cc e in
    split_unique colon is_plain_char (c ∷ s) (d ∷ t) x y (λ b q. ground (arith, q)) p p'
      (sym (append_separator colon (c ∷ s) x) ∙ inner ∙ append_separator colon (d ∷ t) y)

module _ (hexdigest encode : String → String) where
  key_of_parts :
      (m q b : String) (n : Option String) (ic : Bool) (ty : SerializerType)
      → ((s : String) → all is_hex_char (hexdigest s) ≡ true)
      → is_accepted (namespace_text n) ≡ true
      → length (joined_parts hexdigest encode m q b n ic ty) ≤ max_key_length
      → generate_key hexdigest encode m q b n ic ty ≡ joined_parts hexdigest encode m q b n ic ty
  unfolding generate_key normalize_key shorten_key
  key_of_parts m q b n ic ty hex a l =
      let parts = joined_parts hexdigest encode m q b n ic ty in
      let long : ltb max_key_length (length parts) ≡ false = ground (arith, l) in
      rw
        (replace_accepted hexdigest encode parts
          (parts_accepted hexdigest encode m q b n ic ty hex a))
        (rw long refl)

  -- Keys that are not shortened tell everything that they are made of apart. If two calls, each with
  -- an acceptable namespace without a colon or none, have the same key, and the parts of each fit the
  -- 250 characters, then the namespaces, the sanitised names, the digests of the arguments, the
  -- integrity flags and the serializer codes are the same.
  pub generated_key_unique :
      (m q b m' q' b' : String) (n n' : Option String) (ic ic' : Bool) (ty ty' : SerializerType)
      → ((s : String) → all is_hex_char (hexdigest s) ≡ true)
      → is_accepted (namespace_text n) && all is_plain_char (namespace_text n) ≡ true
      → is_accepted (namespace_text n') && all is_plain_char (namespace_text n') ≡ true
      → length (joined_parts hexdigest encode m q b n ic ty) ≤ max_key_length
      → length (joined_parts hexdigest encode m' q' b' n' ic' ty') ≤ max_key_length
      → generate_key hexdigest encode m q b n ic ty
        ≡ generate_key hexdigest encode m' q' b' n' ic' ty'
      → (namespace_text n ≡ namespace_text n')
        × (sanitize_func_name m q ≡ sanitize_func_name m' q')
        × (hexdigest b ≡ hexdigest b')
        × (ic ≡ ic')
        × (serializer_code ty ≡ serializer_code ty')
  unfolding joined_parts
  generated_key_unique m q b m' q' b' n n' ic ic' ty ty' hex a a' l l' e =
      let k = key_of_parts m q b n ic ty hex (ground (arith, a)) l in
      let k' = key_of_parts m' q' b' n' ic' ty' hex (ground (arith, a')) l' in
      let (same, funcs) =
        parts_unique n n' (sanitize_func_name m q) (sanitize_func_name m' q') (hexdigest b)
          (hexdigest b') ic ic' ty ty' (ground (arith, a)) (ground (arith, a')) (sym k ∙ e ∙ k') in
      let (name, digest, flag, code) =
        func_parts_unique (sanitize_func_name m q) (sanitize_func_name m' q') (hexdigest b)
          (hexdigest b') ic ic' ty ty' (plain-name m q) (plain-name m' q')
          (plain-hex (hexdigest b) (hex b)) (plain-hex (hexdigest b') (hex b')) funcs in
      (same, name, digest, flag, code)
