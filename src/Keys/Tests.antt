-- ===== src/Keys/Tests.antt =====
-- Keys at concrete functions, with a digest that is no digest but has the right form.
use cachekit_py.Common.{◌≤◌, true, [], ◌∷◌, ◌≡◌, refl, Option, some, arith, length, replicate}
use cachekit_py.Keys.Strings.{all}
use cachekit_py.Keys.{
  String, sanitize_func_name, collapse_dots, std, generate_key, joined_parts, max_key_length,
  serializer_code,
}
use cachekit_py.Keys.Names.{valid_name_kept}
use cachekit_py.Keys.Layout.{is_hex_char, is_accepted, namespace_text, generated_key_accepted}
use cachekit_py.Keys.Unique.{generated_key_unique}

-- sixty-four zeros
abbrev toy_digest : String → String
toy_digest s = replicate 64 48

abbrev toy_encode : String → String
toy_encode s = s

toy_digest_hex : (s : String) → all is_hex_char (toy_digest s) ≡ true
toy_digest_hex s = refl

-- `m` and `f.<g>`
abbrev m : String
m = 109 ∷ []

abbrev nested : String
nested = 102 ∷ 46 ∷ 60 ∷ 103 ∷ 62 ∷ []

sanitized_nested : sanitize_func_name m nested ≡ 109 ∷ 46 ∷ 102 ∷ 46 ∷ 95 ∷ 103 ∷ 95 ∷ []
unfolding sanitize_func_name collapse_dots
sanitized_nested = refl

dots_collapse : collapse_dots (97 ∷ 46 ∷ 46 ∷ 46 ∷ 98 ∷ 46 ∷ 46 ∷ []) ≡ 97 ∷ 46 ∷ 98 ∷ 46 ∷ []
unfolding collapse_dots
dots_collapse = refl

short_name_kept : sanitize_func_name m (102 ∷ []) ≡ 109 ∷ 46 ∷ 102 ∷ []
short_name_kept = valid_name_kept m (102 ∷ []) refl refl (omega arith)

-- the namespace `users`
abbrev users : Option String
users = some (117 ∷ 115 ∷ 101 ∷ 114 ∷ 115 ∷ [])

abbrev key : String → String
key packed = generate_key toy_digest toy_encode m nested packed users true std

generated_key_accepted_example :
    (is_accepted (key (147 ∷ [])) ≡ true) × (length (key (147 ∷ [])) ≤ max_key_length)
generated_key_accepted_example =
    generated_key_accepted toy_digest toy_encode m nested (147 ∷ []) users true std toy_digest_hex
      refl

fits :
    (packed : String)
    → length (joined_parts toy_digest toy_encode m nested packed users true std) ≤ max_key_length
unfolding joined_parts sanitize_func_name collapse_dots
fits packed = omega arith

same_key : key (1 ∷ []) ≡ key (2 ∷ [])
unfolding generate_key joined_parts
same_key = refl

generated_key_unique_example :
    (namespace_text users ≡ namespace_text users)
    × (sanitize_func_name m nested ≡ sanitize_func_name m nested)
    × (toy_digest (1 ∷ []) ≡ toy_digest (2 ∷ []))
    × (true ≡ true)
    × (serializer_code std ≡ serializer_code std)
generated_key_unique_example =
    generated_key_unique toy_digest toy_encode m nested (1 ∷ []) m nested (2 ∷ []) users users true
      true std std toy_digest_hex refl refl (fits (1 ∷ [])) (fits (2 ∷ [])) same_key
