-- ===== src/Keys/Names.antt =====
-- What the names of functions become in a cache key: `_sanitize_func_name` of
-- src/cachekit/key_generator.py, and the tests of a string for two dots in a row.
use cachekit_py.Common.{
  ℕ, zero, suc, ◌≤◌, Bool, true, false, ◌&&◌, ◌==◌, not, [], ◌∷◌, ◌++◌, map, ◌≡◌, refl, length,
  arith,
}
use cachekit_py.Keys.Strings.{take, length-take, take_all, all, all-take, map_fixed}
use cachekit_py.Keys.{
  String, dot, colon, is_func_char, keep_func_char, starts_with_dot, collapse_dots, func_name_max,
  raw_name, sanitize_func_name,
}

-- no two dots in a row
abbrev pub no_double_dot : String → Bool
no_double_dot [] = true
no_double_dot (c ∷ s) = not (c == dot && starts_with_dot s) && no_double_dot s

take-starts_with_dot :
    (n : ℕ) (s : String) → starts_with_dot s ≡ false → starts_with_dot (take n s) ≡ false
take-starts_with_dot zero s h = refl
take-starts_with_dot (suc n) [] h = refl
take-starts_with_dot (suc n) (c ∷ s) h = h

pub no_double_dot-take :
    (n : ℕ) (s : String) → no_double_dot s ≡ true → no_double_dot (take n s) ≡ true
no_double_dot-take zero s h = refl
no_double_dot-take (suc n) [] h = refl
no_double_dot-take (suc n) (c ∷ s) h =
    ground (arith, no_double_dot-take n s, take-starts_with_dot n s)

-- two parts with a separator between them
pub no_double_dot-separated :
    (s t : String)
    → no_double_dot s ≡ true
    → no_double_dot t ≡ true
    → no_double_dot (s ++ colon ∷ t) ≡ true
no_double_dot-separated [] t h k = k
no_double_dot-separated (c ∷ []) t h k = ground arith
no_double_dot-separated (c ∷ d ∷ s) t h k =
    let rest = no_double_dot-separated (d ∷ s) t (ground arith) k in ground (arith, rest)

all-keep_func_char : (s : String) → all is_func_char (map keep_func_char s) ≡ true
all-keep_func_char [] = refl
all-keep_func_char (c ∷ s) = ground (arith, all-keep_func_char s)

all-collapse_dots : (p : ℕ → Bool) (s : String) → all p s ≡ true → all p (collapse_dots s) ≡ true
unfolding collapse_dots
all-collapse_dots p [] h = refl
all-collapse_dots p (c ∷ s) h = ground (arith, all-collapse_dots p s)

no_double_dot-collapse_dots : (s : String) → no_double_dot (collapse_dots s) ≡ true
unfolding collapse_dots
no_double_dot-collapse_dots [] = refl
no_double_dot-collapse_dots (c ∷ s) = ground (arith, no_double_dot-collapse_dots s)

collapse_dots_fixed : (s : String) → no_double_dot s ≡ true → collapse_dots s ≡ s
unfolding collapse_dots
collapse_dots_fixed [] h = refl
collapse_dots_fixed (c ∷ s) h =
    let rest : collapse_dots s ≡ s = collapse_dots_fixed s (ground arith) in rw rest (ground arith)

-- Whatever the module and the qualified name, the sanitised name has only the characters
-- `[A-Za-z0-9_.]`, no two dots in a row, and at most 200 characters.
pub sanitized_name_valid :
    (module_name qualname : String)
    → let s = sanitize_func_name module_name qualname in
      (all is_func_char s ≡ true) × (no_double_dot s ≡ true) × (length s ≤ func_name_max)
unfolding sanitize_func_name
sanitized_name_valid module_name qualname =
    let kept = map keep_func_char (raw_name module_name qualname) in
    let s = collapse_dots kept in
    (
      all-take is_func_char func_name_max s (
          all-collapse_dots is_func_char kept (all-keep_func_char (raw_name module_name qualname))),
      no_double_dot-take func_name_max s (no_double_dot-collapse_dots kept),
      length-take func_name_max s,
    )

-- A name that is already of that form is kept as it is: of two functions with such names, each has its
-- own sanitised name.
pub valid_name_kept :
    (module_name qualname : String)
    → all is_func_char (raw_name module_name qualname) ≡ true
    → no_double_dot (raw_name module_name qualname) ≡ true
    → length (raw_name module_name qualname) ≤ func_name_max
    → sanitize_func_name module_name qualname ≡ raw_name module_name qualname
unfolding sanitize_func_name
valid_name_kept module_name qualname h d l =
    let raw = raw_name module_name qualname in
    let kept : map keep_func_char raw ≡ raw =
      map_fixed is_func_char keep_func_char raw (λ c p. ground (arith, p)) h in
    let same : collapse_dots raw ≡ raw = collapse_dots_fixed raw d in
    rw (kept, same) (take_all func_name_max raw l)
