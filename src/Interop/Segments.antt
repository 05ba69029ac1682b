-- ===== src/Interop/Segments.antt =====
-- The keys of the language-neutral mode of src/cachekit/interop.py: which configurations make a key,
-- and when two keys are the same.
use cachekit_py.Common.{
  ℕ, ◌≤◌, Bool, true, false, ◌==◌, [], ◌∷◌, ◌++◌, Option, none, some, length, length-append, ◌≡◌,
  refl, arith, Bool-cases, inl, inr, ◌↔◌, sym, ◌∙◌,
}
use cachekit_py.Keys.{String, colon}
use cachekit_py.Keys.Strings.{all, split_unique}
use cachekit_py.Interop.{
  ok, is_segment_char, matches_segment, Segment, text, other_object, validate_segment,
  validate_interop_config, interop_key, generate_interop_key,
}

segment_free : (s : String) → matches_segment s ≡ true → all is_segment_char s ≡ true
unfolding matches_segment
segment_free [] h = refl
segment_free (c ∷ s) h = ground arith

length-segment : (s : String) → matches_segment s ≡ true → length s ≤ 64
unfolding matches_segment
length-segment [] h = omega arith
length-segment (c ∷ s) h = ground arith

made_of_segments :
    (ns op hash key : String)
    → generate_interop_key ns op hash ≡ ok key
    → (matches_segment ns ≡ true) × (matches_segment op ≡ true) × (key ≡ interop_key ns op hash)
unfolding generate_interop_key validate_segment
made_of_segments ns op hash key h = elim (Bool-cases (matches_segment ns)) [
  | inl n ↦ elim (Bool-cases (matches_segment op)) [
    | inl o ↦ (n, o, ground arith)
    | inr o ↦ absurd (ground arith)
  ]
  | inr n ↦ absurd (ground arith)
]

-- Two keys of the language-neutral mode are the same only if they have the same namespace, the same
-- operation and the same digest of the arguments, and with a digest of 64 characters a key has at
-- most 194.
pub interop_key_unique :
    (ns op hash ns' op' hash' key : String)
    → generate_interop_key ns op hash ≡ ok key
    → generate_interop_key ns' op' hash' ≡ ok key
    → length hash ≡ 64
    → (ns ≡ ns') × (op ≡ op') × (hash ≡ hash') × (length key ≤ 194)
interop_key_unique ns op hash ns' op' hash' key h h' l =
    let (n, o, e) = made_of_segments ns op hash key h in
    let (n', o', e') = made_of_segments ns' op' hash' key h' in
    let separate : (c : ℕ) → is_segment_char c ≡ true → (c == colon) ≡ false =
      λ c p. ground (arith, p) in
    let (a, r) =
      split_unique colon is_segment_char ns ns' (op ++ colon ∷ hash) (op' ++ colon ∷ hash') separate
        (segment_free ns n) (segment_free ns' n') (sym e ∙ e') in
    let (b, c) =
      split_unique colon is_segment_char op op' hash hash' separate (segment_free op o)
        (segment_free op' o') r in
    let size : length (interop_key ns op hash) ≤ 194 = omega (
      arith,
      length-append ns (colon ∷ (op ++ colon ∷ hash)),
      length-append op (colon ∷ hash),
      length-segment ns n,
      length-segment op o,
    ) in
    (a, b, c, rw e size)

abbrev IsAccepted : Segment → Option Segment → Bool → String → String → Type 0
IsAccepted operation namespace has_custom_key ns op =
    (operation ≡ text op)
    × (namespace ≡ some (text ns))
    × (has_custom_key ≡ false)
    × (matches_segment op ≡ true)
    × (matches_segment ns ≡ true)

validate_interop_config-IsAccepted :
    (operation : Segment) (namespace : Option Segment) (has_custom_key : Bool) (ns op : String)
    → validate_interop_config operation namespace has_custom_key ≡ ok (op, ns)
    → IsAccepted operation namespace has_custom_key ns op
unfolding validate_interop_config validate_segment
validate_interop_config-IsAccepted other_object n k ns op h = absurd (cc h)
validate_interop_config-IsAccepted (text s) none k ns op h = ground arith
validate_interop_config-IsAccepted (text s) (some other_object) k ns op h = ground arith
validate_interop_config-IsAccepted (text s) (some (text r)) false ns op h = ground arith
validate_interop_config-IsAccepted (text s) (some (text r)) true ns op h = ground arith

IsAccepted-validate_interop_config :
    (operation : Segment) (namespace : Option Segment) (has_custom_key : Bool) (ns op : String)
    → IsAccepted operation namespace has_custom_key ns op
    → validate_interop_config operation namespace has_custom_key ≡ ok (op, ns)
unfolding validate_interop_config validate_segment
IsAccepted-validate_interop_config operation namespace has_custom_key ns op (o, n, k, p, q) =
    rw (o, n, k, p) (rw q refl)

key_made :
    (ns op hash : String)
    → matches_segment op ≡ true
    → matches_segment ns ≡ true
    → generate_interop_key ns op hash ≡ ok (interop_key ns op hash)
unfolding generate_interop_key validate_segment
key_made ns op hash p q = rw (p, q) refl

-- The two places that check the segments agree. A configuration of the language-neutral mode is
-- accepted, with an operation and a namespace, exactly if these are the strings that it was given, there
-- is no custom key, and `generate_interop_key` makes a key from them with every digest.
pub accepted_config_exact :
    (operation : Segment) (namespace : Option Segment) (has_custom_key : Bool) (ns op hash : String)
    → (validate_interop_config operation namespace has_custom_key ≡ ok (op, ns)) ↔ (
        (operation ≡ text op)
        × (namespace ≡ some (text ns))
        × (has_custom_key ≡ false)
        × (generate_interop_key ns op hash ≡ ok (interop_key ns op hash)))
accepted_config_exact operation namespace has_custom_key ns op hash = (
  λ h.
      let (o, n, k, p, q) =
        validate_interop_config-IsAccepted operation namespace has_custom_key ns op h in
      (o, n, k, key_made ns op hash p q),
  λ h.
      let (p, q, _) = made_of_segments ns op hash (interop_key ns op hash) h.3 in
      IsAccepted-validate_interop_config operation namespace has_custom_key ns op
        (h.0, h.1, h.2, q, p),
)
