-- ===== src/Interop/Order.antt =====
-- The order of the fields of a map, for `_encode` of src/cachekit/interop.py: Python's order of
-- strings, and the sorting of the entries.
use cachekit_py.Common.{
  ℕ, Bool, true, false, List, [], ◌∷◌, Option, some, ◌≡◌, ◌≢◌, refl, ap, ◌∙◌, arith, Bool-cases,
  inl, inr,
}
use cachekit_py.Common.Int.{ℤ}
use cachekit_py.Keys.{String}
use cachekit_py.Interop.Values.{
  Value, dict, Fields, field_and, leb_key, count_fields, string_keys, Entry, insert_entry,
  sort_entries, encode, encode_fields,
}

leb_key_total : (s t : String) → leb_key s t ≡ false → leb_key t s ≡ true
leb_key_total [] t h = absurd (cc h)
leb_key_total (c ∷ s) [] h = refl
leb_key_total (c ∷ s) (d ∷ t) h = ground (arith, leb_key_total s t)

leb_key_antisym : (s t : String) → leb_key s t ≡ true → leb_key t s ≡ true → s ≡ t
leb_key_antisym [] [] h k = refl
leb_key_antisym [] (d ∷ t) h k = absurd (cc k)
leb_key_antisym (c ∷ s) [] h k = absurd (cc h)
leb_key_antisym (c ∷ s) (d ∷ t) h k = ground (arith, leb_key_antisym s t)

leb_key_trans : (s t u : String) → leb_key s t ≡ true → leb_key t u ≡ true → leb_key s u ≡ true
leb_key_trans [] t u h k = refl
leb_key_trans (c ∷ s) [] u h k = absurd (cc h)
leb_key_trans (c ∷ s) (d ∷ t) [] h k = absurd (cc k)
leb_key_trans (c ∷ s) (d ∷ t) (e ∷ u) h k = ground (arith, leb_key_trans s t u)

-- of two different strings, one comes first
strict : (s t : String) → s ≢ t → leb_key s t ≡ true → leb_key t s ≡ false
strict s t d h = ground (arith, leb_key_antisym s t)

-- what is not before a string is not before an earlier one
not_before : (s t u : String) → leb_key s t ≡ true → leb_key u t ≡ false → leb_key u s ≡ false
not_before s t u h k = ground (arith, leb_key_trans u s t, h, k)

insert_swap :
    (a b : Entry) (es : List Entry)
    → a.0 ≢ b.0
    → insert_entry a (insert_entry b es) ≡ insert_entry b (insert_entry a es)
insert_swap (j, x) (k, y) [] d = elim (Bool-cases (leb_key j k)) [
  | inl p ↦ let q = strict j k d p in rw (p, q) refl
  | inr p ↦ let q = leb_key_total j k p in rw (p, q) refl
]
insert_swap (j, x) (k, y) ((i, z) ∷ es) d =
    let rest = insert_swap (j, x) (k, y) es d in
    elim (Bool-cases (leb_key j i)) [
      | inl p ↦ elim (Bool-cases (leb_key k i)) [
        | inl q ↦ elim (Bool-cases (leb_key j k)) [
          | inl r ↦ let s = strict j k d r in rw (p, q, r, s) refl
          | inr r ↦ let s = leb_key_total j k r in rw (p, q, r, s) (rw p refl)
        ]
        | inr q ↦ let s = not_before j i k p q in rw (p, q) (rw (p, s) refl)
      ]
      | inr p ↦ elim (Bool-cases (leb_key k i)) [
        | inl q ↦ let s = not_before k i j q p in rw (p, q) (rw s (rw p refl))
        | inr q ↦ rw (p, q) (rw p (ap (λ fs. (i, z) ∷ fs) rest))
      ]
    ]

-- the fields of the same map, put in one after the other in another order
pub data Reordered {F : Type 0} : Fields F → Fields F → Type 0 where
  same_order : (fs : Fields F) → Reordered fs fs
  keep :
      (k : Option String) (v : Value F) (fs gs : Fields F)
      → Reordered fs gs
      → Reordered (field_and k v fs) (field_and k v gs)
  swap :
      (j k : String) (v w : Value F) (fs : Fields F)
      → j ≢ k
      → Reordered
          (field_and (some j) v (field_and (some k) w fs))
          (field_and (some k) w (field_and (some j) v fs))
  both : (fs gs hs : Fields F) → Reordered fs gs → Reordered gs hs → Reordered fs hs

module _ {F : Type 0} (is_finite : F → Bool) (as_integer : F → Option ℤ) (pack : F → List ℕ)
    (utf8 : String → Option (List ℕ)) (collapse : Bool) where
  Reordered-parts :
      {fs gs : Fields F}
      → Reordered fs gs
      → (count_fields fs ≡ count_fields gs)
        × (string_keys fs ≡ string_keys gs)
        × (sort_entries (encode_fields is_finite as_integer pack utf8 collapse fs)
            ≡ sort_entries (encode_fields is_finite as_integer pack utf8 collapse gs))
  unfolding encode_fields
  Reordered-parts (same_order fs) = (refl, refl, refl)
  Reordered-parts (keep k v fs gs r) =
      let (n, s, e) = Reordered-parts r in (cc n, cc s, ap (insert_entry _) e)
  Reordered-parts (swap j k v w fs d) = (refl, refl, insert_swap _ _ _ d)
  Reordered-parts (both fs gs hs r s) =
      let (n, t, e) = Reordered-parts r in
      let (n', t', e') = Reordered-parts s in (n ∙ n', t ∙ t', e ∙ e')

  -- The encoding of a map does not depend on the order in which its fields were put in: fields with
  -- different string keys can change places, anywhere in the map and in both profiles, and the
  -- bytes, or the error, stay the same.
  pub map_order_ignored :
      (fs gs : Fields F)
      → Reordered fs gs
      → encode is_finite as_integer pack utf8 collapse (dict fs)
        ≡ encode is_finite as_integer pack utf8 collapse (dict gs)
  unfolding encode
  map_order_ignored fs gs r = let (n, s, e) = Reordered-parts r in rw (n, s, e) refl
