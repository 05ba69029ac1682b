-- ===== src/Keys/Strings.antt =====
-- Strings as lists of code points, for src/cachekit/key_generator.py: slices, tests of every
-- character, and the separator of the parts of a key.
use cachekit_py.Common.{
  ℕ, zero, suc, ◌≤◌, Bool, true, false, ◌&&◌, ◌==◌, List, [], ◌∷◌, ◌++◌, map, ◌≡◌, refl, ap, length,
  arith,
}

module _ {ℓ} {A : Type ℓ} where
  -- `s[:n]`
  abbrev pub take : ℕ → List A → List A
  take zero s = []
  take (suc n) [] = []
  take (suc n) (c ∷ s) = c ∷ take n s

  pub length-take : (n : ℕ) (s : List A) → length (take n s) ≤ n
  length-take zero s = omega arith
  length-take (suc n) [] = omega arith
  length-take (suc n) (c ∷ s) = omega (arith, length-take n s)

  pub take_all : (n : ℕ) (s : List A) → length s ≤ n → take n s ≡ s
  take_all zero [] h = refl
  take_all zero (c ∷ s) h = absurd (omega arith)
  take_all (suc n) [] h = refl
  take_all (suc n) (c ∷ s) h = ap (λ t. c ∷ t) (take_all n s (omega arith))

  abbrev pub all : (A → Bool) → List A → Bool
  all p [] = true
  all p (c ∷ s) = p c && all p s

  pub all-take : (p : A → Bool) (n : ℕ) (s : List A) → all p s ≡ true → all p (take n s) ≡ true
  all-take p zero s h = refl
  all-take p (suc n) [] h = refl
  all-take p (suc n) (c ∷ s) h = ground (arith, all-take p n s)

  pub all-append :
      (p : A → Bool) (s t : List A) → all p s ≡ true → all p t ≡ true → all p (s ++ t) ≡ true
  all-append p [] t h k = k
  all-append p (c ∷ s) t h k = ground (arith, all-append p s t)

  pub all-imp :
      (p q : A → Bool) (s : List A)
      → ((c : A) → p c ≡ true → q c ≡ true)
      → all p s ≡ true
      → all q s ≡ true
  all-imp p q [] f h = refl
  all-imp p q (c ∷ s) f h = ground (arith, all-imp p q s f, f c)

  pub map_fixed :
      (p : A → Bool) (f : A → A) (s : List A)
      → ((c : A) → p c ≡ true → f c ≡ c)
      → all p s ≡ true
      → map f s ≡ s
  map_fixed p f [] k h = refl
  map_fixed p f (c ∷ s) k h =
      let first : f c ≡ c = k c (ground arith) in
      let rest : map f s ≡ s = map_fixed p f s k (ground arith) in cc (first, rest)

-- a separator put at the end of a part, and the parts that follow
pub append_separator : (sep : ℕ) (s t : List ℕ) → (s ++ sep ∷ []) ++ t ≡ s ++ sep ∷ t
append_separator sep [] t = refl
append_separator sep (c ∷ s) t = ap (λ u. c ∷ u) (append_separator sep s t)

-- A separator splits a string in one way, where the part before it is free of it.
pub split_unique :
    (sep : ℕ) (free : ℕ → Bool) (s t x y : List ℕ)
    → ((c : ℕ) → free c ≡ true → (c == sep) ≡ false)
    → all free s ≡ true
    → all free t ≡ true
    → s ++ sep ∷ x ≡ t ++ sep ∷ y
    → (s ≡ t) × (x ≡ y)
split_unique sep free [] [] x y f h k e = (refl, cc e)
split_unique sep free [] (d ∷ t) x y f h k e =
    let q : sep ≡ d = cc e in absurd (ground (arith, f d, k))
split_unique sep free (c ∷ s) [] x y f h k e =
    let q : c ≡ sep = cc e in absurd (ground (arith, f c, h))
split_unique sep free (c ∷ s) (d ∷ t) x y f h k e =
    let q : c ≡ d = cc e in
    let r : s ++ sep ∷ x ≡ t ++ sep ∷ y = cc e in
    let (a, b) = split_unique sep free s t x y f (ground (arith, h)) (ground (arith, k)) r in
    (cc (q, a), b)
