-- ===== src/Interop/Canonical.antt =====
-- Canonical values of src/cachekit/interop.py, with the keys of every map in order, their size, and
-- how an encoding falls into parts.
use cachekit_py.Common.{
  ℕ, suc, ◌+◌, Bool, true, false, ◌&&◌, List, [], ◌∷◌, ◌++◌, Option, if◌then◌else◌, ◌≡◌, refl, ap,
  arith,
}
use cachekit_py.Keys.{String}
use cachekit_py.Interop.{InteropFailure, Result, ok, raise}
use cachekit_py.Interop.Encode.{then_bytes}
use cachekit_py.Interop.Values.{
  Value, pre_encoded, array, dict, Values, no_values, value_and, Fields, no_fields, field_and,
  key_text, leb_key,
}

abbrev pub key_below : {F : Type 0} → Option String → Fields F → Bool
key_below k no_fields = true
key_below k (field_and j v fs) = leb_key (key_text k) (key_text j)

module _ {F : Type 0} where
  -- the nodes of a value
  unfoldable mutual
    pub need : Value F → ℕ
    need (array vs) = suc (need_values vs)
    need (dict fs) = suc (need_fields fs)
    need _ = 1

    pub need_values : Values F → ℕ
    need_values no_values = 1
    need_values (value_and v vs) = suc (need v + need_values vs)

    pub need_fields : Fields F → ℕ
    need_fields no_fields = 1
    need_fields (field_and k v fs) = suc (suc (need v + need_fields fs))

  -- the keys of every map in order, and no elements that were encoded before
  unfoldable mutual
    pub is_canonical : Value F → Bool
    is_canonical (array vs) = canonical_values vs
    is_canonical (dict fs) = canonical_fields fs
    is_canonical (pre_encoded elements) = false
    is_canonical _ = true

    pub canonical_values : Values F → Bool
    canonical_values no_values = true
    canonical_values (value_and v vs) = is_canonical v && canonical_values vs

    pub canonical_fields : Fields F → Bool
    canonical_fields no_fields = true
    canonical_fields (field_and k v fs) = is_canonical v && key_below k fs && canonical_fields fs

-- an encoding in two parts
pub both_parts :
    (x y : Result (List ℕ)) (b : List ℕ)
    → then_bytes x y ≡ ok b
    → (p : List ℕ) × (q : List ℕ) × (x ≡ ok p) × (y ≡ ok q) × (b ≡ p ++ q)
both_parts (raise e) y b h = absurd (cc h)
both_parts (ok p) (raise e) b h = absurd (cc h)
both_parts (ok p) (ok q) b h = (p, q, refl, refl, ground arith)

pub guarded :
    (c : Bool) (x : Result (List ℕ)) (e : InteropFailure) (b : List ℕ)
    → (if c then x else raise e) ≡ ok b
    → (c ≡ true) × (x ≡ ok b)
guarded true x e b h = (refl, h)
guarded false x e b h = absurd (cc h)

pub both_true : (a b : Bool) → a && b ≡ true → (a ≡ true) × (b ≡ true)
both_true true b h = (refl, h)
both_true false b h = absurd (cc h)

pub append_three : (p q r : List ℕ) → p ++ q ++ r ≡ p ++ (q ++ r)
append_three [] q r = refl
append_three (b ∷ p) q r = ap (λ s. b ∷ s) (append_three p q r)
