-- ===== src/OrderedDict.antt =====
-- Python's `OrderedDict`, as src/cachekit/object_cache.py and src/cachekit/l1_cache.py use it: the
-- entries in order, the least recently used first, over keys with a decidable equality.
pub mod Laws
use cachekit_py.Common.{ℕ, zero, ◌+◌, Bool, List, [], ◌∷◌, ◌++◌, Option, none, some, ite}

abbrev pub OrderedDict {ℓ} : Type ℓ → Type ℓ → Type ℓ
OrderedDict K V = List (K × V)

module _ {ℓ} {K V : Type ℓ} (dec : Discrete K) where
  -- `d.get(k)`
  unfoldable pub get : K → OrderedDict K V → Option V
  get k [] = none
  get k ((j, v) ∷ d) = ite (dec j k) (some v) (get k d)

  -- `d.pop(k, None)`, the value dropped
  unfoldable pub pop : K → OrderedDict K V → OrderedDict K V
  pop k [] = []
  pop k ((j, v) ∷ d) = let rest = pop k d in ite (dec j k) rest ((j, v) ∷ rest)

  -- `d[k] = v`: in place for a key that is there, otherwise at the end
  unfoldable pub set : K → V → OrderedDict K V → OrderedDict K V
  set k v [] = (k, v) ∷ []
  set k v ((j, w) ∷ d) = let rest = set k v d in ite (dec j k) ((k, v) ∷ d) ((j, w) ∷ rest)

  move_found : K → Option V → OrderedDict K V → OrderedDict K V
  move_found k none d = d
  move_found k (some v) d = pop k d ++ (k, v) ∷ []

  -- `d.move_to_end(k)` for a key that is there
  unfoldable pub move_to_end : K → OrderedDict K V → OrderedDict K V
  unfolding move_found
  move_to_end k d = move_found k (get k d) d

-- the sum of a number over the values
unfoldable pub total {ℓ} : {K V : Type ℓ} → (V → ℕ) → OrderedDict K V → ℕ
total f [] = 0
total f ((k, v) ∷ d) = f v + total f d
