-- ===== src/OrderedDict/Laws.antt =====
-- The laws of the ordered dictionary: reads after writes, that keys stay distinct, and the sums over
-- its values.
use cachekit_py.Common.{
  ℕ, zero, suc, ◌+◌, ◌≡◌, refl, [], ◌∷◌, ◌++◌, none, some, ite, if_pos, if_neg, arith, length, drop,
  inl, inr, Option-cases,
}
use cachekit_py.OrderedDict.{OrderedDict, get, pop, set, move_to_end, total}

module _ {ℓ} {K V : Type ℓ} (dec : Discrete K) where
  -- no key twice
  abbrev pub IsDistinct : OrderedDict K V → Type ℓ
  IsDistinct [] = Unit
  IsDistinct ((k, v) ∷ d) = (get dec k d ≡ none) × IsDistinct d

  pub get-pop :
      (k j : K) (d : OrderedDict K V) → get dec j (pop dec k d) ≡ ite (dec k j) none (get dec j d)
  unfolding get pop
  get-pop k j [] = ground arith
  get-pop k j ((i, v) ∷ d) = ground (arith, get-pop k j d)

  pub get-append :
      (k j : K) (v : V) (d : OrderedDict K V)
      → get dec j (d ++ (k, v) ∷ [])
        ≡ elim (get dec j d) [ some w ↦ some w | none ↦ ite (dec k j) (some v) none ]
  unfolding get
  get-append k j v [] = ground arith
  get-append k j v ((i, w) ∷ d) = ground (arith, get-append k j v d)

  pub get-set :
      (k j : K) (v : V) (d : OrderedDict K V)
      → get dec j (set dec k v d) ≡ ite (dec k j) (some v) (get dec j d)
  unfolding get set
  get-set k j v [] = refl
  get-set k j v ((i, w) ∷ d) = ground (arith, get-set k j v d)

  pub pop_absent : (k : K) (d : OrderedDict K V) → get dec k d ≡ none → pop dec k d ≡ d
  unfolding get pop
  pop_absent k [] h = refl
  pop_absent k ((i, w) ∷ d) h = ground (arith, pop_absent k d)

  pub set_absent :
      (k : K) (v : V) (d : OrderedDict K V) → get dec k d ≡ none → set dec k v d ≡ d ++ (k, v) ∷ []
  unfolding get set
  set_absent k v [] h = refl
  set_absent k v ((i, w) ∷ d) h = ground (arith, set_absent k v d)

  pub pop-IsDistinct : (k : K) (d : OrderedDict K V) → IsDistinct d → IsDistinct (pop dec k d)
  unfolding pop
  pop-IsDistinct k [] h = h
  pop-IsDistinct k ((i, w) ∷ d) h = elim (dec i k) [
    | yes p ↦ rw (if_pos _ p) (pop-IsDistinct k d h.1)
    | no p ↦ rw (if_neg _ p) (ground (arith, get-pop k i d), pop-IsDistinct k d h.1)
  ]

  pub append-IsDistinct :
      (k : K) (v : V) (d : OrderedDict K V)
      → get dec k d ≡ none
      → IsDistinct d
      → IsDistinct (d ++ (k, v) ∷ [])
  unfolding get
  append-IsDistinct k v [] n h = (refl, tt)
  append-IsDistinct k v ((i, w) ∷ d) n h =
      (ground (arith, get-append k i v d), append-IsDistinct k v d (ground arith) h.1)

  pub total-pop :
      (f : V → ℕ) (k : K) (v : V) (d : OrderedDict K V)
      → get dec k d ≡ some v
      → IsDistinct d
      → total f (pop dec k d) + f v ≡ total f d
  unfolding get pop total
  total-pop f k v [] g h = absurd (cc)
  total-pop f k v ((i, w) ∷ d) g h = ground (arith, pop_absent k d, total-pop f k v d)

  pub total-append :
      (f : V → ℕ) (k : K) (v : V) (d : OrderedDict K V)
      → total f (d ++ (k, v) ∷ []) ≡ total f d + f v
  unfolding total
  total-append f k v [] = omega arith
  total-append f k v ((i, w) ∷ d) = omega (arith, total-append f k v d)

  pub set-IsDistinct :
      (k : K) (v : V) (d : OrderedDict K V) → IsDistinct d → IsDistinct (set dec k v d)
  unfolding set
  set-IsDistinct k v [] h = unfold get in (refl, tt)
  set-IsDistinct k v ((i, w) ∷ d) h = elim (dec i k) [
    | yes p ↦ rw (if_pos _ p) (rw (← p) h.0, h.1)
    | no p ↦ rw (if_neg _ p) (ground (arith, get-set k i v d), set-IsDistinct k v d h.1)
  ]

  pub total-set :
      (f : V → ℕ) (k : K) (v w : V) (d : OrderedDict K V)
      → get dec k d ≡ some v
      → total f (set dec k w d) + f v ≡ total f d + f w
  unfolding get set total
  total-set f k v w [] g = absurd (cc)
  total-set f k v w ((i, x) ∷ d) g = ground (arith, total-set f k v w d)

  -- a move changes the order and nothing that a read can see
  pub get-move_to_end :
      (k j : K) (d : OrderedDict K V) → get dec j (move_to_end dec k d) ≡ get dec j d
  unfolding move_to_end
  get-move_to_end k j d = elim (Option-cases (get dec k d)) [
    | inl e ↦ rw (e, move_to_end)
    | inr (v, e) ↦
        rw (e, move_to_end) (ground (arith, get-append k j v (pop dec k d), get-pop k j d))
  ]

  pub move_to_end-IsDistinct :
      (k : K) (d : OrderedDict K V) → IsDistinct d → IsDistinct (move_to_end dec k d)
  unfolding move_to_end
  move_to_end-IsDistinct k d h = elim (Option-cases (get dec k d)) [
    | inl e ↦ rw (e, move_to_end) h
    | inr (v, e) ↦
        rw (e, move_to_end)
          (append-IsDistinct k v (pop dec k d) (ground (arith, get-pop k k d))
            (pop-IsDistinct k d h))
  ]

  pub total-move_to_end :
      (f : V → ℕ) (k : K) (d : OrderedDict K V)
      → IsDistinct d
      → total f (move_to_end dec k d) ≡ total f d
  unfolding move_to_end
  total-move_to_end f k d h = elim (Option-cases (get dec k d)) [
    | inl e ↦ rw (e, move_to_end)
    | inr (v, e) ↦
        rw (e, move_to_end) (omega (arith, total-append f k v (pop dec k d), total-pop f k v d e h))
  ]

-- the number of entries is a sum
pub length-total {ℓ} : {K V : Type ℓ} (d : OrderedDict K V) → total (λ _. 1) d ≡ length d
unfolding total
length-total [] = refl
length-total (e ∷ d) = omega (arith, length-total d)

-- a suffix has the entries that it has
module _ {ℓ} {K V : Type ℓ} (dec : Discrete K) where
  pub drop-IsDistinct : (n : ℕ) (d : OrderedDict K V) → IsDistinct dec d → IsDistinct dec (drop n d)
  drop-IsDistinct zero d h = h
  drop-IsDistinct (suc n) [] h = h
  drop-IsDistinct (suc n) ((k, v) ∷ d) h = drop-IsDistinct n d h.1

  pub get-drop_absent :
      (n : ℕ) (k : K) (d : OrderedDict K V) → get dec k d ≡ none → get dec k (drop n d) ≡ none
  unfolding get
  get-drop_absent zero k d h = h
  get-drop_absent (suc n) k [] h = h
  get-drop_absent (suc n) k ((j, v) ∷ d) h = get-drop_absent n k d (ground arith)

  pub get-drop_found :
      (n : ℕ) (k : K) (v : V) (d : OrderedDict K V)
      → IsDistinct dec d
      → get dec k (drop n d) ≡ some v
      → get dec k d ≡ some v
  unfolding get
  get-drop_found zero k v d h e = e
  get-drop_found (suc n) k v [] h e = e
  get-drop_found (suc n) k v ((j, w) ∷ d) h e =
      let rest = get-drop_found n k v d h.1 e in ground arith
