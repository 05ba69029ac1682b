-- ===== src/ObjectCache/Fits.antt =====
-- Eviction from the object cache makes room: its loop ends by its test or with an empty store.
use cachekit_py.Common.{
  ℕ, zero, suc, ◌+◌, ◌≤◌, ◌<◌, ◌≡◌, ◌⊎◌, ap, ◌∙◌, refl, Bool, true, false, [], ◌∷◌, Option, none,
  some, arith, inl, inr, Bool-cases, length,
}
use cachekit_py.OrderedDict
use cachekit_py.OrderedDict.{total}
use cachekit_py.OrderedDict.Laws.{IsDistinct, total-pop, length-total}
use cachekit_py.ObjectCache.State.{Entry, ObjectCache}
use cachekit_py.ObjectCache.Evict.{remove, evict_round, evict_lru, sweep, evict, over_bounds}
use cachekit_py.ObjectCache.Invariant.{
  size_of, IsCounted, remove-IsCounted, evict-IsCounted, evict-SameSettings, remove_all_induction,
}

-- a number within a bound that may be absent
abbrev pub Within : ℕ → Option ℕ → Type 0
Within n none = Unit
Within n (some m) = n ≤ m

abbrev pub IsPositive : Option ℕ → Type 0
IsPositive none = Unit
IsPositive (some m) = 0 < m

module _ {K V : Type 0} (dec : Discrete K) where
  pub length-pop :
      (k : K) (x : Entry V) (d : OrderedDict.OrderedDict K (Entry V))
      → OrderedDict.get dec k d ≡ some x
      → IsDistinct dec d
      → length (OrderedDict.pop dec k d) + 1 ≡ length d
  length-pop k x d e h = omega (
    arith,
    total-pop dec (λ _. 1) k x d e h,
    length-total d,
    length-total (OrderedDict.pop dec k d),
  )

  pub length-remove :
      (k : K) (x : Entry V) (c : ObjectCache K V)
      → OrderedDict.get dec k c.store ≡ some x
      → IsDistinct dec c.store
      → length (remove dec k c).store + 1 ≡ length c.store
  unfolding remove
  length-remove k x c e h = rw (e, remove) (length-pop k x c.store e h)

  get_first :
      (c : ObjectCache K V) (e : K × Entry V) (rest : OrderedDict.OrderedDict K (Entry V))
      → c.store ≡ e ∷ rest
      → OrderedDict.get dec e.0 c.store ≡ some e.1
  unfolding OrderedDict.get
  get_first c e rest p = ground arith

  module _ (extra : ℕ) (need : Bool) where
    -- the loop's test fails, or nothing is left
    abbrev Ends : ObjectCache K V → Type 0
    Ends c = (over_bounds dec extra need c ≡ false) ⊎ (c.store ≡ [])

    round-Ends :
        (next : K → ObjectCache K V) (over : Bool) (d : OrderedDict.OrderedDict K (Entry V))
        (c : ObjectCache K V)
        → c.store ≡ d
        → over_bounds dec extra need c ≡ over
        → ((e : K × Entry V) (rest : OrderedDict.OrderedDict K (Entry V))
            → c.store ≡ e ∷ rest
            → Ends (next e.0))
        → Ends (evict_round dec next over d c)
    unfolding evict_round
    round-Ends next over [] c p q n = inr p
    round-Ends next true (e ∷ rest) c p q n = n e rest p
    round-Ends next false (e ∷ rest) c p q n = inl q

    evict_lru-Ends :
        (fuel : ℕ) (c : ObjectCache K V)
        → IsCounted dec c
        → length c.store ≤ fuel
        → Ends (evict_lru dec fuel extra need c)
    unfolding evict_lru
    evict_lru-Ends zero c h l = inr (empty c.store l)
      where
        empty : (d : OrderedDict.OrderedDict K (Entry V)) → length d ≤ 0 → d ≡ []
        empty [] l = refl
        empty (e ∷ d) l = absurd (omega arith)
    evict_lru-Ends (suc fuel) c h l =
        round-Ends (λ k. evict_lru dec fuel extra need (remove dec k c)) _ c.store c refl refl
          λ e rest p.
            evict_lru-Ends fuel (remove dec e.0 c) (remove-IsCounted dec e.0 c h)
              (omega (arith, length-remove e.0 e.1 c (get_first c e rest p) h.distinct))

    over_bounds_empty :
        (c : ObjectCache K V)
        → IsCounted dec c
        → IsPositive c.max_entries
        → Within extra c.max_size_bytes
        → c.store ≡ []
        → over_bounds dec extra need c ≡ false
    unfolding over_bounds total
    over_bounds_empty c h p w e =
        let z : c.current_size_bytes ≡ 0 = h.counted ∙ ap (total size_of) e in ground arith

    Ends-fits :
        (c : ObjectCache K V)
        → IsCounted dec c
        → IsPositive c.max_entries
        → Within extra c.max_size_bytes
        → Ends c
        → over_bounds dec extra need c ≡ false
    Ends-fits c h p w (inl q) = q
    Ends-fits c h p w (inr e) = over_bounds_empty c h p w e

    evict-Ends :
        (now : ℕ) (c : ObjectCache K V) → IsCounted dec c → Ends (evict dec now extra need c)
    unfolding evict sweep
    evict-Ends now c h = elim (Bool-cases (over_bounds dec extra need c)) [
      | inr fits ↦ rw fits (inl fits)
      | inl over ↦ rw over (
          evict_lru-Ends _ _ (remove_all_induction dec (IsCounted dec) (remove-IsCounted dec) _ c h)
            (omega arith))
    ]

    -- After an eviction the pending write fits, provided that it fits at all.
    pub evict_fits :
        (now : ℕ) (c : ObjectCache K V)
        → IsCounted dec c
        → IsPositive c.max_entries
        → Within extra c.max_size_bytes
        → over_bounds dec extra need (evict dec now extra need c) ≡ false
    evict_fits now c h p w =
        let kept = evict-SameSettings dec now extra need c in
        Ends-fits (evict dec now extra need c) (evict-IsCounted dec now extra need c h)
          (rw kept.same_entries p) (rw kept.same_bytes w) (evict-Ends now c h)
