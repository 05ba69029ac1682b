-- ===== src/ObjectCache/Invariant.antt =====
-- What every call keeps of the object cache: distinct keys, the byte count, the generations, and the
-- markers of the refreshes in flight.
use cachekit_py.Common.{
  ℕ, zero, suc, ◌≤◌, ◌≡◌, refl, Bool, true, false, List, [], ◌∷◌, Option, none, some, arith, inl,
  inr, Option-cases, Bool-cases,
}
use cachekit_py.OrderedDict
use cachekit_py.OrderedDict.{total}
use cachekit_py.OrderedDict.Laws.{IsDistinct, get-pop, pop-IsDistinct, total-pop}
use cachekit_py.ObjectCache.State.{Entry, ObjectCache}
use cachekit_py.ObjectCache.Evict.{
  remove, over_bounds, remove_all, evict_round, evict_lru, sweep, evict,
}

abbrev pub size_of : {V : Type 0} → Entry V → ℕ
size_of e = e.size_bytes

module _ {K V : Type 0} (dec : Discrete K) where
  -- An entry is the one that a marker is for.
  abbrev pub HasGeneration : Option (Entry V) → ℕ → Type 0
  HasGeneration none g = ⊥
  HasGeneration (some e) g = e.generation ≡ g

  abbrev pub IsStamped : Option (Entry V) → ℕ → Type 0
  IsStamped none g = Unit
  IsStamped (some e) g = e.generation ≤ g

  pub record IsCounted (c : ObjectCache K V) : Type 0 where
    pub distinct : IsDistinct dec c.store
    pub counted : c.current_size_bytes ≡ total size_of c.store
    pub marked :
        (k : K) (g : ℕ)
        → OrderedDict.get dec k c.refreshing ≡ some g
        → HasGeneration (OrderedDict.get dec k c.store) g
    pub stamped : (k : K) → IsStamped (OrderedDict.get dec k c.store) c.generation

  pub remove-IsCounted : (k : K) (c : ObjectCache K V) → IsCounted c → IsCounted (remove dec k c)
  unfolding remove
  remove-IsCounted k c h = elim (Option-cases (OrderedDict.get dec k c.store)) [
    | inl e ↦ rw (e, remove) h
    | inr (x, e) ↦
        rw (e, remove)
          (record {
            distinct = pop-IsDistinct dec k c.store h.distinct;
            counted = omega (arith, total-pop dec size_of k x c.store e h.distinct, h.counted);
            marked = λ j g. simp get-pop (ground (arith, h.marked j g));
            stamped = λ j. rw get-pop (ground (arith, h.stamped j));
          })
  ]

  module _ (P : ObjectCache K V → Type 0)
      (keep : (k : K) (c : ObjectCache K V) → P c → P (remove dec k c)) where
    pub remove_all_induction :
        (keys : List K) (c : ObjectCache K V) → P c → P (remove_all dec keys c)
    unfolding remove_all
    remove_all_induction [] c h = h
    remove_all_induction (k ∷ keys) c h = remove_all_induction keys (remove dec k c) (keep k c h)

    evict_round_induction :
        (next : K → ObjectCache K V)
        → ((k : K) → P (next k))
        → (over : Bool) (d : OrderedDict.OrderedDict K (Entry V)) (c : ObjectCache K V) → P c
        → P (evict_round dec next over d c)
    unfolding evict_round
    evict_round_induction next n over [] c h = h
    evict_round_induction next n true (e ∷ rest) c h = n e.0
    evict_round_induction next n false (e ∷ rest) c h = h

    pub evict_lru_induction :
        (fuel extra : ℕ) (need : Bool) (c : ObjectCache K V)
        → P c
        → P (evict_lru dec fuel extra need c)
    unfolding evict_lru
    evict_lru_induction zero extra need c h = h
    evict_lru_induction (suc fuel) extra need c h =
        evict_round_induction (λ k. evict_lru dec fuel extra need (remove dec k c))
          (λ k. evict_lru_induction fuel extra need (remove dec k c) (keep k c h))
          (over_bounds dec extra need c) c.store c h

    -- what every removal keeps, eviction keeps
    pub evict_induction :
        (now extra : ℕ) (need : Bool) (c : ObjectCache K V) → P c → P (evict dec now extra need c)
    unfolding evict sweep
    evict_induction now extra need c h = elim (Bool-cases (over_bounds dec extra need c)) [
      | inl over ↦ rw over (evict_lru_induction _ extra need _ (remove_all_induction _ c h))
      | inr fits ↦ rw fits h
    ]

  pub evict-IsCounted :
      (now extra : ℕ) (need : Bool) (c : ObjectCache K V)
      → IsCounted c
      → IsCounted (evict dec now extra need c)
  evict-IsCounted = evict_induction IsCounted remove-IsCounted

  -- the key stays away
  abbrev Lacks : K → ObjectCache K V → Type 0
  Lacks k c = OrderedDict.get dec k c.store ≡ none

  remove-Lacks : (k j : K) (c : ObjectCache K V) → Lacks k c → Lacks k (remove dec j c)
  unfolding remove
  remove-Lacks k j c h = elim (Option-cases (OrderedDict.get dec j c.store)) [
    | inl e ↦ rw (e, remove) h
    | inr (x, e) ↦ rw (e, remove) (ground (arith, get-pop dec j k c.store))
  ]

  pub remove_self : (k : K) (c : ObjectCache K V) → Lacks k (remove dec k c)
  unfolding remove
  remove_self k c = elim (Option-cases (OrderedDict.get dec k c.store)) [
    | inl e ↦ rw (e, remove) e
    | inr (x, e) ↦ rw (e, remove) (ground (arith, get-pop dec k k c.store))
  ]

  pub evict-Lacks :
      (k : K) (now extra : ℕ) (need : Bool) (c : ObjectCache K V)
      → Lacks k c
      → Lacks k (evict dec now extra need c)
  evict-Lacks k = evict_induction (Lacks k) (remove-Lacks k)

  -- the settings and the counters that removals leave alone
  pub record SameSettings (c d : ObjectCache K V) : Type 0 where
    pub same_entries : d.max_entries ≡ c.max_entries
    pub same_bytes : d.max_size_bytes ≡ c.max_size_bytes
    pub same_generation : d.generation ≡ c.generation

  pub remove-SameSettings :
      (c : ObjectCache K V) (k : K) (d : ObjectCache K V)
      → SameSettings c d
      → SameSettings c (remove dec k d)
  unfolding remove
  remove-SameSettings c k d h = elim (Option-cases (OrderedDict.get dec k d.store)) [
    | inl e ↦ rw (e, remove) h
    | inr (x, e) ↦ rw (e, remove) (ground arith)
  ]

  pub evict-SameSettings :
      (now extra : ℕ) (need : Bool) (c : ObjectCache K V)
      → SameSettings c (evict dec now extra need c)
  evict-SameSettings now extra need c =
      evict_induction (SameSettings c) (remove-SameSettings c) now extra need c
        (record { same_entries = refl; same_bytes = refl; same_generation = refl })
