-- ===== src/L1Cache/Entries.antt =====
-- What holds of every entry of the L1 cache: no operation of src/cachekit/l1_cache.py changes the bytes
-- of an entry, so a statement about keys and bytes stays true, and holds of what is found.
use cachekit_py.Common.{
  arith, ℕ, List, [], ◌∷◌, some, ◌≡◌, sym, ◌∙◌, ◌⊎◌, inl, inr, ltb, Bool-cases, Option-cases,
}
use mathlib.Core.Path.{subst}
use cachekit_py.Common.Int.{ℤ, pos, ◌+ℤ◌, ◌-ℤ◌, leb_ℤ}
use cachekit_py.OrderedDict
use cachekit_py.OrderedDict.{OrderedDict}
use cachekit_py.OrderedDict.Laws.{get-pop, get-set, get-move_to_end}
use cachekit_py.L1Cache.State.{
  CacheEntry, L1Cache, is_expired, Float, finite, non_finite, remove_entry, pop_all, evict_scan,
  evict_for_space, estimate_size,
}
use cachekit_py.L1Cache.Calls.{get, put_bytes, store_entry, invalidate}

module _ {K : Type 0} (dec : Discrete K) (P : K → List ℕ → Type 0) where
  abbrev pub Every : OrderedDict K CacheEntry → Type 0
  Every d = (k : K) (e : CacheEntry) → OrderedDict.get dec k d ≡ some e → P k e.value

  popped_get :
      (k j : K) (e : CacheEntry) (d : OrderedDict K CacheEntry)
      → OrderedDict.get dec j (OrderedDict.pop dec k d) ≡ some e
      → OrderedDict.get dec j d ≡ some e
  popped_get k j e d p = ground (arith, get-pop dec k j d)

  set_get :
      (k j : K) (v e : CacheEntry) (d : OrderedDict K CacheEntry)
      → OrderedDict.get dec j (OrderedDict.set dec k v d) ≡ some e
      → ((k ≡ j) × (v ≡ e)) ⊎ (OrderedDict.get dec j d ≡ some e)
  set_get k j v e d p = ground (arith, get-set dec k j v d)

  pop-Every : (k : K) (d : OrderedDict K CacheEntry) → Every d → Every (OrderedDict.pop dec k d)
  pop-Every k d h j e p = h j e (popped_get k j e d p)

  set-Every :
      (k : K) (v : CacheEntry) (d : OrderedDict K CacheEntry)
      → P k v.value
      → Every d
      → Every (OrderedDict.set dec k v d)
  set-Every k v d good h j e p = elim (set_get k j v e d p) [
    | inl (q, r) ↦ subst (λ i. P i e.value) q (subst (λ w. P k w.value) r good)
    | inr q ↦ h j e q
  ]

  move_to_end-Every :
      (k : K) (d : OrderedDict K CacheEntry) → Every d → Every (OrderedDict.move_to_end dec k d)
  move_to_end-Every k d h j e p = h j e (sym (get-move_to_end dec k j d) ∙ p)

  pop_all-Every :
      (keys : List K) (d : OrderedDict K CacheEntry) → Every d → Every (pop_all dec keys d)
  unfolding pop_all
  pop_all-Every [] d h = h
  pop_all-Every (k ∷ keys) d h = pop_all-Every keys (OrderedDict.pop dec k d) (pop-Every k d h)

  remove_entry-Every : (k : K) (c : L1Cache K) → Every c.cache → Every (remove_entry dec k c).cache
  unfolding remove_entry
  remove_entry-Every k c h = elim (Option-cases (OrderedDict.get dec k c.cache)) [
    | inl q ↦ rw q h
    | inr (e, q) ↦ rw q (pop-Every k c.cache h)
  ]

  evict_for_space-Every :
      (n : ℕ) (c : L1Cache K) → Every c.cache → Every (evict_for_space dec n c).cache
  unfolding evict_for_space
  evict_for_space-Every n c h =
      elim (Bool-cases (leb_ℤ (c.current_memory_bytes +ℤ pos n) (pos c.max_memory_bytes))) [
        | inl q ↦ rw q h
        | inr q ↦ rw q (
            pop_all-Every
              (evict_scan c.max_memory_bytes n c.cache c.current_memory_bytes c.evictions).2 c.cache
              h)
      ]

  -- `get` leaves what holds of the entries, and what it finds is an entry
  pub get-Every :
      (k : K) (now : ℤ) (c : L1Cache K) → Every c.cache → Every (get dec k now c).0.cache
  unfolding get
  get-Every k now c h = elim (Option-cases (OrderedDict.get dec k c.cache)) [
    | inl q ↦ rw q h
    | inr (e, q) ↦ elim (Bool-cases (is_expired now e)) [
      | inl x ↦ rw (q, x) (remove_entry-Every k c h)
      | inr x ↦ rw (q, x) (move_to_end-Every k c.cache h)
    ]
  ]

  pub get_found :
      (k : K) (now : ℤ) (c : L1Cache K) (bytes : List ℕ)
      → Every c.cache
      → (get dec k now c).1 ≡ some bytes
      → P k bytes
  unfolding get
  get_found k now c bytes h p = elim (Option-cases (OrderedDict.get dec k c.cache)) [
    | inl q ↦ absurd (ground arith)
    | inr (e, q) ↦ subst (λ b. P k b) (found e q) (h k e q)
  ]
    where
      found : (e : CacheEntry) → OrderedDict.get dec k c.cache ≡ some e → e.value ≡ bytes
      found e q = ground arith

  pub invalidate-Every : (k : K) (c : L1Cache K) → Every c.cache → Every (invalidate dec k c).cache
  unfolding invalidate
  invalidate-Every k c h = remove_entry-Every k c h

  store_entry-Every :
      (k : K) (e : CacheEntry) (c : L1Cache K)
      → P k e.value
      → Every c.cache
      → Every (store_entry dec k e c).cache
  unfolding store_entry
  store_entry-Every k e c good h =
      move_to_end-Every k (OrderedDict.set dec k e c.cache) (set-Every k e c.cache good h)

  pub put_bytes-Every :
      (k : K) (bytes : List ℕ) (now : ℤ) (expiry : Float) (c : L1Cache K)
      → P k bytes
      → Every c.cache
      → Every (put_bytes dec k bytes now expiry c).cache
  unfolding put_bytes
  put_bytes-Every k bytes now non_finite c good h = h
  put_bytes-Every k bytes now (finite expiry) c good h = elim (Bool-cases (leb_ℤ expiry now)) [
    | inl x ↦ rw x h
    | inr x ↦ elim (Bool-cases (ltb c.max_memory_bytes (estimate_size bytes))) [
      | inl y ↦ rw (x, y) (remove_entry-Every k c h)
      | inr y ↦ elim (Option-cases (OrderedDict.get dec k c.cache)) [
        | inl z ↦ rw (x, y, z) (stored c h)
        | inr (e, z) ↦
            rw (x, y, z)
              (stored
                (record c { current_memory_bytes = c.current_memory_bytes -ℤ pos e.size_bytes }) h)
      ]
    ]
  ]
    where
      entry : CacheEntry
      entry = record { value = bytes; expires_at = expiry; size_bytes = estimate_size bytes }

      stored :
          (b : L1Cache K)
          → Every b.cache
          → Every (store_entry dec k entry (evict_for_space dec (estimate_size bytes) b)).cache
      stored b g =
          store_entry-Every k entry (evict_for_space dec (estimate_size bytes) b) good
            (evict_for_space-Every (estimate_size bytes) b g)
