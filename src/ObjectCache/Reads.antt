-- ===== src/ObjectCache/Reads.antt =====
-- What can be read from the object cache, and what a write leaves of the other keys.
use cachekit_py.Common.{
  ℕ, ◌+◌, ◌≤◌, ◌<◌, ◌≡◌, ◌≢◌, ◌↔◌, ◌⊎◌, ap, ◌∙◌, refl, true, false, none, some, ite, arith, inl,
  inr, Option-cases, if◌then◌else◌, ltb, is_some,
}
use cachekit_py.OrderedDict
use cachekit_py.OrderedDict.{total}
use cachekit_py.OrderedDict.Laws.{get-pop, get-set, get-move_to_end}
use cachekit_py.ObjectCache.State.{second, Entry, ObjectCache, ok, finite, more_than}
use cachekit_py.ObjectCache.Evict.{remove, evict, over_bounds}
use cachekit_py.ObjectCache.Calls.{get, put, store_new, size_for}
use cachekit_py.ObjectCache.Invariant.{evict_induction}

module _ {K V : Type 0} (dec : Discrete K) where
  found_entry :
      (k : K) (now : ℕ) (c : ObjectCache K V) (v : V)
      → (get dec k now c).1 ≡ some v
      → (e : Entry V) × (OrderedDict.get dec k c.store ≡ some e)
        × (e.value ≡ v)
        × (now < e.expires_at)
  unfolding get
  found_entry k now c v p = elim (Option-cases (OrderedDict.get dec k c.store)) [
    | inl e ↦ absurd (ground arith)
    | inr (x, e) ↦ (x, e, ground arith, ground arith)
  ]

  live_entry :
      (k : K) (now : ℕ) (c : ObjectCache K V) (e : Entry V)
      → OrderedDict.get dec k c.store ≡ some e
      → now < e.expires_at
      → (get dec k now c).1 ≡ some e.value
  unfolding get
  live_entry k now c e p l = ground arith

  reads_counted :
      (k : K) (now : ℕ) (c : ObjectCache K V)
      → (get dec k now c).0.hits ≡ c.hits + (if is_some (get dec k now c).1 then 1 else 0)
  unfolding get remove
  reads_counted k now c = ground arith

  get-remove :
      (k j : K) (c : ObjectCache K V)
      → OrderedDict.get dec j (remove dec k c).store
        ≡ ite (dec k j) none (OrderedDict.get dec j c.store)
  unfolding remove
  get-remove k j c = elim (Option-cases (OrderedDict.get dec k c.store)) [
    | inl e ↦ rw (e, remove) (ground arith)
    | inr (x, e) ↦ rw (e, remove) (get-pop dec k j c.store)
  ]

  store_after :
      (k : K) (now : ℕ) (c : ObjectCache K V) (j : K)
      → OrderedDict.get dec j (get dec k now c).0.store ≡ (
          if is_some (get dec k now c).1
          then OrderedDict.get dec j c.store
          else ite (dec k j) none (OrderedDict.get dec j c.store))
  unfolding get
  store_after k now c j = ground (arith, get-remove k j c, get-move_to_end dec k j c.store)

  -- A read finds a value exactly when the key has an entry with that value whose deadline the clock
  -- has not reached, and it counts a hit exactly when it finds one. It changes no entry of another
  -- key, and none of its own but an expired one, which it removes.
  pub get_exact :
      (k : K) (now : ℕ) (c : ObjectCache K V)
      → ((v : V)
          → ((get dec k now c).1 ≡ some v) ↔ (
              (e : Entry V) × (OrderedDict.get dec k c.store ≡ some e)
              × (e.value ≡ v)
              × (now < e.expires_at)))
        × ((get dec k now c).0.hits ≡ c.hits + (if is_some (get dec k now c).1 then 1 else 0))
        × ((j : K)
            → OrderedDict.get dec j (get dec k now c).0.store ≡ (
                if is_some (get dec k now c).1
                then OrderedDict.get dec j c.store
                else ite (dec k j) none (OrderedDict.get dec j c.store)))
  get_exact k now c = (
    λ v. (found_entry k now c v, λ h. live_entry k now c h.0 h.1 h.3 ∙ ap some h.2),
    reads_counted k now c,
    store_after k now c,
  )

  -- removals change no entry but to take it away
  abbrev IsKept : K → ObjectCache K V → ObjectCache K V → Type 0
  IsKept j c d =
      (OrderedDict.get dec j d.store ≡ OrderedDict.get dec j c.store)
      ⊎ (OrderedDict.get dec j d.store ≡ none)

  remove-IsKept :
      (j : K) (c : ObjectCache K V) (k : K) (d : ObjectCache K V)
      → IsKept j c d
      → IsKept j c (remove dec k d)
  remove-IsKept j c k d h = ground (arith, get-remove k j d)

  stored_reads :
      (k : K) (v : V) (size ttl now : ℕ) (c : ObjectCache K V) (t : ℕ)
      → t < now + ttl
      → (get dec k t (store_new dec k v size ttl now c)).1 ≡ some v
  unfolding store_new
  stored_reads k v size ttl now c t l =
      let d = store_new dec k v size ttl now c in
      let e : Entry V = record {
        value = v;
        expires_at = now + ttl;
        cached_at = now;
        size_bytes = size;
        generation = c.generation + 1;
      } in
      live_entry k t d e (rw get-set (ground arith)) l

  -- the entries of the other keys as a stored value leaves them
  stored_others :
      (k : K) (v : V) (size ttl now now_evict : ℕ) (c : ObjectCache K V) (j : K)
      → j ≢ k
      → let d = store_new dec k v size ttl now (evict dec now_evict size true (remove dec k c)) in
        IsKept j c d
        × (over_bounds dec size true (remove dec k c) ≡ false
            → OrderedDict.get dec j d.store ≡ OrderedDict.get dec j c.store)
  unfolding store_new evict
  stored_others k v size ttl now now_evict c j ne =
      let start : IsKept j c (remove dec k c) = ground (arith, get-remove k j c) in
      let kept =
        evict_induction dec (IsKept j c) (remove-IsKept j c) now_evict size true (remove dec k c)
          start in
      (rw get-set (ground arith), λ fits. rw (get-set, fits) (ground (arith, get-remove k j c)))

  -- A `put` with a valid TTL of a value that fits the byte bound succeeds, and then: the key reads the
  -- new value at every clock before `now + ttl`; every other key has the entry that it had, or none;
  -- and if no bound is exceeded with the old entry of the key out and the new one counted, every other
  -- key has the entry that it had.
  pub put_reads :
      (estimate : V → ℕ) (k : K) (v : V) (ttl now now_evict : ℕ) (c : ObjectCache K V)
      → second ≤ ttl
      → more_than (size_for estimate v c) c.max_size_bytes ≡ false
      → (d : ObjectCache K V) × (put dec estimate k v (finite ttl) now now_evict c ≡ ok d)
        × ((t : ℕ) → t < now + ttl → (get dec k t d).1 ≡ some v)
        × ((j : K)
            → j ≢ k
            → ((OrderedDict.get dec j d.store ≡ OrderedDict.get dec j c.store)
                ⊎ (OrderedDict.get dec j d.store ≡ none))
              × (over_bounds dec (size_for estimate v c) true (remove dec k c) ≡ false
                  → OrderedDict.get dec j d.store ≡ OrderedDict.get dec j c.store))
  unfolding put
  put_reads estimate k v ttl now now_evict c long small =
      let size = size_for estimate v c in
      let high : ltb ttl second ≡ false = ground arith in
      (
        store_new dec k v size ttl now (evict dec now_evict size true (remove dec k c)),
        rw (high, small) refl,
        λ t l. stored_reads k v size ttl now _ t l,
        λ j ne. stored_others k v size ttl now now_evict c j ne,
      )
