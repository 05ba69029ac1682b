-- ===== src/L1Cache/Reads.antt =====
-- What can be read from the L1 cache.
use cachekit_py.Common.{
  ℕ, ◌≤◌, ◌≡◌, refl, false, List, Option, some, arith, inl, inr, Option-cases, length, ltb,
}
use cachekit_py.Common.Int.{ℤ, leb_ℤ}
use cachekit_py.OrderedDict
use cachekit_py.OrderedDict.{OrderedDict, total}
use cachekit_py.OrderedDict.Laws.{get-set, get-move_to_end}
use cachekit_py.L1Cache.State.{CacheEntry, L1Cache, is_expired, Float, finite, expiry_of}
use cachekit_py.L1Cache.Calls.{bytes, ok, get, store_entry, put_bytes, put}

module _ {K : Type 0} (dec : Discrete K) where
  found_entry :
      (k : K) (now : ℤ) (c : L1Cache K) (v : List ℕ)
      → (get dec k now c).1 ≡ some v
      → (e : CacheEntry) × (OrderedDict.get dec k c.cache ≡ some e)
        × (e.value ≡ v)
        × (is_expired now e ≡ false)
  unfolding get
  found_entry k now c v p = elim (Option-cases (OrderedDict.get dec k c.cache)) [
    | inl e ↦ absurd (ground arith)
    | inr (x, e) ↦ (x, e, ground arith, ground arith)
  ]

  live_entry :
      (k : K) (now : ℤ) (c : L1Cache K) (e : CacheEntry)
      → OrderedDict.get dec k c.cache ≡ some e
      → is_expired now e ≡ false
      → (get dec k now c).1 ≡ some e.value
  unfolding get
  live_entry k now c e p l = ground arith

  stored_reads :
      (k : K) (e : CacheEntry) (c : L1Cache K) (t : ℤ)
      → is_expired t e ≡ false
      → (get dec k t (store_entry dec k e c)).1 ≡ some e.value
  unfolding store_entry
  stored_reads k e c t l =
      live_entry k t (store_entry dec k e c) e (rw (get-move_to_end, get-set) (ground arith)) l

  stored_by_put :
      (k : K) (value : List ℕ) (now expiry t : ℤ) (c : L1Cache K)
      → leb_ℤ expiry now ≡ false
      → ltb c.max_memory_bytes (length value) ≡ false
      → leb_ℤ expiry t ≡ false
      → (get dec k t (put_bytes dec k value now (finite expiry) c)).1 ≡ some value
  unfolding put_bytes is_expired
  stored_by_put k value now expiry t c long small l =
      rw (long, small)
        (stored_reads k (record { value = value; expires_at = expiry; size_bytes = length value }) _
          t l)

  -- A `put` of bytes that fit the budget, with a finite expiry after the clock, succeeds, whether or not
  -- the key had an entry; and until the clock reaches that expiry a read of the key finds these bytes.
  -- A read of any key of any cache finds bytes only if an entry of the key holds them and its expiry is
  -- after the clock.
  pub put-get :
      (k : K) (value : List ℕ) (now expiry : ℤ) (redis_ttl expires_at : Option Float)
      (c : L1Cache K)
      → expiry_of now c.ttl_buffer redis_ttl expires_at ≡ finite expiry
      → leb_ℤ expiry now ≡ false
      → length value ≤ c.max_memory_bytes
      → (d : L1Cache K) × (put dec k (bytes value) now redis_ttl expires_at c ≡ ok d)
        × ((t : ℤ) → leb_ℤ expiry t ≡ false → (get dec k t d).1 ≡ some value)
        × ((j : K) (t : ℤ) (v : List ℕ)
            → (get dec j t d).1 ≡ some v
            → (e : CacheEntry) × (OrderedDict.get dec j d.cache ≡ some e)
              × (e.value ≡ v)
              × (is_expired t e ≡ false))
  unfolding put
  put-get k value now expiry redis_ttl expires_at c f long small =
      let d = put_bytes dec k value now (finite expiry) c in
      (
        d,
        rw f refl,
        λ t l. stored_by_put k value now expiry t c long (ground arith) l,
        λ j t v p. found_entry j t d v p,
      )
