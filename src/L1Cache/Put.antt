-- ===== src/L1Cache/Put.antt =====
-- `put` of the L1 cache: what it keeps of the byte count and of the memory bound.
use cachekit_py.Common.{
  ℕ, ◌+◌, ◌≤◌, ◌≡◌, ap, ◌∙◌, refl, true, List, Option, none, some, arith, inl, inr, Option-cases,
  Bool-cases, length, ltb,
}
use cachekit_py.Common.Int.{ℤ, pos, pos_part, neg_part, ◌+ℤ◌, leb_ℤ, int_laws}
use cachekit_py.OrderedDict
use cachekit_py.OrderedDict.{OrderedDict, total}
use cachekit_py.OrderedDict.Laws.{
  IsDistinct, set_absent, total-pop, total-append, set-IsDistinct, total-set,
  move_to_end-IsDistinct, total-move_to_end, drop-IsDistinct, get-drop_absent,
}
use cachekit_py.L1Cache.State.{
  CacheEntry, L1Cache, Float, finite, non_finite, expiry_of, remove_entry, evict_for_space,
}
use cachekit_py.L1Cache.Calls.{bytes, ok, store_entry, put_bytes, put}
use cachekit_py.L1Cache.Exact.{size_of, IsExact, remove-IsExact}
use cachekit_py.L1Cache.Evict.{Evicted, evict-Evicted}

counted_room :
    (current : ℤ) (needed limit t : ℕ)
    → leb_ℤ (current +ℤ pos needed) (pos limit) ≡ true
    → current +ℤ pos 0 ≡ pos t
    → t + needed ≤ limit
unfolding ◌+ℤ◌
counted_room current needed limit t f s = ground arith

-- with an exact count, what is evicted is enough
room_for :
    {K : Type 0} (needed : ℕ) (c d : L1Cache K)
    → Evicted needed (pos 0) c d
    → needed ≤ c.max_memory_bytes
    → total size_of d.cache + needed ≤ c.max_memory_bytes
unfolding total
room_for needed c d ev small = elim ev.enough [
  | inl f ↦ counted_room d.current_memory_bytes needed c.max_memory_bytes _ f ev.short
  | inr e ↦ let z : total size_of d.cache ≡ 0 = ap (total size_of) e in omega (arith, z)
]

limit-store_entry :
    {K : Type 0} (dec : Discrete K) (k : K) (e : CacheEntry) (c : L1Cache K)
    → (store_entry dec k e c).max_memory_bytes ≡ c.max_memory_bytes
unfolding store_entry
limit-store_entry dec k e c = refl

module _ {K : Type 0} (dec : Discrete K) where
  -- the memory bound, on the entries themselves
  abbrev pub IsWithin : L1Cache K → Type 0
  IsWithin c = total size_of c.cache ≤ c.max_memory_bytes

  pub store_new-IsExact :
      (k : K) (e : CacheEntry) (c : L1Cache K)
      → OrderedDict.get dec k c.cache ≡ none
      → IsDistinct dec c.cache
      → (missing : ℤ) → c.current_memory_bytes +ℤ missing ≡ pos (total size_of c.cache)
      → let d = store_entry dec k e c in
        IsDistinct dec d.cache
        × (d.current_memory_bytes +ℤ missing ≡ pos (total size_of d.cache))
        × (total size_of d.cache ≡ total size_of c.cache + e.size_bytes)
  unfolding store_entry
  store_new-IsExact k e c n h missing s =
      let set = OrderedDict.set dec k e c.cache in
      let distinct = set-IsDistinct dec k e c.cache h in
      let sum : total size_of (OrderedDict.move_to_end dec k set)
          ≡ total size_of c.cache + e.size_bytes =
        total-move_to_end dec size_of k set distinct
        ∙ ap (total size_of) (set_absent dec k e c.cache n)
        ∙ total-append dec size_of k e c.cache in
      (
        move_to_end-IsDistinct dec k set distinct,
        rw sum (omega (int_laws, ap pos_part s, ap neg_part s)),
        sum,
      )

  pub store_over-IsExact :
      (k : K) (old e : CacheEntry) (c : L1Cache K)
      → OrderedDict.get dec k c.cache ≡ some old
      → IsDistinct dec c.cache
      → c.current_memory_bytes +ℤ pos old.size_bytes ≡ pos (total size_of c.cache)
      → IsExact dec (store_entry dec k e c)
  unfolding store_entry
  store_over-IsExact k old e c n h s =
      let set = OrderedDict.set dec k e c.cache in
      let distinct = set-IsDistinct dec k e c.cache h in
      let moved = total-move_to_end dec size_of k set distinct in
      record {
        distinct = move_to_end-IsDistinct dec k set distinct;
        counted = rw moved (
            omega
              (int_laws, total-set dec size_of k old e c.cache n, ap pos_part s, ap neg_part s));
      }

  store_new-IsWithin :
      (k : K) (e : CacheEntry) (c : L1Cache K)
      → IsExact dec c
      → OrderedDict.get dec k c.cache ≡ none
      → e.size_bytes ≤ c.max_memory_bytes
      → let d = store_entry dec k e (evict_for_space dec e.size_bytes c) in
        IsExact dec d × IsWithin d
  store_new-IsWithin k e c h n small =
      let d = evict_for_space dec e.size_bytes c in
      let ev =
        evict-Evicted dec e.size_bytes (pos 0) c h.distinct
          (omega (int_laws, ap pos_part h.counted, ap neg_part h.counted)) in
      let gone : OrderedDict.get dec k d.cache ≡ none =
        rw ev.left (get-drop_absent dec ev.taken k c.cache n) in
      let apart : IsDistinct dec d.cache =
        rw ev.left (drop-IsDistinct dec ev.taken c.cache h.distinct) in
      let (distinct, counted, sum) = store_new-IsExact k e d gone apart (pos 0) ev.short in
      (
        record {
          distinct = distinct;
          counted = omega (int_laws, ap pos_part counted, ap neg_part counted);
        },
        rw (sum, limit-store_entry dec k e d, ev.same_limit) (room_for e.size_bytes c d ev small),
      )

  pub remove-IsWithin :
      (k : K) (c : L1Cache K) → IsExact dec c → IsWithin c → IsWithin (remove_entry dec k c)
  unfolding remove_entry
  remove-IsWithin k c h w = elim (Option-cases (OrderedDict.get dec k c.cache)) [
    | inl e ↦ rw (e, remove_entry) w
    | inr (x, e) ↦
        rw (e, remove_entry) (omega (arith, total-pop dec size_of k x c.cache e h.distinct))
  ]

  put_bytes_sound :
      (k : K) (value : List ℕ) (now : ℤ) (expiry : Float) (c : L1Cache K)
      → IsExact dec c
      → IsWithin c
      → OrderedDict.get dec k c.cache ≡ none
      → IsExact dec (put_bytes dec k value now expiry c)
        × IsWithin (put_bytes dec k value now expiry c)
  unfolding put_bytes
  put_bytes_sound k value now non_finite c h w n = (h, w)
  put_bytes_sound k value now (finite expiry) c h w n = elim (Bool-cases (leb_ℤ expiry now)) [
    | inl short ↦ rw short (h, w)
    | inr long ↦ elim (Bool-cases (ltb c.max_memory_bytes (length value))) [
      | inl big ↦ rw (long, big) (remove-IsExact dec k c h, remove-IsWithin k c h w)
      | inr small ↦
          rw (long, small, n, put_bytes)
            (store_new-IsWithin k
              (record { value = value; expires_at = expiry; size_bytes = length value }) c h n
              (ground arith))
    ]
  ]

  -- A `put` of bytes under a key that has no entry succeeds and keeps the L1 cache sound: whatever its
  -- size and expiry, no key is held twice, the byte count stays exactly the sum of the sizes that are
  -- held, and that sum stays within `max_memory_bytes`.
  pub put_new_sound :
      (k : K) (value : List ℕ) (now : ℤ) (redis_ttl expires_at : Option Float) (c : L1Cache K)
      → IsExact dec c
      → IsWithin c
      → OrderedDict.get dec k c.cache ≡ none
      → (d : L1Cache K) × (put dec k (bytes value) now redis_ttl expires_at c ≡ ok d)
        × IsExact dec d
        × IsWithin d
  unfolding put
  put_new_sound k value now redis_ttl expires_at c h w n =
      let (h', w') =
        put_bytes_sound k value now (expiry_of now c.ttl_buffer redis_ttl expires_at) c h w n in
      (put_bytes dec k value now (expiry_of now c.ttl_buffer redis_ttl expires_at) c, refl, h', w')
