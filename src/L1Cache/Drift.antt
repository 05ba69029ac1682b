-- ===== src/L1Cache/Drift.antt =====
-- `put` of the L1 cache under a key that has an entry: when the byte count stays exact, and when
-- it falls short of what is held.
use cachekit_py.Common.{
  ℕ, zero, suc, ◌+◌, ◌≤◌, ◌<◌, ◌≡◌, ◌⊎◌, ap, ◌∙◌, true, false, List, [], ◌∷◌, Option, none, some,
  arith, inl, inr, Option-cases, length, ltb, drop, sym,
}
use cachekit_py.Common.Int.{ℤ, pos, pos_part, neg_part, ◌+ℤ◌, ◌-ℤ◌, ◌<ℤ◌, leb_ℤ, int_laws}
use mathlib.Core.Path.{subst}
use cachekit_py.OrderedDict
use cachekit_py.OrderedDict.{OrderedDict, total}
use cachekit_py.OrderedDict.Laws.{IsDistinct, drop-IsDistinct, get-drop_absent, get-drop_found}
use cachekit_py.L1Cache.State.{CacheEntry, L1Cache, Float, finite, expiry_of, evict_for_space}
use cachekit_py.L1Cache.Calls.{bytes, ok, store_entry, put_bytes, put}
use cachekit_py.L1Cache.Exact.{size_of, IsExact}
use cachekit_py.L1Cache.Evict.{Evicted, evict-Evicted}
use cachekit_py.L1Cache.Put.{store_new-IsExact, store_over-IsExact}

-- the cache as `put` sees it once the bytes of the old entry are taken off the count
abbrev pub freed : {K : Type 0} → CacheEntry → L1Cache K → L1Cache K
freed old c = record c { current_memory_bytes = c.current_memory_bytes -ℤ pos old.size_bytes }

freed_short : (current : ℤ) (old t : ℕ) → current ≡ pos t → current -ℤ pos old +ℤ pos old ≡ pos t
freed_short current old t h = omega (int_laws, ap pos_part h, ap neg_part h)

too_much :
    (current : ℤ) (old size limit t : ℕ)
    → current +ℤ pos old ≡ pos (old + t)
    → leb_ℤ (current +ℤ pos size) (pos limit) ≡ true
    → limit < t + size
    → ⊥
unfolding ◌+ℤ◌
too_much current old size limit t s f tight = ground arith

module _ {K : Type 0} (dec : Discrete K) where
  module _ (k : K) (old : CacheEntry) (c : L1Cache K) (h : IsExact dec c)
      (there : OrderedDict.get dec k c.cache ≡ some old) where
    -- what the eviction leaves, with the old entry's bytes taken off the count beforehand
    abbrev after_eviction : ℕ → L1Cache K
    after_eviction size = evict_for_space dec size (freed old c)

    Evicted-short :
        (size : ℕ) → Evicted size (pos old.size_bytes) (freed old c) (after_eviction size)
    Evicted-short size =
        evict-Evicted dec size (pos old.size_bytes) (freed old c) h.distinct
          (freed_short c.current_memory_bytes old.size_bytes _ h.counted)

    apart : (size : ℕ) → IsDistinct dec (after_eviction size).cache
    apart size =
        let ev = Evicted-short size in rw ev.left (drop-IsDistinct dec ev.taken c.cache h.distinct)

    -- an entry of the key that survives the eviction is the old one
    survivor :
        (size : ℕ) (x : CacheEntry)
        → OrderedDict.get dec k (after_eviction size).cache ≡ some x
        → some x ≡ some old
    survivor size x e =
        let ev = Evicted-short size in
        sym (get-drop_found dec ev.taken k x c.cache h.distinct (rw ev.left at e)) ∙ there

    stored : (e : CacheEntry) → L1Cache K
    stored e = store_entry dec k e (after_eviction e.size_bytes)

    stored_kept :
        (e : CacheEntry)
        → OrderedDict.get dec k (after_eviction e.size_bytes).cache ≡ some old
        → IsExact dec (stored e)
    unfolding stored
    stored_kept e p =
        store_over-IsExact dec k old e _ p (apart e.size_bytes) (Evicted-short e.size_bytes).short

    stored_evicted :
        (e : CacheEntry)
        → OrderedDict.get dec k (after_eviction e.size_bytes).cache ≡ none
        → IsDistinct dec (stored e).cache
          × ((stored e).current_memory_bytes +ℤ pos old.size_bytes
              ≡ pos (total size_of (stored e).cache))
    unfolding stored
    stored_evicted e p =
        let (d, s, _) =
          store_new-IsExact dec k e _ p (apart e.size_bytes) (pos old.size_bytes)
            (Evicted-short e.size_bytes).short in
        (d, s)

    put_bytes-stored :
        (value : List ℕ) (now expiry : ℤ)
        → leb_ℤ expiry now ≡ false
        → ltb c.max_memory_bytes (length value) ≡ false
        → put_bytes dec k value now (finite expiry) c
          ≡ stored (record { value = value; expires_at = expiry; size_bytes = length value })
    unfolding put_bytes stored
    put_bytes-stored value now expiry long small = rw (long, small, there, put_bytes)

    -- the two ways in which a replacement can end
    abbrev pub Replaced : ℕ → L1Cache K → Type 0
    Replaced size d =
        ((OrderedDict.get dec k (after_eviction size).cache ≡ some old) × IsExact dec d)
        ⊎ ((OrderedDict.get dec k (after_eviction size).cache ≡ none)
            × IsDistinct dec d.cache
            × (d.current_memory_bytes +ℤ pos old.size_bytes ≡ pos (total size_of d.cache)))

    stored-Replaced : (e : CacheEntry) → Replaced e.size_bytes (stored e)
    stored-Replaced e =
        elim (Option-cases (OrderedDict.get dec k (after_eviction e.size_bytes).cache)) [
          | inl p ↦ let (d, s) = stored_evicted e p in inr (p, d, s)
          | inr (x, p) ↦ let q = p ∙ survivor e.size_bytes x p in inl (q, stored_kept e q)
        ]

  -- A `put` that replaces the entry `old` of a key, with an expiry in the future and a size within the
  -- budget: if the old entry survives the eviction that makes room, the byte count stays exact. If the
  -- eviction takes the old entry itself, its bytes are taken off the count twice: afterwards the count
  -- is short of the sum of the sizes that are held by exactly the old entry's size.
  pub put_replaces :
      (k : K) (old : CacheEntry) (c : L1Cache K) (value : List ℕ) (now expiry : ℤ)
      (redis_ttl expires_at : Option Float)
      → IsExact dec c
      → OrderedDict.get dec k c.cache ≡ some old
      → expiry_of now c.ttl_buffer redis_ttl expires_at ≡ finite expiry
      → leb_ℤ expiry now ≡ false
      → length value ≤ c.max_memory_bytes
      → let evicted = evict_for_space dec (length value) (freed old c) in
        (d : L1Cache K) × (put dec k (bytes value) now redis_ttl expires_at c ≡ ok d)
        × (((OrderedDict.get dec k evicted.cache ≡ some old) × IsExact dec d)
            ⊎ ((OrderedDict.get dec k evicted.cache ≡ none)
                × IsDistinct dec d.cache
                × (d.current_memory_bytes +ℤ pos old.size_bytes ≡ pos (total size_of d.cache))))
  unfolding put
  put_replaces k old c value now expiry redis_ttl expires_at h there f long small =
      let e : CacheEntry = record {
        value = value;
        expires_at = expiry;
        size_bytes = length value;
      } in
      (
        stored k old c h there e,
        rw f (ap ok (put_bytes-stored k old c h there value now expiry long (ground arith))),
        stored-Replaced k old c h there e,
      )

  get_first :
      (k : K) (old : CacheEntry) (rest : OrderedDict K CacheEntry)
      → OrderedDict.get dec k ((k, old) ∷ rest) ≡ some old
  unfolding OrderedDict.get
  get_first k old rest = ground arith

  first_gone :
      (k : K) (old : CacheEntry) (rest d : OrderedDict K CacheEntry) (limit size taken : ℕ)
      (current : ℤ)
      → IsDistinct dec ((k, old) ∷ rest)
      → limit < total size_of rest + size
      → d ≡ drop taken ((k, old) ∷ rest)
      → current +ℤ pos old.size_bytes ≡ pos (total size_of d)
      → (leb_ℤ (current +ℤ pos size) (pos limit) ≡ true) ⊎ (d ≡ [])
      → OrderedDict.get dec k d ≡ none
  unfolding total
  first_gone k old rest d limit size zero current h tight p s (inl f) =
      let t : total size_of d ≡ old.size_bytes + total size_of rest = ap (total size_of) p in
      absurd
        (too_much current old.size_bytes size limit (total size_of rest) (s ∙ ap pos t) f tight)
  first_gone k old rest d limit size zero current h tight p s (inr e) = absurd (cc)
  first_gone k old rest d limit size (suc n) current h tight p s en =
      rw p (get-drop_absent dec n k rest h.0)

  -- The class of replacements where the count drifts. If the replaced entry is the least recently used
  -- one, has a positive size, and the other entries leave no room for the new value, then `put` leaves
  -- a byte count that is below the sum of the sizes that are held, by the old entry's size.
  pub replace_lru_drifts :
      (k : K) (old : CacheEntry) (rest : OrderedDict K CacheEntry) (c : L1Cache K) (value : List ℕ)
      (now expiry : ℤ) (redis_ttl expires_at : Option Float)
      → IsExact dec c
      → c.cache ≡ (k, old) ∷ rest
      → 0 < old.size_bytes
      → expiry_of now c.ttl_buffer redis_ttl expires_at ≡ finite expiry
      → leb_ℤ expiry now ≡ false
      → length value ≤ c.max_memory_bytes
      → c.max_memory_bytes < total size_of rest + length value
      → (d : L1Cache K) × (put dec k (bytes value) now redis_ttl expires_at c ≡ ok d)
        × (d.current_memory_bytes +ℤ pos old.size_bytes ≡ pos (total size_of d.cache))
        × (d.current_memory_bytes <ℤ pos (total size_of d.cache))
  unfolding put stored
  replace_lru_drifts k old rest c value now expiry redis_ttl expires_at h first big f long small
        tight =
      let size = length value in
      let e : CacheEntry = record { value = value; expires_at = expiry; size_bytes = size } in
      let there : OrderedDict.get dec k c.cache ≡ some old =
        ap (OrderedDict.get dec k) first ∙ get_first k old rest in
      let ev = Evicted-short k old c h there size in
      let gone =
        first_gone k old rest (after_eviction k old c h there size).cache c.max_memory_bytes size
          ev.taken _ (subst (IsDistinct dec) first h.distinct) tight
          (ev.left ∙ ap (drop ev.taken) first) ev.short ev.enough in
      let (_, s) = stored_evicted k old c h there e gone in
      (
        stored k old c h there e,
        rw f (ap ok (put_bytes-stored k old c h there value now expiry long (ground arith))),
        s,
        omega (int_laws, ap pos_part s, ap neg_part s),
      )
