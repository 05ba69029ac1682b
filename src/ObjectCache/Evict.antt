-- ===== src/ObjectCache/Evict.antt =====
-- `_remove` and `_evict` of the object cache.
use cachekit_py.Common.{
  ℕ, ◌+◌, ◌-◌, Bool, ◌&&◌, zero, suc, ◌||◌, List, [], ◌∷◌, Option, none, some, leb, length,
  if◌then◌else◌,
}
use cachekit_py.OrderedDict
use cachekit_py.OrderedDict.{OrderedDict}
use cachekit_py.ObjectCache.State.{Entry, ObjectCache, at_least, more_than}

module _ {K V : Type 0} (dec : Discrete K) where
  remove_found : K → Option (Entry V) → ObjectCache K V → ObjectCache K V
  remove_found key none c = c
  remove_found key (some e) c = record c {
    store = OrderedDict.pop dec key c.store;
    current_size_bytes = c.current_size_bytes - e.size_bytes;
    refreshing = OrderedDict.pop dec key c.refreshing;
  }

  -- `_remove`
  unfoldable pub remove : K → ObjectCache K V → ObjectCache K V
  unfolding remove_found
  remove key c = remove_found key (OrderedDict.get dec key c.store) c

  -- `over_bounds` of `_evict`
  unfoldable pub over_bounds : ℕ → Bool → ObjectCache K V → Bool
  over_bounds extra_bytes need_slot c =
      need_slot && at_least (length c.store) c.max_entries
      || more_than (c.current_size_bytes + extra_bytes) c.max_size_bytes

  -- the keys of the entries that have expired
  unfoldable pub expired_keys : ℕ → OrderedDict K (Entry V) → List K
  expired_keys now [] = []
  expired_keys now ((k, e) ∷ d) =
      let rest = expired_keys now d in if leb e.expires_at now then k ∷ rest else rest

  unfoldable pub remove_all : List K → ObjectCache K V → ObjectCache K V
  remove_all [] c = c
  remove_all (k ∷ keys) c = remove_all keys (remove k c)

  -- one test of the loop below, and the first key of the store if it goes on
  unfoldable pub evict_round :
      (K → ObjectCache K V) → Bool → OrderedDict K (Entry V) → ObjectCache K V → ObjectCache K V
  evict_round next over [] c = c
  evict_round next over (e ∷ rest) c = if over then next e.0 else c

  -- The `while self._store and over_bounds()` loop, on fuel: a round removes the first key. The
  -- store shrinks with each round, so its length is fuel enough.
  unfoldable pub evict_lru : ℕ → ℕ → Bool → ObjectCache K V → ObjectCache K V
  evict_lru zero extra_bytes need_slot c = c
  evict_lru (suc fuel) extra_bytes need_slot c =
      evict_round (λ k. evict_lru fuel extra_bytes need_slot (remove k c))
        (over_bounds extra_bytes need_slot c) c.store c

  unfoldable pub sweep : ℕ → ObjectCache K V → ObjectCache K V
  sweep now c = remove_all (expired_keys now c.store) c

  -- `_evict`, which reads the clock `now` only when a bound is exceeded
  unfoldable pub evict : ℕ → ℕ → Bool → ObjectCache K V → ObjectCache K V
  evict now extra_bytes need_slot c =
      let swept = sweep now c in
      if over_bounds extra_bytes need_slot c
      then evict_lru (length swept.store) extra_bytes need_slot swept
      else c
