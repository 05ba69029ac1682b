-- ===== src/L1Cache/Calls.antt =====
-- The public methods of the L1 cache. Each holds the lock, so it is one function from the state and
-- the clock that it reads to the new state and its result.
use cachekit_py.Common.{ℕ, ◌+◌, List, [], ◌∷◌, Option, none, some, ltb, length, if◌then◌else◌}
use cachekit_py.Common.Int.{ℤ, pos, ◌+ℤ◌, ◌-ℤ◌, leb_ℤ}
use cachekit_py.OrderedDict
use cachekit_py.OrderedDict.{OrderedDict}
use cachekit_py.L1Cache.State.{
  CacheEntry, L1Cache, is_expired, Float, finite, non_finite, expiry_of, estimate_size,
  remove_entry, evict_for_space,
}

-- What `put` is given: `bytes`, or another buffer, which is refused.
pub data Buffer : Type 0 where
  bytes : List ℕ → Buffer
  other_buffer : Buffer

pub data PutResult (A : Type 0) : Type 0 where
  ok : A → PutResult A
  type_error : PutResult A

module _ {K : Type 0} (dec : Discrete K) where
  get_entry : K → ℤ → Option CacheEntry → L1Cache K → L1Cache K × Option (List ℕ)
  get_entry key now none c = (record c { misses = c.misses + 1 }, none)
  get_entry key now (some e) c =
      let c' = remove_entry dec key c in
      if is_expired now e
      then (
        record c' { misses = c'.misses + 1; expired_evictions = c'.expired_evictions + 1 },
        none,
      )
      else (
        record c { cache = OrderedDict.move_to_end dec key c.cache; hits = c.hits + 1 },
        some e.value,
      )

  -- `get`: the value if it is found
  unfoldable pub get : K → ℤ → L1Cache K → L1Cache K × Option (List ℕ)
  unfolding get_entry
  get key now c = get_entry key now (OrderedDict.get dec key c.cache) c

  -- the byte count of `put` with the old entry of the key taken off it
  without_old : Option CacheEntry → L1Cache K → L1Cache K
  without_old none c = c
  without_old (some old) c = record c {
    current_memory_bytes = c.current_memory_bytes -ℤ pos old.size_bytes;
  }

  -- the last part of `put`
  unfoldable pub store_entry : K → CacheEntry → L1Cache K → L1Cache K
  store_entry key entry c = record c {
    cache = OrderedDict.move_to_end dec key (OrderedDict.set dec key entry c.cache);
    current_memory_bytes = c.current_memory_bytes +ℤ pos entry.size_bytes;
  }

  -- `put` of bytes, from the computed expiry on
  unfoldable pub put_bytes : K → List ℕ → ℤ → Float → L1Cache K → L1Cache K
  unfolding without_old
  put_bytes key value now non_finite c = c
  put_bytes key value now (finite expiry) c =
      let size = estimate_size value in
      let entry : CacheEntry = record { value = value; expires_at = expiry; size_bytes = size } in
      let freed = without_old (OrderedDict.get dec key c.cache) c in
      if leb_ℤ expiry now
      then c
      else if ltb c.max_memory_bytes size
      then remove_entry dec key c
      else store_entry key entry (evict_for_space dec size freed)

  -- `put`. `remove_entry` does nothing for a key that is not there, so it stands for the guarded call.
  unfoldable pub put :
      K → Buffer → ℤ → Option Float → Option Float → L1Cache K → PutResult (L1Cache K)
  put key other_buffer now redis_ttl expires_at c = type_error
  put key (bytes value) now redis_ttl expires_at c =
      ok (put_bytes key value now (expiry_of now c.ttl_buffer redis_ttl expires_at) c)

  unfoldable pub invalidate : K → L1Cache K → L1Cache K
  invalidate key c = remove_entry dec key c

  unfoldable pub clear : L1Cache K → L1Cache K
  clear c = record c { cache = []; current_memory_bytes = pos 0 }

  -- the keys that `cleanup_expired` collects
  unfoldable pub expired_keys : ℤ → OrderedDict K CacheEntry → List K
  expired_keys now [] = []
  expired_keys now ((k, e) ∷ d) =
      let rest = expired_keys now d in if leb_ℤ e.expires_at now then k ∷ rest else rest

  unfoldable pub remove_expired : List K → L1Cache K → L1Cache K
  remove_expired [] c = c
  remove_expired (k ∷ keys) c =
      let c' = remove_entry dec k c in
      remove_expired keys (record c' { expired_evictions = c'.expired_evictions + 1 })

  -- `cleanup_expired`: with the number of entries removed
  unfoldable pub cleanup_expired : ℤ → L1Cache K → L1Cache K × ℕ
  cleanup_expired now c =
      let keys = expired_keys now c.cache in (remove_expired keys c, length keys)
