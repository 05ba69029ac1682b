-- ===== src/ObjectCache/Calls.antt =====
-- The public methods of the object cache. Each holds the lock, so it is one function from the state
-- and the clocks that it reads to the new state and its result. `estimate` stands for the size
-- estimate of a value, which needs the interpreter's object sizes.
use cachekit_py.Common.{
  ℕ, ◌+◌, ◌-◌, ◌*◌, Bool, true, false, ◌&&◌, ◌==◌, [], Option, none, some, ltb, leb, is_some, not,
  if◌then◌else◌,
}
use cachekit_py.OrderedDict
use cachekit_py.OrderedDict.{OrderedDict}
use cachekit_py.ObjectCache.State.{
  second, scale, Entry, ObjectCache, Result, ok, raise, bad_ttl, Ttl, finite, non_finite, SwrRead,
  swr_miss, more_than, is_owner,
}
use cachekit_py.ObjectCache.Evict.{remove, evict}

-- the age test of `get_with_swr`: older than `ttl * ratio * jitter`
unfoldable pub is_stale : {V : Type 0} → ℕ → ℕ → ℕ → ℕ → Entry V → Bool
is_stale ttl ratio jitter now e = ltb (ttl * ratio * jitter) ((now - e.cached_at) * scale * scale)

-- the size that is stored with a value: 0 when the cache is not byte-bounded
unfoldable pub size_for : {K V : Type 0} → (V → ℕ) → V → ObjectCache K V → ℕ
size_for estimate value c = if is_some c.max_size_bytes then estimate value else 0

module _ {K V : Type 0} (dec : Discrete K) where
  get_entry : K → ℕ → Option (Entry V) → ObjectCache K V → ObjectCache K V × Option V
  get_entry key now none c = (record c { misses = c.misses + 1 }, none)
  get_entry key now (some e) c =
      let c' = remove dec key c in
      if leb e.expires_at now then (record c' { misses = c'.misses + 1 }, none) else (
        record c { store = OrderedDict.move_to_end dec key c.store; hits = c.hits + 1 },
        some e.value,
      )

  -- `get`: the value if it is found
  unfoldable pub get : K → ℕ → ObjectCache K V → ObjectCache K V × Option V
  unfolding get_entry
  get key now c = get_entry key now (OrderedDict.get dec key c.store) c

  swr_entry : K → ℕ → ℕ → ℕ → Option (Entry V) → ObjectCache K V → ObjectCache K V × SwrRead V
  swr_entry key ttl now jitter none c = (record c { misses = c.misses + 1 }, swr_miss)
  swr_entry key ttl now jitter (some e) c =
      let c' = remove dec key c in
      let read = record c { store = OrderedDict.move_to_end dec key c.store; hits = c.hits + 1 } in
      let refresh =
        is_stale ttl c.swr_threshold_ratio jitter now e
        && not (is_some (OrderedDict.get dec key c.refreshing)) in
      if leb e.expires_at now
      then (record c' { misses = c'.misses + 1 }, swr_miss)
      else if refresh
      then (
        record read { refreshing = OrderedDict.set dec key e.generation c.refreshing },
        record { found = some e.value; needs_refresh = true; version = e.generation },
      )
      else (read, record { found = some e.value; needs_refresh = false; version = e.generation })

  -- `get_with_swr`: the clock is read only after a hit, and the jitter drawn only before expiry
  unfoldable pub get_with_swr : K → ℕ → ℕ → ℕ → ObjectCache K V → ObjectCache K V × SwrRead V
  unfolding swr_entry
  get_with_swr key ttl now jitter c =
      swr_entry key ttl now jitter (OrderedDict.get dec key c.store) c

  -- `cancel_refresh`: release the marker of the key if `version` owns it
  unfoldable pub cancel_refresh : K → ℕ → ObjectCache K V → ObjectCache K V
  cancel_refresh key version c =
      if is_owner (OrderedDict.get dec key c.refreshing) version
      then record c { refreshing = OrderedDict.pop dec key c.refreshing }
      else c

  delete_entry : K → Option (Entry V) → ObjectCache K V → ObjectCache K V × Bool
  delete_entry key none c = (c, false)
  delete_entry key (some e) c = (remove dec key c, true)

  unfoldable pub delete : K → ObjectCache K V → ObjectCache K V × Bool
  unfolding delete_entry
  delete key c = delete_entry key (OrderedDict.get dec key c.store) c

  unfoldable pub clear : ObjectCache K V → ObjectCache K V
  clear c = record c { store = []; current_size_bytes = 0; refreshing = [] }

  -- the entry's fields written in place, and the entry moved to the end
  unfoldable pub rewrite_entry : K → V → ℕ → ℕ → ℕ → Entry V → ObjectCache K V → ObjectCache K V
  rewrite_entry key value size ttl now e c =
      let fresh = record e {
        value = value;
        cached_at = now;
        expires_at = now + ttl;
        size_bytes = size;
      } in
      record c {
        current_size_bytes = c.current_size_bytes + size - e.size_bytes;
        store = OrderedDict.move_to_end dec key (OrderedDict.set dec key fresh c.store);
      }

  -- the part of `complete_refresh` for the entry that the refresh was started on
  land : K → V → ℕ → ℕ → ℕ → ℕ → Entry V → ObjectCache K V → ObjectCache K V × Bool
  land key value size ttl now now_evict e c =
      if more_than size c.max_size_bytes
      then (remove dec key c, false)
      else (evict dec now_evict 0 false (rewrite_entry key value size ttl now e c), true)

  refresh_entry :
      K → ℕ → V → ℕ → ℕ → ℕ → ℕ → Option (Entry V) → ObjectCache K V → ObjectCache K V × Bool
  refresh_entry key version value size ttl now now_evict none c = (c, false)
  refresh_entry key version value size ttl now now_evict (some e) c =
      if e.generation == version then land key value size ttl now now_evict e c else (c, false)

  -- `complete_refresh`
  unfoldable pub complete_refresh :
      (V → ℕ) → K → ℕ → V → Ttl → ℕ → ℕ → ObjectCache K V → Result (ObjectCache K V × Bool)
  unfolding refresh_entry land
  complete_refresh estimate key version value non_finite now now_evict c = raise bad_ttl
  complete_refresh estimate key version value (finite ttl) now now_evict c =
      if ltb ttl second
      then raise bad_ttl
      else let released = cancel_refresh key version c in
        ok (
          refresh_entry key version value (size_for estimate value c) ttl now now_evict
            (OrderedDict.get dec key released.store) released)

  -- the new entry of `put`, stored at the end of the order, with a generation never used before
  unfoldable pub store_new : K → V → ℕ → ℕ → ℕ → ObjectCache K V → ObjectCache K V
  store_new key value size ttl now c =
      let entry : Entry V = record {
        value = value;
        expires_at = now + ttl;
        cached_at = now;
        size_bytes = size;
        generation = c.generation + 1;
      } in
      record c {
        generation = c.generation + 1;
        store = OrderedDict.set dec key entry c.store;
        current_size_bytes = c.current_size_bytes + size;
      }

  -- `put`. `remove` does nothing for a key that is not there, so it stands for the guarded call.
  unfoldable pub put : (V → ℕ) → K → V → Ttl → ℕ → ℕ → ObjectCache K V → Result (ObjectCache K V)
  put estimate key value non_finite now now_evict c = raise bad_ttl
  put estimate key value (finite ttl) now now_evict c =
      let size = size_for estimate value c in
      if ltb ttl second
      then raise bad_ttl
      else if more_than size c.max_size_bytes
      then ok (remove dec key c)
      else ok (store_new key value size ttl now (evict dec now_evict size true (remove dec key c)))
