-- ===== src/L1Cache/State.antt =====
-- The state of the L1 cache and its private helpers. The byte count is an integer, as in the source:
-- nothing in the code keeps it from going below zero. Times are whole ticks, `second` of them to a
-- second; NaN and the infinities, which the code treats alike, are the one value `non_finite`.
use cachekit_py.Common.{ℕ, ◌+◌, ◌*◌, Bool, List, [], ◌∷◌, Option, none, some, length, if◌then◌else◌}
use cachekit_py.Common.Int.{ℤ, pos, ◌+ℤ◌, ◌-ℤ◌, leb_ℤ}
use cachekit_py.OrderedDict
use cachekit_py.OrderedDict.{OrderedDict}

abbrev pub second : ℕ
second = 1000

pub record CacheEntry : Type 0 where
  pub value : List ℕ
  pub expires_at : ℤ
  pub size_bytes : ℕ

-- `is_expired`
unfoldable pub is_expired : ℤ → CacheEntry → Bool
is_expired now e = leb_ℤ e.expires_at now

pub record L1Cache (K : Type 0) : Type 0 where
  pub max_memory_bytes : ℕ
  pub ttl_buffer : ℤ
  pub cache : OrderedDict K CacheEntry
  pub current_memory_bytes : ℤ
  pub hits : ℕ
  pub misses : ℕ
  pub evictions : ℕ
  pub expired_evictions : ℕ

unfoldable pub init : {K : Type 0} → ℕ → ℤ → L1Cache K
init max_memory_mb ttl_buffer = record {
  max_memory_bytes = max_memory_mb * 1024 * 1024;
  ttl_buffer = ttl_buffer;
  cache = [];
  current_memory_bytes = pos 0;
  hits = 0;
  misses = 0;
  evictions = 0;
  expired_evictions = 0;
}

-- a float, as far as the code looks at it
pub data Float : Type 0 where
  finite : ℤ → Float
  non_finite : Float

abbrev pub shift : Float → ℤ → Float
shift (finite t) d = finite (t +ℤ d)
shift non_finite d = non_finite

-- the expiry that `put` computes from `expires_at`, `redis_ttl` or the default of 300 seconds
unfoldable pub expiry_of : ℤ → ℤ → Option Float → Option Float → Float
expiry_of now buffer redis_ttl (some at) = shift at (pos 0 -ℤ buffer)
expiry_of now buffer (some ttl) none = shift (shift ttl now) (pos 0 -ℤ buffer)
expiry_of now buffer none none = finite (now +ℤ pos (300 * second) +ℤ (pos 0 -ℤ buffer))

-- `_estimate_size`
abbrev pub estimate_size : List ℕ → ℕ
estimate_size value = length value

module _ {K : Type 0} (dec : Discrete K) where
  remove_found : K → Option CacheEntry → L1Cache K → L1Cache K
  remove_found key none c = c
  remove_found key (some e) c = record c {
    cache = OrderedDict.pop dec key c.cache;
    current_memory_bytes = c.current_memory_bytes -ℤ pos e.size_bytes;
  }

  -- `_remove_entry`
  unfoldable pub remove_entry : K → L1Cache K → L1Cache K
  unfolding remove_found
  remove_entry key c = remove_found key (OrderedDict.get dec key c.cache) c

  unfoldable pub pop_all : List K → OrderedDict K CacheEntry → OrderedDict K CacheEntry
  pop_all [] d = d
  pop_all (k ∷ keys) d = pop_all keys (OrderedDict.pop dec k d)

-- The scan of `_evict_for_space`: the byte count and the number of evictions after it, and the keys
-- to remove. It breaks off at the first entry where enough is free.
unfoldable pub evict_scan : {K : Type 0} → ℕ → ℕ → OrderedDict K CacheEntry → ℤ → ℕ → ℤ × ℕ × List K
evict_scan limit needed [] current evictions = (current, evictions, [])
evict_scan limit needed ((k, e) ∷ rest) current evictions =
    let (current', evictions', keys) =
      evict_scan limit needed rest (current -ℤ pos e.size_bytes) (evictions + 1) in
    if leb_ℤ (current +ℤ pos needed) (pos limit)
    then (current, evictions, [])
    else (current', evictions', k ∷ keys)

-- `_evict_for_space`. The test before the scan is the scan's own first test; a scan that finds
-- nothing to do changes nothing.
unfoldable pub evict_for_space : {K : Type 0} → Discrete K → ℕ → L1Cache K → L1Cache K
evict_for_space dec needed c =
    let (current, evictions, keys) =
      evict_scan c.max_memory_bytes needed c.cache c.current_memory_bytes c.evictions in
    if leb_ℤ (c.current_memory_bytes +ℤ pos needed) (pos c.max_memory_bytes) then c else record c {
      cache = pop_all dec keys c.cache;
      current_memory_bytes = current;
      evictions = evictions;
    }
