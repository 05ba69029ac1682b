-- ===== src/L1Cache/Manager.antt =====
-- The registry of L1 caches, `L1CacheManager` of src/cachekit/l1_cache.py. A cache that `get_cache`
-- hands out is the one in the registry, so a caller's call on it is a step of the registry. The
-- thread of the background cleanup is a flag and the rounds that it makes.
use cachekit_py.Common.{ℕ, Bool, false, [], ◌∷◌, Option, none, some}
use cachekit_py.Common.Int.{ℤ}
use cachekit_py.OrderedDict
use cachekit_py.OrderedDict.{OrderedDict}
use cachekit_py.L1Cache.State.{L1Cache, init}
use cachekit_py.L1Cache.Calls.{clear, cleanup_expired}
use cachekit_py.L1Cache.Run.{Call, step}

pub record L1CacheManager (N K : Type 0) : Type 0 where
  pub caches : OrderedDict N (L1Cache K)
  pub default_max_memory_mb : ℕ
  pub cleanup_running : Bool

-- `__init__`, with the limit that was given or that the settings hold
unfoldable pub new_manager : {N K : Type 0} → ℕ → L1CacheManager N K
new_manager mb = record { caches = []; default_max_memory_mb = mb; cleanup_running = false }

abbrev pub budget_of : Option ℕ → ℕ → ℕ
budget_of none default = default
budget_of (some mb) default = mb

-- a function of every value, in place
unfoldable pub map_values : {N V : Type 0} → (N → V → V) → OrderedDict N V → OrderedDict N V
map_values f [] = []
map_values f ((n, v) ∷ d) = (n, f n v) ∷ map_values f d

module _ {N K : Type 0} (dec_name : Discrete N) (dec : Discrete K) where
  create_missing : ℤ → N → Option ℕ → Option (L1Cache K) → L1CacheManager N K → L1CacheManager N K
  create_missing buffer name max_size_mb (some c) m = m
  create_missing buffer name max_size_mb none m = record m {
    caches =
        OrderedDict.set dec_name name (init (budget_of max_size_mb m.default_max_memory_mb) buffer)
          m.caches;
  }

  -- `get_cache`, with the default TTL buffer of a cache; the cache is then under its name
  unfoldable pub get_cache : ℤ → N → Option ℕ → L1CacheManager N K → L1CacheManager N K
  unfolding create_missing
  get_cache buffer name max_size_mb m =
      create_missing buffer name max_size_mb (OrderedDict.get dec_name name m.caches) m

  call_found : N → Call K → Option (L1Cache K) → L1CacheManager N K → L1CacheManager N K
  call_found name call none m = m
  call_found name call (some c) m = record m {
    caches = OrderedDict.set dec_name name (step dec call c) m.caches;
  }

  -- a caller's call on the cache of a namespace
  unfoldable pub call_cache : N → Call K → L1CacheManager N K → L1CacheManager N K
  unfolding call_found
  call_cache name call m = call_found name call (OrderedDict.get dec_name name m.caches) m

  -- a round of the cleanup thread, with the clock that each cache reads
  unfoldable pub cleanup_round : (N → ℤ) → L1CacheManager N K → L1CacheManager N K
  cleanup_round clock m = record m {
    caches = map_values (λ n c. (cleanup_expired dec (clock n) c).0) m.caches;
  }

  unfoldable pub clear_all : L1CacheManager N K → L1CacheManager N K
  clear_all m = record m { caches = map_values (λ n c. clear dec c) m.caches }

  -- `start_background_cleanup` and `stop_background_cleanup`
  unfoldable pub set_cleanup : Bool → L1CacheManager N K → L1CacheManager N K
  set_cleanup running m = record m { cleanup_running = running }
