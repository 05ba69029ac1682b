-- ===== src/Memcached/Tests.antt =====
-- The Memcached backend over a dictionary in place of the servers, and its theorems there.
use cachekit_py.Common.{[], ◌∷◌, none, some, true, ◌≡◌, ◌⊎◌, refl, arith, ℕ_discrete}
use cachekit_py.Common.Int.{pos}
use cachekit_py.Errors.{backend_error, permanent}
use mathlib.Core.List.{List-discrete}
use cachekit_py.Keys.{String}
use cachekit_py.OrderedDict
use cachekit_py.OrderedDict.{OrderedDict}
use cachekit_py.OrderedDict.Laws.{get-pop, get-set}
use cachekit_py.Handler.{Bytes}
use cachekit_py.Handler.Backend.{IsBackend, fails}
use cachekit_py.Memcached.{
  MemcachedConfig, Client, replied, classified, expire_of, prefixed_key, get, set,
}
use cachekit_py.Memcached.Fits.{
  IsClient, memcached_backend, HoldsPrefixed, memcached_backend-IsBackend,
}

abbrev Servers : Type 0
Servers = OrderedDict String Bytes

module _ (dec : Discrete String) where
  abbrev dict_client : Client Servers
  dict_client = record {
    get = λ key s. (s, replied (OrderedDict.get dec key s));
    set = λ key bytes expire s. (OrderedDict.set dec key bytes s, replied true);
    delete = λ key s. (OrderedDict.pop dec key s, replied true);
    touch = λ key expire s. (s, replied true);
  }

  abbrev Contains : Servers → String → Bytes → Type 0
  Contains s key b = OrderedDict.get dec key s ≡ some b

  dict_set :
      (key : String) (bytes : Bytes) (s : Servers) (j : String) (b : Bytes)
      → Contains (OrderedDict.set dec key bytes s) j b
      → Contains s j b ⊎ ((j ≡ key) × (b ≡ bytes))
  dict_set key bytes s j b held = ground (arith, get-set dec key j bytes s)

  dict_pop :
      (key : String) (s : Servers) (j : String) (b : Bytes)
      → Contains (OrderedDict.pop dec key s) j b
      → Contains s j b
  dict_pop key s j b held = ground (arith, get-pop dec key j s)

  dict_client-IsClient : IsClient dict_client Contains
  dict_client-IsClient = record {
    get_holds = λ key s b p. ground arith;
    get_keeps = λ key s j b h. h;
    set_keeps = λ key bytes expire s j b h. dict_set key bytes s j b h;
    delete_keeps = λ key s j b h. dict_pop key s j b h;
  }

abbrev same_key : Discrete String
same_key = List-discrete ℕ_discrete

-- the prefix `a:`
abbrev config : MemcachedConfig
config = record { key_prefix = 97 ∷ 58 ∷ []; max_item_size_bytes = 4 }

memcached_backend-IsBackend_example :
    IsBackend
      (memcached_backend config (dict_client same_key))
      (HoldsPrefixed config (dict_client same_key) (Contains same_key))
memcached_backend-IsBackend_example =
    memcached_backend-IsBackend config (dict_client same_key) (Contains same_key)
      (dict_client-IsClient same_key)

program : Unit {0}
unfolding get set prefixed_key classified expire_of OrderedDict.set
program = tt

stored_with_prefix :
    (set config (dict_client same_key) (98 ∷ []) (1 ∷ []) none []).0
    ≡ (97 ∷ 58 ∷ 98 ∷ [], 1 ∷ []) ∷ []
unfolding program
stored_with_prefix = refl

too_large :
    set config (dict_client same_key) (98 ∷ []) (1 ∷ 2 ∷ 3 ∷ 4 ∷ 5 ∷ []) none []
    ≡ ([], fails (backend_error permanent))
unfolding program
too_large = refl

a_year_is_thirty_days : expire_of (some (pos 31536000)) ≡ 2592000
unfolding program
a_year_is_thirty_days = refl
