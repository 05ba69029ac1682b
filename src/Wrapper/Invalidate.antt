-- ===== src/Wrapper/Invalidate.antt =====
-- src/cachekit/decorators/wrapper.py: `invalidate_cache` of a decorated function with a backend, for
-- one key and for every key stored so far. The iteration over the set of keys follows the list.
use cachekit_py.Common.{List, [], ◌∷◌, if◌then◌else◌}
use cachekit_py.Handler.Backend.{Backend, succeeded}
use cachekit_py.Wrapper.{State, discard_key}
use cachekit_py.Wrapper.Calls.{invalidate_l1}

module _ {K S : Type 0} (dec : Discrete K) (backend : Backend K S) where
  delete_backend : K → State K S → State K S
  delete_backend key st = record st {
    store = record st.store { backend_state = (backend.delete key st.store.backend_state).0 };
  }

  discard : K → State K S → State K S
  discard key st = record st { cached_keys = discard_key dec key st.cached_keys }

  abbrev pub drop_l1 : K → State K S → State K S
  drop_l1 key st = record st { l1_cache = invalidate_l1 dec key st.l1_cache }

  -- with arguments: one key; the exception of the backend is logged
  unfoldable pub invalidate_key : K → State K S → State K S
  unfolding delete_backend discard
  invalidate_key key st = delete_backend key (discard key (drop_l1 key st))

  -- the body of the loop: a key whose deletion raised stays for a later attempt
  unfoldable pub invalidate_next : K → State K S → State K S
  unfolding delete_backend discard
  invalidate_next key st =
      let r = backend.delete key st.store.backend_state in
      let st' = delete_backend key (drop_l1 key st) in
      if succeeded r.1 then discard key st' else st'

  unfoldable pub invalidate_keys : List K → State K S → State K S
  invalidate_keys [] st = st
  invalidate_keys (key ∷ keys) st = invalidate_keys keys (invalidate_next key st)

  -- without arguments
  unfoldable pub invalidate_all : State K S → State K S
  unfolding invalidate_keys
  invalidate_all st = invalidate_keys st.cached_keys st
