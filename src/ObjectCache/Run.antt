-- ===== src/ObjectCache/Run.antt =====
-- Sequences of calls on the object cache of src/cachekit/object_cache.py, in the order in which they
-- take its lock, with the clocks that they read and the jitter that they draw.
use cachekit_py.Common.{ℕ, List, [], ◌∷◌}
use cachekit_py.ObjectCache.State.{ObjectCache, Result, ok, raise, Ttl}
use cachekit_py.ObjectCache.Calls.{
  get, get_with_swr, complete_refresh, cancel_refresh, put, delete, clear,
}

pub data Call (K V : Type 0) : Type 0 where
  get_call : K → ℕ → Call K V
  swr_call : K → ℕ → ℕ → ℕ → Call K V
  complete_call : K → ℕ → V → Ttl → ℕ → ℕ → Call K V
  cancel_call : K → ℕ → Call K V
  put_call : K → V → Ttl → ℕ → ℕ → Call K V
  delete_call : K → Call K V
  clear_call : Call K V

module _ {K V : Type 0} where
  -- a call that raises leaves the state as it was
  abbrev pub or_keep : ObjectCache K V → Result (ObjectCache K V) → ObjectCache K V
  or_keep c (ok c') = c'
  or_keep c (raise e) = c

  abbrev pub or_keep_pair :
      {A : Type 0} → ObjectCache K V → Result (ObjectCache K V × A) → ObjectCache K V
  or_keep_pair c (ok (c', a)) = c'
  or_keep_pair c (raise e) = c

  module _ (dec : Discrete K) (estimate : V → ℕ) where
    unfoldable pub step : Call K V → ObjectCache K V → ObjectCache K V
    step (get_call k now) c = (get dec k now c).0
    step (swr_call k ttl now jitter) c = (get_with_swr dec k ttl now jitter c).0
    step (complete_call k version v ttl now now_evict) c =
        or_keep_pair c (complete_refresh dec estimate k version v ttl now now_evict c)
    step (cancel_call k version) c = cancel_refresh dec k version c
    step (put_call k v ttl now now_evict) c = or_keep c (put dec estimate k v ttl now now_evict c)
    step (delete_call k) c = (delete dec k c).0
    step clear_call c = clear dec c

    unfoldable pub run : List (Call K V) → ObjectCache K V → ObjectCache K V
    run [] c = c
    run (call ∷ calls) c = run calls (step call c)
