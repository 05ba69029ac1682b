-- ===== src/L1Cache/Run.antt =====
-- Sequences of calls on the L1 cache, in the order in which they take its lock.
use cachekit_py.Common.{
  ℕ, ◌≡◌, List, [], ◌∷◌, Option, none, arith, inl, inr, Option-cases, Bool-cases,
}
use cachekit_py.Common.Int.{ℤ}
use cachekit_py.OrderedDict
use cachekit_py.OrderedDict.{OrderedDict, total}
use cachekit_py.OrderedDict.Laws.{total-move_to_end}
use cachekit_py.L1Cache.State.{L1Cache, is_expired, Float, init, remove_entry}
use cachekit_py.L1Cache.Calls.{
  Buffer, bytes, other_buffer, PutResult, ok, type_error, get, put, invalidate, clear,
  remove_expired, cleanup_expired,
}
use cachekit_py.L1Cache.Exact.{
  size_of, IsExact, init-IsExact, remove-IsExact, get-IsExact, clear-IsExact, cleanup-IsExact,
}
use cachekit_py.L1Cache.Put.{IsWithin, put_new_sound, remove-IsWithin}

pub data Call (K : Type 0) : Type 0 where
  get_call : K → ℤ → Call K
  put_call : K → Buffer → ℤ → Option Float → Option Float → Call K
  invalidate_call : K → Call K
  clear_call : Call K
  cleanup_call : ℤ → Call K

-- a call that raises leaves the state as it was
abbrev pub or_keep : {K : Type 0} → L1Cache K → PutResult (L1Cache K) → L1Cache K
or_keep c (ok d) = d
or_keep c type_error = c

module _ {K : Type 0} (dec : Discrete K) where
  unfoldable pub step : Call K → L1Cache K → L1Cache K
  step (get_call k now) c = (get dec k now c).0
  step (put_call k b now redis_ttl expires_at) c =
      or_keep c (put dec k b now redis_ttl expires_at c)
  step (invalidate_call k) c = invalidate dec k c
  step clear_call c = clear dec c
  step (cleanup_call now) c = (cleanup_expired dec now c).0

  unfoldable pub run : List (Call K) → L1Cache K → L1Cache K
  run [] c = c
  run (call ∷ calls) c = run calls (step call c)

  -- a `put` is for a key that has no entry
  abbrev pub IsFresh : Call K → L1Cache K → Type 0
  IsFresh (put_call k b now redis_ttl expires_at) c = OrderedDict.get dec k c.cache ≡ none
  IsFresh _ c = Unit

  abbrev pub AllFresh : List (Call K) → L1Cache K → Type 0
  AllFresh [] c = Unit
  AllFresh (call ∷ calls) c = IsFresh call c × AllFresh calls (step call c)

  abbrev pub IsSound : L1Cache K → Type 0
  IsSound c = IsExact dec c × IsWithin dec c

  remove-IsSound : (k : K) (c : L1Cache K) → IsSound c → IsSound (remove_entry dec k c)
  remove-IsSound k c (h, w) = (remove-IsExact dec k c h, remove-IsWithin dec k c h w)

  get-IsWithin : (k : K) (now : ℤ) (c : L1Cache K) → IsSound c → IsWithin dec (get dec k now c).0
  unfolding get
  get-IsWithin k now c (h, w) = elim (Option-cases (OrderedDict.get dec k c.cache)) [
    | inl e ↦ rw (e, get) w
    | inr (x, e) ↦ elim (Bool-cases (is_expired now x)) [
      | inl old ↦ rw (e, get, old) (remove-IsWithin dec k c h w)
      | inr new ↦ rw (e, get, new) (rw (total-move_to_end dec size_of k c.cache h.distinct) w)
    ]
  ]

  remove_expired-IsWithin :
      (keys : List K) (c : L1Cache K) → IsSound c → IsWithin dec (remove_expired dec keys c)
  unfolding remove_expired
  remove_expired-IsWithin [] c (h, w) = w
  remove_expired-IsWithin (k ∷ keys) c (h, w) =
      let r = remove-IsExact dec k c h in
      remove_expired-IsWithin keys _
        (record { distinct = r.distinct; counted = r.counted }, remove-IsWithin dec k c h w)

  step-IsSound :
      (call : Call K) (c : L1Cache K) → IsFresh call c → IsSound c → IsSound (step call c)
  unfolding step invalidate
  step-IsSound (get_call k now) c f s = (get-IsExact dec k now c s.0, get-IsWithin k now c s)
  step-IsSound (put_call k other_buffer now redis_ttl expires_at) c f s = unfold put in s
  step-IsSound (put_call k (bytes value) now redis_ttl expires_at) c f s =
      let (d, e, h, w) = put_new_sound dec k value now redis_ttl expires_at c s.0 s.1 f in
      rw e (h, w)
  step-IsSound (invalidate_call k) c f s = remove-IsSound k c s
  step-IsSound clear_call c f s = (clear-IsExact dec c, unfold clear total in omega arith)
  step-IsSound (cleanup_call now) c f s =
      (cleanup-IsExact dec now c s.0, unfold cleanup_expired in remove_expired-IsWithin _ c s)

  run-IsSound_from :
      (calls : List (Call K)) (c : L1Cache K) → AllFresh calls c → IsSound c → IsSound (run calls c)
  unfolding run
  run-IsSound_from [] c f s = s
  run-IsSound_from (call ∷ calls) c f s =
      run-IsSound_from calls (step call c) f.1 (step-IsSound call c f.0 s)

  -- From a new L1 cache, after any reads, invalidations, clean-ups and clearings, and any `put`s that
  -- each find no entry under their key: no key is held twice, the byte count is exactly the sum of the
  -- sizes that are held, and that sum is within `max_memory_bytes`.
  pub run-IsSound :
      (mb : ℕ) (buffer : ℤ) (calls : List (Call K))
      → AllFresh calls (init mb buffer)
      → IsSound (run calls (init mb buffer))
  unfolding init total
  run-IsSound mb buffer calls f =
      run-IsSound_from calls (init mb buffer) f (init-IsExact dec mb buffer, omega arith)
