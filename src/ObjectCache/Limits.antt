-- ===== src/ObjectCache/Limits.antt =====
-- The object cache stays within its bounds over every sequence of calls.
use cachekit_py.Common.{
  ℕ, ◌≡◌, ◌∙◌, refl, true, false, List, [], ◌∷◌, Option, arith, inl, inr, Option-cases, Bool-cases,
  length, ltb, ◌==◌,
}
use mathlib.Core.Path.{subst}
use cachekit_py.OrderedDict
use cachekit_py.OrderedDict.{total}
use cachekit_py.ObjectCache.State.{
  second, ObjectCache, ok, Ttl, finite, non_finite, more_than, init,
}
use cachekit_py.ObjectCache.Evict.{remove}
use cachekit_py.ObjectCache.Calls.{
  complete_refresh, cancel_refresh, put, clear, rewrite_entry, store_new, size_for,
}
use cachekit_py.ObjectCache.Run.{
  Call, get_call, swr_call, complete_call, cancel_call, put_call, delete_call, clear_call, or_keep,
  or_keep_pair, step, run,
}
use cachekit_py.ObjectCache.Invariant.{IsCounted}
use cachekit_py.ObjectCache.Changes.{
  Change, counted, removed, touched, flagged, released, stored, rewritten, cleared, Changes,
  run_induction, here, next,
}
use cachekit_py.ObjectCache.Changes.{
  Changes-get, Changes-swr, Changes-cancel, Changes-delete, Changes_induction as changes_induction,
}
use cachekit_py.ObjectCache.Counted.{change-IsCounted, init-IsCounted}
use cachekit_py.ObjectCache.Fits.{Within}
use cachekit_py.ObjectCache.Bounds.{
  IsBounded, IsSound, keep-IsSound, put_small-IsBounded, complete_small-IsBounded, remove-IsBounded,
}

module _ {K V : Type 0} (dec : Discrete K) where
  shrink-IsSound : {c d : ObjectCache K V} → Changes dec false c d → IsSound dec c → IsSound dec d
  shrink-IsSound = changes_induction dec false (IsSound dec) (keep-IsSound dec)

  put-IsBounded :
      (estimate : V → ℕ) (k : K) (v : V) (ttl : Ttl) (now now_evict : ℕ) (c : ObjectCache K V)
      → IsSound dec c
      → IsBounded dec (or_keep c (put dec estimate k v ttl now now_evict c))
  unfolding put
  put-IsBounded estimate k v non_finite now now_evict c s = s.1
  put-IsBounded estimate k v (finite ttl) now now_evict c s = elim (Bool-cases (ltb ttl second)) [
    | inl low ↦ rw low s.1
    | inr high ↦ elim (Bool-cases (more_than (size_for estimate v c) c.max_size_bytes)) [
      | inl big ↦ rw (high, big) (remove-IsBounded dec k c s.0 s.1)
      | inr small ↦ rw (high, small) (put_small-IsBounded dec k v _ ttl now now_evict c small s)
    ]
  ]

  complete-IsBounded :
      (estimate : V → ℕ) (k : K) (version : ℕ) (v : V) (ttl : Ttl) (now now_evict : ℕ)
      (c : ObjectCache K V)
      → IsSound dec c
      → IsBounded dec
          (or_keep_pair c (complete_refresh dec estimate k version v ttl now now_evict c))
  unfolding complete_refresh
  complete-IsBounded estimate k version v non_finite now now_evict c s = s.1
  complete-IsBounded estimate k version v (finite ttl) now now_evict c s =
      let d = cancel_refresh dec k version c in
      let size = size_for estimate v c in
      let s' : IsSound dec d = shrink-IsSound (Changes-cancel dec false k version c) s in
      elim (Bool-cases (ltb ttl second)) [
        | inl low ↦ rw low s.1
        | inr high ↦ elim (Option-cases (OrderedDict.get dec k d.store)) [
          | inl e ↦ rw (high, e, complete_refresh) s'.1
          | inr (x, e) ↦ elim (Bool-cases (x.generation == version)) [
            | inr other ↦ rw (high, e, complete_refresh, other) s'.1
            | inl own ↦ elim (Bool-cases (more_than size d.max_size_bytes)) [
              | inl big ↦
                  rw (high, e, complete_refresh, own, big) (remove-IsBounded dec k d s'.0 s'.1)
              | inr small ↦
                  rw (high, e, complete_refresh, own, small)
                    (complete_small-IsBounded dec k v size ttl now now_evict x d e s')
            ]
          ]
        ]
      ]

  step-IsBounded :
      (estimate : V → ℕ) (call : Call K V) (c : ObjectCache K V)
      → IsSound dec c
      → IsBounded dec (step dec estimate call c)
  unfolding step
  step-IsBounded estimate (get_call k now) c s =
      (shrink-IsSound (Changes-get dec false k now c) s).1
  step-IsBounded estimate (swr_call k ttl now jitter) c s =
      (shrink-IsSound (Changes-swr dec false k ttl now jitter c) s).1
  step-IsBounded estimate (complete_call k version v ttl now now_evict) c s =
      complete-IsBounded estimate k version v ttl now now_evict c s
  step-IsBounded estimate (cancel_call k version) c s =
      (shrink-IsSound (Changes-cancel dec false k version c) s).1
  step-IsBounded estimate (put_call k v ttl now now_evict) c s =
      put-IsBounded estimate k v ttl now now_evict c s
  step-IsBounded estimate (delete_call k) c s = (shrink-IsSound (Changes-delete dec false k c) s).1
  step-IsBounded estimate clear_call c s = (shrink-IsSound (next here (cleared c)) s).1

  run-IsSound :
      (estimate : V → ℕ) (calls : List (Call K V)) (c : ObjectCache K V)
      → IsSound dec c
      → IsSound dec (run dec estimate calls c)
  unfolding run
  run-IsSound estimate [] c s = s
  run-IsSound estimate (call ∷ calls) c s = run-IsSound estimate calls (step dec estimate call c) (
    run_induction dec true (IsCounted dec) (change-IsCounted dec true) refl estimate (call ∷ []) c
        s.0,
    step-IsBounded estimate call c s,
  )

  init-IsBounded :
      (entries bytes : Option ℕ) (ratio : ℕ) {c : ObjectCache K V}
      → init entries bytes ratio ≡ ok c
      → IsBounded dec c × (c.max_entries ≡ entries) × (c.max_size_bytes ≡ bytes)
  unfolding init
  init-IsBounded entries bytes ratio h = ground arith

  -- the bounds of `c` are those of `d`
  abbrev KeepsBounds : ObjectCache K V → ObjectCache K V → Type 0
  KeepsBounds c d = (d.max_entries ≡ c.max_entries) × (d.max_size_bytes ≡ c.max_size_bytes)

  change-KeepsBounds :
      (start c d : ObjectCache K V)
      → Change dec true c d
      → KeepsBounds start c
      → KeepsBounds start d
  unfolding remove store_new rewrite_entry clear
  change-KeepsBounds start c d (counted hits misses _) h = h
  change-KeepsBounds start c d (removed j _) h = ground arith
  change-KeepsBounds start c d (touched j _) h = h
  change-KeepsBounds start c d (flagged j x _ e n) h = h
  change-KeepsBounds start c d (released j g _ e) h = h
  change-KeepsBounds start c d (stored j v size ttl now _ g e) h = h
  change-KeepsBounds start c d (rewritten j v size ttl now x _ g e) h = h
  change-KeepsBounds start c d (cleared _) h = h

  -- From a new cache, after any sequence of calls, the number of entries is at most the `max_entries`
  -- and the bytes that are counted at most the `max_size_bytes` that the cache was made with, where
  -- these are set.
  pub run-Within_limits :
      (estimate : V → ℕ) (entries bytes : Option ℕ) (ratio : ℕ) {c : ObjectCache K V}
      → init entries bytes ratio ≡ ok c
      → (calls : List (Call K V))
      → Within (length (run dec estimate calls c).store) entries
        × Within (run dec estimate calls c).current_size_bytes bytes
  run-Within_limits estimate entries bytes ratio {c} h calls =
      let (start, e, b) = init-IsBounded entries bytes ratio h in
      let sound = run-IsSound estimate calls c (init-IsCounted dec entries bytes ratio h, start) in
      let (e', b') =
        run_induction dec true (KeepsBounds c) (change-KeepsBounds c) refl estimate calls c
          (refl, refl) in
      (
        subst (Within _) (e' ∙ e) sound.1.entries_bounded,
        subst (Within _) (b' ∙ b) sound.1.bytes_bounded,
      )
