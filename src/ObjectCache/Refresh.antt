-- ===== src/ObjectCache/Refresh.antt =====
-- Refreshes of the object cache that come too late never land.
use cachekit_py.Common.{
  ℕ, ◌≤◌, ◌≡◌, ◌≢◌, refl, Bool, true, false, List, Option, none, some, arith, inl, inr,
  Option-cases, Bool-cases, ltb, ◌==◌,
}
use cachekit_py.OrderedDict
use cachekit_py.OrderedDict.{total}
use cachekit_py.OrderedDict.Laws.{get-pop, get-set, get-move_to_end}
use cachekit_py.ObjectCache.State.{second, Entry, ObjectCache, ok, finite, more_than, init}
use cachekit_py.ObjectCache.Evict.{remove}
use cachekit_py.ObjectCache.Calls.{
  get_with_swr, complete_refresh, cancel_refresh, put, delete, clear, rewrite_entry, store_new,
  size_for,
}
use cachekit_py.ObjectCache.Run.{Call, put_call, delete_call, clear_call, or_keep, step, run}
use cachekit_py.ObjectCache.Invariant.{
  IsCounted, evict-SameSettings, remove-SameSettings, remove_self,
}
use cachekit_py.ObjectCache.Changes.{
  Change, counted, removed, touched, flagged, released, stored, rewritten, cleared, run_induction,
  Changes-step, Changes_induction, store-cancel_refresh,
}
use cachekit_py.ObjectCache.Counted.{run-IsCounted}

module _ {K V : Type 0} (dec : Discrete K) (k : K) where
  abbrev IsOther : Option (Entry V) → ℕ → Type 0
  IsOther none version = Unit
  IsOther (some e) version = e.generation ≢ version

  -- No entry of the key has the version, and no entry to come will.
  record IsDead (version : ℕ) (c : ObjectCache K V) : Type 0 where
    given_out : version ≤ c.generation
    gone : IsOther (OrderedDict.get dec k c.store) version

  change_given_out :
      (version : ℕ) (grow : Bool) (c d : ObjectCache K V)
      → Change dec grow c d
      → version ≤ c.generation
      → version ≤ d.generation
  unfolding remove store_new rewrite_entry clear
  change_given_out version grow c d (counted hits misses _) h = h
  change_given_out version grow c d (removed j _) h = ground arith
  change_given_out version grow c d (touched j _) h = h
  change_given_out version grow c d (flagged j x _ e n) h = h
  change_given_out version grow c d (released j g _ e) h = h
  change_given_out version grow c d (stored j v size ttl now _ g e) h = omega arith
  change_given_out version grow c d (rewritten j v size ttl now x _ g e) h = h
  change_given_out version grow c d (cleared _) h = h

  remove-gone :
      (version : ℕ) (j : K) (c : ObjectCache K V)
      → IsOther (OrderedDict.get dec k c.store) version
      → IsOther (OrderedDict.get dec k (remove dec j c).store) version
  unfolding remove
  remove-gone version j c h = elim (Option-cases (OrderedDict.get dec j c.store)) [
    | inl e ↦ rw (e, remove) h
    | inr (x, e) ↦ rw (e, remove) (rw get-pop (ground arith))
  ]

  change-gone :
      (version : ℕ) (grow : Bool) (c d : ObjectCache K V)
      → Change dec grow c d
      → version ≤ c.generation
      → IsOther (OrderedDict.get dec k c.store) version
      → IsOther (OrderedDict.get dec k d.store) version
  unfolding store_new rewrite_entry clear
  change-gone version grow c d (counted hits misses _) m h = h
  change-gone version grow c d (removed j _) m h = remove-gone version j c h
  change-gone version grow c d (touched j _) m h = rw get-move_to_end h
  change-gone version grow c d (flagged j x _ e n) m h = h
  change-gone version grow c d (released j g _ e) m h = h
  change-gone version grow c d (stored j v size ttl now _ g e) m h = rw get-set (ground arith)
  change-gone version grow c d (rewritten j v size ttl now x _ g e) m h =
      rw (get-move_to_end, get-set) (ground arith)
  change-gone version grow c d (cleared _) m h = unfold OrderedDict.get in tt

  change-IsDead :
      (version : ℕ) (grow : Bool) (c d : ObjectCache K V)
      → Change dec grow c d
      → IsDead version c
      → IsDead version d
  change-IsDead version grow c d s h = record {
    given_out = change_given_out version grow c d s h.given_out;
    gone = change-gone version grow c d s h.given_out h.gone;
  }

  -- the calls that take the key's entry away, or put another in its place
  pub data Invalidates : Call K V → Type 0 where
    by_delete : Invalidates (delete_call k)
    by_clear : Invalidates clear_call
    by_put :
        (v : V) (ttl now now_evict : ℕ)
        → second ≤ ttl
        → Invalidates (put_call k v (finite ttl) now now_evict)

  delete-gone :
      (version : ℕ) (c : ObjectCache K V)
      → IsOther (OrderedDict.get dec k (delete dec k c).0.store) version
  unfolding delete
  delete-gone version c = elim (Option-cases (OrderedDict.get dec k c.store)) [
    | inl e ↦ rw (e, delete) (rw e tt)
    | inr (x, e) ↦ rw (e, delete) (rw (remove_self dec k c) tt)
  ]

  put-gone :
      (estimate : V → ℕ) (version : ℕ) (v : V) (ttl now now_evict : ℕ) (c : ObjectCache K V)
      → second ≤ ttl
      → version ≤ c.generation
      → IsOther
          (OrderedDict.get dec k
            (or_keep c (put dec estimate k v (finite ttl) now now_evict c)).store)
          version
  unfolding put store_new
  put-gone estimate version v ttl now now_evict c long m =
      let size = size_for estimate v c in
      let high : ltb ttl second ≡ false = ground arith in
      let start = remove dec k c in
      let same =
        remove-SameSettings dec c k c
          (record { same_entries = refl; same_bytes = refl; same_generation = refl }) in
      let kept = evict-SameSettings dec now_evict size true start in
      elim (Bool-cases (more_than size c.max_size_bytes)) [
        | inl big ↦ rw (high, big) (rw (remove_self dec k c) tt)
        | inr small ↦
            rw (high, small)
              (rw get-set (ground (arith, kept.same_generation, same.same_generation)))
      ]

  invalidate-IsDead :
      (estimate : V → ℕ) (version : ℕ) (call : Call K V) (c : ObjectCache K V)
      → Invalidates call
      → version ≤ c.generation
      → IsDead version (step dec estimate call c)
  unfolding step clear
  invalidate-IsDead estimate version call c i m = record {
    given_out =
        Changes_induction dec true (λ d. version ≤ d.generation) (change_given_out version true)
          (Changes-step dec true refl estimate call c) m;
    gone = gone_after call i;
  }
    where
      gone_after :
          (call : Call K V)
          → Invalidates call
          → IsOther (OrderedDict.get dec k (step dec estimate call c).store) version
      gone_after call by_delete = delete-gone version c
      gone_after call by_clear = unfold OrderedDict.get in tt
      gone_after call (by_put v ttl now now_evict long) =
          put-gone estimate version v ttl now now_evict c long m

  dead_refresh :
      (estimate : V → ℕ) (version : ℕ) (v : V) (ttl now now_evict : ℕ) (c : ObjectCache K V)
      → second ≤ ttl
      → IsDead version c
      → complete_refresh dec estimate k version v (finite ttl) now now_evict c
        ≡ ok (cancel_refresh dec k version c, false)
  unfolding complete_refresh
  dead_refresh estimate version v ttl now now_evict c long h =
      let same = store-cancel_refresh dec k version c in
      let high : ltb ttl second ≡ false = ground arith in
      elim (Option-cases (OrderedDict.get dec k c.store)) [
        | inl e ↦ rw (high, same, e, complete_refresh) refl
        | inr (x, e) ↦
            let other : (x.generation == version) ≡ false = ground (arith, h.gone) in
            rw (high, same, e, complete_refresh, other) refl
      ]

  found_given_out :
      (ttl now jitter : ℕ) (c : ObjectCache K V) {v : V}
      → IsCounted dec c
      → let (d, read) = get_with_swr dec k ttl now jitter c in
        read.found ≡ some v → read.version ≤ d.generation
  unfolding get_with_swr
  found_given_out ttl now jitter c h f = ground (arith, h.stamped k)

  -- A refresh that finishes too late never resurrects a value. Take any cache reached from a new one
  -- and a `get_with_swr` that finds the key, with its version. If, after any further calls, the entry
  -- is deleted, cleared away, or replaced by a `put` with a valid TTL, then after any calls that
  -- follow, `complete_refresh` with that version returns False and leaves every entry and the byte
  -- count as they were: all that it can change is to release the marker of its own version.
  pub late_refresh_discarded :
      (estimate : V → ℕ) (entries bytes : Option ℕ) (ratio : ℕ) {c : ObjectCache K V}
      (earlier : List (Call K V)) (ttl now jitter : ℕ) {found : V} (between : List (Call K V))
      (call : Call K V) (later : List (Call K V)) (value : V) (ttl' now' now_evict : ℕ)
      → init entries bytes ratio ≡ ok c
      → (get_with_swr dec k ttl now jitter (run dec estimate earlier c)).1.found ≡ some found
      → Invalidates call
      → second ≤ ttl'
      → let (d, read) = get_with_swr dec k ttl now jitter (run dec estimate earlier c) in
        let e = run dec estimate later (step dec estimate call (run dec estimate between d)) in
        (complete_refresh dec estimate k read.version value (finite ttl') now' now_evict e
          ≡ ok (cancel_refresh dec k read.version e, false))
        × ((cancel_refresh dec k read.version e).store ≡ e.store)
        × ((cancel_refresh dec k read.version e).current_size_bytes ≡ e.current_size_bytes)
  late_refresh_discarded estimate entries bytes ratio {c} earlier ttl now jitter {found} between
        call later value ttl' now' now_evict h f i long =
      let start = run dec estimate earlier c in
      let d = (get_with_swr dec k ttl now jitter start).0 in
      let version = (get_with_swr dec k ttl now jitter start).1.version in
      let m =
        found_given_out ttl now jitter start
          (run-IsCounted dec estimate entries bytes ratio h earlier) f in
      let m' =
        run_induction dec true (λ c'. version ≤ c'.generation) (change_given_out version true) refl
          estimate between d m in
      let dead = invalidate-IsDead estimate version call (run dec estimate between d) i m' in
      let dead' =
        run_induction dec true (IsDead version) (change-IsDead version true) refl estimate later _
          dead in
      (
        dead_refresh estimate version value ttl' now' now_evict _ long dead',
        store-cancel_refresh dec k version _,
        unfold cancel_refresh in ground arith,
      )
