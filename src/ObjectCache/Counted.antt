-- ===== src/ObjectCache/Counted.antt =====
-- Every call of the object cache keeps the invariant of Invariant.antt.
use cachekit_py.Common.{ℕ, ◌+◌, ◌≡◌, refl, Bool, true, List, [], Option, none, some, arith}
use cachekit_py.OrderedDict
use cachekit_py.OrderedDict.{total}
use cachekit_py.OrderedDict.Laws.{
  get-pop, get-set, set_absent, total-append, set-IsDistinct, total-set, get-move_to_end,
  move_to_end-IsDistinct, total-move_to_end,
}
use cachekit_py.ObjectCache.State.{Entry, ObjectCache, ok, init}
use cachekit_py.ObjectCache.Calls.{clear, rewrite_entry, store_new}
use cachekit_py.ObjectCache.Run.{Call, run}
use cachekit_py.ObjectCache.Invariant.{size_of, IsCounted, remove-IsCounted}
use cachekit_py.ObjectCache.Changes.{
  Change, counted, removed, touched, flagged, released, stored, rewritten, cleared, run_induction,
}

module _ {K V : Type 0} (dec : Discrete K) where
  touch-IsCounted :
      (k : K) (c : ObjectCache K V)
      → IsCounted dec c
      → IsCounted dec (record c { store = OrderedDict.move_to_end dec k c.store })
  touch-IsCounted k c h = record {
    distinct = move_to_end-IsDistinct dec k c.store h.distinct;
    counted = omega (arith, total-move_to_end dec size_of k c.store h.distinct, h.counted);
    marked = λ j g. rw get-move_to_end (h.marked j g);
    stamped = λ j. rw get-move_to_end (h.stamped j);
  }

  flag-IsCounted :
      (k : K) (x : Entry V) (c : ObjectCache K V)
      → OrderedDict.get dec k c.store ≡ some x
      → IsCounted dec c
      → IsCounted dec (record c { refreshing = OrderedDict.set dec k x.generation c.refreshing })
  flag-IsCounted k x c e h = record {
    distinct = h.distinct;
    counted = h.counted;
    marked = λ j g. rw get-set (ground (arith, h.marked j g));
    stamped = h.stamped;
  }

  release-IsCounted :
      (k : K) (c : ObjectCache K V)
      → IsCounted dec c
      → IsCounted dec (record c { refreshing = OrderedDict.pop dec k c.refreshing })
  release-IsCounted k c h = record {
    distinct = h.distinct;
    counted = h.counted;
    marked = λ j g. rw get-pop (ground (arith, h.marked j g));
    stamped = h.stamped;
  }

  store-IsCounted :
      (k : K) (v : V) (size ttl now : ℕ) (c : ObjectCache K V)
      → OrderedDict.get dec k c.store ≡ none
      → IsCounted dec c
      → IsCounted dec (store_new dec k v size ttl now c)
  unfolding store_new
  store-IsCounted k v size ttl now c e h = record {
    distinct = set-IsDistinct dec k _ c.store h.distinct;
    counted = rw (set_absent dec k _ c.store e) (rw total-append (omega (arith, h.counted)));
    marked = λ j g. rw get-set (ground (arith, h.marked j g));
    stamped = λ j. rw get-set (ground (arith, h.stamped j));
  }

  pub rewrite-IsCounted :
      (k : K) (v : V) (size ttl now : ℕ) (x : Entry V) (c : ObjectCache K V)
      → OrderedDict.get dec k c.store ≡ some x
      → IsCounted dec c
      → IsCounted dec (rewrite_entry dec k v size ttl now x c)
  unfolding rewrite_entry
  rewrite-IsCounted k v size ttl now x c e h =
      let y = record x { value = v; cached_at = now; expires_at = now + ttl; size_bytes = size } in
      record {
        distinct = move_to_end-IsDistinct dec k _ (set-IsDistinct dec k y c.store h.distinct);
        counted = omega (
          arith,
          total-move_to_end dec size_of k (OrderedDict.set dec k y c.store)
              (set-IsDistinct dec k y c.store h.distinct),
          total-set dec size_of k x y c.store e,
          h.counted,
        );
        marked = λ j g. rw (get-move_to_end, get-set) (ground (arith, h.marked j g));
        stamped = λ j. rw (get-move_to_end, get-set) (ground (arith, h.stamped j, h.stamped k));
      }

  pub change-IsCounted :
      (grow : Bool) (c d : ObjectCache K V)
      → Change dec grow c d
      → IsCounted dec c
      → IsCounted dec d
  unfolding clear
  change-IsCounted grow c d (counted hits misses _) h = record {
    distinct = h.distinct;
    counted = h.counted;
    marked = h.marked;
    stamped = h.stamped;
  }
  change-IsCounted grow c d (removed k _) h = remove-IsCounted dec k c h
  change-IsCounted grow c d (touched k _) h = touch-IsCounted k c h
  change-IsCounted grow c d (flagged k x _ e n) h = flag-IsCounted k x c e h
  change-IsCounted grow c d (released k g _ e) h = release-IsCounted k c h
  change-IsCounted grow c d (stored k v size ttl now _ g e) h =
      store-IsCounted k v size ttl now c e h
  change-IsCounted grow c d (rewritten k v size ttl now x _ g e) h =
      rewrite-IsCounted k v size ttl now x c e h
  change-IsCounted grow c d (cleared _) h = record {
    distinct = tt;
    counted = unfold total in refl;
    marked = λ j g. unfold OrderedDict.get in (λ p. cc p);
    stamped = λ j. unfold OrderedDict.get in tt;
  }

  pub init-IsCounted :
      (entries bytes : Option ℕ) (ratio : ℕ) {c : ObjectCache K V}
      → init entries bytes ratio ≡ ok c
      → IsCounted dec c
  unfolding init OrderedDict.get total
  init-IsCounted entries bytes ratio {c} h =
      let empty : (c.store ≡ []) × (c.refreshing ≡ []) × (c.current_size_bytes ≡ 0) =
        ground arith in
      record {
        distinct = rw empty.0 tt;
        counted = rw (empty.0, empty.2);
        marked = λ j g. rw empty.1 (λ p. cc p);
        stamped = λ j. rw empty.0 tt;
      }

  -- From a new cache, whatever calls are made: no key is held twice, the byte count is exactly the sum
  -- of the sizes that were stored with the entries, a marker of a refresh in flight is always for the
  -- entry that is live under its key, and no entry has a generation that is still to be given out.
  pub run-IsCounted :
      (estimate : V → ℕ) (entries bytes : Option ℕ) (ratio : ℕ) {c : ObjectCache K V}
      → init entries bytes ratio ≡ ok c
      → (calls : List (Call K V)) → IsCounted dec (run dec estimate calls c)
  run-IsCounted estimate entries bytes ratio {c} h calls =
      run_induction dec true (IsCounted dec) (change-IsCounted true) refl estimate calls c
        (init-IsCounted entries bytes ratio h)
