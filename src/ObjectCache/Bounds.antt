-- ===== src/ObjectCache/Bounds.antt =====
-- The object cache never holds more than its bounds allow.
use cachekit_py.Common.{
  ℕ, ◌+◌, ◌≤◌, ◌≡◌, ◌∙◌, refl, true, false, none, some, arith, inl, inr, Option-cases, length,
  length-append,
}
use cachekit_py.OrderedDict
use cachekit_py.OrderedDict.{total}
use cachekit_py.OrderedDict.Laws.{
  IsDistinct, set_absent, set-IsDistinct, total-set, total-move_to_end, length-total,
}
use cachekit_py.ObjectCache.State.{Entry, ObjectCache, more_than}
use cachekit_py.ObjectCache.Evict.{remove, evict, over_bounds}
use cachekit_py.ObjectCache.Calls.{clear, rewrite_entry, store_new}
use cachekit_py.ObjectCache.Invariant.{
  IsCounted, remove-IsCounted, evict-SameSettings, remove-SameSettings, remove_self, evict-Lacks,
  evict_induction,
}
use cachekit_py.ObjectCache.Changes.{
  Change, counted, removed, touched, flagged, released, stored, rewritten, cleared,
}
use cachekit_py.ObjectCache.Counted.{change-IsCounted, rewrite-IsCounted}
use cachekit_py.ObjectCache.Fits.{Within, IsPositive, length-pop, length-remove, evict_fits}

module _ {K V : Type 0} (dec : Discrete K) where
  pub record IsBounded (c : ObjectCache K V) : Type 0 where
    pub entries_positive : IsPositive c.max_entries
    pub bytes_positive : IsPositive c.max_size_bytes
    pub entries_bounded : Within (length c.store) c.max_entries
    pub bytes_bounded : Within c.current_size_bytes c.max_size_bytes

  length-move_to_end :
      (k : K) (d : OrderedDict.OrderedDict K (Entry V))
      → IsDistinct dec d
      → length (OrderedDict.move_to_end dec k d) ≡ length d
  length-move_to_end k d h = omega (
    arith,
    total-move_to_end dec (λ _. 1) k d h,
    length-total d,
    length-total (OrderedDict.move_to_end dec k d),
  )

  length-set :
      (k : K) (x y : Entry V) (d : OrderedDict.OrderedDict K (Entry V))
      → OrderedDict.get dec k d ≡ some x
      → length (OrderedDict.set dec k y d) ≡ length d
  length-set k x y d e = omega (
    arith,
    total-set dec (λ _. 1) k x y d e,
    length-total d,
    length-total (OrderedDict.set dec k y d),
  )

  pub remove-IsBounded :
      (k : K) (c : ObjectCache K V) → IsCounted dec c → IsBounded c → IsBounded (remove dec k c)
  unfolding remove
  remove-IsBounded k c h b = elim (Option-cases (OrderedDict.get dec k c.store)) [
    | inl e ↦ rw (e, remove) b
    | inr (x, e) ↦ rw (e, remove) (ground (arith, length-pop dec k x c.store e h.distinct))
  ]

  -- the changes that store nothing
  change-IsBounded :
      (c d : ObjectCache K V) → Change dec false c d → IsCounted dec c → IsBounded c → IsBounded d
  unfolding clear
  change-IsBounded c d (counted hits misses _) h b = ground arith
  change-IsBounded c d (removed j _) h b = remove-IsBounded j c h b
  change-IsBounded c d (touched j _) h b = record {
    entries_positive = b.entries_positive;
    bytes_positive = b.bytes_positive;
    entries_bounded = rw (length-move_to_end j c.store h.distinct) b.entries_bounded;
    bytes_bounded = b.bytes_bounded;
  }
  change-IsBounded c d (flagged j x _ e n) h b = ground arith
  change-IsBounded c d (released j g _ e) h b = ground arith
  change-IsBounded c d (stored j v size ttl now _ g e) h b = absurd (cc)
  change-IsBounded c d (rewritten j v size ttl now x _ g e) h b = absurd (cc)
  change-IsBounded c d (cleared _) h b = ground arith

  -- both invariants, as the changes need them
  abbrev pub IsSound : ObjectCache K V → Type 0
  IsSound c = IsCounted dec c × IsBounded c

  pub keep-IsSound : (c d : ObjectCache K V) → Change dec false c d → IsSound c → IsSound d
  keep-IsSound c d s (h, b) = (change-IsCounted dec false c d s h, change-IsBounded c d s h b)

  -- removals never lengthen the store
  abbrev IsShort : ℕ → ObjectCache K V → Type 0
  IsShort n c = IsCounted dec c × (length c.store ≤ n)

  remove-IsShort : (n : ℕ) (k : K) (c : ObjectCache K V) → IsShort n c → IsShort n (remove dec k c)
  remove-IsShort n k c (h, l) = elim (Option-cases (OrderedDict.get dec k c.store)) [
    | inl e ↦ (remove-IsCounted dec k c h, rw (length-remove_absent k c e) l)
    | inr (x, e) ↦ (remove-IsCounted dec k c h, omega (arith, length-remove dec k x c e h.distinct))
  ]
    where
      length-remove_absent :
          (k : K) (c : ObjectCache K V)
          → OrderedDict.get dec k c.store ≡ none
          → length (remove dec k c).store ≡ length c.store
      length-remove_absent k c e = unfold remove in rw (e, remove)

  pub put_small-IsBounded :
      (k : K) (v : V) (size ttl now now_evict : ℕ) (c : ObjectCache K V)
      → more_than size c.max_size_bytes ≡ false
      → IsSound c
      → IsBounded (store_new dec k v size ttl now (evict dec now_evict size true (remove dec k c)))
  unfolding store_new over_bounds
  put_small-IsBounded k v size ttl now now_evict c small (h, b) =
      let start = remove dec k c in
      let start_counted = remove-IsCounted dec k c h in
      let start_bounded = remove-IsBounded k c h b in
      let d = evict dec now_evict size true start in
      let same =
        remove-SameSettings dec c k c
          (record { same_entries = refl; same_bytes = refl; same_generation = refl }) in
      let kept = evict-SameSettings dec now_evict size true start in
      let fits : Within size start.max_size_bytes = rw same.same_bytes (ground arith) in
      let room =
        evict_fits dec size true now_evict start start_counted start_bounded.entries_positive
          fits in
      let absent = evict-Lacks dec k now_evict size true start (remove_self dec k c) in
      record {
        entries_positive = rw kept.same_entries start_bounded.entries_positive;
        bytes_positive = rw kept.same_bytes start_bounded.bytes_positive;
        entries_bounded =
            rw (set_absent dec k _ d.store absent) (rw length-append (ground (arith, room)));
        bytes_bounded = ground (arith, room);
      }

  pub complete_small-IsBounded :
      (k : K) (v : V) (size ttl now now_evict : ℕ) (x : Entry V) (c : ObjectCache K V)
      → OrderedDict.get dec k c.store ≡ some x
      → IsSound c
      → IsBounded (evict dec now_evict 0 false (rewrite_entry dec k v size ttl now x c))
  unfolding over_bounds
  complete_small-IsBounded k v size ttl now now_evict x c e (h, b) =
      let r = rewrite_entry dec k v size ttl now x c in
      let counted = rewrite-IsCounted dec k v size ttl now x c e h in
      let kept = evict-SameSettings dec now_evict 0 false r in
      let (same_entries, same_bytes, same_length) = rewrite_settings k v size ttl now x c e h in
      let entries_positive : IsPositive r.max_entries = rw same_entries b.entries_positive in
      let bytes_positive : IsPositive r.max_size_bytes = rw same_bytes b.bytes_positive in
      let fits : Within 0 r.max_size_bytes = ground arith in
      let room = evict_fits dec 0 false now_evict r counted entries_positive fits in
      let short =
        evict_induction dec (IsShort (length c.store)) (remove-IsShort (length c.store)) now_evict 0
          false r (counted, omega (arith, same_length)) in
      record {
        entries_positive = rw kept.same_entries entries_positive;
        bytes_positive = rw kept.same_bytes bytes_positive;
        entries_bounded =
            rw (kept.same_entries) (rw same_entries (ground (arith, short.1, b.entries_bounded)));
        bytes_bounded = ground (arith, room);
      }
    where
      rewrite_settings :
          (k : K) (v : V) (size ttl now : ℕ) (x : Entry V) (c : ObjectCache K V)
          → OrderedDict.get dec k c.store ≡ some x
          → IsCounted dec c
          → let r = rewrite_entry dec k v size ttl now x c in
            (r.max_entries ≡ c.max_entries)
            × (r.max_size_bytes ≡ c.max_size_bytes)
            × (length r.store ≡ length c.store)
      rewrite_settings k v size ttl now x c e h =
          let y = record x {
            value = v;
            cached_at = now;
            expires_at = now + ttl;
            size_bytes = size;
          } in
          unfold rewrite_entry in
          (
            refl,
            refl,
            length-move_to_end k (OrderedDict.set dec k y c.store)
                  (set-IsDistinct dec k y c.store h.distinct)
                ∙ length-set k x y c.store e,
          )
