-- ===== src/ObjectCache/Changes.antt =====
-- The changes that the calls of the object cache are made of, as a step relation: every call is a
-- sequence of them, so what each change keeps, every call keeps.
use cachekit_py.Common.{
  ℕ, ◌≡◌, Bool, true, false, List, [], ◌∷◌, none, some, arith, inl, inr, Option-cases, Bool-cases,
  ltb, leb, ◌&&◌, not, is_some, ◌==◌,
}
use cachekit_py.OrderedDict
use cachekit_py.ObjectCache.State.{second, Entry, ObjectCache, Ttl, finite, non_finite, more_than}
use cachekit_py.ObjectCache.Evict.{remove, evict}
use cachekit_py.ObjectCache.Calls.{
  get, get_with_swr, complete_refresh, cancel_refresh, put, delete, clear, is_stale, rewrite_entry,
  store_new, size_for,
}
use cachekit_py.ObjectCache.Run.{
  Call, get_call, swr_call, complete_call, cancel_call, put_call, delete_call, clear_call, or_keep,
  or_keep_pair, step, run,
}
use cachekit_py.ObjectCache.Invariant.{evict_induction, evict-Lacks, remove_self}

module _ {K V : Type 0} (dec : Discrete K) where
  pub store-cancel_refresh :
      (k : K) (version : ℕ) (c : ObjectCache K V) → (cancel_refresh dec k version c).store ≡ c.store
  unfolding cancel_refresh
  store-cancel_refresh k version c = ground arith

-- `grow` says whether a change may store a value; without it the changes only take away.
module _ {K V : Type 0} (dec : Discrete K) (grow : Bool) where
  pub data Change : ObjectCache K V → ObjectCache K V → Type 0 where
    counted :
        (hits misses : ℕ) (c : ObjectCache K V)
        → Change c (record c { hits = hits; misses = misses })
    removed : (k : K) (c : ObjectCache K V) → Change c (remove dec k c)
    touched :
        (k : K) (c : ObjectCache K V)
        → Change c (record c { store = OrderedDict.move_to_end dec k c.store })
    flagged :
        (k : K) (x : Entry V) (c : ObjectCache K V)
        → OrderedDict.get dec k c.store ≡ some x
        → OrderedDict.get dec k c.refreshing ≡ none
        → Change c (record c { refreshing = OrderedDict.set dec k x.generation c.refreshing })
    released :
        (k : K) (g : ℕ) (c : ObjectCache K V)
        → OrderedDict.get dec k c.refreshing ≡ some g
        → Change c (record c { refreshing = OrderedDict.pop dec k c.refreshing })
    stored :
        (k : K) (v : V) (size ttl now : ℕ) (c : ObjectCache K V)
        → grow ≡ true
        → OrderedDict.get dec k c.store ≡ none
        → Change c (store_new dec k v size ttl now c)
    rewritten :
        (k : K) (v : V) (size ttl now : ℕ) (x : Entry V) (c : ObjectCache K V)
        → grow ≡ true
        → OrderedDict.get dec k c.store ≡ some x
        → Change c (rewrite_entry dec k v size ttl now x c)
    cleared : (c : ObjectCache K V) → Change c (clear dec c)

  pub data Changes (c : ObjectCache K V) : ObjectCache K V → Type 0 where
    here : Changes c c
    next : {d e : ObjectCache K V} → Changes c d → Change d e → Changes c e

  pub Changes-get : (k : K) (now : ℕ) (c : ObjectCache K V) → Changes c (get dec k now c).0
  unfolding get
  Changes-get k now c = elim (Option-cases (OrderedDict.get dec k c.store)) [
    | inl e ↦ rw (e, get) (next here (counted _ _ c))
    | inr (x, e) ↦ elim (Bool-cases (leb x.expires_at now)) [
      | inl old ↦ rw (e, get, old) (next (next here (removed k c)) (counted _ _ _))
      | inr new ↦ rw (e, get, new) (next (next here (touched k c)) (counted _ _ _))
    ]
  ]

  unmarked :
      (k : K) (stale : Bool) (c : ObjectCache K V)
      → (stale && not (is_some (OrderedDict.get dec k c.refreshing))) ≡ true
      → OrderedDict.get dec k c.refreshing ≡ none
  unmarked k stale c h = ground arith

  pub Changes-swr :
      (k : K) (ttl now jitter : ℕ) (c : ObjectCache K V)
      → Changes c (get_with_swr dec k ttl now jitter c).0
  unfolding get_with_swr
  Changes-swr k ttl now jitter c = elim (Option-cases (OrderedDict.get dec k c.store)) [
    | inl e ↦ rw (e, get_with_swr) (next here (counted _ _ c))
    | inr (x, e) ↦
        let due =
          is_stale ttl c.swr_threshold_ratio jitter now x
          && not (is_some (OrderedDict.get dec k c.refreshing)) in
        elim (Bool-cases (leb x.expires_at now)) [
          | inl old ↦ rw (e, get_with_swr, old) (next (next here (removed k c)) (counted _ _ _))
          | inr new ↦ elim (Bool-cases due) [
            | inl d ↦
                rw (e, get_with_swr, new, d)
                  (next (next (next here (flagged k x c e (unmarked k _ c d))) (touched k _))
                    (counted _ _ _))
            | inr d ↦ rw (e, get_with_swr, new, d) (next (next here (touched k c)) (counted _ _ _))
          ]
        ]
  ]

  pub Changes-cancel :
      (k : K) (version : ℕ) (c : ObjectCache K V) → Changes c (cancel_refresh dec k version c)
  unfolding cancel_refresh
  Changes-cancel k version c = elim (Option-cases (OrderedDict.get dec k c.refreshing)) [
    | inl e ↦ rw (e, cancel_refresh) here
    | inr (g, e) ↦ elim (Bool-cases (g == version)) [
      | inl own ↦ rw (e, cancel_refresh, own) (next here (released k g c e))
      | inr other ↦ rw (e, cancel_refresh, other) here
    ]
  ]

  pub Changes-delete : (k : K) (c : ObjectCache K V) → Changes c (delete dec k c).0
  unfolding delete
  Changes-delete k c = elim (Option-cases (OrderedDict.get dec k c.store)) [
    | inl e ↦ rw (e, delete) here
    | inr (x, e) ↦ rw (e, delete) (next here (removed k c))
  ]

  pub Changes-evict :
      (now extra : ℕ) (need : Bool) (b c : ObjectCache K V)
      → Changes b c
      → Changes b (evict dec now extra need c)
  Changes-evict now extra need b c =
      evict_induction dec (Changes b) (λ k d h. next h (removed k d)) now extra need c

  pub Changes-put :
      grow ≡ true
      → (estimate : V → ℕ) (k : K) (v : V) (ttl : Ttl) (now now_evict : ℕ) (c : ObjectCache K V)
      → Changes c (or_keep c (put dec estimate k v ttl now now_evict c))
  unfolding put
  Changes-put g estimate k v non_finite now now_evict c = here
  Changes-put g estimate k v (finite ttl) now now_evict c = elim (Bool-cases (ltb ttl second)) [
    | inl low ↦ rw low here
    | inr high ↦ elim (Bool-cases (more_than (size_for estimate v c) c.max_size_bytes)) [
      | inl big ↦ rw (high, big) (next here (removed k c))
      | inr small ↦
          let size = size_for estimate v c in
          rw (high, small)
            (next (Changes-evict now_evict size true c (remove dec k c) (next here (removed k c))) (
              stored k v size ttl now _ g
                (evict-Lacks dec k now_evict size true (remove dec k c) (remove_self dec k c))))
    ]
  ]

  pub Changes-complete :
      grow ≡ true
      → (estimate : V → ℕ) (k : K) (version : ℕ) (v : V) (ttl : Ttl) (now now_evict : ℕ)
        (c : ObjectCache K V)
      → Changes c (or_keep_pair c (complete_refresh dec estimate k version v ttl now now_evict c))
  unfolding complete_refresh
  Changes-complete g estimate k version v non_finite now now_evict c = here
  Changes-complete g estimate k version v (finite ttl) now now_evict c =
      let d = cancel_refresh dec k version c in
      let size = size_for estimate v c in
      let first : Changes c d = Changes-cancel k version c in
      elim (Bool-cases (ltb ttl second)) [
        | inl low ↦ rw low here
        | inr high ↦ elim (Option-cases (OrderedDict.get dec k d.store)) [
          | inl e ↦ rw (high, e, complete_refresh) first
          | inr (x, e) ↦ elim (Bool-cases (x.generation == version)) [
            | inr other ↦ rw (high, e, complete_refresh, other) first
            | inl own ↦ elim (Bool-cases (more_than size d.max_size_bytes)) [
              | inl big ↦ rw (high, e, complete_refresh, own, big) (next first (removed k d))
              | inr small ↦
                  rw (high, e, complete_refresh, own, small)
                    (Changes-evict now_evict 0 false c _
                      (next first (rewritten k v size ttl now x d g e)))
            ]
          ]
        ]
      ]

  pub Changes-step :
      grow ≡ true
      → (estimate : V → ℕ) (call : Call K V) (c : ObjectCache K V)
      → Changes c (step dec estimate call c)
  unfolding step
  Changes-step g estimate (get_call k now) c = Changes-get k now c
  Changes-step g estimate (swr_call k ttl now jitter) c = Changes-swr k ttl now jitter c
  Changes-step g estimate (complete_call k version v ttl now now_evict) c =
      Changes-complete g estimate k version v ttl now now_evict c
  Changes-step g estimate (cancel_call k version) c = Changes-cancel k version c
  Changes-step g estimate (put_call k v ttl now now_evict) c =
      Changes-put g estimate k v ttl now now_evict c
  Changes-step g estimate (delete_call k) c = Changes-delete k c
  Changes-step g estimate clear_call c = next here (cleared c)

  -- what every change keeps, every sequence of calls keeps
  module _ (P : ObjectCache K V → Type 0)
      (keep : (c d : ObjectCache K V) → Change c d → P c → P d) where
    pub Changes_induction : {c d : ObjectCache K V} → Changes c d → P c → P d
    Changes_induction here h = h
    Changes_induction (next {d} {e} r s) h = keep d e s (Changes_induction r h)

    pub run_induction :
        grow ≡ true
        → (estimate : V → ℕ) (calls : List (Call K V)) (c : ObjectCache K V) → P c
        → P (run dec estimate calls c)
    unfolding run
    run_induction g estimate [] c h = h
    run_induction g estimate (call ∷ calls) c h =
        run_induction g estimate calls (step dec estimate call c)
          (Changes_induction (Changes-step g estimate call c) h)
