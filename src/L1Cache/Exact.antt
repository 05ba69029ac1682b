-- ===== src/L1Cache/Exact.antt =====
-- The byte count of the L1 cache, and the calls that keep it exact.
use cachekit_py.Common.{
  ℕ, ◌≡◌, ap, ◌∙◌, refl, List, [], ◌∷◌, inl, inr, Option-cases, Bool-cases, sym,
}
use cachekit_py.Common.Int.{ℤ, pos, int_laws}
use cachekit_py.OrderedDict
use cachekit_py.OrderedDict.{OrderedDict, total}
use cachekit_py.OrderedDict.Laws.{
  IsDistinct, pop-IsDistinct, total-pop, move_to_end-IsDistinct, total-move_to_end,
}
use cachekit_py.L1Cache.State.{CacheEntry, L1Cache, is_expired, init, remove_entry}
use cachekit_py.L1Cache.Calls.{get, clear, expired_keys, remove_expired, cleanup_expired}

abbrev pub size_of : CacheEntry → ℕ
size_of e = e.size_bytes

module _ {K : Type 0} (dec : Discrete K) where
  -- no key twice, and the byte count is the sum of the sizes
  pub record IsExact (c : L1Cache K) : Type 0 where
    pub distinct : IsDistinct dec c.cache
    pub counted : c.current_memory_bytes ≡ pos (total size_of c.cache)

  pub init-IsExact : (mb : ℕ) (buffer : ℤ) → IsExact (init mb buffer)
  unfolding init total
  init-IsExact mb buffer = record { distinct = tt; counted = refl }

  pub remove-IsExact : (k : K) (c : L1Cache K) → IsExact c → IsExact (remove_entry dec k c)
  unfolding remove_entry
  remove-IsExact k c h = elim (Option-cases (OrderedDict.get dec k c.cache)) [
    | inl e ↦ rw (e, remove_entry) h
    | inr (x, e) ↦
        rw (e, remove_entry)
          (record {
            distinct = pop-IsDistinct dec k c.cache h.distinct;
            counted =
                rw h.counted (omega (int_laws, total-pop dec size_of k x c.cache e h.distinct));
          })
  ]

  pub touch-IsExact :
      (k : K) (c : L1Cache K) (hits : ℕ)
      → IsExact c
      → IsExact (record c { cache = OrderedDict.move_to_end dec k c.cache; hits = hits })
  touch-IsExact k c hits h = record {
    distinct = move_to_end-IsDistinct dec k c.cache h.distinct;
    counted = h.counted ∙ ap pos (sym (total-move_to_end dec size_of k c.cache h.distinct));
  }

  pub get-IsExact : (k : K) (now : ℤ) (c : L1Cache K) → IsExact c → IsExact (get dec k now c).0
  unfolding get
  get-IsExact k now c h = elim (Option-cases (OrderedDict.get dec k c.cache)) [
    | inl e ↦ rw (e, get) (record { distinct = h.distinct; counted = h.counted })
    | inr (x, e) ↦ elim (Bool-cases (is_expired now x)) [
      | inl old ↦
          let r = remove-IsExact k c h in
          rw (e, get, old) (record { distinct = r.distinct; counted = r.counted })
      | inr new ↦ rw (e, get, new) (touch-IsExact k c _ h)
    ]
  ]

  remove_expired-IsExact :
      (keys : List K) (c : L1Cache K) → IsExact c → IsExact (remove_expired dec keys c)
  unfolding remove_expired
  remove_expired-IsExact [] c h = h
  remove_expired-IsExact (k ∷ keys) c h =
      let r = remove-IsExact k c h in
      remove_expired-IsExact keys _ (record { distinct = r.distinct; counted = r.counted })

  pub cleanup-IsExact :
      (now : ℤ) (c : L1Cache K) → IsExact c → IsExact (cleanup_expired dec now c).0
  unfolding cleanup_expired
  cleanup-IsExact now c h = remove_expired-IsExact (expired_keys dec now c.cache) c h

  pub clear-IsExact : (c : L1Cache K) → IsExact (clear dec c)
  unfolding clear total
  clear-IsExact c = record { distinct = tt; counted = refl }
