-- ===== src/L1Cache/Tests.antt =====
-- The L1 cache at concrete inputs, and its theorems at inputs where their hypotheses hold.
use cachekit_py.Common.{
  ℕ, ◌≡◌, ◌⊎◌, refl, false, List, [], ◌∷◌, none, some, arith, length, ℕ_discrete,
}
use cachekit_py.Common.Int.{ℤ, pos, ◌+ℤ◌, ◌-ℤ◌, ◌<ℤ◌, leb_ℤ}
use cachekit_py.OrderedDict
use cachekit_py.OrderedDict.{OrderedDict, total}
use cachekit_py.OrderedDict.Laws.{IsDistinct}
use cachekit_py.L1Cache.State.{
  CacheEntry, L1Cache, is_expired, non_finite, expiry_of, init, remove_entry, evict_for_space,
  evict_scan, pop_all,
}
use cachekit_py.L1Cache.Calls.{
  bytes, other_buffer, ok, type_error, get, store_entry, put_bytes, put, invalidate, clear,
  expired_keys, remove_expired, cleanup_expired,
}
use cachekit_py.L1Cache.Exact.{size_of, IsExact}
use cachekit_py.L1Cache.Drift.{freed, put_replaces, replace_lru_drifts}
use cachekit_py.L1Cache.Run.{
  Call, get_call, put_call, invalidate_call, clear_call, cleanup_call, or_keep, step, run, IsSound,
  run-IsSound,
}
use cachekit_py.L1Cache.Manager.{new_manager, get_cache}
use cachekit_py.L1Cache.Budget.{
  ManagerCall, get_cache_call, on_cache, cleanup_pass, clear_all_call, HasBudget, manager_run,
  first_budget_wins,
}
use cachekit_py.L1Cache.Reads.{put-get}

program : Unit {0}
unfolding init OrderedDict.get OrderedDict.pop OrderedDict.set OrderedDict.move_to_end total
    remove_entry evict_for_space evict_scan pop_all is_expired expiry_of get store_entry put_bytes
    put invalidate clear expired_keys remove_expired cleanup_expired step run ℕ_discrete ◌+ℤ◌ ◌-ℤ◌
program = tt

abbrev six : List ℕ
six = 1 ∷ 2 ∷ 3 ∷ 4 ∷ 5 ∷ 6 ∷ []

abbrev three : List ℕ
three = 7 ∷ 8 ∷ 9 ∷ []

abbrev entry : List ℕ → CacheEntry
entry v = record { value = v; expires_at = pos 300000; size_bytes = length v }

-- room for ten bytes, nine of them taken
abbrev nine : L1Cache ℕ
nine = record {
  max_memory_bytes = 10;
  ttl_buffer = pos 0;
  cache = (1, entry six) ∷ (2, entry three) ∷ [];
  current_memory_bytes = pos 9;
  hits = 0;
  misses = 0;
  evictions = 0;
  expired_evictions = 0;
}

nine-IsExact : IsExact ℕ_discrete nine
unfolding program
nine-IsExact = record { distinct = (refl, (refl, tt)); counted = refl }

abbrev eight : List ℕ
eight = 1 ∷ 2 ∷ 3 ∷ 4 ∷ 5 ∷ 6 ∷ 7 ∷ 8 ∷ []

-- replacing the least recently used entry: eleven bytes held, five counted, ten allowed
bound_broken :
    let d = or_keep nine (put ℕ_discrete 1 (bytes eight) (pos 0) none none nine) in
    (d.current_memory_bytes ≡ pos 5) × (total size_of d.cache ≡ 11) × (d.max_memory_bytes ≡ 10)
unfolding program
bound_broken = (refl, refl, refl)

replace_lru_drifts_example :
    (d : L1Cache ℕ) × (put ℕ_discrete 1 (bytes eight) (pos 0) none none nine ≡ ok d)
    × (d.current_memory_bytes +ℤ pos 6 ≡ pos (total size_of d.cache))
    × (d.current_memory_bytes <ℤ pos (total size_of d.cache))
unfolding program
replace_lru_drifts_example =
    replace_lru_drifts ℕ_discrete 1 (entry six) ((2, entry three) ∷ []) nine eight (pos 0)
      (pos 300000) none none nine-IsExact refl (omega arith) refl refl (omega arith) (omega arith)

put_replaces_three :
    let evicted = evict_for_space ℕ_discrete 2 (freed (entry three) nine) in
    (d : L1Cache ℕ) × (put ℕ_discrete 2 (bytes (5 ∷ 5 ∷ [])) (pos 0) none none nine ≡ ok d)
    × (((OrderedDict.get ℕ_discrete 2 evicted.cache ≡ some (entry three)) × IsExact ℕ_discrete d)
        ⊎ ((OrderedDict.get ℕ_discrete 2 evicted.cache ≡ none)
            × IsDistinct ℕ_discrete d.cache
            × (d.current_memory_bytes +ℤ pos 3 ≡ pos (total size_of d.cache))))
unfolding program
put_replaces_three =
    put_replaces ℕ_discrete 2 (entry three) nine (5 ∷ 5 ∷ []) (pos 0) (pos 300000) none none
      nine-IsExact refl refl refl (omega arith)

put-get_example :
    (d : L1Cache ℕ) × (put ℕ_discrete 3 (bytes three) (pos 0) none none nine ≡ ok d)
    × ((t : ℤ) → leb_ℤ (pos 300000) t ≡ false → (get ℕ_discrete 3 t d).1 ≡ some three)
    × ((j : ℕ) (t : ℤ) (v : List ℕ)
        → (get ℕ_discrete j t d).1 ≡ some v
        → (e : CacheEntry) × (OrderedDict.get ℕ_discrete j d.cache ≡ some e)
          × (e.value ≡ v)
          × (is_expired t e ≡ false))
unfolding program
put-get_example =
    put-get ℕ_discrete 3 three (pos 0) (pos 300000) none none nine refl refl (omega arith)

immortal_refused :
    or_keep nine (put ℕ_discrete 3 (bytes three) (pos 0) (some non_finite) none nine) ≡ nine
unfolding program
immortal_refused = refl

view_refused : put ℕ_discrete 3 other_buffer (pos 0) none none nine ≡ type_error
unfolding program
view_refused = refl

abbrev calls : List (Call ℕ)
calls =
    put_call 1 (bytes six) (pos 0) none none
    ∷ put_call 2 (bytes three) (pos 5) none none
    ∷ get_call 1 (pos 9)
    ∷ invalidate_call 1
    ∷ put_call 1 (bytes eight) (pos 20) none none
    ∷ cleanup_call (pos 299002)
    ∷ []

run-IsSound_example : IsSound ℕ_discrete (run ℕ_discrete calls (init 1 (pos 1000)))
unfolding program
run-IsSound_example =
    run-IsSound ℕ_discrete 1 (pos 1000) calls (refl, (refl, (tt, (tt, (refl, (tt, tt))))))

-- one megabyte asked for first, then four, and the cache cleared
abbrev later_calls : List (ManagerCall ℕ ℕ)
later_calls =
    get_cache_call (pos 0) 7 (some 4)
    ∷ on_cache 7 clear_call
    ∷ cleanup_pass (λ n. pos n)
    ∷ clear_all_call
    ∷ []

one_megabyte_stays : HasBudget ℕ_discrete ℕ_discrete 7 1048576 (
    manager_run ℕ_discrete ℕ_discrete later_calls
      (get_cache ℕ_discrete ℕ_discrete (pos 0) 7 (some 1) (new_manager 100)))
one_megabyte_stays =
    first_budget_wins ℕ_discrete ℕ_discrete (pos 0) 7 (some 1) later_calls (new_manager 100)
      (unfold new_manager OrderedDict.get in refl)
