-- ===== src/ObjectCache/Tests.antt =====
-- The object cache at concrete inputs, and its theorems at inputs where their hypotheses hold.
use cachekit_py.Common.{
  ℕ, ◌+◌, ◌<◌, ◌≡◌, ◌≢◌, ◌↔◌, ◌⊎◌, refl, true, false, List, [], ◌∷◌, none, some, ite, arith, length,
  if◌then◌else◌, is_some, ℕ_discrete, ◌++◌,
}
use cachekit_py.OrderedDict
use cachekit_py.OrderedDict.{total}
use cachekit_py.ObjectCache.State.{bad_ttl, Entry, ObjectCache, ok, raise, finite, init, SwrRead}
use cachekit_py.ObjectCache.Evict.{
  remove, remove_all, evict_round, evict_lru, sweep, evict, over_bounds, expired_keys,
}
use cachekit_py.ObjectCache.Calls.{
  get, get_with_swr, complete_refresh, cancel_refresh, put, delete, clear, is_stale, rewrite_entry,
  store_new, size_for,
}
use cachekit_py.ObjectCache.Run.{
  Call, get_call, swr_call, complete_call, put_call, delete_call, step, run,
}
use cachekit_py.ObjectCache.Invariant.{IsCounted}
use cachekit_py.ObjectCache.Fits.{Within}
use cachekit_py.ObjectCache.Reads.{get_exact, put_reads}
use cachekit_py.ObjectCache.Limits.{run-Within_limits}
use cachekit_py.ObjectCache.Counted.{run-IsCounted}
use cachekit_py.ObjectCache.Refresh.{late_refresh_discarded, by_delete}

-- two entries, a hundred bytes; a value is its own size
abbrev empty : ObjectCache ℕ ℕ
empty = record {
  max_entries = some 2;
  max_size_bytes = some 100;
  swr_threshold_ratio = 500;
  store = [];
  hits = 0;
  misses = 0;
  current_size_bytes = 0;
  refreshing = [];
  generation = 0;
}

empty_lem : init (some 2) (some 100) 500 ≡ ok empty
unfolding init
empty_lem = refl

abbrev own_size : ℕ → ℕ
own_size n = n

program : Unit {0}
unfolding init OrderedDict.get OrderedDict.pop OrderedDict.set OrderedDict.move_to_end remove
    over_bounds expired_keys remove_all evict_round evict_lru sweep evict get is_stale get_with_swr
    cancel_refresh delete clear size_for rewrite_entry complete_refresh store_new put step run
    ℕ_discrete total
program = tt

abbrev filled : List (Call ℕ ℕ)
filled =
    put_call 1 60 (finite 60000) 0 0
    ∷ put_call 2 30 (finite 60000) 5 5
    ∷ get_call 1 10
    ∷ put_call 3 40 (finite 60000) 20 20
    ∷ []

-- the third key pushes out the second, which is the least recently used
filled_lem : OrderedDict.get ℕ_discrete 2 (run ℕ_discrete own_size filled empty).store ≡ none
unfolding program
filled_lem = refl

put_rejects : put ℕ_discrete own_size 1 60 (finite 999) 0 0 empty ≡ raise bad_ttl
unfolding program
put_rejects = refl

-- a refresh that is started and finished in time
refresh_in_time :
    (get ℕ_discrete 1 90000 (
      run ℕ_discrete own_size
        (filled
          ++ swr_call 1 60000 40000 1000 ∷ complete_call 1 1 50 (finite 60000) 41000 41000 ∷ [])
        empty)).1
    ≡ some 50
unfolding program
refresh_in_time = refl

run-Within_limits_example :
    Within (length (run ℕ_discrete own_size filled empty).store) (some 2)
    × Within (run ℕ_discrete own_size filled empty).current_size_bytes (some 100)
run-Within_limits_example =
    run-Within_limits ℕ_discrete own_size (some 2) (some 100) 500 empty_lem filled

run-IsCounted_example : IsCounted ℕ_discrete (run ℕ_discrete own_size filled empty)
run-IsCounted_example = run-IsCounted ℕ_discrete own_size (some 2) (some 100) 500 empty_lem filled

abbrev full : ObjectCache ℕ ℕ
full = run ℕ_discrete own_size filled empty

get_exact_example :
    ((v : ℕ)
      → ((get ℕ_discrete 1 30 full).1 ≡ some v) ↔ (
          (e : Entry ℕ) × (OrderedDict.get ℕ_discrete 1 full.store ≡ some e)
          × (e.value ≡ v)
          × (30 < e.expires_at)))
    × ((get ℕ_discrete 1 30 full).0.hits
        ≡ full.hits + (if is_some (get ℕ_discrete 1 30 full).1 then 1 else 0))
    × ((j : ℕ)
        → OrderedDict.get ℕ_discrete j (get ℕ_discrete 1 30 full).0.store ≡ (
            if is_some (get ℕ_discrete 1 30 full).1
            then OrderedDict.get ℕ_discrete j full.store
            else ite (ℕ_discrete 1 j) none (OrderedDict.get ℕ_discrete j full.store)))
get_exact_example = get_exact ℕ_discrete 1 30 full

put_reads_example :
    (d : ObjectCache ℕ ℕ) × (put ℕ_discrete own_size 4 10 (finite 1000) 30 30 full ≡ ok d)
    × ((t : ℕ) → t < 30 + 1000 → (get ℕ_discrete 4 t d).1 ≡ some 10)
    × ((j : ℕ)
        → j ≢ 4
        → ((OrderedDict.get ℕ_discrete j d.store ≡ OrderedDict.get ℕ_discrete j full.store)
            ⊎ (OrderedDict.get ℕ_discrete j d.store ≡ none))
          × (over_bounds ℕ_discrete (size_for own_size 10 full) true (remove ℕ_discrete 4 full)
                ≡ false
              → OrderedDict.get ℕ_discrete j d.store ≡ OrderedDict.get ℕ_discrete j full.store))
unfolding program
put_reads_example = put_reads ℕ_discrete own_size 4 10 1000 30 30 full (omega arith) refl

-- the read of key 1 at 40 s, as the refresh starts
abbrev started : ObjectCache ℕ ℕ × SwrRead ℕ
started = get_with_swr ℕ_discrete 1 60000 40000 1000 full

started_found : started.1.found ≡ some 60
unfolding program
started_found = refl

abbrev deleted : ObjectCache ℕ ℕ
deleted =
    run ℕ_discrete own_size (put_call 1 7 (finite 60000) 42000 42000 ∷ [])
      (step ℕ_discrete own_size (delete_call 1) (run ℕ_discrete own_size [] started.0))

late_refresh_discarded_example :
    (complete_refresh ℕ_discrete own_size 1 started.1.version 50 (finite 60000) 43000 43000 deleted
      ≡ ok (cancel_refresh ℕ_discrete 1 started.1.version deleted, false))
    × ((cancel_refresh ℕ_discrete 1 started.1.version deleted).store ≡ deleted.store)
    × ((cancel_refresh ℕ_discrete 1 started.1.version deleted).current_size_bytes
        ≡ deleted.current_size_bytes)
late_refresh_discarded_example =
    late_refresh_discarded ℕ_discrete 1 own_size (some 2) (some 100) 500 filled 60000 40000 1000 []
      (delete_call 1) (put_call 1 7 (finite 60000) 42000 42000 ∷ []) 50 60000 43000 43000 empty_lem
      started_found by_delete (omega arith)
