-- ===== src/File/Tests.antt =====
-- The file backend at concrete directories, and its theorems at inputs where their hypotheses hold.
use cachekit_py.Common.{
  ℕ, ◌*◌, ◌/◌, true, [], ◌∷◌, ◌++◌, none, some, length, ◌≡◌, refl, arith, ℕ_discrete,
}
use cachekit_py.Common.Int.{pos, negsuc}
use cachekit_py.Errors.{backend_error, permanent, timeout}
use cachekit_py.OrderedDict
use cachekit_py.OrderedDict.{OrderedDict, total}
use cachekit_py.Handler.{Bytes}
use cachekit_py.Handler.Backend.{IsBackend, Reply, done, fails}
use cachekit_py.File.{
  eagain, eloop, File, Directory, FileConfig, safe_unlink, on_os_error, on_lock_error,
  classify_os_error,
}
use cachekit_py.File.Header.{expiry_from_ttl, build_header, read_header}
use cachekit_py.File.Reads.{with_file, get, exists, get_ttl, refresh_ttl, delete}
use cachekit_py.File.Writes.{
  WriteFaults, raises_error, calculate_cache_size, sort_by_mtime, evict_oldest, maybe_evict,
  over_capacity, write_entry, set,
}
use cachekit_py.File.Atomic.{IsKept, failed_set-IsKept}
use cachekit_py.File.Capacity.{InBounds}
use cachekit_py.File.Limits.{set-InBounds}
use cachekit_py.File.Doubles.{times, ulp_from, seven_tenths}
use cachekit_py.File.Lifetime.{no_faults, no_write_faults, refresh_ttl-get, expiry_instant}
use cachekit_py.File.Fits.{Moment, file_backend, HoldsPayload, file_backend-IsBackend}

program : Unit {0}
unfolding OrderedDict.get OrderedDict.set OrderedDict.pop total ℕ_discrete safe_unlink on_os_error
    on_lock_error classify_os_error expiry_from_ttl build_header read_header with_file get exists
    get_ttl refresh_ttl delete sort_by_mtime evict_oldest maybe_evict over_capacity write_entry set
    calculate_cache_size times ulp_from
program = tt

abbrev config : FileConfig
config = record { max_size_mb = 100; max_value_mb = 10; max_entry_count = 10 }

abbrev value : Bytes
value = 1 ∷ 2 ∷ 3 ∷ []

-- at second 50, with an expiry at second 60
abbrev directory : Directory ℕ
directory = record {
  files = (7, record { content = build_header 60 ++ value; mtime = 50000 }) ∷ [];
  temp_files = [];
}

abbrev empty : Directory ℕ
empty = record { files = []; temp_files = [] }

set_makes_the_file :
    (set ℕ_discrete config 50500 7 no_write_faults value (some (pos 10)) empty).0.files
    ≡ (7, record { content = build_header 60 ++ value; mtime = 50500 }) ∷ []
unfolding program
set_makes_the_file = refl

read_in_time : (get ℕ_discrete 60000 7 no_faults directory).1 ≡ done (some value)
unfolding program
read_in_time = refl

read_too_late : get ℕ_discrete 60001 7 no_faults directory ≡ (empty, done none)
unfolding program
read_too_late = refl

remaining : (get_ttl ℕ_discrete 50500 7 no_faults directory).1 ≡ done (some 9)
unfolding program
remaining = refl

symbolic_link :
    (get ℕ_discrete 50500 7 (record no_faults { on_open = some eloop }) directory).1 ≡ done none
unfolding program
symbolic_link = refl

negative_ttl :
    (set ℕ_discrete config 50500 7 no_write_faults value (some (negsuc 4)) empty).1
    ≡ fails (backend_error permanent)
unfolding program
negative_ttl = refl

abbrev file_of_age : ℕ → ℕ → ℕ × File
file_of_age path age = (path, record { content = build_header 0 ++ value; mtime = age })

-- ten entries are over nine: the oldest go, until seven are left
abbrev nine : Directory ℕ
nine = record {
  files =
      file_of_age 1 30
      ∷ file_of_age 2 10
      ∷ file_of_age 3 20
      ∷ file_of_age 4 40
      ∷ file_of_age 5 50
      ∷ file_of_age 6 60
      ∷ file_of_age 7 70
      ∷ file_of_age 8 80
      ∷ file_of_age 9 90
      ∷ [];
  temp_files = [];
}

abbrev after_tenth : Directory ℕ × Reply Unit
after_tenth = set ℕ_discrete config 100 10 no_write_faults value none nine

seven_left : length (after_tenth.0).files ≡ 7
unfolding program
seven_left = refl

the_oldest_are_gone :
    (OrderedDict.get ℕ_discrete 2 (after_tenth.0).files ≡ none)
    × (OrderedDict.get ℕ_discrete 3 (after_tenth.0).files ≡ none)
    × (OrderedDict.get ℕ_discrete 1 (after_tenth.0).files ≡ none)
unfolding program
the_oldest_are_gone = (refl, refl, refl)

set_succeeds : after_tenth.1 ≡ done tt
unfolding program
set_succeeds = refl

set-InBounds_example : InBounds ℕ_discrete config (after_tenth.0).files
unfolding program
set-InBounds_example =
    set-InBounds ℕ_discrete config 100 10 no_write_faults
      (record { size_limit = omega arith; count_limit = omega arith }) (λ p. refl) refl refl value
      none nine (refl, (refl, (refl, (refl, (refl, (refl, (refl, (refl, (refl, tt)))))))))
      set_succeeds

-- a listing that raises hides that the directory is full
no_eviction :
    length
      ((set ℕ_discrete config 100 10
          (record no_write_faults { size_listing = raises_error })
          value
          none
          nine).0
        ).files
    ≡ 10
unfolding program
no_eviction = refl

-- `int(170 * 0.7)` is 118
seven_tenths_of_170 : times seven_tenths 170 / 9007199254740992 ≡ 118
unfolding program
seven_tenths_of_170 = refl

abbrev locked : WriteFaults ℕ
locked = record no_write_faults { on_lock = some eagain }

-- a lock that is taken leaves a temporary file
lock_leaks : (set ℕ_discrete config 50500 7 locked value none empty).0.temp_files ≡ 50500 ∷ []
unfolding program
lock_leaks = refl

lock_is_a_timeout :
    (set ℕ_discrete config 50500 7 locked value none directory).1 ≡ fails (backend_error timeout)
unfolding program
lock_is_a_timeout = refl

failed_set-IsKept_example :
    IsKept ℕ_discrete config 50500 7 locked directory
      (set ℕ_discrete config 50500 7 locked value none directory).0
failed_set-IsKept_example =
    failed_set-IsKept ℕ_discrete config 50500 7 locked value none directory (backend_error timeout)
      lock_is_a_timeout

abbrev moments : ℕ → Moment ℕ
moments n = record { now = n * 1000; faults = no_faults; write_faults = no_write_faults }

file_backend-IsBackend_example :
    IsBackend
      (file_backend ℕ_discrete config (λ k. k) moments)
      (HoldsPayload ℕ_discrete config (λ k. k) moments)
file_backend-IsBackend_example =
    file_backend-IsBackend ℕ_discrete config (λ k. k) moments (λ n. refl) (λ j k e. e)

refresh_ttl-get_example :
    ((refresh_ttl ℕ_discrete 55000 7 no_faults 54999 (some (pos 20)) directory).1 ≡ done true)
    × ((get ℕ_discrete 70000 7 no_faults
          (refresh_ttl ℕ_discrete 55000 7 no_faults 54999 (some (pos 20)) directory).0).1
        ≡ done (some value))
unfolding program
refresh_ttl-get_example =
    refresh_ttl-get ℕ_discrete 7 54999 55000 70000 74 60 (some (pos 20))
      (record { content = build_header 60 ++ value; mtime = 50000 }) value directory refl refl refl
      refl (omega arith) refl

expiry_instant_example :
    (get ℕ_discrete 60000 7 no_faults directory ≡ (directory, done (some value)))
    × ((get_ttl ℕ_discrete 60000 7 no_faults directory).1 ≡ done none)
    × (OrderedDict.get ℕ_discrete 7 (get_ttl ℕ_discrete 60000 7 no_faults directory).0.files ≡ none)
unfolding program
expiry_instant_example =
    expiry_instant ℕ_discrete 7 60 (record { content = build_header 60 ++ value; mtime = 50000 })
      value directory refl refl (omega arith)
