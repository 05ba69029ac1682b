-- ===== src/File/Writes.antt =====
-- src/cachekit/backends/file/backend.py: `set` with its temporary file, the limit of entries, and the
-- eviction. The sizes in megabytes that the code compares are multiples of `2 ^ -20`, which doubles hold
-- exactly; the limits are rounded as doubles are.
use cachekit_py.Common.{
  ℕ, ◌-◌, ◌*◌, ◌/◌, Bool, true, false, ◌&&◌, ◌||◌, not, List, [], ◌∷◌, ◌++◌, Option, none, some,
  ltb, leb, is_some, length, if◌then◌else◌,
}
use cachekit_py.Common.Int.{ℤ}
use cachekit_py.Errors.{backend_error, permanent, timeout}
use cachekit_py.Keys.Strings.{take}
use cachekit_py.OrderedDict
use cachekit_py.OrderedDict.{OrderedDict, total}
use cachekit_py.Handler.{Bytes}
use cachekit_py.Handler.Backend.{Reply, done, fails}
use cachekit_py.File.{Errno, eagain, File, Directory, FileConfig, os_failed}
use cachekit_py.File.Doubles.{times, seven_tenths, nine_tenths}
use cachekit_py.File.Header.{expiry_from_ttl, build_header}

-- What a listing of the directory sees: every file, or all but those whose `lstat` fails, or it raises.
pub data Listing (P : Type 0) : Type 0 where
  complete raises_error : Listing P
  without : (P → Bool) → Listing P

-- What the system calls of `set` do: opening and locking the temporary file, writing it with its
-- `fsync` and its renaming; `written` is the number of bytes of a short write; the paths where
-- unlinking fails, with the one of the temporary file; the test that the path exists; and the three
-- listings, for the limit of entries, for the size and for the eviction.
pub record WriteFaults (P : Type 0) : Type 0 where
  pub on_open : Option Errno
  pub on_lock : Option Errno
  pub on_write : Option Errno
  pub written : Option ℕ
  pub temp_unlink_fails : Bool
  pub unlink_fails : P → Bool
  pub exists_fails : Bool
  pub count_listing : Listing P
  pub size_listing : Listing P
  pub evict_listing : Listing P

abbrev pub megabyte : ℕ
megabyte = 1024 * 1024

abbrev pub size_of : File → ℕ
size_of file = length file.content

-- `files_with_mtime.sort`, which is stable
abbrev pub insert_by_mtime : {P : Type 0} → P × File → List (P × File) → List (P × File)
insert_by_mtime x [] = x ∷ []
insert_by_mtime x (y ∷ ys) =
    let rest = insert_by_mtime x ys in if leb (x.1).mtime (y.1).mtime then x ∷ y ∷ ys else y ∷ rest

unfoldable pub sort_by_mtime : {P : Type 0} → List (P × File) → List (P × File)
sort_by_mtime [] = []
sort_by_mtime (x ∷ xs) = insert_by_mtime x (sort_by_mtime xs)

abbrev pub skip : {P : Type 0} → (P → Bool) → OrderedDict P File → OrderedDict P File
skip fails_at [] = []
skip fails_at ((path, file) ∷ files) =
    let rest = skip fails_at files in if fails_at path then rest else (path, file) ∷ rest

-- the files that a listing gives; an exception is caught, and then there are none
abbrev pub seen : {P : Type 0} → Listing P → OrderedDict P File → OrderedDict P File
seen complete files = files
seen raises_error files = []
seen (without fails_at) files = skip fails_at files

-- `_calculate_cache_size`, in bytes
unfoldable pub calculate_cache_size : {P : Type 0} → Listing P → OrderedDict P File → ℕ × ℕ
calculate_cache_size listing files =
    (total size_of (seen listing files), length (seen listing files))

module _ {P : Type 0} (dec : Discrete P) (config : FileConfig) where
  -- Within 70 of a hundred. A size or a count that falls below nothing, where the listings differ, is
  -- within its limit like 0.
  abbrev pub at_target : ℕ → ℕ → Bool
  at_target size count =
      leb (size * 8589934592) (times seven_tenths config.max_size_mb)
      && leb count (times seven_tenths config.max_entry_count / 9007199254740992)

  -- above 90 of a hundred
  abbrev pub is_triggered : ℕ → ℕ → Bool
  is_triggered size count =
      ltb (times nine_tenths config.max_size_mb) (size * 8589934592)
      || ltb (times nine_tenths config.max_entry_count) (count * 9007199254740992)

  -- the loop of `_maybe_evict`, over the files from the oldest to the newest
  unfoldable pub evict_oldest :
      (P → Bool) → List (P × File) → ℕ → ℕ → OrderedDict P File → OrderedDict P File
  evict_oldest fails_at [] size count files = files
  evict_oldest fails_at ((path, file) ∷ rest) size count files =
      let kept = evict_oldest fails_at rest size count files in
      let gone =
        evict_oldest fails_at rest (size - size_of file) (count - 1)
          (OrderedDict.pop dec path files) in
      if at_target size count then files else if fails_at path then kept else gone

  -- `_maybe_evict`
  unfoldable pub maybe_evict : WriteFaults P → OrderedDict P File → OrderedDict P File
  unfolding calculate_cache_size
  maybe_evict faults files =
      let (size, count) = calculate_cache_size faults.size_listing files in
      let listed = sort_by_mtime (seen faults.evict_listing files) in
      let evicted = evict_oldest faults.unlink_fails listed size count files in
      if is_triggered size count then evicted else files

  -- `_check_entry_capacity`: is the entry refused
  unfoldable pub over_capacity : WriteFaults P → P → Directory P → Bool
  unfolding calculate_cache_size
  over_capacity faults path dir =
      ltb 0 config.max_entry_count
      && (not (is_some (OrderedDict.get dec path dir.files)) || faults.exists_fails)
      && leb config.max_entry_count (calculate_cache_size faults.count_listing dir.files).1

  module _ (now : ℕ) (path : P) (faults : WriteFaults P) where
    -- the temporary file goes, if it can be unlinked
    abbrev pub discard_temp : Bool → Directory P → Directory P
    discard_temp true dir = record dir { temp_files = now ∷ dir.temp_files }
    discard_temp false dir = dir

    abbrev pub write_all : Option ℕ → Bytes → Bytes
    write_all none bytes = bytes
    write_all (some n) bytes = take n bytes

    abbrev pub commit : Bytes → Directory P → Directory P
    commit bytes dir = record dir {
      files = maybe_evict faults (
          OrderedDict.set dec path
            (record { content = write_all faults.written bytes; mtime = now }) dir.files);
    }

    -- From the lock on. A lock that is not free raises a `BackendError`, and only `OSError` is
    -- caught: the temporary file stays.
    abbrev pub write_temp :
        Option Errno → Option Errno → Bytes → Directory P → Directory P × Reply Unit
    write_temp (some eagain) write bytes dir =
        (record dir { temp_files = now ∷ dir.temp_files }, fails (backend_error timeout))
    write_temp (some e) write bytes dir = (discard_temp faults.temp_unlink_fails dir, os_failed e)
    write_temp none (some e) bytes dir = (discard_temp faults.temp_unlink_fails dir, os_failed e)
    write_temp none none bytes dir = (commit bytes dir, done tt)

    abbrev pub open_temp : Option Errno → Bytes → Directory P → Directory P × Reply Unit
    open_temp (some e) bytes dir = (dir, os_failed e)
    open_temp none bytes dir = write_temp faults.on_lock faults.on_write bytes dir

    unfoldable pub write_entry : Bytes → Directory P → Directory P × Reply Unit
    write_entry bytes dir =
        if over_capacity faults path dir
        then (dir, fails (backend_error permanent))
        else open_temp faults.on_open bytes dir

    abbrev pub set_until : Option ℕ → Bytes → Directory P → Directory P × Reply Unit
    set_until none value dir = (dir, fails (backend_error permanent))
    set_until (some expiry) value dir = write_entry (build_header expiry ++ value) dir

    unfoldable pub set : Bytes → Option ℤ → Directory P → Directory P × Reply Unit
    unfolding write_entry
    set value ttl dir =
        if ltb (config.max_value_mb * megabyte) (length value)
        then (dir, fails (backend_error permanent))
        else set_until (expiry_from_ttl now ttl) value dir
