-- ===== src/File/Reads.antt =====
-- src/cachekit/backends/file/backend.py: `get`, `exists`, `get_ttl`, `refresh_ttl` and `delete`. A read gives
-- the whole file. The clock is read where the code reads it.
use cachekit_py.Common.{
  ℕ, ◌-◌, ◌*◌, ◌/◌, Bool, true, false, ◌∷◌, ◌++◌, Option, none, some, leb, ◌==◌, if◌then◌else◌,
}
use cachekit_py.Common.Int.{ℤ}
use cachekit_py.Errors.{backend_error, permanent}
use cachekit_py.OrderedDict
use cachekit_py.OrderedDict.{OrderedDict}
use cachekit_py.Handler.{Bytes}
use cachekit_py.Handler.Backend.{Reply, done, fails}
use cachekit_py.Interop.Bytes.{to_bytes}
use cachekit_py.File.{
  second, Errno, enoent, File, Directory, os_failed, on_os_error, on_lock_error, safe_unlink,
}
use cachekit_py.File.Header.{expiry_from_ttl, read_header, is_expired}

-- the system calls of an operation that fail: opening, locking, reading, writing, which then leaves the
-- file as it was, the `fsync` after the write; and whether unlinking fails
pub record Faults : Type 0 where
  pub on_open : Option Errno
  pub on_lock : Option Errno
  pub on_read : Option Errno
  pub on_write : Option Errno
  pub on_fsync : Option Errno
  pub unlink_fails : Bool

module _ {P : Type 0} (dec : Discrete P) (now : ℕ) (path : P) (faults : Faults) where
  -- what is done with a file that was opened, locked and read
  abbrev pub after_open :
      {A : Type 0}
      → A
      → (File → Directory P → Directory P × Reply A)
      → Option Errno
      → Option Errno
      → Option Errno
      → Option File
      → Directory P
      → Directory P × Reply A
  after_open absent use_file (some e) lock read found dir = (dir, on_os_error absent e)
  after_open absent use_file none lock read none dir = (dir, done absent)
  after_open absent use_file none (some e) read (some file) dir = (dir, on_lock_error absent e)
  after_open absent use_file none none (some e) (some file) dir = (dir, on_os_error absent e)
  after_open absent use_file none none none (some file) dir = use_file file dir

  unfoldable pub with_file :
      {A : Type 0}
      → A
      → (File → Directory P → Directory P × Reply A)
      → Directory P
      → Directory P × Reply A
  with_file absent use_file dir =
      after_open absent use_file faults.on_open faults.on_lock faults.on_read
        (OrderedDict.get dec path dir.files) dir

  -- a corrupt or an expired entry is unlinked
  abbrev pub drop_entry : {A : Type 0} → A → Directory P → Directory P × Reply A
  drop_entry absent dir = (safe_unlink dec faults.unlink_fails path dir, done absent)

  abbrev pub get_entry : Option (ℕ × Bytes) → Directory P → Directory P × Reply (Option Bytes)
  get_entry none dir = drop_entry none dir
  get_entry (some (expiry, payload)) dir =
      if is_expired now expiry then drop_entry none dir else (dir, done (some payload))

  unfoldable pub get : Directory P → Directory P × Reply (Option Bytes)
  unfolding with_file
  get dir = with_file none (λ file. get_entry (read_header file.content)) dir

  abbrev pub exists_entry : Option (ℕ × Bytes) → Directory P → Directory P × Reply Bool
  exists_entry none dir = drop_entry false dir
  exists_entry (some (expiry, payload)) dir =
      if is_expired now expiry then drop_entry false dir else (dir, done true)

  unfoldable pub exists : Directory P → Directory P × Reply Bool
  unfolding with_file
  exists dir = with_file false (λ file. exists_entry (read_header file.content)) dir

  -- `remaining = expiry - time.time()`, in whole seconds
  abbrev pub get_ttl_entry : Option (ℕ × Bytes) → Directory P → Directory P × Reply (Option ℕ)
  get_ttl_entry none dir = drop_entry none dir
  get_ttl_entry (some (expiry, payload)) dir =
      if expiry == 0
      then (dir, done none)
      else if leb (expiry * second) now
      then drop_entry none dir
      else (dir, done (some ((expiry * second - now) / second)))

  unfoldable pub get_ttl : Directory P → Directory P × Reply (Option ℕ)
  unfolding with_file
  get_ttl dir = with_file none (λ file. get_ttl_entry (read_header file.content)) dir

  -- the eight bytes of the expiry in place
  abbrev pub rewrite_expiry : ℕ → Bytes → Bytes → Bytes
  rewrite_expiry expiry payload (a ∷ b ∷ c ∷ d ∷ e ∷ f ∷ rest) =
      a ∷ b ∷ c ∷ d ∷ e ∷ f ∷ (to_bytes 8 expiry ++ payload)
  rewrite_expiry expiry payload content = content

  abbrev pub synced : Option Errno → Reply Bool
  synced none = done true
  synced (some e) = on_os_error false e

  abbrev pub write_expiry : ℕ → Bytes → File → Option Errno → Directory P → Directory P × Reply Bool
  write_expiry expiry payload file (some e) dir = (dir, on_os_error false e)
  write_expiry expiry payload file none dir = (
    record dir {
      files =
          OrderedDict.set dec path
            (record { content = rewrite_expiry expiry payload file.content; mtime = now })
            dir.files;
    },
    synced faults.on_fsync,
  )

  abbrev pub refresh_entry : ℕ → File → Option (ℕ × Bytes) → Directory P → Directory P × Reply Bool
  refresh_entry expiry file none dir = drop_entry false dir
  refresh_entry expiry file (some (current, payload)) dir =
      let written = write_expiry expiry payload file faults.on_write dir in
      if is_expired now current then drop_entry false dir else written

  abbrev pub refresh_to : Option ℕ → Directory P → Directory P × Reply Bool
  refresh_to none dir = (dir, fails (backend_error permanent))
  refresh_to (some expiry) dir =
      with_file false (λ file. refresh_entry expiry file (read_header file.content)) dir

  -- the clock is read for the new expiry, and again in the test of the old one
  unfoldable pub refresh_ttl : ℕ → Option ℤ → Directory P → Directory P × Reply Bool
  unfolding with_file
  refresh_ttl asked_at ttl dir = refresh_to (expiry_from_ttl asked_at ttl) dir

  abbrev pub delete_found : Option Errno → Option File → Directory P → Directory P × Reply Bool
  delete_found (some enoent) found dir = (dir, done false)
  delete_found (some e) found dir = (dir, os_failed e)
  delete_found none none dir = (dir, done false)
  delete_found none (some file) dir =
      (record dir { files = OrderedDict.pop dec path dir.files }, done true)

  -- the failure of `os.unlink` stands in `on_open`
  unfoldable pub delete : Directory P → Directory P × Reply Bool
  delete dir = delete_found faults.on_open (OrderedDict.get dec path dir.files) dir
