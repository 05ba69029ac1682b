-- ===== src/File.antt =====
-- src/cachekit/backends/file/backend.py: the backend that keeps one file for each key in a directory. The
-- path of a key, a digest, is a parameter. Every system call of an operation may fail; what it does is
-- an argument. One process holds the lock of the backend, so an operation is one function.
pub mod Header
pub mod Doubles
pub mod Reads
pub mod Writes
pub mod Payloads
pub mod Atomic
pub mod Capacity
pub mod Limits
pub mod Expiry
pub mod Lifetime
pub mod Fits
mod Tests
use cachekit_py.Common.{ℕ, ◌+◌, ◌*◌, Bool, true, false, List, Option, none, some}
use cachekit_py.Errors.{
  Error, backend_error, BackendErrorType, transient, permanent, timeout, unknown,
}
use cachekit_py.OrderedDict
use cachekit_py.OrderedDict.{OrderedDict}
use cachekit_py.Handler.{Bytes}
use cachekit_py.Handler.Backend.{Reply, done, fails}

-- ticks of the clock in a second
abbrev pub second : ℕ
second = 1000

-- the `errno` of an `OSError`, as far as the code looks at it
pub data Errno : Type 0 where
  enospc eacces erofs eloop etimedout enoent eagain other_errno : Errno

-- `_classify_os_error`
unfoldable pub classify_os_error : Errno → Bool → BackendErrorType
classify_os_error enospc is_directory = transient
classify_os_error eacces true = permanent
classify_os_error eacces false = transient
classify_os_error erofs is_directory = permanent
classify_os_error eloop is_directory = permanent
classify_os_error etimedout is_directory = timeout
classify_os_error enoent is_directory = unknown
classify_os_error eagain is_directory = unknown
classify_os_error other_errno is_directory = unknown

pub record File : Type 0 where
  pub content : Bytes
  pub mtime : ℕ

-- the entries by their paths, and the times of the temporary files that were left behind
pub record Directory (P : Type 0) : Type 0 where
  pub files : OrderedDict P File
  pub temp_files : List ℕ

pub record FileConfig : Type 0 where
  pub max_size_mb : ℕ
  pub max_value_mb : ℕ
  pub max_entry_count : ℕ

-- an `OSError` that becomes a `BackendError`
abbrev pub os_failed : {A : Type 0} → Errno → Reply A
os_failed e = fails (backend_error (classify_os_error e false))

-- the handlers of `OSError` around a read: a missing file and a symbolic link are absent entries
unfoldable pub on_os_error : {A : Type 0} → A → Errno → Reply A
on_os_error absent enoent = done absent
on_os_error absent eloop = done absent
on_os_error absent e = os_failed e

-- `_acquire_file_lock` that fails: a lock that another process holds is a timeout
unfoldable pub on_lock_error : {A : Type 0} → A → Errno → Reply A
unfolding on_os_error
on_lock_error absent eagain = fails (backend_error timeout)
on_lock_error absent e = on_os_error absent e

-- `_safe_unlink`, which ignores its own failure
unfoldable pub safe_unlink : {P : Type 0} → Discrete P → Bool → P → Directory P → Directory P
safe_unlink dec true path dir = dir
safe_unlink dec false path dir = record dir { files = OrderedDict.pop dec path dir.files }
