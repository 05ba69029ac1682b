-- ===== src/File/Atomic.antt =====
-- src/cachekit/backends/file/backend.py: a `set` that raises.
use cachekit_py.Common.{
  ℕ, ◌*◌, Bool, true, false, ◌∷◌, ◌++◌, Option, none, some, ltb, length, if◌then◌else◌, ◌≡◌, refl,
  arith, inl, inr, ◌⊎◌,
}
use cachekit_py.Common.Int.{ℤ}
use cachekit_py.Errors.{Error, backend_error, permanent}
use cachekit_py.Handler.{Bytes}
use cachekit_py.Handler.Backend.{Reply, fails}
use cachekit_py.File.{
  Errno, eagain, enospc, eacces, erofs, eloop, etimedout, enoent, other_errno, Directory,
  FileConfig, os_failed,
}
use cachekit_py.File.Header.{build_header, expiry_from_ttl}
use cachekit_py.File.Writes.{
  WriteFaults, write_temp, open_temp, over_capacity, write_entry, set_until, set, megabyte,
  discard_temp,
}

module _ {P : Type 0} (dec : Discrete P) (config : FileConfig) (now : ℕ) (path : P)
    (faults : WriteFaults P) where
  -- the entries are as they were, and a temporary file is left only where it could not be removed, or
  -- where its lock was taken
  abbrev pub IsKept : Directory P → Directory P → Type 0
  IsKept dir dir' =
      (dir'.files ≡ dir.files)
      × ((dir'.temp_files ≡ dir.temp_files)
          ⊎ ((dir'.temp_files ≡ now ∷ dir.temp_files)
              × ((faults.temp_unlink_fails ≡ true) ⊎ (faults.on_lock ≡ some eagain))))

  abbrev Untouched : Directory P → Directory P × Reply Unit → Type 0
  Untouched dir p = (e : Error) → p.1 ≡ fails e → IsKept dir p.0

  discarded :
      (b : Bool) (dir : Directory P) (x : Reply Unit)
      → faults.temp_unlink_fails ≡ b
      → Untouched dir (discard_temp dec config now path faults b dir, x)
  discarded true dir x q e p = (refl, inr (refl, inl q))
  discarded false dir x q e p = (refl, inl refl)

  write_temp-Untouched :
      (lock write : Option Errno) (bytes : Bytes) (dir : Directory P)
      → faults.on_lock ≡ lock
      → Untouched dir (write_temp dec config now path faults lock write bytes dir)
  write_temp-Untouched (some eagain) write bytes dir q e p = (refl, inr (refl, inr q))
  write_temp-Untouched (some enospc) write bytes dir q e p =
      discarded faults.temp_unlink_fails dir (os_failed enospc) refl e p
  write_temp-Untouched (some eacces) write bytes dir q e p =
      discarded faults.temp_unlink_fails dir (os_failed eacces) refl e p
  write_temp-Untouched (some erofs) write bytes dir q e p =
      discarded faults.temp_unlink_fails dir (os_failed erofs) refl e p
  write_temp-Untouched (some eloop) write bytes dir q e p =
      discarded faults.temp_unlink_fails dir (os_failed eloop) refl e p
  write_temp-Untouched (some etimedout) write bytes dir q e p =
      discarded faults.temp_unlink_fails dir (os_failed etimedout) refl e p
  write_temp-Untouched (some enoent) write bytes dir q e p =
      discarded faults.temp_unlink_fails dir (os_failed enoent) refl e p
  write_temp-Untouched (some other_errno) write bytes dir q e p =
      discarded faults.temp_unlink_fails dir (os_failed other_errno) refl e p
  write_temp-Untouched none (some x) bytes dir q e p =
      discarded faults.temp_unlink_fails dir (os_failed x) refl e p
  write_temp-Untouched none none bytes dir q e p = absurd (ground arith)

  open_temp-Untouched :
      (x : Option Errno) (bytes : Bytes) (dir : Directory P)
      → Untouched dir (open_temp dec config now path faults x bytes dir)
  open_temp-Untouched (some x) bytes dir e p = (refl, inl refl)
  open_temp-Untouched none bytes dir e p =
      write_temp-Untouched faults.on_lock faults.on_write bytes dir refl e p

  if-Untouched :
      (b : Bool) (dir : Directory P) (p q : Directory P × Reply Unit)
      → Untouched dir p
      → Untouched dir q
      → Untouched dir (if b then p else q)
  if-Untouched true dir p q h g = h
  if-Untouched false dir p q h g = g

  set_until-Untouched :
      (expiry : Option ℕ) (value : Bytes) (dir : Directory P)
      → Untouched dir (set_until dec config now path faults expiry value dir)
  unfolding write_entry
  set_until-Untouched none value dir = λ e p. (refl, inl refl)
  set_until-Untouched (some x) value dir =
      if-Untouched (over_capacity dec config faults path dir) dir
        (dir, fails (backend_error permanent))
        (open_temp dec config now path faults faults.on_open (build_header x ++ value) dir)
        (λ e p. (refl, inl refl)) (open_temp-Untouched faults.on_open (build_header x ++ value) dir)

  -- A `set` that raises, for whatever reason, leaves every entry as it was. It leaves a temporary file
  -- behind only where that could not be unlinked, or where its lock was not free.
  pub failed_set-IsKept :
      (value : Bytes) (ttl : Option ℤ) (dir : Directory P) (e : Error)
      → (set dec config now path faults value ttl dir).1 ≡ fails e
      → IsKept dir (set dec config now path faults value ttl dir).0
  unfolding set
  failed_set-IsKept value ttl dir =
      if-Untouched (ltb (config.max_value_mb * megabyte) (length value)) dir
        (dir, fails (backend_error permanent))
        (set_until dec config now path faults (expiry_from_ttl now ttl) value dir)
        (λ e p. (refl, inl refl)) (set_until-Untouched (expiry_from_ttl now ttl) value dir)
