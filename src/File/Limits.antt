-- ===== src/File/Limits.antt =====
-- src/cachekit/backends/file/backend.py: the limits that `set` keeps.
use cachekit_py.Common.{
  ℕ, ◌*◌, Bool, true, false, ◌++◌, Option, none, some, ltb, length, if◌then◌else◌, ◌≡◌, arith,
}
use cachekit_py.Common.Int.{ℤ}
use cachekit_py.Errors.{backend_error, permanent}
use cachekit_py.OrderedDict
use cachekit_py.OrderedDict.{OrderedDict, total}
use cachekit_py.OrderedDict.Laws.{IsDistinct, set-IsDistinct}
use cachekit_py.Handler.{Bytes}
use cachekit_py.Handler.Backend.{Reply, done, fails}
use cachekit_py.File.{
  Errno, eagain, enospc, eacces, erofs, eloop, etimedout, enoent, other_errno, File, Directory,
  FileConfig,
}
use cachekit_py.File.Header.{build_header, expiry_from_ttl}
use cachekit_py.File.Writes.{
  WriteFaults, complete, megabyte, write_all, write_temp, open_temp, over_capacity, write_entry,
  set_until, set,
}
use cachekit_py.File.Capacity.{InBounds, IsAccepted, maybe_evict_bounds}

module _ {P : Type 0} (dec : Discrete P) (config : FileConfig) (now : ℕ) (path : P)
    (faults : WriteFaults P) where
  Bounded : Directory P × Reply Unit → Type 0
  Bounded p = p.1 ≡ done tt → InBounds dec config (p.0).files

  module _ (limits : IsAccepted dec config) (works : (p : P) → faults.unlink_fails p ≡ false)
      (sizes : faults.size_listing ≡ complete) (listed : faults.evict_listing ≡ complete) where
    write_temp-Bounded :
        (lock write : Option Errno) (bytes : Bytes) (dir : Directory P)
        → IsDistinct dec dir.files
        → Bounded (write_temp dec config now path faults lock write bytes dir)
    unfolding Bounded
    write_temp-Bounded (some eagain) write bytes dir h p = absurd (ground arith)
    write_temp-Bounded (some enospc) write bytes dir h p = absurd (ground arith)
    write_temp-Bounded (some eacces) write bytes dir h p = absurd (ground arith)
    write_temp-Bounded (some erofs) write bytes dir h p = absurd (ground arith)
    write_temp-Bounded (some eloop) write bytes dir h p = absurd (ground arith)
    write_temp-Bounded (some etimedout) write bytes dir h p = absurd (ground arith)
    write_temp-Bounded (some enoent) write bytes dir h p = absurd (ground arith)
    write_temp-Bounded (some other_errno) write bytes dir h p = absurd (ground arith)
    write_temp-Bounded none (some e) bytes dir h p = absurd (ground arith)
    write_temp-Bounded none none bytes dir h p =
        let file : File = record {
          content = write_all dec config now path faults faults.written bytes;
          mtime = now;
        } in
        maybe_evict_bounds dec config faults (OrderedDict.set dec path file dir.files) limits works
          sizes listed (set-IsDistinct dec path file dir.files h)

    open_temp-Bounded :
        (x : Option Errno) (bytes : Bytes) (dir : Directory P)
        → IsDistinct dec dir.files
        → Bounded (open_temp dec config now path faults x bytes dir)
    unfolding Bounded
    open_temp-Bounded (some e) bytes dir h p = absurd (ground arith)
    open_temp-Bounded none bytes dir h p =
        write_temp-Bounded faults.on_lock faults.on_write bytes dir h p

    if-Bounded :
        (b : Bool) (p q : Directory P × Reply Unit)
        → Bounded p
        → Bounded q
        → Bounded (if b then p else q)
    if-Bounded true p q h g = h
    if-Bounded false p q h g = g

    refused : (dir : Directory P) → Bounded (dir, fails (backend_error permanent))
    unfolding Bounded
    refused dir p = absurd (ground arith)

    set_until-Bounded :
        (expiry : Option ℕ) (value : Bytes) (dir : Directory P)
        → IsDistinct dec dir.files
        → Bounded (set_until dec config now path faults expiry value dir)
    unfolding write_entry
    set_until-Bounded none value dir h = refused dir
    set_until-Bounded (some x) value dir h =
        if-Bounded (over_capacity dec config faults path dir) (dir, fails (backend_error permanent))
          (open_temp dec config now path faults faults.on_open (build_header x ++ value) dir)
          (refused dir) (open_temp-Bounded faults.on_open (build_header x ++ value) dir h)

    -- With limits of at most a million each, as the configuration demands: after a `set` that succeeds,
    -- over files with different paths that can all be unlinked, where the listing for the size and the
    -- one for the eviction see every file, the bytes on disk are at most 90 of a hundred of
    -- `max_size_mb`, and the entries at most 90 of a hundred of `max_entry_count`, however far the
    -- directory was over them before.
    pub set-InBounds :
        (value : Bytes) (ttl : Option ℤ) (dir : Directory P)
        → IsDistinct dec dir.files
        → (set dec config now path faults value ttl dir).1 ≡ done tt
        → InBounds dec config (set dec config now path faults value ttl dir).0.files
    unfolding set Bounded
    set-InBounds value ttl dir h p =
        if-Bounded (ltb (config.max_value_mb * megabyte) (length value))
          (dir, fails (backend_error permanent))
          (set_until dec config now path faults (expiry_from_ttl now ttl) value dir) (refused dir)
          (set_until-Bounded (expiry_from_ttl now ttl) value dir h) p
