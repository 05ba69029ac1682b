-- ===== src/File/Payloads.antt =====
-- What holds of every file of the directory, through the operations of
-- src/cachekit/backends/file/backend.py: none of them makes a file but `set`, and `refresh_ttl` keeps the
-- payload.
use cachekit_py.Common.{
  ℕ, ◌-◌, ◌*◌, Bool, true, false, List, [], ◌∷◌, ◌++◌, Option, none, some, ltb, length,
  if◌then◌else◌, ◌≡◌, arith, inl, inr, ◌⊎◌, Bool-cases,
}
use mathlib.Core.Path.{subst}
use cachekit_py.Common.Int.{ℤ}
use cachekit_py.OrderedDict
use cachekit_py.OrderedDict.{OrderedDict, total}
use cachekit_py.OrderedDict.Laws.{get-pop, get-set}
use cachekit_py.Handler.{Bytes}
use cachekit_py.Handler.Backend.{Reply, fails}
use cachekit_py.Errors.{backend_error, permanent}
use cachekit_py.File.{
  Errno, eagain, enospc, eacces, erofs, eloop, etimedout, enoent, other_errno, File, Directory,
  FileConfig,
}
use cachekit_py.File.Header.{build_header, expiry_from_ttl}
use cachekit_py.File.Writes.{
  WriteFaults, at_target, is_triggered, size_of, sort_by_mtime, evict_oldest, maybe_evict, commit,
  calculate_cache_size, seen, discard_temp, write_all, write_temp, open_temp, over_capacity,
  write_entry, set_until, set, megabyte,
}

module _ {P : Type 0} (dec : Discrete P) (Q : P → File → Type 0) where
  abbrev pub Every : OrderedDict P File → Type 0
  Every d = (p : P) (f : File) → OrderedDict.get dec p d ≡ some f → Q p f

  popped_get :
      (k j : P) (f : File) (d : OrderedDict P File)
      → OrderedDict.get dec j (OrderedDict.pop dec k d) ≡ some f
      → OrderedDict.get dec j d ≡ some f
  popped_get k j f d p = ground (arith, get-pop dec k j d)

  set_get :
      (k j : P) (v f : File) (d : OrderedDict P File)
      → OrderedDict.get dec j (OrderedDict.set dec k v d) ≡ some f
      → ((k ≡ j) × (v ≡ f)) ⊎ (OrderedDict.get dec j d ≡ some f)
  set_get k j v f d p = ground (arith, get-set dec k j v d)

  pub pop-Every : (k : P) (d : OrderedDict P File) → Every d → Every (OrderedDict.pop dec k d)
  pop-Every k d h j f p = h j f (popped_get k j f d p)

  pub set-Every :
      (k : P) (v : File) (d : OrderedDict P File)
      → Q k v
      → Every d
      → Every (OrderedDict.set dec k v d)
  set-Every k v d good h j f p = elim (set_get k j v f d p) [
    | inl (q, r) ↦ subst (λ i. Q i f) q (subst (λ w. Q k w) r good)
    | inr q ↦ h j f q
  ]

  if-Every : (b : Bool) (d e : OrderedDict P File) → Every d → Every e → Every (if b then d else e)
  if-Every true d e h g = h
  if-Every false d e h g = g

  evict_oldest-Every :
      (config : FileConfig) (fails_at : P → Bool) (sorted : List (P × File)) (size count : ℕ)
      (d : OrderedDict P File)
      → Every d
      → Every (evict_oldest dec config fails_at sorted size count d)
  unfolding evict_oldest
  evict_oldest-Every config fails_at [] size count d h = h
  evict_oldest-Every config fails_at ((p, f) ∷ rest) size count d h =
      let kept = evict_oldest-Every config fails_at rest size count d h in
      let gone =
        evict_oldest-Every config fails_at rest (size - size_of f) (count - 1)
          (OrderedDict.pop dec p d) (pop-Every p d h) in
      elim (Bool-cases (at_target dec config size count)) [
        | inl x ↦ rw x h
        | inr x ↦ elim (Bool-cases (fails_at p)) [ inl y ↦ rw (x, y) kept | inr y ↦ rw (x, y) gone ]
      ]

  pub maybe_evict-Every :
      (config : FileConfig) (faults : WriteFaults P) (d : OrderedDict P File)
      → Every d
      → Every (maybe_evict dec config faults d)
  unfolding maybe_evict
  maybe_evict-Every config faults d h =
      let (size, count) = calculate_cache_size faults.size_listing d in
      let listed = sort_by_mtime (seen faults.evict_listing d) in
      if-Every (is_triggered dec config size count)
        (evict_oldest dec config faults.unlink_fails listed size count d) d
        (evict_oldest-Every config faults.unlink_fails listed size count d h) h

  module _ (config : FileConfig) (now : ℕ) (path : P) (faults : WriteFaults P) where
    Left : Directory P × Reply Unit → Type 0
    Left p = Every (p.0).files

    discard-Every :
        (b : Bool) (dir : Directory P)
        → Every dir.files
        → Every (discard_temp dec config now path faults b dir).files
    discard-Every true dir h = h
    discard-Every false dir h = h

    commit-Every :
        (bytes : Bytes) (dir : Directory P)
        → faults.written ≡ none
        → Q path (record { content = bytes; mtime = now })
        → Every dir.files
        → Every (commit dec config now path faults bytes dir).files
    commit-Every bytes dir whole good h =
        let file : File = record {
          content = write_all dec config now path faults faults.written bytes;
          mtime = now;
        } in
        maybe_evict-Every config faults (OrderedDict.set dec path file dir.files)
          (set-Every path file dir.files (rw whole good) h)

    write_temp-Every :
        (lock write : Option Errno) (bytes : Bytes) (dir : Directory P)
        → faults.written ≡ none
        → Q path (record { content = bytes; mtime = now })
        → Every dir.files
        → Left (write_temp dec config now path faults lock write bytes dir)
    unfolding Left
    write_temp-Every (some eagain) write bytes dir whole good h = h
    write_temp-Every (some enospc) write bytes dir whole good h =
        discard-Every faults.temp_unlink_fails dir h
    write_temp-Every (some eacces) write bytes dir whole good h =
        discard-Every faults.temp_unlink_fails dir h
    write_temp-Every (some erofs) write bytes dir whole good h =
        discard-Every faults.temp_unlink_fails dir h
    write_temp-Every (some eloop) write bytes dir whole good h =
        discard-Every faults.temp_unlink_fails dir h
    write_temp-Every (some etimedout) write bytes dir whole good h =
        discard-Every faults.temp_unlink_fails dir h
    write_temp-Every (some enoent) write bytes dir whole good h =
        discard-Every faults.temp_unlink_fails dir h
    write_temp-Every (some other_errno) write bytes dir whole good h =
        discard-Every faults.temp_unlink_fails dir h
    write_temp-Every none (some e) bytes dir whole good h =
        discard-Every faults.temp_unlink_fails dir h
    write_temp-Every none none bytes dir whole good h = commit-Every bytes dir whole good h

    open_temp-Every :
        (open_fault : Option Errno) (bytes : Bytes) (dir : Directory P)
        → faults.written ≡ none
        → Q path (record { content = bytes; mtime = now })
        → Every dir.files
        → Left (open_temp dec config now path faults open_fault bytes dir)
    unfolding Left
    open_temp-Every (some e) bytes dir whole good h = h
    open_temp-Every none bytes dir whole good h =
        write_temp-Every faults.on_lock faults.on_write bytes dir whole good h

    if-Left :
        (b : Bool) (p q : Directory P × Reply Unit) → Left p → Left q → Left (if b then p else q)
    if-Left true p q h g = h
    if-Left false p q h g = g

    set_until-Every :
        (expiry : Option ℕ) (value : Bytes) (dir : Directory P)
        → faults.written ≡ none
        → ((e : ℕ) → Q path (record { content = build_header e ++ value; mtime = now }))
        → Every dir.files
        → Left (set_until dec config now path faults expiry value dir)
    unfolding write_entry Left
    set_until-Every none value dir whole good h = h
    set_until-Every (some e) value dir whole good h =
        let bytes = build_header e ++ value in
        if-Left (over_capacity dec config faults path dir) (dir, fails (backend_error permanent))
          (open_temp dec config now path faults faults.on_open bytes dir) h
          (open_temp-Every faults.on_open bytes dir whole (good e) h)

    -- of `set`, when no write is short: what holds of the files before and of the new one
    pub set_entry-Every :
        (value : Bytes) (ttl : Option ℤ) (dir : Directory P)
        → faults.written ≡ none
        → ((e : ℕ) → Q path (record { content = build_header e ++ value; mtime = now }))
        → Every dir.files
        → Every (set dec config now path faults value ttl dir).0.files
    unfolding set Left
    set_entry-Every value ttl dir whole good h =
        if-Left (ltb (config.max_value_mb * megabyte) (length value))
          (dir, fails (backend_error permanent))
          (set_until dec config now path faults (expiry_from_ttl now ttl) value dir) h
          (set_until-Every (expiry_from_ttl now ttl) value dir whole good h)
