-- ===== src/File/Fits.antt =====
-- The file backend (src/cachekit/backends/file/backend.py) as a backend of the cache handler: what it
-- gives back is what it was given, whatever its system calls do.
use cachekit_py.Common.{
  ℕ, suc, Bool, true, false, [], ◌++◌, Option, none, some, ◌≡◌, refl, sym, ◌∙◌, arith, inl, inr,
  ◌⊎◌, Bool-cases,
}
use cachekit_py.Common.Int.{ℤ, pos}
use cachekit_py.OrderedDict
use cachekit_py.OrderedDict.{OrderedDict}
use cachekit_py.Handler.{Bytes}
use cachekit_py.Handler.Backend.{Backend, IsBackend, Reply, done}
use cachekit_py.File.{
  Errno, enoent, eloop, eagain, enospc, eacces, erofs, etimedout, other_errno, File, Directory,
  FileConfig, safe_unlink, on_os_error, on_lock_error,
}
use cachekit_py.File.Header.{read_header, build_header, read-build, is_expired}
use cachekit_py.File.Reads.{Faults, after_open, with_file, get_entry, get, delete_found, delete}
use cachekit_py.File.Writes.{WriteFaults, set}
use cachekit_py.File.Payloads.{Every, pop-Every, set_entry-Every}

-- what an operation meets: the clock, and what the system calls do
pub record Moment (P : Type 0) : Type 0 where
  pub now : ℕ
  pub faults : Faults
  pub write_faults : WriteFaults P

-- the directory, and the number of operations so far
pub record Disk (P : Type 0) : Type 0 where
  pub directory : Directory P
  pub operations : ℕ

abbrev pub with_ttl : Option ℕ → Option ℤ
with_ttl none = none
with_ttl (some n) = some (pos n)

abbrev pub after : {P A : Type 0} → Disk P → Directory P × Reply A → Disk P × Reply A
after disk (dir, r) = (record { directory = dir; operations = suc disk.operations }, r)

module _ {K P : Type 0} (dec : Discrete P) (config : FileConfig) (key_to_path : K → P)
    (moment : ℕ → Moment P) where
  -- the backend over a disk, where the n-th operation meets `moment n`
  abbrev pub file_backend : Backend K (Disk P)
  file_backend = record {
    get = λ key disk.
        let m = moment disk.operations in
        after disk (get dec m.now (key_to_path key) m.faults disk.directory);
    set = λ key bytes ttl disk.
        let m = moment disk.operations in
        after disk (
          set dec config m.now (key_to_path key) m.write_faults bytes (with_ttl ttl)
            disk.directory);
    delete = λ key disk.
        let m = moment disk.operations in
        after disk (delete dec m.now (key_to_path key) m.faults disk.directory);
  }

  -- the directory has a file with the payload under the path of the key
  pub HoldsPayload : Disk P → K → Bytes → Type 0
  HoldsPayload disk key b =
      (file : File) × (expiry : ℕ) × (OrderedDict.get dec (key_to_path key) disk.directory.files
        ≡ some file)
      × (read_header file.content ≡ some (expiry, b))

  -- what is read from an entry is its payload
  entry_payload :
      (now : ℕ) (path : P) (faults : Faults) (r : Option (ℕ × Bytes)) (dir : Directory P)
      (b : Bytes)
      → (get_entry dec now path faults r dir).1 ≡ done (some b)
      → (expiry : ℕ) × (r ≡ some (expiry, b))
  entry_payload now path faults none dir b p = absurd (ground arith)
  entry_payload now path faults (some (expiry, payload)) dir b p = (expiry, ground arith)

  opened_payload :
      (now : ℕ) (path : P) (faults : Faults) (o l r : Option Errno) (found : Option File)
      (dir : Directory P) (b : Bytes)
      → (after_open dec now path faults none
          (λ file. get_entry dec now path faults (read_header file.content))
          o
          l
          r
          found
          dir).1
        ≡ done (some b)
      → (file : File) × (expiry : ℕ) × (found ≡ some file)
        × (read_header file.content ≡ some (expiry, b))
  unfolding on_os_error on_lock_error
  opened_payload now path faults (some e) l r found dir b p = absurd (ground arith)
  opened_payload now path faults none l r none dir b p = absurd (ground arith)
  opened_payload now path faults none (some e) r (some file) dir b p = absurd (ground arith)
  opened_payload now path faults none none (some e) (some file) dir b p = absurd (ground arith)
  opened_payload now path faults none none none (some file) dir b p =
      let (expiry, q) = entry_payload now path faults (read_header file.content) dir b p in
      (file, expiry, refl, q)

  get_payload :
      (now : ℕ) (path : P) (faults : Faults) (dir : Directory P) (b : Bytes)
      → (get dec now path faults dir).1 ≡ done (some b)
      → (file : File) × (expiry : ℕ) × (OrderedDict.get dec path dir.files ≡ some file)
        × (read_header file.content ≡ some (expiry, b))
  unfolding get with_file
  get_payload now path faults dir b p =
      opened_payload now path faults faults.on_open faults.on_lock faults.on_read
        (OrderedDict.get dec path dir.files) dir b p

  module _ (Q : P → File → Type 0) where
    unlink-Every :
        (b : Bool) (path : P) (dir : Directory P)
        → Every dec Q dir.files
        → Every dec Q (safe_unlink dec b path dir).files
    unfolding safe_unlink
    unlink-Every true path dir h = h
    unlink-Every false path dir h = pop-Every dec Q path dir.files h

    entry-Every :
        (now : ℕ) (path : P) (faults : Faults) (r : Option (ℕ × Bytes)) (dir : Directory P)
        → Every dec Q dir.files
        → Every dec Q (get_entry dec now path faults r dir).0.files
    entry-Every now path faults none dir h = unlink-Every faults.unlink_fails path dir h
    entry-Every now path faults (some (expiry, payload)) dir h =
        elim (Bool-cases (is_expired now expiry)) [
          | inl q ↦ rw q (unlink-Every faults.unlink_fails path dir h)
          | inr q ↦ rw q h
        ]

    opened-Every :
        (now : ℕ) (path : P) (faults : Faults) (o l r : Option Errno) (found : Option File)
        (dir : Directory P)
        → Every dec Q dir.files
        → Every dec Q (
            (after_open dec now path faults none
              (λ file. get_entry dec now path faults (read_header file.content))
              o
              l
              r
              found
              dir).0.files)
    opened-Every now path faults (some e) l r found dir h = h
    opened-Every now path faults none l r none dir h = h
    opened-Every now path faults none (some e) r (some file) dir h = h
    opened-Every now path faults none none (some e) (some file) dir h = h
    opened-Every now path faults none none none (some file) dir h =
        entry-Every now path faults (read_header file.content) dir h

    get-Every :
        (now : ℕ) (path : P) (faults : Faults) (dir : Directory P)
        → Every dec Q dir.files
        → Every dec Q (get dec now path faults dir).0.files
    unfolding get with_file
    get-Every now path faults dir h =
        opened-Every now path faults faults.on_open faults.on_lock faults.on_read
          (OrderedDict.get dec path dir.files) dir h

    deleted-Every :
        (now : ℕ) (path : P) (faults : Faults) (o : Option Errno) (found : Option File)
        (dir : Directory P)
        → Every dec Q dir.files
        → Every dec Q (delete_found dec now path faults o found dir).0.files
    deleted-Every now path faults (some enoent) found dir h = h
    deleted-Every now path faults (some eloop) found dir h = h
    deleted-Every now path faults (some eagain) found dir h = h
    deleted-Every now path faults (some enospc) found dir h = h
    deleted-Every now path faults (some eacces) found dir h = h
    deleted-Every now path faults (some erofs) found dir h = h
    deleted-Every now path faults (some etimedout) found dir h = h
    deleted-Every now path faults (some other_errno) found dir h = h
    deleted-Every now path faults none none dir h = h
    deleted-Every now path faults none (some file) dir h = pop-Every dec Q path dir.files h

    delete-Every :
        (now : ℕ) (path : P) (faults : Faults) (dir : Directory P)
        → Every dec Q dir.files
        → Every dec Q (delete dec now path faults dir).0.files
    unfolding delete
    delete-Every now path faults dir h =
        deleted-Every now path faults faults.on_open (OrderedDict.get dec path dir.files) dir h

  -- a payload that is there, as a property of the file that has it
  HasPayloads : Disk P → P → File → Type 0
  HasPayloads disk path file =
      (key : K) (b : Bytes) (expiry : ℕ)
      → path ≡ key_to_path key
      → read_header file.content ≡ some (expiry, b)
      → HoldsPayload disk key b

  held : (disk : Disk P) → Every dec (HasPayloads disk) disk.directory.files
  unfolding HasPayloads HoldsPayload
  held disk path file found key b expiry at h = (file, expiry, rw (sym at) found, h)

  -- a payload that is there, or the new one
  HasPayloadsOr : Disk P → K → Bytes → P → File → Type 0
  HasPayloadsOr disk key bytes path file =
      (j : K) (b : Bytes) (expiry : ℕ)
      → path ≡ key_to_path j
      → read_header file.content ≡ some (expiry, b)
      → HoldsPayload disk j b ⊎ ((j ≡ key) × (b ≡ bytes))

  written_payload :
      (e : ℕ) (bytes : Bytes) (expiry : ℕ) (b : Bytes)
      → read_header (build_header e ++ bytes) ≡ some (expiry, b)
      → b ≡ bytes
  written_payload e bytes expiry b h = same (sym (read-build e bytes) ∙ h)
    where
      same : {n : ℕ} → ◌≡◌ {A = Option (ℕ × Bytes)} (some (n, bytes)) (some (expiry, b)) → b ≡ bytes
      same q = ground arith

  -- If no write is short and no two keys have the same path: whatever the clock says and whichever system
  -- calls fail, at every operation, what `get` returns is the payload of a file under the path of the
  -- key, and the payloads that can be found after an operation were there before, but for the value
  -- that a `set` was given for its key. No failure leaves part of a value, or the value of another key.
  pub file_backend-IsBackend :
      ((n : ℕ) → (moment n).write_faults.written ≡ none)
      → ((j k : K) → key_to_path j ≡ key_to_path k → j ≡ k)
      → IsBackend file_backend HoldsPayload
  unfolding HoldsPayload HasPayloads HasPayloadsOr
  file_backend-IsBackend whole injective = record {
    get_holds = λ key disk b p.
        let m = moment disk.operations in
        get_payload m.now (key_to_path key) m.faults disk.directory b p;
    get_keeps = λ key disk j b (file, expiry, found, h).
        let m = moment disk.operations in
        get-Every (HasPayloads disk) m.now (key_to_path key) m.faults disk.directory (held disk)
          (key_to_path j) file found j b expiry refl h;
    set_keeps = λ key bytes ttl disk j b (file, expiry, found, h).
        let m = moment disk.operations in
        set_entry-Every dec (HasPayloadsOr disk key bytes) config m.now (key_to_path key)
          m.write_faults bytes (with_ttl ttl) disk.directory (whole disk.operations)
          (λ e i c f at g. inr (sym (injective key i at), written_payload e bytes f c g))
          (λ path x y i c f at g. inl (held disk path x y i c f at g)) (key_to_path j) file found j
          b expiry refl h;
    delete_keeps = λ key disk j b (file, expiry, found, h).
        let m = moment disk.operations in
        delete-Every (HasPayloads disk) m.now (key_to_path key) m.faults disk.directory (held disk)
          (key_to_path j) file found j b expiry refl h;
  }

  -- an empty directory holds nothing
  pub no_payload :
      (n : ℕ) (key : K) (b : Bytes)
      → HoldsPayload
          (record { directory = record { files = []; temp_files = [] }; operations = n })
          key
          b
      → ⊥
  unfolding HoldsPayload OrderedDict.get
  no_payload n key b (file, expiry, found, h) = absurd (ground arith)
