-- ===== src/File/Expiry.antt =====
-- src/cachekit/backends/file/backend.py: reads of an entry before and after its expiry.
use cachekit_py.Common.{
  ℕ, Bool, false, Option, none, some, is_some, ◌≡◌, refl, arith, inl, inr, Bool-cases,
}
use cachekit_py.OrderedDict
use cachekit_py.OrderedDict.{OrderedDict}
use cachekit_py.Handler.{Bytes}
use cachekit_py.Handler.Backend.{Reply, done, fails}
use cachekit_py.File.{Errno, File, Directory, on_os_error, on_lock_error}
use cachekit_py.File.Header.{read_header, is_expired}
use cachekit_py.File.Reads.{Faults, after_open, with_file, get_entry, get, exists_entry, exists}

-- `exists` as it follows from `get`
abbrev pub found_reply : {A : Type 0} → Reply (Option A) → Reply Bool
found_reply (fails e) = fails e
found_reply (done r) = done (is_some r)

module _ {P : Type 0} (dec : Discrete P) (now : ℕ) (path : P) (faults : Faults) where
  Agrees : Directory P × Reply Bool → Directory P × Reply (Option Bytes) → Type 0
  Agrees p q = (p.0 ≡ q.0) × (p.1 ≡ found_reply q.1)

  entry-Agrees :
      (r : Option (ℕ × Bytes)) (dir : Directory P)
      → Agrees (exists_entry dec now path faults r dir) (get_entry dec now path faults r dir)
  unfolding Agrees
  entry-Agrees none dir = (refl, refl)
  entry-Agrees (some (expiry, payload)) dir = elim (Bool-cases (is_expired now expiry)) [
    | inl q ↦ rw q (refl, refl)
    | inr q ↦ rw q (refl, refl)
  ]

  os_error-agrees : (e : Errno) → on_os_error false e ≡ found_reply {A = Bytes} (on_os_error none e)
  unfolding on_os_error
  os_error-agrees e = ground arith

  lock_error-agrees :
      (e : Errno) → on_lock_error false e ≡ found_reply {A = Bytes} (on_lock_error none e)
  unfolding on_lock_error on_os_error
  lock_error-agrees e = ground arith

  opened-Agrees :
      (o l r : Option Errno) (found : Option File) (dir : Directory P)
      → Agrees
          (after_open dec now path faults false
            (λ file. exists_entry dec now path faults (read_header file.content))
            o
            l
            r
            found
            dir)
          (after_open dec now path faults none
            (λ file. get_entry dec now path faults (read_header file.content))
            o
            l
            r
            found
            dir)
  unfolding Agrees
  opened-Agrees (some e) l r found dir = (refl, os_error-agrees e)
  opened-Agrees none l r none dir = (refl, refl)
  opened-Agrees none (some e) r (some file) dir = (refl, lock_error-agrees e)
  opened-Agrees none none (some e) (some file) dir = (refl, os_error-agrees e)
  opened-Agrees none none none (some file) dir = entry-Agrees (read_header file.content) dir

  -- At the same clock and with the same system calls failing, `exists` says whether `get` finds a value,
  -- raises when `get` raises and the same error, and leaves the same directory.
  pub exists-get :
      (dir : Directory P)
      → ((exists dec now path faults dir).0 ≡ (get dec now path faults dir).0)
        × ((exists dec now path faults dir).1 ≡ found_reply (get dec now path faults dir).1)
  unfolding exists get with_file Agrees
  exists-get dir =
      opened-Agrees faults.on_open faults.on_lock faults.on_read
        (OrderedDict.get dec path dir.files) dir
