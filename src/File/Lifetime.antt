-- ===== src/File/Lifetime.antt =====
-- src/cachekit/backends/file/backend.py: how long an entry that was set or refreshed can be read, while no
-- system call fails.
use cachekit_py.Common.{
  ℕ, ◌*◌, ◌<◌, true, false, ◌&&◌, [], ◌∷◌, ◌++◌, Option, none, some, leb, ◌==◌, ◌≡◌, refl, ap,
  arith, inl, inr, Bool-cases,
}
use cachekit_py.Common.Int.{ℤ}
use cachekit_py.OrderedDict
use cachekit_py.OrderedDict.{OrderedDict}
use cachekit_py.OrderedDict.Laws.{get-set, get-pop}
use cachekit_py.Interop.Bytes.{to_bytes, from_bytes}
use cachekit_py.Handler.{Bytes}
use cachekit_py.Handler.Backend.{done}
use cachekit_py.File.{second, File, Directory, safe_unlink}
use cachekit_py.File.Header.{
  build_header, read_header, expiry_from_ttl, expiry_round_trip, is_expired,
}
use cachekit_py.File.Reads.{Faults, with_file, get, get_ttl, rewrite_expiry, refresh_ttl}
use cachekit_py.File.Writes.{WriteFaults, complete, set}

-- every system call works
abbrev pub no_faults : Faults
no_faults = record {
  on_open = none;
  on_lock = none;
  on_read = none;
  on_write = none;
  on_fsync = none;
  unlink_fails = false;
}

abbrev pub no_write_faults : {P : Type 0} → WriteFaults P
no_write_faults = record {
  on_open = none;
  on_lock = none;
  on_write = none;
  written = none;
  temp_unlink_fails = false;
  unlink_fails = λ path. false;
  exists_fails = false;
  count_listing = complete;
  size_listing = complete;
  evict_listing = complete;
}

module _ {P : Type 0} (dec : Discrete P) (path : P) where
  -- the expiry in place of the old one
  rewritten :
      (expiry : ℕ) (payload content : Bytes) (old : ℕ) (now : ℕ)
      → read_header content ≡ some (old, payload)
      → read_header (rewrite_expiry dec now path no_faults expiry payload content)
        ≡ some (from_bytes (to_bytes 8 expiry), payload)
  unfolding read_header
  rewritten expiry payload (a ∷ b ∷ c ∷ d ∷ e ∷ f ∷ rest) old now h =
      elim (Bool-cases (a == 67 && b == 75 && c == 1)) [
        | inl q ↦ rw q refl
        | inr q ↦ absurd (ground arith)
      ]
  rewritten expiry payload [] old now h = absurd (ground arith)
  rewritten expiry payload (a ∷ []) old now h = absurd (ground arith)
  rewritten expiry payload (a ∷ b ∷ []) old now h = absurd (ground arith)
  rewritten expiry payload (a ∷ b ∷ c ∷ []) old now h = absurd (ground arith)
  rewritten expiry payload (a ∷ b ∷ c ∷ d ∷ []) old now h = absurd (ground arith)
  rewritten expiry payload (a ∷ b ∷ c ∷ d ∷ e ∷ []) old now h = absurd (ground arith)

  get_live :
      (later : ℕ) (file : File) (expiry : ℕ) (payload : Bytes) (dir : Directory P)
      → OrderedDict.get dec path dir.files ≡ some file
      → read_header file.content ≡ some (expiry, payload)
      → is_expired later expiry ≡ false
      → get dec later path no_faults dir ≡ (dir, done (some payload))
  unfolding get with_file
  get_live later file expiry payload dir found h live = rw (found, h, live) refl

  written_get :
      (file : File) (d : OrderedDict P File)
      → OrderedDict.get dec path (OrderedDict.set dec path file d) ≡ some file
  written_get file d = ground (arith, get-set dec path path file d)

  -- While no system call fails: `refresh_ttl` of a live entry answers True, and from then on, up to the
  -- new expiry, `get` finds the payload that the entry had, byte for byte.
  pub refresh_ttl-get :
      (asked_at now later expiry old : ℕ) (ttl : Option ℤ) (file : File) (payload : Bytes)
      (dir : Directory P)
      → OrderedDict.get dec path dir.files ≡ some file
      → read_header file.content ≡ some (old, payload)
      → is_expired now old ≡ false
      → expiry_from_ttl asked_at ttl ≡ some expiry
      → expiry < 18446744073709551616
      → is_expired later expiry ≡ false
      → ((refresh_ttl dec now path no_faults asked_at ttl dir).1 ≡ done true)
        × ((get dec later path no_faults (refresh_ttl dec now path no_faults asked_at ttl dir).0).1
            ≡ done (some payload))
  unfolding refresh_ttl with_file
  refresh_ttl-get asked_at now later expiry old ttl file payload dir found h live new small until =
      let file' : File = record {
        content = rewrite_expiry dec now path no_faults expiry payload file.content;
        mtime = now;
      } in
      let dir' : Directory P = record dir { files = OrderedDict.set dec path file' dir.files } in
      let back = expiry_round_trip expiry small in
      let fresh = rewritten expiry payload file.content old now h in
      rw (new, found, h, live)
        (
          refl,
          ap (λ p. p.1)
              (get_live later file' (from_bytes (to_bytes 8 expiry)) payload dir'
                (written_get file' dir.files) fresh (rw back until)),
        )

  -- While no system call fails: at the very instant of its expiry `get` still finds an entry, and `get_ttl`
  -- removes it and reports none.
  pub expiry_instant :
      (expiry : ℕ) (file : File) (payload : Bytes) (dir : Directory P)
      → OrderedDict.get dec path dir.files ≡ some file
      → read_header file.content ≡ some (expiry, payload)
      → 0 < expiry
      → (get dec (expiry * second) path no_faults dir ≡ (dir, done (some payload)))
        × ((get_ttl dec (expiry * second) path no_faults dir).1 ≡ done none)
        × (OrderedDict.get dec path (get_ttl dec (expiry * second) path no_faults dir).0.files
            ≡ none)
  unfolding get_ttl with_file safe_unlink
  expiry_instant expiry file payload dir found h live =
      let at : is_expired (expiry * second) expiry ≡ false = ground arith in
      let positive : expiry == 0 ≡ false = ground arith in
      let past : leb (expiry * second) (expiry * second) ≡ true = ground arith in
      (
        get_live (expiry * second) file expiry payload dir found h at,
        rw (found, h, positive, past) refl,
        rw (found, h, positive, past) (ground (arith, get-pop dec path path dir.files)),
      )

  -- the file of a `set`, and the files with it
  abbrev pub new_file : ℕ → ℕ → Bytes → File
  new_file now expiry value = record { content = build_header expiry ++ value; mtime = now }

  abbrev pub with_new : ℕ → ℕ → Bytes → Directory P → OrderedDict P File
  with_new now expiry value dir = OrderedDict.set dec path (new_file now expiry value) dir.files
