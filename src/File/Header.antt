-- ===== src/File/Header.antt =====
-- src/cachekit/backends/file/backend.py: the 14 bytes in front of an entry, and the expiry in them.
use cachekit_py.Common.{
  ℕ, zero, suc, ◌+◌, ◌*◌, ◌/◌, ◌<◌, Bool, ◌&&◌, ◌∷◌, ◌++◌, Option, none, some, ltb, ◌==◌,
  if◌then◌else◌, ◌≡◌, refl, arith,
}
use cachekit_py.Common.Int.{ℤ, pos, negsuc}
use cachekit_py.Interop.Bytes.{to_bytes, from_bytes, split_at}
use cachekit_py.Handler.{Bytes}
use cachekit_py.File.{second}

-- ten years
abbrev pub max_ttl_seconds : ℕ
max_ttl_seconds = 10 * 365 * 24 * 60 * 60

-- `_expiry_from_ttl` at the clock `now`, 0 for never; none where it raises
unfoldable pub expiry_from_ttl : ℕ → Option ℤ → Option ℕ
expiry_from_ttl now none = some 0
expiry_from_ttl now (some (negsuc n)) = none
expiry_from_ttl now (some (pos zero)) = some 0
expiry_from_ttl now (some (pos (suc n))) =
    if ltb max_ttl_seconds (suc n) then none else some (now / second + suc n)

-- `_build_header`: magic bytes `CK`, version, reserved byte, flags, expiry
unfoldable pub build_header : ℕ → Bytes
build_header expiry = 67 ∷ 75 ∷ 1 ∷ 0 ∷ 0 ∷ 0 ∷ to_bytes 8 expiry

abbrev pub with_expiry : Option (Bytes × Bytes) → Option (ℕ × Bytes)
with_expiry none = none
with_expiry (some (stamp, payload)) = some (from_bytes stamp, payload)

-- the expiry and the payload of an entry, where the header is valid
unfoldable pub read_header : Bytes → Option (ℕ × Bytes)
read_header (first ∷ second ∷ version ∷ reserved ∷ high ∷ low ∷ rest) =
    if first == 67 && second == 75 && version == 1 then with_expiry (split_at 8 rest) else none
read_header _ = none

-- whatever the expiry, the payload comes back
pub read-build :
    (expiry : ℕ) (payload : Bytes)
    → read_header (build_header expiry ++ payload) ≡ some (from_bytes (to_bytes 8 expiry), payload)
unfolding read_header build_header
read-build expiry payload = refl

-- the expiry comes back if it fits eight bytes
pub expiry_round_trip :
    (expiry : ℕ) → expiry < 18446744073709551616 → from_bytes (to_bytes 8 expiry) ≡ expiry
expiry_round_trip expiry h = omega arith

-- `expiry_timestamp > 0 and time.time() > expiry_timestamp`
abbrev pub is_expired : ℕ → ℕ → Bool
is_expired now expiry = ltb 0 expiry && ltb (expiry * second) now
