-- ===== src/Interop/Bytes.antt =====
-- Big-endian byte strings, for src/cachekit/interop.py: `int.to_bytes(n, "big")`, its inverse, and
-- the bytes at the front of a string.
use cachekit_py.Common.{
  ℕ, zero, suc, ◌+◌, ◌*◌, ◌/◌, ◌%◌, ◌^◌, List, [], ◌∷◌, ◌++◌, length, ◌≡◌, refl, Option, none, some,
}

-- `n.to_bytes(width, "big")`
abbrev pub to_bytes : ℕ → ℕ → List ℕ
to_bytes zero n = []
to_bytes (suc width) n = n / 256 ^ width % 256 ∷ to_bytes width n

-- the number that bytes stand for, the most significant byte first
abbrev pub from_bytes : List ℕ → ℕ
from_bytes [] = 0
from_bytes (b ∷ bytes) = b * 256 ^ length bytes + from_bytes bytes

abbrev pub prepend : ℕ → Option (List ℕ × List ℕ) → Option (List ℕ × List ℕ)
prepend b none = none
prepend b (some (front, rest)) = some (b ∷ front, rest)

-- the first `n` bytes and the others, if there are so many
abbrev pub split_at : ℕ → List ℕ → Option (List ℕ × List ℕ)
split_at zero bytes = some ([], bytes)
split_at (suc n) [] = none
split_at (suc n) (b ∷ bytes) = prepend b (split_at n bytes)

pub split_at-append :
    (front rest : List ℕ) → split_at (length front) (front ++ rest) ≡ some (front, rest)
split_at-append [] rest = refl
split_at-append (b ∷ front) rest = rw (split_at-append front rest) refl
