-- ===== src/Interop/Encode.antt =====
-- The canonical MessagePack encoder of src/cachekit/interop.py, one function for both profiles. The
-- UTF-8 encoding and the floats are parameters.
use cachekit_py.Common.{
  ℕ, ◌+◌, ◌-◌, List, [], ◌∷◌, ◌++◌, Option, none, some, ltb, leb, length, if◌then◌else◌,
}
use cachekit_py.Common.Int.{ℤ, pos, negsuc}
use cachekit_py.Interop.{Result, ok, raise, out_of_range, ill_formed, overflow_error}
use cachekit_py.Interop.Bytes.{to_bytes}

-- `_encode_int`. `negsuc m` is -(m + 1), and a signed byte string is the two's complement.
unfoldable pub encode_int : ℤ → Result (List ℕ)
encode_int (pos n) =
    if ltb 18446744073709551615 n
    then raise out_of_range
    else if leb n 127
    then ok (n ∷ [])
    else if leb n 255
    then ok (204 ∷ to_bytes 1 n)
    else if leb n 65535
    then ok (205 ∷ to_bytes 2 n)
    else if leb n 4294967295
    then ok (206 ∷ to_bytes 4 n)
    else ok (207 ∷ to_bytes 8 n)
encode_int (negsuc m) =
    if ltb 9223372036854775807 m
    then raise out_of_range
    else if leb m 31
    then ok ((255 - m) ∷ [])
    else if leb m 127
    then ok (208 ∷ to_bytes 1 (255 - m))
    else if leb m 32767
    then ok (209 ∷ to_bytes 2 (65535 - m))
    else if leb m 2147483647
    then ok (210 ∷ to_bytes 4 (4294967295 - m))
    else ok (211 ∷ to_bytes 8 (18446744073709551615 - m))

-- a length in four bytes: a longer one makes `to_bytes` raise an `OverflowError`
abbrev pub four_byte_length : ℕ → ℕ → Result (List ℕ)
four_byte_length code n =
    if leb n 4294967295 then ok (code ∷ to_bytes 4 n) else raise overflow_error

-- the header that `_encode_str` writes before the bytes
unfoldable pub encode_str_header : ℕ → Result (List ℕ)
encode_str_header n =
    if leb n 31
    then ok ((160 + n) ∷ [])
    else if leb n 255
    then ok (217 ∷ to_bytes 1 n)
    else if leb n 65535
    then ok (218 ∷ to_bytes 2 n)
    else four_byte_length 219 n

unfoldable pub encode_bin_header : ℕ → Result (List ℕ)
encode_bin_header n =
    if leb n 255
    then ok (196 ∷ to_bytes 1 n)
    else if leb n 65535
    then ok (197 ∷ to_bytes 2 n)
    else four_byte_length 198 n

-- `_encode_array_header`
unfoldable pub encode_array_header : ℕ → Result (List ℕ)
encode_array_header n =
    if leb n 15
    then ok ((144 + n) ∷ [])
    else if leb n 65535
    then ok (220 ∷ to_bytes 2 n)
    else four_byte_length 221 n

-- `_encode_map_header`
unfoldable pub encode_map_header : ℕ → Result (List ℕ)
encode_map_header n =
    if leb n 15
    then ok ((128 + n) ∷ [])
    else if leb n 65535
    then ok (222 ∷ to_bytes 2 n)
    else four_byte_length 223 n

-- bytes after bytes, where both were made
abbrev pub then_bytes : Result (List ℕ) → Result (List ℕ) → Result (List ℕ)
then_bytes (raise e) rest = raise e
then_bytes (ok front) (raise e) = raise e
then_bytes (ok front) (ok rest) = ok (front ++ rest)

abbrev pub with_header : (ℕ → Result (List ℕ)) → List ℕ → Result (List ℕ)
with_header header bytes = then_bytes (header (length bytes)) (ok bytes)

-- `_encode_bin`
abbrev pub encode_bin : List ℕ → Result (List ℕ)
encode_bin bytes = with_header encode_bin_header bytes

abbrev pub encode_utf8 : Option (List ℕ) → Result (List ℕ)
encode_utf8 none = raise ill_formed
encode_utf8 (some bytes) = with_header encode_str_header bytes
