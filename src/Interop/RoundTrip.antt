-- ===== src/Interop/RoundTrip.antt =====
-- The items that the encoder of src/cachekit/interop.py writes mean what they were made from.
use cachekit_py.Common.{
  ℕ, ◌+◌, ◌-◌, ◌≤◌, true, false, List, [], ◌∷◌, ◌++◌, some, leb, ◌≡◌, refl, ap, ◌∙◌, arith, length,
  Bool-cases, inl, inr,
}
use cachekit_py.Common.Int.{ℤ, pos, negsuc}
use cachekit_py.Interop.{ok}
use cachekit_py.Interop.Bytes.{to_bytes, split_at, split_at-append}
use cachekit_py.Interop.Encode.{
  encode_int, encode_str_header, encode_bin_header, encode_array_header, encode_map_header,
}
use cachekit_py.Interop.Decode.{
  integer_item, str_item, bin_item, array_item, map_item, finish_chunk, parse_ranges, parse_code,
  parse_item,
}

pub parse-encode_int :
    (z : ℤ) (rest b : List ℕ)
    → encode_int z ≡ ok b
    → parse_item (b ++ rest) ≡ some (integer_item z, rest)
unfolding encode_int parse_item parse_code parse_ranges
parse-encode_int (pos n) rest b h = ground arith
parse-encode_int (negsuc m) rest b h = ground arith

pub parse-encode_array :
    (n : ℕ) (rest b : List ℕ)
    → encode_array_header n ≡ ok b
    → parse_item (b ++ rest) ≡ some (array_item n, rest)
unfolding encode_array_header parse_item parse_code parse_ranges
parse-encode_array n rest b h = ground arith

pub parse-encode_map :
    (n : ℕ) (rest b : List ℕ)
    → encode_map_header n ≡ ok b
    → parse_item (b ++ rest) ≡ some (map_item n, rest)
unfolding encode_map_header parse_item parse_code parse_ranges
parse-encode_map n rest b h = ground arith

fixstr_ranges :
    (n : ℕ) (bytes : List ℕ)
    → n ≤ 31
    → parse_item ((160 + n) ∷ bytes) ≡ parse_ranges (160 + n) bytes
unfolding parse_item parse_code
fixstr_ranges n bytes h = ground arith

parse_ranges-fixstr :
    (n : ℕ) (bytes : List ℕ)
    → n ≤ 31
    → parse_ranges (160 + n) bytes ≡ finish_chunk str_item (split_at n bytes)
unfolding parse_ranges
parse_ranges-fixstr n bytes h =
    let e : 160 + n - 160 ≡ n = omega arith in
    let low : leb (160 + n) 127 ≡ false = ground arith in
    let above_map : leb (160 + n) 143 ≡ false = ground arith in
    let above_array : leb (160 + n) 159 ≡ false = ground arith in
    let fits : leb (160 + n) 191 ≡ true = ground arith in
    rw (low, above_map, above_array, fits, e) refl

pub parse-encode_str :
    (s rest b : List ℕ)
    → encode_str_header (length s) ≡ ok b
    → parse_item (b ++ s ++ rest) ≡ some (str_item s, rest)
unfolding encode_str_header parse_item parse_code parse_ranges
parse-encode_str s rest b h = elim (Bool-cases (leb (length s) 31)) [
  | inl p ↦
      let e : b ≡ (160 + length s) ∷ [] = ground arith in
      let m : length s ≤ 31 = ground arith in
      rw e (
        fixstr_ranges (length s) (s ++ rest) m
        ∙ parse_ranges-fixstr (length s) (s ++ rest) m
        ∙ ap (finish_chunk str_item) (split_at-append s rest))
  | inr p ↦ elim (Bool-cases (leb (length s) 65535)) [
    | inl q ↦ ground (arith, split_at-append s rest)
    | inr q ↦
        let e : b ≡ 219 ∷ to_bytes 4 (length s) = ground arith in
        rw e (ground (arith, split_at-append s rest))
  ]
]

pub parse-encode_bin :
    (s rest b : List ℕ)
    → encode_bin_header (length s) ≡ ok b
    → parse_item (b ++ s ++ rest) ≡ some (bin_item s, rest)
unfolding encode_bin_header parse_item parse_code parse_ranges
parse-encode_bin s rest b h = ground (arith, split_at-append s rest)
