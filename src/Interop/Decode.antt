-- ===== src/Interop/Decode.antt =====
-- What MessagePack says that bytes mean, read off its specification and not off the encoder: the
-- items that src/cachekit/interop.py writes, one at a time. The types that it never writes (the
-- extensions and the 32-bit floats) are left out.
use cachekit_py.Common.{
  ℕ, ◌+◌, ◌-◌, Bool, true, false, List, [], ◌∷◌, Option, none, some, ltb, leb, ◌==◌, if◌then◌else◌,
}
use cachekit_py.Common.Int.{ℤ, pos, negsuc}
use cachekit_py.Interop.Bytes.{from_bytes, split_at}

-- an item: a whole value, or the header of a container with its number of elements
pub data Item : Type 0 where
  nil_item : Item
  boolean_item : Bool → Item
  integer_item : ℤ → Item
  float_item : List ℕ → Item
  str_item : List ℕ → Item
  bin_item : List ℕ → Item
  array_item : ℕ → Item
  map_item : ℕ → Item

abbrev pub Parsed : Type 0
Parsed = Option (Item × List ℕ)

abbrev pub unsigned : ℕ → Item
unsigned n = integer_item (pos n)

-- the two's complement below `half * 2`
abbrev pub signed : ℕ → ℕ → Item
signed half n = integer_item (if ltb n half then pos n else negsuc (half + half - 1 - n))

-- a number of the given width, and what it stands for
abbrev pub finish_number : (ℕ → Item) → Option (List ℕ × List ℕ) → Parsed
finish_number f none = none
finish_number f (some (front, rest)) = some (f (from_bytes front), rest)

abbrev pub number : ℕ → (ℕ → Item) → List ℕ → Parsed
number width f bytes = finish_number f (split_at width bytes)

-- as many bytes as the length says
abbrev pub finish_chunk : (List ℕ → Item) → Option (List ℕ × List ℕ) → Parsed
finish_chunk f none = none
finish_chunk f (some (front, rest)) = some (f front, rest)

abbrev pub after_length : (List ℕ → Item) → Option (List ℕ × List ℕ) → Parsed
after_length f none = none
after_length f (some (front, rest)) = finish_chunk f (split_at (from_bytes front) rest)

abbrev pub chunk : ℕ → (List ℕ → Item) → List ℕ → Parsed
chunk width f bytes = after_length f (split_at width bytes)

-- the items that are told by their first byte being in a range
unfoldable pub parse_ranges : ℕ → List ℕ → Parsed
parse_ranges b rest =
    if leb b 127
    then some (unsigned b, rest)
    else if leb b 143
    then some (map_item (b - 128), rest)
    else if leb b 159
    then some (array_item (b - 144), rest)
    else if leb b 191
    then finish_chunk str_item (split_at (b - 160) rest)
    else if leb 224 b
    then some (integer_item (negsuc (255 - b)), rest)
    else none

-- the items that are told by their first byte alone
unfoldable pub parse_code : ℕ → List ℕ → Parsed
unfolding parse_ranges
parse_code b rest =
    if b == 192
    then some (nil_item, rest)
    else if b == 194
    then some (boolean_item false, rest)
    else if b == 195
    then some (boolean_item true, rest)
    else if b == 196
    then chunk 1 bin_item rest
    else if b == 197
    then chunk 2 bin_item rest
    else if b == 198
    then chunk 4 bin_item rest
    else if b == 203
    then finish_chunk float_item (split_at 8 rest)
    else if b == 204
    then number 1 unsigned rest
    else if b == 205
    then number 2 unsigned rest
    else if b == 206
    then number 4 unsigned rest
    else if b == 207
    then number 8 unsigned rest
    else if b == 208
    then number 1 (signed 128) rest
    else if b == 209
    then number 2 (signed 32768) rest
    else if b == 210
    then number 4 (signed 2147483648) rest
    else if b == 211
    then number 8 (signed 9223372036854775808) rest
    else if b == 217
    then chunk 1 str_item rest
    else if b == 218
    then chunk 2 str_item rest
    else if b == 219
    then chunk 4 str_item rest
    else if b == 220
    then number 2 array_item rest
    else if b == 221
    then number 4 array_item rest
    else if b == 222
    then number 2 map_item rest
    else if b == 223
    then number 4 map_item rest
    else parse_ranges b rest

unfoldable pub parse_item : List ℕ → Parsed
parse_item [] = none
parse_item (b ∷ rest) = parse_code b rest
