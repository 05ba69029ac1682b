-- ===== src/Interop/Values.antt =====
-- `_encode` of src/cachekit/interop.py: whole values, with their containers. `F` stands for the floats,
-- `is_finite` for the tests against NaN and the infinities, `as_integer` for the value of an integral
-- float, `pack` for `struct.pack(">d", v)`, and `utf8` for the UTF-8 encoding, none for a string with
-- a lone surrogate.
use cachekit_py.Common.{
  ℕ, suc, Bool, true, false, ◌&&◌, ◌||◌, ◌==◌, List, [], ◌∷◌, ◌++◌, Option, none, some, ltb, length,
  if◌then◌else◌,
}
use cachekit_py.Common.Int.{ℤ, pos, negsuc}
use cachekit_py.Keys.{String}
use cachekit_py.Interop.{Result, ok, raise, bad_type, bad_key, bad_float}
use cachekit_py.Interop.Encode.{
  encode_int, encode_array_header, encode_map_header, then_bytes, encode_bin, encode_utf8,
}

-- What the encoder looks at: the objects of Python, `F` for the floats. A key of a dictionary is a
-- string, or none for another object.
mutual
  pub data Value (F : Type 0) : Type 0 where
    nil_value : Value F
    boolean : Bool → Value F
    integer : ℤ → Value F
    float : F → Value F
    str : String → Value F
    bin : List ℕ → Value F
    pre_encoded : List (List ℕ) → Value F
    array : Values F → Value F
    dict : Fields F → Value F
    other_type : Value F

  pub data Values (F : Type 0) : Type 0 where
    no_values : Values F
    value_and : Value F → Values F → Values F

  pub data Fields (F : Type 0) : Type 0 where
    no_fields : Fields F
    field_and : Option String → Value F → Fields F → Fields F

abbrev pub join_all : List (List ℕ) → List ℕ
join_all [] = []
join_all (b ∷ bytes) = b ++ join_all bytes

abbrev pub is_string : Option String → Bool
is_string none = false
is_string (some s) = true

abbrev pub key_text : Option String → String
key_text none = []
key_text (some s) = s

module _ {F : Type 0} where
  abbrev pub count : Values F → ℕ
  count no_values = 0
  count (value_and v vs) = suc (count vs)

  abbrev pub count_fields : Fields F → ℕ
  count_fields no_fields = 0
  count_fields (field_and k v fs) = suc (count_fields fs)

  abbrev pub string_keys : Fields F → Bool
  string_keys no_fields = true
  string_keys (field_and k v fs) = is_string k && string_keys fs

-- the order of Python's strings, by code points
abbrev pub leb_key : String → String → Bool
leb_key [] t = true
leb_key (c ∷ s) [] = false
leb_key (c ∷ s) (d ∷ t) = ltb c d || c == d && leb_key s t

-- a key of a map and what is written for its field
abbrev pub Entry : Type 0
Entry = String × Result (List ℕ)

abbrev pub insert_entry : Entry → List Entry → List Entry
insert_entry e [] = e ∷ []
insert_entry e (f ∷ es) =
    let rest = insert_entry e es in if leb_key e.0 f.0 then e ∷ f ∷ es else f ∷ rest

-- `sorted`
abbrev pub sort_entries : List Entry → List Entry
sort_entries [] = []
sort_entries (e ∷ es) = insert_entry e (sort_entries es)

-- what is written for the entries, in their order
abbrev pub write_entries : List Entry → Result (List ℕ)
write_entries [] = ok []
write_entries (e ∷ es) = then_bytes e.1 (write_entries es)

-- the range of the integers, which the floats that become one are tested for
abbrev pub in_range : ℤ → Bool
in_range (pos n) = ltb n 18446744073709551616
in_range (negsuc m) = ltb m 9223372036854775808

module _ {F : Type 0} (is_finite : F → Bool) (as_integer : F → Option ℤ) (pack : F → List ℕ)
    (utf8 : String → Option (List ℕ)) where
  abbrev pub collapse_float : F → Option ℤ → Result (List ℕ)
  collapse_float v none = ok (203 ∷ pack v)
  collapse_float v (some n) = if in_range n then encode_int n else ok (203 ∷ pack v)

  abbrev pub encode_float : Bool → F → Result (List ℕ)
  encode_float collapse v =
      if is_finite v
      then if collapse then collapse_float v (as_integer v) else ok (203 ∷ pack v)
      else raise bad_float

  abbrev pub encode_key : Option String → Result (List ℕ)
  encode_key none = raise bad_key
  encode_key (some s) = encode_utf8 (utf8 s)

  unfoldable mutual
    pub encode : Bool → Value F → Result (List ℕ)
    encode collapse nil_value = ok (192 ∷ [])
    encode collapse (boolean b) = ok ((if b then 195 else 194) ∷ [])
    encode collapse (integer n) = encode_int n
    encode collapse (float v) = encode_float collapse v
    encode collapse (str s) = encode_utf8 (utf8 s)
    encode collapse (bin b) = encode_bin b
    encode collapse (pre_encoded elements) =
        then_bytes (encode_array_header (length elements)) (ok (join_all elements))
    encode collapse (array vs) =
        then_bytes (encode_array_header (count vs)) (encode_values collapse vs)
    encode collapse (dict fs) =
        let entries = encode_fields collapse fs in
        if string_keys fs
        then then_bytes (encode_map_header (count_fields fs)) (write_entries (sort_entries entries))
        else raise bad_key
    encode collapse other_type = raise bad_type

    pub encode_values : Bool → Values F → Result (List ℕ)
    encode_values collapse no_values = ok []
    encode_values collapse (value_and v vs) =
        then_bytes (encode collapse v) (encode_values collapse vs)

    pub encode_fields : Bool → Fields F → List Entry
    encode_fields collapse no_fields = []
    encode_fields collapse (field_and k v fs) =
        (key_text k, then_bytes (encode_key k) (encode collapse v)) ∷ encode_fields collapse fs
