-- ===== src/Interop/Meaning.antt =====
-- What MessagePack says that the bytes of a whole value mean, item by item, for the values that
-- src/cachekit/interop.py writes. The fuel bounds the nesting and the number of elements.
use cachekit_py.Common.{ℕ, zero, suc, List, Option, none, some}
use cachekit_py.Keys.{String}
use cachekit_py.Interop.Values.{
  Value, nil_value, boolean, integer, float, str, bin, array, dict, Values, no_values, value_and,
  Fields, no_fields, field_and,
}
use cachekit_py.Interop.Decode.{
  nil_item, boolean_item, integer_item, float_item, str_item, bin_item, array_item, map_item,
  Parsed, parse_item,
}

module _ {F : Type 0} (unpack : List ℕ → F) (utf8_decode : List ℕ → Option String) where
  abbrev pub of_text : Option String → List ℕ → Option (Value F × List ℕ)
  of_text none rest = none
  of_text (some s) rest = some (str s, rest)

  abbrev pub of_values : Option (Values F × List ℕ) → Option (Value F × List ℕ)
  of_values none = none
  of_values (some (vs, rest)) = some (array vs, rest)

  abbrev pub of_fields : Option (Fields F × List ℕ) → Option (Value F × List ℕ)
  of_fields none = none
  of_fields (some (fs, rest)) = some (dict fs, rest)

  -- a value from its first item and from what reads the elements of a container
  abbrev pub of_item :
      (ℕ → List ℕ → Option (Values F × List ℕ))
      → (ℕ → List ℕ → Option (Fields F × List ℕ))
      → Parsed
      → Option (Value F × List ℕ)
  of_item values fields none = none
  of_item values fields (some (nil_item, rest)) = some (nil_value, rest)
  of_item values fields (some (boolean_item b, rest)) = some (boolean b, rest)
  of_item values fields (some (integer_item n, rest)) = some (integer n, rest)
  of_item values fields (some (float_item b, rest)) = some (float (unpack b), rest)
  of_item values fields (some (str_item b, rest)) = of_text (utf8_decode b) rest
  of_item values fields (some (bin_item b, rest)) = some (bin b, rest)
  of_item values fields (some (array_item n, rest)) = of_values (values n rest)
  of_item values fields (some (map_item n, rest)) = of_fields (fields n rest)

  abbrev pub more_values : Value F → Option (Values F × List ℕ) → Option (Values F × List ℕ)
  more_values v none = none
  more_values v (some (vs, rest)) = some (value_and v vs, rest)

  abbrev pub and_values :
      (List ℕ → Option (Values F × List ℕ)) → Option (Value F × List ℕ) → Option (Values F × List ℕ)
  and_values values none = none
  and_values values (some (v, rest)) = more_values v (values rest)

  abbrev pub more_fields :
      Value F → Value F → Option (Fields F × List ℕ) → Option (Fields F × List ℕ)
  more_fields (str s) v (some (fs, rest)) = some (field_and (some s) v fs, rest)
  more_fields k v fs = none

  abbrev pub and_fields :
      Value F
      → (List ℕ → Option (Fields F × List ℕ))
      → Option (Value F × List ℕ)
      → Option (Fields F × List ℕ)
  and_fields k fields none = none
  and_fields k fields (some (v, rest)) = more_fields k v (fields rest)

  abbrev pub and_value :
      (List ℕ → Option (Value F × List ℕ))
      → (List ℕ → Option (Fields F × List ℕ))
      → Option (Value F × List ℕ)
      → Option (Fields F × List ℕ)
  and_value value fields none = none
  and_value value fields (some (k, rest)) = and_fields k fields (value rest)

  unfoldable mutual
    pub decode : ℕ → List ℕ → Option (Value F × List ℕ)
    decode zero bytes = none
    decode (suc fuel) bytes = of_item (decode_values fuel) (decode_fields fuel) (parse_item bytes)

    pub decode_values : ℕ → ℕ → List ℕ → Option (Values F × List ℕ)
    decode_values zero n bytes = none
    decode_values (suc fuel) zero bytes = some (no_values, bytes)
    decode_values (suc fuel) (suc n) bytes = and_values (decode_values fuel n) (decode fuel bytes)

    pub decode_fields : ℕ → ℕ → List ℕ → Option (Fields F × List ℕ)
    decode_fields zero n bytes = none
    decode_fields (suc fuel) zero bytes = some (no_fields, bytes)
    decode_fields (suc fuel) (suc n) bytes =
        and_value (decode fuel) (decode_fields fuel n) (decode fuel bytes)
