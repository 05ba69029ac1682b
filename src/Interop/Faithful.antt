-- ===== src/Interop/Faithful.antt =====
-- What `_encode` of src/cachekit/interop.py writes for a canonical value is read back by the meaning
-- that MessagePack gives to it.
use cachekit_py.Common.{
  ℕ, zero, suc, ◌+◌, ◌≤◌, Bool, true, false, ◌&&◌, List, [], ◌∷◌, ◌++◌, Option, none, some,
  if◌then◌else◌, ◌≡◌, refl, ap, ◌∙◌, sym, arith, length, Option-cases, inl, inr,
}
use cachekit_py.Common.Int.{ℤ}
use cachekit_py.Keys.{String}
use cachekit_py.Interop.{bad_key, ok}
use cachekit_py.Interop.Bytes.{split_at, split_at-append}
use cachekit_py.Interop.Encode.{
  encode_str_header, encode_bin_header, encode_array_header, encode_map_header, then_bytes,
  encode_bin, encode_utf8,
}
use cachekit_py.Interop.Values.{
  Value, nil_value, boolean, integer, float, str, bin, pre_encoded, array, dict, other_type, Values,
  no_values, value_and, Fields, no_fields, field_and, key_text, leb_key, count, count_fields,
  string_keys, Entry, sort_entries, write_entries, encode, encode_values, encode_fields,
}
use cachekit_py.Interop.Decode.{
  nil_item, boolean_item, float_item, str_item, bin_item, parse_code, parse_item,
}
use cachekit_py.Interop.Meaning.{decode, decode_values, decode_fields}
use cachekit_py.Interop.RoundTrip.{
  parse-encode_int, parse-encode_array, parse-encode_map, parse-encode_str, parse-encode_bin,
}
use cachekit_py.Interop.Canonical.{
  need, need_values, need_fields, is_canonical, canonical_values, canonical_fields, key_below,
  both_parts, guarded, both_true, append_three,
}

module _ {F : Type 0} (is_finite : F → Bool) (as_integer : F → Option ℤ) (pack : F → List ℕ)
    (utf8 : String → Option (List ℕ)) where
  sort_canonical :
      (collapse : Bool) (fs : Fields F)
      → canonical_fields fs ≡ true
      → sort_entries (encode_fields is_finite as_integer pack utf8 collapse fs)
        ≡ encode_fields is_finite as_integer pack utf8 collapse fs
  unfolding encode_fields canonical_fields
  sort_canonical collapse no_fields h = refl
  sort_canonical collapse (field_and k v no_fields) h = refl
  sort_canonical collapse (field_and k v (field_and j w fs)) h =
      let rest = sort_canonical collapse (field_and j w fs) (ground arith) in
      let below : leb_key (key_text k) (key_text j) ≡ true = ground arith in rw rest (rw below refl)

  module _ (unpack : List ℕ → F) (utf8_decode : List ℕ → Option String)
      (unpack-pack : (v : F) → unpack (pack v) ≡ v) (length-pack : (v : F) → length (pack v) ≡ 8)
      (utf8_decode-utf8 : (s : String) (b : List ℕ)
        → utf8 s ≡ some b
        → utf8_decode b ≡ some s) where
    parse-text :
        (s : String) (rest b : List ℕ)
        → encode_utf8 (utf8 s) ≡ ok b
        → (u : List ℕ) × (parse_item (b ++ rest) ≡ some (str_item u, rest))
          × (utf8_decode u ≡ some s)
    parse-text s rest b h = elim (Option-cases (utf8 s)) [
      | inl p ↦ absurd (ground (arith, p))
      | inr (u, p) ↦
          let e : encode_utf8 (some u) ≡ ok b = ap encode_utf8 (sym p) ∙ h in
          let (header, body, e1, e2, e3) = both_parts (encode_str_header (length u)) (ok u) b e in
          let same : body ≡ u = cc e2 in
          (u, rw (e3, same) (parse-encode_str u rest header e1), utf8_decode-utf8 s u p)
    ]

    parse-bytes :
        (s rest b : List ℕ) → encode_bin s ≡ ok b → parse_item (b ++ rest) ≡ some (bin_item s, rest)
    parse-bytes s rest b h =
        let (header, body, e1, e2, e3) = both_parts (encode_bin_header (length s)) (ok s) b h in
        let same : body ≡ s = cc e2 in rw (e3, same) (parse-encode_bin s rest header e1)

    parse-float :
        (v : F) (rest : List ℕ)
        → parse_item ((203 ∷ pack v) ++ rest) ≡ some (float_item (pack v), rest)
    unfolding parse_item parse_code
    parse-float v rest =
        let front : split_at 8 (pack v ++ rest) ≡ some (pack v, rest) =
          ap (λ n. split_at n (pack v ++ rest)) (sym (length-pack v))
          ∙ split_at-append (pack v) rest in
        rw front refl

    need_positive : (v : Value F) → 1 ≤ need v
    unfolding need
    need_positive (array vs) = omega arith
    need_positive (dict fs) = omega arith
    need_positive _ = omega arith

    parse-nil : (rest : List ℕ) → parse_item (192 ∷ rest) ≡ some (nil_item, rest)
    unfolding parse_item parse_code
    parse-nil rest = refl

    parse-boolean :
        (x : Bool) (rest : List ℕ)
        → parse_item ((if x then 195 else 194) ∷ rest) ≡ some (boolean_item x, rest)
    unfolding parse_item parse_code
    parse-boolean true rest = refl
    parse-boolean false rest = refl

    decode-text :
        (s : String) (fuel : ℕ) (rest b : List ℕ)
        → 1 ≤ fuel
        → encode_utf8 (utf8 s) ≡ ok b
        → decode unpack utf8_decode fuel (b ++ rest) ≡ some (str s, rest)
    unfolding decode
    decode-text s zero rest b n h = absurd (omega arith)
    decode-text s (suc fuel) rest b n h = let (u, e, d) = parse-text s rest b h in rw e (rw d refl)

    -- the part of a map's encoding after the test of its keys
    dict_parts :
        (fs : Fields F) (b : List ℕ)
        → canonical_fields fs ≡ true
        → encode is_finite as_integer pack utf8 false (dict fs) ≡ ok b
        → (string_keys fs ≡ true)
          × (then_bytes
                (encode_map_header (count_fields fs))
                (write_entries (encode_fields is_finite as_integer pack utf8 false fs))
              ≡ ok b)
    unfolding encode
    dict_parts fs b c h =
        let entries = encode_fields is_finite as_integer pack utf8 false fs in
        let write = λ (es : List Entry).
          then_bytes (encode_map_header (count_fields fs)) (write_entries es) in
        let (k, e) = guarded (string_keys fs) (write (sort_entries entries)) bad_key b h in
        (k, ap write (sym (sort_canonical false fs c)) ∙ e)

    mutual
      unfolding encode encode_values encode_fields decode decode_values decode_fields need
          need_values need_fields is_canonical canonical_values canonical_fields

      decode-encode :
          (v : Value F) (fuel : ℕ) (rest b : List ℕ)
          → is_canonical v ≡ true
          → need v ≤ fuel
          → encode is_finite as_integer pack utf8 false v ≡ ok b
          → decode unpack utf8_decode fuel (b ++ rest) ≡ some (v, rest)
      decode-encode v zero rest b c n h = absurd (omega (arith, need_positive v))
      decode-encode nil_value (suc fuel) rest b c n h =
          let e : b ≡ 192 ∷ [] = cc h in rw e (rw (parse-nil rest) refl)
      decode-encode (boolean x) (suc fuel) rest b c n h =
          let e : b ≡ (if x then 195 else 194) ∷ [] = cc h in rw e (rw (parse-boolean x rest) refl)
      decode-encode (integer x) (suc fuel) rest b c n h = rw (parse-encode_int x rest b h) refl
      decode-encode (float x) (suc fuel) rest b c n h =
          let e : b ≡ 203 ∷ pack x = ground arith in
          rw e (rw (parse-float x rest) (rw (unpack-pack x) refl))
      decode-encode (str s) (suc fuel) rest b c n h =
          let (u, e, d) = parse-text s rest b h in rw e (rw d refl)
      decode-encode (bin s) (suc fuel) rest b c n h = rw (parse-bytes s rest b h) refl
      decode-encode (pre_encoded es) (suc fuel) rest b c n h = absurd (ground arith)
      decode-encode (array vs) (suc fuel) rest b c n h =
          let (header, body, e1, e2, e3) = both_parts (encode_array_header (count vs)) _ b h in
          let inner = decode_values-encode vs fuel rest body c (omega arith) e2 in
          rw (e3, append_three header body rest)
            (rw (parse-encode_array (count vs) (body ++ rest) header e1) (rw inner refl))
      decode-encode (dict fs) (suc fuel) rest b c n h =
          let (k, e) = dict_parts fs b c h in
          let (header, body, e1, e2, e3) = both_parts (encode_map_header (count_fields fs)) _ b e in
          let inner = decode_fields-encode fs fuel rest body c k (omega arith) e2 in
          rw (e3, append_three header body rest)
            (rw (parse-encode_map (count_fields fs) (body ++ rest) header e1) (rw inner refl))
      decode-encode other_type (suc fuel) rest b c n h = absurd (cc h)

      decode_values-encode :
          (vs : Values F) (fuel : ℕ) (rest b : List ℕ)
          → canonical_values vs ≡ true
          → need_values vs ≤ fuel
          → encode_values is_finite as_integer pack utf8 false vs ≡ ok b
          → decode_values unpack utf8_decode fuel (count vs) (b ++ rest) ≡ some (vs, rest)
      decode_values-encode no_values zero rest b c n h = absurd (omega arith)
      decode_values-encode no_values (suc fuel) rest b c n h = let e : b ≡ [] = cc h in rw e refl
      decode_values-encode (value_and v vs) zero rest b c n h = absurd (omega arith)
      decode_values-encode (value_and v vs) (suc fuel) rest b c n h =
          let (front, back, e1, e2, e3) =
            both_parts (encode is_finite as_integer pack utf8 false v) _ b h in
          let (cv, cs) = both_true (is_canonical v) (canonical_values vs) c in
          let first = decode-encode v fuel (back ++ rest) front cv (omega arith) e1 in
          let others = decode_values-encode vs fuel rest back cs (omega arith) e2 in
          rw (e3, append_three front back rest) (rw first (rw others refl))

      decode_fields-encode :
          (fs : Fields F) (fuel : ℕ) (rest b : List ℕ)
          → canonical_fields fs ≡ true
          → string_keys fs ≡ true
          → need_fields fs ≤ fuel
          → write_entries (encode_fields is_finite as_integer pack utf8 false fs) ≡ ok b
          → decode_fields unpack utf8_decode fuel (count_fields fs) (b ++ rest) ≡ some (fs, rest)
      decode_fields-encode no_fields zero rest b c k n h = absurd (omega arith)
      decode_fields-encode no_fields (suc fuel) rest b c k n h = let e : b ≡ [] = cc h in rw e refl
      decode_fields-encode (field_and j v fs) zero rest b c k n h = absurd (omega arith)
      decode_fields-encode (field_and none v fs) (suc fuel) rest b c k n h = absurd (cc k)
      decode_fields-encode (field_and (some s) v fs) (suc fuel) rest b c k n h =
          let (field, back, e1, e2, e3) =
            both_parts
              (then_bytes (encode_utf8 (utf8 s)) (encode is_finite as_integer pack utf8 false v)) _
              b h in
          let (name, front, f1, f2, f3) = both_parts (encode_utf8 (utf8 s)) _ field e1 in
          let key = decode-text s fuel (front ++ (back ++ rest)) name (omega arith) f1 in
          let (cvk, cs) =
            both_true (is_canonical v && key_below (some s) fs) (canonical_fields fs) c in
          let (cv, _) = both_true (is_canonical v) (key_below (some s) fs) cvk in
          let first = decode-encode v fuel (back ++ rest) front cv (omega arith) f2 in
          let others = decode_fields-encode fs fuel rest back cs k (omega arith) e2 in
          rw
            (e3, f3, append_three (name ++ front) back rest, append_three name front (back ++ rest))
            (rw key (rw first (rw others refl)))

    -- What is written is read back. If `unpack` inverts `struct.pack`, which gives eight bytes, and
    -- `utf8_decode` inverts the UTF-8 encoding, then a canonical value that is encoded without an
    -- error, in the value profile, is what MessagePack says that its bytes mean, whatever bytes follow
    -- them and with fuel for its nodes.
    pub value_round_trip :
        (v : Value F) (fuel : ℕ) (rest b : List ℕ)
        → is_canonical v ≡ true
        → need v ≤ fuel
        → encode is_finite as_integer pack utf8 false v ≡ ok b
        → decode unpack utf8_decode fuel (b ++ rest) ≡ some (v, rest)
    value_round_trip v fuel rest b c n h = decode-encode v fuel rest b c n h

    -- Under the same conditions, two canonical values that start the same bytes are the same value,
    -- and the same bytes follow: no encoding is a part of another at its front.
    pub encoding_unique :
        (v w : Value F) (b d rest more : List ℕ)
        → is_canonical v ≡ true
        → is_canonical w ≡ true
        → encode is_finite as_integer pack utf8 false v ≡ ok b
        → encode is_finite as_integer pack utf8 false w ≡ ok d
        → b ++ rest ≡ d ++ more
        → (v ≡ w) × (rest ≡ more)
    encoding_unique v w b d rest more cv cw hv hw e =
        let fuel = need v + need w in
        let one = value_round_trip v fuel rest b cv (omega arith) hv in
        let two = value_round_trip w fuel more d cw (omega arith) hw in
        let same = sym one ∙ ap (decode unpack utf8_decode fuel) e ∙ two in (cc same, cc same)
