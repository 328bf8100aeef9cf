-- ===== src/Redisdb/Serialize/Strings.antt =====
-- StringsMetaValue and ParsedStringsMetaValue of redisdb/db/serialize.h: a string with its expiry
-- time behind it.

use cpp_swiss_army_knife.Common.{
  ℕ, ◌+◌, ◌-◌, ◌^◌, ◌<◌, ◌≡◌, refl, ap, sym, ◌∙◌, Bool, true, List, [], ◌++◌, ltb, if◌then◌else◌,
  length, take, drop, store_at, store_at_middle, append-nil, length-append, take-length, arith,
}
use cpp_swiss_army_knife.Redisdb.Coding.{ByteOrder, encode_fixed32, decode_fixed32}
use cpp_swiss_army_knife.Redisdb.Coding.Fixed.{length-encode_fixed32, decode_fixed32_at}
use cpp_swiss_army_knife.Redisdb.Serialize.Clock.{relative_timestamp}

-- The version field of both classes is never written.
pub record StringsMetaValue : Type 0 where
  pub value : List ℕ
  pub timestamp : ℕ

unfoldable pub new_strings : List ℕ → StringsMetaValue
new_strings value = record { value = value; timestamp = 0 }

-- ParsedStringsMetaValue: `writable` tells whether a std::string* stands behind it, `str` is that
-- string, and `uservalue` is a view of the first `user_size` bytes.
pub record ParsedStrings : Type 0 where
  pub writable : Bool
  pub str : List ℕ
  pub user_size : ℕ
  pub timestamp : ℕ

abbrev pub strings_suffix : ℕ
strings_suffix = 4

module _ (host : ByteOrder) where
  -- Encode and AppendTimestampAndVersion: the version is left out.
  unfoldable pub encode_strings : StringsMetaValue → List ℕ
  encode_strings m = m.value ++ encode_fixed32 host m.timestamp

  -- The two constructors.
  unfoldable pub parse_strings : Bool → List ℕ → ParsedStrings
  parse_strings writable str =
      let n = length str in
      if ltb n strings_suffix
      then record { writable = writable; str = str; user_size = 0; timestamp = 0 }
      else record {
        writable = writable;
        str = str;
        user_size = n - strings_suffix;
        timestamp = decode_fixed32 host (drop (n - strings_suffix) str);
      }

  unfoldable pub get_value : ParsedStrings → List ℕ
  get_value p = take p.user_size p.str

  -- erase of the last four bytes.
  unfoldable pub strip_suffix : ParsedStrings → ParsedStrings
  strip_suffix p =
      if p.writable then record p { str = take (length p.str - strings_suffix) p.str } else p

  unfoldable pub set_timestamp_to_value : ParsedStrings → ParsedStrings
  set_timestamp_to_value p =
      if p.writable
      then record p {
        str = store_at p.str (length p.str - strings_suffix) (encode_fixed32 host p.timestamp);
      }
      else p

  unfoldable pub set_timestamp : ParsedStrings → ℕ → ParsedStrings
  set_timestamp p t = set_timestamp_to_value (record p { timestamp = t })

  unfoldable pub set_relative_timestamp : ParsedStrings → ℕ → ℕ → ParsedStrings
  set_relative_timestamp p now ttl = set_timestamp p (relative_timestamp now ttl)

  length-encoded : (v : List ℕ) (t : ℕ) → length (v ++ encode_fixed32 host t) ≡ length v + 4
  length-encoded v t =
      length-append v (encode_fixed32 host t) ∙ omega (arith, length-encode_fixed32 host t)

  parse_strings-layout :
      (writable : Bool) (v : List ℕ) (t : ℕ)
      → t < 2 ^ 32
      → parse_strings writable (v ++ encode_fixed32 host t) ≡ record {
        writable = writable;
        str = v ++ encode_fixed32 host t;
        user_size = length v;
        timestamp = t;
      }
  unfolding parse_strings
  parse_strings-layout writable v t h =
      let str = v ++ encode_fixed32 host t in
      let size = length-encoded v t in
      let n : length str - 4 ≡ length v = omega arith in
      let e : decode_fixed32 host (drop (length v) str) ≡ t =
        ap (λ x. decode_fixed32 host (drop (length v) (v ++ x)))
          (sym (append-nil (encode_fixed32 host t)))
        ∙ decode_fixed32_at host v t [] (length v) refl h in
      rw n (rw e (ground arith))

  -- A string's value with its timestamp, encoded by StringsMetaValue::Encode and parsed again, has
  -- the same timestamp, the same user value, and StripSuffix leaves exactly the user value, for a
  -- timestamp that fits in 32 bits.
  pub parse_strings-encode :
      (writable : Bool) (m : StringsMetaValue)
      → m.timestamp < 2 ^ 32
      → ((parse_strings writable (encode_strings m)).timestamp ≡ m.timestamp)
        × (get_value (parse_strings writable (encode_strings m)) ≡ m.value)
        × ((strip_suffix (parse_strings true (encode_strings m))).str ≡ m.value)
  unfolding encode_strings get_value strip_suffix
  parse_strings-encode writable m h =
      let n : length (m.value ++ encode_fixed32 host m.timestamp) - 4 ≡ length m.value =
        omega (arith, length-encoded m.value m.timestamp) in
      let e = parse_strings-layout writable m.value m.timestamp h in
      let e' = parse_strings-layout true m.value m.timestamp h in
      (
        ap (λ p. p.timestamp) e,
        ap get_value e ∙ take-length m.value (encode_fixed32 host m.timestamp),
        ap (λ p. (strip_suffix p).str) e'
            ∙ rw n (take-length m.value (encode_fixed32 host m.timestamp)),
      )

  -- SetTimestamp on a parsed string value leaves in the buffer the encoding of the same value with
  -- the new timestamp.
  pub set_timestamp-encode :
      (m : StringsMetaValue) (t : ℕ)
      → m.timestamp < 2 ^ 32
      → (set_timestamp (parse_strings true (encode_strings m)) t).str
        ≡ encode_strings (record m { timestamp = t })
  unfolding encode_strings set_timestamp set_timestamp_to_value
  set_timestamp-encode m t h =
      let old = encode_fixed32 host m.timestamp in
      let n : length (m.value ++ old) - 4 ≡ length m.value =
        omega (arith, length-encoded m.value m.timestamp) in
      let same : length old ≡ length (encode_fixed32 host t) =
        length-encode_fixed32 host m.timestamp ∙ sym (length-encode_fixed32 host t) in
      ap (λ p. (set_timestamp p t).str) (parse_strings-layout true m.value m.timestamp h)
      ∙ ap (λ x. store_at (m.value ++ x) (length (m.value ++ old) - 4) (encode_fixed32 host t))
          (sym (append-nil old))
      ∙ store_at_middle m.value old (encode_fixed32 host t) [] (length (m.value ++ old) - 4) n same
      ∙ rw append-nil
