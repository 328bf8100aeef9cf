-- ===== src/Redisdb/Format.antt =====
-- redisdb/db/dbformat.h and dbformat.cc: internal keys, which are a user key with a sequence number
-- and a type packed in eight bytes, their order, and the keys of a lookup.
--
-- `none` is a failed assert of packSequenceAndType. ExtractUserKey's assert, that an internal key has
-- eight bytes at least, is a condition on the keys that are compared: IsInternalKey in Format/Order.
pub mod Keys
pub mod Order
mod Tests
use Prim.Native.Nat.{Ordering}
use cpp_swiss_army_knife.Common.{
  ℕ, ◌+◌, ◌-◌, ◌*◌, ◌/◌, ◌%◌, ◌^◌, ◌≤◌, ◌≡◌, Bool, true, false, ◌&&◌, bit_or, List, [], ◌∷◌, ◌++◌,
  Option, none, some, ◌>>=◌, ltb, leb, ◌==◌, if◌then◌else◌, length, take, drop,
}
use cpp_swiss_army_knife.Redisdb.Coding.{
  ByteOrder, encode_fixed64, decode_fixed64, put_fixed64, encode_varint32,
}
use cpp_swiss_army_knife.Redisdb.Comparator.{Comparator}

pub data ValueType : Type 0 where
  type_deletion type_value : ValueType

abbrev pub type_code : ValueType → ℕ
type_code type_deletion = 0
type_code type_value = 1

abbrev pub value_type_for_seek : ValueType
value_type_for_seek = type_value

abbrev pub max_sequence_number : ℕ
max_sequence_number = 2 ^ 56 - 1

pub record ParsedInternalKey : Type 0 where
  pub userkey : List ℕ
  pub sequence : ℕ
  pub type : ValueType

-- What packSequenceAndType returns behind its asserts.
unfoldable pub packed : ℕ → ValueType → ℕ
packed seq t = bit_or (seq * 2 ^ 8 % 2 ^ 64) (type_code t)

-- The second assert holds of both types.
unfoldable pub pack_sequence_and_type : ℕ → ValueType → Option ℕ
pack_sequence_and_type seq t = if leb seq max_sequence_number then some (packed seq t) else none

-- A type byte above kTypeValue makes ParseInternalKey return false, whatever it stored.
unfoldable pub unpack_sequence_and_type : List ℕ → ℕ → Option ParsedInternalKey
unpack_sequence_and_type userkey num =
    let c = num % 2 ^ 8 in
    if c == 0
    then some (record { userkey = userkey; sequence = num / 2 ^ 8; type = type_deletion })
    else if c == 1
    then some (record { userkey = userkey; sequence = num / 2 ^ 8; type = type_value })
    else none

abbrev pub is_less : Ordering → Bool
is_less Ordering.lt = true
is_less Ordering.eq = false
is_less Ordering.gt = false

-- The tag that is put behind a shortened user key, whose sequence number the assert admits.
unfoldable pub seek_tag : ℕ
seek_tag = packed max_sequence_number value_type_for_seek

-- `host` is the byte order that memcpy of a word shows.
module _ (host : ByteOrder) where
  unfoldable pub append_internal_key : List ℕ → ParsedInternalKey → Option (List ℕ)
  append_internal_key result key = do
    tag ← pack_sequence_and_type key.sequence key.type
    some (put_fixed64 host (result ++ key.userkey) tag)

  unfoldable pub parse_internal_key : List ℕ → Option ParsedInternalKey
  parse_internal_key key =
      let n = length key in
      if ltb n 8
      then none
      else unpack_sequence_and_type (take (n - 8) key) (decode_fixed64 host (drop (n - 8) key))

  -- ExtractUserKey on a key of eight bytes at least, which its assert asks for.
  unfoldable pub extract_user_key : List ℕ → List ℕ
  extract_user_key key = take (length key - 8) key

  -- The eight bytes behind the user key.
  unfoldable pub tag_of : List ℕ → ℕ
  tag_of key = decode_fixed64 host (drop (length key - 8) key)

  -- Increasing user key, then decreasing tag.
  unfoldable pub internal_compare : Comparator → List ℕ → List ℕ → Ordering
  internal_compare user akey bkey =
      let anum = tag_of akey in
      let bnum = tag_of bkey in
      elim (user.compare (extract_user_key akey) (extract_user_key bkey)) [
        | Ordering.eq ↦
            if ltb bnum anum
            then Ordering.lt
            else if ltb anum bnum
            then Ordering.gt
            else Ordering.eq
        | Ordering.lt ↦ Ordering.lt
        | Ordering.gt ↦ Ordering.gt
      ]

  unfoldable pub internal_separator : Comparator → List ℕ → List ℕ → List ℕ
  internal_separator user start limit =
      let userstart = extract_user_key start in
      let tmp = user.find_shortest_separator userstart (extract_user_key limit) in
      if ltb (length tmp) (length userstart) && is_less (user.compare userstart tmp)
      then put_fixed64 host tmp seek_tag
      else start

  unfoldable pub internal_successor : Comparator → List ℕ → List ℕ
  internal_successor user key =
      let userkey = extract_user_key key in
      let tmp = user.find_short_successor userkey in
      if ltb (length tmp) (length userkey) && is_less (user.compare userkey tmp)
      then put_fixed64 host tmp seek_tag
      else key

  abbrev pub internal : Comparator → Comparator
  internal user = record {
    compare = internal_compare user;
    find_shortest_separator = internal_separator user;
    find_short_successor = internal_successor user;
  }

  -- class LookupKey: the array from start_ to end_, and its three views. `usize + 8` is narrowed to
  -- uint32_t.
  unfoldable pub lookup_memtable_key : List ℕ → ℕ → Option (List ℕ)
  lookup_memtable_key userkey s = do
    tag ← pack_sequence_and_type s value_type_for_seek
    some (encode_varint32 ((length userkey + 8) % 2 ^ 32) ++ (userkey ++ encode_fixed64 host tag))

  -- kstart stands behind the varint.
  unfoldable pub lookup_internal_key : List ℕ → ℕ → Option (List ℕ)
  lookup_internal_key userkey s = do
    key ← lookup_memtable_key userkey s
    some (drop (length (encode_varint32 ((length userkey + 8) % 2 ^ 32))) key)

  unfoldable pub lookup_user_key : List ℕ → ℕ → Option (List ℕ)
  lookup_user_key userkey s = do
    key ← lookup_internal_key userkey s
    some (take (length key - 8) key)
