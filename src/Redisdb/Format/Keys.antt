-- ===== src/Redisdb/Format/Keys.antt =====
-- Internal keys of redisdb/db/dbformat.cc: packing, parsing, and the parts of an encoded key.

use cpp_swiss_army_knife.Common.{
  ℕ, ◌+◌, ◌-◌, ◌*◌, ◌%◌, ◌^◌, ◌≤◌, ◌<◌, ◌≡◌, refl, ap, ◌∙◌, true, leb, List, [], ◌++◌, some, length,
  length-append, take-length, drop-length, append-nil, append_assoc, arith,
}
use cpp_swiss_army_knife.Common.Bits.{shifted_bit_or}
use cpp_swiss_army_knife.Redisdb.Coding.{
  ByteOrder, encode_fixed64, put_fixed64, encode_varint32, put_varint32, put_length_prefixed_slice,
}
use cpp_swiss_army_knife.Redisdb.Coding.Fixed.{length-encode_fixed64, decode_fixed64-encode_fixed64}
use cpp_swiss_army_knife.Redisdb.Format.{
  ValueType, type_deletion, type_value, type_code, value_type_for_seek, ParsedInternalKey,
  max_sequence_number, packed, pack_sequence_and_type, append_internal_key, parse_internal_key,
  unpack_sequence_and_type, extract_user_key, tag_of, lookup_memtable_key, lookup_internal_key,
  lookup_user_key,
}

pub type_code_small : (t : ValueType) → type_code t ≤ 1
type_code_small type_deletion = omega arith
type_code_small type_value = omega arith

pub packed_value :
    (seq : ℕ) (t : ValueType) → seq ≤ max_sequence_number → packed seq t ≡ seq * 256 + type_code t
unfolding packed
packed_value seq t h =
    let e : seq * 2 ^ 8 % 2 ^ 64 ≡ seq * 2 ^ 8 = omega arith in
    rw e (shifted_bit_or 8 seq (type_code t) (omega (arith, type_code_small t)))

pub packed-lt : (seq : ℕ) (t : ValueType) → seq ≤ max_sequence_number → packed seq t < 2 ^ 64
packed-lt seq t h = omega (arith, packed_value seq t h, type_code_small t)

-- The assert holds.
pub pack_sequence_and_type_lem :
    (seq : ℕ) (t : ValueType)
    → seq ≤ max_sequence_number
    → pack_sequence_and_type seq t ≡ some (packed seq t)
unfolding pack_sequence_and_type
pack_sequence_and_type_lem seq t h =
    let e : leb seq max_sequence_number ≡ true = ground arith in rw (e) refl

unpack_pack :
    (u : List ℕ) (seq : ℕ) (t : ValueType)
    → seq ≤ max_sequence_number
    → unpack_sequence_and_type u (packed seq t)
      ≡ some (record { userkey = u; sequence = seq; type = t })
unfolding unpack_sequence_and_type
unpack_pack u seq type_deletion h = ground (arith, packed_value seq type_deletion h)
unpack_pack u seq type_value h = ground (arith, packed_value seq type_value h)

module _ (host : ByteOrder) where
  -- A user key with any eight-byte tag behind it.
  pub extract_user_key-put :
      (u : List ℕ) (n : ℕ) → extract_user_key host (u ++ encode_fixed64 host n) ≡ u
  unfolding extract_user_key
  extract_user_key-put u n =
      let e : length (u ++ encode_fixed64 host n) - 8 ≡ length u =
        omega (arith, length-append u (encode_fixed64 host n), length-encode_fixed64 host n) in
      rw e (take-length u (encode_fixed64 host n))

  pub tag_of-put : (u : List ℕ) (n : ℕ) → n < 2 ^ 64 → tag_of host (u ++ encode_fixed64 host n) ≡ n
  unfolding tag_of
  tag_of-put u n h =
      let e : length (u ++ encode_fixed64 host n) - 8 ≡ length u =
        omega (arith, length-append u (encode_fixed64 host n), length-encode_fixed64 host n) in
      rw (e, drop-length u (encode_fixed64 host n))
        (rw (append-nil (encode_fixed64 host n)) at (decode_fixed64-encode_fixed64 host n [] h))

  parse_internal_key_long :
      (k : List ℕ)
      → 8 ≤ length k
      → parse_internal_key host k
        ≡ unpack_sequence_and_type (extract_user_key host k) (tag_of host k)
  unfolding parse_internal_key extract_user_key tag_of
  parse_internal_key_long k h = ground arith

  pub length-put_tag : (u : List ℕ) (n : ℕ) → length (u ++ encode_fixed64 host n) ≡ length u + 8
  length-put_tag u n =
      length-append u (encode_fixed64 host n) ∙ omega (arith, length-encode_fixed64 host n)

  sized :
      (u : List ℕ) (n : ℕ)
      → encode_varint32 ((length u + 8) % 2 ^ 32) ++ (u ++ encode_fixed64 host n)
        ≡ put_length_prefixed_slice [] (u ++ encode_fixed64 host n)
  unfolding put_length_prefixed_slice put_varint32
  sized u n = rw (length-put_tag u n) refl

  -- An internal key, with its tag.
  abbrev pub internal_key_of : ParsedInternalKey → List ℕ
  internal_key_of key = key.userkey ++ encode_fixed64 host (packed key.sequence key.type)

  pub append_internal_key_lem :
      (dst : List ℕ) (key : ParsedInternalKey)
      → key.sequence ≤ max_sequence_number
      → append_internal_key host dst key ≡ some (dst ++ internal_key_of key)
  unfolding append_internal_key put_fixed64
  append_internal_key_lem dst key h =
      rw (pack_sequence_and_type_lem key.sequence key.type h)
        (ap some (append_assoc dst key.userkey _))

  -- AppendInternalKey of a sequence number of at most kMaxSequenceNumber fails no assert, and
  -- ParseInternalKey of what it writes gives back the user key, the sequence number and the type, on
  -- a host of either byte order.
  pub parse_internal_key-append :
      (key : ParsedInternalKey)
      → key.sequence ≤ max_sequence_number
      → (bytes : List ℕ) × (append_internal_key host [] key ≡ some bytes)
        × (parse_internal_key host bytes ≡ some key)
  parse_internal_key-append key h =
      let tag : ℕ = packed key.sequence key.type in
      let k : List ℕ = internal_key_of key in
      let small : tag < 2 ^ 64 = packed-lt key.sequence key.type h in
      (
        k,
        append_internal_key_lem [] key h,
        parse_internal_key_long k (omega (arith, length-put_tag key.userkey tag))
            ∙ rw (extract_user_key-put, tag_of-put key.userkey tag small)
                (unpack_pack key.userkey key.sequence key.type h),
      )

  -- The three views into a LookupKey's buffer are what they are named for, on every user key and
  -- every sequence number of at most kMaxSequenceNumber, for which no assert fails: InternalKey() is
  -- the internal key that AppendInternalKey writes with kValueTypeForSeek, UserKey() is the user
  -- key, and MemtableKey() is the internal key as PutLengthPrefixedSlice writes it.
  pub lookup_key_views :
      (u : List ℕ) (s : ℕ)
      → s ≤ max_sequence_number
      → (key : List ℕ) × (append_internal_key host []
            (record { userkey = u; sequence = s; type = value_type_for_seek })
          ≡ some key)
        × (lookup_internal_key host u s ≡ some key)
        × (lookup_user_key host u s ≡ some u)
        × (lookup_memtable_key host u s ≡ some (put_length_prefixed_slice [] key))
  unfolding lookup_internal_key lookup_user_key lookup_memtable_key
  lookup_key_views u s h =
      let tag : ℕ = packed s value_type_for_seek in
      let pack = pack_sequence_and_type_lem s value_type_for_seek h in
      let view =
        drop-length (encode_varint32 ((length u + 8) % 2 ^ 32)) (u ++ encode_fixed64 host tag) in
      (
        u ++ encode_fixed64 host tag,
        append_internal_key_lem []
            (record { userkey = u; sequence = s; type = value_type_for_seek }) h,
        rw (pack) (ap some view),
        rw (pack) (rw (view) (ap some (unfold extract_user_key in extract_user_key-put u tag))),
        rw (pack) (ap some (sized u tag)),
      )
