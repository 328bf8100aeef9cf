-- ===== src/Redisdb/Format/Tests.antt =====
-- Runs of internal keys (redisdb/db/dbformat.cc), and the theorems at concrete inputs.
use Prim.Native.Nat.{Ordering}
use cpp_swiss_army_knife.Common.{ℕ, ◌≡◌, refl, List, [], ◌∷◌, some, none, arith}
use cpp_swiss_army_knife.Redisdb.Coding.{
  little_endian, big_endian, object_bytes, le_bytes, object_value, le_value, encode_fixed64,
  decode_fixed64, put_fixed64, put_length_prefixed_slice,
}
use cpp_swiss_army_knife.Redisdb.Coding.Fixed.{IsBytes}
use cpp_swiss_army_knife.Redisdb.Comparator.{bytewise, compare_bytes, IsComparator}
use cpp_swiss_army_knife.Redisdb.Comparator.Separator.{bytewise-IsComparator}
use cpp_swiss_army_knife.Redisdb.Format.{
  type_deletion, type_value, value_type_for_seek, ParsedInternalKey, packed, pack_sequence_and_type,
  unpack_sequence_and_type, append_internal_key, parse_internal_key, internal, internal_compare,
  lookup_memtable_key, lookup_internal_key, lookup_user_key,
}
use cpp_swiss_army_knife.Redisdb.Format.Keys.{parse_internal_key-append, lookup_key_views}
use cpp_swiss_army_knife.Redisdb.Format.Order.{
  IsInternalKey, internal-IsComparator, internal_compare-append,
}

abbrev older : ParsedInternalKey
older = record { userkey = b'k' ∷ []; sequence = 5; type = type_value }

abbrev newer : ParsedInternalKey
newer = record { userkey = b'k' ∷ []; sequence = 9; type = type_deletion }

encoded_key :
    append_internal_key little_endian [] newer ≡ some (b'k' ∷ 0 ∷ 9 ∷ 0 ∷ 0 ∷ 0 ∷ 0 ∷ 0 ∷ 0 ∷ [])
unfolding append_internal_key put_fixed64 encode_fixed64 object_bytes le_bytes
    pack_sequence_and_type packed
encoded_key = refl

-- A type byte of 2 is refused.
bad_type : parse_internal_key little_endian (b'k' ∷ 2 ∷ 9 ∷ 0 ∷ 0 ∷ 0 ∷ 0 ∷ 0 ∷ 0 ∷ []) ≡ none
unfolding parse_internal_key unpack_sequence_and_type decode_fixed64 object_value le_value
bad_type = refl

parse_internal_key-append_example :
    (bytes : List ℕ) × (append_internal_key big_endian [] newer ≡ some bytes)
    × (parse_internal_key big_endian bytes ≡ some newer)
parse_internal_key-append_example = parse_internal_key-append big_endian newer (omega arith)

lookup_key_views_example :
    (key : List ℕ) × (append_internal_key little_endian []
        (record { userkey = b'k' ∷ []; sequence = 7; type = value_type_for_seek })
      ≡ some key)
    × (lookup_internal_key little_endian (b'k' ∷ []) 7 ≡ some key)
    × (lookup_user_key little_endian (b'k' ∷ []) 7 ≡ some (b'k' ∷ []))
    × (lookup_memtable_key little_endian (b'k' ∷ []) 7 ≡ some (put_length_prefixed_slice [] key))
lookup_key_views_example = lookup_key_views little_endian (b'k' ∷ []) 7 (omega arith)

internal-IsComparator_example :
    IsComparator (IsInternalKey little_endian IsBytes) (internal little_endian bytewise)
internal-IsComparator_example = internal-IsComparator little_endian bytewise bytewise-IsComparator

internal_compare-append_example :
    (x : List ℕ) × (y : List ℕ) × (append_internal_key little_endian [] newer ≡ some x)
    × (append_internal_key little_endian [] older ≡ some y)
    × (internal_compare little_endian bytewise x y ≡ Ordering.lt)
unfolding compare_bytes
internal_compare-append_example =
    internal_compare-append little_endian bytewise newer older (omega arith) (omega arith)
