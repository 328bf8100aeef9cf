-- ===== src/Redisdb/Serialize/Tests.antt =====
-- Runs of redisdb/db/serialize.h, and the theorems at concrete inputs.
use cpp_swiss_army_knife.Common.{
  ◌+◌, ◌≤◌, ◌<◌, ◌≡◌, refl, true, some, [], ◌∷◌, ◌++◌, take, ltb, arith,
}
use cpp_swiss_army_knife.Redisdb.Coding.{little_endian, big_endian, encode_fixed32, encode_fixed64}
use cpp_swiss_army_knife.Redisdb.Coding.Tests.{program}
use cpp_swiss_army_knife.Redisdb.Serialize.Clock.{
  is_stale, relative_timestamp, update_version, update_list_version, update_version_grows,
  relative_timestamp_stale,
}
use cpp_swiss_army_knife.Redisdb.Serialize.Base.{parse_base}
use cpp_swiss_army_knife.Redisdb.Serialize.Base.Laws.{Meta, encoded, parsed, parse_base-encoded}
use cpp_swiss_army_knife.Redisdb.Serialize.Lists.{parse_lists, encode_lists}
use cpp_swiss_army_knife.Redisdb.Serialize.Lists.Laws
use cpp_swiss_army_knife.Redisdb.Serialize.Lists.Laws.{ListMeta, parse_lists-encode}
use cpp_swiss_army_knife.Redisdb.Serialize.DataKey.{
  holds_key, DataKey, encode_data_key, parse_data_key, parse_data_key_string,
}
use cpp_swiss_army_knife.Redisdb.Serialize.DataKey.Laws.{
  parse_data_key-encode, parse_data_key_string-encode,
}

update_version_grows_example :
    (1700000000 < update_version 1700000000 1600000000)
    × (1600000000 ≤ update_version 1700000000 1600000000)
    × (update_list_version 1700000000 1600000000 ≡ update_version 1700000000 1600000000)
update_version_grows_example =
    update_version_grows 1700000000 1600000000 (omega arith) (omega arith)

relative_timestamp_stale_example :
    is_stale (relative_timestamp 1700000000 60) 1700000061 ≡ ltb (1700000000 + 60) 1700000061
relative_timestamp_stale_example =
    relative_timestamp_stale 1700000000 60 1700000061 (omega arith) (omega arith)

abbrev three_fields : Meta
three_fields = record { count = 3; version = 1700000000; timestamp = 0 }

parse_base-encoded_example :
    parse_base big_endian true (encoded big_endian three_fields) ≡ parsed big_endian three_fields
parse_base-encoded_example = parse_base-encoded big_endian three_fields (omega arith)

-- One field less: -1 is added as its bit pattern.
abbrev one_node : ListMeta
one_node = record {
  count = 1;
  version = 1700000000;
  timestamp = 0;
  left_index = 9223372036854775807;
  right_index = 9223372036854775809;
}

parse_lists-encode_example :
    parse_lists little_endian true (
      encode_lists little_endian (record {
        value = encode_fixed64 little_endian 1;
        version = 1700000000;
        timestamp = 0;
        left_index = 9223372036854775807;
        right_index = 9223372036854775809;
      }))
    ≡ some (Laws.parsed little_endian (record one_node { right_index = 9223372036854775807 }))
parse_lists-encode_example = parse_lists-encode little_endian one_node (omega arith)

abbrev field : DataKey
field = record { key = b'h' ∷ []; version = 7; element = b'f' ∷ b'g' ∷ [] }

parse_data_key-encode_example :
    parse_data_key little_endian (encode_data_key little_endian field) ≡ some field
parse_data_key-encode_example =
    parse_data_key-encode little_endian field (omega arith) (omega arith)

parse_data_key_string-encode_example :
    parse_data_key_string little_endian (encode_data_key little_endian field)
    ≡ some (record field { key = take 1 (encode_fixed32 little_endian 1 ++ b'h' ∷ []) })
parse_data_key_string-encode_example =
    parse_data_key_string-encode little_endian field (omega arith) (omega arith)

-- The key that comes out is the low byte of its length.
wrong_key :
    parse_data_key_string little_endian (encode_data_key little_endian field)
    ≡ some (record field { key = 1 ∷ [] })
unfolding program parse_data_key_string encode_data_key holds_key
wrong_key = refl
