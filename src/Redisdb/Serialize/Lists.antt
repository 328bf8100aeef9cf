-- ===== src/Redisdb/Serialize/Lists.antt =====
-- ListsMetaValue and ParsedListsMetaValue of redisdb/db/serialize.h: the value of a list, which is a
-- count, a version, an expiry time and the two indices between which its nodes lie.
pub mod Laws
use cpp_swiss_army_knife.Common.{
  ℕ, ◌+◌, ◌-◌, ◌%◌, ◌^◌, Bool, true, false, Option, none, some, List, ◌++◌, ltb, if◌then◌else◌,
  length, take, drop, store_at,
}
use cpp_swiss_army_knife.Redisdb.Coding.{
  ByteOrder, encode_fixed32, decode_fixed32, encode_fixed64, decode_fixed64,
}
use cpp_swiss_army_knife.Redisdb.Serialize.Clock.{relative_timestamp, update_list_version}

abbrev pub initial_left_index : ℕ
initial_left_index = 9223372036854775807

abbrev pub initial_right_index : ℕ
initial_right_index = 9223372036854775808

pub record ListsMetaValue : Type 0 where
  pub value : List ℕ
  pub version : ℕ
  pub timestamp : ℕ
  pub left_index : ℕ
  pub right_index : ℕ

unfoldable pub new_lists : List ℕ → ListsMetaValue
new_lists value = record {
  value = value;
  version = 0;
  timestamp = 0;
  left_index = initial_left_index;
  right_index = initial_right_index;
}

-- `leftindex -= index` and `rightindex += index` wrap as uint64_t.
unfoldable pub minus64 : ℕ → ℕ → ℕ
minus64 a b = (a + (2 ^ 64 - b % 2 ^ 64)) % 2 ^ 64

unfoldable pub plus64 : ℕ → ℕ → ℕ
plus64 a b = (a + b) % 2 ^ 64

unfoldable pub move_left : ListsMetaValue → ℕ → ListsMetaValue
move_left m index = record m { left_index = minus64 m.left_index index }

unfoldable pub move_right : ListsMetaValue → ℕ → ListsMetaValue
move_right m index = record m { right_index = plus64 m.right_index index }

unfoldable pub renew_lists : ListsMetaValue → ℕ → ListsMetaValue
renew_lists m now = record m { version = update_list_version m.version now }

pub record ParsedLists : Type 0 where
  pub writable : Bool
  pub str : List ℕ
  pub user_size : ℕ
  pub version : ℕ
  pub timestamp : ℕ
  pub count : ℕ
  pub left_index : ℕ
  pub right_index : ℕ

abbrev pub lists_suffix : ℕ
lists_suffix = 24

module _ (host : ByteOrder) where
  -- Encode, AppendTimestampAndVersion and AppendIndex. AppendIndex stores leftindex in both places.
  unfoldable pub encode_lists : ListsMetaValue → List ℕ
  encode_lists m =
      m.value
      ++ (encode_fixed32 host m.version
          ++ (encode_fixed32 host m.timestamp
              ++ (encode_fixed64 host m.left_index ++ encode_fixed64 host m.left_index)))

  -- The two constructors, with their assert; behind it the test of the same size holds.
  unfoldable pub parse_lists : Bool → List ℕ → Option ParsedLists
  parse_lists writable str =
      let n = length str in
      if ltb n lists_suffix
      then none
      else some (record {
        writable = writable;
        str = str;
        user_size = n - lists_suffix;
        version = decode_fixed32 host (drop (n - 24) str);
        timestamp = decode_fixed32 host (drop (n - 20) str);
        count = decode_fixed64 host str;
        left_index = decode_fixed64 host (drop (n - 16) str);
        right_index = decode_fixed64 host (drop (n - 8) str);
      })

  unfoldable pub store : ParsedLists → ℕ → List ℕ → ParsedLists
  store p off bytes = if p.writable then record p { str = store_at p.str off bytes } else p

  unfoldable pub strip_suffix : ParsedLists → ParsedLists
  strip_suffix p =
      if p.writable then record p { str = take (length p.str - lists_suffix) p.str } else p

  unfoldable pub set_version_to_value : ParsedLists → ParsedLists
  set_version_to_value p = store p (length p.str - lists_suffix) (encode_fixed32 host p.version)

  unfoldable pub set_timestamp_to_value : ParsedLists → ParsedLists
  set_timestamp_to_value p = store p (length p.str - 20) (encode_fixed32 host p.timestamp)

  unfoldable pub set_index_to_value : ParsedLists → ParsedLists
  set_index_to_value p =
      let q = store p (length p.str - 16) (encode_fixed64 host p.left_index) in
      store q (length q.str - 16 + 8) (encode_fixed64 host p.right_index)

  unfoldable pub set_count : ParsedLists → ℕ → ParsedLists
  set_count p c = store (record p { count = c }) 0 (encode_fixed64 host c)

  unfoldable pub modify_count : ParsedLists → ℕ → ParsedLists
  modify_count p delta = set_count p (plus64 p.count delta)

  unfoldable pub set_left_index : ParsedLists → ℕ → ParsedLists
  set_left_index p index =
      store (record p { left_index = index }) (length p.str - 16) (encode_fixed64 host index)

  unfoldable pub modify_left_index : ParsedLists → ℕ → ParsedLists
  modify_left_index p index = set_left_index p (minus64 p.left_index index)

  unfoldable pub set_right_index : ParsedLists → ℕ → ParsedLists
  set_right_index p index =
      store (record p { right_index = index }) (length p.str - 8) (encode_fixed64 host index)

  unfoldable pub modify_right_index : ParsedLists → ℕ → ParsedLists
  modify_right_index p index = set_right_index p (plus64 p.right_index index)

  unfoldable pub set_timestamp : ParsedLists → ℕ → ParsedLists
  set_timestamp p t = set_timestamp_to_value (record p { timestamp = t })

  unfoldable pub set_relative_timestamp : ParsedLists → ℕ → ℕ → ParsedLists
  set_relative_timestamp p now ttl = set_timestamp p (relative_timestamp now ttl)

  unfoldable pub renew_version : ParsedLists → ℕ → ParsedLists
  renew_version p now =
      set_version_to_value (record p { version = update_list_version p.version now })

  unfoldable pub initial_meta_value : ParsedLists → ℕ → ParsedLists
  initial_meta_value p now =
      let empty =
        set_right_index (set_left_index (set_count p 0) initial_left_index) initial_right_index in
      renew_version (set_timestamp empty 0) now
