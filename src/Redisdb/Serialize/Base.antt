-- ===== src/Redisdb/Serialize/Base.antt =====
-- BaseMetaValue and ParsedBaseMetaValue of redisdb/db/serialize.h: the value of a hash, a set or a
-- sorted set, which is a count with a version and an expiry time behind it.
pub mod Laws
use cpp_swiss_army_knife.Common.{
  ℕ, ◌+◌, ◌-◌, ◌%◌, ◌^◌, Bool, true, false, List, ◌++◌, ltb, if◌then◌else◌, length, take, drop,
  store_at,
}
use cpp_swiss_army_knife.Redisdb.Coding.{ByteOrder, encode_fixed32, decode_fixed32}
use cpp_swiss_army_knife.Redisdb.Serialize.Clock.{relative_timestamp, update_version}

pub record BaseMetaValue : Type 0 where
  pub value : List ℕ
  pub version : ℕ
  pub timestamp : ℕ

unfoldable pub new_base : List ℕ → BaseMetaValue
new_base value = record { value = value; version = 0; timestamp = 0 }

-- UpdateVersion of BaseMetaValue.
unfoldable pub renew_base : BaseMetaValue → ℕ → BaseMetaValue
renew_base m now = record m { version = update_version m.version now }

-- `writable` tells whether a std::string* stands behind the parsed value; `str` is the string, and
-- `uservalue` a view of its first `user_size` bytes.
pub record ParsedBase : Type 0 where
  pub writable : Bool
  pub str : List ℕ
  pub user_size : ℕ
  pub version : ℕ
  pub timestamp : ℕ
  pub count : ℕ

abbrev pub base_suffix : ℕ
base_suffix = 8

module _ (host : ByteOrder) where
  -- Encode and AppendTimestampAndVersion.
  unfoldable pub encode_base : BaseMetaValue → List ℕ
  encode_base m = m.value ++ (encode_fixed32 host m.version ++ encode_fixed32 host m.timestamp)

  -- The two constructors. The count is read whatever the size.
  unfoldable pub parse_base : Bool → List ℕ → ParsedBase
  parse_base writable str =
      let n = length str in
      if ltb n base_suffix
      then record {
        writable = writable;
        str = str;
        user_size = 0;
        version = 0;
        timestamp = 0;
        count = decode_fixed32 host str;
      }
      else record {
        writable = writable;
        str = str;
        user_size = n - base_suffix;
        version = decode_fixed32 host (drop (n - base_suffix) str);
        timestamp = decode_fixed32 host (drop (n - 4) str);
        count = decode_fixed32 host str;
      }

  -- EncodeFixed32 at an offset of the string, if there is one.
  unfoldable pub write_word : ParsedBase → ℕ → ℕ → ParsedBase
  write_word p off w =
      if p.writable then record p { str = store_at p.str off (encode_fixed32 host w) } else p

  unfoldable pub strip_suffix : ParsedBase → ParsedBase
  strip_suffix p =
      if p.writable then record p { str = take (length p.str - base_suffix) p.str } else p

  unfoldable pub set_version_to_value : ParsedBase → ParsedBase
  set_version_to_value p = write_word p (length p.str - base_suffix) p.version

  unfoldable pub set_timestamp_to_value : ParsedBase → ParsedBase
  set_timestamp_to_value p = write_word p (length p.str - 4) p.timestamp

  unfoldable pub set_count : ParsedBase → ℕ → ParsedBase
  set_count p c = write_word (record p { count = c }) 0 c

  -- The sum wraps as an int32_t.
  unfoldable pub modify_count : ParsedBase → ℕ → ParsedBase
  modify_count p delta =
      let c = (p.count + delta) % 2 ^ 32 in write_word (record p { count = c }) 0 c

  unfoldable pub set_timestamp : ParsedBase → ℕ → ParsedBase
  set_timestamp p t = set_timestamp_to_value (record p { timestamp = t })

  unfoldable pub set_relative_timestamp : ParsedBase → ℕ → ℕ → ParsedBase
  set_relative_timestamp p now ttl = set_timestamp p (relative_timestamp now ttl)

  unfoldable pub renew_version : ParsedBase → ℕ → ParsedBase
  renew_version p now = set_version_to_value (record p { version = update_version p.version now })

  -- The result is the new version, which stands in the object.
  unfoldable pub initial_meta_value : ParsedBase → ℕ → ParsedBase
  initial_meta_value p now = renew_version (set_timestamp (set_count p 0) 0) now

unfoldable pub get_value : ParsedBase → List ℕ
get_value p = take p.user_size p.str
