-- ===== src/Redisdb/Serialize/DataKey.antt =====
-- The keys of elements in redisdb/db/serialize.h: BaseDataKey (hash fields, set and sorted set
-- members), ZSetsScoreKey and ListsDataKey, each with its two parsers.
--
-- A key length is read as an int32_t. A parser of a string whose length is negative, or that is too
-- short for the words behind the key, moves its pointer out of the string and reads there, which is
-- undefined: `none`.
pub mod Laws
use cpp_swiss_army_knife.Common.{
  ℕ, ◌+◌, ◌-◌, ◌%◌, ◌^◌, Bool, ◌&&◌, List, ◌++◌, Option, none, some, ltb, leb, if◌then◌else◌,
  length, take, drop,
}
use cpp_swiss_army_knife.Redisdb.Coding.{
  ByteOrder, encode_fixed32, decode_fixed32, encode_fixed64, decode_fixed64,
}

pub record DataKey : Type 0 where
  pub key : List ℕ
  pub version : ℕ
  pub element : List ℕ

pub record ScoreKey : Type 0 where
  pub key : List ℕ
  pub version : ℕ
  pub score : ℕ
  pub member : List ℕ

pub record ListKey : Type 0 where
  pub key : List ℕ
  pub version : ℕ
  pub index : ℕ

-- Whether a key of length n, with the fixed words around it, is in the string.
unfoldable pub holds_key : ℕ → ℕ → List ℕ → Bool
holds_key words n k = ltb n (2 ^ 31) && leb (n + words) (length k)

module _ (host : ByteOrder) where
  -- BaseDataKey::Encode
  unfoldable pub encode_data_key : DataKey → List ℕ
  encode_data_key k =
      encode_fixed32 host (length k.key % 2 ^ 32)
      ++ (k.key ++ (encode_fixed32 host k.version ++ k.element))

  -- ParsedDataKey(const std::string_view&)
  unfoldable pub parse_data_key : List ℕ → Option DataKey
  parse_data_key k =
      let n = decode_fixed32 host k in
      if holds_key 8 n k
      then some (record {
        key = take n (drop 4 k);
        version = decode_fixed32 host (drop (4 + n) k);
        element = take (length k - n - 8) (drop (8 + n) k);
      })
      else none

  -- ParsedDataKey(const std::string*): the view of the key begins at the length.
  unfoldable pub parse_data_key_string : List ℕ → Option DataKey
  parse_data_key_string k =
      let n = decode_fixed32 host k in
      if holds_key 8 n k
      then some (record {
        key = take n k;
        version = decode_fixed32 host (drop (4 + n) k);
        element = take (length k - n - 8) (drop (8 + n) k);
      })
      else none

  -- ZSetsScoreKey::Encode
  unfoldable pub encode_score_key : ScoreKey → List ℕ
  encode_score_key k =
      encode_fixed32 host (length k.key % 2 ^ 32)
      ++ (k.key ++ (encode_fixed32 host k.version ++ (encode_fixed64 host k.score ++ k.member)))

  -- ParsedZSetsScoreKey(const std::string_view&)
  unfoldable pub parse_score_key : List ℕ → Option ScoreKey
  parse_score_key k =
      let n = decode_fixed32 host k in
      if holds_key 16 n k
      then some (record {
        key = take n (drop 4 k);
        version = decode_fixed32 host (drop (4 + n) k);
        score = decode_fixed64 host (drop (8 + n) k);
        member = take (length k - n - 8 - 8) (drop (16 + n) k);
      })
      else none

  -- ParsedZSetsScoreKey(const std::string*): as above, the key begins at the length.
  unfoldable pub parse_score_key_string : List ℕ → Option ScoreKey
  parse_score_key_string k =
      let n = decode_fixed32 host k in
      if holds_key 16 n k
      then some (record {
        key = take n k;
        version = decode_fixed32 host (drop (4 + n) k);
        score = decode_fixed64 host (drop (8 + n) k);
        member = take (length k - n - 8 - 8) (drop (16 + n) k);
      })
      else none

  -- ListsDataKey::Encode
  unfoldable pub encode_list_key : ListKey → List ℕ
  encode_list_key k =
      encode_fixed32 host (length k.key % 2 ^ 32)
      ++ (k.key ++ (encode_fixed32 host k.version ++ encode_fixed64 host k.index))

  -- Both constructors of ParsedListsDataKey.
  unfoldable pub parse_list_key : List ℕ → Option ListKey
  parse_list_key k =
      let n = decode_fixed32 host k in
      if holds_key 16 n k
      then some (record {
        key = take n (drop 4 k);
        version = decode_fixed32 host (drop (4 + n) k);
        index = decode_fixed64 host (drop (8 + n) k);
      })
      else none
