-- ===== src/Redisdb/Serialize/DataKey/Laws.antt =====
-- What the parsers of redisdb/db/serialize.h read from an encoded element key.
use native.Mathlib.Nat.{mod-eq_of_lt}
use cpp_swiss_army_knife.Common.{
  ℕ, ◌+◌, ◌-◌, ◌%◌, ◌^◌, ◌<◌, ◌≡◌, refl, ap, sym, ◌∙◌, true, some, List, [], ◌++◌, length, take,
  drop, drop_append, drop-length, take-length, length-append, append-nil, append_assoc, take_prefix,
  ◌≤◌, arith,
}
use cpp_swiss_army_knife.Redisdb.Coding.{
  ByteOrder, encode_fixed32, decode_fixed32, encode_fixed64, decode_fixed64,
}
use cpp_swiss_army_knife.Redisdb.Coding.Fixed.{
  length-encode_fixed32, length-encode_fixed64, decode_fixed32-encode_fixed32,
  decode_fixed64-encode_fixed64,
}
use cpp_swiss_army_knife.Redisdb.Serialize.DataKey.{
  holds_key, DataKey, ScoreKey, ListKey, encode_data_key, parse_data_key, parse_data_key_string,
  encode_score_key, parse_score_key, encode_list_key, parse_list_key,
}

abbrev prefixed : ByteOrder → List ℕ → ℕ → List ℕ → List ℕ
prefixed host key version rest =
    encode_fixed32 host (length key % 2 ^ 32) ++ (key ++ (encode_fixed32 host version ++ rest))

-- The prefix that the three layouts share, with anything behind it.
module _ (host : ByteOrder) (key : List ℕ) (version : ℕ) (rest : List ℕ) where
  size_word : length (encode_fixed32 host (length key % 2 ^ 32)) ≡ 4
  size_word = length-encode_fixed32 host (length key % 2 ^ 32)

  past_size :
      (off k : ℕ)
      → off ≡ 4 + k
      → drop off (prefixed host key version rest)
        ≡ drop k (key ++ (encode_fixed32 host version ++ rest))
  past_size off k e =
      drop_append (encode_fixed32 host (length key % 2 ^ 32))
        (key ++ (encode_fixed32 host version ++ rest)) off k (omega (arith, size_word))

  read_key : take (length key) (drop 4 (prefixed host key version rest)) ≡ key
  read_key =
      ap (take (length key)) (past_size 4 0 refl)
      ∙ take-length key (encode_fixed32 host version ++ rest)

  past_key :
      (off : ℕ)
      → off ≡ 4 + length key
      → drop off (prefixed host key version rest) ≡ encode_fixed32 host version ++ rest
  past_key off e =
      past_size off (length key) e ∙ drop-length key (encode_fixed32 host version ++ rest)

  past_version :
      (off k : ℕ)
      → off ≡ 8 + length key + k
      → drop off (prefixed host key version rest) ≡ drop k rest
  past_version off k e =
      past_size off (length key + (4 + k)) (omega arith)
      ∙ drop_append key (encode_fixed32 host version ++ rest) (length key + (4 + k)) (4 + k) refl
      ∙ drop_append (encode_fixed32 host version) rest (4 + k) k
          (omega (arith, length-encode_fixed32 host version))

  length-prefixed : length (prefixed host key version rest) ≡ 8 + length key + length rest
  length-prefixed =
      let a = length-append key (encode_fixed32 host version ++ rest) in
      let b = length-append (encode_fixed32 host version) rest in
      length-append (encode_fixed32 host (length key % 2 ^ 32))
        (key ++ (encode_fixed32 host version ++ rest))
      ∙ omega (arith, size_word, a, b, length-encode_fixed32 host version)

  read_size :
      length key < 2 ^ 32 → decode_fixed32 host (prefixed host key version rest) ≡ length key
  read_size h =
      decode_fixed32-encode_fixed32 host (length key % 2 ^ 32) _ (omega arith) ∙ mod-eq_of_lt h

  key_inside :
      (words : ℕ)
      → length key < 2 ^ 31
      → words ≤ 8 + length rest
      → holds_key words (length key) (prefixed host key version rest) ≡ true
  unfolding holds_key
  key_inside words h w = ground (arith, length-prefixed)

  read_version :
      version < 2 ^ 32
      → decode_fixed32 host (drop (4 + length key) (prefixed host key version rest)) ≡ version
  read_version h =
      ap (decode_fixed32 host) (past_key (4 + length key) refl)
      ∙ decode_fixed32-encode_fixed32 host version rest h

  read_rest :
      (size : ℕ)
      → size ≡ length rest
      → take size (drop (8 + length key) (prefixed host key version rest)) ≡ rest
  read_rest size e =
      rw (e, past_version (8 + length key) 0 (omega arith))
        (ap (take (length rest)) (sym (append-nil rest)) ∙ take-length rest [])

module _ (host : ByteOrder) where
  -- ParsedDataKey over a string_view gives back the key, the version and the data that
  -- BaseDataKey::Encode wrote, when the key is shorter than 2^31 bytes and the version fits in 32
  -- bits.
  pub parse_data_key-encode :
      (k : DataKey)
      → length k.key < 2 ^ 31
      → k.version < 2 ^ 32
      → parse_data_key host (encode_data_key host k) ≡ some k
  unfolding parse_data_key encode_data_key
  parse_data_key-encode k h hv =
      let size : length (prefixed host k.key k.version k.element) - length k.key - 8
          ≡ length k.element =
        omega (arith, length-prefixed host k.key k.version k.element) in
      rw (read_size host k.key k.version k.element (omega arith)) (
        rw (
          key_inside host k.key k.version k.element 8 h (omega arith),
          read_key host k.key k.version k.element,
          read_version host k.key k.version k.element hv,
          read_rest host k.key k.version k.element _ size,
        ))

  -- ParsedDataKey over a string pointer takes for the key the first bytes, as many as the key is
  -- long, of the encoded length followed by the key; the version and the data are right. It is for
  -- keys shorter than 2^31 bytes and versions that fit in 32 bits.
  pub parse_data_key_string-encode :
      (k : DataKey)
      → length k.key < 2 ^ 31
      → k.version < 2 ^ 32
      → parse_data_key_string host (encode_data_key host k)
        ≡ some
            (record k { key = take (length k.key) (encode_fixed32 host (length k.key) ++ k.key) })
  unfolding parse_data_key_string encode_data_key
  parse_data_key_string-encode k h hv =
      let n : ℕ = length k.key in
      let word = encode_fixed32 host (n % 2 ^ 32) in
      let behind = encode_fixed32 host k.version ++ k.element in
      let size : length (prefixed host k.key k.version k.element) - n - 8 ≡ length k.element =
        omega (arith, length-prefixed host k.key k.version k.element) in
      let long : n ≤ length (word ++ k.key) = omega (arith, length-append word k.key) in
      let front : take n (prefixed host k.key k.version k.element)
          ≡ take n (encode_fixed32 host n ++ k.key) =
        ap (take n) (sym (append_assoc word k.key behind))
        ∙ take_prefix n (word ++ k.key) behind long
        ∙ ap (λ (t : ℕ). take n (encode_fixed32 host t ++ k.key)) (omega arith) in
      rw (read_size host k.key k.version k.element (omega arith)) (
        rw (
          key_inside host k.key k.version k.element 8 h (omega arith),
          front,
          read_version host k.key k.version k.element hv,
          read_rest host k.key k.version k.element _ size,
        ))

  -- ParsedZSetsScoreKey over a string_view gives back the key, the version, the score's bits and
  -- the member that ZSetsScoreKey::Encode wrote, for a key shorter than 2^31 bytes and numbers that
  -- fit in their words.
  pub parse_score_key-encode :
      (k : ScoreKey)
      → length k.key < 2 ^ 31
      → k.version < 2 ^ 32
      → k.score < 2 ^ 64
      → parse_score_key host (encode_score_key host k) ≡ some k
  unfolding parse_score_key encode_score_key
  parse_score_key-encode k h hv hs =
      let n : ℕ = length k.key in
      let score = encode_fixed64 host k.score in
      let rest = score ++ k.member in
      let whole = prefixed host k.key k.version rest in
      let inside : 16 ≤ 8 + length rest =
        omega (arith, length-append score k.member, length-encode_fixed64 host k.score) in
      let size : length whole - n - 8 - 8 ≡ length k.member = omega (
        arith,
        length-prefixed host k.key k.version rest,
        length-append score k.member,
        length-encode_fixed64 host k.score,
      ) in
      let e : decode_fixed64 host (drop (8 + n) whole) ≡ k.score =
        ap (decode_fixed64 host) (past_version host k.key k.version rest (8 + n) 0 (omega arith))
        ∙ decode_fixed64-encode_fixed64 host k.score k.member hs in
      let m : take (length whole - n - 8 - 8) (drop (16 + n) whole) ≡ k.member =
        ap (λ (t : ℕ). take t (drop (16 + n) whole)) size
        ∙ ap (take (length k.member)) (
            past_version host k.key k.version rest (16 + n) 8 (omega arith)
            ∙ drop_append score k.member 8 0 (omega (arith, length-encode_fixed64 host k.score))
            ∙ sym (append-nil k.member))
        ∙ take-length k.member [] in
      rw (read_size host k.key k.version rest (omega arith)) (
        rw (
          key_inside host k.key k.version rest 16 h inside,
          read_key host k.key k.version rest,
          read_version host k.key k.version rest hv,
          e,
          m,
        ))

  -- ParsedListsDataKey gives back the key, the version and the index that ListsDataKey::Encode
  -- wrote, for a key shorter than 2^31 bytes and numbers that fit in their words.
  pub parse_list_key-encode :
      (k : ListKey)
      → length k.key < 2 ^ 31
      → k.version < 2 ^ 32
      → k.index < 2 ^ 64
      → parse_list_key host (encode_list_key host k) ≡ some k
  unfolding parse_list_key encode_list_key
  parse_list_key-encode k h hv hi =
      let rest = encode_fixed64 host k.index in
      let inside : 16 ≤ 8 + length rest = omega (arith, length-encode_fixed64 host k.index) in
      let e : decode_fixed64 host (drop (8 + length k.key) (prefixed host k.key k.version rest))
          ≡ k.index =
        ap (decode_fixed64 host) (
          past_version host k.key k.version rest (8 + length k.key) 0 (omega arith)
          ∙ sym (append-nil rest))
        ∙ decode_fixed64-encode_fixed64 host k.index [] hi in
      rw (read_size host k.key k.version rest (omega arith)) (
        rw (
          key_inside host k.key k.version rest 16 h inside,
          read_key host k.key k.version rest,
          read_version host k.key k.version rest hv,
          e,
        ))
