-- ===== src/Redisdb/Serialize/Lists/Laws.antt =====
-- The value of a list (redisdb/db/serialize.h): what its parser reads and its setters write.
use cpp_swiss_army_knife.Common.{
  ℕ, ◌^◌, ◌<◌, ◌≡◌, ap, sym, ◌∙◌, true, some, List, [], ◌++◌, length, drop, append-nil,
  append_assoc, length-append, arith,
}
use cpp_swiss_army_knife.Redisdb.Coding.{
  ByteOrder, encode_fixed32, decode_fixed32, encode_fixed64, decode_fixed64,
}
use cpp_swiss_army_knife.Redisdb.Coding.Fixed.{
  length-encode_fixed32, length-encode_fixed64, decode_fixed32_at, decode_fixed64_at,
  decode_fixed64-encode_fixed64,
}
use cpp_swiss_army_knife.Redisdb.Serialize.Lists.{ParsedLists, encode_lists, parse_lists}

pub record ListMeta : Type 0 where
  pub count : ℕ
  pub version : ℕ
  pub timestamp : ℕ
  pub left_index : ℕ
  pub right_index : ℕ

pub record FitsWords (m : ListMeta) : Type 0 where
  pub count : m.count < 2 ^ 64
  pub version : m.version < 2 ^ 32
  pub timestamp : m.timestamp < 2 ^ 32
  pub left_index : m.left_index < 2 ^ 64
  pub right_index : m.right_index < 2 ^ 64

module _ (host : ByteOrder) where
  abbrev pub fields : ListMeta → List ℕ
  fields m =
      encode_fixed64 host m.count
      ++ (encode_fixed32 host m.version
          ++ (encode_fixed32 host m.timestamp
              ++ (encode_fixed64 host m.left_index ++ encode_fixed64 host m.right_index)))

  -- The object that the std::string* constructor makes of the five fields.
  abbrev pub parsed : ListMeta → ParsedLists
  parsed m = record {
    writable = true;
    str = fields m;
    user_size = 8;
    version = m.version;
    timestamp = m.timestamp;
    count = m.count;
    left_index = m.left_index;
    right_index = m.right_index;
  }

  module _ (m : ListMeta) where
    c : List ℕ
    c = encode_fixed64 host m.count

    v : List ℕ
    v = encode_fixed32 host m.version

    t : List ℕ
    t = encode_fixed32 host m.timestamp

    l : List ℕ
    l = encode_fixed64 host m.left_index

    r : List ℕ
    r = encode_fixed64 host m.right_index

    sizes : (length c ≡ 8) × (length v ≡ 4) × (length t ≡ 4) × (length l ≡ 8) × (length r ≡ 8)
    unfolding c v t l r
    sizes = (
      length-encode_fixed64 host m.count,
      length-encode_fixed32 host m.version,
      length-encode_fixed32 host m.timestamp,
      length-encode_fixed64 host m.left_index,
      length-encode_fixed64 host m.right_index,
    )

    length-fields : length (fields m) ≡ 32
    unfolding c v t l r
    length-fields = omega (
      arith,
      sizes,
      length-append c (v ++ (t ++ (l ++ r))),
      length-append v (t ++ (l ++ r)),
      length-append t (l ++ r),
      length-append l r,
    )

    -- The third, fourth and fifth field behind what stands before them.
    third : fields m ≡ (c ++ v) ++ (t ++ (l ++ r))
    unfolding c v t l r
    third = sym (append_assoc c v (t ++ (l ++ r)))

    fourth : fields m ≡ ((c ++ v) ++ t) ++ (l ++ r)
    fourth = third ∙ sym (append_assoc (c ++ v) t (l ++ r))

    fifth : fields m ≡ (((c ++ v) ++ t) ++ l) ++ (r ++ [])
    fifth =
        fourth
        ∙ sym (append_assoc ((c ++ v) ++ t) l r)
        ∙ ap (λ x. (((c ++ v) ++ t) ++ l) ++ x) (sym (append-nil r))

    prefixes :
        (length (c ++ v) ≡ 12)
        × (length ((c ++ v) ++ t) ≡ 16)
        × (length (((c ++ v) ++ t) ++ l) ≡ 24)
    prefixes =
        let e = length-append c v in
        let f = length-append (c ++ v) t in
        let g = length-append ((c ++ v) ++ t) l in
        (omega (arith, sizes), omega (arith, sizes), omega (arith, sizes))

    module _ (fits : FitsWords m) where
      read_count : decode_fixed64 host (fields m) ≡ m.count
      read_count = decode_fixed64-encode_fixed64 host m.count _ fits.count

      read_version : decode_fixed32 host (drop 8 (fields m)) ≡ m.version
      unfolding c v t l r
      read_version = decode_fixed32_at host c m.version (t ++ (l ++ r)) 8 (sym sizes.0) fits.version

      read_timestamp : decode_fixed32 host (drop 12 (fields m)) ≡ m.timestamp
      unfolding t
      read_timestamp =
          ap (λ x. decode_fixed32 host (drop 12 x)) third
          ∙ decode_fixed32_at host (c ++ v) m.timestamp (l ++ r) 12 (sym prefixes.0) fits.timestamp

      read_left : decode_fixed64 host (drop 16 (fields m)) ≡ m.left_index
      unfolding l
      read_left =
          ap (λ x. decode_fixed64 host (drop 16 x)) fourth
          ∙ decode_fixed64_at host ((c ++ v) ++ t) m.left_index r 16 (sym prefixes.1)
              fits.left_index

      read_right : decode_fixed64 host (drop 24 (fields m)) ≡ m.right_index
      unfolding r
      read_right =
          ap (λ x. decode_fixed64 host (drop 24 x)) fifth
          ∙ decode_fixed64_at host (((c ++ v) ++ t) ++ l) m.right_index [] 24 (sym prefixes.2)
              fits.right_index

  pub parse_lists-fields :
      (m : ListMeta) → FitsWords m → parse_lists host true (fields m) ≡ some (parsed m)
  unfolding parse_lists
  parse_lists-fields m fits = rw (length-fields m) (
      rw (
        read_count m fits,
        read_version m fits,
        read_timestamp m fits,
        read_left m fits,
        read_right m fits,
      ))

  -- ParsedListsMetaValue of what ListsMetaValue::Encode writes for a count passes its assert and
  -- has the count, the version, the timestamp and the left index, when they fit in their words; in
  -- place of the right index it has the left index again, since AppendIndex stores the left index
  -- twice.
  pub parse_lists-encode :
      (m : ListMeta)
      → FitsWords m
      → parse_lists host true (
          encode_lists host (record {
            value = encode_fixed64 host m.count;
            version = m.version;
            timestamp = m.timestamp;
            left_index = m.left_index;
            right_index = m.right_index;
          }))
        ≡ some (parsed (record m { right_index = m.left_index }))
  unfolding encode_lists
  parse_lists-encode m fits =
      parse_lists-fields (record m { right_index = m.left_index })
        (record {
          count = fits.count;
          version = fits.version;
          timestamp = fits.timestamp;
          left_index = fits.left_index;
          right_index = fits.left_index;
        })
