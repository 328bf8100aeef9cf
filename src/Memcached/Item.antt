-- ===== src/Memcached/Item.antt =====
-- class Item of memcached/server/server.h and server.cc: a key and its value in one array.
--
-- `bytes` is the part of the array `data` that is filled, so receivedBytes is its length. A failed
-- assert is `none`. The hash is dictGenHashFunction, a parameter.
use cpp_swiss_army_knife.Common.{
  ℕ, ◌+◌, ◌-◌, ◌^◌, List, [], ◌∷◌, ◌++◌, Option, none, some, Bool, ◌&&◌, ltb, leb, ◌==◌,
  if◌then◌else◌, length, take, drop, get_or,
}

-- enum UpdatePolicy
pub data UpdatePolicy : Type 0 where
  invalid_policy set_policy add_policy replace_policy append_policy prepend_policy : UpdatePolicy
  cas_policy : UpdatePolicy

pub record Item : Type 0 where
  pub key_len : ℕ
  pub flags : ℕ
  pub rel_exptime : ℕ
  pub value_len : ℕ
  pub cas : ℕ
  pub hash : ℕ
  pub bytes : List ℕ

abbrev pub total_len : Item → ℕ
total_len item = item.key_len + item.value_len

-- receivedBytes never exceeds totalLen, which `append` asserts.
abbrev pub needed_bytes : Item → ℕ
needed_bytes item = total_len item - length item.bytes

abbrev pub get_key : Item → List ℕ
get_key item = take item.key_len item.bytes

-- The bytes from value() on.
abbrev pub value : Item → List ℕ
value item = drop item.key_len item.bytes

unfoldable pub append : Item → List ℕ → Option Item
append item more =
    if leb (length more) (needed_bytes item)
    then some (record item { bytes = item.bytes ++ more })
    else none

abbrev pub ends_with_crlf : Item → Bool
ends_with_crlf item =
    (length item.bytes == total_len item)
    && (get_or item.bytes (total_len item - 2) 0 == 13)
    && (get_or item.bytes (total_len item - 1) 0 == 10)

module _ (hash_of : List ℕ → ℕ) where
  -- The constructor. valuelen is an int, as the number of its 32 bits: a negative one fails the first
  -- assert, and so does (as undefined behaviour) a total that is no int. zmalloc, which runs before the
  -- asserts, is taken to give the memory.
  unfoldable pub make_item : List ℕ → ℕ → ℕ → ℕ → ℕ → Option Item
  make_item key flags exptime valuelen cas =
      if leb 2 valuelen && ltb (length key + valuelen) (2 ^ 31)
      then append
          (record {
            key_len = length key;
            flags = flags;
            rel_exptime = exptime;
            value_len = valuelen;
            cas = cas;
            hash = hash_of key;
            bytes = [];
          })
          key
      else none

  unfoldable pub reset_key : Item → List ℕ → Option Item
  reset_key item k =
      if leb (length k) 250
      then append (record item { key_len = length k; bytes = []; hash = hash_of k }) k
      else none

-- Item::output, with LogStream's decimal numbers as a parameter.
module _ (decimal : ℕ → List ℕ) where
  unfoldable pub output : Item → Bool → List ℕ
  output item need_cas =
      (b'V' ∷ b'A' ∷ b'L' ∷ b'U' ∷ b'E' ∷ b' ' ∷ [])
      ++ get_key item
      ++ (b' ' ∷ decimal item.flags)
      ++ (b' ' ∷ decimal (item.value_len - 2))
      ++ (if need_cas then b' ' ∷ decimal item.cas else [])
      ++ (13 ∷ 10 ∷ [])
      ++ value item
