-- ===== src/Redisdb/Table.antt =====
-- The handles, the footer and the compression of a table file (redisdb/db/format.h, format.cc).
--
-- A failed assert is `none`, and snappy a parameter.
pub mod Blocks
pub mod Builder
pub mod Flushed
pub mod Handles
pub mod Reader
pub mod Written
mod Tests
use cpp_swiss_army_knife.Common.{
  ℕ, ◌+◌, ◌-◌, ◌*◌, ◌/◌, ◌%◌, ◌^◌, Bool, true, false, not, ◌&&◌, ◌||◌, List, [], ◌∷◌, ◌++◌, Option,
  none, some, ◌>>=◌, ltb, ◌==◌, if◌then◌else◌, length, take, drop, replicate, get_or, bit_or,
}
use cpp_swiss_army_knife.Redisdb.Coding.{
  ByteOrder, decode_fixed32, encode_fixed32, put_fixed32, put_varint64, get_varint64,
}
use cpp_swiss_army_knife.Redisdb.Log.{mask, unmask}
use cpp_swiss_army_knife.Redisdb.Block.{BlockBuilder}
use cpp_swiss_army_knife.Redisdb.Block.{finish, reset}
use cpp_swiss_army_knife.Redisdb.WritableFile.{WritableFile, append, flush}

pub record BlockHandle : Type 0 where
  pub offset : ℕ
  pub size : ℕ

-- The handle of the constructor, whose fields EncodeTo does not take.
abbrev pub unset : ℕ
unset = 2 ^ 64 - 1

-- BlockHandle::EncodeTo
unfoldable pub encode_handle : List ℕ → BlockHandle → Option (List ℕ)
encode_handle dst h =
    if (h.offset == unset) || (h.size == unset)
    then none
    else some (put_varint64 (put_varint64 dst h.offset) h.size)

-- BlockHandle::DecodeFrom; `none` is the status "bad block handle".
unfoldable pub decode_handle : List ℕ → Option (BlockHandle × List ℕ)
decode_handle input = do
  (offset, p) ← get_varint64 input
  (size, rest) ← get_varint64 p
  some (record { offset = offset; size = size }, rest)

pub record Footer : Type 0 where
  pub metaindexhandle : BlockHandle
  pub index_handle : BlockHandle

-- BlockHandle::kMaxEncodedLength, and kEncodedLength of Footer
abbrev pub max_encoded_length : ℕ
max_encoded_length = 10 + 10

abbrev pub encoded_length : ℕ
encoded_length = 2 * max_encoded_length + 8

abbrev pub k_table_magic_number : ℕ
k_table_magic_number = 0xdb4775248b80fb57

-- std::string::resize
unfoldable pub resized : ℕ → List ℕ → List ℕ
resized n dst = take n dst ++ replicate (n - length dst) 0

-- What Footer::DecodeFrom gives: one of its two errors, or the footer and what is behind it.
pub data FooterResult : Type 0 where
  bad_magic bad_handle : FooterResult
  footer_of : Footer → List ℕ → FooterResult

-- DecodeFrom behind the test of the magic number.
unfoldable pub decode_both : List ℕ → Option (BlockHandle × BlockHandle)
decode_both input = do
  (meta, p) ← decode_handle input
  (index, _) ← decode_handle p
  some (meta, index)

unfoldable pub decode_handles : List ℕ → FooterResult
decode_handles input = elim (decode_both input) [
  | none ↦ bad_handle
  | some (meta, index) ↦
      footer_of (record { metaindexhandle = meta; index_handle = index })
        (drop encoded_length input)
]

module _ (host : ByteOrder) where
  -- The padding and the magic number, behind the two handles.
  unfoldable pub finish_footer : List ℕ → List ℕ
  finish_footer dst =
      put_fixed32 host
        (put_fixed32 host (resized (2 * max_encoded_length) dst) (k_table_magic_number % 2 ^ 32))
        (k_table_magic_number / 2 ^ 32)

  -- Footer::EncodeTo
  unfoldable pub encode_footer : List ℕ → Footer → Option (List ℕ)
  encode_footer dst f = do
    d ← encode_handle dst f.metaindexhandle
    d' ← encode_handle d f.index_handle
    if length (finish_footer d') == length dst + encoded_length
        then some (finish_footer d')
        else none

  -- Footer::DecodeFrom, over kEncodedLength bytes at least.
  unfoldable pub decode_footer : List ℕ → FooterResult
  decode_footer input =
      let magic_lo = decode_fixed32 host (drop (encoded_length - 8) input) in
      let magic_hi = decode_fixed32 host (drop (encoded_length - 8 + 4) input) in
      if bit_or (magic_hi * 2 ^ 32) magic_lo == k_table_magic_number
      then decode_handles input
      else bad_magic

-- The wrappers of util.h around snappy; `none` is a call that returns false.
pub record Snappy : Type 0 where
  pub compress : List ℕ → Option (List ℕ)
  pub get_uncompressed_length : List ℕ → Option ℕ
  pub uncompress : List ℕ → Option (List ℕ)

pub data CompressionType : Type 0 where
  no_compression snappy_compression : CompressionType

abbrev pub type_byte : CompressionType → ℕ
type_byte no_compression = 0
type_byte snappy_compression = 1

abbrev pub k_block_trailer_size : ℕ
k_block_trailer_size = 5
