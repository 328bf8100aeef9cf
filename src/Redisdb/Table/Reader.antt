-- ===== src/Redisdb/Table/Reader.antt =====
-- ReadBlock (redisdb/db/format.cc). crc32c and the file's read are parameters.
use cpp_swiss_army_knife.Common.{
  ℕ, ◌+◌, ◌%◌, ◌^◌, Bool, true, not, ◌&&◌, List, Option, none, some, ◌==◌, if◌then◌else◌, length,
  take, drop, get_or,
}
use cpp_swiss_army_knife.Redisdb.Coding.{ByteOrder, decode_fixed32}
use cpp_swiss_army_knife.Redisdb.Log.{unmask}
use cpp_swiss_army_knife.Redisdb.Table.{
  BlockHandle, Snappy, no_compression, snappy_compression, type_byte, k_block_trailer_size,
}

pub record BlockContents : Type 0 where
  pub contents : List ℕ
  pub cachable : Bool
  pub heapallocated : Bool

-- What ReadBlock gives: one of its errors, or the contents.
pub data ReadResult : Type 0 where
  failed_read truncated checksum_mismatch corrupt_compressed bad_block_type : ReadResult
  read : BlockContents → ReadResult

-- The case kSnappyCompression.
unfoldable pub uncompressed : Snappy → List ℕ → ReadResult
uncompressed snappy compressed = elim (snappy.get_uncompressed_length compressed) [
  | none ↦ corrupt_compressed
  | some ulength ↦ elim (snappy.uncompress compressed) [
    | none ↦ corrupt_compressed
    | some ubuf ↦
        read (record { contents = take ulength ubuf; cachable = true; heapallocated = true })
  ]
]

-- The switch, with whether the file gave a pointer to its own data.
unfoldable pub block_of_type : Snappy → Bool → ℕ → List ℕ → ReadResult
block_of_type snappy own_data n data' =
    if get_or data' n 0 == type_byte no_compression
    then read
        (record { contents = take n data'; cachable = not own_data; heapallocated = not own_data })
    else if get_or data' n 0 == type_byte snappy_compression
    then uncompressed snappy (take n data')
    else bad_block_type

module _ (host : ByteOrder) (value : List ℕ → ℕ) (snappy : Snappy)
    (verifychecksums own_data : Bool) where
  -- ReadBlock behind the test of the size.
  unfoldable pub checked_block : ℕ → List ℕ → ReadResult
  checked_block n data' =
      let crc = unmask (decode_fixed32 host (drop (n + 1) data')) in
      if verifychecksums && not (value (take (n + 1) data') == crc)
      then checksum_mismatch
      else block_of_type snappy own_data n data'

  -- ReadBlock, over the file's read, which is `none` where it fails.
  unfoldable pub read_block : (ℕ → ℕ → Option (List ℕ)) → BlockHandle → ReadResult
  read_block read_file handle =
      let n = handle.size in
      let all = (n + k_block_trailer_size) % 2 ^ 64 in
      elim (read_file handle.offset all) [
        | none ↦ failed_read
        | some data' ↦ if length data' == all then checked_block n data' else truncated
      ]
