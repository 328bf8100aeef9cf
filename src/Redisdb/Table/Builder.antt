-- ===== src/Redisdb/Table/Builder.antt =====
-- WriteBlock, WriteRawBlock and flush of class TableBuilder (redisdb/db/tablebuilder.cc).
--
-- crc32c is a parameter. `none` is a failed assert, or an append that waits for an answer of ::write.
use cpp_swiss_army_knife.Common.{
  ℕ, ◌+◌, ◌-◌, ◌/◌, ◌%◌, ◌^◌, Bool, true, false, List, [], ◌∷◌, Option, none, some, ltb, ◌==◌,
  if◌then◌else◌, length,
}
use cpp_swiss_army_knife.Redisdb.Coding.{ByteOrder, encode_fixed32}
use cpp_swiss_army_knife.Redisdb.Log.{mask}
use cpp_swiss_army_knife.Redisdb.Block.{BlockBuilder}
use cpp_swiss_army_knife.Redisdb.Block.{finish, reset}
use cpp_swiss_army_knife.Redisdb.WritableFile.{WritableFile, append, flush}
use cpp_swiss_army_knife.Redisdb.Table.{
  BlockHandle, Snappy, CompressionType, no_compression, snappy_compression, type_byte,
  k_block_trailer_size,
}

-- The fields of TableBuilder::Rep that a block's writing changes.
pub record TableFile : Type 0 where
  pub file : WritableFile
  pub offset : ℕ
  pub is_ok : Bool

-- The switch of WriteBlock: what is stored of a block, and its type.
unfoldable pub stored : Snappy → CompressionType → List ℕ → List ℕ × CompressionType
stored snappy no_compression raw = (raw, no_compression)
stored snappy snappy_compression raw = elim (snappy.compress raw) [
  | none ↦ (raw, no_compression)
  | some compressed ↦
      if ltb (length compressed) (length raw - length raw / 8)
      then (compressed, snappy_compression)
      else (raw, no_compression)
]

module _ (host : ByteOrder) (value : List ℕ → ℕ) (extend : ℕ → List ℕ → ℕ) where
  unfoldable pub trailer : List ℕ → CompressionType → List ℕ
  trailer contents type =
      let crc = extend (value contents) (type_byte type ∷ []) in
      type_byte type ∷ encode_fixed32 host (mask crc)

  -- TableBuilder::WriteRawBlock; `none` is an append that waits for ::write.
  unfoldable pub write_raw_block :
      TableFile → List ℕ → CompressionType → Option (TableFile × BlockHandle)
  write_raw_block rep contents type =
      let handle : BlockHandle = record { offset = rep.offset; size = length contents } in
      elim (append rep.file contents) [
        | none ↦ none
        | some (false, file) ↦ some (record rep { file = file; is_ok = false }, handle)
        | some (true, file) ↦ elim (append file (trailer contents type)) [
          | none ↦ none
          | some (false, file') ↦ some (record rep { file = file'; is_ok = false }, handle)
          | some (true, file') ↦ some (
            record {
              file = file';
              offset = (rep.offset + (length contents + k_block_trailer_size)) % 2 ^ 64;
              is_ok = true;
            },
            handle,
          )
        ]
      ]

  module _ (snappy : Snappy) (compression : CompressionType) where
    -- TableBuilder::WriteBlock, with the block's builder afterwards.
    unfoldable pub write_block :
        TableFile → BlockBuilder → Option (TableFile × BlockHandle × BlockBuilder)
    write_block rep block =
        let finished = finish host block in
        let chosen = stored snappy compression finished.buffer in
        elim (write_raw_block rep chosen.0 chosen.1) [
          | none ↦ none
          | some (rep', handle) ↦ some (rep', handle, reset finished)
        ]

-- The fields of TableBuilder::Rep that flush uses.
pub record TableBuilder : Type 0 where
  pub rep : TableFile
  pub datablock : BlockBuilder
  pub pendingindexentry : Bool
  pub blockhandle : BlockHandle
  pub closed : Bool

module _ (host : ByteOrder) (value : List ℕ → ℕ) (extend : ℕ → List ℕ → ℕ) (snappy : Snappy)
    (compression : CompressionType) where
  -- The data block written and the file flushed, whose status is kept.
  unfoldable pub flush_data : TableBuilder → Option TableBuilder
  flush_data b = elim (write_block host value extend snappy compression b.rep b.datablock) [
    | none ↦ none
    | some (rep', handle, block) ↦ elim (flush rep'.file) [
      | none ↦ none
      | some (ok, file) ↦ some (record b {
        rep = record rep' { file = file; is_ok = ok };
        datablock = block;
        pendingindexentry = true;
        blockhandle = handle;
      })
    ]
  ]

  -- TableBuilder::flush
  unfoldable pub flush_table : TableBuilder → Option TableBuilder
  flush_table b =
      let written = flush_data b in
      if b.closed
      then none
      else if length b.datablock.buffer == 0
      then some b
      else if b.pendingindexentry
      then none
      else written
