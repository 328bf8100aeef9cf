-- ===== src/Redisdb/Table/Flushed.antt =====
-- TableBuilder::flush where the data block cannot be written (redisdb/db/tablebuilder.cc).
use cpp_swiss_army_knife.Common.{
  ℕ, ◌+◌, ◌^◌, ◌<◌, ◌≡◌, refl, sym, ap, ◌∙◌, subst, Bool, true, false, List, [], Option, none, some,
  ◌==◌, length, if◌then◌else◌,
}
use cpp_swiss_army_knife.Redisdb.Coding.{ByteOrder}
use cpp_swiss_army_knife.Redisdb.Block.{BlockBuilder, finish}
use cpp_swiss_army_knife.Redisdb.WritableFile.{
  WritableFile, flush, flush_buffer, write_unbuffered, write_loop,
}
use cpp_swiss_army_knife.Redisdb.WritableFile.Appended.{content}
use cpp_swiss_army_knife.Redisdb.Table.{BlockHandle, Snappy, CompressionType, k_block_trailer_size}
use cpp_swiss_army_knife.Redisdb.Table.Builder.{
  TableFile, TableBuilder, stored, write_raw_block, write_block, flush_data, flush_table,
}
use cpp_swiss_army_knife.Redisdb.Table.Written.{
  IsTableFile, Holds, WroteRaw, write_raw_block-WroteRaw, block_by, block_of,
}

-- flush of an empty buffer.
flush-empty : (w : WritableFile) → w.buf ≡ [] → flush w ≡ some (true, record w { buf = [] })
unfolding flush flush_buffer write_unbuffered write_loop
flush-empty w e = rw (e) refl

-- The tests of flush.
goes_on :
    (closed empty pending : Bool) (written same : Option TableBuilder)
    → closed ≡ false
    → empty ≡ false
    → pending ≡ false
    → (if closed then none else if empty then same else if pending then none else written) ≡ written
goes_on closed empty pending written same c e p = rw (c, e, p) refl

module _ (host : ByteOrder) (value : List ℕ → ℕ) (extend : ℕ → List ℕ → ℕ) where
  cut_off :
      (rep : TableFile) (c : List ℕ) (type : CompressionType) (finished : BlockBuilder)
      (r : Option (TableFile × BlockHandle)) (rep' : TableFile) (handle : BlockHandle)
      (block : BlockBuilder)
      → WroteRaw host value extend rep c type r
      → block_by host value extend finished r ≡ some (rep', handle, block)
      → rep'.is_ok ≡ false
      → rep'.file.buf ≡ []
  cut_off rep c type finished none rep' handle block h e lost = cc
  cut_off rep c type finished (some (rep1, handle1)) rep' handle block h e lost =
      let same : rep1 ≡ rep' = cc in
      let failed : rep1.is_ok ≡ false = ap (λ (t : TableFile). t.is_ok) same ∙ lost in
      ap (λ (t : TableFile). t.file.buf) (sym same)
      ∙ subst (Holds host value extend rep c type rep1 handle1) failed h

  module _ (snappy : Snappy) (compression : CompressionType) where
    written_file :
        (b : TableBuilder) (rep' : TableFile) (handle : BlockHandle) (block : BlockBuilder)
        → write_block host value extend snappy compression b.rep b.datablock
          ≡ some (rep', handle, block)
        → rep'.file.buf ≡ []
        → flush_data host value extend snappy compression b
          ≡ some (record b {
            rep = record rep' { file = record rep'.file { buf = [] }; is_ok = true };
            datablock = block;
            pendingindexentry = true;
            blockhandle = handle;
          })
    unfolding flush_data
    written_file b rep' handle block e f =
        let flushed = flush-empty rep'.file f in rw (e, flush_data) (rw (flushed) refl)

    -- TableBuilder::flush loses an error: for a builder that is not closed, with a data block and
    -- no pending index entry, over a file whose offset is that of its end, if WriteBlock of the
    -- data block ends with an error then flush still ends, and the builder's status is OK.
    pub flush_table_loses :
        (b : TableBuilder) (rep' : TableFile) (handle : BlockHandle) (block : BlockBuilder)
        → b.closed ≡ false
        → b.pendingindexentry ≡ false
        → (length b.datablock.buffer == 0) ≡ false
        → IsTableFile b.rep
        → length (content b.rep.file)
            + (length (stored snappy compression (finish host b.datablock).buffer).0
                + k_block_trailer_size)
          < 2 ^ 64
        → write_block host value extend snappy compression b.rep b.datablock
          ≡ some (rep', handle, block)
        → rep'.is_ok ≡ false
        → (b' : TableBuilder) × (flush_table host value extend snappy compression b ≡ some b')
          × (b'.rep.is_ok ≡ true)
    unfolding flush_table
    flush_table_loses b rep' handle block open' pending full is small e lost =
        let chosen = stored snappy compression (finish host b.datablock).buffer in
        let raw = write_raw_block host value extend b.rep chosen.0 chosen.1 in
        let empty =
          cut_off b.rep chosen.0 chosen.1 (finish host b.datablock) raw rep' handle block
            (write_raw_block-WroteRaw host value extend b.rep chosen.0 chosen.1 is small)
            (sym (block_of host value extend snappy compression b.rep b.datablock) ∙ e) lost in
        let done = written_file b rep' handle block e empty in
        (
          record b {
            rep = record rep' { file = record rep'.file { buf = [] }; is_ok = true };
            datablock = block;
            pendingindexentry = true;
            blockhandle = handle;
          },
          goes_on b.closed (length b.datablock.buffer == 0) b.pendingindexentry
                (flush_data host value extend snappy compression b) (some b) open' full pending
              ∙ done,
          refl,
        )
