-- ===== src/Redisdb/Table/Written.antt =====
-- What TableBuilder::WriteBlock leaves in the file, and that ReadBlock finds it there
-- (redisdb/db/tablebuilder.cc, format.cc, env.h).
use cpp_swiss_army_knife.Common.{
  ℕ, ◌+◌, ◌%◌, ◌^◌, ◌≤◌, ◌<◌, ◌≡◌, refl, sym, ap, ◌∙◌, subst, Bool, true, false, inl, inr,
  Option-cases, List, [], ◌++◌, Option, none, some, length, append_assoc, length-append, arith,
}
use cpp_swiss_army_knife.Redisdb.Coding.{ByteOrder}
use cpp_swiss_army_knife.Redisdb.Block.{BlockBuilder, finish, reset}
use cpp_swiss_army_knife.Redisdb.WritableFile.{
  WritableFile, k_writable_file_buffer_size, append, flush,
}
use cpp_swiss_army_knife.Redisdb.WritableFile.Written.{progress}
use cpp_swiss_army_knife.Redisdb.WritableFile.Appended.{content, AppendedBy}
use cpp_swiss_army_knife.Redisdb.WritableFile.Append.{append-AppendedBy}
use cpp_swiss_army_knife.Redisdb.Table.{BlockHandle, Snappy, CompressionType, k_block_trailer_size}
use cpp_swiss_army_knife.Redisdb.Table.Builder.{
  TableFile, stored, trailer, write_raw_block, write_block,
}
use cpp_swiss_army_knife.Redisdb.Table.Reader.{read_block}
use cpp_swiss_army_knife.Redisdb.Table.Blocks.{read_at, contents_of, length-trailer}

-- A file whose offset is that of its end.
abbrev pub IsTableFile : TableFile → Type 0
IsTableFile rep =
    (length rep.file.buf ≤ k_writable_file_buffer_size) × (rep.offset ≡ length (content rep.file))

module _ (host : ByteOrder) (value : List ℕ → ℕ) (extend : ℕ → List ℕ → ℕ) where
  -- After an error the buffer is empty. Else: a handle of the bytes `c` with their trailer, which
  -- stand at the end of the file.
  abbrev pub Holds : TableFile → List ℕ → CompressionType → TableFile → BlockHandle → Bool → Type 0
  Holds rep c type rep' handle false = rep'.file.buf ≡ []
  Holds rep c type rep' handle true =
      (content rep'.file ≡ content rep.file ++ (c ++ trailer host value extend c type))
      × (handle ≡ record { offset = length (content rep.file); size = length c })
      × IsTableFile rep'

  abbrev pub WroteRaw :
      TableFile → List ℕ → CompressionType → Option (TableFile × BlockHandle) → Type 0
  WroteRaw rep c type none =
      progress rep.file.results < length rep.file.buf + (length c + k_block_trailer_size)
  WroteRaw rep c type (some (rep', handle)) = Holds rep c type rep' handle rep'.is_ok

  abbrev trailer_by :
      TableFile → List ℕ → Option (Bool × WritableFile) → Option (TableFile × BlockHandle)
  trailer_by rep c none = none
  trailer_by rep c (some (false, file')) =
      some (
        record rep { file = file'; is_ok = false },
        record { offset = rep.offset; size = length c },
      )
  trailer_by rep c (some (true, file')) = some (
    record {
      file = file';
      offset = (rep.offset + (length c + k_block_trailer_size)) % 2 ^ 64;
      is_ok = true;
    },
    record { offset = rep.offset; size = length c },
  )

  abbrev raw_by :
      TableFile
      → List ℕ
      → CompressionType
      → Option (Bool × WritableFile)
      → Option (TableFile × BlockHandle)
  raw_by rep c type none = none
  raw_by rep c type (some (false, file)) =
      some
        (record rep { file = file; is_ok = false }, record { offset = rep.offset; size = length c })
  raw_by rep c type (some (true, file)) =
      trailer_by rep c (append file (trailer host value extend c type))

  raw_of :
      (rep : TableFile) (c : List ℕ) (type : CompressionType)
      → write_raw_block host value extend rep c type ≡ raw_by rep c type (append rep.file c)
  unfolding write_raw_block
  raw_of rep c type = elim (Option-cases (append rep.file c)) [
    | inl e ↦ rw (e, write_raw_block) refl
    | inr ((false, file), e) ↦ rw (e, write_raw_block) refl
    | inr ((true, file), e) ↦
        rw (e, write_raw_block)
          (elim (Option-cases (append file (trailer host value extend c type))) [
            | inl f ↦ rw (f) refl
            | inr ((false, file'), f) ↦ rw (f) refl
            | inr ((true, file'), f) ↦ rw (f) refl
          ])
  ]

  trailer-WroteRaw :
      (rep : TableFile) (c : List ℕ) (type : CompressionType) (file : WritableFile)
      (r : Option (Bool × WritableFile))
      → rep.offset ≡ length (content rep.file)
      → length (content rep.file) + (length c + k_block_trailer_size) < 2 ^ 64
      → AppendedBy rep.file c (some (true, file))
      → AppendedBy file (trailer host value extend c type) r
      → WroteRaw rep c type (trailer_by rep c r)
  trailer-WroteRaw rep c type file none o b first h = omega (
    arith,
    first.2,
    h,
    ap length first.0,
    length-append file.written file.buf,
    length-append (content rep.file) c,
    length-append rep.file.written rep.file.buf,
    length-append file.buf (trailer host value extend c type),
    length-trailer host value extend c type,
  )
  trailer-WroteRaw rep c type file (some (false, file')) o b first h = h.4
  trailer-WroteRaw rep c type file (some (true, file')) o b first h =
      let end = trailer host value extend c type in
      let all : content file' ≡ content rep.file ++ (c ++ end) =
        h.0 ∙ ap (λ (t : List ℕ). t ++ end) first.0 ∙ append_assoc (content rep.file) c end in
      let size : (rep.offset + (length c + k_block_trailer_size)) % 2 ^ 64
          ≡ length (content file') =
        omega (
          arith,
          o,
          b,
          ap length all,
          length-append (content rep.file) (c ++ end),
          length-append c end,
          length-trailer host value extend c type,
        ) in
      (all, ap (λ (k : ℕ). record { offset = k; size = length c }) o, (h.1, size))

  raw-WroteRaw :
      (rep : TableFile) (c : List ℕ) (type : CompressionType) (r : Option (Bool × WritableFile))
      → rep.offset ≡ length (content rep.file)
      → length (content rep.file) + (length c + k_block_trailer_size) < 2 ^ 64
      → AppendedBy rep.file c r
      → WroteRaw rep c type (raw_by rep c type r)
  raw-WroteRaw rep c type none o b h = omega (arith, h, length-append rep.file.buf c)
  raw-WroteRaw rep c type (some (false, file)) o b h = h.4
  raw-WroteRaw rep c type (some (true, file)) o b h =
      trailer-WroteRaw rep c type file (append file (trailer host value extend c type)) o b h
        (append-AppendedBy file (trailer host value extend c type) h.1)

  pub write_raw_block-WroteRaw :
      (rep : TableFile) (c : List ℕ) (type : CompressionType)
      → IsTableFile rep
      → length (content rep.file) + (length c + k_block_trailer_size) < 2 ^ 64
      → WroteRaw rep c type (write_raw_block host value extend rep c type)
  write_raw_block-WroteRaw rep c type (buf, o) b =
      subst (WroteRaw rep c type) (sym (raw_of rep c type))
        (raw-WroteRaw rep c type (append rep.file c) o b (append-AppendedBy rep.file c buf))

  abbrev pub block_by :
      BlockBuilder
      → Option (TableFile × BlockHandle)
      → Option (TableFile × BlockHandle × BlockBuilder)
  block_by finished none = none
  block_by finished (some (rep', handle)) = some (rep', handle, reset finished)

  pub block_of :
      (snappy : Snappy) (compression : CompressionType) (rep : TableFile) (block : BlockBuilder)
      → write_block host value extend snappy compression rep block
        ≡ block_by (finish host block) (
            write_raw_block host value extend rep
              (stored snappy compression (finish host block).buffer).0
              (stored snappy compression (finish host block).buffer).1)
  unfolding write_block
  block_of snappy compression rep block =
      let chosen = stored snappy compression (finish host block).buffer in
      elim (Option-cases (write_raw_block host value extend rep chosen.0 chosen.1)) [
        | inl e ↦ rw (e, write_block) refl
        | inr ((rep', handle), e) ↦ rw (e, write_block) refl
      ]

  module _ (snappy : Snappy) (compression : CompressionType) (verifychecksums own_data : Bool)
      (more : List ℕ) where
    -- What a flush of the file then comes to: it waits only where ::write has too few answers of
    -- progress; if it is OK, the handle reads the block `raw` from the bytes that the kernel has of
    -- the file, whatever is appended later; after an error the buffer is empty.
    abbrev ReadsFlushed : TableFile → List ℕ → BlockHandle → Option (Bool × WritableFile) → Type 0
    ReadsFlushed rep raw handle none = progress rep.file.results < length rep.file.buf
    ReadsFlushed rep raw handle (some (false, file)) = file.buf ≡ []
    ReadsFlushed rep raw handle (some (true, file)) =
        (file.written ≡ content rep.file)
        × (contents_of (
              read_block host value snappy verifychecksums own_data (read_at (file.written ++ more))
                handle)
            ≡ some raw)

    -- After an error the buffer is empty. Else a flush of the file makes the block readable.
    abbrev Reads : TableFile → List ℕ → TableFile → BlockHandle → Bool → Type 0
    Reads rep raw rep' handle false = rep'.file.buf ≡ []
    Reads rep raw rep' handle true =
        ((bytes : List ℕ) × (content rep'.file ≡ content rep.file ++ bytes))
        × IsTableFile rep'
        × ReadsFlushed rep' raw handle (flush rep'.file)

    abbrev pub ReadsBack :
        TableFile → BlockBuilder → Option (TableFile × BlockHandle × BlockBuilder) → Type 0
    ReadsBack rep block none =
        progress rep.file.results
        < length rep.file.buf
          + (length (stored snappy compression (finish host block).buffer).0 + k_block_trailer_size)
    ReadsBack rep block (some (rep', handle, block')) =
        (block' ≡ reset (finish host block))
        × Reads rep (finish host block).buffer rep' handle rep'.is_ok
