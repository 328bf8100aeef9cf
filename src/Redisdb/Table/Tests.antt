-- ===== src/Redisdb/Table/Tests.antt =====
-- Runs of redisdb/db/format.cc, and the theorems at concrete inputs.
use cpp_swiss_army_knife.Common.{
  ℕ, ◌+◌, ◌%◌, ◌^◌, ◌≡◌, refl, true, false, List, [], ◌∷◌, ◌++◌, Option, some, length, drop,
  replicate, length-replicate, arith,
}
use cpp_swiss_army_knife.Redisdb.Coding.{
  little_endian, encode_fixed32, put_fixed32, object_bytes, le_bytes,
}
use cpp_swiss_army_knife.Redisdb.Block.{BlockBuilder, new_builder, finish, reset, put_restarts}
use cpp_swiss_army_knife.Redisdb.WritableFile.{
  took, failed, append, flush_buffer, write_unbuffered, write_loop,
}
use cpp_swiss_army_knife.Redisdb.Table.{
  Snappy, no_compression, Footer, encoded_length, encode_footer, footer_of, decode_footer,
}
use cpp_swiss_army_knife.Redisdb.Table.Builder.{
  TableFile, write_block, write_raw_block, stored, TableBuilder, flush_table,
}
use cpp_swiss_army_knife.Redisdb.WritableFile.Appended.{content}
use cpp_swiss_army_knife.Redisdb.Table.Flushed.{flush_table_loses}
use cpp_swiss_army_knife.Redisdb.Table.Handles.{decode_footer-encode_footer}

-- A checksum for the runs: the sum of the bytes.
abbrev sum_from : ℕ → List ℕ → ℕ
sum_from crc [] = crc
sum_from crc (x ∷ xs) = sum_from ((crc + x) % 2 ^ 32) xs

-- A format that puts a byte in front.
abbrev marked : List ℕ → Option (List ℕ)
marked raw = some (0 ∷ raw)

abbrev unmarked : List ℕ → Option (List ℕ)
unmarked compressed = some (drop 1 compressed)

abbrev marking : Snappy
marking = record {
  compress = marked;
  get_uncompressed_length = λ compressed. some (length (drop 1 compressed));
  uncompress = unmarked;
}

abbrev new_table : TableFile
new_table = record {
  file = record { buf = []; manifest = false; written = []; results = took 65536 ∷ [] };
  offset = 0;
  is_ok = true;
}

abbrev footer : Footer
footer = record {
  metaindexhandle = record { offset = 4096; size = 8 };
  index_handle = record { offset = 4109; size = 300 };
}

decode_footer-encode_footer_example :
    (bytes : List ℕ) × (encode_footer little_endian [] footer ≡ some bytes)
    × (length bytes ≡ encoded_length)
    × (decode_footer little_endian (bytes ++ 1 ∷ []) ≡ footer_of footer (1 ∷ []))
decode_footer-encode_footer_example =
    decode_footer-encode_footer little_endian footer (1 ∷ [])
      ((omega arith, omega arith), (omega arith, omega arith))

-- A file with a full buffer, and a disk that takes no more.
abbrev full_table : TableFile
full_table = record {
  file = record { buf = replicate 65536 7; manifest = false; written = []; results = failed ∷ [] };
  offset = 65536;
  is_ok = true;
}

abbrev one_byte : BlockBuilder
one_byte = record new_builder { buffer = 1 ∷ [] }

abbrev builder : TableBuilder
builder = record {
  rep = full_table;
  datablock = one_byte;
  pendingindexentry = false;
  blockhandle = record { offset = 0; size = 0 };
  closed = false;
}

abbrev lost_table : TableFile
lost_table = record {
  file = record { buf = []; manifest = false; written = []; results = [] };
  offset = 65536;
  is_ok = false;
}

lost_run :
    write_block little_endian (sum_from 0) sum_from marking no_compression full_table one_byte
    ≡ some (lost_table, record { offset = 65536; size = 9 }, reset (finish little_endian one_byte))
unfolding write_block write_raw_block stored finish put_restarts put_fixed32 encode_fixed32
    object_bytes le_bytes append flush_buffer write_unbuffered write_loop
lost_run = refl

full_size : 65536 ≡ length (content full_table.file)
full_size = omega (arith, length-replicate {A = ℕ} 65536 7)

flush_table_loses_example :
    (b' : TableBuilder) × (flush_table little_endian
        (sum_from 0)
        sum_from
        marking
        no_compression
        builder
      ≡ some b')
    × (b'.rep.is_ok ≡ true)
unfolding stored finish put_restarts put_fixed32 encode_fixed32 object_bytes le_bytes
flush_table_loses_example =
    flush_table_loses little_endian (sum_from 0) sum_from marking no_compression builder lost_table
      (record { offset = 65536; size = 9 }) (reset (finish little_endian one_byte)) refl refl refl
      (omega (arith, full_size), full_size) (omega (arith, full_size)) lost_run refl
