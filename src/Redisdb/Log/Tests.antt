-- ===== src/Redisdb/Log/Tests.antt =====
-- Runs of the log of redisdb/db, and the theorems at concrete inputs.
use cpp_swiss_army_knife.Common.{ℕ, ◌+◌, ◌%◌, ◌^◌, ◌<◌, ◌≡◌, refl, List, [], ◌∷◌, some, true, arith}
use cpp_swiss_army_knife.Redisdb.Coding.{little_endian}
use cpp_swiss_army_knife.Redisdb.Log.{
  LogWriter, new_writer, physical_record, emit_physical_record, switch_block, type_of_fragment,
  add_record_loop, add_record,
}
use cpp_swiss_army_knife.Redisdb.Log.Written.{Writes, add_record-Writes}
use cpp_swiss_army_knife.Redisdb.Log.Reader.{LogReader, new_reader, read_record}
use cpp_swiss_army_knife.Redisdb.Log.Total.{Returns, read_record-Returns}
use cpp_swiss_army_knife.Redisdb.Log.RoundTrip.{add_records, read_records, read_records-add_records}

-- A checksum for the runs: the sum of the bytes.
abbrev sum : List ℕ → ℕ
sum [] = 0
sum (x ∷ xs) = (x + sum xs) % 2 ^ 32

sum_word : (xs : List ℕ) → sum xs < 2 ^ 32
sum_word [] = omega arith
sum_word (x ∷ xs) = omega arith

-- A writer four bytes before the end of a block.
abbrev near_end : LogWriter
near_end = record { dest = []; blockoffset = 32764 }

-- It fills the block with a trailer, and the record starts the next one.
near_end_run :
    add_record little_endian sum near_end (7 ∷ 8 ∷ [])
    ≡ some (record {
      dest = 0 ∷ 0 ∷ 0 ∷ 0 ∷ physical_record little_endian sum 1 (7 ∷ 8 ∷ []);
      blockoffset = 9;
    })
unfolding add_record add_record_loop switch_block emit_physical_record type_of_fragment
near_end_run = refl

add_record-Writes_example :
    Writes little_endian sum near_end true
      (7 ∷ 8 ∷ [])
      (add_record little_endian sum near_end (7 ∷ 8 ∷ []))
add_record-Writes_example = add_record-Writes little_endian sum near_end (7 ∷ 8 ∷ []) (omega arith)

abbrev two_records : List (List ℕ)
two_records = (7 ∷ 8 ∷ []) ∷ [] ∷ []

read_records-add_records_example :
    (w : LogWriter) × (add_records little_endian sum new_writer two_records ≡ some w)
    × ((r : LogReader) × (read_records little_endian sum 3 (new_reader w.dest true 0)
          ≡ some (two_records, r))
        × (r.reports ≡ []))
read_records-add_records_example =
    read_records-add_records little_endian sum sum_word two_records true

-- A file of seven bytes that are no record.
read_record-Returns_example :
    Returns little_endian sum
      (read_record little_endian sum (new_reader (9 ∷ 9 ∷ 9 ∷ 9 ∷ 0 ∷ 0 ∷ 3 ∷ []) true 5))
read_record-Returns_example =
    read_record-Returns little_endian sum (new_reader (9 ∷ 9 ∷ 9 ∷ 9 ∷ 0 ∷ 0 ∷ 3 ∷ []) true 5)
