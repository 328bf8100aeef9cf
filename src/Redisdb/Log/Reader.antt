-- ===== src/Redisdb/Log/Reader.antt =====
-- class LogReader (redisdb/db/logreader.h, logreader.cc): records put together from the fragments of a
-- file.
--
-- The file is the list of the bytes that are still to be read, its reads succeed, and a reporter is
-- there: `reports` are the sizes that it is told with the reasons. Offsets are uint64_t.
use cpp_swiss_army_knife.Common.{
  ℕ, zero, suc, ◌+◌, ◌-◌, ◌*◌, ◌%◌, ◌^◌, List, [], ◌∷◌, ◌++◌, Option, none, some, Bool, true, false,
  not, ◌&&◌, ltb, leb, ◌==◌, if◌then◌else◌, length, take, drop, get_or,
}
use cpp_swiss_army_knife.Redisdb.Coding.{ByteOrder, decode_fixed32}
use cpp_swiss_army_knife.Redisdb.Log.{
  zero_type, full_type, first_type, middle_type, last_type, eof_type, bad_record, k_block_size,
  log_header_size, unmask,
}

pub data Reason : Type 0 where
  bad_length checksum_mismatch no_end_full no_end_first no_start_middle no_start_last : Reason
  error_in_middle unknown_type skip_failed : Reason

pub record LogReader : Type 0 where
  pub file : List ℕ
  pub buffer : List ℕ
  pub eof : Bool
  pub checksum : Bool
  pub lastrecordoffset : ℕ
  pub endofbufferoffset : ℕ
  pub initialoffset : ℕ
  pub resyncing : Bool
  pub reports : List (ℕ × Reason)

abbrev pub minus64 : ℕ → ℕ → ℕ
minus64 a b = (a + (2 ^ 64 - b % 2 ^ 64)) % 2 ^ 64

-- The constructor.
abbrev pub new_reader : List ℕ → Bool → ℕ → LogReader
new_reader file checksum initialoffset = record {
  file = file;
  buffer = [];
  eof = false;
  checksum = checksum;
  lastrecordoffset = 0;
  endofbufferoffset = 0;
  initialoffset = initialoffset;
  resyncing = ltb 0 initialoffset;
  reports = [];
}

unfoldable pub report_drop : LogReader → ℕ → Reason → LogReader
report_drop r bytes reason =
    if leb r.initialoffset (minus64 (minus64 r.endofbufferoffset (length r.buffer)) bytes)
    then record r { reports = r.reports ++ (bytes, reason) ∷ [] }
    else r

-- SkipToInitialBlock. SequentialFile::Skip moves behind that many bytes.
unfoldable pub skip_to_initial_block : LogReader → LogReader
skip_to_initial_block r =
    let in_block = r.initialoffset % k_block_size in
    let start = r.initialoffset - in_block in
    let start' = if ltb (k_block_size - 6) in_block then start + k_block_size else start in
    record r { endofbufferoffset = start'; file = drop start' r.file }

-- What ReadPhysicalRecord returns, its result and the reader afterwards.
pub record Physical : Type 0 where
  pub type : ℕ
  pub fragment : List ℕ
  pub reader : LogReader

-- header[6], a char, as an unsigned int.
abbrev pub char_value : ℕ → ℕ
char_value c = if ltb c 128 then c else 2 ^ 32 - 256 + c

abbrev pub without : LogReader → ℕ → Physical
without r t = record { type = t; fragment = []; reader = r }

abbrev pub emptied : LogReader → LogReader
emptied r = record r { buffer = [] }

-- file->read(kBlockSize, &buffer)
unfoldable pub read_block : LogReader → LogReader
read_block r =
    let block = take k_block_size r.file in
    record r {
      buffer = block;
      file = drop k_block_size r.file;
      endofbufferoffset = (r.endofbufferoffset + length block) % 2 ^ 64;
      eof = ltb (length block) k_block_size;
    }

-- The locals of ReadRecord.
pub record Assembly : Type 0 where
  pub scratch : List ℕ
  pub infragmented : Bool
  pub prospective : ℕ

-- How a round of ReadRecord's loop comes out.
pub data Round : Type 0 where
  complete : List ℕ → LogReader → Round
  at_end : LogReader → Round
  onward : Assembly → LogReader → Round

abbrev pub no_scratch : Assembly
no_scratch = record { scratch = []; infragmented = false; prospective = 0 }

-- The report of a full or first record that cuts another short.
abbrev pub report_partial : Assembly → LogReader → Reason → LogReader
report_partial a r reason =
    if a.infragmented && ltb 0 (length a.scratch)
    then report_drop r (length a.scratch) reason
    else r

-- The switch on the type of a physical record.
unfoldable pub assemble : Assembly → Physical → ℕ → Round
assemble a p offset =
    let r = p.reader in
    let bytes = p.fragment in
    if p.type == full_type
    then complete bytes (record (report_partial a r no_end_full) { lastrecordoffset = offset })
    else if p.type == first_type
    then onward (record { scratch = bytes; infragmented = true; prospective = offset })
        (report_partial a r no_end_first)
    else if p.type == middle_type
    then (if a.infragmented
        then onward (record a { scratch = a.scratch ++ bytes }) r
        else onward a (report_drop r (length bytes) no_start_middle))
    else if p.type == last_type
    then (if a.infragmented
        then complete (a.scratch ++ bytes) (record r { lastrecordoffset = a.prospective })
        else onward a (report_drop r (length bytes) no_start_last))
    else if p.type == eof_type
    then at_end r
    else if p.type == bad_record
    then (if a.infragmented
        then onward (record a { scratch = []; infragmented = false })
            (report_drop r (length a.scratch) error_in_middle)
        else onward a r)
    else onward (record a { scratch = []; infragmented = false })
        (report_drop r (length bytes + (if a.infragmented then length a.scratch else 0))
          unknown_type)

-- physicalrecordoffset
abbrev pub offset_of : Physical → ℕ
offset_of p =
    minus64 (minus64 (minus64 p.reader.endofbufferoffset (length p.reader.buffer)) log_header_size)
      (length p.fragment)

-- One round: the offset, the records that are skipped while resyncing, the switch.
unfoldable pub next_round : Assembly → Physical → Round
next_round a p =
    let r = p.reader in
    let offset = offset_of p in
    let r' = record r { resyncing = false } in
    if r.resyncing
    then (if p.type == middle_type
        then onward a r
        else if p.type == last_type
        then onward a r'
        else assemble a (record p { reader = r' }) offset)
    else assemble a p offset

module _ (host : ByteOrder) (crc_of : List ℕ → ℕ) where
  -- The part of ReadPhysicalRecord behind a buffer that holds a header, with its length and type.
  unfoldable pub parse_sized : LogReader → ℕ → ℕ → Physical
  parse_sized r size type =
      let r' = record r { buffer = drop (log_header_size + size) r.buffer } in
      if ltb (length r.buffer) (log_header_size + size)
      then (if r.eof
          then without (emptied r) eof_type
          else without (report_drop (emptied r) (length r.buffer) bad_length) bad_record)
      else if (type == zero_type) && (size == 0)
      then without (emptied r) bad_record
      else if r.checksum
          && not
              (crc_of (take (1 + size) (drop 6 r.buffer)) == unmask (decode_fixed32 host r.buffer))
      then without (report_drop (emptied r) (length r.buffer) checksum_mismatch) bad_record
      else if ltb
          (minus64 (minus64 (minus64 r'.endofbufferoffset (length r'.buffer)) log_header_size) size)
          r.initialoffset
      then without r' bad_record
      else record { type = type; fragment = take size (drop log_header_size r.buffer); reader = r' }

  unfoldable pub parse_header : LogReader → Physical
  parse_header r =
      parse_sized r (get_or r.buffer 4 0 + get_or r.buffer 5 0 * 2 ^ 8)
        (char_value (get_or r.buffer 6 0))

  -- The while loop of ReadPhysicalRecord: it reads a block at most twice.
  unfoldable pub read_physical_loop : ℕ → LogReader → Option Physical
  read_physical_loop zero r = none
  read_physical_loop (suc fuel) r = elim (ltb (length r.buffer) log_header_size) [
    | false ↦ some (parse_header r)
    | true ↦ elim r.eof [
      | true ↦ some (without (emptied r) eof_type)
      | false ↦ read_physical_loop fuel (read_block r)
    ]
  ]

  unfoldable pub read_physical_record : LogReader → Option Physical
  read_physical_record r = read_physical_loop 3 r

  -- The loop of ReadRecord: the record, or `none` at the end of the input, with the reader. Each round
  -- takes in a header, so the bytes that are left are fuel enough.
  unfoldable pub read_record_loop : ℕ → Assembly → LogReader → Option (Option (List ℕ) × LogReader)
  read_record_loop zero a r = none
  read_record_loop (suc fuel) a r = elim (read_physical_record r) [
    | none ↦ none
    | some p ↦ elim (next_round a p) [
      | complete bytes r' ↦ some (some bytes, r')
      | at_end r' ↦ some (none, r')
      | onward a' r' ↦ read_record_loop fuel a' r'
    ]
  ]

  unfoldable pub read_record : LogReader → Option (Option (List ℕ) × LogReader)
  read_record r =
      let r' = if ltb r.lastrecordoffset r.initialoffset then skip_to_initial_block r else r in
      read_record_loop (length r'.buffer + length r'.file + 1) no_scratch r'
