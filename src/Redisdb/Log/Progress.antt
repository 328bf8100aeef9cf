-- ===== src/Redisdb/Log/Progress.antt =====
-- LogReader (redisdb/db/logreader.cc) on a file of any bytes: ReadPhysicalRecord ends, and takes in
-- bytes.
use cpp_swiss_army_knife.Common.{
  ℕ, suc, ◌+◌, ◌≤◌, ◌<◌, ◌≡◌, refl, ◌∙◌, List, [], ◌∷◌, ◌++◌, Option, some, Bool, true, false,
  Bool-cases, inl, inr, arith, ltb, leb, ◌==◌, if◌then◌else◌, length, take, drop, length-take,
  length-drop, ◌⊎◌, not, ◌&&◌,
}
use cpp_swiss_army_knife.Redisdb.Coding.{ByteOrder, decode_fixed32}
use cpp_swiss_army_knife.Redisdb.Log.{
  zero_type, eof_type, bad_record, k_block_size, log_header_size, unmask,
}
use cpp_swiss_army_knife.Redisdb.Log.Fetch.{loop_short, loop_ready}
use cpp_swiss_army_knife.Redisdb.Log.Reader.{
  LogReader, Physical, Reason, minus64, bad_length, checksum_mismatch, report_drop, emptied,
  without, parse_sized, parse_header, read_block, read_physical_loop, read_physical_record,
}

abbrev pub remaining : LogReader → ℕ
remaining r = length r.buffer + length r.file

pub if_either :
    {A : Type 0} (P : A → Type 0) (b : Bool) (x y : A) → P x → P y → P (if b then x else y)
if_either P true x y px py = px
if_either P false x y px py = py

pub remaining-report_drop :
    (r : LogReader) (bytes : ℕ) (reason : Reason)
    → remaining (report_drop r bytes reason) ≡ remaining r
unfolding report_drop
remaining-report_drop r bytes reason =
    if_either (λ (r' : LogReader). remaining r' ≡ remaining r)
      (leb r.initialoffset (minus64 (minus64 r.endofbufferoffset (length r.buffer)) bytes))
      (record r { reports = r.reports ++ (bytes, reason) ∷ [] }) r refl refl

header_missing : (n : ℕ) → ltb n log_header_size ≡ true → n < log_header_size
header_missing n e = ground arith

header_there : (n : ℕ) → ltb n log_header_size ≡ false → log_header_size ≤ n
header_there n e = ground arith

below_block : (n : ℕ) → n < log_header_size → ltb n k_block_size ≡ true
below_block n h = ground arith

abbrev Shrinks : LogReader → Physical → Type 0
Shrinks r p = remaining p.reader < remaining r

emptied_shrinks :
    (r : LogReader) → log_header_size ≤ length r.buffer → remaining (emptied r) < remaining r
emptied_shrinks r h = omega arith

dropped_shrinks :
    (r : LogReader) (size : ℕ)
    → log_header_size ≤ length r.buffer
    → length (drop (log_header_size + size) r.buffer) + length r.file < remaining r
dropped_shrinks r size h = omega (arith, length-drop (log_header_size + size) r.buffer)

reported-Shrinks :
    (r : LogReader) (bytes t : ℕ) (reason : Reason)
    → log_header_size ≤ length r.buffer
    → Shrinks r (without (report_drop (emptied r) bytes reason) t)
reported-Shrinks r bytes t reason h =
    omega (arith, remaining-report_drop (emptied r) bytes reason, emptied_shrinks r h)

-- The branches of ReadPhysicalRecord behind a header, by their tests.
abbrev parse_by : LogReader → ℕ → ℕ → Bool → Bool → Bool → Bool → Bool → Physical
parse_by r size type too_long at_eof preallocated corrupt early =
    let r' = record r { buffer = drop (log_header_size + size) r.buffer } in
    if too_long
    then (if at_eof
        then without (emptied r) eof_type
        else without (report_drop (emptied r) (length r.buffer) bad_length) bad_record)
    else if preallocated
    then without (emptied r) bad_record
    else if corrupt
    then without (report_drop (emptied r) (length r.buffer) checksum_mismatch) bad_record
    else if early
    then without r' bad_record
    else record { type = type; fragment = take size (drop log_header_size r.buffer); reader = r' }

parse_by-Shrinks :
    (r : LogReader) (size type : ℕ)
    → log_header_size ≤ length r.buffer
    → (too_long at_eof preallocated corrupt early : Bool)
    → Shrinks r (parse_by r size type too_long at_eof preallocated corrupt early)
parse_by-Shrinks r size type h true true p c i = emptied_shrinks r h
parse_by-Shrinks r size type h true false p c i =
    reported-Shrinks r (length r.buffer) bad_record bad_length h
parse_by-Shrinks r size type h false e true c i = emptied_shrinks r h
parse_by-Shrinks r size type h false e false true i =
    reported-Shrinks r (length r.buffer) bad_record checksum_mismatch h
parse_by-Shrinks r size type h false e false false true = dropped_shrinks r size h
parse_by-Shrinks r size type h false e false false false = dropped_shrinks r size h

module _ (host : ByteOrder) (crc_of : List ℕ → ℕ) where
  parse_sized-Shrinks :
      (r : LogReader) (size type : ℕ)
      → log_header_size ≤ length r.buffer
      → Shrinks r (parse_sized host crc_of r size type)
  unfolding parse_sized
  parse_sized-Shrinks r size type h =
      let r' : LogReader = record r { buffer = drop (log_header_size + size) r.buffer } in
      parse_by-Shrinks r size type h (ltb (length r.buffer) (log_header_size + size)) r.eof
        ((type == zero_type) && (size == 0))
        (r.checksum
          && not
              (crc_of (take (1 + size) (drop 6 r.buffer)) == unmask (decode_fixed32 host r.buffer)))
        (ltb
          (minus64 (minus64 (minus64 r'.endofbufferoffset (length r'.buffer)) log_header_size) size)
          r.initialoffset)

  parse_header-Shrinks :
      (r : LogReader) → log_header_size ≤ length r.buffer → Shrinks r (parse_header host crc_of r)
  unfolding parse_header
  parse_header-Shrinks r h = parse_sized-Shrinks r _ _ h

  -- A physical record at the end of the file, or one that takes in bytes.
  abbrev pub Progress : LogReader → Option Physical → Type 0
  Progress r o =
      (p : Physical) × (o ≡ some p) × ((p.type ≡ eof_type) ⊎ (remaining p.reader < remaining r))

  Progress-ready :
      (fuel : ℕ) (r : LogReader)
      → log_header_size ≤ length r.buffer
      → Progress r (read_physical_loop host crc_of (suc fuel) r)
  Progress-ready fuel r h =
      (parse_header host crc_of r, loop_ready host crc_of fuel r h, inr (parse_header-Shrinks r h))

  -- Behind a block that is read there is a header, or the end.
  Progress-block :
      (fuel : ℕ) (r : LogReader)
      → Progress r (read_physical_loop host crc_of (suc fuel) (read_block r))
  unfolding read_block
  Progress-block fuel r =
      let block = take k_block_size r.file in
      let size : length block ≤ length r.file = omega (arith, length-take k_block_size r.file) in
      let rest : length block + length (drop k_block_size r.file) ≡ length r.file =
        omega (arith, length-take k_block_size r.file, length-drop k_block_size r.file) in
      elim (Bool-cases (ltb (length block) log_header_size)) [
        | inl e ↦
            let short = header_missing (length block) e in
            let at_eof : (read_block r).eof ≡ true = below_block (length block) short in
            (
              without (emptied (read_block r)) eof_type,
              loop_short host crc_of fuel (read_block r) true short at_eof,
              inl refl,
            )
        | inr e ↦
            let long : log_header_size ≤ length (read_block r).buffer =
              header_there (length block) e in
            let fewer = parse_header-Shrinks (read_block r) long in
            (
              parse_header host crc_of (read_block r),
              loop_ready host crc_of fuel (read_block r) long,
              inr (omega (arith, fewer, rest)),
            )
      ]

  pub read_physical_record-Progress :
      (r : LogReader) → Progress r (read_physical_record host crc_of r)
  unfolding read_physical_record
  read_physical_record-Progress r = elim (Bool-cases (ltb (length r.buffer) log_header_size)) [
    | inr e ↦ Progress-ready 2 r (header_there (length r.buffer) e)
    | inl e ↦
        let short = header_missing (length r.buffer) e in
        elim (Bool-cases r.eof) [
          | inl at_eof ↦
              (without (emptied r) eof_type, loop_short host crc_of 2 r true short at_eof, inl refl)
          | inr more ↦
              let got = Progress-block 1 r in
              (got.0, loop_short host crc_of 2 r false short more ∙ got.1, got.2)
        ]
  ]
