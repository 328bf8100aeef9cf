-- ===== src/Redisdb/Log/Total.antt =====
-- LogReader::ReadRecord (redisdb/db/logreader.cc) on a file of any bytes: its loops end.
use cpp_swiss_army_knife.Common.{
  ℕ, zero, suc, ◌+◌, ◌<◌, ◌≡◌, refl, sym, ap, ◌∙◌, subst, List, [], ◌++◌, Option, none, some, Bool,
  true, false, Bool-cases, inl, inr, arith, ltb, ◌==◌, if◌then◌else◌, length, ◌&&◌,
}
use cpp_swiss_army_knife.Redisdb.Coding.{ByteOrder}
use cpp_swiss_army_knife.Redisdb.Log.{
  full_type, first_type, middle_type, last_type, eof_type, bad_record,
}
use cpp_swiss_army_knife.Redisdb.Log.Reader.{
  LogReader, Physical, Assembly, Round, Reason, complete, at_end, onward, no_scratch, offset_of,
  report_drop, report_partial, no_end_full, no_end_first, no_start_middle, no_start_last,
  error_in_middle, unknown_type, next_round, assemble, read_physical_record, read_record_loop,
  read_record, skip_to_initial_block,
}
use cpp_swiss_army_knife.Redisdb.Log.Progress.{
  remaining, if_either, remaining-report_drop, read_physical_record-Progress,
}

-- How a round goes on: with the bytes that its physical record left.
abbrev Keeps : ℕ → Round → Type 0
Keeps n (complete bytes r) = Unit {0}
Keeps n (at_end r) = Unit {0}
Keeps n (onward a r) = remaining r ≡ n

remaining-report_partial :
    (a : Assembly) (r : LogReader) (reason : Reason)
    → remaining (report_partial a r reason) ≡ remaining r
remaining-report_partial a r reason =
    if_either (λ (r' : LogReader). remaining r' ≡ remaining r)
      (a.infragmented && ltb 0 (length a.scratch)) (report_drop r (length a.scratch) reason) r
      (remaining-report_drop r (length a.scratch) reason) refl

-- The cases of ReadRecord's switch, by their tests.
abbrev assemble_by :
    Assembly → Physical → ℕ → Bool → Bool → Bool → Bool → Bool → Bool → Bool → Round
assemble_by a p offset full first middle last eof bad in_record =
    let r = p.reader in
    let bytes = p.fragment in
    if full
    then complete bytes (record (report_partial a r no_end_full) { lastrecordoffset = offset })
    else if first
    then onward (record { scratch = bytes; infragmented = true; prospective = offset })
        (report_partial a r no_end_first)
    else if middle
    then (if in_record
        then onward (record a { scratch = a.scratch ++ bytes }) r
        else onward a (report_drop r (length bytes) no_start_middle))
    else if last
    then (if in_record
        then complete (a.scratch ++ bytes) (record r { lastrecordoffset = a.prospective })
        else onward a (report_drop r (length bytes) no_start_last))
    else if eof
    then at_end r
    else if bad
    then (if in_record
        then onward (record a { scratch = []; infragmented = false })
            (report_drop r (length a.scratch) error_in_middle)
        else onward a r)
    else onward (record a { scratch = []; infragmented = false })
        (report_drop r (length bytes + (if in_record then length a.scratch else 0)) unknown_type)

assemble_by-Keeps :
    (a : Assembly) (p : Physical) (o : ℕ) (full first middle last eof bad in_record : Bool)
    → Keeps (remaining p.reader) (assemble_by a p o full first middle last eof bad in_record)
assemble_by-Keeps a p o true f m l e b i = tt
assemble_by-Keeps a p o false true m l e b i = remaining-report_partial a p.reader no_end_first
assemble_by-Keeps a p o false false true l e b true = refl
assemble_by-Keeps a p o false false true l e b false =
    remaining-report_drop p.reader (length p.fragment) no_start_middle
assemble_by-Keeps a p o false false false true e b true = tt
assemble_by-Keeps a p o false false false true e b false =
    remaining-report_drop p.reader (length p.fragment) no_start_last
assemble_by-Keeps a p o false false false false true b i = tt
assemble_by-Keeps a p o false false false false false true true =
    remaining-report_drop p.reader (length a.scratch) error_in_middle
assemble_by-Keeps a p o false false false false false true false = refl
assemble_by-Keeps a p o false false false false false false i =
    remaining-report_drop p.reader (length p.fragment + (if i then length a.scratch else 0))
      unknown_type

assemble-Keeps : (a : Assembly) (p : Physical) (o : ℕ) → Keeps (remaining p.reader) (assemble a p o)
unfolding assemble
assemble-Keeps a p o =
    assemble_by-Keeps a p o (p.type == full_type) (p.type == first_type) (p.type == middle_type)
      (p.type == last_type) (p.type == eof_type) (p.type == bad_record) a.infragmented

abbrev round_by : Assembly → Physical → ℕ → Bool → Bool → Bool → Round
round_by a p offset resyncing middle last =
    let r' = record (p.reader) { resyncing = false } in
    if resyncing
    then (if middle
        then onward a p.reader
        else if last
        then onward a r'
        else assemble a (record p { reader = r' }) offset)
    else assemble a p offset

round_by-Keeps :
    (a : Assembly) (p : Physical) (o : ℕ) (resyncing middle last : Bool)
    → Keeps (remaining p.reader) (round_by a p o resyncing middle last)
round_by-Keeps a p o true true l = refl
round_by-Keeps a p o true false true = refl
round_by-Keeps a p o true false false =
    assemble-Keeps a (record p { reader = record (p.reader) { resyncing = false } }) o
round_by-Keeps a p o false m l = assemble-Keeps a p o

next_round-Keeps : (a : Assembly) (p : Physical) → Keeps (remaining p.reader) (next_round a p)
unfolding next_round
next_round-Keeps a p =
    round_by-Keeps a p (offset_of p) p.reader.resyncing (p.type == middle_type)
      (p.type == last_type)

-- A physical record of kEof ends the loop.
abbrev Stops : Round → Type 0
Stops o = (r : LogReader) × (o ≡ at_end r)

next_round-Stops : (a : Assembly) (p : Physical) → p.type ≡ eof_type → Stops (next_round a p)
unfolding next_round assemble
next_round-Stops a p t = elim (Bool-cases p.reader.resyncing) [
  | inl e ↦ (record (p.reader) { resyncing = false }, rw (e, t) refl)
  | inr e ↦ (p.reader, rw (e, t) refl)
]

module _ (host : ByteOrder) (crc_of : List ℕ → ℕ) where
  abbrev pub Returns : Option (Option (List ℕ) × LogReader) → Type 0
  Returns o = (answer : Option (List ℕ)) × ((r : LogReader) × (o ≡ some (answer, r)))

  -- The rest of the loop behind a round.
  abbrev after_round : ℕ → Round → Option (Option (List ℕ) × LogReader)
  after_round fuel (complete bytes r) = some (some bytes, r)
  after_round fuel (at_end r) = some (none, r)
  after_round fuel (onward a r) = read_record_loop host crc_of fuel a r

  after_round-Returns :
      (fuel n : ℕ) (o : Round)
      → Keeps n o
      → n < fuel
      → ((a : Assembly) (r : LogReader)
          → remaining r < fuel
          → Returns (read_record_loop host crc_of fuel a r))
      → Returns (after_round fuel o)
  after_round-Returns fuel n (complete bytes r) k h more = (some bytes, (r, refl))
  after_round-Returns fuel n (at_end r) k h more = (none, (r, refl))
  after_round-Returns fuel n (onward a r) k h more = more a r (omega (arith, k))

  loop_round :
      (fuel : ℕ) (a : Assembly) (r : LogReader) (p : Physical)
      → read_physical_record host crc_of r ≡ some p
      → read_record_loop host crc_of (suc fuel) a r ≡ after_round fuel (next_round a p)
  unfolding read_record_loop
  loop_round fuel a r p e = rw (e, read_record_loop) refl

  read_record_loop-Returns :
      (fuel : ℕ) (a : Assembly) (r : LogReader)
      → remaining r < fuel
      → Returns (read_record_loop host crc_of fuel a r)
  read_record_loop-Returns zero a r h = absurd (omega arith)
  read_record_loop-Returns (suc fuel) a r h =
      let got = read_physical_record-Progress host crc_of r in
      let p = got.0 in
      let round = loop_round fuel a r p got.1 in
      elim got.2 [
        | inl t ↦
            let stop = next_round-Stops a p t in
            (none, (stop.0, round ∙ ap (after_round fuel) stop.1))
        | inr less ↦ subst Returns (sym round) (
            after_round-Returns fuel (remaining p.reader) (next_round a p) (next_round-Keeps a p)
              (omega arith)
              (λ (a' : Assembly) (r' : LogReader) (h' : remaining r' < fuel).
                read_record_loop-Returns fuel a' r' h'))
      ]

  -- ReadRecord ends on a file of any bytes, whatever the reader has read before, from any initial
  -- offset and with or without checksums: it gives a record or the end of the input.
  pub read_record-Returns : (r : LogReader) → Returns (read_record host crc_of r)
  unfolding read_record
  read_record-Returns r =
      let r' = if ltb r.lastrecordoffset r.initialoffset then skip_to_initial_block r else r in
      read_record_loop-Returns (remaining r' + 1) no_scratch r' (omega arith)
