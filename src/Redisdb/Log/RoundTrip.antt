-- ===== src/Redisdb/Log/RoundTrip.antt =====
-- LogWriter::AddRecord (redisdb/db/logwriter.cc) against LogReader::ReadRecord
-- (redisdb/db/logreader.cc): a file of records, read back to its end.
use cpp_swiss_army_knife.Common.{
  ℕ, zero, suc, ◌+◌, ◌^◌, ◌≤◌, ◌<◌, ◌≡◌, refl, sym, ap, ◌∙◌, subst, List, [], ◌∷◌, ◌++◌, Option,
  none, some, Bool, true, false, Bool-cases, inl, inr, arith, ltb, length, take, length-append,
  length-take, append_assoc, append-nil, ◌⊎◌,
}
use cpp_swiss_army_knife.Redisdb.Coding.{ByteOrder}
use cpp_swiss_army_knife.Redisdb.Log.{
  eof_type, k_block_size, log_header_size, physical_record, LogWriter, new_writer, add_record,
}
use cpp_swiss_army_knife.Redisdb.Log.Fetch.{Standing, loop_short}
use cpp_swiss_army_knife.Redisdb.Log.Assembly.{read_fragments, Reads}
use cpp_swiss_army_knife.Redisdb.Log.Layout.{
  Fragment, trailer, next_of, end_of, laid, InBlocks, CutOf, length-physical_record,
}
use cpp_swiss_army_knife.Redisdb.Log.Written.{written, add_record-Writes}
use cpp_swiss_army_knife.Redisdb.Log.Reader.{
  LogReader, Physical, at_end, no_scratch, new_reader, emptied, without, next_round, assemble,
  read_block, read_physical_record, read_record_loop, read_record,
}

-- AddRecord for one record after the other.
abbrev pub add_records : ByteOrder → (List ℕ → ℕ) → LogWriter → List (List ℕ) → Option LogWriter
add_records host crc_of w [] = some w
add_records host crc_of w (x ∷ xs) = elim (add_record host crc_of w x) [
  | none ↦ none
  | some w' ↦ add_records host crc_of w' xs
]

-- ReadRecord until it answers that there is none, at most so many times.
abbrev pub read_records :
    ByteOrder → (List ℕ → ℕ) → ℕ → LogReader → Option (List (List ℕ) × LogReader)
read_records host crc_of zero r = none
read_records host crc_of (suc n) r = elim (read_record host crc_of r) [
  | none ↦ none
  | some (none, r') ↦ some ([], r')
  | some (some x, r') ↦ elim (read_records host crc_of n r') [
    | none ↦ none
    | some (xs, r'') ↦ some (x ∷ xs, r'')
  ]
]

longer : (n : ℕ) → ¬ (suc n ≡ 0)
longer n e = omega arith

-- A reader at the end of a block reads on where one at the start of the next would.
abbrev Meets : ℕ → ℕ → Type 0
Meets o off = (o ≡ off) ⊎ ((o ≡ k_block_size) × (off ≡ 0))

module _ (host : ByteOrder) (crc_of : List ℕ → ℕ)
    (crc_word : (xs : List ℕ) → crc_of xs < 2 ^ 32) where
  laid_longer : (off : ℕ) (fs : List Fragment) → length fs ≤ length (laid host crc_of off fs)
  laid_longer off [] = omega arith
  laid_longer off (f ∷ fs) =
      let bytes = physical_record host crc_of f.0 f.1 in
      let more = laid host crc_of (next_of off f) fs in
      omega (
        arith,
        laid_longer (next_of off f) fs,
        length-append (trailer off) (bytes ++ more),
        length-append bytes more,
        length-physical_record host crc_of f.0 f.1,
      )

  read_record_from_start :
      (r : LogReader)
      → r.initialoffset ≡ 0
      → read_record host crc_of r
        ≡ read_record_loop host crc_of (length r.buffer + length r.file + 1) no_scratch r
  unfolding read_record
  read_record_from_start r h =
      let e : ltb r.lastrecordoffset r.initialoffset ≡ false = ground arith in rw (e) refl

  enough :
      (r : LogReader) (off o : ℕ) (fs : List Fragment) (ys : List ℕ)
      → Standing r o (laid host crc_of off fs ++ ys)
      → length fs ≤ length r.buffer + length r.file + 1
  enough r off o fs ys s =
      let all = ap length s.0 in
      omega (
        arith,
        all,
        length-append r.buffer r.file,
        length-append (laid host crc_of off fs) ys,
        laid_longer off fs,
      )

  Reads-at :
      (r : LogReader) (off : ℕ) (slice : List ℕ) (fs : List Fragment) (ys : List ℕ)
      → CutOf true slice fs
      → InBlocks off fs
      → off ≤ k_block_size
      → Standing r off (laid host crc_of off fs ++ ys)
      → Reads host crc_of crc_word slice (end_of off fs) ys (read_record host crc_of r)
  Reads-at r off slice fs ys c b o s =
      let fuel = length r.buffer + length r.file + 1 in
      let got =
        read_fragments host crc_of crc_word fs fuel true slice [] no_scratch r off ys
          (enough r off off fs ys s) c b o (refl, refl) s in
      (got.0, read_record_from_start r s.3 ∙ got.1, got.2)

  reads :
      (r : LogReader) (o off : ℕ) (slice : List ℕ) (fs : List Fragment) (ys : List ℕ)
      → Meets o off
      → CutOf true slice fs
      → InBlocks off fs
      → off ≤ k_block_size
      → Standing r o (laid host crc_of off fs ++ ys)
      → Reads host crc_of crc_word slice (end_of off fs) ys (read_record host crc_of r)
  reads r o off slice [] ys m c b l s = absurd (omega arith)
  reads r o off slice (f ∷ fs) ys (inl e) c b l s =
      Reads-at r off slice (f ∷ fs) ys c b l
        (subst (λ (n : ℕ). Standing r n (laid host crc_of off (f ∷ fs) ++ ys)) e s)
  reads r o off slice (f ∷ fs) ys (inr e) c b l s =
      subst
        (λ (n : ℕ).
          Standing r o (laid host crc_of n (f ∷ fs) ++ ys)
          → InBlocks n (f ∷ fs)
          → Reads host crc_of crc_word slice (end_of n (f ∷ fs)) ys (read_record host crc_of r))
        (sym (e.1))
        (λ (s0 : Standing r o (laid host crc_of 0 (f ∷ fs) ++ ys)) (b0 : InBlocks 0 (f ∷ fs)).
          Reads-at r k_block_size slice (f ∷ fs) ys c b0 (omega arith)
            (subst (λ (n : ℕ). Standing r n (laid host crc_of 0 (f ∷ fs) ++ ys)) (e.0) s0))
        s b

  no_append : (xs ys : List ℕ) → xs ++ ys ≡ [] → (xs ≡ []) × (ys ≡ [])
  no_append [] ys e = (refl, e)
  no_append (x ∷ xs) ys e = absurd (longer (length (xs ++ ys)) (ap length e))

  -- Nothing is left: the record at the end is of kEof, and no drop is reported.
  abbrev AtEnd : LogReader → Option Physical → Type 0
  AtEnd r o =
      (r' : LogReader) × (o ≡ some (without r' eof_type))
      × (r'.resyncing ≡ false)
      × (r'.reports ≡ [])

  physical_end :
      (r : LogReader) (off : ℕ) → Standing r off [] → AtEnd r (read_physical_record host crc_of r)
  unfolding read_physical_record read_block
  physical_end r off s =
      let both = no_append r.buffer r.file s.0 in
      let short : length r.buffer < log_header_size = omega (arith, ap length (both.0)) in
      elim (Bool-cases r.eof) [
        | inl e ↦ (emptied r, loop_short host crc_of 2 r true short e, s.4, s.5)
        | inr e ↦
            let none_read : length (take k_block_size r.file) < log_header_size =
              omega (arith, ap length (both.1), length-take k_block_size r.file) in
            let at_eof : (read_block r).eof ≡ true = ground (arith, none_read) in
            (
              emptied (read_block r),
              loop_short host crc_of 2 r false short e
                  ∙ loop_short host crc_of 1 (read_block r) true none_read at_eof,
              s.4,
              s.5,
            )
      ]

  round_end_lem :
      (r : LogReader) → r.resyncing ≡ false → next_round no_scratch (without r eof_type) ≡ at_end r
  unfolding next_round assemble
  round_end_lem r h = rw (h) refl

  ends :
      (r : LogReader) (off : ℕ)
      → Standing r off []
      → (r' : LogReader) × (read_record host crc_of r ≡ some (none, r')) × (r'.reports ≡ [])
  unfolding read_record_loop
  ends r off s =
      let got = physical_end r off s in
      let both = no_append r.buffer r.file s.0 in
      let fuel : length r.buffer + length r.file + 1 ≡ 1 =
        omega (arith, ap length (both.0), ap length (both.1)) in
      (
        got.0,
        read_record_from_start r s.3
            ∙ ap (λ (n : ℕ). read_record_loop host crc_of n no_scratch r) fuel
            ∙ rw (got.1, read_record_loop) (rw (round_end_lem got.0 got.2) refl),
        got.3,
      )

  -- The records are read back, with no drop reported.
  abbrev ReadsBack : List (List ℕ) → LogReader → Type 0
  ReadsBack records r =
      (r' : LogReader) × (read_records host crc_of (suc (length records)) r ≡ some (records, r'))
      × (r'.reports ≡ [])

  ReadsBack-end : (r : LogReader) (off : ℕ) → Standing r off [] → ReadsBack [] r
  ReadsBack-end r off s = let got = ends r off s in (got.0, rw (got.1, read_records) refl, got.2)

  ReadsBack-more :
      (r r' : LogReader) (x : List ℕ) (xs : List (List ℕ))
      → read_record host crc_of r ≡ some (some x, r')
      → ReadsBack xs r'
      → ReadsBack (x ∷ xs) r
  ReadsBack-more r r' x xs e m = (m.0, rw (e, read_records) (rw (m.1) refl), m.2)

  InBlocks-end :
      (off : ℕ) (fs : List Fragment)
      → off ≤ k_block_size
      → InBlocks off fs
      → end_of off fs ≤ k_block_size
  InBlocks-end off [] h b = h
  InBlocks-end off (f ∷ fs) h b = InBlocks-end (next_of off f) fs b.0 b.3

  -- What AddRecord appends for the records, and that it is read back.
  abbrev Appends : List (List ℕ) → LogWriter → Type 0
  Appends records w =
      (w' : LogWriter) × (add_records host crc_of w records ≡ some w')
      × ((ahead : List ℕ) × (w'.dest ≡ w.dest ++ ahead)
          × ((r : LogReader) (o : ℕ)
              → Meets o w.blockoffset
              → Standing r o ahead
              → ReadsBack records r))

  appends :
      (records : List (List ℕ)) (w : LogWriter) → w.blockoffset ≤ k_block_size → Appends records w
  appends [] w h = (
    w,
    refl,
    (
      [],
      sym (append-nil w.dest),
      λ (r : LogReader) (o : ℕ) (m : Meets o w.blockoffset) (s : Standing r o []).
          ReadsBack-end r o s,
    ),
  )
  appends (x ∷ xs) w h =
      let one = add_record-Writes host crc_of w x h in
      let fs = one.0 in
      let w1 : LogWriter = written host crc_of w fs in
      let bytes = laid host crc_of w.blockoffset fs in
      let more = appends xs w1 (InBlocks-end w.blockoffset fs h one.2) in
      let ahead = more.2.0 in
      (
        more.0,
        rw (one.1, add_records) (more.1),
        (
          bytes ++ ahead,
          more.2.1 ∙ append_assoc w.dest bytes ahead,
          λ (r : LogReader) (o : ℕ) (m : Meets o w.blockoffset) (s : Standing r o (bytes ++ ahead)).
              let got = reads r o w.blockoffset x fs ahead m one.3 one.2 h s in
              ReadsBack-more r got.0 x xs got.1
                (more.2.2 (got.0) (end_of w.blockoffset fs) (inl refl) (got.2)),
        ),
      )

  -- A log file read back: for every list of records, of any length and size, AddRecord of one after
  -- the other to an empty file returns, and a LogReader from offset 0, with or without checksums,
  -- gives exactly these records in their order by ReadRecord, then the end of the input, and
  -- reports no drop, given that the checksum is a 32-bit word.
  pub read_records-add_records :
      (records : List (List ℕ)) (checksum : Bool)
      → (w : LogWriter) × (add_records host crc_of new_writer records ≡ some w)
        × ((r : LogReader) × (read_records host crc_of
                (suc (length records))
                (new_reader w.dest checksum 0)
              ≡ some (records, r))
            × (r.reports ≡ []))
  read_records-add_records records checksum =
      let all = appends records new_writer (omega arith) in
      let w = all.0 in
      let start : Standing (new_reader w.dest checksum 0) k_block_size w.dest =
        (refl, inl refl, inl refl, refl, refl, refl) in
      (
        w,
        all.1,
        all.2.2 (new_reader w.dest checksum 0) k_block_size (inr (refl, refl)) (
            subst (λ (t : List ℕ). Standing (new_reader w.dest checksum 0) k_block_size t) (all.2.1)
              start),
      )
