-- ===== src/Redisdb/Log/Assembly.antt =====
-- LogReader::ReadRecord (redisdb/db/logreader.cc) on the fragments of one record.
use cpp_swiss_army_knife.Common.{
  ℕ, zero, suc, ◌^◌, ◌≤◌, ◌<◌, ◌≡◌, refl, sym, ap, ◌∙◌, subst, List, [], ◌∷◌, ◌++◌, Option, some,
  Bool, true, false, arith, length, append_assoc,
}
use cpp_swiss_army_knife.Redisdb.Coding.{ByteOrder}
use cpp_swiss_army_knife.Redisdb.Log.{k_block_size, physical_record}
use cpp_swiss_army_knife.Redisdb.Log.Fetch.{Standing, fetch}
use cpp_swiss_army_knife.Redisdb.Log.Layout.{
  Fragment, trailer, next_of, end_of, laid, last_type_of, more_type_of, InBlocks, CutOf,
}
use cpp_swiss_army_knife.Redisdb.Log.Reader.{
  LogReader, Physical, Assembly, Round, complete, onward, offset_of, assemble, next_round,
  read_physical_record, read_record_loop,
}

-- The locals of ReadRecord in front of a record's first fragment, or behind some of its bytes.
abbrev pub Assembling : Bool → List ℕ → Assembly → Type 0
Assembling true acc a = (a.infragmented ≡ false) × (acc ≡ [])
Assembling false acc a = (a.infragmented ≡ true) × (a.scratch ≡ acc)

-- What a round makes of the record's last fragment.
abbrev Completes : List ℕ → Physical → Round → Type 0
Completes bytes p o =
    (offset : ℕ) × (o ≡ complete bytes (record (p.reader) { lastrecordoffset = offset }))

abbrev GoesOn : List ℕ → Physical → Round → Type 0
GoesOn acc p o = (a : Assembly) × (o ≡ onward a p.reader) × Assembling false acc a

round_last :
    (begin : Bool) (acc : List ℕ) (a : Assembly) (p : Physical)
    → Assembling begin acc a
    → p.reader.resyncing ≡ false
    → p.type ≡ last_type_of begin
    → Completes (acc ++ p.fragment) p (next_round a p)
unfolding next_round assemble
round_last true acc a p h r t = (offset_of p, rw (r, t, h.0, h.1) refl)
round_last false acc a p h r t = (a.prospective, rw (r, t, h.0, h.1) refl)

round_more :
    (begin : Bool) (acc : List ℕ) (a : Assembly) (p : Physical)
    → Assembling begin acc a
    → p.reader.resyncing ≡ false
    → p.type ≡ more_type_of begin
    → GoesOn (acc ++ p.fragment) p (next_round a p)
unfolding next_round assemble
round_more true acc a p h r t = (
  record { scratch = p.fragment; infragmented = true; prospective = offset_of p },
  rw (r, t, h.0) refl,
  (refl, rw (h.1) refl),
)
round_more false acc a p h r t = (
  record a { scratch = a.scratch ++ p.fragment },
  rw (r, t, h.0) refl,
  (h.0, ap (λ (xs : List ℕ). xs ++ p.fragment) h.1),
)

module _ (host : ByteOrder) (crc_of : List ℕ → ℕ) where
  loop_complete :
      (fuel : ℕ) (a : Assembly) (r : LogReader) (p : Physical) (bytes : List ℕ) (r' : LogReader)
      → read_physical_record host crc_of r ≡ some p
      → next_round a p ≡ complete bytes r'
      → read_record_loop host crc_of (suc fuel) a r ≡ some (some bytes, r')
  unfolding read_record_loop
  loop_complete fuel a r p bytes r' e n = rw (e, read_record_loop) (rw (n) refl)

  loop_onward :
      (fuel : ℕ) (a : Assembly) (r : LogReader) (p : Physical) (a' : Assembly)
      → read_physical_record host crc_of r ≡ some p
      → next_round a p ≡ onward a' p.reader
      → read_record_loop host crc_of (suc fuel) a r ≡ read_record_loop host crc_of fuel a' p.reader
  unfolding read_record_loop
  loop_onward fuel a r p a' e n = rw (e, read_record_loop) (rw (n) refl)

  -- The parts of a file that starts with fragments.
  laid_first :
      (off : ℕ) (f : Fragment) (fs : List Fragment) (ys : List ℕ)
      → laid host crc_of off (f ∷ fs) ++ ys
        ≡ trailer off
          ++ (physical_record host crc_of f.0 f.1 ++ (laid host crc_of (next_of off f) fs ++ ys))
  laid_first off f fs ys =
      let bytes = physical_record host crc_of f.0 f.1 in
      let more = laid host crc_of (next_of off f) fs in
      append_assoc (trailer off) (bytes ++ more) ys
      ∙ ap (λ (t : List ℕ). trailer off ++ t) (append_assoc bytes more ys)

  module _ (crc_word : (xs : List ℕ) → crc_of xs < 2 ^ 32) where
    -- The record is returned, and the reader stands behind its last fragment.
    abbrev pub Reads : List ℕ → ℕ → List ℕ → Option (Option (List ℕ) × LogReader) → Type 0
    Reads bytes off ys o = (r' : LogReader) × (o ≡ some (some bytes, r')) × Standing r' off ys

    pub read_fragments :
        (fs : List Fragment) (fuel : ℕ) (begin : Bool) (slice acc : List ℕ) (a : Assembly)
        (r : LogReader) (off : ℕ) (ys : List ℕ)
        → length fs ≤ fuel
        → CutOf begin slice fs
        → InBlocks off fs
        → off ≤ k_block_size
        → Assembling begin acc a
        → Standing r off (laid host crc_of off fs ++ ys)
        → Reads (acc ++ slice) (end_of off fs) ys (read_record_loop host crc_of fuel a r)
    read_fragments [] fuel begin slice acc a r off ys n c b o h s = absurd (omega arith)
    read_fragments (f ∷ fs) zero begin slice acc a r off ys n c b o h s = absurd (omega arith)
    read_fragments (f ∷ []) (suc fuel) begin slice acc a r off ys n c b o h s =
        let s' = subst (λ (t : List ℕ). Standing r off t) (laid_first off f [] ys) s in
        let got = fetch host crc_of crc_word r off f ys o b.0 b.1 b.2 s' in
        let p = got.0 in
        let round = round_last begin acc a p h got.4.4 (got.2 ∙ c.0) in
        let bytes : acc ++ p.fragment ≡ acc ++ slice =
          ap (λ (t : List ℕ). acc ++ t) (got.3 ∙ c.1) in
        let r' : LogReader = record (p.reader) { lastrecordoffset = round.0 } in
        (
          r',
          loop_complete fuel a r p (acc ++ p.fragment) r' got.1 round.1
              ∙ ap (λ (t : List ℕ). some (some t, r')) bytes,
          got.4,
        )
    read_fragments (f ∷ g ∷ fs) (suc fuel) begin slice acc a r off ys n c b o h s =
        let s' = subst (λ (t : List ℕ). Standing r off t) (laid_first off f (g ∷ fs) ys) s in
        let ahead = laid host crc_of (next_of off f) (g ∷ fs) ++ ys in
        let got = fetch host crc_of crc_word r off f ahead o b.0 b.1 b.2 s' in
        let p = got.0 in
        let round = round_more begin acc a p h got.4.4 (got.2 ∙ c.0) in
        let rest =
          read_fragments (g ∷ fs) fuel false c.1.0 (acc ++ p.fragment) round.0 p.reader
            (next_of off f) ys (omega arith) c.1.2 b.3 b.0 round.2 got.4 in
        let bytes : (acc ++ p.fragment) ++ c.1.0 ≡ acc ++ slice =
          append_assoc acc p.fragment c.1.0
          ∙ ap (λ (t : List ℕ). acc ++ (t ++ c.1.0)) got.3
          ∙ ap (λ (t : List ℕ). acc ++ t) (sym c.1.1) in
        (
          rest.0,
          loop_onward fuel a r p round.0 got.1 round.1
              ∙ rest.1
              ∙ ap (λ (t : List ℕ). some (some t, rest.0)) bytes,
          rest.2,
        )
