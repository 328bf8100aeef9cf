-- ===== src/Redisdb/Log/Written.antt =====
-- LogWriter::AddRecord (redisdb/db/logwriter.cc): what it writes, in terms of fragments.
use cpp_swiss_army_knife.Common.{
  ℕ, zero, suc, ◌+◌, ◌-◌, ◌≤◌, ◌≡◌, refl, sym, ap, ◌∙◌, subst, List, [], ◌∷◌, ◌++◌, Option, some,
  Bool, true, false, Bool-cases, inl, inr, arith, ltb, ◌==◌, ==_iff, if◌then◌else◌, not, length,
  take, drop, append_assoc, append-nil, length-take, length-drop, take-append-drop,
}
use cpp_swiss_army_knife.Redisdb.Coding.{ByteOrder}
use cpp_swiss_army_knife.Redisdb.Log.{
  full_type, last_type, k_block_size, log_header_size, LogWriter, physical_record,
  emit_physical_record, switch_block, type_of_fragment, add_record_loop, add_record,
}
use cpp_swiss_army_knife.Redisdb.Log.Layout.{
  Fragment, trailer, start_of, next_of, end_of, InBlocks, last_type_of, more_type_of, CutOf, laid,
}

type_of_fragment_last : (begin : Bool) → type_of_fragment begin true ≡ last_type_of begin
unfolding type_of_fragment
type_of_fragment_last true = refl
type_of_fragment_last false = refl

type_of_fragment_more : (begin : Bool) → type_of_fragment begin false ≡ more_type_of begin
unfolding type_of_fragment
type_of_fragment_more true = refl
type_of_fragment_more false = refl

type_of_fragment_bounds :
    (begin end : Bool)
    → (full_type ≤ type_of_fragment begin end) × (type_of_fragment begin end ≤ last_type)
unfolding type_of_fragment
type_of_fragment_bounds true true = (omega arith, omega arith)
type_of_fragment_bounds true false = (omega arith, omega arith)
type_of_fragment_bounds false true = (omega arith, omega arith)
type_of_fragment_bounds false false = (omega arith, omega arith)

-- The writer after the step to a new block.
switched :
    (w : LogWriter)
    → switch_block w
      ≡ record { dest = w.dest ++ trailer w.blockoffset; blockoffset = start_of w.blockoffset }
unfolding switch_block
switched w = elim (Bool-cases (ltb (k_block_size - w.blockoffset) log_header_size)) [
  | inl e ↦ rw (e) refl
  | inr e ↦ rw (e, append-nil w.dest) refl
]

module _ (host : ByteOrder) (crc_of : List ℕ → ℕ) where
  abbrev pub written : LogWriter → List Fragment → LogWriter
  written w fs = record {
    dest = w.dest ++ laid host crc_of w.blockoffset fs;
    blockoffset = end_of w.blockoffset fs;
  }

  abbrev pub Writes : LogWriter → Bool → List ℕ → Option LogWriter → Type 0
  Writes w begin left o =
      (fs : List Fragment) × (o ≡ some (written w fs))
      × InBlocks w.blockoffset fs
      × CutOf begin left fs

  -- One more fragment in front.
  written_more :
      (w : LogWriter) (f : Fragment) (fs : List Fragment)
      → written
          (emit_physical_record host crc_of
            (record {
              dest = w.dest ++ trailer w.blockoffset;
              blockoffset = start_of w.blockoffset;
            })
            f.0
            f.1)
          fs
        ≡ written w (f ∷ fs)
  unfolding emit_physical_record
  written_more w f fs =
      ap (λ (t : List ℕ). record { dest = t; blockoffset = end_of (next_of w.blockoffset f) fs })
        (append_assoc (w.dest ++ trailer w.blockoffset) (physical_record host crc_of f.0 f.1)
            (laid host crc_of (next_of w.blockoffset f) fs)
          ∙ append_assoc w.dest (trailer w.blockoffset) (
              physical_record host crc_of f.0 f.1 ++ laid host crc_of (next_of w.blockoffset f) fs))

  take_whole : (n : ℕ) (xs : List ℕ) → n ≡ length xs → take n xs ≡ xs
  take_whole zero [] h = refl
  take_whole zero (x ∷ xs) h = absurd (omega arith)
  take_whole (suc n) [] h = absurd (omega arith)
  take_whole (suc n) (x ∷ xs) h = ap (λ (t : List ℕ). x ∷ t) (take_whole n xs (omega arith))

  CutOf-more :
      (begin : Bool) (x rest : List ℕ) (fs : List Fragment)
      → CutOf false rest fs
      → CutOf begin (x ++ rest) ((type_of_fragment begin false, x) ∷ fs)
  CutOf-more begin x rest [] h = absurd (omega arith)
  CutOf-more begin x rest (g ∷ fs) h = (type_of_fragment_more begin, (rest, refl, h))

  abbrev room_at : ℕ → ℕ
  room_at off = k_block_size - start_of off - log_header_size

  abbrev size_at : ℕ → ℕ → ℕ
  size_at off n = if ltb n (room_at off) then n else room_at off

  -- A round that leaves no room for data is followed by one that starts a block.
  abbrev rounds_at : ℕ → ℕ → ℕ
  rounds_at off n = n + (if room_at off == 0 then 2 else 1)

  abbrev size_of : LogWriter → List ℕ → ℕ
  size_of w left = size_at w.blockoffset (length left)

  abbrev moved : LogWriter → LogWriter
  moved w = record { dest = w.dest ++ trailer w.blockoffset; blockoffset = start_of w.blockoffset }

  abbrev emitted : LogWriter → Bool → Bool → List ℕ → LogWriter
  emitted w begin end left =
      emit_physical_record host crc_of (moved w) (type_of_fragment begin end)
        (take (size_of w left) left)

  -- A round behind the step to a new block, from the size and the two tests on.
  abbrev round_end : ℕ → LogWriter → Bool → List ℕ → ℕ → Bool → Bool → Option LogWriter
  round_end fuel w1 begin left size end more =
      let w2 = emit_physical_record host crc_of w1 (type_of_fragment begin end) (take size left) in
      elim more [
        | false ↦ some w2
        | true ↦ add_record_loop host crc_of fuel w2 false (drop size left)
      ]

  abbrev round_from : ℕ → LogWriter → Bool → List ℕ → Option LogWriter
  round_from fuel w1 begin left =
      let avail = k_block_size - w1.blockoffset - log_header_size in
      let size = if ltb (length left) avail then length left else avail in
      round_end fuel w1 begin left size (length left == size) (ltb 0 (length (drop size left)))

  -- The loop goes on exactly if the fragment was not the record's last.
  goes_on :
      (n size left : ℕ) (end : Bool)
      → size ≤ n
      → left ≡ n - size
      → (n == size) ≡ end
      → ltb 0 left ≡ not end
  goes_on n size left true h l e = ground arith
  goes_on n size left false h l e = ground arith

  size_of_short : (w : LogWriter) (left : List ℕ) → size_of w left ≤ length left
  size_of_short w left = ground arith

  add_record_loop_round :
      (fuel : ℕ) (w : LogWriter) (begin end : Bool) (left : List ℕ)
      → (length left == size_of w left) ≡ end
      → add_record_loop host crc_of (suc fuel) w begin left
        ≡ round_end fuel (moved w) begin left (size_of w left) end (not end)
  unfolding add_record_loop
  add_record_loop_round fuel w begin end left e =
      let size = size_of w left in
      let more : ltb 0 (length (drop size left)) ≡ not end =
        goes_on (length left) size (length (drop size left)) end (size_of_short w left)
          (length-drop size left) e in
      ap (λ (w1 : LogWriter). round_from fuel w1 begin left) (switched w)
      ∙ ap
          (λ (b : Bool).
            round_end fuel (moved w) begin left size b (ltb 0 (length (drop size left))))
          e
      ∙ ap (round_end fuel (moved w) begin left size end) more

  start_of_bound : (off : ℕ) → off ≤ k_block_size → start_of off + log_header_size ≤ k_block_size
  start_of_bound off h = ground arith

  size_of_bound : (w : LogWriter) (left : List ℕ) → size_of w left ≤ room_at w.blockoffset
  size_of_bound w left = ground arith

  length-take_short : (n : ℕ) (xs : List ℕ) → n ≤ length xs → length (take n xs) ≡ n
  length-take_short n xs h = omega (arith, length-take n xs)

  -- The data of a round ends in the block.
  emitted_bound :
      (w : LogWriter) (left : List ℕ)
      → w.blockoffset ≤ k_block_size
      → start_of w.blockoffset + (log_header_size + length (take (size_of w left) left))
        ≤ k_block_size
  emitted_bound w left h =
      let n = length (take (size_of w left) left) in
      let short : n ≡ size_of w left =
        length-take_short (size_of w left) left (size_of_short w left) in
      omega
        (arith, short, size_of_short w left, size_of_bound w left, start_of_bound w.blockoffset h)

  written_none : (w : LogWriter) → w ≡ written w []
  written_none w =
      ap (λ (x : List ℕ). record { dest = x; blockoffset = w.blockoffset })
        (sym (append-nil w.dest))

  Writes-last :
      (w : LogWriter) (begin : Bool) (left : List ℕ)
      → w.blockoffset ≤ k_block_size
      → length left ≡ size_of w left
      → Writes w begin left (some (emitted w begin true left))
  Writes-last w begin left h e =
      let t = type_of_fragment begin true in
      let whole : take (size_of w left) left ≡ left = take_whole (size_of w left) left (sym e) in
      let types = type_of_fragment_bounds begin true in
      (
        (t, left) ∷ [],
        ap some (
            ap (λ (x : List ℕ). emit_physical_record host crc_of (moved w) t x) whole
            ∙ written_none (emit_physical_record host crc_of (moved w) t left)
            ∙ written_more w (t, left) []),
        (
          subst
              (λ (x : List ℕ). start_of w.blockoffset + (log_header_size + length x) ≤ k_block_size)
              whole (emitted_bound w left h),
          types.0,
          types.1,
          tt,
        ),
        (type_of_fragment_last begin, refl),
      )

  Writes-more :
      (w : LogWriter) (begin : Bool) (left : List ℕ) (o : Option LogWriter)
      → w.blockoffset ≤ k_block_size
      → Writes (emitted w begin false left) false (drop (size_of w left) left) o
      → Writes w begin left o
  unfolding emit_physical_record
  Writes-more w begin left o h m =
      let f : Fragment = (type_of_fragment begin false, take (size_of w left) left) in
      let types = type_of_fragment_bounds begin false in
      (
        f ∷ m.0,
        m.1 ∙ ap some (written_more w f m.0),
        (emitted_bound w left h, types.0, types.1, m.2),
        subst (λ (x : List ℕ). CutOf begin x (f ∷ m.0)) (take-append-drop (size_of w left) left)
            (CutOf-more begin f.1 (drop (size_of w left) left) m.0 m.3),
      )

  differs : (a b : ℕ) → (a == b) ≡ false → ¬ (a ≡ b)
  differs a b e = ground arith

  start_of_full : start_of k_block_size ≡ 0
  start_of_full = refl

  rounds_at_full : (n : ℕ) → rounds_at k_block_size n ≡ n + 1
  rounds_at_full n = refl

  size_at_full :
      (off n : ℕ)
      → off ≤ k_block_size
      → ¬ (n ≡ size_at off n)
      → start_of off + (log_header_size + size_at off n) ≡ k_block_size
  size_at_full off n h ne = ground arith

  rounds_at_fewer :
      (fuel off n : ℕ)
      → rounds_at off n ≤ suc fuel
      → ¬ (n ≡ size_at off n)
      → n - size_at off n + 1 ≤ fuel
  rounds_at_fewer fuel off n f ne = ground arith

  rounds_fewer :
      (fuel : ℕ) (w : LogWriter) (left : List ℕ)
      → w.blockoffset ≤ k_block_size
      → rounds_at w.blockoffset (length left) ≤ suc fuel
      → ¬ (length left ≡ size_of w left)
      → rounds_at
          (start_of w.blockoffset + (log_header_size + length (take (size_of w left) left)))
          (length (drop (size_of w left) left))
        ≤ fuel
  rounds_fewer fuel w left h f ne =
      let short : length (take (size_of w left) left) ≡ size_of w left =
        length-take_short (size_of w left) left (size_of_short w left) in
      let rest : length (drop (size_of w left) left) ≡ length left - size_of w left =
        length-drop (size_of w left) left in
      rw (short, rest, size_at_full w.blockoffset (length left) h ne)
        (rounds_at_fewer fuel w.blockoffset (length left) f ne)

  add_record_loop-Writes :
      (fuel : ℕ) (w : LogWriter) (begin : Bool) (left : List ℕ)
      → w.blockoffset ≤ k_block_size
      → rounds_at w.blockoffset (length left) ≤ fuel
      → Writes w begin left (add_record_loop host crc_of fuel w begin left)
  unfolding emit_physical_record
  add_record_loop-Writes zero w begin left h f = absurd (ground arith)
  add_record_loop-Writes (suc fuel) w begin left h f =
      elim (Bool-cases (length left == size_of w left)) [
        | inl e ↦
            rw (add_record_loop_round fuel w begin true left e)
              (Writes-last w begin left h ((==_iff (length left) (size_of w left)).0 e))
        | inr e ↦ rw (add_record_loop_round fuel w begin false left e) (
            Writes-more w begin left
              (add_record_loop host crc_of fuel (emitted w begin false left) false
                (drop (size_of w left) left))
              h
              (add_record_loop-Writes fuel (emitted w begin false left) false
                (drop (size_of w left) left) (emitted_bound w left h)
                (rounds_fewer fuel w left h f (differs (length left) (size_of w left) e))))
      ]

  -- AddRecord ends, for a record of any size and a block offset of at most the size of a block. It
  -- appends fragments, each with a header and, where a header does not fit in its block, a trailer
  -- of zeros before it; each ends in the block in which it starts and has a type from kFullType to
  -- kLastType, so the asserts of EmitPhysicalRecord hold and its length fits in two bytes; the data
  -- of the fragments joined are the record, with type full for a single one, and first, middle and
  -- last for more.
  pub add_record-Writes :
      (w : LogWriter) (slice : List ℕ)
      → w.blockoffset ≤ k_block_size
      → Writes w true slice (add_record host crc_of w slice)
  unfolding add_record
  add_record-Writes w slice h =
      add_record_loop-Writes (length slice + 2) w true slice h (ground arith)
