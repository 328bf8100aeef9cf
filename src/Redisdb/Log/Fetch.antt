-- ===== src/Redisdb/Log/Fetch.antt =====
-- LogReader::ReadPhysicalRecord (redisdb/db/logreader.cc) on a file of fragments that lie in blocks.
use cpp_swiss_army_knife.Common.{
  ℕ, suc, ◌+◌, ◌-◌, ◌^◌, ◌≤◌, ◌<◌, ◌≡◌, refl, sym, ap, ◌∙◌, subst, List, [], ◌∷◌, ◌++◌, Option,
  some, Bool, true, false, Bool-cases, inl, inr, arith, ltb, length, take, drop, replicate,
  length-append, length-take, length-drop, length-replicate, take-append-drop, append-split, ◌⊎◌,
}
use cpp_swiss_army_knife.Redisdb.Coding.{ByteOrder}
use cpp_swiss_army_knife.Redisdb.Log.{
  full_type, last_type, eof_type, k_block_size, log_header_size, physical_record,
}
use cpp_swiss_army_knife.Redisdb.Log.Layout.{
  Fragment, trailer, start_of, next_of, length-physical_record,
}
use cpp_swiss_army_knife.Redisdb.Log.Parse.{parse_header_lem}
use cpp_swiss_army_knife.Redisdb.Log.Reader.{
  LogReader, Physical, parse_header, read_block, read_physical_loop, read_physical_record, without,
  emptied,
}

-- The reader stands at an offset of a block: its buffer reaches to the end of the block, or of the file.
abbrev pub Standing : LogReader → ℕ → List ℕ → Type 0
Standing r off ahead =
    (r.buffer ++ r.file ≡ ahead)
    × ((length r.buffer ≡ k_block_size - off)
        ⊎ ((r.file ≡ []) × (length r.buffer ≤ k_block_size - off)))
    × ((r.eof ≡ false) ⊎ (r.file ≡ []))
    × (r.initialoffset ≡ 0)
    × (r.resyncing ≡ false)
    × (r.reports ≡ [])

no_length : (xs : List ℕ) → length xs ≡ 0 → xs ≡ []
no_length [] h = refl
no_length (x ∷ xs) h = absurd (omega arith)

drop_all : (n : ℕ) (xs : List ℕ) → length xs ≤ n → drop n xs ≡ []
drop_all n xs h = no_length (drop n xs) (omega (arith, length-drop n xs))

-- A block of the file is read, or its rest.
block-Standing :
    (r : LogReader)
    → r.initialoffset ≡ 0
    → r.resyncing ≡ false
    → r.reports ≡ []
    → Standing (read_block r) 0 r.file
unfolding read_block
block-Standing r i s p = elim (Bool-cases (ltb (length (take k_block_size r.file)) k_block_size)) [
  | inl e ↦
      let short : length r.file ≤ k_block_size =
        ground (arith, e, length-take k_block_size r.file) in
      let rest = drop_all k_block_size r.file short in
      let l : length (take k_block_size r.file) ≤ k_block_size - 0 =
        omega (arith, length-take k_block_size r.file) in
      (take-append-drop k_block_size r.file, inr (rest, l), inr rest, i, s, p)
  | inr e ↦
      let l : length (take k_block_size r.file) ≡ k_block_size - 0 =
        ground (arith, e, length-take k_block_size r.file) in
      (take-append-drop k_block_size r.file, inl l, inl e, i, s, p)
]

module _ (host : ByteOrder) (crc_of : List ℕ → ℕ) where
  pub loop_ready :
      (fuel : ℕ) (r : LogReader)
      → log_header_size ≤ length r.buffer
      → read_physical_loop host crc_of (suc fuel) r ≡ some (parse_header host crc_of r)
  unfolding read_physical_loop
  loop_ready fuel r h =
      let e : ltb (length r.buffer) log_header_size ≡ false = ground arith in
      rw (e, read_physical_loop) refl

  -- The test of the eof flag behind a buffer that holds no header.
  abbrev or_block : ℕ → LogReader → Bool → Option Physical
  or_block fuel r at_eof = elim at_eof [
    | true ↦ some (without (emptied r) eof_type)
    | false ↦ read_physical_loop host crc_of fuel (read_block r)
  ]

  pub loop_short :
      (fuel : ℕ) (r : LogReader) (at_eof : Bool)
      → length r.buffer < log_header_size
      → r.eof ≡ at_eof
      → read_physical_loop host crc_of (suc fuel) r ≡ or_block fuel r at_eof
  unfolding read_physical_loop
  loop_short fuel r at_eof h e =
      let l : ltb (length r.buffer) log_header_size ≡ true = ground arith in
      let first : read_physical_loop host crc_of (suc fuel) r ≡ or_block fuel r r.eof =
        rw (l, read_physical_loop) refl in
      first ∙ ap (or_block fuel r) e

  module _ (crc_word : (xs : List ℕ) → crc_of xs < 2 ^ 32) where
    -- What is read off a reader in front of a fragment that its block holds.
    abbrev pub Fetches : Fragment → ℕ → List ℕ → Option Physical → Type 0
    Fetches f off ahead o =
        (p : Physical) × (o ≡ some p)
        × (p.type ≡ f.0)
        × (p.fragment ≡ f.1)
        × Standing p.reader off ahead

    buffer_holds :
        (r : LogReader) (off size : ℕ) (xs ys : List ℕ)
        → off + size ≤ k_block_size
        → length xs ≡ size
        → Standing r off (xs ++ ys)
        → size ≤ length r.buffer
    buffer_holds r off size xs ys h l s = elim s.1 [
      | inl full ↦ omega arith
      | inr rest ↦
          let all = ap length s.0 in
          let none_left = ap length rest.0 in
          omega (arith, all, none_left, length-append r.buffer r.file, length-append xs ys)
    ]

    fetch_ready :
        (fuel : ℕ) (r : LogReader) (off : ℕ) (f : Fragment) (ys : List ℕ)
        → off + (log_header_size + length f.1) ≤ k_block_size
        → full_type ≤ f.0
        → f.0 ≤ last_type
        → Standing r off (physical_record host crc_of f.0 f.1 ++ ys)
        → Fetches f
            (off + (log_header_size + length f.1))
            ys
            (read_physical_loop host crc_of (suc fuel) r)
    fetch_ready fuel r off f ys h lo hi s =
        let bytes = physical_record host crc_of f.0 f.1 in
        let l : length bytes ≡ log_header_size + length f.1 =
          length-physical_record host crc_of f.0 f.1 in
        let holds : log_header_size + length f.1 ≤ length r.buffer =
          buffer_holds r off (log_header_size + length f.1) bytes ys h l s in
        let parts =
          append-split r.buffer r.file bytes ys s.0
            (subst (λ (n : ℕ). n ≤ length r.buffer) (sym l) holds) in
        let tail = drop (length bytes) r.buffer in
        let tail_length : length tail ≡ length r.buffer - length bytes =
          length-drop (length bytes) r.buffer in
        let p : Physical = record {
          type = f.0;
          fragment = f.1;
          reader = record r { buffer = tail };
        } in
        (
          p,
          loop_ready fuel r (omega arith)
              ∙ ap some (
                  parse_header_lem host crc_of crc_word f.0 f.1 tail r parts.0 s.3 lo hi
                    (omega arith)),
          refl,
          refl,
          (
            parts.1,
            elim s.1 [
              | inl full ↦ inl (omega (arith, tail_length, l))
              | inr rest ↦ inr (rest.0, omega (arith, tail_length, l))
            ],
            s.2,
            s.3,
            s.4,
            s.5,
          ),
        )

    not_at_end :
        (r : LogReader) (off : ℕ) (xs ys : List ℕ)
        → length xs ≡ k_block_size - off
        → 0 < length ys
        → Standing r off (xs ++ ys)
        → (length r.buffer ≡ length xs) × (r.eof ≡ false)
    not_at_end r off xs ys l more s =
        let all = ap length s.0 in
        let left = length-append r.buffer r.file in
        let right = length-append xs ys in
        let full : length r.buffer ≡ length xs = elim s.1 [
          | inl full ↦ omega arith
          | inr rest ↦
              let none_left = ap length rest.0 in
              absurd (omega (arith, all, none_left, left, right))
        ] in
        (
          full,
          elim s.2 [
            | inl e ↦ e
            | inr rest ↦
                let none_left = ap length rest in
                absurd (omega (arith, all, none_left, left, right))
          ],
        )

    -- Behind a buffer that is used up, the file goes on.
    file_ahead :
        (r : LogReader) (off : ℕ) (xs ys : List ℕ)
        → length r.buffer ≡ length xs
        → Standing r off (xs ++ ys)
        → r.file ≡ ys
    file_ahead r off xs ys l s =
        let parts = append-split r.buffer r.file xs ys s.0 (omega arith) in
        let used : drop (length xs) r.buffer ≡ [] = drop_all (length xs) r.buffer (omega arith) in
        subst (λ (t : List ℕ). t ++ r.file ≡ ys) used parts.1

    fetch_block :
        (r : LogReader) (off : ℕ) (f : Fragment) (xs ys : List ℕ)
        → length xs ≡ k_block_size - off
        → length xs < log_header_size
        → 0 + (log_header_size + length f.1) ≤ k_block_size
        → full_type ≤ f.0
        → f.0 ≤ last_type
        → Standing r off (xs ++ (physical_record host crc_of f.0 f.1 ++ ys))
        → Fetches f (0 + (log_header_size + length f.1)) ys (read_physical_record host crc_of r)
    unfolding read_physical_record
    fetch_block r off f xs ys l short h lo hi s =
        let bytes = physical_record host crc_of f.0 f.1 in
        let more : 0 < length (bytes ++ ys) =
          omega (arith, length-append bytes ys, length-physical_record host crc_of f.0 f.1) in
        let now = not_at_end r off xs (bytes ++ ys) l more s in
        let ahead = file_ahead r off xs (bytes ++ ys) now.0 s in
        let block =
          subst (λ (t : List ℕ). Standing (read_block r) 0 t) ahead
            (block-Standing r s.3 s.4 s.5) in
        let got = fetch_ready 1 (read_block r) 0 f ys h lo hi block in
        (got.0, loop_short 2 r false (omega (arith, now.0)) now.1 ∙ got.1, got.2, got.3, got.4)

    trailer_short :
        (off n : ℕ)
        → n ≡ k_block_size - off
        → ltb (k_block_size - off) log_header_size ≡ true
        → n < log_header_size
    trailer_short off n h e = ground arith

    pub fetch :
        (r : LogReader) (off : ℕ) (f : Fragment) (ys : List ℕ)
        → off ≤ k_block_size
        → next_of off f ≤ k_block_size
        → full_type ≤ f.0
        → f.0 ≤ last_type
        → Standing r off (trailer off ++ (physical_record host crc_of f.0 f.1 ++ ys))
        → Fetches f (next_of off f) ys (read_physical_record host crc_of r)
    unfolding read_physical_record
    fetch r off f ys b h lo hi s =
        let bytes = physical_record host crc_of f.0 f.1 in
        let room_left = λ (n : ℕ) (st : start_of off ≡ n).
          subst (λ (k : ℕ). k + (log_header_size + length f.1) ≤ k_block_size) st h in
        elim (Bool-cases (ltb (k_block_size - off) log_header_size)) [
          | inl e ↦
              let tr : trailer off ≡ replicate (k_block_size - off) 0 = rw (e) refl in
              let st : start_of off ≡ 0 = rw (e) refl in
              let xs = replicate (k_block_size - off) 0 in
              let s' = subst (λ (t : List ℕ). Standing r off (t ++ (bytes ++ ys))) tr s in
              let l : length xs ≡ k_block_size - off = length-replicate (k_block_size - off) 0 in
              subst
                (λ (n : ℕ).
                  Fetches f (n + (log_header_size + length f.1)) ys
                    (read_physical_record host crc_of r))
                (sym st)
                (fetch_block r off f xs ys l (trailer_short off (length xs) l e) (room_left 0 st) lo
                  hi s')
          | inr e ↦
              let tr : trailer off ≡ [] = rw (e) refl in
              let st : start_of off ≡ off = rw (e) refl in
              let s' = subst (λ (t : List ℕ). Standing r off (t ++ (bytes ++ ys))) tr s in
              subst
                (λ (n : ℕ).
                  Fetches f (n + (log_header_size + length f.1)) ys
                    (read_physical_record host crc_of r))
                (sym st) (fetch_ready 2 r off f ys (room_left off st) lo hi s')
        ]
