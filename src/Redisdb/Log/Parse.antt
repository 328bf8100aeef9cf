-- ===== src/Redisdb/Log/Parse.antt =====
-- LogReader::ReadPhysicalRecord (redisdb/db/logreader.cc) behind a buffer that starts with a record of
-- LogWriter::EmitPhysicalRecord.
use cpp_swiss_army_knife.Common.{
  ℕ, suc, ◌+◌, ◌*◌, ◌/◌, ◌%◌, ◌^◌, ◌≤◌, ◌<◌, ◌≡◌, refl, ap, ◌∙◌, List, ◌∷◌, ◌++◌, Bool, true, false,
  not, ◌&&◌, arith, ltb, ◌==◌, length, take, drop, get_or, get_or-append, drop_append, take-length,
  length-append, append_assoc,
}
use cpp_swiss_army_knife.Redisdb.Coding.{ByteOrder, encode_fixed32, decode_fixed32}
use cpp_swiss_army_knife.Redisdb.Coding.Fixed.{length-encode_fixed32, decode_fixed32-encode_fixed32}
use cpp_swiss_army_knife.Redisdb.Log.{
  zero_type, full_type, last_type, log_header_size, mask, unmask, physical_record,
}
use cpp_swiss_army_knife.Redisdb.Log.Fragments.{unmask-mask}
use cpp_swiss_army_knife.Redisdb.Log.Reader.{
  LogReader, char_value, minus64, parse_sized, parse_header,
}

small_char : (c : ℕ) → full_type ≤ c → c ≤ last_type → char_value c ≡ c
small_char c lo hi = ground arith

not_before : (n i : ℕ) → i ≡ 0 → ltb n i ≡ false
not_before n i h = ground arith

no_difference : (check : Bool) (c : ℕ) → (check && not (c == c)) ≡ false
no_difference true c = ground arith
no_difference false c = refl

module _ (host : ByteOrder) (crc_of : List ℕ → ℕ) (crc_word : (xs : List ℕ) → crc_of xs < 2 ^ 32)
    (t : ℕ) (bytes tail : List ℕ) where
  abbrev header : List ℕ
  header = encode_fixed32 host (mask (crc_of (t ∷ bytes)))

  abbrev behind : List ℕ
  behind = length bytes % 256 ∷ length bytes / 2 ^ 8 % 256 ∷ t ∷ (bytes ++ tail)

  abbrev record_then : List ℕ
  record_then = physical_record host crc_of t bytes ++ tail

  record_then_parts : record_then ≡ header ++ behind
  unfolding physical_record
  record_then_parts =
      append_assoc header (length bytes % 256 ∷ length bytes / 2 ^ 8 % 256 ∷ t ∷ bytes) tail

  header_byte : (n i : ℕ) → n ≡ 4 + i → get_or record_then n 0 ≡ get_or behind i 0
  header_byte n i h =
      ap (λ (xs : List ℕ). get_or xs n 0) record_then_parts
      ∙ get_or-append header behind n i
          (omega (arith, length-encode_fixed32 host (mask (crc_of (t ∷ bytes)))))

  size_field :
      length bytes < 2 ^ 16 → get_or record_then 4 0 + get_or record_then 5 0 * 2 ^ 8 ≡ length bytes
  size_field h =
      let a : get_or record_then 4 0 ≡ length bytes % 256 = header_byte 4 0 refl in
      let b : get_or record_then 5 0 ≡ length bytes / 2 ^ 8 % 256 = header_byte 5 1 refl in
      rw (a, b) (omega arith)

  drop_header : (n i : ℕ) → n ≡ 4 + i → drop n record_then ≡ drop i behind
  drop_header n i h =
      ap (drop n) record_then_parts
      ∙ drop_append header behind n i
          (omega (arith, length-encode_fixed32 host (mask (crc_of (t ∷ bytes)))))

  mask_word : (crc : ℕ) → mask crc < 2 ^ 32
  unfolding mask
  mask_word crc = omega arith

  checksum_field : unmask (decode_fixed32 host record_then) ≡ crc_of (t ∷ bytes)
  checksum_field =
      ap (λ (xs : List ℕ). unmask (decode_fixed32 host xs)) record_then_parts
      ∙ ap unmask (
          decode_fixed32-encode_fixed32 host (mask (crc_of (t ∷ bytes))) behind
            (mask_word (crc_of (t ∷ bytes))))
      ∙ unmask-mask (crc_of (t ∷ bytes)) (crc_word (t ∷ bytes))

  checked_bytes : take (1 + length bytes) (drop 6 record_then) ≡ t ∷ bytes
  checked_bytes =
      let one : 1 + length bytes ≡ suc (length bytes) = omega arith in
      ap (take (1 + length bytes)) (drop_header 6 2 refl)
      ∙ ap (λ (n : ℕ). take n (t ∷ (bytes ++ tail))) one
      ∙ take-length (t ∷ bytes) tail

  fragment_bytes : take (length bytes) (drop log_header_size record_then) ≡ bytes
  fragment_bytes =
      ap (take (length bytes)) (drop_header log_header_size 3 refl) ∙ take-length bytes tail

  rest_bytes : drop (log_header_size + length bytes) record_then ≡ tail
  rest_bytes =
      drop_header (log_header_size + length bytes) (3 + length bytes) (omega arith)
      ∙ drop_append (length bytes % 256 ∷ length bytes / 2 ^ 8 % 256 ∷ t ∷ bytes) tail
          (3 + length bytes) 0 (omega arith)

  length_bound : ltb (length record_then) (log_header_size + length bytes) ≡ false
  length_bound =
      let l = ap length record_then_parts in
      ground (
        arith,
        l,
        length-append header behind,
        length-append bytes tail,
        length-encode_fixed32 host (mask (crc_of (t ∷ bytes))),
      )

  type_field : full_type ≤ t → t ≤ last_type → char_value (get_or record_then 6 0) ≡ t
  type_field lo hi = ap (λ (c : ℕ). char_value c) (header_byte 6 2 refl) ∙ small_char t lo hi

  not_preallocated : full_type ≤ t → ((t == zero_type) && (length bytes == 0)) ≡ false
  not_preallocated lo = ground arith

  checksum_holds :
      (check : Bool)
      → (check
          && not (
              crc_of (take (1 + length bytes) (drop 6 record_then))
              == unmask (decode_fixed32 host record_then)))
        ≡ false
  checksum_holds check =
      rw (checked_bytes, checksum_field) (no_difference check (crc_of (t ∷ bytes)))

  parse_sized_lem :
      (r : LogReader)
      → r.buffer ≡ record_then
      → r.initialoffset ≡ 0
      → full_type ≤ t
      → parse_sized host crc_of r (length bytes) t
        ≡ record { type = t; fragment = bytes; reader = record r { buffer = tail } }
  unfolding parse_sized
  parse_sized_lem r b i lo =
      rw
        (
          b,
          length_bound,
          not_preallocated lo,
          checksum_holds r.checksum,
          fragment_bytes,
          rest_bytes,
          not_before
              (minus64 (minus64 (minus64 r.endofbufferoffset (length tail)) log_header_size)
                (length bytes))
              r.initialoffset i,
        )
        refl

  pub parse_header_lem :
      (r : LogReader)
      → r.buffer ≡ record_then
      → r.initialoffset ≡ 0
      → full_type ≤ t
      → t ≤ last_type
      → length bytes < 2 ^ 16
      → parse_header host crc_of r
        ≡ record { type = t; fragment = bytes; reader = record r { buffer = tail } }
  unfolding parse_header
  parse_header_lem r b i lo hi short =
      ap
        (λ (xs : List ℕ).
          parse_sized host crc_of r (get_or xs 4 0 + get_or xs 5 0 * 2 ^ 8)
            (char_value (get_or xs 6 0)))
        b
      ∙ ap (λ (n : ℕ). parse_sized host crc_of r n (char_value (get_or record_then 6 0)))
          (size_field short)
      ∙ ap (parse_sized host crc_of r (length bytes)) (type_field lo hi)
      ∙ parse_sized_lem r b i lo
