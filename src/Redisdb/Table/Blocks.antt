-- ===== src/Redisdb/Table/Blocks.antt =====
-- A block of a table file, written and read back: TableBuilder::WriteBlock (redisdb/db/tablebuilder.cc)
-- and ReadBlock (redisdb/db/format.cc).
use cpp_swiss_army_knife.Common.{
  ℕ, ◌+◌, ◌-◌, ◌/◌, ◌%◌, ◌^◌, ◌<◌, ◌≡◌, refl, sym, ap, ◌∙◌, subst, Bool, true, false, not, inl, inr,
  Option-cases, List, [], ◌∷◌, ◌++◌, Option, none, some, ltb, ◌==◌, ◌&&◌, if◌then◌else◌, length,
  take, drop, get_or, append_assoc, append-nil, length-append, take-length, drop-length,
  get_or-append, arith,
}
use cpp_swiss_army_knife.Redisdb.Coding.{ByteOrder, encode_fixed32, decode_fixed32}
use cpp_swiss_army_knife.Redisdb.Coding.Fixed.{decode_fixed32-encode_fixed32, length-encode_fixed32}
use cpp_swiss_army_knife.Redisdb.Log.{mask, unmask}
use cpp_swiss_army_knife.Redisdb.Log.Fragments.{unmask-mask}
use cpp_swiss_army_knife.Redisdb.Table.{
  Snappy, CompressionType, no_compression, snappy_compression, type_byte, k_block_trailer_size,
}
use cpp_swiss_army_knife.Redisdb.Table.Builder.{stored, trailer}
use cpp_swiss_army_knife.Redisdb.Table.Reader.{
  ReadResult, checksum_mismatch, truncated, read, uncompressed, block_of_type, checked_block,
  read_block,
}

-- What the store relies on of crc32c: Extend goes on from the checksum of what is in front.
pub record IsChecksum (value : List ℕ → ℕ) (extend : ℕ → List ℕ → ℕ) : Type 0 where
  pub word : (xs : List ℕ) → value xs < 2 ^ 32
  pub extends : (xs ys : List ℕ) → extend (value xs) ys ≡ value (xs ++ ys)

-- And of snappy: what it compressed, it uncompresses.
pub record IsSnappy (snappy : Snappy) : Type 0 where
  pub sized :
      (raw compressed : List ℕ)
      → snappy.compress raw ≡ some compressed
      → snappy.get_uncompressed_length compressed ≡ some (length raw)
  pub restored :
      (raw compressed : List ℕ)
      → snappy.compress raw ≡ some compressed
      → snappy.uncompress compressed ≡ some raw

-- A read of n bytes at an offset of the file.
abbrev pub read_at : List ℕ → ℕ → ℕ → Option (List ℕ)
read_at file offset n = some (take n (drop offset file))

abbrev pub contents_of : ReadResult → Option (List ℕ)
contents_of (read c) = some c.contents
contents_of _ = none

take_all : (xs : List ℕ) → take (length xs) xs ≡ xs
take_all xs = ap (take (length xs)) (sym (append-nil xs)) ∙ take-length xs []

-- The bytes of a block that is stored, and what its reader makes of them.
abbrev pub Restores : Snappy → List ℕ → List ℕ × CompressionType → Type 0
Restores snappy raw (c, no_compression) = c ≡ raw
Restores snappy raw (c, snappy_compression) = contents_of (uncompressed snappy c) ≡ some raw

uncompressed_lem :
    (snappy : Snappy) (raw c : List ℕ)
    → IsSnappy snappy
    → snappy.compress raw ≡ some c
    → contents_of (uncompressed snappy c) ≡ some raw
unfolding uncompressed
uncompressed_lem snappy raw c laws e =
    let size = laws.sized raw c e in
    let back = laws.restored raw c e in rw (size, uncompressed) (rw (back) (ap some (take_all raw)))

compressed-Restores :
    (snappy : Snappy) (raw c : List ℕ) (b : Bool)
    → IsSnappy snappy
    → snappy.compress raw ≡ some c
    → Restores snappy raw (if b then (c, snappy_compression) else (raw, no_compression))
compressed-Restores snappy raw c false laws e = refl
compressed-Restores snappy raw c true laws e = uncompressed_lem snappy raw c laws e

stored_raw :
    (snappy : Snappy) (raw : List ℕ)
    → snappy.compress raw ≡ none
    → stored snappy snappy_compression raw ≡ (raw, no_compression)
unfolding stored
stored_raw snappy raw e = rw (e, stored) refl

stored_compressed :
    (snappy : Snappy) (raw c : List ℕ)
    → snappy.compress raw ≡ some c
    → stored snappy snappy_compression raw ≡ (
        if ltb (length c) (length raw - length raw / 8)
        then (c, snappy_compression)
        else (raw, no_compression))
unfolding stored
stored_compressed snappy raw c e = rw (e, stored) refl

word_mask : (crc : ℕ) → mask crc < 2 ^ 32
unfolding mask
word_mask crc = omega arith

pub stored-Restores :
    (snappy : Snappy) (compression : CompressionType) (raw : List ℕ)
    → IsSnappy snappy
    → Restores snappy raw (stored snappy compression raw)
unfolding stored
stored-Restores snappy no_compression raw laws = refl
stored-Restores snappy snappy_compression raw laws = elim (Option-cases (snappy.compress raw)) [
  | inl e ↦ subst (Restores snappy raw) (sym (stored_raw snappy raw e)) refl
  | inr (c, e) ↦
      subst (Restores snappy raw) (sym (stored_compressed snappy raw c e))
        (compressed-Restores snappy raw c (ltb (length c) (length raw - length raw / 8)) laws e)
]

whole : (a b : ℕ) → b ≡ a → (a == b) ≡ true
whole a b h = ground arith

same : (n : ℕ) → (n == n) ≡ true
same n = ground arith

module _ (host : ByteOrder) (value : List ℕ → ℕ) (extend : ℕ → List ℕ → ℕ) where
  pub length-trailer :
      (c : List ℕ) (type : CompressionType) → length (trailer host value extend c type) ≡ 5
  unfolding trailer
  length-trailer c type =
      omega (arith, length-encode_fixed32 host (mask (extend (value c) (type_byte type ∷ []))))

module _ (host : ByteOrder) (value : List ℕ → ℕ) (extend : ℕ → List ℕ → ℕ) (snappy : Snappy)
    (verifychecksums own_data : Bool) where
  typed_block :
      (raw c crc : List ℕ) (type : CompressionType)
      → Restores snappy raw (c, type)
      → contents_of (block_of_type snappy own_data (length c) (c ++ (type_byte type ∷ crc)))
        ≡ some raw
  unfolding block_of_type
  typed_block raw c crc no_compression h =
      let t : get_or (c ++ (0 ∷ crc)) (length c) 0 ≡ 0 =
        get_or-append c (0 ∷ crc) (length c) 0 (omega arith) in
      rw (t) (ap some (take-length c (0 ∷ crc) ∙ h))
  typed_block raw c crc snappy_compression h =
      let t : get_or (c ++ (1 ∷ crc)) (length c) 0 ≡ 1 =
        get_or-append c (1 ∷ crc) (length c) 0 (omega arith) in
      rw (t)
        (ap (λ (s : List ℕ). contents_of (uncompressed snappy s)) (take-length c (1 ∷ crc)) ∙ h)

  checked_lem :
      (b : Bool) (crc : ℕ) (x : ReadResult)
      → (if b && not (crc == crc) then checksum_mismatch else x) ≡ x
  checked_lem false crc x = refl
  checked_lem true crc x = let s = same crc in rw (s) refl

  checked_block-trailer :
      (raw c : List ℕ) (type : CompressionType)
      → IsChecksum value extend
      → Restores snappy raw (c, type)
      → contents_of (
          checked_block host value snappy verifychecksums own_data
            (length c)
            (c ++ trailer host value extend c type))
        ≡ some raw
  unfolding checked_block trailer
  checked_block-trailer raw c type laws h =
      let t = type_byte type in
      let actual = value (c ++ (t ∷ [])) in
      let word = laws.word (c ++ (t ∷ [])) in
      let crc = encode_fixed32 host (mask (extend (value c) (t ∷ []))) in
      let data' = c ++ (t ∷ crc) in
      let parts : data' ≡ (c ++ (t ∷ [])) ++ crc = sym (append_assoc c (t ∷ []) crc) in
      let n : length c + 1 ≡ length (c ++ (t ∷ [])) = omega (arith, length-append c (t ∷ [])) in
      let front : take (length c + 1) data' ≡ c ++ (t ∷ []) =
        ap (λ (k : ℕ). take k data') n
        ∙ ap (take (length (c ++ (t ∷ [])))) parts
        ∙ take-length (c ++ (t ∷ [])) crc in
      let behind : drop (length c + 1) data' ≡ crc =
        ap (λ (k : ℕ). drop k data') n
        ∙ ap (drop (length (c ++ (t ∷ [])))) parts
        ∙ drop-length (c ++ (t ∷ [])) crc in
      let ext = extend (value c) (t ∷ []) in
      let same_crc : ext ≡ actual = laws.extends c (t ∷ []) in
      let small : ext < 2 ^ 32 = rw (same_crc) word in
      let stored_crc : unmask (decode_fixed32 host (drop (length c + 1) data')) ≡ actual =
        ap (λ (s : List ℕ). unmask (decode_fixed32 host s)) (behind ∙ sym (append-nil crc))
        ∙ ap unmask (decode_fixed32-encode_fixed32 host (mask ext) [] (word_mask ext))
        ∙ unmask-mask ext small
        ∙ same_crc in
      let typed = block_of_type snappy own_data (length c) data' in
      ap
        (λ (u : ℕ). contents_of (
          if verifychecksums && not (u == unmask (decode_fixed32 host (drop (length c + 1) data')))
          then checksum_mismatch
          else typed))
        (ap value front)
      ∙ ap
          (λ (u : ℕ).
            contents_of (if verifychecksums && not (actual == u) then checksum_mismatch else typed))
          stored_crc
      ∙ ap contents_of (checked_lem verifychecksums actual typed)
      ∙ typed_block raw c crc type h

  -- A block and its trailer, anywhere in a file.
  pub read_block-trailer :
      (raw c front more : List ℕ) (type : CompressionType)
      → IsChecksum value extend
      → Restores snappy raw (c, type)
      → length c + k_block_trailer_size < 2 ^ 64
      → contents_of (
          read_block host value snappy verifychecksums own_data
            (read_at (front ++ ((c ++ trailer host value extend c type) ++ more)))
            (record { offset = length front; size = length c }))
        ≡ some raw
  unfolding read_block
  read_block-trailer raw c front more type laws h b =
      let end = trailer host value extend c type in
      let n : (length c + k_block_trailer_size) % 2 ^ 64 ≡ length (c ++ end) =
        omega (arith, length-append c end, length-trailer host value extend c type) in
      let bytes : take ((length c + k_block_trailer_size) % 2 ^ 64)
            (drop (length front) (front ++ ((c ++ end) ++ more)))
          ≡ c ++ end =
        ap (take ((length c + k_block_trailer_size) % 2 ^ 64))
          (drop-length front ((c ++ end) ++ more))
        ∙ ap (λ (k : ℕ). take k ((c ++ end) ++ more)) n
        ∙ take-length (c ++ end) more in
      let size : (length (c ++ end) == (length c + k_block_trailer_size) % 2 ^ 64) ≡ true =
        whole (length (c ++ end)) ((length c + k_block_trailer_size) % 2 ^ 64) n in
      ap
        (λ (s : List ℕ). contents_of (
          if length s == (length c + k_block_trailer_size) % 2 ^ 64
          then checked_block host value snappy verifychecksums own_data (length c) s
          else truncated))
        bytes
      ∙ rw (size) (checked_block-trailer raw c type laws h)
