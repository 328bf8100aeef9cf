-- ===== src/Redisdb/Log/Layout.antt =====
-- The layout of a log file (redisdb/db/logwriter.cc): fragments one behind the other, none of them over
-- the end of a block, and the cut of a record into fragments.
use cpp_swiss_army_knife.Common.{
  ℕ, ◌+◌, ◌-◌, ◌/◌, ◌%◌, ◌^◌, ◌≤◌, ◌<◌, ◌≡◌, List, [], ◌∷◌, ◌++◌, Bool, false, arith, ltb,
  if◌then◌else◌, length, replicate, length-append,
}
use cpp_swiss_army_knife.Redisdb.Coding.{ByteOrder, encode_fixed32}
use cpp_swiss_army_knife.Redisdb.Coding.Fixed.{length-encode_fixed32}
use cpp_swiss_army_knife.Redisdb.Log.{
  full_type, first_type, middle_type, last_type, k_block_size, log_header_size, physical_record,
  mask,
}

abbrev pub Fragment : Type 0
Fragment = ℕ × List ℕ

-- The trailer that ends a block, and where the next header stands.
abbrev pub trailer : ℕ → List ℕ
trailer off =
    if ltb (k_block_size - off) log_header_size then replicate (k_block_size - off) 0 else []

abbrev pub start_of : ℕ → ℕ
start_of off = if ltb (k_block_size - off) log_header_size then 0 else off

abbrev pub next_of : ℕ → Fragment → ℕ
next_of off f = start_of off + (log_header_size + length f.1)

abbrev pub end_of : ℕ → List Fragment → ℕ
end_of off [] = off
end_of off (f ∷ fs) = end_of (next_of off f) fs

-- Every fragment ends in the block in which it starts, and has a type of AddRecord's.
abbrev pub InBlocks : ℕ → List Fragment → Type 0
InBlocks off [] = Unit {0}
InBlocks off (f ∷ fs) =
    (next_of off f ≤ k_block_size)
    × (full_type ≤ f.0)
    × (f.0 ≤ last_type)
    × InBlocks (next_of off f) fs

-- The type of a record's last fragment, and of one before it.
abbrev pub last_type_of : Bool → ℕ
last_type_of begin = if begin then full_type else last_type

abbrev pub more_type_of : Bool → ℕ
more_type_of begin = if begin then first_type else middle_type

-- The fragments are the slice cut up, with the types that say first, middle and last, or full.
abbrev pub CutOf : Bool → List ℕ → List Fragment → Type 0
CutOf begin slice [] = 0 < 0
CutOf begin slice (f ∷ []) = (f.0 ≡ last_type_of begin) × (f.1 ≡ slice)
CutOf begin slice (f ∷ g ∷ fs) =
    (f.0 ≡ more_type_of begin)
    × ((rest : List ℕ) × (slice ≡ f.1 ++ rest) × CutOf false rest (g ∷ fs))

module _ (host : ByteOrder) (crc_of : List ℕ → ℕ) where
  abbrev pub laid : ℕ → List Fragment → List ℕ
  laid off [] = []
  laid off (f ∷ fs) =
      trailer off ++ (physical_record host crc_of f.0 f.1 ++ laid (next_of off f) fs)

  pub length-physical_record :
      (t : ℕ) (bytes : List ℕ)
      → length (physical_record host crc_of t bytes) ≡ log_header_size + length bytes
  unfolding physical_record
  length-physical_record t bytes =
      let crc = mask (crc_of (t ∷ bytes)) in
      omega (
        arith,
        length-encode_fixed32 host crc,
        length-append (encode_fixed32 host crc)
            (length bytes % 256 ∷ length bytes / 2 ^ 8 % 256 ∷ t ∷ bytes),
      )
