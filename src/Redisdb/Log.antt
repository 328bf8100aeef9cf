-- ===== src/Redisdb/Log.antt =====
-- The log of redisdb/db: logwriter.h and logwriter.cc, logreader.h and logreader.cc. A record is cut
-- into fragments, so that no fragment crosses a block of the file.
--
-- A file is the list of its bytes; its operations succeed. crc32c::Value and Extend are one function on
-- bytes, a parameter, because the code extends the checksum of the type byte by the data.
pub mod Fragments
pub mod Assembly
pub mod Fetch
pub mod Layout
pub mod Parse
pub mod Progress
pub mod Reader
pub mod RoundTrip
mod Tests
pub mod Total
pub mod Written
use cpp_swiss_army_knife.Common.{
  ℕ, zero, suc, ◌+◌, ◌-◌, ◌*◌, ◌/◌, ◌%◌, ◌^◌, bit_or, List, [], ◌∷◌, ◌++◌, Option, none, some, Bool,
  true, false, ltb, ◌==◌, if◌then◌else◌, length, take, drop, replicate,
}
use cpp_swiss_army_knife.Redisdb.Coding.{ByteOrder, encode_fixed32}

-- enum RecordType
abbrev pub zero_type : ℕ
zero_type = 0

abbrev pub full_type : ℕ
full_type = 1

abbrev pub first_type : ℕ
first_type = 2

abbrev pub middle_type : ℕ
middle_type = 3

abbrev pub last_type : ℕ
last_type = 4

abbrev pub eof_type : ℕ
eof_type = 5

abbrev pub bad_record : ℕ
bad_record = 6

abbrev pub k_block_size : ℕ
k_block_size = 32768

abbrev pub log_header_size : ℕ
log_header_size = 7

abbrev pub k_mask_delta : ℕ
k_mask_delta = 0xa282ead8

-- crc32c::Mask and Unmask
unfoldable pub mask : ℕ → ℕ
mask crc = (bit_or (crc / 2 ^ 15) (crc * 2 ^ 17 % 2 ^ 32) + k_mask_delta) % 2 ^ 32

unfoldable pub unmask : ℕ → ℕ
unmask masked =
    let rot = (masked + (2 ^ 32 - k_mask_delta)) % 2 ^ 32 in
    bit_or (rot / 2 ^ 17) (rot * 2 ^ 15 % 2 ^ 32)

-- class LogWriter, with the bytes of dest.
pub record LogWriter : Type 0 where
  pub dest : List ℕ
  pub blockoffset : ℕ

-- LogWriter(dest) of an empty file
abbrev pub new_writer : LogWriter
new_writer = record { dest = []; blockoffset = 0 }

-- The step to a new block, where a header does not fit any more.
unfoldable pub switch_block : LogWriter → LogWriter
switch_block w =
    let leftover = k_block_size - w.blockoffset in
    if ltb leftover log_header_size
    then record { dest = w.dest ++ replicate leftover 0; blockoffset = 0 }
    else w

-- `begin && end`, `begin`, `end`
unfoldable pub type_of_fragment : Bool → Bool → ℕ
type_of_fragment true true = full_type
type_of_fragment true false = first_type
type_of_fragment false true = last_type
type_of_fragment false false = middle_type

module _ (host : ByteOrder) (crc_of : List ℕ → ℕ) where
  -- The header of a physical record, and the record.
  unfoldable pub physical_record : ℕ → List ℕ → List ℕ
  physical_record t bytes =
      encode_fixed32 host (mask (crc_of (t ∷ bytes)))
      ++ (length bytes % 256 ∷ length bytes / 2 ^ 8 % 256 ∷ t ∷ bytes)

  unfoldable pub emit_physical_record : LogWriter → ℕ → List ℕ → LogWriter
  emit_physical_record w t bytes = record {
    dest = w.dest ++ physical_record t bytes;
    blockoffset = w.blockoffset + (log_header_size + length bytes);
  }

  -- The do loop of AddRecord over what is left of the slice. A round takes a byte, or the next one does.
  unfoldable pub add_record_loop : ℕ → LogWriter → Bool → List ℕ → Option LogWriter
  add_record_loop zero w begin left = none
  add_record_loop (suc fuel) w begin left =
      let w1 = switch_block w in
      let avail = k_block_size - w1.blockoffset - log_header_size in
      let size = if ltb (length left) avail then length left else avail in
      let end = length left == size in
      let w2 = emit_physical_record w1 (type_of_fragment begin end) (take size left) in
      let left' = drop size left in
      elim (ltb 0 (length left')) [ false ↦ some w2 | true ↦ add_record_loop fuel w2 false left' ]

  unfoldable pub add_record : LogWriter → List ℕ → Option LogWriter
  add_record w slice = add_record_loop (length slice + 2) w true slice
