-- ===== src/Redisdb/WriteBatch.antt =====
-- redisdb/db/writebatch.h and writebatch.cc: a batch of updates in one byte string, a header of a
-- sequence number (8 bytes) and a count (4 bytes), then one record for each update.
--
-- A batch is its `rep`. The memtable that a batch is inserted into is a state of any type with the
-- operation MemTable::Add. The counts are ints, as the number of their 32 bits: a sum that is no int,
-- which C++ leaves undefined, wraps here, and the theorems on counts keep below 2^31. A failed assert
-- is `none`.
pub mod Records
pub mod Replay
mod Tests
use cpp_swiss_army_knife.Common.{
  ℕ, zero, suc, ◌+◌, ◌%◌, ◌^◌, List, [], ◌∷◌, ◌++◌, Option, none, some, ltb, leb, ◌==◌,
  if◌then◌else◌, length, drop, replicate, store_at,
}
use cpp_swiss_army_knife.Redisdb.Coding.{
  ByteOrder, encode_fixed32, decode_fixed32, encode_fixed64, decode_fixed64,
  put_length_prefixed_slice, get_length_prefixed_slice,
}
use cpp_swiss_army_knife.Redisdb.Format.{ValueType, type_deletion, type_value, type_code}

abbrev pub header_size : ℕ
header_size = 12

-- The Status of Iterate: OK, or Corruption with one of its messages.
pub data BatchStatus : Type 0 where
  ok : BatchStatus
  too_small bad_put bad_delete unknown_tag wrong_count : BatchStatus

-- Where the loop of Iterate stands: the records found so far and the memtable.
pub record Iteration (M : Type 0) : Type 0 where
  pub status : BatchStatus
  pub found : ℕ
  pub mem : M

-- WriteBatch() and clear(): resize fills with zeroes.
unfoldable pub new_batch : List ℕ
new_batch = replicate header_size 0

-- WriteBatchInternal::SetContents, whatever was in the batch before.
unfoldable pub set_contents : List ℕ → Option (List ℕ)
set_contents contents = if leb header_size (length contents) then some contents else none

module _ (host : ByteOrder) where
  unfoldable pub count : List ℕ → ℕ
  count rep = decode_fixed32 host (drop 8 rep)

  -- EncodeFixed32 takes the int as a uint32_t, which has the same bits.
  unfoldable pub set_count : List ℕ → ℕ → List ℕ
  set_count rep n = store_at rep 8 (encode_fixed32 host (n % 2 ^ 32))

  unfoldable pub get_sequence : List ℕ → ℕ
  get_sequence rep = decode_fixed64 host rep

  unfoldable pub set_sequence : List ℕ → ℕ → List ℕ
  set_sequence rep seq = store_at rep 0 (encode_fixed64 host seq)

  unfoldable pub put : List ℕ → List ℕ → List ℕ → List ℕ
  put rep key value =
      put_length_prefixed_slice
        (put_length_prefixed_slice
          (set_count rep ((count rep + 1) % 2 ^ 32) ++ type_code type_value ∷ []) key)
        value

  unfoldable pub delete : List ℕ → List ℕ → List ℕ
  delete rep key =
      put_length_prefixed_slice
        (set_count rep ((count rep + 1) % 2 ^ 32) ++ type_code type_deletion ∷ []) key

  -- WriteBatchInternal::append
  unfoldable pub append_batch : List ℕ → List ℕ → Option (List ℕ)
  append_batch dst src =
      if leb header_size (length src)
      then some (set_count dst ((count dst + count src) % 2 ^ 32) ++ drop header_size src)
      else none

  module _ {M : Type 0} (add : M → ℕ → ValueType → List ℕ → List ℕ → M) where
    -- The while loop of Iterate. Each round takes a byte, so the length of the input is fuel enough.
    -- What was added before an error stays in the memtable.
    unfoldable pub iterate_loop : ℕ → List ℕ → ℕ → ℕ → M → Option (Iteration M)
    iterate_loop zero [] seq found mem = some (record { status = ok; found = found; mem = mem })
    iterate_loop zero (tag ∷ input) seq found mem = none
    iterate_loop (suc fuel) [] seq found mem =
        some (record { status = ok; found = found; mem = mem })
    iterate_loop (suc fuel) (tag ∷ input) seq found mem =
        if tag == type_code type_value
        then elim (get_length_prefixed_slice input) [
          | none ↦ some (record { status = bad_put; found = (found + 1) % 2 ^ 32; mem = mem })
          | some (key, rest) ↦ elim (get_length_prefixed_slice rest) [
            | none ↦ some (record { status = bad_put; found = (found + 1) % 2 ^ 32; mem = mem })
            | some (value, rest') ↦
                iterate_loop fuel rest' ((seq + 1) % 2 ^ 64) ((found + 1) % 2 ^ 32)
                  (add mem seq type_value key value)
          ]
        ]
        else if tag == type_code type_deletion
        then elim (get_length_prefixed_slice input) [
          | none ↦ some (record { status = bad_delete; found = (found + 1) % 2 ^ 32; mem = mem })
          | some (key, rest) ↦
              iterate_loop fuel rest ((seq + 1) % 2 ^ 64) ((found + 1) % 2 ^ 32)
                (add mem seq type_deletion key [])
        ]
        else some (record { status = unknown_tag; found = (found + 1) % 2 ^ 32; mem = mem })

    unfoldable pub iterate : List ℕ → ℕ → M → Option (BatchStatus × M)
    iterate rep seq mem =
        let input = drop header_size rep in
        if ltb (length rep) header_size
        then some (too_small, mem)
        else elim (iterate_loop (length input) input seq 0 mem) [
          | none ↦ none
          | some r ↦ elim r.status [
            | ok ↦ if r.found == count rep then some (ok, r.mem) else some (wrong_count, r.mem)
            | other ↦ some (other, r.mem)
          ]
        ]

    unfoldable pub insert_into : List ℕ → M → Option (BatchStatus × M)
    insert_into rep mem = iterate rep (get_sequence rep) mem
