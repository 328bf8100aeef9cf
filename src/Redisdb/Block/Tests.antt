-- ===== src/Redisdb/Block/Tests.antt =====
-- Runs of the block builder and the block iterator of redisdb/db, and the theorems at concrete inputs.
use cpp_swiss_army_knife.Common.{◌≡◌, refl, List, [], ◌∷◌, some, false, arith}
use cpp_swiss_army_knife.Redisdb.Block.{
  BlockBuilder, new_builder, put_entry, may_add, shared_of, restart, add, finish,
}
use cpp_swiss_army_knife.Redisdb.Block.Built.{IsAscending, add_all}
use cpp_swiss_army_knife.Redisdb.Block.Iterator.{
  BlockIterator, over, new_block, new_iterator, seek_to_first, seek,
}
use cpp_swiss_army_knife.Redisdb.Block.Layout.{KeyValue}
use cpp_swiss_army_knife.Redisdb.Block.RoundTrip.{read_all, read_all-add_all}
use cpp_swiss_army_knife.Redisdb.Block.Search.{Finds}
use cpp_swiss_army_knife.Redisdb.Block.Seek.{seek-add_all}
use cpp_swiss_army_knife.Redisdb.Coding.{little_endian, encode_varint32, put_varint32}
use cpp_swiss_army_knife.Redisdb.Comparator.{bytewise, compare_bytes, shared_length}
use cpp_swiss_army_knife.Redisdb.Comparator.Separator.{bytewise-IsComparator}

abbrev three : List KeyValue
three = (b'a' ∷ b'b' ∷ [], 1 ∷ []) ∷ (b'a' ∷ b'c' ∷ [], 2 ∷ []) ∷ (b'a' ∷ b'd' ∷ [], 3 ∷ []) ∷ []

-- With a restart interval of two, the second key shares a byte and the third is a restart point.
three_run :
    add_all bytewise 2 new_builder three
    ≡ some (record {
      buffer =
          0 ∷ 2 ∷ 1 ∷ b'a' ∷ b'b' ∷ 1 ∷ 1 ∷ 1 ∷ 1 ∷ b'c' ∷ 2 ∷ 0 ∷ 2 ∷ 1 ∷ b'a' ∷ b'd' ∷ 3 ∷ [];
      restarts = 0 ∷ 11 ∷ [];
      counter = 1;
      finished = false;
      lastkey = b'a' ∷ b'd' ∷ [];
    })
unfolding add may_add shared_of restart put_entry compare_bytes shared_length put_varint32
    encode_varint32
three_run = refl

three-IsAscending : IsAscending bytewise three
unfolding compare_bytes
three-IsAscending = (refl, (refl, tt))

read_all-add_all_example :
    (b : BlockBuilder) × (add_all bytewise 2 new_builder three ≡ some b)
    × ((it : BlockIterator) × (new_iterator little_endian
            (new_block little_endian (finish little_endian b).buffer)
          ≡ over it)
        × (read_all little_endian 4 (seek_to_first little_endian it) ≡ some three))
read_all-add_all_example =
    read_all-add_all little_endian bytewise 2 three (omega arith) three-IsAscending (omega arith)

seek-add_all_example :
    (b : BlockBuilder) × (add_all bytewise 2 new_builder three ≡ some b)
    × ((it : BlockIterator) × (new_iterator little_endian
            (new_block little_endian (finish little_endian b).buffer)
          ≡ over it)
        × Finds little_endian bytewise
            (b'a' ∷ b'c' ∷ b'c' ∷ [])
            three
            (seek little_endian bytewise it (b'a' ∷ b'c' ∷ b'c' ∷ [])))
seek-add_all_example =
    seek-add_all little_endian bytewise 2 three (b'a' ∷ b'c' ∷ b'c' ∷ []) bytewise-IsComparator
      (omega arith) three-IsAscending (omega arith)
