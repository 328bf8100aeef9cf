-- ===== src/Redisdb/WriteBatch/Tests.antt =====
-- A run of a write batch (redisdb/db/writebatch.cc), and the theorems at concrete inputs.
use cpp_swiss_army_knife.Common.{ℕ, ◌≡◌, ◌≢◌, refl, List, [], ◌∷◌, ◌++◌, some, none, arith}
use cpp_swiss_army_knife.Redisdb.Coding.{little_endian, big_endian}
use cpp_swiss_army_knife.Redisdb.Coding.Tests.{program}
use cpp_swiss_army_knife.Redisdb.Format.{ValueType, type_value, type_deletion}
use cpp_swiss_army_knife.Redisdb.WriteBatch.{
  new_batch, set_contents, count, set_count, put, delete, iterate_loop, iterate, ok, bad_put,
  append_batch,
}
use cpp_swiss_army_knife.Redisdb.WriteBatch.Records.{
  Update, put_update, delete_update, build, append_batch-build,
}
use cpp_swiss_army_knife.Redisdb.WriteBatch.Replay.{iterate-build, iterate_total}

-- A memtable that only records the calls of Add.
record Call : Type 0 where
  seq : ℕ
  kind : ValueType
  key : List ℕ
  value : List ℕ

abbrev trace : List Call → ℕ → ValueType → List ℕ → List ℕ → List Call
trace calls seq kind key value =
    calls ++ record { seq = seq; kind = kind; key = key; value = value } ∷ []

abbrev two_updates : List Update
two_updates = put_update (1 ∷ []) (7 ∷ 8 ∷ []) ∷ delete_update (2 ∷ []) ∷ []

built :
    build little_endian two_updates
    ≡ 0 ∷ 0 ∷ 0 ∷ 0 ∷ 0 ∷ 0 ∷ 0 ∷ 0 ∷ 2 ∷ 0 ∷ 0 ∷ 0 ∷ 1 ∷ 1 ∷ 1 ∷ 2 ∷ 7 ∷ 8 ∷ 0 ∷ 1 ∷ 2 ∷ []
unfolding build program new_batch count set_count put delete
built = refl

-- A cut record leaves what was added before it in the memtable.
cut_batch :
    iterate little_endian trace
      (0 ∷ 0 ∷ 0 ∷ 0 ∷ 0 ∷ 0 ∷ 0 ∷ 0 ∷ 2 ∷ 0 ∷ 0 ∷ 0 ∷ 0 ∷ 1 ∷ 2 ∷ 1 ∷ 1 ∷ 1 ∷ 2 ∷ [])
      5
      []
    ≡ some (bad_put, record { seq = 5; kind = type_deletion; key = 2 ∷ []; value = [] } ∷ [])
unfolding program iterate iterate_loop count
cut_batch = refl

iterate-build_example :
    (iterate big_endian trace (build big_endian two_updates) 5 []
      ≡ some (
        ok,
        record { seq = 5; kind = type_value; key = 1 ∷ []; value = 7 ∷ 8 ∷ [] }
            ∷ record { seq = 6; kind = type_deletion; key = 2 ∷ []; value = [] }
            ∷ [],
      ))
    × (set_contents (build big_endian two_updates) ≡ some (build big_endian two_updates))
iterate-build_example = iterate-build big_endian trace two_updates 5 [] (omega arith) (omega arith)

iterate_total_example : iterate little_endian trace (1 ∷ 2 ∷ []) 5 [] ≢ none
iterate_total_example = iterate_total little_endian trace (1 ∷ 2 ∷ []) 5 []

append_batch-build_example :
    append_batch little_endian (build little_endian two_updates) (build little_endian two_updates)
    ≡ some (build little_endian (two_updates ++ two_updates))
append_batch-build_example = append_batch-build little_endian two_updates two_updates (omega arith)
