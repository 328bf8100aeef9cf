-- ===== src/Redisdb/VersionEdit/Tests.antt =====
-- Runs of redisdb/db/versionedit.cc, and the theorems at concrete inputs.
use cpp_swiss_army_knife.Common.{ℕ, ◌≡◌, ◌≢◌, refl, true, List, [], ◌∷◌, some, none, arith}
use cpp_swiss_army_knife.Redisdb.Coding.{put_varint64}
use cpp_swiss_army_knife.Redisdb.Coding.Tests.{program}
use cpp_swiss_army_knife.Redisdb.VersionEdit.{
  set_log_number, set_compact_pointer, add_file, delete_file, insert_pair, VersionEdit,
  FileMetaData, initial_seeks, clear, pair_less, encode_to, put_name, put_number, put_pointers,
  put_deleted, put_files, decode_from, decode_loop, decode_field, or_fail, get_deleted, get_level,
  left_over, unknown_tag, invalid_tag, deleted_file,
}
use cpp_swiss_army_knife.Redisdb.VersionEdit.RoundTrip.{decode_from-encode_to}
use cpp_swiss_army_knife.Redisdb.VersionEdit.Calls.{
  Call, log_call, pointer_call, delete_call, file_call, new_edit, run_calls,
}
use cpp_swiss_army_knife.Redisdb.VersionEdit.Ends.{decode_from_total}

abbrev pointer_edit : VersionEdit
pointer_edit = record new_edit { compactpointers = (1, 97 ∷ []) ∷ [] }

abbrev one_file : FileMetaData
one_file = record {
  allowedseeks = initial_seeks;
  number = 12;
  filesize = 70000;
  smallest = 97 ∷ [];
  largest = 122 ∷ [];
}

abbrev full_edit : VersionEdit
full_edit = record new_edit {
  comparator = 98 ∷ 119 ∷ [];
  hascomparator = true;
  lognumber = 5;
  haslognumber = true;
  lastsequence = 300;
  haslastsequence = true;
  compactpointers = (2, 99 ∷ []) ∷ [];
  deletedfiles = (0, 9) ∷ (1, 4) ∷ (1, 7) ∷ [];
  newfiles = (3, one_file) ∷ [];
}

log_number_bytes :
    encode_to (record new_edit { lognumber = 300; haslognumber = true }) []
    ≡ some (2 ∷ 172 ∷ 2 ∷ [])
unfolding encode_to put_name put_number put_pointers put_deleted put_files put_varint64 program
log_number_bytes = refl

refused_tags :
    (decode_from new_edit (8 ∷ []) ≡ some (new_edit, some unknown_tag))
    × (decode_from new_edit (128 ∷ []) ≡ some (new_edit, some invalid_tag))
    × (decode_from new_edit (6 ∷ 7 ∷ 1 ∷ []) ≡ some (new_edit, some deleted_file))
unfolding decode_from decode_loop decode_field or_fail get_deleted get_level left_over clear program
refused_tags = (refl, refl, refl)

decode_from-encode_to_example :
    (bytes : List ℕ) × (encode_to full_edit [] ≡ some bytes)
    × (decode_from pointer_edit bytes
        ≡ some (record full_edit { compactpointers = (1, 97 ∷ []) ∷ (2, 99 ∷ []) ∷ [] }, none))
unfolding pair_less
decode_from-encode_to_example =
    decode_from-encode_to pointer_edit full_edit
      (tt, tt, refl, refl, tt, ((refl, (refl, tt)), ((refl, tt), (tt, tt))), (refl, tt))
      (
        omega arith,
        (
          omega arith,
          (
            omega arith,
            (
              (omega arith, omega arith, omega arith),
              (
                (omega arith, omega arith),
                (
                  (omega arith, omega arith),
                  (
                    (omega arith, omega arith),
                    (
                      (
                        omega arith,
                        omega arith,
                        omega arith,
                        omega arith,
                        omega arith,
                        omega arith,
                        omega arith,
                      ),
                      tt,
                    ),
                  ),
                ),
              ),
            ),
          ),
        ),
      )

decode_from_total_example : decode_from full_edit (7 ∷ 3 ∷ 128 ∷ []) ≢ none
decode_from_total_example = decode_from_total full_edit (7 ∷ 3 ∷ 128 ∷ [])

abbrev calls : List Call
calls =
    log_call 5
    ∷ delete_call 1 9
    ∷ log_call 6
    ∷ file_call 2 one_file
    ∷ pointer_call 2 (99 ∷ [])
    ∷ delete_call 0 4
    ∷ []

-- The last log number stays, and the deleted files are in order.
calls_run : run_calls new_edit calls ≡ record new_edit {
  lognumber = 6;
  haslognumber = true;
  compactpointers = (2, 99 ∷ []) ∷ [];
  deletedfiles = (0, 4) ∷ (1, 9) ∷ [];
  newfiles = (2, one_file) ∷ [];
}
unfolding set_log_number set_compact_pointer add_file delete_file insert_pair pair_less
calls_run = refl
