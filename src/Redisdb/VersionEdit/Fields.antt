-- ===== src/Redisdb/VersionEdit/Fields.antt =====
-- The fields of a version edit's record (redisdb/db/versionedit.cc): one field is read back by the
-- case of DecodeFrom that its tag selects.
use cpp_swiss_army_knife.Common.{
  ℕ, ◌^◌, ◌<◌, ◌≡◌, refl, true, List, ◌++◌, some, length, arith, lt→ltb,
}
use cpp_swiss_army_knife.Redisdb.Coding.{encode_varint32, encode_varint64}
use cpp_swiss_army_knife.Redisdb.Coding.Varint.{
  get_varint32-encode_varint32, get_varint64-encode_varint64,
}
use cpp_swiss_army_knife.Redisdb.Coding.Slices.{slice_of, get_length_prefixed_slice-put}
use cpp_swiss_army_knife.Redisdb.VersionEdit.{
  VersionEdit, FileMetaData, k_num_levels, set_compact_pointer, delete_file, add_file, get_level,
  get_name, get_number, get_pointer, get_deleted, get_file, or_fail, decode_field, parsed,
}

pub data Field : Type 0 where
  name_field : List ℕ → Field
  log_field prev_field next_field last_field : ℕ → Field
  pointer_field : ℕ → List ℕ → Field
  deleted_field : ℕ → ℕ → Field
  file_field : ℕ → FileMetaData → Field

abbrev pub tag_of_field : Field → ℕ
tag_of_field (name_field s) = 1
tag_of_field (log_field n) = 2
tag_of_field (prev_field n) = 9
tag_of_field (next_field n) = 3
tag_of_field (last_field n) = 4
tag_of_field (pointer_field l k) = 5
tag_of_field (deleted_field l n) = 6
tag_of_field (file_field l f) = 7

-- What stands behind the tag, with the rest of the record behind it.
abbrev pub payload : Field → List ℕ → List ℕ
payload (name_field s) rest = slice_of s ++ rest
payload (log_field n) rest = encode_varint64 n ++ rest
payload (prev_field n) rest = encode_varint64 n ++ rest
payload (next_field n) rest = encode_varint64 n ++ rest
payload (last_field n) rest = encode_varint64 n ++ rest
payload (pointer_field l k) rest = encode_varint32 l ++ (slice_of k ++ rest)
payload (deleted_field l n) rest = encode_varint32 l ++ (encode_varint64 n ++ rest)
payload (file_field l f) rest =
    encode_varint32 l
    ++ (encode_varint64 f.number
        ++ (encode_varint64 f.filesize ++ (slice_of f.smallest ++ (slice_of f.largest ++ rest))))

-- Levels below kNumLevels, 64-bit numbers, strings whose sizes fit in uint32_t, and internal keys that
-- are not empty.
abbrev pub FieldFits : Field → Type 0
FieldFits (name_field s) = length s < 2 ^ 32
FieldFits (log_field n) = n < 2 ^ 64
FieldFits (prev_field n) = n < 2 ^ 64
FieldFits (next_field n) = n < 2 ^ 64
FieldFits (last_field n) = n < 2 ^ 64
FieldFits (pointer_field l k) = (l < k_num_levels) × (length k < 2 ^ 32) × (0 < length k)
FieldFits (deleted_field l n) = (l < k_num_levels) × (n < 2 ^ 64)
FieldFits (file_field l f) =
    (l < k_num_levels)
    × (f.number < 2 ^ 64)
    × (f.filesize < 2 ^ 64)
    × (length f.smallest < 2 ^ 32)
    × (length f.largest < 2 ^ 32)
    × (0 < length f.smallest)
    × (0 < length f.largest)

abbrev pub apply_field : VersionEdit → Field → VersionEdit
apply_field e (name_field s) = record e { comparator = s; hascomparator = true }
apply_field e (log_field n) = record e { lognumber = n; haslognumber = true }
apply_field e (prev_field n) = record e { prevlognumber = n; hasprevlognumber = true }
apply_field e (next_field n) = record e { nextfilenumber = n; hasnextfilenumber = true }
apply_field e (last_field n) = record e { lastsequence = n; haslastsequence = true }
apply_field e (pointer_field l k) = set_compact_pointer e l k
apply_field e (deleted_field l n) = delete_file e l n
apply_field e (file_field l f) = add_file e l f.number f.filesize f.smallest f.largest

get_level-encode :
    (l : ℕ) (rest : List ℕ)
    → l < k_num_levels
    → get_level (encode_varint32 l ++ rest) ≡ some (l, rest)
unfolding get_level
get_level-encode l rest h =
    rw (get_varint32-encode_varint32 l rest (omega arith), lt→ltb l 7 h) refl

get_number-encode :
    (set_to : ℕ → VersionEdit) (n : ℕ) (rest : List ℕ)
    → n < 2 ^ 64
    → get_number set_to (encode_varint64 n ++ rest) ≡ some (set_to n, rest)
unfolding get_number
get_number-encode set_to n rest h = rw (get_varint64-encode_varint64 n rest h) refl

get_name-slice :
    (e : VersionEdit) (s rest : List ℕ)
    → length s < 2 ^ 32
    → get_name e (slice_of s ++ rest)
      ≡ some (record e { comparator = s; hascomparator = true }, rest)
unfolding get_name
get_name-slice e s rest h = rw (get_length_prefixed_slice-put s rest h) refl

get_pointer-payload :
    (e : VersionEdit) (l : ℕ) (k rest : List ℕ)
    → l < k_num_levels
    → length k < 2 ^ 32
    → get_pointer e (payload (pointer_field l k) rest) ≡ some (set_compact_pointer e l k, rest)
unfolding get_pointer
get_pointer-payload e l k rest h hk =
    rw (get_level-encode l (slice_of k ++ rest) h, get_length_prefixed_slice-put k rest hk) refl

get_deleted-payload :
    (e : VersionEdit) (l n : ℕ) (rest : List ℕ)
    → l < k_num_levels
    → n < 2 ^ 64
    → get_deleted e (payload (deleted_field l n) rest) ≡ some (delete_file e l n, rest)
unfolding get_deleted
get_deleted-payload e l n rest h hn =
    rw (get_level-encode l (encode_varint64 n ++ rest) h, get_varint64-encode_varint64 n rest hn)
      refl

get_file-payload :
    (e : VersionEdit) (l : ℕ) (f : FileMetaData) (rest : List ℕ)
    → FieldFits (file_field l f)
    → get_file e (payload (file_field l f) rest)
      ≡ some (add_file e l f.number f.filesize f.smallest f.largest, rest)
unfolding get_file
get_file-payload e l f rest (hl, hn, hs, hsm, hla, _, _) =
    let r3 = slice_of f.largest ++ rest in
    let r2 = slice_of f.smallest ++ r3 in
    let r1 = encode_varint64 f.filesize ++ r2 in
    rw
      (
        get_level-encode l (encode_varint64 f.number ++ r1) hl,
        get_varint64-encode_varint64 f.number r1 hn,
        get_varint64-encode_varint64 f.filesize r2 hs,
        get_length_prefixed_slice-put f.smallest r3 hsm,
        get_length_prefixed_slice-put f.largest rest hla,
      )
      refl

pub decode_field-payload :
    (e : VersionEdit) (x : Field) (rest : List ℕ)
    → FieldFits x
    → decode_field e (tag_of_field x) (payload x rest) ≡ parsed (apply_field e x) rest
unfolding decode_field or_fail
decode_field-payload e (name_field s) rest h = rw (get_name-slice e s rest h) refl
decode_field-payload e (log_field n) rest h = rw (get_number-encode _ n rest h) refl
decode_field-payload e (prev_field n) rest h = rw (get_number-encode _ n rest h) refl
decode_field-payload e (next_field n) rest h = rw (get_number-encode _ n rest h) refl
decode_field-payload e (last_field n) rest h = rw (get_number-encode _ n rest h) refl
decode_field-payload e (pointer_field l k) rest h = rw (get_pointer-payload e l k rest h.0 h.1) refl
decode_field-payload e (deleted_field l n) rest h = rw (get_deleted-payload e l n rest h.0 h.1) refl
decode_field-payload e (file_field l f) rest h = rw (get_file-payload e l f rest h) refl
