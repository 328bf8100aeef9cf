-- ===== src/Redisdb/Filename.antt =====
-- The names of the store's files (redisdb/db/filename.h and filename.cc, StartsWith of util.cc).
--
-- A failed assert is `none`.
pub mod Parsed
mod Tests
use cpp_swiss_army_knife.Common.{
  ℕ, ◌-◌, Bool, true, false, ◌&&◌, ◌||◌, List, [], ◌∷◌, ◌++◌, Option, none, some, ltb, ◌==◌,
  bytes_eq, if◌then◌else◌, length, drop,
}
use cpp_swiss_army_knife.Redisdb.Logging.{consume_decimal_number, padded_number}

pub data FileType : Type 0 where
  log_file db_lock_file table_file descriptor_file current_file temp_file info_log_file : FileType

abbrev pub log_suffix : List ℕ
log_suffix = b'l' ∷ b'o' ∷ b'g' ∷ []

abbrev pub ldb_suffix : List ℕ
ldb_suffix = b'l' ∷ b'd' ∷ b'b' ∷ []

abbrev pub sst_suffix : List ℕ
sst_suffix = b's' ∷ b's' ∷ b't' ∷ []

abbrev pub dbtmp_suffix : List ℕ
dbtmp_suffix = b'd' ∷ b'b' ∷ b't' ∷ b'm' ∷ b'p' ∷ []

-- "MANIFEST-"
abbrev pub manifest : List ℕ
manifest = b'M' ∷ b'A' ∷ b'N' ∷ b'I' ∷ b'F' ∷ b'E' ∷ b'S' ∷ b'T' ∷ b'-' ∷ []

-- "CURRENT"
abbrev pub current : List ℕ
current = b'C' ∷ b'U' ∷ b'R' ∷ b'R' ∷ b'E' ∷ b'N' ∷ b'T' ∷ []

-- "LOCK"
abbrev pub lock : List ℕ
lock = b'L' ∷ b'O' ∷ b'C' ∷ b'K' ∷ []

-- "LOG"
abbrev pub log : List ℕ
log = b'L' ∷ b'O' ∷ b'G' ∷ []

-- "LOG.old"
abbrev pub log_old : List ℕ
log_old = b'L' ∷ b'O' ∷ b'G' ∷ b'.' ∷ b'o' ∷ b'l' ∷ b'd' ∷ []

-- "/%06llu.%s"
unfoldable pub make_file_name : List ℕ → ℕ → List ℕ → List ℕ
make_file_name dbname number suffix = dbname ++ (b'/' ∷ (padded_number number ++ (b'.' ∷ suffix)))

-- assert(number > 0), and the name.
abbrev pub with_number : ℕ → List ℕ → Option (List ℕ)
with_number number name = if ltb 0 number then some name else none

unfoldable pub log_file_name : List ℕ → ℕ → Option (List ℕ)
log_file_name dbname number = with_number number (make_file_name dbname number log_suffix)

unfoldable pub table_file_name : List ℕ → ℕ → Option (List ℕ)
table_file_name dbname number = with_number number (make_file_name dbname number ldb_suffix)

unfoldable pub sstable_file_name : List ℕ → ℕ → Option (List ℕ)
sstable_file_name dbname number = with_number number (make_file_name dbname number sst_suffix)

unfoldable pub descriptor_file_name : List ℕ → ℕ → Option (List ℕ)
descriptor_file_name dbname number =
    with_number number (dbname ++ (b'/' ∷ (manifest ++ padded_number number)))

unfoldable pub current_file_name : List ℕ → List ℕ
current_file_name dbname = dbname ++ b'/' ∷ current

unfoldable pub lock_file_name : List ℕ → List ℕ
lock_file_name dbname = dbname ++ b'/' ∷ lock

unfoldable pub temp_file_name : List ℕ → ℕ → Option (List ℕ)
temp_file_name dbname number = with_number number (make_file_name dbname number dbtmp_suffix)

unfoldable pub info_log_file_name : List ℕ → List ℕ
info_log_file_name dbname = dbname ++ b'/' ∷ log

unfoldable pub old_info_log_file_name : List ℕ → List ℕ
old_info_log_file_name dbname = dbname ++ b'/' ∷ log_old

-- StartsWith, with its two tests as one recursion.
unfoldable pub starts_with : List ℕ → List ℕ → Bool
starts_with x [] = true
starts_with [] (b ∷ y) = false
starts_with (a ∷ x) (b ∷ y) = (a == b) && starts_with x y

-- The test of the suffix, with the number.
unfoldable pub file_type_of : List ℕ → ℕ → Option (ℕ × FileType)
file_type_of suffix num =
    if bytes_eq suffix (b'.' ∷ log_suffix)
    then some (num, log_file)
    else if bytes_eq suffix (b'.' ∷ sst_suffix) || bytes_eq suffix (b'.' ∷ ldb_suffix)
    then some (num, table_file)
    else if bytes_eq suffix (b'.' ∷ dbtmp_suffix)
    then some (num, temp_file)
    else none

unfoldable pub parse_descriptor : List ℕ → Option (ℕ × FileType)
parse_descriptor rest = elim (consume_decimal_number (drop (length manifest) rest)) [
  | none ↦ none
  | some (num, []) ↦ some (num, descriptor_file)
  | some (num, ch ∷ more) ↦ none
]

unfoldable pub parse_numbered : List ℕ → Option (ℕ × FileType)
parse_numbered rest = elim (consume_decimal_number rest) [
  | none ↦ none
  | some (num, suffix) ↦ file_type_of suffix num
]

-- ParseFileName; `none` where it returns false.
unfoldable pub parse_file_name : List ℕ → Option (ℕ × FileType)
parse_file_name rest =
    if bytes_eq rest current
    then some (0, current_file)
    else if bytes_eq rest lock
    then some (0, db_lock_file)
    else if bytes_eq rest log || bytes_eq rest log_old
    then some (0, info_log_file)
    else if starts_with rest manifest
    then parse_descriptor rest
    else parse_numbered rest
