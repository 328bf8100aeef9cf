-- ===== src/Redisdb/Filename/Parsed.antt =====
-- ParseFileName on the names that the store makes (redisdb/db/filename.cc).
use cpp_swiss_army_knife.Common.{
  ℕ, suc, ◌^◌, ◌<◌, ◌≡◌, refl, sym, ap, ◌∙◌, subst, true, false, List, [], ◌∷◌, ◌++◌, some, ◌==◌,
  length, drop, append-nil, arith,
}
use cpp_swiss_army_knife.Redisdb.Logging.{is_digit, consume_decimal_number, padded_number}
use cpp_swiss_army_knife.Redisdb.Logging.Decimal.{NoDigit, consume_decimal_number-padded}
use cpp_swiss_army_knife.Redisdb.Logging.Consume.{IsNumber, consume_decimal_number_iff}
use cpp_swiss_army_knife.Redisdb.Filename.{
  FileType, log_file, db_lock_file, table_file, descriptor_file, current_file, temp_file,
  info_log_file, log_suffix, ldb_suffix, sst_suffix, dbtmp_suffix, manifest, current, lock, log,
  log_old, make_file_name, with_number, log_file_name, table_file_name, sstable_file_name,
  descriptor_file_name, current_file_name, lock_file_name, temp_file_name, info_log_file_name,
  old_info_log_file_name, starts_with, file_type_of, parse_descriptor, parse_numbered,
  parse_file_name,
}

-- The names of the files of a store, with the number and the type of each.
pub data Owned (dbname : List ℕ) : List ℕ → ℕ → FileType → Type 0 where
  a_log :
      {name : List ℕ} {n : ℕ} → log_file_name dbname n ≡ some name → Owned dbname name n log_file
  a_table :
      {name : List ℕ} {n : ℕ}
      → table_file_name dbname n ≡ some name
      → Owned dbname name n table_file
  an_sstable :
      {name : List ℕ} {n : ℕ}
      → sstable_file_name dbname n ≡ some name
      → Owned dbname name n table_file
  a_descriptor :
      {name : List ℕ} {n : ℕ}
      → descriptor_file_name dbname n ≡ some name
      → Owned dbname name n descriptor_file
  a_temp :
      {name : List ℕ} {n : ℕ} → temp_file_name dbname n ≡ some name → Owned dbname name n temp_file
  the_current : Owned dbname (current_file_name dbname) 0 current_file
  the_lock : Owned dbname (lock_file_name dbname) 0 db_lock_file
  the_info_log : Owned dbname (info_log_file_name dbname) 0 info_log_file
  the_old_info_log : Owned dbname (old_info_log_file_name dbname) 0 info_log_file

-- What filename holds behind the "dbname/".
abbrev pub within : List ℕ → List ℕ → List ℕ
within dbname name = drop (suc (length dbname)) name

pub within_lem : (dbname rest : List ℕ) → within dbname (dbname ++ b'/' ∷ rest) ≡ rest
within_lem [] rest = refl
within_lem (c ∷ dbname) rest = within_lem dbname rest

no_capital :
    (d : ℕ)
    → is_digit d ≡ true
    → ((d == b'C') ≡ false) × ((d == b'L') ≡ false) × ((d == b'M') ≡ false)
no_capital d h = (ground arith, ground arith, ground arith)

parse_digit :
    (d : ℕ) (rest : List ℕ)
    → is_digit d ≡ true
    → parse_file_name (d ∷ rest) ≡ parse_numbered (d ∷ rest)
unfolding parse_file_name starts_with
parse_digit d rest h = let letters = no_capital d h in rw (letters.0, letters.1, letters.2) refl

parse_IsNumber :
    (text : List ℕ) (n : ℕ) (suffix : List ℕ)
    → IsNumber text n suffix
    → parse_file_name text ≡ parse_numbered text
parse_IsNumber text n suffix ([], e, l, h, end, v, b) = ground arith
parse_IsNumber text n suffix (d ∷ ds, e, l, h, end, v, b) =
    subst (λ (t : List ℕ). parse_file_name t ≡ parse_numbered t) (sym e)
      (parse_digit d (ds ++ suffix) h.0)

consumed_file :
    (text suffix : List ℕ) (n : ℕ)
    → consume_decimal_number text ≡ some (n, suffix)
    → parse_file_name text ≡ file_type_of suffix n
unfolding parse_numbered
consumed_file text suffix n e =
    parse_IsNumber text n suffix ((consume_decimal_number_iff text n suffix).0 e)
    ∙ rw (e, parse_numbered) refl

numbered_file :
    (n : ℕ) (suffix : List ℕ)
    → n < 2 ^ 64
    → NoDigit suffix
    → parse_file_name (padded_number n ++ suffix) ≡ file_type_of suffix n
numbered_file n suffix b h =
    consumed_file (padded_number n ++ suffix) suffix n (consume_decimal_number-padded n suffix b h)

parsed_descriptor :
    (text : List ℕ) (n : ℕ)
    → consume_decimal_number text ≡ some (n, [])
    → parse_descriptor (manifest ++ text) ≡ some (n, descriptor_file)
unfolding parse_descriptor
parsed_descriptor text n e = rw (e, parse_descriptor) refl

descriptor_file_lem :
    (n : ℕ) → n < 2 ^ 64 → parse_file_name (manifest ++ padded_number n) ≡ some (n, descriptor_file)
unfolding parse_file_name starts_with
descriptor_file_lem n b = parsed_descriptor (padded_number n) n e
  where
    e : consume_decimal_number (padded_number n) ≡ some (n, [])
    e =
        ap consume_decimal_number (sym (append-nil (padded_number n)))
        ∙ consume_decimal_number-padded n [] b tt

parse_current : parse_file_name current ≡ some (0, current_file)
unfolding parse_file_name
parse_current = refl

parse_lock : parse_file_name lock ≡ some (0, db_lock_file)
unfolding parse_file_name
parse_lock = refl

parse_log : parse_file_name log ≡ some (0, info_log_file)
unfolding parse_file_name
parse_log = refl

parse_old : parse_file_name log_old ≡ some (0, info_log_file)
unfolding parse_file_name
parse_old = refl

checked : (n : ℕ) (made name : List ℕ) → with_number n made ≡ some name → made ≡ name
checked n made name h = ground arith

-- A name that make_file_name makes.
suffixed :
    (dbname suffix name : List ℕ) (n : ℕ)
    → n < 2 ^ 64
    → with_number n (make_file_name dbname n suffix) ≡ some name
    → parse_file_name (within dbname name) ≡ file_type_of (b'.' ∷ suffix) n
unfolding make_file_name
suffixed dbname suffix name n b h =
    ap (λ (t : List ℕ). parse_file_name (within dbname t))
      (sym (checked n (make_file_name dbname n suffix) name h))
    ∙ ap parse_file_name (within_lem dbname (padded_number n ++ b'.' ∷ suffix))
    ∙ numbered_file n (b'.' ∷ suffix) b refl

-- ParseFileName on the file names that the store makes: for every name that LogFileName,
-- TableFileName, SSTableFileName, DescriptorFileName, TempFileName, CurrentFileName, LockFileName,
-- InfoLogFileName and OldInfoLogFileName give, with a number below 2^64 where they take one, what
-- stands behind the directory's name and its slash is parsed to the same number, 0 where there is
-- none, and to the file's type.
pub parse_file_name-Owned :
    (dbname name : List ℕ) (n : ℕ) (type : FileType)
    → n < 2 ^ 64
    → Owned dbname name n type
    → parse_file_name (within dbname name) ≡ some (n, type)
unfolding log_file_name table_file_name sstable_file_name descriptor_file_name current_file_name
    lock_file_name temp_file_name info_log_file_name old_info_log_file_name file_type_of
parse_file_name-Owned dbname name n type b (a_log h) = suffixed dbname log_suffix name n b h
parse_file_name-Owned dbname name n type b (a_table h) = suffixed dbname ldb_suffix name n b h
parse_file_name-Owned dbname name n type b (an_sstable h) = suffixed dbname sst_suffix name n b h
parse_file_name-Owned dbname name n type b (a_temp h) = suffixed dbname dbtmp_suffix name n b h
parse_file_name-Owned dbname name n type b (a_descriptor h) =
    ap (λ (t : List ℕ). parse_file_name (within dbname t))
      (sym (checked n (dbname ++ (b'/' ∷ (manifest ++ padded_number n))) name h))
    ∙ ap parse_file_name (within_lem dbname (manifest ++ padded_number n))
    ∙ descriptor_file_lem n b
parse_file_name-Owned dbname name n type b the_current =
    ap parse_file_name (within_lem dbname current) ∙ parse_current
parse_file_name-Owned dbname name n type b the_lock =
    ap parse_file_name (within_lem dbname lock) ∙ parse_lock
parse_file_name-Owned dbname name n type b the_info_log =
    ap parse_file_name (within_lem dbname log) ∙ parse_log
parse_file_name-Owned dbname name n type b the_old_info_log =
    ap parse_file_name (within_lem dbname log_old) ∙ parse_old
