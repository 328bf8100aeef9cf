-- ===== src/Redisdb/VersionEdit.antt =====
-- redisdb/db/versionedit.h and versionedit.cc: the change from one version of the store to the next,
-- and the bytes of its record in the manifest.
--
-- An InternalKey is its `rep`, and `none` in the encoder is its failed assert. A level is a
-- non-negative int. `deletedfiles`, a std::set of pairs, is the list of its elements in their
-- order.
pub mod Fields
pub mod Layout
pub mod Apply
pub mod RoundTrip
pub mod Ends
pub mod Calls
pub mod Setters
mod Tests
use cpp_swiss_army_knife.Common.{
  ℕ, zero, suc, ◌^◌, Bool, true, false, ◌&&◌, ◌||◌, List, [], ◌∷◌, ◌++◌, Option, none, some, ◌>>=◌,
  ltb, ◌==◌, if◌then◌else◌, length,
}
use cpp_swiss_army_knife.Redisdb.Coding.{
  put_varint32, put_varint64, get_varint32, get_varint64, put_length_prefixed_slice,
  get_length_prefixed_slice,
}

abbrev pub k_num_levels : ℕ
k_num_levels = 7

pub record FileMetaData : Type 0 where
  pub allowedseeks : ℕ
  pub number : ℕ
  pub filesize : ℕ
  pub smallest : List ℕ
  pub largest : List ℕ

-- What the constructor of FileMetaData leaves in allowedseeks.
abbrev pub initial_seeks : ℕ
initial_seeks = 2 ^ 30

pub record VersionEdit : Type 0 where
  pub comparator : List ℕ
  pub lognumber : ℕ
  pub prevlognumber : ℕ
  pub nextfilenumber : ℕ
  pub lastsequence : ℕ
  pub hascomparator : Bool
  pub haslognumber : Bool
  pub hasprevlognumber : Bool
  pub hasnextfilenumber : Bool
  pub haslastsequence : Bool
  pub compactpointers : List (ℕ × List ℕ)
  pub deletedfiles : List (ℕ × ℕ)
  pub newfiles : List (ℕ × FileMetaData)

-- VersionEdit::clear, which keeps the compact pointers.
unfoldable pub clear : VersionEdit → VersionEdit
clear e = record {
  comparator = [];
  lognumber = 0;
  prevlognumber = 0;
  nextfilenumber = 0;
  lastsequence = 0;
  hascomparator = false;
  haslognumber = false;
  hasprevlognumber = false;
  hasnextfilenumber = false;
  haslastsequence = false;
  compactpointers = e.compactpointers;
  deletedfiles = [];
  newfiles = [];
}

-- std::pair's operator< and std::set's insert.
unfoldable pub pair_less : ℕ × ℕ → ℕ × ℕ → Bool
pair_less (a, b) (c, d) = ltb a c || (a == c && ltb b d)

unfoldable pub insert_pair : ℕ × ℕ → List (ℕ × ℕ) → List (ℕ × ℕ)
insert_pair p [] = p ∷ []
insert_pair p (q ∷ qs) =
    let rest = insert_pair p qs in
    if pair_less p q then p ∷ q ∷ qs else if pair_less q p then q ∷ rest else q ∷ qs

unfoldable pub set_comparator_name : VersionEdit → List ℕ → VersionEdit
set_comparator_name e name = record e { comparator = name; hascomparator = true }

unfoldable pub set_log_number : VersionEdit → ℕ → VersionEdit
set_log_number e num = record e { lognumber = num; haslognumber = true }

unfoldable pub set_prev_log_number : VersionEdit → ℕ → VersionEdit
set_prev_log_number e num = record e { prevlognumber = num; hasprevlognumber = true }

unfoldable pub set_next_file : VersionEdit → ℕ → VersionEdit
set_next_file e num = record e { nextfilenumber = num; hasnextfilenumber = true }

unfoldable pub set_last_sequence : VersionEdit → ℕ → VersionEdit
set_last_sequence e num = record e { lastsequence = num; haslastsequence = true }

unfoldable pub set_compact_pointer : VersionEdit → ℕ → List ℕ → VersionEdit
set_compact_pointer e level key = record e {
  compactpointers = e.compactpointers ++ (level, key) ∷ [];
}

unfoldable pub add_file : VersionEdit → ℕ → ℕ → ℕ → List ℕ → List ℕ → VersionEdit
add_file e level file filesize smallest largest = record e {
  newfiles =
      e.newfiles
      ++ (
        level,
        record {
          allowedseeks = initial_seeks;
          number = file;
          filesize = filesize;
          smallest = smallest;
          largest = largest;
        },
      )
        ∷ [];
}

unfoldable pub delete_file : VersionEdit → ℕ → ℕ → VersionEdit
delete_file e level file = record e { deletedfiles = insert_pair (level, file) e.deletedfiles }

-- InternalKey::Encode, with its assert.
unfoldable pub encode_key : List ℕ → Option (List ℕ)
encode_key [] = none
encode_key (b ∷ rep) = some (b ∷ rep)

-- The branches and loops of EncodeTo, which append to dst.
unfoldable pub put_name : Bool → List ℕ → List ℕ → List ℕ
put_name false name dst = dst
put_name true name dst = put_length_prefixed_slice (put_varint32 dst 1) name

unfoldable pub put_number : ℕ → Bool → ℕ → List ℕ → List ℕ
put_number tag false number dst = dst
put_number tag true number dst = put_varint64 (put_varint32 dst tag) number

unfoldable pub put_pointers : List (ℕ × List ℕ) → List ℕ → Option (List ℕ)
put_pointers [] dst = some dst
put_pointers ((level, key) ∷ ps) dst = do
  encoded ← encode_key key
  put_pointers ps (put_length_prefixed_slice (put_varint32 (put_varint32 dst 5) level) encoded)

unfoldable pub put_deleted : List (ℕ × ℕ) → List ℕ → List ℕ
put_deleted [] dst = dst
put_deleted ((level, number) ∷ ds) dst =
    put_deleted ds (put_varint64 (put_varint32 (put_varint32 dst 6) level) number)

unfoldable pub put_files : List (ℕ × FileMetaData) → List ℕ → Option (List ℕ)
put_files [] dst = some dst
put_files ((level, f) ∷ fs) dst = do
  let numbers =
      put_varint64 (put_varint64 (put_varint32 (put_varint32 dst 7) level) f.number) f.filesize
  smallest ← encode_key f.smallest
  largest ← encode_key f.largest
  put_files fs (put_length_prefixed_slice (put_length_prefixed_slice numbers smallest) largest)

unfoldable pub encode_to : VersionEdit → List ℕ → Option (List ℕ)
encode_to e dst =
    let named = put_name e.hascomparator e.comparator dst in
    let log = put_number 2 e.haslognumber e.lognumber named in
    let prev = put_number 9 e.hasprevlognumber e.prevlognumber log in
    let next = put_number 3 e.hasnextfilenumber e.nextfilenumber prev in
    let last = put_number 4 e.haslastsequence e.lastsequence next in
    elim (put_pointers e.compactpointers last) [
      | none ↦ none
      | some pointed ↦ put_files e.newfiles (put_deleted e.deletedfiles pointed)
    ]

-- The values of msg.
pub data Message : Type 0 where
  comparator_name log_number previous_log_number next_file_number : Message
  last_sequence_number compaction_pointer deleted_file new_file_entry unknown_tag : Message
  invalid_tag : Message

unfoldable pub get_level : List ℕ → Option (ℕ × List ℕ)
get_level input = do
  (v, rest) ← get_varint32 input
  if ltb v k_num_levels then some (v, rest) else none

-- One case of the switch in DecodeFrom: the edit and the input after it, or the message.
pub data Step : Type 0 where
  failed : Message → Step
  parsed : VersionEdit → List ℕ → Step

unfoldable pub or_fail : Message → Option (VersionEdit × List ℕ) → Step
or_fail msg none = failed msg
or_fail msg (some (e, rest)) = parsed e rest

unfoldable pub get_name : VersionEdit → List ℕ → Option (VersionEdit × List ℕ)
get_name e input = do
  (str, rest) ← get_length_prefixed_slice input
  some (record e { comparator = str; hascomparator = true }, rest)

unfoldable pub get_pointer : VersionEdit → List ℕ → Option (VersionEdit × List ℕ)
get_pointer e input = do
  (level, rest) ← get_level input
  (key, rest') ← get_length_prefixed_slice rest
  some (set_compact_pointer e level key, rest')

unfoldable pub get_deleted : VersionEdit → List ℕ → Option (VersionEdit × List ℕ)
get_deleted e input = do
  (level, rest) ← get_level input
  (number, rest') ← get_varint64 rest
  some (delete_file e level number, rest')

unfoldable pub get_file : VersionEdit → List ℕ → Option (VersionEdit × List ℕ)
get_file e input = do
  (level, rest) ← get_level input
  (number, rest1) ← get_varint64 rest
  (filesize, rest2) ← get_varint64 rest1
  (smallest, rest3) ← get_length_prefixed_slice rest2
  (largest, rest4) ← get_length_prefixed_slice rest3
  some (add_file e level number filesize smallest largest, rest4)

unfoldable pub get_number : (ℕ → VersionEdit) → List ℕ → Option (VersionEdit × List ℕ)
get_number set_to input = do (number, rest) ← get_varint64 input; some (set_to number, rest)

unfoldable pub decode_field : VersionEdit → ℕ → List ℕ → Step
decode_field e tag input =
    if tag == 1
    then or_fail comparator_name (get_name e input)
    else if tag == 2
    then or_fail log_number
        (get_number (λ n. record e { lognumber = n; haslognumber = true }) input)
    else if tag == 9
    then or_fail previous_log_number
        (get_number (λ n. record e { prevlognumber = n; hasprevlognumber = true }) input)
    else if tag == 3
    then or_fail next_file_number
        (get_number (λ n. record e { nextfilenumber = n; hasnextfilenumber = true }) input)
    else if tag == 4
    then or_fail last_sequence_number
        (get_number (λ n. record e { lastsequence = n; haslastsequence = true }) input)
    else if tag == 5
    then or_fail compaction_pointer (get_pointer e input)
    else if tag == 6
    then or_fail deleted_file (get_deleted e input)
    else if tag == 7
    then or_fail new_file_entry (get_file e input)
    else failed unknown_tag

-- The test behind the loop.
unfoldable pub left_over : List ℕ → Option Message
left_over [] = none
left_over (b ∷ input) = some invalid_tag

unfoldable pub decode_loop : ℕ → VersionEdit → List ℕ → Option (VersionEdit × Option Message)
decode_loop zero e input = elim (get_varint32 input) [
  | none ↦ some (e, left_over input)
  | some found ↦ none
]
decode_loop (suc fuel) e input = elim (get_varint32 input) [
  | none ↦ some (e, left_over input)
  | some (tag, rest) ↦ elim (decode_field e tag rest) [
    | failed msg ↦ some (e, some msg)
    | parsed e' rest' ↦ decode_loop fuel e' rest'
  ]
]

-- Status::OK is `none`, and a corruption the message in it.
unfoldable pub decode_from : VersionEdit → List ℕ → Option (VersionEdit × Option Message)
decode_from e src = decode_loop (length src) (clear e) src
