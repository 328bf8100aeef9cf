-- ===== src/Redisdb/VersionEdit/Calls.antt =====
-- Calls of the setters of VersionEdit (redisdb/db/versionedit.h), and what they come to.
use cpp_swiss_army_knife.Common.{
  ℕ, ◌^◌, ◌<◌, ◌≡◌, Bool, true, false, ◌&&◌, ◌||◌, List, [], ◌∷◌, ◌++◌, Option, some, none, ◌==◌,
  length, All,
}
use cpp_swiss_army_knife.Redisdb.VersionEdit.{
  VersionEdit, FileMetaData, initial_seeks, insert_pair, set_comparator_name, set_log_number,
  set_prev_log_number, set_next_file, set_last_sequence, set_compact_pointer, add_file, delete_file,
}
use cpp_swiss_army_knife.Redisdb.VersionEdit.Fields.{
  Field, FieldFits, name_field, log_field, prev_field, next_field, last_field, pointer_field,
  deleted_field, file_field,
}

pub data Call : Type 0 where
  name_call : List ℕ → Call
  log_call prev_call next_call last_call : ℕ → Call
  pointer_call : ℕ → List ℕ → Call
  delete_call : ℕ → ℕ → Call
  file_call : ℕ → FileMetaData → Call

-- What VersionEdit() leaves.
abbrev pub new_edit : VersionEdit
new_edit = record {
  comparator = [];
  lognumber = 0;
  prevlognumber = 0;
  nextfilenumber = 0;
  lastsequence = 0;
  hascomparator = false;
  haslognumber = false;
  hasprevlognumber = false;
  hasnextfilenumber = false;
  haslastsequence = false;
  compactpointers = [];
  deletedfiles = [];
  newfiles = [];
}

abbrev pub run_call : VersionEdit → Call → VersionEdit
run_call e (name_call s) = set_comparator_name e s
run_call e (log_call n) = set_log_number e n
run_call e (prev_call n) = set_prev_log_number e n
run_call e (next_call n) = set_next_file e n
run_call e (last_call n) = set_last_sequence e n
run_call e (pointer_call l k) = set_compact_pointer e l k
run_call e (delete_call l n) = delete_file e l n
run_call e (file_call l f) = add_file e l f.number f.filesize f.smallest f.largest

abbrev pub run_calls : VersionEdit → List Call → VersionEdit
run_calls e [] = e
run_calls e (c ∷ cs) = run_calls (run_call e c) cs

-- The field of the encoding that a call gives rise to.
abbrev pub field_of : Call → Field
field_of (name_call s) = name_field s
field_of (log_call n) = log_field n
field_of (prev_call n) = prev_field n
field_of (next_call n) = next_field n
field_of (last_call n) = last_field n
field_of (pointer_call l k) = pointer_field l k
field_of (delete_call l n) = deleted_field l n
field_of (file_call l f) = file_field l f

-- The arguments that the calls of one setter have.
abbrev pub name_arg : Call → Option (List ℕ)
name_arg (name_call s) = some s
name_arg c = none

abbrev pub log_arg : Call → Option ℕ
log_arg (log_call n) = some n
log_arg c = none

abbrev pub prev_arg : Call → Option ℕ
prev_arg (prev_call n) = some n
prev_arg c = none

abbrev pub next_arg : Call → Option ℕ
next_arg (next_call n) = some n
next_arg c = none

abbrev pub last_arg : Call → Option ℕ
last_arg (last_call n) = some n
last_arg c = none

abbrev pub pointer_arg : Call → Option (ℕ × List ℕ)
pointer_arg (pointer_call l k) = some (l, k)
pointer_arg c = none

abbrev pub delete_arg : Call → Option (ℕ × ℕ)
delete_arg (delete_call l n) = some (l, n)
delete_arg c = none

-- A file as AddFile makes it.
abbrev pub fresh : FileMetaData → FileMetaData
fresh f = record f { allowedseeks = initial_seeks }

abbrev pub file_arg : Call → Option (ℕ × FileMetaData)
file_arg (file_call l f) = some (l, fresh f)
file_arg c = none

module _ {A : Type 0} where
  abbrev pub or_else : A → Option A → A
  or_else a none = a
  or_else a (some b) = b

  abbrev pub or_set : Bool → Option A → Bool
  or_set b none = b
  or_set b (some a) = true

  abbrev pub put_before : Option A → List A → List A
  put_before none as' = as'
  put_before (some a) as' = a ∷ as'

  -- The last argument of a setter's calls, where there is one.
  abbrev pub last_value : (Call → Option A) → A → List Call → A
  last_value arg a [] = a
  last_value arg a (c ∷ cs) = last_value arg (or_else a (arg c)) cs

  abbrev pub was_called : (Call → Option A) → Bool → List Call → Bool
  was_called arg b [] = b
  was_called arg b (c ∷ cs) = was_called arg (or_set b (arg c)) cs

  -- All arguments of a setter's calls, in their order.
  abbrev pub picked : (Call → Option A) → List Call → List A
  picked arg [] = []
  picked arg (c ∷ cs) = put_before (arg c) (picked arg cs)

abbrev pub same_pair : ℕ × ℕ → ℕ × ℕ → Bool
same_pair (a, b) (c, d) = (a == c) && (b == d)

abbrev pub contains : ℕ × ℕ → List (ℕ × ℕ) → Bool
contains x [] = false
contains x (p ∷ ps) = same_pair x p || contains x ps

abbrev pub inserted : List (ℕ × ℕ) → List (ℕ × ℕ) → List (ℕ × ℕ)
inserted [] qs = qs
inserted (p ∷ ps) qs = inserted ps (insert_pair p qs)

-- The edit after the calls, field by field.
abbrev pub after : VersionEdit → List Call → VersionEdit
after e cs = record {
  comparator = last_value name_arg e.comparator cs;
  lognumber = last_value log_arg e.lognumber cs;
  prevlognumber = last_value prev_arg e.prevlognumber cs;
  nextfilenumber = last_value next_arg e.nextfilenumber cs;
  lastsequence = last_value last_arg e.lastsequence cs;
  hascomparator = was_called name_arg e.hascomparator cs;
  haslognumber = was_called log_arg e.haslognumber cs;
  hasprevlognumber = was_called prev_arg e.hasprevlognumber cs;
  hasnextfilenumber = was_called next_arg e.hasnextfilenumber cs;
  haslastsequence = was_called last_arg e.haslastsequence cs;
  compactpointers = e.compactpointers ++ picked pointer_arg cs;
  deletedfiles = inserted (picked delete_arg cs) e.deletedfiles;
  newfiles = e.newfiles ++ picked file_arg cs;
}

-- What an edit has after the calls, with whether one level and number are among its deleted files.
abbrev pub Described : List Call → ℕ → ℕ → VersionEdit → Type 0
Described cs level number e =
    (e.comparator ≡ last_value name_arg [] cs)
    × (e.hascomparator ≡ was_called name_arg false cs)
    × (e.lognumber ≡ last_value log_arg 0 cs)
    × (e.haslognumber ≡ was_called log_arg false cs)
    × (e.prevlognumber ≡ last_value prev_arg 0 cs)
    × (e.hasprevlognumber ≡ was_called prev_arg false cs)
    × (e.nextfilenumber ≡ last_value next_arg 0 cs)
    × (e.hasnextfilenumber ≡ was_called next_arg false cs)
    × (e.lastsequence ≡ last_value last_arg 0 cs)
    × (e.haslastsequence ≡ was_called last_arg false cs)
    × (e.compactpointers ≡ picked pointer_arg cs)
    × (e.newfiles ≡ picked file_arg cs)
    × (contains (level, number) e.deletedfiles ≡ contains (level, number) (picked delete_arg cs))

-- An edit whose parts fit in the words of the encoding.
abbrev pub PointerFits : ℕ × List ℕ → Type 0
PointerFits (l, k) = FieldFits (pointer_field l k)

abbrev pub DeletedFits : ℕ × ℕ → Type 0
DeletedFits (l, n) = FieldFits (deleted_field l n)

abbrev pub FileFits : ℕ × FileMetaData → Type 0
FileFits (l, f) = FieldFits (file_field l f)

abbrev pub EditFits : VersionEdit → Type 0
EditFits e =
    (length e.comparator < 2 ^ 32)
    × (e.lognumber < 2 ^ 64)
    × (e.prevlognumber < 2 ^ 64)
    × (e.nextfilenumber < 2 ^ 64)
    × (e.lastsequence < 2 ^ 64)
    × All PointerFits e.compactpointers
    × All DeletedFits e.deletedfiles
    × All FileFits e.newfiles
