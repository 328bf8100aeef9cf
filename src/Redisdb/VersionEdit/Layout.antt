-- ===== src/Redisdb/VersionEdit/Layout.antt =====
-- What VersionEdit::EncodeTo (redisdb/db/versionedit.cc) writes: the fields of the edit, one behind
-- the other, and that DecodeFrom's loop takes them one by one.
use cpp_swiss_army_knife.Common.{
  ℕ, zero, suc, ◌^◌, ◌≤◌, ◌<◌, ◌≡◌, refl, sym, ap, ◌∙◌, Bool, true, false, List, [], ◌∷◌, ◌++◌,
  some, none, length, append_assoc, append-nil, arith, length-append, All, Option-cases, inl, inr,
}
use cpp_swiss_army_knife.Redisdb.Coding.{
  encode_varint32, encode_varint64, put_varint32, put_varint64, get_varint32,
  put_length_prefixed_slice,
}
use cpp_swiss_army_knife.Redisdb.Coding.Varint.{get_varint32-encode_varint32}
use cpp_swiss_army_knife.Redisdb.Coding.Slices.{slice_of, put_length_prefixed_slice-slice_of}
use cpp_swiss_army_knife.Redisdb.Coding.Progress.{get_varint32_shorter}
use cpp_swiss_army_knife.Redisdb.VersionEdit.{
  VersionEdit, FileMetaData, put_name, put_number, put_pointers, put_deleted, put_files, encode_key,
  encode_to, decode_loop, left_over,
}
use cpp_swiss_army_knife.Redisdb.VersionEdit.Fields.{
  Field, name_field, log_field, prev_field, next_field, last_field, pointer_field, deleted_field,
  file_field, tag_of_field, payload, FieldFits, apply_field, decode_field-payload,
}

abbrev pub field_bytes : Field → List ℕ → List ℕ
field_bytes x rest = encode_varint32 (tag_of_field x) ++ payload x rest

abbrev pub record_of : List Field → List ℕ
record_of [] = []
record_of (x ∷ xs) = field_bytes x (record_of xs)

abbrev pub apply_all : VersionEdit → List Field → VersionEdit
apply_all e [] = e
apply_all e (x ∷ xs) = apply_all (apply_field e x) xs

abbrev pub flag_field : Bool → Field → List Field → List Field
flag_field false x xs = xs
flag_field true x xs = x ∷ xs

abbrev pub pointer_fields : List (ℕ × List ℕ) → List Field → List Field
pointer_fields [] xs = xs
pointer_fields ((l, k) ∷ ps) xs = pointer_field l k ∷ pointer_fields ps xs

abbrev pub deleted_fields : List (ℕ × ℕ) → List Field → List Field
deleted_fields [] xs = xs
deleted_fields ((l, n) ∷ ds) xs = deleted_field l n ∷ deleted_fields ds xs

abbrev pub file_fields : List (ℕ × FileMetaData) → List Field
file_fields [] = []
file_fields ((l, f) ∷ fs) = file_field l f ∷ file_fields fs

-- The fields that an edit has, in the order of EncodeTo.
abbrev pub fields_of : VersionEdit → List Field
fields_of e = flag_field e.hascomparator (name_field e.comparator) (
    flag_field e.haslognumber (log_field e.lognumber) (
      flag_field e.hasprevlognumber (prev_field e.prevlognumber) (
        flag_field e.hasnextfilenumber (next_field e.nextfilenumber) (
          flag_field e.haslastsequence (last_field e.lastsequence) (
            pointer_fields e.compactpointers
              (deleted_fields e.deletedfiles (file_fields e.newfiles)))))))

tag_small : (x : Field) → tag_of_field x < 2 ^ 32
tag_small (name_field s) = omega arith
tag_small (log_field n) = omega arith
tag_small (prev_field n) = omega arith
tag_small (next_field n) = omega arith
tag_small (last_field n) = omega arith
tag_small (pointer_field l k) = omega arith
tag_small (deleted_field l n) = omega arith
tag_small (file_field l f) = omega arith

longer : (a b : List ℕ) (n : ℕ) → n ≤ length b → n ≤ length (a ++ b)
longer a b n h = omega (arith, length-append a b)

payload_longer : (x : Field) (rest : List ℕ) → length rest ≤ length (payload x rest)
payload_longer (name_field s) rest = longer (slice_of s) rest _ (omega arith)
payload_longer (log_field n) rest = longer (encode_varint64 n) rest _ (omega arith)
payload_longer (prev_field n) rest = longer (encode_varint64 n) rest _ (omega arith)
payload_longer (next_field n) rest = longer (encode_varint64 n) rest _ (omega arith)
payload_longer (last_field n) rest = longer (encode_varint64 n) rest _ (omega arith)
payload_longer (pointer_field l k) rest =
    longer (encode_varint32 l) _ _ (longer (slice_of k) rest _ (omega arith))
payload_longer (deleted_field l n) rest =
    longer (encode_varint32 l) _ _ (longer (encode_varint64 n) rest _ (omega arith))
payload_longer (file_field l f) rest = longer (encode_varint32 l) _ _ (
    longer (encode_varint64 f.number) _ _ (
      longer (encode_varint64 f.filesize) _ _
        (longer (slice_of f.smallest) _ _ (longer (slice_of f.largest) rest _ (omega arith)))))

field_tag :
    (x : Field) (rest : List ℕ)
    → get_varint32 (field_bytes x rest) ≡ some (tag_of_field x, payload x rest)
field_tag x rest = get_varint32-encode_varint32 (tag_of_field x) (payload x rest) (tag_small x)

field_longer : (x : Field) (rest : List ℕ) → length rest < length (field_bytes x rest)
field_longer x rest =
    let a = payload_longer x rest in
    let b = get_varint32_shorter _ _ _ (field_tag x rest) in omega arith

no_varint : get_varint32 [] ≡ none
no_varint = elim (Option-cases (get_varint32 [])) [
  | inl e ↦ e
  | inr ((v, rest), e) ↦ absurd (omega (arith, get_varint32_shorter [] v rest e))
]

pub decode_loop-record_of :
    (xs : List Field) (fuel : ℕ) (e : VersionEdit)
    → All FieldFits xs
    → length (record_of xs) ≤ fuel
    → decode_loop fuel e (record_of xs) ≡ some (apply_all e xs, none)
unfolding decode_loop left_over
decode_loop-record_of [] zero e fits h = rw (no_varint, decode_loop) refl
decode_loop-record_of [] (suc fuel) e fits h = rw (no_varint, decode_loop) refl
decode_loop-record_of (x ∷ xs) zero e fits h = absurd (omega (arith, field_longer x (record_of xs)))
decode_loop-record_of (x ∷ xs) (suc fuel) e fits h =
    let shorter = field_longer x (record_of xs) in
    rw (field_tag x (record_of xs), decode_loop)
      (rw (decode_field-payload e x (record_of xs) fits.0, decode_loop)
        (decode_loop-record_of xs fuel (apply_field e x) fits.1 (omega arith)))

-- Each branch and loop of EncodeTo, with the fields that follow behind it.
put_name-fields :
    (b : Bool) (s dst : List ℕ) (xs : List Field)
    → put_name b s dst ++ record_of xs ≡ dst ++ record_of (flag_field b (name_field s) xs)
unfolding put_name put_varint32
put_name-fields false s dst xs = refl
put_name-fields true s dst xs =
    rw (put_length_prefixed_slice-slice_of (dst ++ encode_varint32 1) s) (simp append_assoc refl)

module _ (tag number : ℕ) (x : Field) where
  put_number-fields :
      (b : Bool) (dst : List ℕ) (xs : List Field)
      → field_bytes x (record_of xs)
        ≡ encode_varint32 tag ++ (encode_varint64 number ++ record_of xs)
      → put_number tag b number dst ++ record_of xs ≡ dst ++ record_of (flag_field b x xs)
  unfolding put_number put_varint32 put_varint64
  put_number-fields false dst xs h = refl
  put_number-fields true dst xs h = rw (h) (simp append_assoc refl)

encode_key_lem : (k : List ℕ) → 0 < length k → encode_key k ≡ some k
unfolding encode_key
encode_key_lem [] h = absurd (omega arith)
encode_key_lem (b ∷ k) h = refl

-- What the loops append where no assert fails.
pointer_bytes : List (ℕ × List ℕ) → List ℕ → List ℕ
pointer_bytes [] dst = dst
pointer_bytes ((l, k) ∷ ps) dst =
    pointer_bytes ps (put_length_prefixed_slice (put_varint32 (put_varint32 dst 5) l) k)

file_bytes : List (ℕ × FileMetaData) → List ℕ → List ℕ
file_bytes [] dst = dst
file_bytes ((l, f) ∷ fs) dst =
    let numbers =
      put_varint64 (put_varint64 (put_varint32 (put_varint32 dst 7) l) f.number) f.filesize in
    file_bytes fs
      (put_length_prefixed_slice (put_length_prefixed_slice numbers f.smallest) f.largest)

put_pointers-pointer_bytes :
    (ps : List (ℕ × List ℕ)) (dst : List ℕ) (xs : List Field)
    → All FieldFits (pointer_fields ps xs)
    → put_pointers ps dst ≡ some (pointer_bytes ps dst)
unfolding put_pointers pointer_bytes
put_pointers-pointer_bytes [] dst xs fits = refl
put_pointers-pointer_bytes ((l, k) ∷ ps) dst xs fits =
    rw (encode_key_lem k fits.0.2) (put_pointers-pointer_bytes ps _ xs fits.1)

put_files-file_bytes :
    (fs : List (ℕ × FileMetaData)) (dst : List ℕ)
    → All FieldFits (file_fields fs)
    → put_files fs dst ≡ some (file_bytes fs dst)
unfolding put_files file_bytes
put_files-file_bytes [] dst fits = refl
put_files-file_bytes ((l, f) ∷ fs) dst fits =
    rw (encode_key_lem f.smallest fits.0.5)
      (rw (encode_key_lem f.largest fits.0.6) (put_files-file_bytes fs _ fits.1))

pointer_bytes-fields :
    (ps : List (ℕ × List ℕ)) (dst : List ℕ) (xs : List Field)
    → pointer_bytes ps dst ++ record_of xs ≡ dst ++ record_of (pointer_fields ps xs)
unfolding pointer_bytes put_varint32
pointer_bytes-fields [] dst xs = refl
pointer_bytes-fields ((l, k) ∷ ps) dst xs =
    pointer_bytes-fields ps _ xs
    ∙ rw (put_length_prefixed_slice-slice_of ((dst ++ encode_varint32 5) ++ encode_varint32 l) k)
        (simp append_assoc refl)

put_deleted-fields :
    (ds : List (ℕ × ℕ)) (dst : List ℕ) (xs : List Field)
    → put_deleted ds dst ++ record_of xs ≡ dst ++ record_of (deleted_fields ds xs)
unfolding put_deleted put_varint32 put_varint64
put_deleted-fields [] dst xs = refl
put_deleted-fields ((l, n) ∷ ds) dst xs = put_deleted-fields ds _ xs ∙ simp append_assoc refl

file_bytes-fields :
    (fs : List (ℕ × FileMetaData)) (dst : List ℕ)
    → file_bytes fs dst ≡ dst ++ record_of (file_fields fs)
unfolding file_bytes put_varint32 put_varint64
file_bytes-fields [] dst = sym (append-nil dst)
file_bytes-fields ((l, f) ∷ fs) dst =
    let front = dst ++ encode_varint32 7 ++ encode_varint32 l in
    let numbers = front ++ encode_varint64 f.number ++ encode_varint64 f.filesize in
    file_bytes-fields fs _
    ∙ rw
        (
          put_length_prefixed_slice-slice_of numbers f.smallest,
          put_length_prefixed_slice-slice_of (numbers ++ slice_of f.smallest) f.largest,
        )
        (simp append_assoc refl)

flag-rest :
    (b : Bool) (x : Field) (xs : List Field) → All FieldFits (flag_field b x xs) → All FieldFits xs
flag-rest false x xs h = h
flag-rest true x xs h = h.1

pointer-rest :
    (ps : List (ℕ × List ℕ)) (xs : List Field)
    → All FieldFits (pointer_fields ps xs)
    → All FieldFits xs
pointer-rest [] xs h = h
pointer-rest ((l, k) ∷ ps) xs h = pointer-rest ps xs h.1

deleted-rest :
    (ds : List (ℕ × ℕ)) (xs : List Field) → All FieldFits (deleted_fields ds xs) → All FieldFits xs
deleted-rest [] xs h = h
deleted-rest ((l, n) ∷ ds) xs h = deleted-rest ds xs h.1

pub encode_to-fields :
    (e : VersionEdit) (dst : List ℕ)
    → All FieldFits (fields_of e)
    → encode_to e dst ≡ some (dst ++ record_of (fields_of e))
unfolding encode_to
encode_to-fields e dst fits =
    let rest = deleted_fields e.deletedfiles (file_fields e.newfiles) in
    let pointers = flag-rest e.haslastsequence _ _ (
      flag-rest e.hasnextfilenumber _ _ (
        flag-rest e.hasprevlognumber _ _
          (flag-rest e.haslognumber _ _ (flag-rest e.hascomparator _ _ fits)))) in
    let files = deleted-rest e.deletedfiles _ (pointer-rest e.compactpointers rest pointers) in
    let named = put_name e.hascomparator e.comparator dst in
    let log = put_number 2 e.haslognumber e.lognumber named in
    let prev = put_number 9 e.hasprevlognumber e.prevlognumber log in
    let next = put_number 3 e.hasnextfilenumber e.nextfilenumber prev in
    let last = put_number 4 e.haslastsequence e.lastsequence next in
    rw (put_pointers-pointer_bytes e.compactpointers last rest pointers, encode_to)
      (put_files-file_bytes e.newfiles _ files
        ∙ ap some (
            file_bytes-fields e.newfiles _
            ∙ put_deleted-fields e.deletedfiles _ _
            ∙ pointer_bytes-fields e.compactpointers _ _
            ∙ put_number-fields 4 e.lastsequence (last_field e.lastsequence) e.haslastsequence _ _
                refl
            ∙ put_number-fields 3 e.nextfilenumber (next_field e.nextfilenumber) e.hasnextfilenumber
                _ _ refl
            ∙ put_number-fields 9 e.prevlognumber (prev_field e.prevlognumber) e.hasprevlognumber _
                _ refl
            ∙ put_number-fields 2 e.lognumber (log_field e.lognumber) e.haslognumber _ _ refl
            ∙ put_name-fields e.hascomparator e.comparator dst _))
